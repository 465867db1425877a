-- ===== src/Sender/Submissions.antt =====
-- A first submission takes a new nonce: rollup/internal/controller/sender/sender.go.
use scroll.Common.{ℕ, ◌≡◌, ◌⊎◌, Option, none, some}
use scroll.Sender.{Transaction, Sender, nonce_refused, Client}
use scroll.Sender.Nonces.{IsNonced}

-- What is left behind a submission that layer 1 refuses for its nonce: no hash is returned, no row
-- is added, and the sender's nonce is the one that the client reports.
pub record IsReset (client : Client) (s : Sender) (r : Option ℕ × Sender) : Type 0 where
  pub refusal : (tx : Transaction) × (tx.nonce ≡ s.nonce) × (client.submit tx ≡ nonce_refused)
  pub result : r.0 ≡ none
  pub rows : r.1.rows ≡ s.rows
  pub nonce : client.pending_nonce ≡ some r.1.nonce

-- A submission keeps the nonces apart, or is refused for its nonce.
abbrev pub IsSubmitted : Client → Sender → Option ℕ × Sender → Type 0
IsSubmitted client s r = IsNonced r.1 ⊎ IsReset client s r
