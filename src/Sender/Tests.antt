-- ===== src/Sender/Tests.antt =====
-- Concrete runs of the sender.
use scroll.Common.{
  ℕ, ◌≡◌, refl, sym, inl, inr, true, false, some, none, [], ◌∷◌, arith, length, ◌∙◌,
}
use scroll.Relayer.{sender_commit_batch}
use scroll.Sender.{tx_pending, dynamic_fee_tx, Config, FeeData, Sender, accepted, Client}
use scroll.Sender.Fees.{bump_dynamic}
use scroll.Sender.Transactions.{check_pending_transaction}
use scroll.Sender.Bumps.{
  IsEscalating, IsRaised, bump_dynamic-IsRaised, AreInverted, bump_dynamic-inverts,
}
use scroll.Sender.Nonces.{IsNonced, check_pending-IsNonced}

abbrev cfg : Config
cfg = record {
  tx_type = dynamic_fee_tx;
  escalate_multiple_num = 11;
  escalate_multiple_den = 10;
  max_gas_price = 1000;
  max_blob_gas_price = 1000;
  escalate_blocks = 1;
}

cfg-IsEscalating : IsEscalating cfg
cfg-IsEscalating = record { den_positive = omega arith; at_least_one = omega arith }

abbrev fees : ℕ → ℕ → FeeData
fees tip fee = record {
  gas_limit = 21000;
  gas_price = 0;
  gas_tip_cap = tip;
  gas_fee_cap = fee;
  blob_gas_fee_cap = 0;
}

bump_dynamic-IsRaised_example : IsRaised cfg (fees 5 300) (bump_dynamic cfg 100 (fees 5 300))
bump_dynamic-IsRaised_example =
    bump_dynamic-IsRaised cfg 100 (fees 5 300) cfg-IsEscalating (omega arith) (omega arith)

bump_dynamic-inverts_example :
    AreInverted cfg (bump_dynamic cfg 100 (bump_dynamic cfg 100 (fees 990 1000)))
bump_dynamic-inverts_example =
    bump_dynamic-inverts cfg 100 100 (fees 990 1000) cfg-IsEscalating (omega arith) refl
      (omega arith)

-- Nothing is confirmed, and every transaction is accepted.
abbrev client : Client
client = record {
  head = some (20, 100, 1);
  confirmed_block = some 10;
  suggested_price = some 7;
  suggested_tip = some 5;
  estimated_gas = some 21000;
  sidecar_made = true;
  hash_of = λ tx. tx.fees.gas_fee_cap;
  submit = λ tx. accepted;
  pending_nonce = some 4;
  receipt = λ hash. none;
  decodes = λ hash. true;
  sender_type = sender_commit_batch;
  load_fails = false;
  insert_fails = false;
  status_fails = λ hash. false;
  transaction_fails = λ hash. false;
}

abbrev waiting : Sender
waiting = record {
  nonce = 4;
  rows =
      record {
        context_id = 71;
        hash = 300;
        gas_fee_cap = 300;
        tx = record { nonce = 3; payload = 1 ∷ []; blob = none; fees = fees 5 300 };
        status = tx_pending;
        submit_block_number = 2;
      }
      ∷ [];
  confirmed = [];
}

waiting-IsNonced : IsNonced waiting
waiting-IsNonced = record {
  unused = λ n c h. elim h [ inl e ↦ let same = e.0 in omega arith | inr e ↦ absurd e ];
  unique = λ n c d h g. elim h [
    | inl e ↦ elim g [ inl f ↦ sym e.1 ∙ f.1 | inr f ↦ absurd f ]
    | inr e ↦ absurd e
  ];
}

check_pending-IsNonced_example : IsNonced (check_pending_transaction cfg client waiting)
check_pending-IsNonced_example = check_pending-IsNonced cfg client waiting waiting-IsNonced

-- The waiting transaction is replaced under its nonce.
replaced : length (check_pending_transaction cfg client waiting).rows ≡ 2
unfolding check_pending_transaction
replaced = refl
