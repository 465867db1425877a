-- ===== src/Relayer/Fetched.antt =====
-- The rows that an ordered query returns: rollup/internal/orm/batch.go.
use scroll.Common.{
  ℕ, zero, suc, ◌≤◌, ◌≡◌, ◌⊎◌, refl, inl, inr, Bool, true, false, List, [], ◌∷◌, All, arith, ltb,
  select, take, length, length-take, if◌then◌else◌, if_both, update_where,
}
use scroll.Relayer.{Batch}
use scroll.Relayer.Tables.{
  insert_by, order_by, is_failed_or_pending, get_failed_and_pending_batches, is_committed,
  get_committed_batches,
}

-- A row of a table.
abbrev pub In : {A : Type 0} → A → List A → Type 0
In a [] = ⊥
In a (b ∷ bs) = (b ≡ a) ⊎ In a bs

module _ {A : Type 0} where
  pub All-weaken : (P Q : A → Type 0) → ((a : A) → P a → Q a) → (xs : List A) → All P xs → All Q xs
  All-weaken P Q f [] p = tt
  All-weaken P Q f (x ∷ xs) p = (f x p.0, All-weaken P Q f xs p.1)

  pub All-In : (xs : List A) → All (λ a. In a xs) xs
  All-In [] = tt
  All-In (x ∷ xs) =
      (inl refl, All-weaken (λ a. In a xs) (λ a. In a (x ∷ xs)) (λ a i. inr i) xs (All-In xs))

  All-if :
      (P : A → Type 0) (b : Bool) (xs ys : List A)
      → (b ≡ true → All P xs)
      → (b ≡ false → All P ys)
      → All P (if b then xs else ys)
  All-if P b xs ys p q = if_both (All P) b p q

  -- A select keeps what holds, and its test holds.
  pub All-select :
      (P : A → Type 0) (q : A → Bool) (xs : List A)
      → All P xs
      → All (λ a. P a × (q a ≡ true)) (select q xs)
  All-select P q [] p = tt
  All-select P q (x ∷ xs) p =
      All-if (λ a. P a × (q a ≡ true)) (q x) (x ∷ select q xs) (select q xs)
        (λ e. ((p.0, e), All-select P q xs p.1)) (λ e. All-select P q xs p.1)

  pub All-take : (P : A → Type 0) (n : ℕ) (xs : List A) → All P xs → All P (take n xs)
  All-take P zero xs p = tt
  All-take P (suc n) [] p = tt
  All-take P (suc n) (x ∷ xs) p = (p.0, All-take P n xs p.1)

  -- What an UPDATE keeps of every row.
  pub All-update_where :
      (P Q : A → Type 0) (p : A → Bool) (f : A → A)
      → ((x : A) → P x → Q x)
      → ((x : A) → P x → p x ≡ true → Q (f x))
      → (xs : List A) → All P xs
      → All Q (update_where p f xs)
  unfolding update_where
  All-update_where P Q p f keep step [] a = tt
  All-update_where P Q p f keep step (x ∷ xs) a = (
    if_both Q (p x) (λ e. step x a.0 e) (λ e. keep x a.0),
    All-update_where P Q p f keep step xs a.1,
  )

  module _ (key : A → ℕ) where
    -- Keys that do not descend.
    abbrev pub IsAscending : List A → Type 0
    IsAscending [] = Unit
    IsAscending (x ∷ xs) = All (λ a. key x ≤ key a) xs × IsAscending xs

    pub All-insert_by :
        (P : A → Type 0) (a : A) (xs : List A) → P a → All P xs → All P (insert_by key a xs)
    unfolding insert_by
    All-insert_by P a [] h p = (h, tt)
    All-insert_by P a (x ∷ xs) h p =
        All-if P (ltb (key x) (key a)) (x ∷ insert_by key a xs) (a ∷ x ∷ xs)
          (λ e. (p.0, All-insert_by P a xs h p.1)) (λ e. (h, p))

    pub All-order_by : (P : A → Type 0) (xs : List A) → All P xs → All P (order_by key xs)
    unfolding order_by
    All-order_by P [] p = tt
    All-order_by P (x ∷ xs) p = All-insert_by P x (order_by key xs) p.0 (All-order_by P xs p.1)

    insert_by-IsAscending :
        (a : A) (xs : List A) → IsAscending xs → IsAscending (insert_by key a xs)
    unfolding insert_by
    insert_by-IsAscending a [] s = (tt, tt)
    insert_by-IsAscending a (x ∷ xs) s =
        if_both IsAscending (ltb (key x) (key a))
          (λ e.
            let below : key x ≤ key a = ground arith in
            (All-insert_by (λ c. key x ≤ key c) a xs below s.0, insert_by-IsAscending a xs s.1))
          (λ e.
            let above : key a ≤ key x = ground arith in
            (
              (
                above,
                All-weaken (λ c. key x ≤ key c) (λ c. key a ≤ key c) (λ c le. omega arith) xs s.0,
              ),
              s,
            ))

    pub order_by-IsAscending : (xs : List A) → IsAscending (order_by key xs)
    unfolding order_by
    order_by-IsAscending [] = tt
    order_by-IsAscending (x ∷ xs) =
        insert_by-IsAscending x (order_by key xs) (order_by-IsAscending xs)

    pub take-IsAscending : (n : ℕ) (xs : List A) → IsAscending xs → IsAscending (take n xs)
    take-IsAscending zero xs s = tt
    take-IsAscending (suc n) [] s = tt
    take-IsAscending (suc n) (x ∷ xs) s =
        (All-take (λ a. key x ≤ key a) n xs s.0, take-IsAscending n xs s.1)

    -- The rows of a query: all of them with what holds of every row and with its condition.
    pub All-fetched :
        (P : A → Type 0) (q : A → Bool) (n : ℕ) (xs : List A)
        → All P xs
        → All (λ a. P a × (q a ≡ true)) (take n (order_by key (select q xs)))
    All-fetched P q n xs p =
        All-take (λ a. P a × (q a ≡ true)) n (order_by key (select q xs))
          (All-order_by (λ a. P a × (q a ≡ true)) (select q xs) (All-select P q xs p))

    -- The least row that passes a test.
    pub fetched-least :
        (q : A → Bool) (n : ℕ) (xs rest : List A) (a : A)
        → take n (order_by key (select q xs)) ≡ a ∷ rest
        → All (λ b. key a ≤ key b) (order_by key (select q xs))
    fetched-least q n xs rest a e =
        least n (order_by key (select q xs)) (order_by-IsAscending (select q xs)) e
      where
        least :
            (m : ℕ) (ys : List A)
            → IsAscending ys
            → take m ys ≡ a ∷ rest
            → All (λ b. key a ≤ key b) ys
        least zero ys s e = absurd (cc)
        least (suc m) [] s e = absurd (cc)
        least (suc m) (y ∷ ys) s e =
            let same : y ≡ a = cc in
            (
              rw same (omega arith),
              All-weaken (λ b. key y ≤ key b) (λ b. key a ≤ key b) (λ b le. rw (← same) le) ys s.0,
            )

    All-insert_by-inv :
        (P : A → Type 0) (a : A) (xs : List A) → All P (insert_by key a xs) → P a × All P xs
    unfolding insert_by
    All-insert_by-inv P a [] p = (p.0, tt)
    All-insert_by-inv P a (x ∷ xs) p =
        if_both (λ ys. All P ys → P a × All P (x ∷ xs)) (ltb (key x) (key a))
          (λ e q. let (first, rest) = All-insert_by-inv P a xs q.1 in (first, (q.0, rest)))
          (λ e q. (q.0, q.1)) p

    All-order_by-inv : (P : A → Type 0) (xs : List A) → All P (order_by key xs) → All P xs
    unfolding order_by
    All-order_by-inv P [] p = tt
    All-order_by-inv P (x ∷ xs) p =
        let (first, rest) = All-insert_by-inv P x (order_by key xs) p in
        (first, All-order_by-inv P xs rest)

    All-select-inv :
        (P : A → Type 0) (q : A → Bool) (xs : List A)
        → All P (select q xs)
        → All (λ a. q a ≡ true → P a) xs
    All-select-inv P q [] p = tt
    All-select-inv P q (x ∷ xs) p =
        if_both (λ ys. All P ys → All (λ a. q a ≡ true → P a) (x ∷ xs)) (q x)
          (λ e r. (λ t. r.0, All-select-inv P q xs r.1))
          (λ e r. (λ t. absurd (cc), All-select-inv P q xs r)) p

    -- The first row that a query returns is the least that passes its test.
    pub fetched-first :
        (q : A → Bool) (n : ℕ) (xs rest : List A) (a : A)
        → take n (order_by key (select q xs)) ≡ a ∷ rest
        → All (λ b. q b ≡ true → key a ≤ key b) xs
    fetched-first q n xs rest a e =
        All-select-inv (λ b. key a ≤ key b) q xs
          (All-order_by-inv (λ b. key a ≤ key b) (select q xs) (fetched-least q n xs rest a e))

-- The batches that are committed in one pass are at most as many as the limit, pending or failed,
-- and in ascending order of their indices.
pub record IsFetched (limit : ℕ) (batches fetched : List Batch) : Type 0 where
  pub few : length fetched ≤ limit
  pub ascending : IsAscending (λ (b : Batch). b.index) fetched
  pub uncommitted :
      All (λ (b : Batch). In b batches × (is_failed_or_pending b.rollup_status ≡ true)) fetched

pub get_failed_and_pending-IsFetched :
    (limit : ℕ) (batches : List Batch)
    → IsFetched limit batches (get_failed_and_pending_batches limit batches)
unfolding get_failed_and_pending_batches
get_failed_and_pending-IsFetched limit batches =
    let test : Batch → Bool = λ b. is_failed_or_pending b.rollup_status in
    let all = order_by (λ (b : Batch). b.index) (select test batches) in
    record {
      few = omega (arith, length-take limit all);
      ascending =
          take-IsAscending (λ b. b.index) limit all
            (order_by-IsAscending (λ b. b.index) (select test batches));
      uncommitted =
          All-fetched (λ b. b.index) (λ b. In b batches) test limit batches (All-In batches);
    }

pub All-get_committed :
    (P : Batch → Type 0) (n : ℕ) (batches : List Batch)
    → All P batches
    → All (λ b. P b × (is_committed b.rollup_status ≡ true)) (get_committed_batches n batches)
unfolding get_committed_batches
All-get_committed P n batches =
    All-fetched (λ b. b.index) P (λ b. is_committed b.rollup_status) n batches
