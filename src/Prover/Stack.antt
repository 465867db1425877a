-- ===== src/Prover/Stack.antt =====
-- The bucket keeps its order: prover/store/stack.go.
use scroll.Common.{ℕ, ◌<◌, ◌≡◌, sym, subst, not, some, [], ◌∷◌, All, arith, ltb, ◌==◌, if_both}
use scroll.Relayer.Fetched.{All-weaken}
use scroll.Prover.{ProvingTask, Entry, Bucket, put, last_entry, delete}

-- Keys that ascend.
abbrev pub IsSorted : Bucket → Type 0
IsSorted [] = Unit
IsSorted (e ∷ es) = All (λ (f : Entry). e.key < f.key) es × IsSorted es

pub All-put :
    (P : Entry → Type 0) (k : ℕ) (t : ProvingTask) (b : Bucket)
    → P (record { key = k; value = t })
    → All P b
    → All P (put k t b)
unfolding put
All-put P k t [] p a = (p, tt)
All-put P k t (e ∷ es) p a =
    if_both (All P) (k == e.key) (λ x. (p, a.1))
      (λ x. if_both (All P) (ltb k e.key) (λ y. (p, a)) (λ y. (a.0, All-put P k t es p a.1)))

pub put-IsSorted : (k : ℕ) (t : ProvingTask) (b : Bucket) → IsSorted b → IsSorted (put k t b)
unfolding put
put-IsSorted k t [] s = (tt, tt)
put-IsSorted k t (e ∷ es) s =
    if_both IsSorted (k == e.key)
      (λ x.
        let same : k ≡ e.key = ground arith in
        (subst (λ m. All (λ (f : Entry). m < f.key) es) (sym same) s.0, s.1))
      (λ x.
        if_both IsSorted (ltb k e.key)
          (λ y.
            let low : k < e.key = ground arith in
            (
              (
                low,
                All-weaken (λ (f : Entry). e.key < f.key) (λ f. k < f.key) (λ f h. omega arith) es
                    s.0,
              ),
              s,
            ))
          (λ y.
            let high : e.key < k = ground arith in
            (All-put (λ f. e.key < f.key) k t es high s.0, put-IsSorted k t es s.1)))

pub All-delete : (P : Entry → Type 0) (k : ℕ) (b : Bucket) → All P b → All P (delete k b)
unfolding delete
All-delete P k [] a = tt
All-delete P k (e ∷ es) a =
    if_both (All P) (not (e.key == k)) (λ x. (a.0, All-delete P k es a.1))
      (λ x. All-delete P k es a.1)

pub delete-IsSorted : (k : ℕ) (b : Bucket) → IsSorted b → IsSorted (delete k b)
unfolding delete
delete-IsSorted k [] s = tt
delete-IsSorted k (e ∷ es) s =
    if_both IsSorted (not (e.key == k))
      (λ x. (All-delete (λ f. e.key < f.key) k es s.0, delete-IsSorted k es s.1))
      (λ x. delete-IsSorted k es s.1)

-- What holds of every entry holds of the last one.
pub last_entry-All :
    (P : Entry → Type 0) (b : Bucket) (e : Entry) → All P b → last_entry b ≡ some e → P e
unfolding last_entry
last_entry-All P [] e a eq = absurd (cc)
last_entry-All P (x ∷ []) e a eq = let same : x ≡ e = cc in subst P same a.0
last_entry-All P (x ∷ y ∷ ys) e a eq = last_entry-All P (y ∷ ys) e a.1 eq
