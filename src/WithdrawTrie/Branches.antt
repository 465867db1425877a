-- ===== src/WithdrawTrie/Branches.antt =====
-- What the branches hold before and after a message: updateBranchWithNewMessage of
-- bridge-history-api/internal/utils/withdraw_trie.go.
use native.Mathlib.Nat.{pow-succ'}
use native.Mathlib.Decide.{ℕ_discrete}
use scroll.Common.{
  ℕ, zero, suc, ◌+◌, ◌*◌, ◌-◌, ◌/◌, ◌%◌, ◌^◌, ◌<◌, ◌≤◌, ◌≡◌, ◌⊎◌, refl, sym, ap, ◌∙◌, subst, inl,
  inr, true, false, some, List, [], ◌∷◌, length, arith, ◌==◌, ==_refl,
}
use scroll.WithdrawTrie.{Hashes, set_at, put_proof, zeroes, update_from}
use scroll.WithdrawTrie.Nodes.{Level, up, node, IsDepthOf}

module _ (keccak2 : ℕ → ℕ → ℕ) where
  -- The branches from a height on hold the left siblings that the message after `count` others
  -- needs: at each bit of the count that is set, the last node of the level.
  abbrev pub HasSiblings : ℕ → ℕ → ℕ → Level → Hashes → Type 0
  HasSiblings zero height count level branches = Unit
  HasSiblings (suc room) height count level branches =
      ((count % 2 ≡ 0) ⊎ (branches height ≡ level (count - 1)))
      × HasSiblings room (suc height) (count / 2) (up keccak2 level) branches

  pub HasSiblings-zero :
      (room height : ℕ) (level : Level) (branches : Hashes)
      → HasSiblings room height 0 level branches
  HasSiblings-zero zero height level branches = tt
  HasSiblings-zero (suc room) height level branches =
      (inl refl, HasSiblings-zero room (suc height) (up keccak2 level) branches)

  -- What the loop leaves, if it is given the node at `index` and no later node exists.
  pub record IsUpdated (room height : ℕ) (index : ℕ) (level : Level) (before after : Hashes)
      (proof : List ℕ) : Type 0 where
    pub stay : HasSiblings room height index level after
    pub next : HasSiblings room height (index + 1) level after
    pub below : (k : ℕ) → k < height → after k ≡ before k
    pub root : after (height + length proof) ≡ node keccak2 (length proof) level 0
    pub depth : IsDepthOf index (length proof)

  -- No message stands behind an index, and the levels agree before it.
  pub record IsLast (height index : ℕ) (old new : Level) : Type 0 where
    pub same : (i : ℕ) → i < index → new i ≡ old i
    pub empty : (i : ℕ) → index < i → new i ≡ zeroes keccak2 height

  IsLast-up :
      (height index : ℕ) (old new : Level)
      → IsLast height index old new
      → IsLast (suc height) (index / 2) (up keccak2 old) (up keccak2 new)
  unfolding zeroes
  IsLast-up height index old new l = record {
    same = λ i below.
        let a : 2 * i < index = omega arith in
        let b : 2 * i + 1 < index = omega arith in cc (l.same (2 * i) a, l.same (2 * i + 1) b);
    empty = λ i above.
        let a : index < 2 * i = omega arith in
        let b : index < 2 * i + 1 = omega arith in cc (l.empty (2 * i) a, l.empty (2 * i + 1) b);
  }

  IsDepthOf-suc :
      (index depth : ℕ) → 0 < index → IsDepthOf (index / 2) depth → IsDepthOf index (suc depth)
  IsDepthOf-suc index depth pos d =
      let double : 2 ^ suc depth ≡ 2 * 2 ^ depth = pow-succ' 2 depth in
      record {
        fits = omega (arith, double, d.fits);
        least = inr (elim d.least [
          | inl e ↦ let one : 2 ^ depth ≡ 1 = ap (λ k. 2 ^ k) e in omega (arith, double, one)
          | inr e ↦ omega (arith, double, e)
        ]);
      }

  pub IsUpdated-zero :
      (room height : ℕ) (level : Level) (before : Hashes) (root : ℕ)
      → root ≡ level 0
      → IsUpdated (suc room) height 0 level before (set_at height root before) []
  IsUpdated-zero room height level before root e = record {
    stay = HasSiblings-zero (suc room) height level (set_at height root before);
    next = (
      inr (here ∙ e),
      HasSiblings-zero room (suc height) (up keccak2 level) (set_at height root before),
    );
    below = λ k small. ground arith;
    root = ap (set_at height root before) (omega arith) ∙ here ∙ e;
    depth = record { fits = omega arith; least = inl refl };
  }
    where
      here : set_at height root before height ≡ root
      here = rw (==_refl height) refl

  -- A left child: the root so far is stored, and the right child is empty.
  pub IsUpdated-left :
      (room height index : ℕ) (level : Level) (before after : Hashes) (proof : List ℕ) (root p : ℕ)
      → 0 < index
      → index % 2 ≡ 0
      → root ≡ level index
      → IsUpdated room
          (suc height)
          (index / 2)
          (up keccak2 level)
          (set_at height root before)
          after
          proof
      → IsUpdated (suc room) height index level before after (p ∷ proof)
  IsUpdated-left room height index level before after proof root p pos even e u = record {
    stay = (inl even, u.stay);
    next = (
      inr (u.below height (omega arith) ∙ stored ∙ e ∙ ap level (omega arith)),
      subst (λ c. HasSiblings room (suc height) c (up keccak2 level) after) (omega arith) u.stay,
    );
    below = λ k small. u.below k (omega arith) ∙ others k small;
    root = ap after (omega arith) ∙ u.root;
    depth = IsDepthOf-suc index (length proof) pos u.depth;
  }
    where
      stored : set_at height root before height ≡ root
      stored = rw (==_refl height) refl

      others : (k : ℕ) → k < height → set_at height root before k ≡ before k
      others k small = ground arith

  -- A right child: the branch is its left sibling.
  pub IsUpdated-right :
      (room height index : ℕ) (level : Level) (before after : Hashes) (proof : List ℕ) (p : ℕ)
      → index % 2 ≡ 1
      → before height ≡ level (index - 1)
      → IsUpdated room (suc height) (index / 2) (up keccak2 level) before after proof
      → IsUpdated (suc room) height index level before after (p ∷ proof)
  IsUpdated-right room height index level before after proof p odd sibling u = record {
    stay = (inr (u.below height (omega arith) ∙ sibling), u.stay);
    next = (
      inl (omega arith),
      subst (λ c. HasSiblings room (suc height) c (up keccak2 level) after) (omega arith) u.next,
    );
    below = λ k small. u.below k (omega arith);
    root = ap after (omega arith) ∙ u.root;
    depth = IsDepthOf-suc index (length proof) (omega arith) u.depth;
  }

  pub HasSiblings-ext :
      (room height count : ℕ) (level : Level) (a b : Hashes)
      → ((k : ℕ) → height ≤ k → b k ≡ a k)
      → HasSiblings room height count level a
      → HasSiblings room height count level b
  HasSiblings-ext zero height count level a b e s = tt
  HasSiblings-ext (suc room) height count level a b e s = (
    elim s.0 [ inl even ↦ inl even | inr held ↦ inr (e height (omega arith) ∙ held) ],
    HasSiblings-ext room (suc height) (count / 2) (up keccak2 level) a b
        (λ k above. e k (omega arith)) s.1,
  )

  step-zero :
      (room height : ℕ) (branches : Hashes) (root : ℕ)
      → update_from keccak2 (suc room) height branches 0 root
        ≡ some ([], set_at height root branches)
  unfolding update_from
  step-zero room height branches root = refl

  step-left :
      (room height index : ℕ) (branches : Hashes) (root : ℕ)
      → 0 < index
      → index % 2 ≡ 0
      → update_from keccak2 (suc room) height branches index root
        ≡ put_proof (zeroes keccak2 height) (
            update_from keccak2 room
              (suc height)
              (set_at height root branches)
              (index / 2)
              (keccak2 root (zeroes keccak2 height)))
  unfolding update_from
  step-left room height index branches root pos even =
      let a : (index == 0) ≡ false = ground arith in
      let b : (index % 2 == 0) ≡ true = ground arith in ground arith

  step-right :
      (room height index : ℕ) (branches : Hashes) (root : ℕ)
      → index % 2 ≡ 1
      → update_from keccak2 (suc room) height branches index root
        ≡ put_proof (branches height) (
            update_from keccak2 room
              (suc height)
              branches
              (index / 2)
              (keccak2 (branches height) root))
  unfolding update_from
  step-right room height index branches root odd =
      let a : (index == 0) ≡ false = ground arith in
      let b : (index % 2 == 0) ≡ false = ground arith in ground arith

  -- What the loop returns, where the array has room for the index.
  abbrev pub Updates : ℕ → ℕ → ℕ → Level → Hashes → ℕ → Type 0
  Updates room height index level before root =
      (r : List ℕ × Hashes) × (update_from keccak2 room height before index root ≡ some r)
      × IsUpdated room height index level before r.1 r.0

  Updates-zero :
      (room height index : ℕ) (level : Level) (before : Hashes) (root : ℕ)
      → index ≡ 0
      → root ≡ level index
      → Updates (suc room) height index level before root
  Updates-zero room height index level before root z e =
      subst (λ k. Updates (suc room) height k level before root) (sym z)
        (
          ([], set_at height root before),
          step-zero room height before root,
          IsUpdated-zero room height level before root (e ∙ ap level z),
        )

  pub update_from-Updates :
      (room height index : ℕ) (old new : Level) (before : Hashes) (root : ℕ)
      → index < 2 ^ room
      → HasSiblings (suc room) height index old before
      → IsLast height index old new
      → root ≡ new index
      → Updates (suc room) height index new before root
  update_from-Updates zero height index old new before root small s l e =
      Updates-zero zero height index new before root (omega arith) e
  update_from-Updates (suc room) height index old new before root small s l e =
      let half : index / 2 < 2 ^ room = omega (arith, pow-succ' 2 room) in
      let lower = IsLast-up height index old new l in
      elim (ℕ_discrete (index % 2) 1) [
        | yes odd ↦
            let held : before height ≡ new (index - 1) = elim s.0 [
              | inl even ↦ absurd (omega arith)
              | inr h ↦ h ∙ sym (l.same (index - 1) (omega arith))
            ] in
            let left : index - 1 ≡ 2 * (index / 2) = omega arith in
            let right : index ≡ 2 * (index / 2) + 1 = omega arith in
            let (r, run, u) =
              update_from-Updates room (suc height) (index / 2) (up keccak2 old) (up keccak2 new)
                before (keccak2 (before height) root) half s.1 lower
                (cc (held, e, ap new left, ap new right)) in
            (
              (before height ∷ r.0, r.1),
              step-right (suc room) height index before root odd
                  ∙ ap (put_proof (before height)) run,
              IsUpdated-right (suc room) height index new before r.1 r.0 (before height) odd held u,
            )
        | no not_odd ↦
            let even : index % 2 ≡ 0 = omega arith in
            elim (ℕ_discrete index 0) [
              | yes z ↦ Updates-zero (suc room) height index new before root z e
              | no pos ↦
                  let left : index ≡ 2 * (index / 2) = omega arith in
                  let right : index + 1 ≡ 2 * (index / 2) + 1 = omega arith in
                  let none_right = l.empty (index + 1) (omega arith) in
                  let (r, run, u) =
                    update_from-Updates room (suc height) (index / 2) (up keccak2 old)
                      (up keccak2 new) (set_at height root before)
                      (keccak2 root (zeroes keccak2 height)) half
                      (HasSiblings-ext (suc room) (suc height) (index / 2) (up keccak2 old) before
                        (set_at height root before) (λ k above. set_at-above k above) s.1)
                      lower (cc (e, none_right, ap new left, ap new right)) in
                  (
                    (zeroes keccak2 height ∷ r.0, r.1),
                    step-left (suc room) height index before root (omega arith) even
                        ∙ ap (put_proof (zeroes keccak2 height)) run,
                    IsUpdated-left (suc room) height index new before r.1 r.0 root
                        (zeroes keccak2 height) (omega arith) even e u,
                  )
            ]
      ]
    where
      set_at-above : (k : ℕ) → suc height ≤ k → set_at height root before k ≡ before k
      set_at-above k above = ground arith
