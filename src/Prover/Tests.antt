-- ===== src/Prover/Tests.antt =====
-- Concrete runs of the prover.
use scroll.Common.{ℕ, ◌≡◌, refl, false, some, [], ◌∷◌, arith}
use scroll.Coordinator.{proof_type_chunk}
use scroll.Prover.{Entry, Bucket, delete, last_entry, Env, panicked, submitted, prove_and_submit}
use scroll.Prover.Tries.{IsStacked, prove_and_submit-IsStacked}
use scroll.Prover.Panics.{IsPanicking, runs, runs-delete}

abbrev panicking : Env
panicking = record {
  peek_fails = false;
  push_fails = false;
  update_fails = false;
  delete_fails = false;
  get_task = some (9, 1, proof_type_chunk);
  prove = λ t. panicked;
  submit = λ t. submitted;
}

abbrev entry : ℕ → ℕ → Entry
entry id times = record {
  key = id;
  value = record { id = id; uuid = 1; task_type = proof_type_chunk; times = times };
}

abbrev bucket : Bucket
bucket = entry 5 0 ∷ entry 7 1 ∷ []

bucket-IsStacked : IsStacked bucket
bucket-IsStacked = record {
  sorted = ((omega arith, tt), (tt, tt));
  tried = ((refl, omega arith), ((refl, omega arith), tt));
}

panicking-IsPanicking : IsPanicking panicking
panicking-IsPanicking = record { peeks = refl; updates = refl; deletes = refl; panics = λ t. refl }

prove_and_submit-IsStacked_example : IsStacked (prove_and_submit panicking bucket)
prove_and_submit-IsStacked_example = prove_and_submit-IsStacked panicking bucket bucket-IsStacked

bucket-last : last_entry bucket ≡ some (entry 7 1)
unfolding last_entry
bucket-last = refl

runs-delete_example : runs panicking 3 bucket ≡ delete 7 bucket
runs-delete_example =
    runs-delete panicking 2 bucket (entry 7 1) panicking-IsPanicking bucket-IsStacked bucket-last
      refl
