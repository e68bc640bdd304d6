-- ===== src/TryCatch/Tests.antt =====
-- The theorems on exceptions at concrete blocks, and a run.
use nnc.Common.{ℕ, ◌+◌, ◌<◌, ◌≡◌, refl, [], ◌∷◌, arith}
use nnc.TryCatch.{
  Exceptions, Block, skip, step, throws, seq, try_block, no_handler, catch_kind, catch_all, exec,
  finished, aborted,
}
use nnc.TryCatch.Structured.{nesting, meaning, Agrees, done}
use nnc.TryCatch.Agreement.{exec-Agrees, exec-full}

abbrev at_depth : ℕ → Exceptions
at_depth d = record { depth = d; stack = λ i. i; exceptions = λ i. 0; thrown = 0; log = [] }

-- The inner TRY has no handler for kind 5; the outer one does the step 9.
abbrev nested : Block
nested =
    try_block
      (seq (step 1)
        (try_block (seq (throws 5) (step 2)) (catch_kind 7 (step 3) (catch_all (throws 6)))))
      (catch_kind 6 (step 9) no_handler)

nested_shallow : 1 + nesting nested < 16
unfolding nesting
nested_shallow = omega arith

exec-Agrees_example : Agrees (at_depth 1) (exec 1 nested (at_depth 1)) (meaning nested [])
exec-Agrees_example = exec-Agrees 1 nested (at_depth 1) (omega arith) nested_shallow

meaning-nested : meaning nested [] ≡ done (9 ∷ 1 ∷ [])
unfolding meaning
meaning-nested = refl

exec-full_example :
    (exec 15 (try_block (throws 2) (catch_all (step 1))) (at_depth 15) ≡ aborted)
    × ((t : Exceptions) × (exec 15 (try_block skip (catch_all (step 1))) (at_depth 15) ≡ finished t)
        × (t.depth ≡ 15))
exec-full_example = exec-full 15 2 (catch_all (step 1)) (at_depth 15) refl
