-- ===== src/TryCatch.antt =====
-- The exception stack of src/nnc_try_catch.c, and the blocks that its macros make of it. The C
-- library's `setjmp` and `longjmp` are part of `exec`: a saved context is named by the number of TRY
-- bodies around it, and a jump returns to the TRY of that name.
pub mod Structured
pub mod Leaving
pub mod Agreement
mod Tests
use nnc.Common.{
  ℕ, zero, suc, ◌+◌, ◌-◌, Bool, true, false, not, if◌then◌else◌, ◌==◌, ltb, List, [], ◌∷◌,
}

-- `nnc_exception_stack`, its arrays as functions of the index, with what the program has done so far.
pub record Exceptions : Type 0 where
  pub depth : ℕ
  pub stack : ℕ → ℕ
  pub exceptions : ℕ → ℕ
  pub thrown : ℕ
  pub log : List ℕ

abbrev pub max_depth : ℕ
max_depth = 16

abbrev pub write : (ℕ → ℕ) → ℕ → ℕ → ℕ → ℕ
write f i v j = if i == j then v else f j

-- `jumped c k s` is a `longjmp` to the context `c` with the value `k`; `fault` is an access outside
-- an array.
pub data Outcome : Type 0 where
  finished : Exceptions → Outcome
  jumped : ℕ → ℕ → Exceptions → Outcome
  aborted : Outcome
  fault : Outcome

unfoldable pub try_free : Exceptions → Exceptions
try_free s = record s { depth = s.depth - 1 }

-- `nnc_try`, with what follows when it returns `true` and when it returns `false`.
unfoldable pub enter : ℕ → Exceptions → (Exceptions → Outcome) → (Exceptions → Outcome) → Outcome
unfolding try_free
enter state s body handlers =
    if s.depth == max_depth
    then aborted
    else (if state == 0
        then body (record s { exceptions = write s.exceptions s.depth state; depth = s.depth + 1 })
        else handlers (try_free (record s { exceptions = write s.exceptions s.depth state })))

unfoldable pub throw : ℕ → Exceptions → Outcome
throw kind s =
    if s.depth == 0 then fault else jumped (s.stack (s.depth - 1)) kind (record s { thrown = kind })

unfoldable pub catches : ℕ → Exceptions → Bool
catches kind s = s.exceptions (s.depth + 1) == kind

-- Blocks over the macros: a step of the program, THROW of the kind above the given number (kind 0 is
-- NNC_CONTEXT_SAVED), and TRY with its body, ETRY at its end, and its handlers CATCH and CATCHALL.
mutual
  pub data Block : Type 0 where
    skip : Block
    step : ℕ → Block
    throws : ℕ → Block
    seq : Block → Block → Block
    try_block : Block → Handlers → Block

  pub data Handlers : Type 0 where
    no_handler : Handlers
    catch_all : Block → Handlers
    catch_kind : ℕ → Block → Handlers → Handlers

abbrev pub and_then : Outcome → (Exceptions → Outcome) → Outcome
and_then (finished s) f = f s
and_then (jumped c k s) f = jumped c k s
and_then aborted f = aborted
and_then fault f = fault

-- What a TRY named `n` does with the outcome of its body: ETRY, or the second return of `setjmp`.
pub leave : ℕ → (Exceptions → Outcome) → Outcome → Outcome
unfolding try_free enter
leave n handlers (finished s) = finished (try_free s)
leave n handlers (jumped c k s) = if c == n then enter k s finished handlers else jumped c k s
leave n handlers aborted = aborted
leave n handlers fault = fault

unfoldable mutual
  unfolding enter throw catches leave

  pub exec : ℕ → Block → Exceptions → Outcome
  exec n skip s = finished s
  exec n (step e) s = finished (record s { log = e ∷ s.log })
  exec n (throws k) s = throw (suc k) s
  exec n (seq a b) s = and_then (exec n a s) (exec n b)
  exec n (try_block b hs) s =
      if ltb s.depth max_depth
      then enter 0 (record s { stack = write s.stack s.depth n })
          (λ t. leave n (handle n hs) (exec (suc n) b t)) finished
      else fault

  pub handle : ℕ → Handlers → Exceptions → Outcome
  handle n no_handler s = finished s
  handle n (catch_all b) s = exec n b s
  handle n (catch_kind k b hs) s =
      let here = exec n b s in let rest = handle n hs s in if catches (suc k) s then here else rest
