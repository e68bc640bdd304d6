-- ===== src/TryCatch/Agreement.antt =====
-- The exception stack of src/nnc_try_catch.c implements structured exceptions.
use nnc.Common.{
  ℕ, suc, ◌+◌, ◌-◌, ◌≤◌, ◌<◌, ◌≡◌, ◌∙◌, refl, sym, ap, true, false, if◌then◌else◌, ◌==◌, ltb, ◌∷◌,
  arith, Bool-cases, inl, inr,
}
use mathlib.Core.Path.{subst}
use nnc.TryCatch.{
  Exceptions, max_depth, write, Outcome, finished, jumped, aborted, fault, try_free, enter, throw,
  catches, Block, skip, step, throws, seq, try_block, Handlers, no_handler, catch_all, catch_kind,
  leave, exec, handle,
}
use nnc.TryCatch.Structured.{
  Result, rescue, meaning, choose, max, nesting, nesting_all, Keeps, Agrees, and_then-Agrees,
}
use nnc.TryCatch.Leaving.{entered, write_self, leave-Agrees}

Keeps-self : (s : Exceptions) → Keeps s s s.log
Keeps-self s = record { same_depth = refl; same_log = refl; same_stack = λ i p. refl }

throw_lem :
    (k : ℕ) (s : Exceptions)
    → 1 ≤ s.depth
    → throw k s ≡ jumped (s.stack (s.depth - 1)) k (record s { thrown = k })
unfolding throw
throw_lem k s p = rw (positive s.depth p)
  where
    positive : (d : ℕ) → 1 ≤ d → (d == 0) ≡ false
    positive d p = ground arith

enter_lem :
    (n : ℕ) (s : Exceptions) (f : Exceptions → Outcome)
    → s.depth < max_depth
    → (if ltb s.depth max_depth
        then enter 0 (record s { stack = write s.stack s.depth n }) f finished
        else fault)
      ≡ f (entered n s)
unfolding enter entered
enter_lem n s f d = rw (below s.depth d, apart s.depth d)
  where
    below : (i : ℕ) → i < max_depth → ltb i max_depth ≡ true
    below i h = ground arith

    apart : (i : ℕ) → i < max_depth → (i == max_depth) ≡ false
    apart i h = ground arith

max_left : (d a b : ℕ) → d + max a b < max_depth → d + a < max_depth
max_left d a b h = ground arith

max_right : (d c a b : ℕ) → c ≡ d → d + max a b < max_depth → c + b < max_depth
max_right d c a b e h = ground arith

shallow : (d a : ℕ) → d + a < max_depth → d < max_depth
shallow d a h = omega arith

inner : (d a b : ℕ) → d + max (suc a) b < max_depth → d + 1 < max_depth
inner d a b h = ground arith

inner_body : (d a b : ℕ) → d + max (suc a) b < max_depth → d + 1 + a < max_depth
inner_body d a b h = ground arith

pick :
    (s : Exceptions) (x j k : ℕ) (o o' : Outcome) (r r' : Result)
    → x ≡ suc k
    → Agrees s o r
    → Agrees s o' r'
    → Agrees s (if x == suc j then o else o') (if j == k then r else r')
pick s x j k o o' r r' e a a' = elim (Bool-cases (j == k)) [
  | inl h ↦ rw (h, match x j k e h) a
  | inr h ↦ rw (h, differ x j k e h) a'
]
  where
    match : (x j k : ℕ) → x ≡ suc k → (j == k) ≡ true → (x == suc j) ≡ true
    match x j k e h = ground arith

    differ : (x j k : ℕ) → x ≡ suc k → (j == k) ≡ false → (x == suc j) ≡ false
    differ x j k e h = ground arith

mutual
  unfolding exec handle meaning choose nesting nesting_all Agrees entered catches

  run-Agrees :
      (n : ℕ) (b : Block) (s : Exceptions)
      → 1 ≤ s.depth
      → s.depth + nesting b < max_depth
      → Agrees s (exec n b s) (meaning b s.log)
  run-Agrees n skip s p d = (s, refl, Keeps-self s)
  run-Agrees n (step e) s p d = (
    record s { log = e ∷ s.log },
    refl,
    record { same_depth = refl; same_log = refl; same_stack = λ i q. refl },
  )
  run-Agrees n (throws k) s p d = (
    record s { thrown = suc k },
    throw_lem (suc k) s p,
    record { same_depth = refl; same_log = refl; same_stack = λ i q. refl },
  )
  run-Agrees n (seq a b) s p d =
      and_then-Agrees s (exec n a s) (meaning a s.log) (exec n b) (meaning b) p
        (run-Agrees n a s p (max_left s.depth (nesting a) (nesting b) d))
        (λ t e.
          run-Agrees n b t (omega (arith, e))
            (max_right s.depth t.depth (nesting a) (nesting b) e d))
  run-Agrees n (try_block b hs) s p d =
      subst (λ (o : Outcome). Agrees s o (rescue (meaning b s.log) (choose hs)))
        (sym (
          enter_lem n s (λ t. leave n (handle n hs) (exec (suc n) b t))
            (shallow s.depth (nesting (try_block b hs)) d)))
        (leave-Agrees n s (exec (suc n) b (entered n s)) (meaning b s.log) (handle n hs) (choose hs)
          p (inner s.depth (nesting b) (nesting_all hs) d)
          (run-Agrees (suc n) b (entered n s) (omega arith)
            (inner_body s.depth (nesting b) (nesting_all hs) d))
          (λ k t e q.
            handlers-Agree n hs k t e (omega (arith, q))
              (max_right s.depth t.depth (suc (nesting b)) (nesting_all hs) q d)))

  handlers-Agree :
      (n : ℕ) (hs : Handlers) (k : ℕ) (s : Exceptions)
      → s.exceptions (s.depth + 1) ≡ suc k
      → 1 ≤ s.depth
      → s.depth + nesting_all hs < max_depth
      → Agrees s (handle n hs s) (choose hs k s.log)
  handlers-Agree n no_handler k s e p d = (s, refl, Keeps-self s)
  handlers-Agree n (catch_all b) k s e p d = run-Agrees n b s p d
  handlers-Agree n (catch_kind j b hs) k s e p d =
      pick s (s.exceptions (s.depth + 1)) j k (exec n b s) (handle n hs s) (meaning b s.log)
        (choose hs k s.log) e (run-Agrees n b s p (max_left s.depth (nesting b) (nesting_all hs) d))
        (handlers-Agree n hs k s e p
          (max_right s.depth s.depth (nesting b) (nesting_all hs) refl d))

-- Inside at least one TRY, with fewer than 16 TRY bodies inside one another in all, every block does
-- what structured exceptions mean: it finishes at the depth it started at with the same contexts
-- saved below, or the exception that leaves it jumps to the innermost context saved before it.
pub exec-Agrees :
    (n : ℕ) (b : Block) (s : Exceptions)
    → 1 ≤ s.depth
    → s.depth + nesting b < max_depth
    → Agrees s (exec n b s) (meaning b s.log)
exec-Agrees n b s p d = run-Agrees n b s p d

leave_full :
    (n c x : ℕ) (t : Exceptions) (f : Exceptions → Outcome)
    → c ≡ n
    → t.depth ≡ max_depth
    → leave n f (jumped c (suc x) t) ≡ aborted
unfolding leave enter
leave_full n c x t f e d = rw (same c n e, same t.depth max_depth d)
  where
    same : (c n : ℕ) → c ≡ n → (c == n) ≡ true
    same c n e = ground arith

-- With 15 TRY bodies around it one more TRY can be entered and left, but an exception thrown in its
-- body aborts in place of reaching its handlers.
pub exec-full :
    (n k : ℕ) (hs : Handlers) (s : Exceptions)
    → s.depth ≡ 15
    → (exec n (try_block (throws k) hs) s ≡ aborted)
      × ((t : Exceptions) × (exec n (try_block skip hs) s ≡ finished t) × (t.depth ≡ s.depth))
unfolding exec leave entered try_free
exec-full n k hs s e =
    let shallow : s.depth < 16 = omega (arith, e) in
    let own : write s.stack s.depth n (s.depth + 1 - 1) ≡ n =
      ap (write s.stack s.depth n) (omega arith) ∙ write_self s.stack s.depth n in
    (
      enter_lem n s (λ t. leave n (handle n hs) (throw (suc k) t)) shallow
          ∙ ap (leave n (handle n hs)) (throw_lem (suc k) (entered n s) (omega arith))
          ∙ leave_full n _ k (record (entered n s) { thrown = suc k }) (handle n hs) own
              (omega (arith, e)),
      (
        try_free (entered n s),
        enter_lem n s (λ t. leave n (handle n hs) (finished t)) shallow,
        omega arith,
      ),
    )
