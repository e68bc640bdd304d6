-- ===== src/TryCatch/Leaving.antt =====
-- How a TRY of src/nnc_try_catch.c is entered and left.
use nnc.Common.{ℕ, suc, ◌+◌, ◌-◌, ◌≤◌, ◌<◌, ◌≡◌, ◌∙◌, refl, sym, ap, true, false, ◌==◌, List, arith}
use mathlib.Core.Path.{subst}
use nnc.TryCatch.{Exceptions, max_depth, write, Outcome, jumped, try_free, enter, leave}
use nnc.TryCatch.Structured.{Result, done, raised, rescue, Keeps, Agrees, Agrees-trans}

-- The state in which the body of a TRY named `n` starts.
unfoldable pub entered : ℕ → Exceptions → Exceptions
entered n s = record s {
  stack = write s.stack s.depth n;
  exceptions = write s.exceptions s.depth 0;
  depth = s.depth + 1;
}

-- The state in which its handlers start.
resumed : ℕ → Exceptions → Exceptions
unfolding try_free
resumed k t = try_free (record t { exceptions = write t.exceptions t.depth k })

write_ne : (f : ℕ → ℕ) (i v j : ℕ) → j < i → write f i v j ≡ f j
write_ne f i v j h = rw (apart i j h)
  where
    apart : (i j : ℕ) → j < i → (i == j) ≡ false
    apart i j h = ground arith

pub write_self : (f : ℕ → ℕ) (i v : ℕ) → write f i v i ≡ v
write_self f i v = rw (same i)
  where
    same : (i : ℕ) → (i == i) ≡ true
    same i = ground arith

Keeps-freed :
    (n : ℕ) (s t u : Exceptions) (l : List ℕ)
    → Keeps (entered n s) t l
    → u.depth ≡ t.depth - 1
    → u.log ≡ t.log
    → ((i : ℕ) → u.stack i ≡ t.stack i)
    → Keeps s u l
unfolding entered
Keeps-freed n s t u l k d g e = record {
  same_depth = d ∙ omega (arith, k.same_depth);
  same_log = g ∙ k.same_log;
  same_stack = λ i p. e i ∙ k.same_stack i (omega arith) ∙ write_ne s.stack s.depth n i p;
}

resume_lem :
    (n c x : ℕ) (t : Exceptions) (f : Exceptions → Outcome)
    → c ≡ n
    → t.depth < max_depth
    → leave n f (jumped c (suc x) t) ≡ f (resumed (suc x) t)
unfolding leave enter resumed
resume_lem n c x t f e d = rw (same c n e, apart t.depth d, nonzero x)
  where
    same : (c n : ℕ) → c ≡ n → (c == n) ≡ true
    same c n e = ground arith

    apart : (i : ℕ) → i < max_depth → (i == max_depth) ≡ false
    apart i h = ground arith

    nonzero : (x : ℕ) → (suc x == 0) ≡ false
    nonzero x = ground arith

pub leave-Agrees :
    (n : ℕ) (s : Exceptions) (o : Outcome) (r : Result) (f : Exceptions → Outcome)
    (g : ℕ → List ℕ → Result)
    → 1 ≤ s.depth
    → s.depth + 1 < max_depth
    → Agrees (entered n s) o r
    → ((k : ℕ) (t : Exceptions)
        → t.exceptions (t.depth + 1) ≡ suc k
        → t.depth ≡ s.depth
        → Agrees t (f t) (g k t.log))
    → Agrees s (leave n f o) (rescue r g)
unfolding Agrees leave entered try_free resumed
leave-Agrees n s o (done l) f g p d (t, e, k) h =
    (try_free t, ap (leave n f) e, Keeps-freed n s t (try_free t) l k refl refl (λ i. refl))
leave-Agrees n s o (raised x l) f g p d (t, e, k) h =
    let u = resumed (suc x) t in
    let kept = Keeps-freed n s t u l k refl refl (λ i. refl) in
    let deep : t.depth ≡ s.depth + 1 = k.same_depth in
    let own : (write s.stack s.depth n) (s.depth + 1 - 1) ≡ n =
      ap (write s.stack s.depth n) (minus s.depth) ∙ write_self s.stack s.depth n in
    subst (λ (y : Outcome). Agrees s y (g x l))
      (sym (ap (leave n f) e ∙ resume_lem n _ x t f own (omega (arith, deep))))
      (Agrees-trans s u l (f u) (g x l) p kept (
        subst (λ (m : List ℕ). Agrees u (f u) (g x m)) kept.same_log
          (h x u
            (ap (write t.exceptions t.depth (suc x)) (plus t.depth (s.depth) deep)
              ∙ write_self t.exceptions t.depth (suc x))
            kept.same_depth)))
  where
    minus : (i : ℕ) → i + 1 - 1 ≡ i
    minus i = omega arith

    plus : (i j : ℕ) → i ≡ j + 1 → i - 1 + 1 ≡ i
    plus i j e = omega (arith, e)
