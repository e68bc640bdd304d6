-- ===== src/TryCatch/Structured.antt =====
-- What blocks with src/nnc_try_catch.c's macros mean, and when an outcome agrees with the meaning.
use nnc.Common.{
  ℕ, suc, ◌-◌, ◌≤◌, ◌<◌, ◌≡◌, ◌∙◌, sym, ap, if◌then◌else◌, ◌==◌, leb, List, ◌∷◌, arith,
}
use mathlib.Core.Path.{subst}
use nnc.TryCatch.{
  Exceptions, Outcome, finished, jumped, Block, skip, step, throws, seq, try_block, Handlers,
  no_handler, catch_all, catch_kind, and_then,
}

-- What a block means: the steps done, and the exception that leaves the block.
pub data Result : Type 0 where
  done : List ℕ → Result
  raised : ℕ → List ℕ → Result

abbrev pub continue : Result → (List ℕ → Result) → Result
continue (done l) f = f l
continue (raised k l) f = raised k l

abbrev pub rescue : Result → (ℕ → List ℕ → Result) → Result
rescue (done l) f = done l
rescue (raised k l) f = f k l

unfoldable mutual
  pub meaning : Block → List ℕ → Result
  meaning skip l = done l
  meaning (step e) l = done (e ∷ l)
  meaning (throws k) l = raised k l
  meaning (seq a b) l = continue (meaning a l) (meaning b)
  meaning (try_block b hs) l = rescue (meaning b l) (choose hs)

  pub choose : Handlers → ℕ → List ℕ → Result
  choose no_handler k l = done l
  choose (catch_all b) k l = meaning b l
  choose (catch_kind j b hs) k l =
      let here = meaning b l in let rest = choose hs k l in if j == k then here else rest

-- The greatest number of TRY bodies inside one another.
abbrev pub max : ℕ → ℕ → ℕ
max a b = if leb a b then b else a

unfoldable mutual
  pub nesting : Block → ℕ
  nesting skip = 0
  nesting (step e) = 0
  nesting (throws k) = 0
  nesting (seq a b) = max (nesting a) (nesting b)
  nesting (try_block b hs) = max (suc (nesting b)) (nesting_all hs)

  pub nesting_all : Handlers → ℕ
  nesting_all no_handler = 0
  nesting_all (catch_all b) = nesting b
  nesting_all (catch_kind k b hs) = max (nesting b) (nesting_all hs)

-- `t` has the depth and the log given, and the contexts of `s` below its depth.
pub record Keeps (s t : Exceptions) (l : List ℕ) : Type 0 where
  pub same_depth : t.depth ≡ s.depth
  pub same_log : t.log ≡ l
  pub same_stack : (i : ℕ) → i < s.depth → t.stack i ≡ s.stack i

-- The outcome in `s` is the result: where nothing is raised the block finishes at the same depth,
-- and an exception jumps to the innermost context of `s`.
unfoldable pub Agrees : Exceptions → Outcome → Result → Type 0
Agrees s o (done l) = (t : Exceptions) × (o ≡ finished t) × Keeps s t l
Agrees s o (raised k l) =
    (t : Exceptions) × (o ≡ jumped (s.stack (s.depth - 1)) (suc k) t) × Keeps s t l

pub Keeps-trans : {s t u : Exceptions} {l m : List ℕ} → Keeps s t l → Keeps t u m → Keeps s u m
Keeps-trans {s} {t} h k = record {
  same_depth = k.same_depth ∙ h.same_depth;
  same_log = k.same_log;
  same_stack = λ i p. k.same_stack i (omega (arith, h.same_depth)) ∙ h.same_stack i p;
}

top :
    {s t : Exceptions} {l : List ℕ}
    → Keeps s t l
    → 1 ≤ s.depth
    → t.stack (t.depth - 1) ≡ s.stack (s.depth - 1)
top {s} {t} h p =
    ap (λ (d : ℕ). t.stack (d - 1)) h.same_depth ∙ h.same_stack (s.depth - 1) (omega arith)

pub Agrees-trans :
    (s t : Exceptions) (l : List ℕ) (o : Outcome) (r : Result)
    → 1 ≤ s.depth
    → Keeps s t l
    → Agrees t o r
    → Agrees s o r
unfolding Agrees
Agrees-trans s t l o (done m) p h (u, e, k) = (u, e, Keeps-trans h k)
Agrees-trans s t l o (raised x m) p h (u, e, k) =
    (u, e ∙ ap (λ (c : ℕ). jumped c (suc x) u) (top h p), Keeps-trans h k)

pub and_then-Agrees :
    (s : Exceptions) (o : Outcome) (r : Result) (f : Exceptions → Outcome) (g : List ℕ → Result)
    → 1 ≤ s.depth
    → Agrees s o r
    → ((t : Exceptions) → t.depth ≡ s.depth → Agrees t (f t) (g t.log))
    → Agrees s (and_then o f) (continue r g)
unfolding Agrees
and_then-Agrees s o (done l) f g p (t, e, k) h =
    subst (λ (x : Outcome). Agrees s (and_then x f) (g l)) (sym e)
      (Agrees-trans s t l (f t) (g l) p k
        (subst (λ (m : List ℕ). Agrees t (f t) (g m)) k.same_log (h t k.same_depth)))
and_then-Agrees s o (raised x l) f g p (t, e, k) h = (t, ap (λ (y : Outcome). and_then y f) e, k)
