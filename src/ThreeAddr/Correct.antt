-- ===== src/ThreeAddr/Correct.antt =====
-- What `nnc_expr_to_3a` of src/nnc_3a.c generates, for every valid expression: the code of Emit, whose
-- labels stand once, and which computes what the expression means where the code and the language
-- agree on what its pointers point to.
use nnc.Common.{ℕ, ◌^◌, ◌≤◌, ◌<◌, ◌≡◌, refl, sym, arith, false, List, ◌++◌, some, inl, inr}
use mathlib.Core.Path.{subst}
use mathlib.Core.List.{append_assoc}
use nnc.ThreeAddr.{base, Quad, Env, Gen, quads_res, addr_cgt}
use nnc.ThreeAddr.Exprs.{Expr, Mode}
use nnc.ThreeAddr.Translate.{to_3a}
use nnc.ThreeAddr.Emit.{Emit, type_of}
use nnc.ThreeAddr.Spec.{emit, Valid}
use nnc.ThreeAddr.Machine.{Mem, Machine, conf, Runs}
use nnc.ThreeAddr.Meaning.{Mean, eval_with, eval}
use nnc.ThreeAddr.Direct.{Direct, eval-Direct}
use nnc.ThreeAddr.BuiltExprs.{expr-Built}
use nnc.ThreeAddr.Grows.{Built-Rise}
use nnc.ThreeAddr.Last.{last_end, Built-last}
use nnc.ThreeAddr.Emits.{after, res_lem}
use nnc.ThreeAddr.Appends.{Built-emits}
use nnc.ThreeAddr.Labels.{count, count-append, Once}
use nnc.ThreeAddr.Targets.{Built-LabelsOnce}
use nnc.ThreeAddr.Resolve.{Built-Computes, once-Resolves}

-- What the generator keeps: no label stands twice, and none that is not counted yet.
pub record Labelled (s : Gen) : Type 0 where
  pub once : (n : ℕ) → 0 < n → count n s.quads ≤ 1
  pub counted : (n : ℕ) → s.label_cnt < n → count n s.quads ≡ 0

after-Labelled :
    (s : Gen) (y : Emit)
    → Labelled s
    → ((n : ℕ) → 0 < n → Once (count n y.code) s.label_cnt n y.label)
    → s.label_cnt ≤ y.label
    → Labelled (after s y)
after-Labelled s y l o h = record {
  once = λ n z. both n (o n z) (l.once n z);
  counted = λ n z. none_yet n (o n (omega arith)) z;
}
  where
    both :
        (n : ℕ)
        → Once (count n y.code) s.label_cnt n y.label
        → count n s.quads ≤ 1
        → count n (s.quads ++ y.code) ≤ 1
    both n (inl z) i = omega (arith, count-append n s.quads y.code)
    both n (inr (z, f, g)) i = omega (arith, count-append n s.quads y.code, l.counted n f)

    none_yet :
        (n : ℕ)
        → Once (count n y.code) s.label_cnt n y.label
        → y.label < n
        → count n (s.quads ++ y.code) ≡ 0
    none_yet n (inl z) i = omega (arith, count-append n s.quads y.code, l.counted n (omega arith))
    none_yet n (inr (z, f, g)) i = absurd (omega arith)

-- What it means that the translation of an expression from the state `s` has the meaning `f`, with the
-- memory `m` and the temporaries `g`, in a program that goes on with `post`.
pub record Evaluates (e : Env) (k : Machine) (d : Mode) (x : Expr) (s : Gen) (post : List Quad)
    (m : Mem) (g : ℕ → ℕ) (f : Mean) : Type 0 where
  pub end : Gen
  pub translated : to_3a e d x s ≡ some (tt, end)
  pub code : List Quad
  pub appended : end.quads ≡ s.quads ++ code
  pub cgts : ℕ → ℕ
  pub runs : Runs k (end.quads ++ post) (conf (code ++ post) m g) (conf post (f m).1 cgts)
  pub res : ℕ
  pub found : quads_res end ≡ some (addr_cgt res (type_of e d x), end)
  pub result : cgts res ≡ (f m).0
  pub older : (i : ℕ) → i ≤ s.cgt_cnt → cgts i ≡ g i

module _ (e : Env) (d : Mode) (x : Expr) (s : Gen) (h : Valid e d x) where
  -- The machine is of no account here.
  no_machine : Machine
  no_machine = record {
    bin = λ o t a b. 0;
    un = λ o t a. 0;
    cast = λ t u a. 0;
    less = λ t a b. false;
    address = λ c n. 0;
    load = λ t a m. 0;
    store = λ t a n m. m;
  }

  -- The translation of a valid expression, as a value or as an lvalue, succeeds unless a counter would
  -- wrap: it appends exactly the code that `emit` gives for the expression and the counters, and leaves
  -- the counters where `emit` says.
  pub to_3a-emit :
      (emit e d x s.cgt_cnt s.label_cnt).cgt < 2 ^ 64
      → (emit e d x s.cgt_cnt s.label_cnt).label < 2 ^ 26
      → to_3a e d x s ≡ some (tt, after s (emit e d x s.cgt_cnt s.label_cnt))
  to_3a-emit i j = Built-emits (expr-Built e no_machine d x h) s i j

  -- If no label stands twice among the quads, and none that is not counted yet, the translation of a
  -- valid expression succeeds and keeps it so, unless a counter would wrap.
  pub to_3a-Labelled :
      (emit e d x s.cgt_cnt s.label_cnt).cgt < 2 ^ 64
      → (emit e d x s.cgt_cnt s.label_cnt).label < 2 ^ 26
      → Labelled s
      → (s' : Gen) × (to_3a e d x s ≡ some (tt, s')) × Labelled s'
  to_3a-Labelled i j l =
      let y = emit e d x s.cgt_cnt s.label_cnt in
      let b = expr-Built e no_machine d x h in
      (
        after s y,
        to_3a-emit i j,
        after-Labelled s y l (Built-LabelsOnce b s.cgt_cnt s.label_cnt)
            (Built-Rise b s.cgt_cnt s.label_cnt).labels,
      )

  -- The same with what the code takes pointers to point to.
  to_3a-runs :
      (k : Machine) (post : List Quad) (m : Mem) (g : ℕ → ℕ)
      → (emit e d x s.cgt_cnt s.label_cnt).cgt < 2 ^ 64
      → (emit e d x s.cgt_cnt s.label_cnt).label < 2 ^ 26
      → ((n : ℕ)
          → 0 < n
          → count n (s.quads ++ ((emit e d x s.cgt_cnt s.label_cnt).code ++ post)) ≤ 1)
      → Evaluates e k d x s post m g (eval_with base e k d x)
  to_3a-runs k post m g i j once =
      let y = emit e d x s.cgt_cnt s.label_cnt in
      let b = expr-Built e k d x h in
      let glue = append_assoc s.quads y.code post in
      let p = (s.quads ++ y.code) ++ post in
      let done =
        Built-Computes b p
          (once-Resolves p (λ n z. subst (λ q. count n q ≤ 1) (sym glue) (once n z))) s.cgt_cnt
          s.label_cnt post (s.quads, glue) m g in
      record {
        end = after s y;
        translated = to_3a-emit i j;
        code = y.code;
        appended = refl;
        cgts = done.cgts;
        runs = done.run;
        res = y.res;
        found = res_lem (after s y) (last_end s.quads y.code (Built-last b _ _));
        result = done.result;
        older = done.older;
      }

  -- The translation of a valid expression succeeds unless a counter would wrap, and the quads that it
  -- appends evaluate the expression, if the addresses that it assigns to and the pointers of its pointer
  -- arithmetic have no alias as their type: in any program that starts with the state's quads, goes on
  -- with other quads and has each label once, the machine runs from their start to their end, in any
  -- memory and temporaries. Then the temporary that `nnc_3a_quads_res` finds, whose type is the
  -- expression's static one, holds the value (the address of an lvalue), the memory is the one after
  -- evaluation, and the temporaries counted before are as they were.
  pub to_3a-Evaluates :
      (k : Machine) (post : List Quad) (m : Mem) (g : ℕ → ℕ)
      → Direct e d x
      → (emit e d x s.cgt_cnt s.label_cnt).cgt < 2 ^ 64
      → (emit e d x s.cgt_cnt s.label_cnt).label < 2 ^ 26
      → ((n : ℕ)
          → 0 < n
          → count n (s.quads ++ ((emit e d x s.cgt_cnt s.label_cnt).code ++ post)) ≤ 1)
      → Evaluates e k d x s post m g (eval e k d x)
  to_3a-Evaluates k post m g direct i j once =
      subst (Evaluates e k d x s post m g) (eval-Direct e k d x direct)
        (to_3a-runs k post m g i j once)
