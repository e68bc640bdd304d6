-- ===== src/ThreeAddr/Binaries.antt =====
-- Running the code of an operation with two operands that are both evaluated.
use nnc.Common.{
  ℕ, ◌+◌, ◌≤◌, ◌<◌, ◌≡◌, ◌∙◌, refl, ap, arith, Bool, true, false, if◌then◌else◌, List, [], ◌∷◌,
  ◌++◌, some,
}
use mathlib.Core.Path.{subst}
use mathlib.Core.List.{append_assoc}
use nnc.Types.{Ty, leaf_i64, unalias}
use nnc.Infer.{static_type}
use nnc.ThreeAddr.{Op, Addr, base, no_addr, Quad, mkquad1, Env, M, op_mul, op_copy, addr_cgt}
use nnc.ThreeAddr.Emit.{
  Code, test_code, rel_code, comma_code, assign_code, bin_code, pointer_arith, scale_quad,
  scale_code,
}
use nnc.ThreeAddr.Machine.{Mem, Machine, conf, put, goto, step, Runs, stop, more}
use nnc.ThreeAddr.Meaning.{Mean, truth, both_mean, assign_mean, scaled}
use nnc.ThreeAddr.Built.{SetsBoth, Jumps, Scales, no_scale, not_scaled, is_scaled}
use nnc.ThreeAddr.Grows.{Rise}
use nnc.ThreeAddr.Computes.{
  Suffix, drop_suffix, Resolves, Done, Computes, run_then, put_same, put_before, from_code,
  set_after, test_run,
}

glue : (xs ys zs post : List Quad) → (xs ++ (ys ++ zs)) ++ post ≡ xs ++ (ys ++ (zs ++ post))
glue xs ys zs post = append_assoc xs (ys ++ zs) post ∙ ap (λ q. xs ++ q) (append_assoc ys zs post)

scale_run :
    (e : Env) (k : Machine) (u v : Ty) (p rest : List Quad) (m : Mem) (g : ℕ → ℕ) (n : ℕ)
    → (g' : ℕ → ℕ) × Runs k p (conf (scale_code e u v n ++ rest) m g) (conf rest m g')
      × (g' n ≡ scaled base e k u v (g n))
      × ((i : ℕ) → i < n → g' i ≡ g i)
unfolding step
scale_run e k u v p rest m g n = by_case (pointer_arith u v)
  where
    w : ℕ
    w = k.bin op_mul (static_type e.statics leaf_i64) (g n) (e.size (unalias (base u)))

    by_case :
        (b : Bool)
        → (g' : ℕ → ℕ) × Runs k p
            (conf ((if b then scale_quad e u v n ∷ [] else []) ++ rest) m g)
            (conf rest m g')
          × (g' n ≡ (if b then w else g n))
          × ((i : ℕ) → i < n → g' i ≡ g i)
    by_case false = (g, stop, refl, λ i h. refl)
    by_case true = (put g n w, more refl stop, put_same g n w, λ i h. put_before g n w i h)

-- The quads that scale set the second operand, and nothing before it.
Scales-run :
    {e : Env} {k : Machine} {u v : Ty} {before : Addr → Addr → M (Unit {0})} {qs : ℕ → List Quad}
    {s : ℕ → ℕ}
    → Scales e k u v before qs s
    → (p rest : List Quad) (m : Mem) (g : ℕ → ℕ) (n : ℕ)
    → (g' : ℕ → ℕ) × Runs k p (conf (qs n ++ rest) m g) (conf rest m g')
      × (g' n ≡ s (g n))
      × ((i : ℕ) → i < n → g' i ≡ g i)
Scales-run no_scale p rest m g n = (g, stop, refl, λ i h. refl)
Scales-run {e = e} {k = k} {u = u} {v = v} (not_scaled h) p rest m g n =
    scale_run e k u v p rest m g n
Scales-run {e = e} {k = k} {u = u} {v = v} (is_scaled h q) p rest m g n =
    scale_run e k u v p rest m g n

module _ {k : Machine} {x y : Code} {f h : Mean} (a : Computes k x f) (b : Computes k y h)
    (rise : (c l : ℕ) → Rise (x c l) c l) (rise' : (c l : ℕ) → Rise (y c l) c l) where
  -- Both operands, one after the other: the value of the first is still there.
  both-Done :
      (p : List Quad)
      → Resolves p
      → (c c' l : ℕ) (post : List Quad) → c' ≤ c
      → Suffix p ((x c l).code ++ ((y (x c l).cgt (x c l).label).code ++ post))
      → (m : Mem) (g : ℕ → ℕ)
      → (d : Done k p
          ((x c l).code ++ ((y (x c l).cgt (x c l).label).code ++ post))
          post
          m
          g
          c'
          (y (x c l).cgt (x c l).label).res
          (h (f m).1).0
          (h (f m).1).1)
        × (d.cgts (x c l).res ≡ (f m).0)
  both-Done p s c c' l post i q m g =
      let d = a p s c l _ q m g in
      let d' = b p s _ _ post (drop_suffix (x c l).code q) (f m).1 d.cgts in
      let r = rise c l in
      (
        record {
          cgts = d'.cgts;
          run = run_then d.run d'.run;
          result = d'.result;
          older = λ j b. d'.older j (omega (arith, r.new, r.counted)) ∙ d.older j (omega arith);
        },
        d'.older _ r.counted ∙ d.result,
      )

  pub comma-Computes : (v : Ty) → Computes k (comma_code v x y) (both_mean (λ n p. p) f h)
  unfolding step
  comma-Computes v p s c l post q m g =
      let a' = x c l in
      let b' = y a'.cgt a'.label in
      let e = glue a'.code b'.code _ post in
      let (d, z) = both-Done p s c c l _ (omega arith) (subst (Suffix p) e q) m g in
      let r = rise c l in
      let r' = rise' a'.cgt a'.label in
      from_code e (
        set_after d
          (more (ap (λ w. some (conf post (h (f m).1).1 (put d.cgts (b'.cgt + 1) w))) d.result)
            stop)
          (omega (arith, r.new, r.counted, r'.new, r'.counted)))

  pub rel-Computes :
      (e : Env) (u v : Ty) (o : Op) (t : Ty) (rel : ℕ → ℕ → Bool)
      → Jumps k o u rel
      → Computes k (rel_code e o t u v x y) (both_mean (λ n p. truth (rel n p)) f h)
  unfolding step
  rel-Computes e u v o t rel j p s c l post q m g =
      let a' = x c (l + 2) in
      let b' = y a'.cgt a'.label in
      let e1 = glue a'.code b'.code _ post in
      let q' = subst (Suffix p) e1 q in
      let (d, z) = both-Done p s c c (l + 2) _ (omega arith) q' m g in
      let r = rise c (l + 2) in
      let r' = rise' a'.cgt a'.label in
      let to = (λ (b : Bool). some (
        conf (if b then goto (l + 1) p else test_code e t l (b'.cgt + 1) 0 1 ++ post) (h (f m).1).1
          d.cgts)) in
      from_code e1 (
        set_after d
          (more
            (j p _ _ _ _ _ _ d.cgts
              ∙ ap (λ w. to (rel w (d.cgts b'.res))) z
              ∙ ap (λ w. to (rel (f m).0 w)) d.result)
            (test_run e t l (b'.cgt + 1) 0 1 post s
              (drop_suffix (_ ∷ []) (drop_suffix b'.code (drop_suffix a'.code q')))
              (rel (f m).0 (h (f m).1).0) (h (f m).1).1 d.cgts))
          (omega (arith, r.new, r.counted, r'.new, r'.counted)))

  pub assign-Computes : (t u : Ty) → Computes k (assign_code t u x y) (assign_mean k (base u) f h)
  unfolding step
  assign-Computes t u p s c l post q m g =
      let a' = x c l in
      let b' = y a'.cgt a'.label in
      let e = glue a'.code b'.code _ post in
      let (d, z) = both-Done p s c c l _ (omega arith) (subst (Suffix p) e q) m g in
      let r = rise c l in
      let r' = rise' a'.cgt a'.label in
      from_code e (
        set_after d
          (more
            (ap
                (λ w. some (
                  conf
                    (mkquad1 op_copy (addr_cgt (b'.cgt + 1) t) t (addr_cgt b'.res (base u)) no_addr
                      ∷ post)
                    (k.store (base u) w (d.cgts b'.res) (h (f m).1).1) d.cgts))
                z
              ∙ ap
                  (λ w. some (
                    conf
                      (mkquad1 op_copy (addr_cgt (b'.cgt + 1) t) t (addr_cgt b'.res (base u))
                          no_addr
                        ∷ post)
                      (k.store (base u) (f m).0 w (h (f m).1).1) d.cgts))
                  d.result)
            (more
              (ap
                (λ w. some (
                  conf post (k.store (base u) (f m).0 (h (f m).1).0 (h (f m).1).1)
                    (put d.cgts (b'.cgt + 1) w)))
                d.result)
              stop))
          (omega (arith, r.new, r.counted, r'.new, r'.counted)))

  pub bin-Computes :
      {e : Env} {before : Addr → Addr → M (Unit {0})} {qs : ℕ → List Quad} {s : ℕ → ℕ} {u v : Ty}
      (o : Op) (t : Ty) (w : ℕ → ℕ → ℕ)
      → SetsBoth k o t u w
      → Scales e k u v before qs s
      → Computes k (bin_code qs o t u v x y) (both_mean (λ n p. w n (s p)) f h)
  unfolding step
  bin-Computes {qs = qs} {s = sc} {u = u} {v = v} o t w j sx p s c l post q m g =
      let a' = x c l in
      let b' = y a'.cgt a'.label in
      let e =
        glue a'.code b'.code _ post
        ∙ ap (λ z. a'.code ++ (b'.code ++ z)) (append_assoc (qs b'.res) _ post) in
      let (d, z) = both-Done p s c c l _ (omega arith) (subst (Suffix p) e q) m g in
      let r = rise c l in
      let r' = rise' a'.cgt a'.label in
      let (g', run, val, old) =
        Scales-run sx p
          (mkquad1 o (addr_cgt a'.res u) t (addr_cgt a'.res u) (addr_cgt b'.res v) ∷ post)
          (h (f m).1).1 d.cgts b'.res in
      let same = old a'.res (omega (arith, r.counted, r'.new)) ∙ z in
      from_code e record {
        cgts = put g' a'.res (w (f m).0 (sc (h (f m).1).0));
        run = run_then d.run (
            run_then run (
              more
                (j p _ _ _ _ _ _ g'
                  ∙ ap (λ n. some (conf post (h (f m).1).1 (put g' a'.res (w n (g' b'.res))))) same
                  ∙ ap (λ n. some (conf post (h (f m).1).1 (put g' a'.res (w (f m).0 n))))
                      (val ∙ ap sc d.result))
                stop));
        result = put_same g' a'.res _;
        older = λ i b.
            put_before g' a'.res _ i (omega (arith, r.new))
            ∙ old i (omega (arith, r.new, r.counted, r'.new))
            ∙ d.older i b;
      }
