-- ===== src/ThreeAddr/Unaries.antt =====
-- Running the code of an operation with one operand.
use nnc.Common.{ℕ, ◌+◌, ◌∙◌, ap, arith, if◌then◌else◌, ◌==◌, [], ◌∷◌, ◌++◌, some}
use mathlib.Core.Path.{subst}
use mathlib.Core.List.{append_assoc}
use nnc.Types.{Ty, leaf_i8}
use nnc.Infer.{static_type}
use nnc.ThreeAddr.{Op, Addr, Env}
use nnc.ThreeAddr.Emit.{Code, set_code, then_set, un_op_code, test_code, not_code}
use nnc.ThreeAddr.Machine.{Mem, Machine, conf, put, goto, step, stop, more}
use nnc.ThreeAddr.Meaning.{Mean, truth, map_mean}
use nnc.ThreeAddr.Built.{Sets, SetsFrom}
use nnc.ThreeAddr.Grows.{Rise}
use nnc.ThreeAddr.Computes.{
  Suffix, drop_suffix, Computes, put_same, put_before, from_code, set_after, test_run,
}

module _ {k : Machine} where
  pub set-Computes :
      (o : Op) (t : Ty) (a : Addr) (v : Mem → ℕ)
      → SetsFrom k o t a v
      → Computes k (set_code o t a) (λ m. (v m, m))
  unfolding step
  set-Computes o t a v h p s c l post q m g = record {
    cgts = put g (c + 1) (v m);
    run = more (h p (c + 1) 0 post m g) stop;
    result = put_same g (c + 1) (v m);
    older = λ i b. put_before g (c + 1) (v m) i (omega arith);
  }

  module _ {x : Code} {f : Mean} (u : Ty) (b : Computes k x f)
      (rise : (c l : ℕ) → Rise (x c l) c l) where
    pub then-Computes :
        (o : Op) (t : Ty) (v : Mem → ℕ → ℕ)
        → Sets k o t u v
        → Computes k (λ c l. then_set o t u (x c l)) (λ m. (v (f m).1 (f m).0, (f m).1))
    unfolding step
    then-Computes o t v h p s c l post q m g =
        let glue = append_assoc (x c l).code _ post in
        let d = b p s c l _ (subst (Suffix p) glue q) m g in
        let r = rise c l in
        from_code glue (
          set_after d
            (more
              (h p _ _ _ _ post _ d.cgts
                ∙ ap (λ w. some (conf post (f m).1 (put d.cgts ((x c l).cgt + 1) (v (f m).1 w))))
                    d.result)
              stop)
            (omega (arith, r.new, r.counted)))

    pub un-Computes :
        (o : Op) (t : Ty) (v : ℕ → ℕ)
        → Sets k o t u (λ _. v)
        → Computes k (un_op_code o t u x) (map_mean v f)
    unfolding step
    un-Computes o t v h p s c l post q m g =
        let glue = append_assoc (x c l).code _ post in
        let d = b p s c l _ (subst (Suffix p) glue q) m g in
        from_code glue (
          set_after d
            (more
              (h p _ _ _ _ post _ d.cgts
                ∙ ap (λ w. some (conf post (f m).1 (put d.cgts (x c l).res (v w)))) d.result)
              stop)
            (rise c l).new)

    pub not-Computes : (e : Env) → Computes k (not_code e u x) (map_mean (λ n. truth (n == 0)) f)
    unfolding step
    not-Computes e p s c l post q m g =
        let a = x c (l + 2) in
        let glue = append_assoc a.code _ post in
        let q' = subst (Suffix p) glue q in
        let d = b p s c (l + 2) _ q' m g in
        let r = rise c (l + 2) in
        let t = static_type e.statics leaf_i8 in
        from_code glue (
          set_after d
            (more
              (ap
                (λ w. some (
                  conf (if w == 0 then goto (l + 1) p else test_code e t l (a.cgt + 1) 0 1 ++ post)
                    (f m).1 d.cgts))
                d.result)
              (test_run e t l (a.cgt + 1) 0 1 post s (drop_suffix (_ ∷ []) (drop_suffix a.code q'))
                ((f m).0 == 0) (f m).1 d.cgts))
            (omega (arith, r.new, r.counted)))
