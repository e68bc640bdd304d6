-- ===== src/ThreeAddr/Ternaries.antt =====
-- Running the code of the conditional expression.
use nnc.Common.{
  ℕ, ◌+◌, ◌≡◌, ◌∙◌, refl, sym, ap, arith, Bool, true, false, not, if◌then◌else◌, ◌==◌, List, [],
  ◌∷◌, ◌++◌, some, Bool-cases, inl, inr, ◌⊎◌,
}
use mathlib.Core.Path.{subst}
use mathlib.Core.List.{append_assoc}
use nnc.Types.{Ty}
use nnc.ThreeAddr.{
  no_addr, Quad, mkquad, mkquad1, label_quad, Env, mki3, op_ujump, op_copy, addr_cgt,
}
use nnc.ThreeAddr.Translate.{jump_if_true}
use nnc.ThreeAddr.Emit.{Emit, Code, ternary_code}
use nnc.ThreeAddr.Machine.{Mem, Machine, conf, put, goto, step, stop, more}
use nnc.ThreeAddr.Meaning.{Mean, choice_mean}
use nnc.ThreeAddr.Grows.{Rise}
use nnc.ThreeAddr.Computes.{
  Suffix, drop_suffix, Done, Computes, from_code, set_after, then-Done, at_label,
}

module _ {k : Machine} {x y z : Code} {f h i : Mean} (a : Computes k x f) (b : Computes k y h)
    (d : Computes k z i) (rise : (c l : ℕ) → Rise (x c l) c l)
    (rise' : (c l : ℕ) → Rise (z c l) c l) (rise'' : (c l : ℕ) → Rise (y c l) c l) where
  pub ternary-Computes :
      (e : Env) (t u v w : Ty) → Computes k (ternary_code e t u v w x y z) (choice_mean f h i)
  unfolding step
  ternary-Computes e t u v w p s c l post q m g = by_case (Bool-cases ((f m).0 == 0))
    where
      a' : Emit
      a' = x c (l + 2)

      d' : Emit
      d' = z (a'.cgt + 1) a'.label

      b' : Emit
      b' = y d'.cgt d'.label

      last : List Quad
      last =
          mkquad1 op_copy (addr_cgt (a'.cgt + 1) t) t (addr_cgt b'.res v) no_addr
          ∷ label_quad (l + 2)
          ∷ post

      taken : List Quad
      taken = b'.code ++ last

      fall_end : List Quad
      fall_end =
          mkquad1 op_copy (addr_cgt (a'.cgt + 1) t) t (addr_cgt d'.res w) no_addr
          ∷ mkquad op_ujump (mki3 e (l + 2)) no_addr no_addr
          ∷ label_quad (l + 1)
          ∷ taken

      fall : List Quad
      fall = d'.code ++ fall_end

      jump : Quad
      jump = jump_if_true e (l + 1) (addr_cgt a'.res u)

      glue : (ternary_code e t u v w x y z c l).code ++ post ≡ a'.code ++ (jump ∷ fall)
      glue = simp (append_assoc)

      q0 : Suffix p (a'.code ++ (jump ∷ fall))
      q0 = subst (Suffix p) glue q

      q1 : Suffix p fall
      q1 = drop_suffix (_ ∷ []) (drop_suffix a'.code q0)

      q2 : Suffix p (label_quad (l + 1) ∷ taken)
      q2 = drop_suffix (_ ∷ _ ∷ []) (drop_suffix d'.code q1)

      q3 : Suffix p taken
      q3 = drop_suffix (_ ∷ []) q2

      q4 : Suffix p (label_quad (l + 2) ∷ post)
      q4 = drop_suffix (_ ∷ []) (drop_suffix b'.code q3)

      r : Rise a' c (l + 2)
      r = rise c (l + 2)

      r' : Rise d' (a'.cgt + 1) a'.label
      r' = rise' (a'.cgt + 1) a'.label

      r'' : Rise b' d'.cgt d'.label
      r'' = rise'' d'.cgt d'.label

      cond : Done k p (a'.code ++ (jump ∷ fall)) (jump ∷ fall) m g c a'.res (f m).0 (f m).1
      cond = a p s c (l + 2) _ q0 m g

      outcome : Bool → ℕ × Mem
      outcome b = if b then i (f m).1 else h (f m).1

      Goal : Bool → Type 0
      Goal b =
          Done k p ((ternary_code e t u v w x y z c l).code ++ post) post m g c (a'.cgt + 1)
            (outcome b).0 (outcome b).1

      first_jump :
          (b : Bool)
          → ((f m).0 == 0) ≡ b
          → step k p (conf (jump ∷ fall) (f m).1 cond.cgts)
            ≡ some (conf (if not b then goto (l + 1) p else fall) (f m).1 cond.cgts)
      first_jump b i =
          ap (λ b. some (conf (if not b then goto (l + 1) p else fall) (f m).1 cond.cgts))
            (ap (λ n. n == 0) cond.result ∙ i)

      by_case : (((f m).0 == 0) ≡ true) ⊎ (((f m).0 == 0) ≡ false) → Goal ((f m).0 == 0)
      by_case (inl j) =
          let o =
            then-Done cond (more (first_jump true j) stop)
              (d p s (a'.cgt + 1) a'.label fall_end q1 (f m).1 cond.cgts)
              (omega (arith, r.new, r.counted)) in
          subst Goal (sym j) (
            from_code glue (
              set_after o
                (more
                  (ap
                    (λ n. some (
                      conf
                        (mkquad op_ujump (mki3 e (l + 2)) no_addr no_addr
                          ∷ label_quad (l + 1)
                          ∷ taken)
                        (i (f m).1).1 (put o.cgts (a'.cgt + 1) n)))
                    o.result)
                  (more refl (at_label s (omega arith) q4 (more refl stop))))
                (omega (arith, r.new, r.counted))))
      by_case (inr j) =
          let o =
            then-Done cond
              (more (first_jump false j) (at_label s (omega arith) q2 (more refl stop)))
              (b p s d'.cgt d'.label last q3 (f m).1 cond.cgts)
              (omega (arith, r.new, r.counted, r'.new, r'.counted)) in
          subst Goal (sym j) (
            from_code glue (
              set_after o
                (more
                  (ap
                    (λ n.
                      some (
                        conf (label_quad (l + 2) ∷ post) (h (f m).1).1 (put o.cgts (a'.cgt + 1) n)))
                    o.result)
                  (more refl stop))
                (omega (arith, r.new, r.counted))))
