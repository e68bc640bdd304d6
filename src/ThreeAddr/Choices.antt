-- ===== src/ThreeAddr/Choices.antt =====
-- Running the code of `or`, `and` and the choice, which evaluate one operand or two.
use nnc.Common.{
  ℕ, ◌+◌, ◌≡◌, ◌∙◌, refl, sym, ap, arith, Bool, true, false, not, if◌then◌else◌, ◌==◌, List, [],
  ◌∷◌, ◌++◌, some, Bool-cases, inl, inr, ◌⊎◌,
}
use mathlib.Core.Path.{subst}
use mathlib.Core.List.{append_assoc}
use nnc.Types.{Ty, leaf_i8}
use nnc.Infer.{static_type}
use nnc.ThreeAddr.{Addr, Quad, Env, addr_cgt}
use nnc.ThreeAddr.Translate.{jump_if_true, jump_if_zero}
use nnc.ThreeAddr.Emit.{Emit, Code, test_code, logic_code}
use nnc.ThreeAddr.Machine.{Mem, Machine, conf, goto, step, stop, more}
use nnc.ThreeAddr.Meaning.{Mean, truth, or_mean, and_mean}
use nnc.ThreeAddr.Grows.{Rise}
use nnc.ThreeAddr.Computes.{
  Suffix, drop_suffix, Done, Computes, from_code, set_after, then-Done, test_run,
}

-- `or` and `and` at once: a jump is taken on some values of an operand.
abbrev logic_mean : (ℕ → Bool) → ℕ → ℕ → Mean → Mean → Mean
logic_mean taken n1 n2 f h m =
    if taken (f m).0 then (n2, (f m).1) else (if taken (h (f m).1).0 then n2 else n1, (h (f m).1).1)

abbrev Takes : Machine → (ℕ → Addr → Quad) → (ℕ → Bool) → Type 0
Takes k jump taken =
    (p : List Quad) (l n : ℕ) (u : Ty) (rest : List Quad) (m : Mem) (g : ℕ → ℕ)
    → step k p (conf (jump l (addr_cgt n u) ∷ rest) m g)
      ≡ some (conf (if taken (g n) then goto l p else rest) m g)

glue :
    (xs ys zs post : List Quad) (q : Quad)
    → (xs ++ (q ∷ (ys ++ zs))) ++ post ≡ xs ++ (q ∷ (ys ++ (zs ++ post)))
glue xs ys zs post q =
    append_assoc xs (q ∷ (ys ++ zs)) post ∙ ap (λ z. xs ++ (q ∷ z)) (append_assoc ys zs post)

module _ {k : Machine} {x y : Code} {f h : Mean} (a : Computes k x f) (b : Computes k y h)
    (rise : (c l : ℕ) → Rise (x c l) c l) (rise' : (c l : ℕ) → Rise (y c l) c l) where
  logic-Computes :
      (e : Env) (u v : Ty) (jump : ℕ → Addr → Quad) (taken : ℕ → Bool) (n1 n2 : ℕ)
      → Takes k jump taken
      → Computes k (logic_code e jump n1 n2 u v x y) (logic_mean taken n1 n2 f h)
  logic-Computes e u v jump taken n1 n2 j p s c l post q m g = by_case (Bool-cases (taken (f m).0))
    where
      a' : Emit
      a' = x c (l + 2)

      b' : Emit
      b' = y a'.cgt a'.label

      t : Ty
      t = static_type e.statics leaf_i8

      tail : List Quad
      tail = test_code e t l (b'.cgt + 1) n1 n2 ++ post

      second : Quad
      second = jump (l + 1) (addr_cgt b'.res v)

      e1 :
          (logic_code e jump n1 n2 u v x y c l).code ++ post
          ≡ a'.code ++ (jump (l + 1) (addr_cgt a'.res u) ∷ (b'.code ++ (second ∷ tail)))
      e1 = glue a'.code b'.code _ post _

      q' : Suffix p (b'.code ++ (second ∷ tail))
      q' = drop_suffix (_ ∷ []) (drop_suffix a'.code (subst (Suffix p) e1 q))

      q'' : Suffix p tail
      q'' = drop_suffix (_ ∷ []) (drop_suffix b'.code q')

      d :
          Done k p
            (a'.code ++ (jump (l + 1) (addr_cgt a'.res u) ∷ (b'.code ++ (second ∷ tail))))
            (jump (l + 1) (addr_cgt a'.res u) ∷ (b'.code ++ (second ∷ tail)))
            m
            g
            c
            a'.res
            (f m).0
            (f m).1
      d = a p s c (l + 2) _ (subst (Suffix p) e1 q) m g

      first_jump :
          (b : Bool)
          → taken (f m).0 ≡ b
          → step k p (
              conf (jump (l + 1) (addr_cgt a'.res u) ∷ (b'.code ++ (second ∷ tail))) (f m).1 d.cgts)
            ≡ some (conf (if b then goto (l + 1) p else b'.code ++ (second ∷ tail)) (f m).1 d.cgts)
      first_jump b i =
          j p (l + 1) a'.res u _ _ d.cgts
          ∙ ap
              (λ b.
                some
                  (conf (if b then goto (l + 1) p else b'.code ++ (second ∷ tail)) (f m).1 d.cgts))
              (ap taken d.result ∙ i)

      outcome : Bool → ℕ × Mem
      outcome b =
          if b then (n2, (f m).1) else (if taken (h (f m).1).0 then n2 else n1, (h (f m).1).1)

      Goal : Bool → Type 0
      Goal b =
          Done k p ((logic_code e jump n1 n2 u v x y c l).code ++ post) post m g c (b'.cgt + 1)
            (outcome b).0 (outcome b).1

      r : Rise a' c (l + 2)
      r = rise c (l + 2)

      r' : Rise b' a'.cgt a'.label
      r' = rise' a'.cgt a'.label

      by_case : (taken (f m).0 ≡ true) ⊎ (taken (f m).0 ≡ false) → Goal (taken (f m).0)
      by_case (inl i) = subst Goal (sym i) (
          from_code e1 (
            set_after d
              (more (first_jump true i)
                (test_run e t l (b'.cgt + 1) n1 n2 post s q'' true (f m).1 d.cgts))
              (omega (arith, r.new, r.counted, r'.new, r'.counted))))
      by_case (inr i) =
          let d' =
            then-Done d (more (first_jump false i) stop) (b p s a'.cgt a'.label _ q' (f m).1 d.cgts)
              (omega (arith, r.new, r.counted)) in
          subst Goal (sym i) (
            from_code e1 (
              set_after d'
                (more
                  (j p (l + 1) b'.res v _ _ d'.cgts
                    ∙ ap
                        (λ n.
                          some
                            (conf (if taken n then goto (l + 1) p else tail) (h (f m).1).1 d'.cgts))
                        d'.result)
                  (test_run e t l (b'.cgt + 1) n1 n2 post s q'' (taken (h (f m).1).0) (h (f m).1).1
                    d'.cgts))
                (omega (arith, r.new, r.counted, r'.new, r'.counted))))

  pub or_Computes :
      (e : Env) (u v : Ty) → Computes k (logic_code e (jump_if_true e) 0 1 u v x y) (or_mean f h)
  unfolding step
  or_Computes e u v =
      subst (Computes k (logic_code e (jump_if_true e) 0 1 u v x y)) (λ i m. same m i)
        (logic-Computes e u v (jump_if_true e) (λ n. not (n == 0)) 0 1 (λ p l n u rest m g. refl))
    where
      same : (m : Mem) → logic_mean (λ n. not (n == 0)) 0 1 f h m ≡ or_mean f h m
      same m = by_case ((f m).0 == 0)
        where
          by_case :
              (b : Bool)
              → ◌≡◌ {A = ℕ × Mem}
                  (if not b
                    then (1, (f m).1)
                    else (truth (not ((h (f m).1).0 == 0)), (h (f m).1).1))
                  (if b then (truth (not ((h (f m).1).0 == 0)), (h (f m).1).1) else (1, (f m).1))
          by_case true = refl
          by_case false = refl

  pub and_Computes :
      (e : Env) (u v : Ty) → Computes k (logic_code e (jump_if_zero e) 1 0 u v x y) (and_mean f h)
  unfolding step
  and_Computes e u v =
      subst (Computes k (logic_code e (jump_if_zero e) 1 0 u v x y)) (λ i m. same m i)
        (logic-Computes e u v (jump_if_zero e) (λ n. n == 0) 1 0 (λ p l n u rest m g. refl))
    where
      flipped : (b : Bool) → (if b then 0 else 1) ≡ truth (not b)
      flipped true = refl
      flipped false = refl

      same : (m : Mem) → logic_mean (λ n. n == 0) 1 0 f h m ≡ and_mean f h m
      same m =
          ap (λ n. if (f m).0 == 0 then (0, (f m).1) else (n, (h (f m).1).1))
            (flipped ((h (f m).1).0 == 0))
