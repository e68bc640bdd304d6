-- ===== src/ThreeAddr/Labels.antt =====
-- The labels of a code: each stands once, and none was counted before.
use nnc.Common.{
  ℕ, ◌+◌, ◌≤◌, ◌<◌, ◌≡◌, ◌∙◌, refl, arith, if◌then◌else◌, ◌==◌, List, [], ◌∷◌, ◌++◌, inl, inr, ◌⊎◌,
  ◌≢◌,
}
use nnc.Types.{Ty, leaf_i8}
use nnc.Infer.{static_type}
use nnc.ThreeAddr.{
  Op, Addr, base, no_addr, Quad, mkquad, mkquad1, label_quad, Env, mki3, op_copy, op_deref_copy,
  addr_cgt,
}
use nnc.ThreeAddr.Translate.{jump_if_zero}
use nnc.ThreeAddr.Emit.{
  Code, test_code, not_code, logic_code, rel_code, comma_code, assign_code, bin_code,
}
use nnc.ThreeAddr.Grows.{Rise}

-- How often a label stands in a code.
unfoldable pub count : ℕ → List Quad → ℕ
count n [] = 0
count n (q ∷ qs) = (if q.label == n then 1 else 0) + count n qs

pub count-none : (n : ℕ) → count n [] ≡ 0
unfolding count
count-none n = refl

pub count-append : (n : ℕ) (xs ys : List Quad) → count n (xs ++ ys) ≡ count n xs + count n ys
unfolding count
count-append n [] ys = omega arith
count-append n (q ∷ xs) ys = omega (arith, count-append n xs ys)

-- A label that stands `k` times: nowhere, or once if it was counted after `l` and up to `m`.
abbrev pub Once : ℕ → ℕ → ℕ → ℕ → Type 0
Once k l n m = (k ≡ 0) ⊎ ((k ≡ 1) × (l < n) × (n ≤ m))

unfoldable pub bit : ℕ → ℕ → ℕ
bit m n = if m == n then 1 else 0

pub bit-cases : (m n : ℕ) → ((m ≡ n) × (bit m n ≡ 1)) ⊎ ((m ≢ n) × (bit m n ≡ 0))
unfolding bit
bit-cases m n = ground arith

pub count-test :
    (e : Env) (t : Ty) (l r p q n : ℕ)
    → 0 < n
    → count n (test_code e t l r p q) ≡ bit (l + 1) n + bit (l + 2) n
unfolding count bit
count-test e t l r p q n h = ground arith

pub count-plain :
    (n : ℕ) (q : Quad) (qs : List Quad) → q.label ≡ 0 → 0 < n → count n (q ∷ qs) ≡ count n qs
unfolding count
count-plain n q qs h i = ground arith

pub count-label : (n l : ℕ) (qs : List Quad) → count n (label_quad l ∷ qs) ≡ bit l n + count n qs
unfolding count bit
count-label n l qs = refl

-- How the labels of a code follow from those of its parts.
module _ {l m n k : ℕ} where
  pub Once-eq : {j : ℕ} → Once j l n m → k ≡ j → Once k l n m
  Once-eq (inl z) e = inl (e ∙ z)
  Once-eq (inr (o, h, i)) e = inr (e ∙ o, h, i)

  pub Once-both : {j d : ℕ} → Once j l n d → Once k d n m → l ≤ d → d ≤ m → Once (j + k) l n m
  Once-both (inl z) (inl y) h i = inl (omega arith)
  Once-both (inl z) (inr (o, g, f)) h i = inr (omega arith, omega arith, f)
  Once-both (inr (o, g, f)) (inl y) h i = inr (omega arith, g, omega arith)
  Once-both (inr (o, g, f)) (inr (o', g', f')) h i = absurd (omega arith)

  pub Once-test : Once k (l + 2) n m → l + 2 ≤ m → Once (k + (bit (l + 1) n + bit (l + 2) n)) l n m
  Once-test o h = by_case o (bit-cases (l + 1) n) (bit-cases (l + 2) n)
    where
      by_case :
          Once k (l + 2) n m
          → ((l + 1 ≡ n) × (bit (l + 1) n ≡ 1)) ⊎ ((l + 1 ≢ n) × (bit (l + 1) n ≡ 0))
          → ((l + 2 ≡ n) × (bit (l + 2) n ≡ 1)) ⊎ ((l + 2 ≢ n) × (bit (l + 2) n ≡ 0))
          → Once (k + (bit (l + 1) n + bit (l + 2) n)) l n m
      by_case (inl z) (inl (a, b)) (inl (c, d)) = absurd (omega arith)
      by_case (inl z) (inl (a, b)) (inr (c, d)) = inr (omega arith, omega arith, omega arith)
      by_case (inl z) (inr (a, b)) (inl (c, d)) = inr (omega arith, omega arith, omega arith)
      by_case (inl z) (inr (a, b)) (inr (c, d)) = inl (omega arith)
      by_case (inr (o, g, f)) (inl (a, b)) q = absurd (omega arith)
      by_case (inr (o, g, f)) (inr (a, b)) (inl (c, d)) = absurd (omega arith)
      by_case (inr (o, g, f)) (inr (a, b)) (inr (c, d)) = inr (omega arith, omega arith, f)

-- The labels of a code, in the order of its counters.
abbrev pub LabelsOnce : Code → Type 0
LabelsOnce x = (c l n : ℕ) → 0 < n → Once (count n (x c l).code) l n (x c l).label

pub count-one : (n : ℕ) (o : Op) (r x y : Addr) → 0 < n → count n (mkquad o r x y ∷ []) ≡ 0
unfolding count
count-one n o r x y h = ground arith

module _ {x : Code} (a : LabelsOnce x) (rise : (c l : ℕ) → Rise (x c l) c l) where
  -- A code and quads that are no labels.
  pub plain_labels :
      (c l n : ℕ) (qs : List Quad)
      → 0 < n
      → count n qs ≡ 0
      → Once (count n ((x c l).code ++ qs)) l n (x c l).label
  plain_labels c l n qs h z = Once-eq (a c l n h) (omega (arith, count-append n (x c l).code qs))

  pub not_labels : (e : Env) (u : Ty) → LabelsOnce (not_code e u x)
  not_labels e u c l n h =
      let a' = x c (l + 2) in
      let t = test_code e (static_type e.statics leaf_i8) l (a'.cgt + 1) 0 1 in
      let q = jump_if_zero e (l + 1) (addr_cgt a'.res u) in
      Once-eq (Once-test (a c (l + 2) n h) (rise c (l + 2)).labels) (
        omega (
          arith,
          count-append n a'.code (q ∷ t),
          count-plain n q t refl h,
          count-test e (static_type e.statics leaf_i8) l (a'.cgt + 1) 0 1 n h,
        ))

  module _ {y : Code} (b : LabelsOnce y) (rise' : (c l : ℕ) → Rise (y c l) c l) where
    pair-Once :
        (c l n : ℕ)
        → 0 < n
        → Once
            (count n (x c l).code + count n (y (x c l).cgt (x c l).label).code)
            l
            n
            (y (x c l).cgt (x c l).label).label
    pair-Once c l n h = Once-both (a c l n h) (b _ _ n h) (rise c l).labels (rise' _ _).labels

    pub comma_labels : (v : Ty) → LabelsOnce (comma_code v x y)
    comma_labels v c l n h =
        let a' = x c l in
        let b' = y a'.cgt a'.label in
        let q = mkquad1 op_copy (addr_cgt (b'.cgt + 1) v) v (addr_cgt b'.res v) no_addr in
        Once-eq (pair-Once c l n h) (
          omega (
            arith,
            count-append n a'.code (b'.code ++ (q ∷ [])),
            count-append n b'.code (q ∷ []),
            count-one n q.op q.res q.arg1 q.arg2 h,
          ))

    pub assign_labels : (t u : Ty) → LabelsOnce (assign_code t u x y)
    assign_labels t u c l n h =
        let a' = x c l in
        let b' = y a'.cgt a'.label in
        let q =
          mkquad1 op_deref_copy (addr_cgt a'.res u) (base u) (addr_cgt b'.res (base u)) no_addr in
        let r = mkquad1 op_copy (addr_cgt (b'.cgt + 1) t) t (addr_cgt b'.res (base u)) no_addr in
        Once-eq (pair-Once c l n h) (
          omega (
            arith,
            count-append n a'.code (b'.code ++ (q ∷ r ∷ [])),
            count-append n b'.code (q ∷ r ∷ []),
            count-plain n q (r ∷ []) refl h,
            count-one n r.op r.res r.arg1 r.arg2 h,
          ))

    pub bin_labels :
        (qs : ℕ → List Quad)
        → ((n m : ℕ) → 0 < n → count n (qs m) ≡ 0)
        → (o : Op) (t u v : Ty) → LabelsOnce (bin_code qs o t u v x y)
    bin_labels qs z o t u v c l n h =
        let a' = x c l in
        let b' = y a'.cgt a'.label in
        let q = mkquad1 o (addr_cgt a'.res u) t (addr_cgt a'.res u) (addr_cgt b'.res v) in
        Once-eq (pair-Once c l n h) (
          omega (
            arith,
            count-append n a'.code (b'.code ++ (qs b'.res ++ (q ∷ []))),
            count-append n b'.code (qs b'.res ++ (q ∷ [])),
            count-append n (qs b'.res) (q ∷ []),
            z n b'.res h,
            count-one n q.op q.res q.arg1 q.arg2 h,
          ))

    test-Once :
        (c l n : ℕ)
        → 0 < n
        → Once
            (count n (x c (l + 2)).code
              + count n (y (x c (l + 2)).cgt (x c (l + 2)).label).code
              + (bit (l + 1) n + bit (l + 2) n))
            l
            n
            (y (x c (l + 2)).cgt (x c (l + 2)).label).label
    test-Once c l n h = Once-test (pair-Once c (l + 2) n h) (
        omega
          (arith, (rise c (l + 2)).labels, (rise' (x c (l + 2)).cgt (x c (l + 2)).label).labels))

    pub logic_labels :
        (e : Env) (jump : ℕ → Addr → Quad)
        → ((m : ℕ) (d : Addr) → (jump m d).label ≡ 0)
        → (p q : ℕ) (u v : Ty) → LabelsOnce (logic_code e jump p q u v x y)
    logic_labels e jump z p q u v c l n h =
        let a' = x c (l + 2) in
        let b' = y a'.cgt a'.label in
        let i8 = static_type e.statics leaf_i8 in
        let t = test_code e i8 l (b'.cgt + 1) p q in
        let j = jump (l + 1) (addr_cgt a'.res u) in
        let j' = jump (l + 1) (addr_cgt b'.res v) in
        Once-eq (test-Once c l n h) (
          omega (
            arith,
            count-append n a'.code (j ∷ (b'.code ++ (j' ∷ t))),
            count-plain n j (b'.code ++ (j' ∷ t)) (z _ _) h,
            count-append n b'.code (j' ∷ t),
            count-plain n j' t (z _ _) h,
            count-test e i8 l (b'.cgt + 1) p q n h,
          ))

    pub rel_labels : (e : Env) (o : Op) (t u v : Ty) → LabelsOnce (rel_code e o t u v x y)
    rel_labels e o t u v c l n h =
        let a' = x c (l + 2) in
        let b' = y a'.cgt a'.label in
        let r = test_code e t l (b'.cgt + 1) 0 1 in
        let j = mkquad1 o (mki3 e (l + 1)) t (addr_cgt a'.res u) (addr_cgt b'.res v) in
        Once-eq (test-Once c l n h) (
          omega (
            arith,
            count-append n a'.code (b'.code ++ (j ∷ r)),
            count-append n b'.code (j ∷ r),
            count-plain n j r refl h,
            count-test e t l (b'.cgt + 1) 0 1 n h,
          ))
