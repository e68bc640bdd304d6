-- ===== src/Infer/Join.antt =====
-- The common type that src/nnc_typecheck.c infers for two operands.
use nnc.Common.{◌≡◌, ◌∙◌, refl, Bool, true, false, arith, if◌then◌else◌, ◌⊎◌, inl, inr, Bool-cases}
use nnc.Types.{Ty, signed_type, leaf_i8, leaf_u8, numeric_type}
use nnc.Casts.{type_ok, semantic, can_imp_cast_arith, cast_imp_arith}
use nnc.Casts.Order.{level, can_imp_cast_arith_lem, can_imp_cast_arith_refl}
use nnc.Infer.{
  Statics, BinaryKind, infer_imp, infer_binary, compared, static_type, binary_or, binary_and,
  binary_eq, binary_neq, binary_gt, binary_lt, binary_gte, binary_lte,
}

-- `r` is a type to which both operands cast, and it casts to every other such type.
pub record IsJoin (t1 t2 r : Ty) : Type 0 where
  pub left : can_imp_cast_arith t1 r ≡ true
  pub right : can_imp_cast_arith t2 r ≡ true
  pub least :
      (u : Ty)
      → can_imp_cast_arith t1 u ≡ true
      → can_imp_cast_arith t2 u ≡ true
      → can_imp_cast_arith r u ≡ true

-- A cast leads only to a type that casts to itself.
arith_target : (a b : Ty) → can_imp_cast_arith a b ≡ true → can_imp_cast_arith b b ≡ true
arith_target a b h = can_imp_cast_arith_refl b ∙ ground (arith, can_imp_cast_arith_lem a b)

-- Where the inference from two operand types yields a type, it is a least common one; it throws
-- exactly where neither operand casts to the other.
pub infer_imp-IsJoin :
    (t1 t2 : Ty)
    → ((r : Ty) × (infer_imp t1 t2 ≡ type_ok r) × IsJoin t1 t2 r)
      ⊎ ((infer_imp t1 t2 ≡ semantic)
          × (can_imp_cast_arith t1 t2 ≡ false)
          × (can_imp_cast_arith t2 t1 ≡ false))
unfolding infer_imp cast_imp_arith
infer_imp-IsJoin t1 t2 = elim (Bool-cases (can_imp_cast_arith t1 t2)) [
  | inl up ↦
      inl (t2, rw up, record { left = up; right = arith_target t1 t2 up; least = λ u p q. q })
  | inr no_up ↦ elim (Bool-cases (can_imp_cast_arith t2 t1)) [
    | inl down ↦ inl (
      t1,
      rw (no_up, down),
      record { left = arith_target t2 t1 down; right = down; least = λ u p q. p },
    )
    | inr no_down ↦ inr (rw (no_up, no_down), no_up, no_down)
  ]
]

-- For two numeric types of one level the inference yields the second operand's type, so that it
-- depends on the order of the operands unless the two are the same type.
pub infer_imp-order :
    (t1 t2 : Ty)
    → numeric_type t1 ≡ true
    → numeric_type t2 ≡ true
    → level t1 ≡ level t2
    → (infer_imp t1 t2 ≡ type_ok t2) × (infer_imp t2 t1 ≡ type_ok t1)
unfolding infer_imp cast_imp_arith
infer_imp-order t1 t2 n1 n2 e =
    let up : can_imp_cast_arith t1 t2 ≡ true = can_imp_cast_arith_lem t1 t2 ∙ ground arith in
    let down : can_imp_cast_arith t2 t1 ≡ true = can_imp_cast_arith_lem t2 t1 ∙ ground arith in
    (rw up, rw down)

abbrev pub compares : BinaryKind → Bool
compares binary_or = true
compares binary_and = true
compares binary_eq = true
compares binary_neq = true
compares binary_gt = true
compares binary_lt = true
compares binary_gte = true
compares binary_lte = true
compares _ = false

compares_lem :
    (s : Statics) (k : BinaryKind) (l r : Ty)
    → compares k ≡ true
    → infer_binary s k l r ≡ compared s (infer_imp l r)
unfolding infer_binary
compares_lem s binary_or l r h = refl
compares_lem s binary_and l r h = refl
compares_lem s binary_eq l r h = refl
compares_lem s binary_neq l r h = refl
compares_lem s binary_gt l r h = refl
compares_lem s binary_lt l r h = refl
compares_lem s binary_gte l r h = refl
compares_lem s binary_lte l r h = refl
compares_lem s _ l r h = absurd (ground arith)

-- A comparison or logical operator gives the static type `i8` or `u8`, signed as a least common type
-- of its operands, and throws exactly where neither operand casts to the other.
pub infer_binary-compares :
    (s : Statics) (k : BinaryKind) (l r : Ty)
    → compares k ≡ true
    → ((t : Ty) × IsJoin l r t
        × (infer_binary s k l r
            ≡ type_ok (if signed_type t then static_type s leaf_i8 else static_type s leaf_u8)))
      ⊎ ((infer_binary s k l r ≡ semantic)
          × (can_imp_cast_arith l r ≡ false)
          × (can_imp_cast_arith r l ≡ false))
infer_binary-compares s k l r h = elim (infer_imp-IsJoin l r) [
  | inl (t, e, j) ↦ inl (t, j, compares_lem s k l r h ∙ rw e (ground arith))
  | inr (e, n, m) ↦ inr (compares_lem s k l r h ∙ rw e, n, m)
]
