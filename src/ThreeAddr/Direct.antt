-- ===== src/ThreeAddr/Direct.antt =====
-- Where the translation of src/nnc_3a.c and the language agree on what a pointer points to: the code
-- reads `type->base` without looking through an alias.
use nnc.Common.{◌≡◌, refl, sym, ap, if◌then◌else◌, Bool-cases, inl, inr}
use mathlib.Core.Path.{ap₂, fun_ext, subst}
use nnc.Types.{Ty, unalias, leaf_i64}
use nnc.Infer.{
  static_type, BinaryKind, binary_comma, binary_assign, binary_mod, binary_add, binary_sub,
  binary_mul, binary_div, binary_shl, binary_shr, binary_bw_or, binary_bw_and, binary_bw_xor,
  binary_or, binary_and, binary_eq, binary_neq, binary_gt, binary_lt, binary_gte, binary_lte,
  binary_other,
}
use nnc.ThreeAddr.{base, Env, op_mul, op_add, op_sub}
use nnc.ThreeAddr.Exprs.{
  Expr, ident, int_lit, chr_lit, sizeof, unary, binary, ternary, Mode, value, lvalue,
}
use nnc.ThreeAddr.Emit.{type_of, pointer_arith}
use nnc.ThreeAddr.Machine.{Machine}
use nnc.ThreeAddr.Meaning.{
  Mean, pointee, scaled, unary_mean, lval_unary_mean, binary_mean, both_mean, assign_mean,
  eval_with, eval,
}

-- The pointer of pointer arithmetic and the address of an assignment have no alias as their type.
abbrev pub BinaryDirect : BinaryKind → Ty → Ty → Ty → Type 0
BinaryDirect binary_assign w u v = unalias w ≡ w
BinaryDirect binary_add w u v = if pointer_arith u v then unalias u ≡ u else Unit {0}
BinaryDirect binary_sub w u v = if pointer_arith u v then unalias u ≡ u else Unit {0}
BinaryDirect _ w u v = Unit {0}

unfoldable pub Direct : Env → Mode → Expr → Type 0
unfolding type_of
Direct e value (unary o x t) = Direct e lvalue x × Direct e value x
Direct e value (binary o l r t) =
    BinaryDirect o (type_of e lvalue l) (type_of e value l) (type_of e value r)
    × Direct e lvalue l
    × Direct e value l
    × Direct e value r
Direct e value (ternary c l r t) = Direct e value c × Direct e value l × Direct e value r
Direct e value _ = Unit {0}
Direct e lvalue (unary o x t) = Direct e value x
Direct e lvalue _ = Unit {0}

module _ (e : Env) (k : Machine) where
  scaled-Direct :
      (u v : Ty)
      → (if pointer_arith u v then unalias u ≡ u else Unit {0})
      → scaled base e k u v ≡ scaled pointee e k u v
  scaled-Direct u v h = elim (Bool-cases (pointer_arith u v)) [
    | inl here ↦
        let plain : unalias u ≡ u = subst (λ b. if b then unalias u ≡ u else Unit {0}) here h in
        ap
          (λ t. λ n.
            if pointer_arith u v
            then k.bin op_mul (static_type e.statics leaf_i64) n (e.size (unalias (base t)))
            else n)
          (sym plain)
    | inr other ↦ fun_ext λ n. rw other refl
  ]

  binary_mean-Direct :
      (o : BinaryKind) (t w u v : Ty) (p f g : Mean)
      → BinaryDirect o w u v
      → binary_mean base e k o t w u v p f g ≡ binary_mean pointee e k o t w u v p f g
  binary_mean-Direct binary_assign t w u v p f g h = ap (λ u. assign_mean k (base u) p g) (sym h)
  binary_mean-Direct binary_add t w u v p f g h =
      ap (λ s. both_mean (λ a b. k.bin op_add t a (s b)) f g) (scaled-Direct u v h)
  binary_mean-Direct binary_sub t w u v p f g h =
      ap (λ s. both_mean (λ a b. k.bin op_sub t a (s b)) f g) (scaled-Direct u v h)
  binary_mean-Direct binary_comma t w u v p f g h = refl
  binary_mean-Direct binary_mod t w u v p f g h = refl
  binary_mean-Direct binary_mul t w u v p f g h = refl
  binary_mean-Direct binary_div t w u v p f g h = refl
  binary_mean-Direct binary_shl t w u v p f g h = refl
  binary_mean-Direct binary_shr t w u v p f g h = refl
  binary_mean-Direct binary_bw_or t w u v p f g h = refl
  binary_mean-Direct binary_bw_and t w u v p f g h = refl
  binary_mean-Direct binary_bw_xor t w u v p f g h = refl
  binary_mean-Direct binary_or t w u v p f g h = refl
  binary_mean-Direct binary_and t w u v p f g h = refl
  binary_mean-Direct binary_eq t w u v p f g h = refl
  binary_mean-Direct binary_neq t w u v p f g h = refl
  binary_mean-Direct binary_gt t w u v p f g h = refl
  binary_mean-Direct binary_lt t w u v p f g h = refl
  binary_mean-Direct binary_gte t w u v p f g h = refl
  binary_mean-Direct binary_lte t w u v p f g h = refl
  binary_mean-Direct binary_other t w u v p f g h = refl

  -- There the pointers of the code are those of the language.
  pub eval-Direct : (d : Mode) (x : Expr) → Direct e d x → eval_with base e k d x ≡ eval e k d x
  unfolding eval_with Direct
  eval-Direct value (ident i) h = refl
  eval-Direct value (int_lit n t) h = refl
  eval-Direct value (chr_lit n t) h = refl
  eval-Direct value (sizeof of t) h = refl
  eval-Direct value (unary o x t) h =
      ap₂ (unary_mean k o x t (type_of e value x)) (eval-Direct lvalue x h.0)
        (eval-Direct value x h.1)
  eval-Direct value (binary o l r t) h =
      rw (eval-Direct lvalue l h.1, eval-Direct value l h.2, eval-Direct value r h.3)
        (binary_mean-Direct o t (type_of e lvalue l) (type_of e value l) (type_of e value r)
          (eval e k lvalue l) (eval e k value l) (eval e k value r) h.0)
  eval-Direct value (ternary c l r t) h =
      rw (eval-Direct value c h.0, eval-Direct value l h.1, eval-Direct value r h.2) refl
  eval-Direct lvalue (unary o x t) h = ap (lval_unary_mean o) (eval-Direct value x h)
  eval-Direct lvalue (ident i) h = refl
  eval-Direct lvalue (int_lit n t) h = refl
  eval-Direct lvalue (chr_lit n t) h = refl
  eval-Direct lvalue (sizeof of t) h = refl
  eval-Direct lvalue (binary o l r t) h = refl
  eval-Direct lvalue (ternary c l r t) h = refl
