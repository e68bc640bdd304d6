-- ===== src/ThreeAddr/BuiltExprs.antt =====
-- Every valid expression is put together as in Built.
use nnc.Common.{◌≡◌, refl, true, false, not, if◌then◌else◌, ◌==◌, Bool-cases, inl, inr, ◌⊎◌}
use nnc.Types.{Ty, ptr_ty, leaf_u8}
use mathlib.Core.Path.{subst}
use nnc.Infer.{
  static_type, BinaryKind, binary_comma, binary_assign, binary_mod, binary_add, binary_sub,
  binary_mul, binary_div, binary_shl, binary_shr, binary_bw_or, binary_bw_and, binary_bw_xor,
  binary_or, binary_and, binary_eq, binary_neq, binary_gt, binary_lt, binary_gte, binary_lte,
  binary_other,
}
use nnc.ThreeAddr.{
  base, Env, M, op_add, op_sub, op_mul, op_div, op_mod, op_shr, op_shl, op_bw_or, op_bw_and,
  op_bw_xor, op_plus, op_minus, op_bw_not, op_cjumplt, op_cjumpgt, op_cjumplte, op_cjumpgte,
  op_cjumpe, op_cjumpne,
}
use nnc.ThreeAddr.Exprs.{
  unary_ref, unary_not, unary_cast, unary_plus, unary_minus, unary_deref, unary_bw_not, unary_as,
  Expr, ident, int_lit, chr_lit, sizeof, unary, binary, ternary, Mode, value, lvalue,
}
use nnc.ThreeAddr.Translate.{scale, binary_to_3a, to_3a}
use nnc.ThreeAddr.Emit.{Code, binary_type, type_of, pointer_arith, scale_code}
use nnc.ThreeAddr.Spec.{binary_code, emit, Complete, ScaleValid, BinaryValid, Valid}
use nnc.ThreeAddr.Machine.{Machine}
use nnc.ThreeAddr.Meaning.{Mean, scaled, binary_mean, eval_with}
use nnc.ThreeAddr.Built.{
  Scales, no_scale, not_scaled, is_scaled, Built, un_built, not_built, or_built, and_built,
  rel_built, comma_built, assign_built, bin_built, ternary_built,
}
use nnc.ThreeAddr.Builds.{
  const-Built, ident-Built, sizeof-Built, address-Built, copy-Built, deref-Built, cast-Built,
  ref-Built,
}

module _ (e : Env) (k : Machine) where
  scales :
      (u v : Ty)
      → ScaleValid u v
      → Scales e k u v (scale e) (scale_code e u v) (scaled base e k u v)
  scales u v h = by_case (Bool-cases (pointer_arith u v))
    where
      by_case :
          (pointer_arith u v ≡ true) ⊎ (pointer_arith u v ≡ false)
          → Scales e k u v (scale e) (scale_code e u v) (scaled base e k u v)
      by_case (inl s) = is_scaled s (subst (λ b. if b then Complete (base u) else Unit {0}) s h)
      by_case (inr s) = not_scaled s

  module _ {a b p : M (Unit {0})} {x y q : Code} {f g r : Mean} {u v w : Ty} where
    binary-Built :
        (o : BinaryKind) (t : Ty) {L A B : Type 0}
        → BinaryValid o w u v L A B
        → (L → Built e k p q w r)
        → (A → Built e k a x u f)
        → (B → Built e k b y v g)
        → Built e k
            (binary_to_3a e p a b o t)
            (binary_code e o t w u v q x y)
            (binary_type e o v t)
            (binary_mean base e k o t w u v r f g)
    binary-Built binary_comma t h l a b = comma_built (a h.0) (b h.1)
    binary-Built binary_assign t h l a b = assign_built t h.0 (l h.1) (b h.2)
    binary-Built binary_mod t h l a b =
        bin_built op_mod t (k.bin op_mod t) (λ p n x y z qs m g. refl) no_scale (a h.0) (b h.1)
    binary-Built binary_mul t h l a b =
        bin_built op_mul t (k.bin op_mul t) (λ p n x y z qs m g. refl) no_scale (a h.0) (b h.1)
    binary-Built binary_div t h l a b =
        bin_built op_div t (k.bin op_div t) (λ p n x y z qs m g. refl) no_scale (a h.0) (b h.1)
    binary-Built binary_shl t h l a b =
        bin_built op_shl t (k.bin op_shl t) (λ p n x y z qs m g. refl) no_scale (a h.0) (b h.1)
    binary-Built binary_shr t h l a b =
        bin_built op_shr t (k.bin op_shr t) (λ p n x y z qs m g. refl) no_scale (a h.0) (b h.1)
    binary-Built binary_bw_or t h l a b =
        bin_built op_bw_or t (k.bin op_bw_or t) (λ p n x y z qs m g. refl) no_scale (a h.0) (b h.1)
    binary-Built binary_bw_and t h l a b =
        bin_built op_bw_and t (k.bin op_bw_and t) (λ p n x y z qs m g. refl) no_scale (a h.0)
          (b h.1)
    binary-Built binary_bw_xor t h l a b =
        bin_built op_bw_xor t (k.bin op_bw_xor t) (λ p n x y z qs m g. refl) no_scale (a h.0)
          (b h.1)
    binary-Built binary_add t h l a b =
        bin_built op_add t (k.bin op_add t) (λ p n x y z qs m g. refl) (scales u v h.0) (a h.1)
          (b h.2)
    binary-Built binary_sub t h l a b =
        bin_built op_sub t (k.bin op_sub t) (λ p n x y z qs m g. refl) (scales u v h.0) (a h.1)
          (b h.2)
    binary-Built binary_or t h l a b = or_built (a h.0) (b h.1)
    binary-Built binary_and t h l a b = and_built (a h.0) (b h.1)
    binary-Built binary_eq t h l a b =
        rel_built op_cjumpe t (λ n p. n == p) (λ p r x y z qs m g. refl) (a h.0) (b h.1)
    binary-Built binary_neq t h l a b =
        rel_built op_cjumpne t (λ n p. not (n == p)) (λ p r x y z qs m g. refl) (a h.0) (b h.1)
    binary-Built binary_gt t h l a b =
        rel_built op_cjumpgt t (λ n p. k.less u p n) (λ p r x y z qs m g. refl) (a h.0) (b h.1)
    binary-Built binary_lt t h l a b =
        rel_built op_cjumplt t (λ n p. k.less u n p) (λ p r x y z qs m g. refl) (a h.0) (b h.1)
    binary-Built binary_gte t h l a b =
        rel_built op_cjumpgte t (λ n p. not (k.less u n p)) (λ p r x y z qs m g. refl) (a h.0)
          (b h.1)
    binary-Built binary_lte t h l a b =
        rel_built op_cjumplte t (λ n p. not (k.less u p n)) (λ p r x y z qs m g. refl) (a h.0)
          (b h.1)
    binary-Built binary_other t h l a b = absurd h

  pub expr-Built :
      (d : Mode) (x : Expr)
      → Valid e d x
      → Built e k (to_3a e d x) (emit e d x) (type_of e d x) (eval_with base e k d x)
  unfolding to_3a emit type_of eval_with Valid
  expr-Built value (ident i) h = ident-Built e k i h
  expr-Built value (int_lit n t) h = const-Built e k n t t
  expr-Built value (chr_lit n t) h = const-Built e k n t (static_type e.statics leaf_u8)
  expr-Built value (sizeof of t) h = sizeof-Built e k of t h
  expr-Built value (unary unary_ref x t) h = ref-Built e k x t h (expr-Built lvalue x)
  expr-Built value (unary unary_not x t) h = not_built (expr-Built value x h)
  expr-Built value (unary unary_cast x t) h = cast-Built e k (expr-Built value x h) t
  expr-Built value (unary unary_plus x t) h =
      un_built op_plus t (k.un op_plus t) (λ p n x y z qs m g. refl) (expr-Built value x h)
  expr-Built value (unary unary_minus x t) h =
      un_built op_minus t (k.un op_minus t) (λ p n x y z qs m g. refl) (expr-Built value x h)
  expr-Built value (unary unary_deref x t) h = deref-Built e k (expr-Built value x h) t
  expr-Built value (unary unary_bw_not x t) h =
      un_built op_bw_not t (k.un op_bw_not t) (λ p n x y z qs m g. refl) (expr-Built value x h)
  expr-Built value (unary unary_as x t) h = cast-Built e k (expr-Built value x h) t
  expr-Built value (binary o l r t) h =
      binary-Built o t h (expr-Built lvalue l) (expr-Built value l) (expr-Built value r)
  expr-Built value (ternary c l r t) h =
      ternary_built t (expr-Built value c h.0) (expr-Built value l h.1) (expr-Built value r h.2)
  expr-Built lvalue (ident i) h = address-Built e k i (ptr_ty 0 i.type)
  expr-Built lvalue (unary unary_deref x t) h = copy-Built e k (expr-Built value x h)
  expr-Built lvalue (unary unary_ref x t) h = absurd h
  expr-Built lvalue (unary unary_not x t) h = absurd h
  expr-Built lvalue (unary unary_cast x t) h = absurd h
  expr-Built lvalue (unary unary_plus x t) h = absurd h
  expr-Built lvalue (unary unary_minus x t) h = absurd h
  expr-Built lvalue (unary unary_bw_not x t) h = absurd h
  expr-Built lvalue (unary unary_as x t) h = absurd h
  expr-Built lvalue (int_lit n t) h = absurd h
  expr-Built lvalue (chr_lit n t) h = absurd h
  expr-Built lvalue (sizeof of t) h = absurd h
  expr-Built lvalue (binary o l r t) h = absurd h
  expr-Built lvalue (ternary c l r t) h = absurd h
