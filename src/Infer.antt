-- ===== src/Infer.antt =====
-- The inference of types from operand types in src/nnc_typecheck.c. The types of the operands are
-- given; `nnc_expr_infer_type` finds them by the kind of each operand and may abort.
pub mod Join
mod Tests
use nnc.Common.{ℕ, Bool, true, false, not, if◌then◌else◌}
use nnc.Types.{
  Ty, LeafKind, leaf, ptr_ty, leaf_i8, leaf_u8, leaf_i16, leaf_u16, leaf_i32, leaf_u32, leaf_i64,
  leaf_u64, leaf_f32, leaf_f64, leaf_unknown, signed_type,
}
use nnc.Casts.{
  Checked, type_ok, semantic, can_imp_cast_arith, cast_imp_arith, can_imp_cast_assign, exp_cast,
}

-- The operators of `nnc_binary_expression`.
pub data BinaryKind : Type 0 where
  binary_comma binary_assign : BinaryKind
  binary_mod binary_add binary_sub binary_mul binary_div binary_shl binary_shr : BinaryKind
  binary_bw_or binary_bw_and binary_bw_xor : BinaryKind
  binary_or binary_and binary_eq binary_neq binary_gt binary_lt binary_gte binary_lte : BinaryKind
  binary_other : BinaryKind

-- The addresses of the static types `i8_type`, `u8_type`, … are arguments.
pub record Statics : Type 0 where
  pub addr : LeafKind → ℕ

abbrev pub static_type : Statics → LeafKind → Ty
static_type s k = leaf (s.addr k) k

unfoldable pub infer_imp : Ty → Ty → Checked
infer_imp t1 t2 =
    if can_imp_cast_arith t1 t2
    then cast_imp_arith t1 t2
    else (if can_imp_cast_arith t2 t1 then cast_imp_arith t2 t1 else semantic)

unfoldable pub infer_imp_assign : Ty → Ty → Checked
infer_imp_assign from to = if not (can_imp_cast_assign from to) then semantic else type_ok to

-- The type of a comparison, from the common type of its operands.
abbrev pub compared : Statics → Checked → Checked
compared s semantic = semantic
compared s (type_ok t) =
    type_ok (if not (signed_type t) then static_type s leaf_u8 else static_type s leaf_i8)

unfoldable pub infer_binary : Statics → BinaryKind → Ty → Ty → Checked
unfolding infer_imp infer_imp_assign
infer_binary s binary_comma l r = type_ok r
infer_binary s binary_assign l r = infer_imp_assign r l
infer_binary s binary_mod l r = infer_imp l r
infer_binary s binary_add l r = infer_imp l r
infer_binary s binary_sub l r = infer_imp l r
infer_binary s binary_mul l r = infer_imp l r
infer_binary s binary_div l r = infer_imp l r
infer_binary s binary_shl l r = infer_imp l r
infer_binary s binary_shr l r = infer_imp l r
infer_binary s binary_bw_or l r = infer_imp l r
infer_binary s binary_bw_and l r = infer_imp l r
infer_binary s binary_bw_xor l r = infer_imp l r
infer_binary s binary_other l r = type_ok (static_type s leaf_unknown)
infer_binary s _ l r = compared s (infer_imp l r)

unfoldable pub infer_ternary : Ty → Ty → Checked
unfolding infer_imp_assign
infer_ternary l r = if can_imp_cast_assign r l then infer_imp_assign r l else infer_imp_assign l r
