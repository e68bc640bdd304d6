-- ===== src/ThreeAddr/Translate.antt =====
-- The translation of binary and conditional expressions in src/nnc_3a.c, and the switches over the kinds
-- of expressions.
use nnc.Common.{ℕ, false, not, ◌&&◌, if◌then◌else◌}
use nnc.Types.{Ty, arr_or_ptr_type, leaf_i8, leaf_i64}
use nnc.Infer.{
  static_type, BinaryKind, binary_comma, binary_assign, binary_mod, binary_add, binary_sub,
  binary_mul, binary_div, binary_shl, binary_shr, binary_bw_or, binary_bw_and, binary_bw_xor,
  binary_or, binary_and, binary_eq, binary_neq, binary_gt, binary_lt, binary_gte, binary_lte,
  binary_other,
}
use nnc.ThreeAddr.{
  Op, Addr, base, addr_type, mkaddr, no_addr, Quad, mkquad, mkquad1, label_quad, Env, mki3, M,
  ◌>>=◌, ◌>>◌, ret, assert_that, mkcgt, mklabel, quads_add, quads_res, op_add, op_sub, op_mul,
  op_div, op_mod, op_shr, op_shl, op_bw_or, op_bw_and, op_bw_xor, op_plus, op_minus, op_bw_not,
  op_ujump, op_cjumpt, op_cjumplt, op_cjumpgt, op_cjumplte, op_cjumpgte, op_cjumpe, op_cjumpne,
  op_copy, op_deref_copy, addr_cgt,
}
use nnc.ThreeAddr.Exprs.{
  unary_ref, unary_not, unary_cast, unary_plus, unary_minus, unary_deref, unary_bw_not, unary_as,
  UnaryKind, Expr, Mode, sizeof_type, set_cgt, ident_to_3a, iconst_to_3a, cconst_to_3a,
  sizeof_to_3a, lval_ident_to_3a, lval_deref_to_3a, deref_to_3a, cast_to_3a, un_op_to_3a, ref_to_3a,
  test_end, not_to_3a, ident, int_lit, chr_lit, sizeof, unary, binary, ternary, value, lvalue,
}

-- `nnc_or_to_3a` and `nnc_and_to_3a`; a jump tells its test from an operand.
unfoldable pub logic_to_3a :
    Env → (ℕ → Addr → Quad) → ℕ → ℕ → M (Unit {0}) → M (Unit {0}) → M (Unit {0})
logic_to_3a e jump at_fall at_jump lexpr rexpr = do
  b_true ← mklabel
  b_next ← mklabel
  lexpr
  laddr ← quads_res
  quads_add (jump b_true laddr)
  rexpr
  raddr ← quads_res
  quads_add (jump b_true raddr)
  res ← mkcgt
  test_end e (static_type e.statics leaf_i8) b_true b_next res at_fall at_jump

abbrev pub jump_if_true : Env → ℕ → Addr → Quad
jump_if_true e b_true a = mkquad op_cjumpt (mki3 e b_true) a no_addr

abbrev pub jump_if_zero : Env → ℕ → Addr → Quad
jump_if_zero e b_true a = mkquad op_cjumpe (mki3 e b_true) a (mki3 e 0)

abbrev pub or_to_3a : Env → M (Unit {0}) → M (Unit {0}) → M (Unit {0})
or_to_3a e = logic_to_3a e (jump_if_true e) 0 1

abbrev pub and_to_3a : Env → M (Unit {0}) → M (Unit {0}) → M (Unit {0})
and_to_3a e = logic_to_3a e (jump_if_zero e) 1 0

-- `nnc_binary_rel_to_3a`
unfoldable pub binary_rel_to_3a : Env → Op → M (Unit {0}) → M (Unit {0}) → Ty → M (Unit {0})
binary_rel_to_3a e o lexpr rexpr t = do
  b_true ← mklabel
  b_next ← mklabel
  lexpr
  laddr ← quads_res
  rexpr
  raddr ← quads_res
  quads_add (mkquad1 o (mki3 e b_true) t laddr raddr)
  res ← mkcgt
  test_end e t b_true b_next res 0 1

-- `nnc_comma_to_3a`
unfoldable pub comma_to_3a : M (Unit {0}) → M (Unit {0}) → M (Unit {0})
comma_to_3a lexpr rexpr = do lexpr; rexpr; arg ← quads_res; set_cgt op_copy (addr_type arg) arg

-- `nnc_assign_to_3a`; the first argument translates the target as an lvalue.
unfoldable pub assign_to_3a : M (Unit {0}) → M (Unit {0}) → Ty → M (Unit {0})
assign_to_3a lval rexpr t = do
  lval
  addr ← quads_res
  rexpr
  copy ← quads_res
  assert_that (arr_or_ptr_type (addr_type addr))
  let target = base (addr_type addr)
  quads_add (mkquad1 op_deref_copy addr target (mkaddr copy target) no_addr)
  set_cgt op_copy t (mkaddr copy target)

-- The multiplication of pointer arithmetic in `nnc_add_or_sub_to_3a`.
unfoldable pub scale : Env → Addr → Addr → M (Unit {0})
scale e arg1 arg2 =
    if arr_or_ptr_type (addr_type arg1) && not (arr_or_ptr_type (addr_type arg2))
    then (do
      n ← sizeof_type e (base (addr_type arg1))
      quads_add (mkquad1 op_mul arg2 (static_type e.statics leaf_i64) arg2 (mki3 e n)))
    else ret tt

-- The default of `nnc_binary_to_3a`; `nnc_add_or_sub_to_3a` scales the second operand first.
unfoldable pub bin_op_to_3a :
    (Addr → Addr → M (Unit {0})) → Op → M (Unit {0}) → M (Unit {0}) → Ty → M (Unit {0})
bin_op_to_3a before o lexpr rexpr t = do
  lexpr
  arg1 ← quads_res
  rexpr
  arg2 ← quads_res
  before arg1 arg2
  quads_add (mkquad1 o arg1 t arg1 arg2)

abbrev pub add_or_sub_to_3a : Env → Op → M (Unit {0}) → M (Unit {0}) → Ty → M (Unit {0})
add_or_sub_to_3a e = bin_op_to_3a (scale e)

abbrev pub default_to_3a : Op → M (Unit {0}) → M (Unit {0}) → Ty → M (Unit {0})
default_to_3a = bin_op_to_3a (λ _ _. ret tt)

-- The switch of `nnc_binary_to_3a`, with `bin_op_map`. The second argument translates the left operand
-- as an lvalue. No enumerator is `binary_other`.
abbrev pub binary_to_3a :
    Env → M (Unit {0}) → M (Unit {0}) → M (Unit {0}) → BinaryKind → Ty → M (Unit {0})
binary_to_3a e lval l r binary_comma t = comma_to_3a l r
binary_to_3a e lval l r binary_assign t = assign_to_3a lval r t
binary_to_3a e lval l r binary_mod t = default_to_3a op_mod l r t
binary_to_3a e lval l r binary_add t = add_or_sub_to_3a e op_add l r t
binary_to_3a e lval l r binary_sub t = add_or_sub_to_3a e op_sub l r t
binary_to_3a e lval l r binary_mul t = default_to_3a op_mul l r t
binary_to_3a e lval l r binary_div t = default_to_3a op_div l r t
binary_to_3a e lval l r binary_shl t = default_to_3a op_shl l r t
binary_to_3a e lval l r binary_shr t = default_to_3a op_shr l r t
binary_to_3a e lval l r binary_bw_or t = default_to_3a op_bw_or l r t
binary_to_3a e lval l r binary_bw_and t = default_to_3a op_bw_and l r t
binary_to_3a e lval l r binary_bw_xor t = default_to_3a op_bw_xor l r t
binary_to_3a e lval l r binary_or t = or_to_3a e l r
binary_to_3a e lval l r binary_and t = and_to_3a e l r
binary_to_3a e lval l r binary_eq t = binary_rel_to_3a e op_cjumpe l r t
binary_to_3a e lval l r binary_neq t = binary_rel_to_3a e op_cjumpne l r t
binary_to_3a e lval l r binary_gt t = binary_rel_to_3a e op_cjumpgt l r t
binary_to_3a e lval l r binary_lt t = binary_rel_to_3a e op_cjumplt l r t
binary_to_3a e lval l r binary_gte t = binary_rel_to_3a e op_cjumpgte l r t
binary_to_3a e lval l r binary_lte t = binary_rel_to_3a e op_cjumplte l r t
binary_to_3a e lval l r binary_other t = assert_that false

-- The switch of `nnc_unary_to_3a`, with `un_op_map`; `x` is the operand.
abbrev pub unary_to_3a : Env → Expr → M (Unit {0}) → M (Unit {0}) → UnaryKind → Ty → M (Unit {0})
unary_to_3a e x lval expr unary_ref t = ref_to_3a x lval t
unary_to_3a e x lval expr unary_not t = not_to_3a e expr
unary_to_3a e x lval expr unary_cast t = cast_to_3a expr t
unary_to_3a e x lval expr unary_plus t = un_op_to_3a op_plus expr t
unary_to_3a e x lval expr unary_minus t = un_op_to_3a op_minus expr t
unary_to_3a e x lval expr unary_deref t = deref_to_3a expr t
unary_to_3a e x lval expr unary_bw_not t = un_op_to_3a op_bw_not expr t
unary_to_3a e x lval expr unary_as t = cast_to_3a expr t

-- The switch of `nnc_lval_unary_to_3a`
abbrev pub lval_unary_to_3a : M (Unit {0}) → UnaryKind → M (Unit {0})
lval_unary_to_3a expr unary_deref = lval_deref_to_3a expr
lval_unary_to_3a expr _ = assert_that false

-- `nnc_ternary_to_3a`
unfoldable pub ternary_to_3a : Env → M (Unit {0}) → M (Unit {0}) → M (Unit {0}) → Ty → M (Unit {0})
ternary_to_3a e cexpr lexpr rexpr t = do
  b_true ← mklabel
  b_next ← mklabel
  cexpr
  cond ← quads_res
  quads_add (mkquad op_cjumpt (mki3 e b_true) cond no_addr)
  res ← mkcgt
  rexpr
  raddr ← quads_res
  quads_add (mkquad1 op_copy (addr_cgt res t) t raddr no_addr)
  quads_add (mkquad op_ujump (mki3 e b_next) no_addr no_addr)
  quads_add (label_quad b_true)
  lexpr
  laddr ← quads_res
  quads_add (mkquad1 op_copy (addr_cgt res t) t laddr no_addr)
  quads_add (label_quad b_next)

-- `nnc_expr_to_3a` and, in the mode `lvalue`, `nnc_lval_expr_to_3a`
unfoldable pub to_3a : Env → Mode → Expr → M (Unit {0})
to_3a e value (ident i) = ident_to_3a i
to_3a e value (int_lit n t) = iconst_to_3a n t
to_3a e value (chr_lit n t) = cconst_to_3a e n t
to_3a e value (sizeof of t) = sizeof_to_3a e of t
to_3a e value (unary k x t) = unary_to_3a e x (to_3a e lvalue x) (to_3a e value x) k t
to_3a e value (binary k l r t) =
    binary_to_3a e (to_3a e lvalue l) (to_3a e value l) (to_3a e value r) k t
to_3a e value (ternary c l r t) =
    ternary_to_3a e (to_3a e value c) (to_3a e value l) (to_3a e value r) t
to_3a e lvalue (ident i) = lval_ident_to_3a i
to_3a e lvalue (unary k x t) = lval_unary_to_3a (to_3a e value x) k
to_3a e lvalue _ = assert_that false

abbrev pub expr_to_3a : Env → Expr → M (Unit {0})
expr_to_3a e = to_3a e value

abbrev pub lval_expr_to_3a : Env → Expr → M (Unit {0})
lval_expr_to_3a e = to_3a e lvalue
