-- ===== src/ThreeAddr/Spec.antt =====
-- The code of every expression, and the expressions that the checker of types lets pass: those that
-- src/nnc_3a.c translates without an abort or a failed assert.
use nnc.Common.{◌≡◌, true, false, if◌then◌else◌, []}
use nnc.Types.{Ty, unalias, ptr_ty, arr_or_ptr_type, incomplete_type, leaf_u8}
use nnc.Infer.{
  static_type, BinaryKind, binary_comma, binary_assign, binary_mod, binary_add, binary_sub,
  binary_mul, binary_div, binary_shl, binary_shr, binary_bw_or, binary_bw_and, binary_bw_xor,
  binary_or, binary_and, binary_eq, binary_neq, binary_gt, binary_lt, binary_gte, binary_lte,
  binary_other,
}
use nnc.ThreeAddr.{
  Op, base, Env, op_add, op_sub, op_mul, op_div, op_mod, op_shr, op_shl, op_bw_or, op_bw_and,
  op_bw_xor, op_plus, op_minus, op_bw_not, op_cjumplt, op_cjumpgt, op_cjumplte, op_cjumpgte,
  op_cjumpe, op_cjumpne, op_copy, op_cast, op_ref, op_deref, addr_name, addr_iconst,
}
use nnc.ThreeAddr.Exprs.{
  Ident, UnaryKind, unary_ref, unary_not, unary_cast, unary_plus, unary_minus, unary_deref,
  unary_bw_not, unary_as, Expr, ident, int_lit, chr_lit, sizeof, unary, binary, ternary, Mode,
  value, lvalue, is_enumerator,
}
use nnc.ThreeAddr.Translate.{jump_if_true, jump_if_zero}
use nnc.ThreeAddr.Emit.{
  Code, type_of, set_code, then_set, un_op_code, not_code, logic_code, rel_code, comma_code,
  assign_code, bin_code, pointer_arith, scale_code, ternary_code,
}

abbrev pub no_code : Code
no_code c l = record { code = []; res = c; cgt = c; label = l }

abbrev pub then_code : Op → Ty → Ty → Code → Code
then_code o t u x c l = then_set o t u (x c l)

abbrev pub deref_code : Ty → Ty → Code → Code
deref_code t u x = then_code op_deref t u (then_code op_copy u u x)

abbrev pub ref_code : Expr → Ty → Code → Code
ref_code (ident i) t lval = set_code op_ref t (addr_name i.ictx i.name i.type)
ref_code _ t lval = lval

-- `u` is the type of the operand.
abbrev pub unary_code : Env → UnaryKind → Expr → Ty → Ty → Code → Code → Code
unary_code e unary_ref x t u lval c = ref_code x t lval
unary_code e unary_not x t u lval c = not_code e u c
unary_code e unary_cast x t u lval c = then_code op_cast t u c
unary_code e unary_plus x t u lval c = un_op_code op_plus t u c
unary_code e unary_minus x t u lval c = un_op_code op_minus t u c
unary_code e unary_deref x t u lval c = deref_code t u c
unary_code e unary_bw_not x t u lval c = un_op_code op_bw_not t u c
unary_code e unary_as x t u lval c = then_code op_cast t u c

abbrev pub pointer_code : Env → Op → Ty → Ty → Ty → Code → Code → Code
pointer_code e o t u v = bin_code (scale_code e u v) o t u v

abbrev pub plain_code : Op → Ty → Ty → Ty → Code → Code → Code
plain_code = bin_code (λ _. [])

-- `w` is the type of the address of the left operand, `u` and `v` are the types of the operands.
abbrev pub binary_code : Env → BinaryKind → Ty → Ty → Ty → Ty → Code → Code → Code → Code
binary_code e binary_comma t w u v p x y = comma_code v x y
binary_code e binary_assign t w u v p x y = assign_code t w p y
binary_code e binary_mod t w u v p x y = plain_code op_mod t u v x y
binary_code e binary_add t w u v p x y = pointer_code e op_add t u v x y
binary_code e binary_sub t w u v p x y = pointer_code e op_sub t u v x y
binary_code e binary_mul t w u v p x y = plain_code op_mul t u v x y
binary_code e binary_div t w u v p x y = plain_code op_div t u v x y
binary_code e binary_shl t w u v p x y = plain_code op_shl t u v x y
binary_code e binary_shr t w u v p x y = plain_code op_shr t u v x y
binary_code e binary_bw_or t w u v p x y = plain_code op_bw_or t u v x y
binary_code e binary_bw_and t w u v p x y = plain_code op_bw_and t u v x y
binary_code e binary_bw_xor t w u v p x y = plain_code op_bw_xor t u v x y
binary_code e binary_or t w u v p x y = logic_code e (jump_if_true e) 0 1 u v x y
binary_code e binary_and t w u v p x y = logic_code e (jump_if_zero e) 1 0 u v x y
binary_code e binary_eq t w u v p x y = rel_code e op_cjumpe t u v x y
binary_code e binary_neq t w u v p x y = rel_code e op_cjumpne t u v x y
binary_code e binary_gt t w u v p x y = rel_code e op_cjumpgt t u v x y
binary_code e binary_lt t w u v p x y = rel_code e op_cjumplt t u v x y
binary_code e binary_gte t w u v p x y = rel_code e op_cjumpgte t u v x y
binary_code e binary_lte t w u v p x y = rel_code e op_cjumplte t u v x y
binary_code e binary_other t w u v p x y = no_code

abbrev pub ident_code : Ident → Code
ident_code i =
    if is_enumerator i.ictx
    then set_code op_copy i.enum_type (addr_iconst i.init_const i.enum_type)
    else set_code op_copy i.type (addr_name i.ictx i.name i.type)

abbrev pub lval_unary_code : UnaryKind → Ty → Code → Code
lval_unary_code unary_deref u x = then_code op_copy u u x
lval_unary_code _ u x = no_code

unfoldable pub emit : Env → Mode → Expr → Code
unfolding type_of
emit e value (ident i) = ident_code i
emit e value (int_lit n t) = set_code op_copy t (addr_iconst n t)
emit e value (chr_lit n t) = set_code op_copy t (addr_iconst n (static_type e.statics leaf_u8))
emit e value (sizeof of t) = set_code op_copy t (addr_iconst (e.size (unalias of)) t)
emit e value (unary k x t) =
    unary_code e k x t (type_of e value x) (emit e lvalue x) (emit e value x)
emit e value (binary k l r t) =
    binary_code e k t (type_of e lvalue l) (type_of e value l) (type_of e value r) (emit e lvalue l)
      (emit e value l) (emit e value r)
emit e value (ternary c l r t) =
    ternary_code e t (type_of e value c) (type_of e value l) (type_of e value r) (emit e value c)
      (emit e value l) (emit e value r)
emit e lvalue (ident i) = set_code op_ref (ptr_ty 0 i.type) (addr_name i.ictx i.name i.type)
emit e lvalue (unary k x t) = lval_unary_code k (type_of e value x) (emit e value x)
emit e lvalue _ = no_code

abbrev pub Complete : Ty → Type 0
Complete t = incomplete_type t ≡ false

-- A type with a size, or no pointer arithmetic.
abbrev pub ScaleValid : Ty → Ty → Type 0
ScaleValid u v = if pointer_arith u v then Complete (base u) else Unit {0}

abbrev pub RefValid : Expr → Type 0 → Type 0
RefValid (ident i) lval = Unit {0}
RefValid _ lval = lval

abbrev pub UnaryValid : UnaryKind → Expr → Type 0 → Type 0 → Type 0
UnaryValid unary_ref x lval val = RefValid x lval
UnaryValid _ x lval val = val

abbrev pub BinaryValid : BinaryKind → Ty → Ty → Ty → Type 0 → Type 0 → Type 0 → Type 0
BinaryValid binary_assign w u v lval l r = (arr_or_ptr_type w ≡ true) × lval × r
BinaryValid binary_add w u v lval l r = ScaleValid u v × l × r
BinaryValid binary_sub w u v lval l r = ScaleValid u v × l × r
BinaryValid binary_other w u v lval l r = ⊥
BinaryValid _ w u v lval l r = l × r

abbrev pub LvalUnaryValid : UnaryKind → Type 0 → Type 0
LvalUnaryValid unary_deref x = x
LvalUnaryValid _ x = ⊥

-- What the checker of types sees to: lvalues are idents and dereferences, sizes are those of complete
-- types, and what is assigned to has an address.
unfoldable pub Valid : Env → Mode → Expr → Type 0
unfolding type_of
Valid e value (ident i) = if is_enumerator i.ictx then Complete i.enum_type else Unit {0}
Valid e value (int_lit n t) = Unit {0}
Valid e value (chr_lit n t) = Unit {0}
Valid e value (sizeof of t) = Complete of
Valid e value (unary k x t) = UnaryValid k x (Valid e lvalue x) (Valid e value x)
Valid e value (binary k l r t) =
    BinaryValid k (type_of e lvalue l) (type_of e value l) (type_of e value r) (Valid e lvalue l)
      (Valid e value l) (Valid e value r)
Valid e value (ternary c l r t) = Valid e value c × Valid e value l × Valid e value r
Valid e lvalue (ident i) = Unit {0}
Valid e lvalue (unary k x t) = LvalUnaryValid k (Valid e value x)
Valid e lvalue _ = ⊥
