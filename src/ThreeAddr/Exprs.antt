-- ===== src/ThreeAddr/Exprs.antt =====
-- The translation of expressions in src/nnc_3a.c. An expression is typed; idents have no nesting. Left
-- out are `.`, indexing, calls and lengthof, and string and float literals.
use nnc.Common.{ℕ, Bool, true, false, not, if◌then◌else◌, List}
use nnc.Types.{Ty, ptr_ty, unalias, incomplete_type, leaf_i8, leaf_u8}
use nnc.Infer.{static_type, BinaryKind}
use nnc.SymTable.{IdentCtx, ident_enumerator}
use nnc.ThreeAddr.{
  Op, Addr, addr_type, no_addr, mkquad, mkquad1, label_quad, Env, mki3, M, ◌>>=◌, ◌>>◌, ret,
  assert_that, mkcgt, mklabel, quads_add, quads_res, op_ujump, op_cjumpe, op_copy, op_cast, op_ref,
  op_deref, addr_name, addr_iconst, addr_cgt,
}

-- The fields of `nnc_ident` that the translation reads; the last two are those of the enumerator.
pub record Ident : Type 0 where
  pub ictx : IdentCtx
  pub name : List ℕ
  pub type : Ty
  pub init_const : ℕ
  pub enum_type : Ty

pub data UnaryKind : Type 0 where
  unary_ref unary_not unary_cast unary_plus unary_minus unary_deref unary_bw_not unary_as :
      UnaryKind

-- `nnc_expression`; the type stands last, and `sizeof` has its operand first.
pub data Expr : Type 0 where
  ident : Ident → Expr
  int_lit chr_lit : ℕ → Ty → Expr
  sizeof : Ty → Ty → Expr
  unary : UnaryKind → Expr → Ty → Expr
  binary : BinaryKind → Expr → Expr → Ty → Expr
  ternary : Expr → Expr → Expr → Ty → Expr

-- Whether an expression is translated by `nnc_expr_to_3a` or by `nnc_lval_expr_to_3a`.
pub data Mode : Type 0 where
  value lvalue : Mode

abbrev pub is_enumerator : IdentCtx → Bool
is_enumerator ident_enumerator = true
is_enumerator _ = false

-- `nnc_sizeof`
abbrev pub sizeof_type : Env → Ty → M ℕ
sizeof_type e t = do assert_that (not (incomplete_type t)); ret (e.size (unalias t))

-- A new temporary of a type, set by an operation.
unfoldable pub set_cgt : Op → Ty → Addr → M (Unit {0})
set_cgt o t arg = do c ← mkcgt; quads_add (mkquad1 o (addr_cgt c t) t arg no_addr)

-- `nnc_ident_to_3a`
unfoldable pub ident_to_3a : Ident → M (Unit {0})
ident_to_3a i =
    if is_enumerator i.ictx
    then (do
      assert_that (not (incomplete_type i.enum_type))
      set_cgt op_copy i.enum_type (addr_iconst i.init_const i.enum_type))
    else set_cgt op_copy i.type (addr_name i.ictx i.name i.type)

-- `nnc_iconst_to_3a`
abbrev pub iconst_to_3a : ℕ → Ty → M (Unit {0})
iconst_to_3a n t = set_cgt op_copy t (addr_iconst n t)

-- `nnc_cconst_to_3a`
abbrev pub cconst_to_3a : Env → ℕ → Ty → M (Unit {0})
cconst_to_3a e n t = set_cgt op_copy t (addr_iconst n (static_type e.statics leaf_u8))

-- `nnc_sizeof_to_3a`
abbrev pub sizeof_to_3a : Env → Ty → Ty → M (Unit {0})
sizeof_to_3a e of t = do n ← sizeof_type e (unalias of); set_cgt op_copy t (addr_iconst n t)

-- `nnc_lval_ident_to_3a`; the pointer type is a new one, whose address no code reads.
abbrev pub lval_ident_to_3a : Ident → M (Unit {0})
lval_ident_to_3a i = set_cgt op_ref (ptr_ty 0 i.type) (addr_name i.ictx i.name i.type)

-- `nnc_lval_deref_to_3a`; `expr` translates the operand.
abbrev pub lval_deref_to_3a : M (Unit {0}) → M (Unit {0})
lval_deref_to_3a expr = do expr; addr ← quads_res; set_cgt op_copy (addr_type addr) addr

-- `nnc_deref_to_3a`
abbrev pub deref_to_3a : M (Unit {0}) → Ty → M (Unit {0})
deref_to_3a expr t = do lval_deref_to_3a expr; res ← quads_res; set_cgt op_deref t res

-- `nnc_cast_to_3a`
abbrev pub cast_to_3a : M (Unit {0}) → Ty → M (Unit {0})
cast_to_3a expr t = do expr; res ← quads_res; set_cgt op_cast t res

-- The default of `nnc_unary_to_3a`
abbrev pub un_op_to_3a : Op → M (Unit {0}) → Ty → M (Unit {0})
un_op_to_3a o expr t = do expr; arg ← quads_res; quads_add (mkquad1 o arg t arg no_addr)

-- `nnc_ref_to_3a`; `lval` translates the operand as an lvalue.
abbrev pub ref_to_3a : Expr → M (Unit {0}) → Ty → M (Unit {0})
ref_to_3a (ident i) lval t = set_cgt op_ref t (addr_name i.ictx i.name i.type)
ref_to_3a _ lval t = lval

-- The end of a test: 0 or 1 into a temporary, by whether the label was jumped to.
unfoldable pub test_end : Env → Ty → ℕ → ℕ → ℕ → ℕ → ℕ → M (Unit {0})
test_end e t b_true b_next res at_fall at_jump = do
  quads_add (mkquad1 op_copy (addr_cgt res t) t (mki3 e at_fall) no_addr)
  quads_add (mkquad op_ujump (mki3 e b_next) no_addr no_addr)
  quads_add (label_quad b_true)
  quads_add (mkquad1 op_copy (addr_cgt res t) t (mki3 e at_jump) no_addr)
  quads_add (label_quad b_next)

-- `nnc_not_to_3a`
unfoldable pub not_to_3a : Env → M (Unit {0}) → M (Unit {0})
not_to_3a e expr = do
  b_true ← mklabel
  b_next ← mklabel
  expr
  res ← mkcgt
  cond ← quads_res
  quads_add (mkquad op_cjumpe (mki3 e b_true) cond (mki3 e 0))
  test_end e (static_type e.statics leaf_i8) b_true b_next res 0 1
