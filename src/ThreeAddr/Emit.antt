-- ===== src/ThreeAddr/Emit.antt =====
-- The code of an expression as a function of the expression and the two counters, without the
-- generator's state: what src/nnc_3a.c appends, in which temporary the value is, and where the counters
-- end.
use nnc.Common.{ℕ, ◌+◌, Bool, not, ◌&&◌, if◌then◌else◌, List, [], ◌∷◌, ◌++◌}
use nnc.Types.{Ty, ptr_ty, unalias, arr_or_ptr_type, leaf_i8, leaf_i64}
use nnc.Infer.{static_type, BinaryKind, binary_comma, binary_or, binary_and}
use nnc.ThreeAddr.{
  Op, Addr, null_ty, base, no_addr, Quad, mkquad, mkquad1, label_quad, Env, mki3, op_mul, op_ujump,
  op_copy, op_deref_copy, addr_cgt,
}
use nnc.ThreeAddr.Exprs.{
  UnaryKind, unary_ref, unary_not, Expr, ident, int_lit, chr_lit, sizeof, unary, binary, ternary,
  Mode, value, lvalue, is_enumerator,
}
use nnc.ThreeAddr.Translate.{jump_if_true, jump_if_zero}

pub record Emit : Type 0 where
  pub code : List Quad
  pub res : ℕ
  pub cgt : ℕ
  pub label : ℕ

-- The code of an expression from the counters on.
abbrev pub Code : Type 0
Code = ℕ → ℕ → Emit

-- The static type of the temporary that holds the value, or the address in the mode `lvalue`.
abbrev pub binary_type : Env → BinaryKind → Ty → Ty → Ty
binary_type e binary_comma r t = r
binary_type e binary_or r t = static_type e.statics leaf_i8
binary_type e binary_and r t = static_type e.statics leaf_i8
binary_type e _ r t = t

abbrev pub ref_type : Expr → Ty → Ty → Ty
ref_type (ident i) l t = t
ref_type _ l t = l

abbrev pub unary_type : Env → UnaryKind → Expr → Ty → Ty → Ty
unary_type e unary_ref x l t = ref_type x l t
unary_type e unary_not x l t = static_type e.statics leaf_i8
unary_type e _ x l t = t

unfoldable pub type_of : Env → Mode → Expr → Ty
type_of e value (ident i) = if is_enumerator i.ictx then i.enum_type else i.type
type_of e value (int_lit n t) = t
type_of e value (chr_lit n t) = t
type_of e value (sizeof of t) = t
type_of e value (unary k x t) = let l = type_of e lvalue x in unary_type e k x l t
type_of e value (binary k l r t) = let u = type_of e value r in binary_type e k u t
type_of e value (ternary c l r t) = t
type_of e lvalue (ident i) = ptr_ty 0 i.type
type_of e lvalue (unary k x t) = type_of e value x
type_of e lvalue _ = null_ty

abbrev pub set_code : Op → Ty → Addr → Code
set_code o t arg c l = record {
  code = mkquad1 o (addr_cgt (c + 1) t) t arg no_addr ∷ [];
  res = c + 1;
  cgt = c + 1;
  label = l;
}

-- One more temporary, from the result of the code before.
abbrev pub then_set : Op → Ty → Ty → Emit → Emit
then_set o t u x = record {
  code = x.code ++ (mkquad1 o (addr_cgt (x.cgt + 1) t) t (addr_cgt x.res u) no_addr ∷ []);
  res = x.cgt + 1;
  cgt = x.cgt + 1;
  label = x.label;
}

abbrev pub un_op_code : Op → Ty → Ty → Code → Code
un_op_code o t u x c l = record {
  code =
      (x c l).code ++ (mkquad1 o (addr_cgt (x c l).res u) t (addr_cgt (x c l).res u) no_addr ∷ []);
  res = (x c l).res;
  cgt = (x c l).cgt;
  label = (x c l).label;
}

-- What follows the jump of a test, with the labels `l + 1` and `l + 2`.
abbrev pub test_code : Env → Ty → ℕ → ℕ → ℕ → ℕ → List Quad
test_code e t l res at_fall at_jump =
    mkquad1 op_copy (addr_cgt res t) t (mki3 e at_fall) no_addr
    ∷ mkquad op_ujump (mki3 e (l + 2)) no_addr no_addr
    ∷ label_quad (l + 1)
    ∷ mkquad1 op_copy (addr_cgt res t) t (mki3 e at_jump) no_addr
    ∷ label_quad (l + 2)
    ∷ []

abbrev pub not_code : Env → Ty → Code → Code
not_code e u x c l = record {
  code =
      (x c (l + 2)).code
      ++ (jump_if_zero e (l + 1) (addr_cgt (x c (l + 2)).res u)
          ∷ test_code e (static_type e.statics leaf_i8) l ((x c (l + 2)).cgt + 1) 0 1);
  res = (x c (l + 2)).cgt + 1;
  cgt = (x c (l + 2)).cgt + 1;
  label = (x c (l + 2)).label;
}

abbrev pub logic_code : Env → (ℕ → Addr → Quad) → ℕ → ℕ → Ty → Ty → Code → Code → Code
logic_code e jump at_fall at_jump u v x y c l =
    let a = x c (l + 2) in
    let b = y a.cgt a.label in
    record {
      code =
          a.code
          ++ (jump (l + 1) (addr_cgt a.res u)
              ∷ (b.code
                  ++ (jump (l + 1) (addr_cgt b.res v)
                      ∷ test_code e (static_type e.statics leaf_i8) l (b.cgt + 1) at_fall
                          at_jump)));
      res = b.cgt + 1;
      cgt = b.cgt + 1;
      label = b.label;
    }

abbrev pub rel_code : Env → Op → Ty → Ty → Ty → Code → Code → Code
rel_code e o t u v x y c l =
    let a = x c (l + 2) in
    let b = y a.cgt a.label in
    record {
      code =
          a.code
          ++ (b.code
              ++ (mkquad1 o (mki3 e (l + 1)) t (addr_cgt a.res u) (addr_cgt b.res v)
                  ∷ test_code e t l (b.cgt + 1) 0 1));
      res = b.cgt + 1;
      cgt = b.cgt + 1;
      label = b.label;
    }

abbrev pub comma_code : Ty → Code → Code → Code
comma_code v x y c l =
    let a = x c l in
    let b = y a.cgt a.label in
    record {
      code =
          a.code
          ++ (b.code
              ++ (mkquad1 op_copy (addr_cgt (b.cgt + 1) v) v (addr_cgt b.res v) no_addr ∷ []));
      res = b.cgt + 1;
      cgt = b.cgt + 1;
      label = b.label;
    }

-- `u` is the type of the address that is assigned to.
abbrev pub assign_code : Ty → Ty → Code → Code → Code
assign_code t u x y c l =
    let a = x c l in
    let b = y a.cgt a.label in
    record {
      code =
          a.code
          ++ (b.code
              ++ (mkquad1 op_deref_copy (addr_cgt a.res u) (base u) (addr_cgt b.res (base u))
                    no_addr
                  ∷ mkquad1 op_copy (addr_cgt (b.cgt + 1) t) t (addr_cgt b.res (base u)) no_addr
                  ∷ []));
      res = b.cgt + 1;
      cgt = b.cgt + 1;
      label = b.label;
    }

-- `before` are the quads that scale the second operand.
abbrev pub bin_code : (ℕ → List Quad) → Op → Ty → Ty → Ty → Code → Code → Code
bin_code before o t u v x y c l =
    let a = x c l in
    let b = y a.cgt a.label in
    record {
      code =
          a.code
          ++ (b.code
              ++ (before b.res
                  ++ (mkquad1 o (addr_cgt a.res u) t (addr_cgt a.res u) (addr_cgt b.res v) ∷ [])));
      res = a.res;
      cgt = b.cgt;
      label = b.label;
    }

-- Whether the second operand is counted in elements that the first points to.
abbrev pub pointer_arith : Ty → Ty → Bool
pointer_arith u v = arr_or_ptr_type u && not (arr_or_ptr_type v)

abbrev pub scale_quad : Env → Ty → Ty → ℕ → Quad
scale_quad e u v n =
    mkquad1 op_mul (addr_cgt n v) (static_type e.statics leaf_i64) (addr_cgt n v)
      (mki3 e (e.size (unalias (base u))))

abbrev pub scale_code : Env → Ty → Ty → ℕ → List Quad
scale_code e u v n = if pointer_arith u v then scale_quad e u v n ∷ [] else []

abbrev pub ternary_code : Env → Ty → Ty → Ty → Ty → Code → Code → Code → Code
ternary_code e t u v w x y z c l =
    let a = x c (l + 2) in
    let b = z (a.cgt + 1) a.label in
    let d = y b.cgt b.label in
    record {
      code =
          a.code
          ++ (jump_if_true e (l + 1) (addr_cgt a.res u)
              ∷ (b.code
                  ++ (mkquad1 op_copy (addr_cgt (a.cgt + 1) t) t (addr_cgt b.res w) no_addr
                      ∷ mkquad op_ujump (mki3 e (l + 2)) no_addr no_addr
                      ∷ label_quad (l + 1)
                      ∷ (d.code
                          ++ (mkquad1 op_copy (addr_cgt (a.cgt + 1) t) t (addr_cgt d.res v) no_addr
                              ∷ label_quad (l + 2)
                              ∷ [])))));
      res = a.cgt + 1;
      cgt = d.cgt;
      label = d.label;
    }
