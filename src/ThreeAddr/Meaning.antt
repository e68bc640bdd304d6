-- ===== src/ThreeAddr/Meaning.antt =====
-- What an expression means: its value and the memory after it, or the address of an lvalue. `eval`
-- follows the language, not the code; `eval_with base` takes pointers to point to what the code does.
use nnc.Common.{ℕ, Bool, not, if◌then◌else◌, ◌==◌}
use nnc.Types.{Ty, unalias, leaf_i64}
use nnc.Infer.{
  static_type, BinaryKind, binary_comma, binary_assign, binary_mod, binary_add, binary_sub,
  binary_mul, binary_div, binary_shl, binary_shr, binary_bw_or, binary_bw_and, binary_bw_xor,
  binary_or, binary_and, binary_eq, binary_neq, binary_gt, binary_lt, binary_gte, binary_lte,
  binary_other,
}
use nnc.ThreeAddr.{
  base, Env, op_add, op_sub, op_mul, op_div, op_mod, op_shr, op_shl, op_bw_or, op_bw_and, op_bw_xor,
  op_plus, op_minus, op_bw_not,
}
use nnc.ThreeAddr.Exprs.{
  Ident, UnaryKind, unary_ref, unary_not, unary_cast, unary_plus, unary_minus, unary_deref,
  unary_bw_not, unary_as, Expr, ident, int_lit, chr_lit, sizeof, unary, binary, ternary, Mode,
  value, lvalue, is_enumerator,
}
use nnc.ThreeAddr.Emit.{type_of, pointer_arith}
use nnc.ThreeAddr.Machine.{Machine, Mem, name_value}

abbrev pub Mean : Type 0
Mean = Mem → ℕ × Mem

abbrev pub truth : Bool → ℕ
truth b = if b then 1 else 0

abbrev pub no_mean : Mean
no_mean m = (0, m)

abbrev pub map_mean : (ℕ → ℕ) → Mean → Mean
map_mean f x m = (f (x m).0, (x m).1)

abbrev pub both_mean : (ℕ → ℕ → ℕ) → Mean → Mean → Mean
both_mean f x y m = (f (x m).0 (y (x m).1).0, (y (x m).1).1)

-- The second operand is evaluated only if the first does not decide.
abbrev pub or_mean : Mean → Mean → Mean
or_mean x y m =
    if (x m).0 == 0 then (truth (not ((y (x m).1).0 == 0)), (y (x m).1).1) else (1, (x m).1)

abbrev pub and_mean : Mean → Mean → Mean
and_mean x y m =
    if (x m).0 == 0 then (0, (x m).1) else (truth (not ((y (x m).1).0 == 0)), (y (x m).1).1)

-- What a pointer or an array of type `t` points to, where `t` may be an alias of its type.
abbrev pub pointee : Ty → Ty
pointee t = base (unalias t)

-- The address first, then the value, then the store of a value of type `target`.
abbrev pub assign_mean : Machine → Ty → Mean → Mean → Mean
assign_mean k target x y m = ((y (x m).1).0, k.store target (x m).0 (y (x m).1).0 (y (x m).1).1)

abbrev pub choice_mean : Mean → Mean → Mean → Mean
choice_mean x y z m = if (x m).0 == 0 then z (x m).1 else y (x m).1

-- A number of elements counts in the size of what the pointer points to, which `to` gives.
abbrev pub scaled : (Ty → Ty) → Env → Machine → Ty → Ty → ℕ → ℕ
scaled to e k u v n =
    if pointer_arith u v
    then k.bin op_mul (static_type e.statics leaf_i64) n (e.size (unalias (to u)))
    else n

abbrev pub ref_mean : Machine → Expr → Mean → Mean
ref_mean k (ident i) lval m = (k.address i.ictx i.name, m)
ref_mean k _ lval m = lval m

abbrev pub unary_mean : Machine → UnaryKind → Expr → Ty → Ty → Mean → Mean → Mean
unary_mean k unary_ref x t u lval f = ref_mean k x lval
unary_mean k unary_not x t u lval f = map_mean (λ a. truth (a == 0)) f
unary_mean k unary_cast x t u lval f = map_mean (k.cast u t) f
unary_mean k unary_plus x t u lval f = map_mean (k.un op_plus t) f
unary_mean k unary_minus x t u lval f = map_mean (k.un op_minus t) f
unary_mean k unary_deref x t u lval f = λ m. (k.load t (f m).0 (f m).1, (f m).1)
unary_mean k unary_bw_not x t u lval f = map_mean (k.un op_bw_not t) f
unary_mean k unary_as x t u lval f = map_mean (k.cast u t) f

-- `w` is the type of the address of the left operand, `u` and `v` are the types of the operands.
-- Comparisons are those of the left operand's type.
abbrev pub binary_mean :
    (Ty → Ty) → Env → Machine → BinaryKind → Ty → Ty → Ty → Ty → Mean → Mean → Mean → Mean
binary_mean to e k binary_comma t w u v p f g = both_mean (λ a b. b) f g
binary_mean to e k binary_assign t w u v p f g = assign_mean k (to w) p g
binary_mean to e k binary_mod t w u v p f g = both_mean (k.bin op_mod t) f g
binary_mean to e k binary_add t w u v p f g =
    both_mean (λ a b. k.bin op_add t a (scaled to e k u v b)) f g
binary_mean to e k binary_sub t w u v p f g =
    both_mean (λ a b. k.bin op_sub t a (scaled to e k u v b)) f g
binary_mean to e k binary_mul t w u v p f g = both_mean (k.bin op_mul t) f g
binary_mean to e k binary_div t w u v p f g = both_mean (k.bin op_div t) f g
binary_mean to e k binary_shl t w u v p f g = both_mean (k.bin op_shl t) f g
binary_mean to e k binary_shr t w u v p f g = both_mean (k.bin op_shr t) f g
binary_mean to e k binary_bw_or t w u v p f g = both_mean (k.bin op_bw_or t) f g
binary_mean to e k binary_bw_and t w u v p f g = both_mean (k.bin op_bw_and t) f g
binary_mean to e k binary_bw_xor t w u v p f g = both_mean (k.bin op_bw_xor t) f g
binary_mean to e k binary_or t w u v p f g = or_mean f g
binary_mean to e k binary_and t w u v p f g = and_mean f g
binary_mean to e k binary_eq t w u v p f g = both_mean (λ a b. truth (a == b)) f g
binary_mean to e k binary_neq t w u v p f g = both_mean (λ a b. truth (not (a == b))) f g
binary_mean to e k binary_gt t w u v p f g = both_mean (λ a b. truth (k.less u b a)) f g
binary_mean to e k binary_lt t w u v p f g = both_mean (λ a b. truth (k.less u a b)) f g
binary_mean to e k binary_gte t w u v p f g = both_mean (λ a b. truth (not (k.less u a b))) f g
binary_mean to e k binary_lte t w u v p f g = both_mean (λ a b. truth (not (k.less u b a))) f g
binary_mean to e k binary_other t w u v p f g = no_mean

abbrev pub ident_mean : Machine → Ident → Mean
ident_mean k i m =
    if is_enumerator i.ictx then (i.init_const, m) else (name_value k i.ictx i.name i.type m, m)

abbrev pub lval_unary_mean : UnaryKind → Mean → Mean
lval_unary_mean unary_deref x = x
lval_unary_mean _ x = no_mean

-- The meaning, where `to` gives what a pointer or an array points to.
unfoldable pub eval_with : (Ty → Ty) → Env → Machine → Mode → Expr → Mean
unfolding type_of
eval_with to e k value (ident i) = ident_mean k i
eval_with to e k value (int_lit n t) = λ m. (n, m)
eval_with to e k value (chr_lit n t) = λ m. (n, m)
eval_with to e k value (sizeof of t) = λ m. (e.size (unalias of), m)
eval_with to e k value (unary o x t) =
    unary_mean k o x t (type_of e value x) (eval_with to e k lvalue x) (eval_with to e k value x)
eval_with to e k value (binary o l r t) =
    binary_mean to e k o t (type_of e lvalue l) (type_of e value l) (type_of e value r)
      (eval_with to e k lvalue l) (eval_with to e k value l) (eval_with to e k value r)
eval_with to e k value (ternary c l r t) =
    choice_mean (eval_with to e k value c) (eval_with to e k value l) (eval_with to e k value r)
eval_with to e k lvalue (ident i) = λ m. (k.address i.ictx i.name, m)
eval_with to e k lvalue (unary o x t) = lval_unary_mean o (eval_with to e k value x)
eval_with to e k lvalue _ = no_mean

-- What an expression means in the language.
abbrev pub eval : Env → Machine → Mode → Expr → Mean
eval e k d x = eval_with pointee e k d x
