-- ===== src/Casts/Explicit.antt =====
-- The explicit cast of src/nnc_typecheck.c allows what the implicit casts allow.
use nnc.Common.{
  ℕ, ◌≡◌, ◌∙◌, refl, sym, Bool, true, false, ◌||◌, arith, if◌then◌else◌, Bool-cases, inl, inr,
}
use nnc.Types.{
  Ty, Kind, Params, leaf, arr_ty, ptr_ty, alias_ty, fn_ty, kind, unalias, numeric_type,
  struct_or_union_type, same_types, fn_type, ptr_type, integral_type, real_type, arr_or_ptr_type,
  kind_arr, kind_ptr, kind_fn, kind_struct_or_union, kind_integral, kind_real, kind_enum,
}
use nnc.Casts.{
  can_imp_cast_arith, can_assign_other, can_imp_cast_assign, can_imp_cast_params, assign_fn,
  kind_void, can_exp_cast,
}
use nnc.Types.Classes.{unalias_idem}
use nnc.Casts.Order.{can_imp_cast_arith_lem}

-- What a kind that casts implicitly is not.
kind_sub :
    (k : Kind)
    → (kind_integral k || kind_real k || kind_enum k || kind_fn k || kind_ptr k) ≡ true
    → (kind_arr k ≡ false) × (kind_void k ≡ false) × (kind_struct_or_union k ≡ false)
kind_sub k h = ground arith

struct_sub :
    (k : Kind) → kind_struct_or_union k ≡ true → (kind_arr k ≡ false) × (kind_void k ≡ false)
struct_sub k h = ground arith

-- An explicit cast by the kinds behind the aliases.
exp_kinds :
    (a b : Ty)
    → can_exp_cast a b ≡ (
        if kind_arr (kind (unalias b)) || kind_void (kind (unalias b))
        then false
        else (if kind_struct_or_union (kind (unalias b)) || kind_struct_or_union (kind (unalias a))
            then same_types b a
            else true))
unfolding can_exp_cast struct_or_union_type same_types
exp_kinds a b = rw (unalias_idem a, unalias_idem b) refl

numeric_kinds :
    (t : Ty)
    → numeric_type t ≡ (
        kind_integral (kind (unalias t))
        || kind_real (kind (unalias t))
        || kind_enum (kind (unalias t)))
unfolding numeric_type integral_type real_type
numeric_kinds t = rw (unalias_idem t) refl

struct_kinds : (t : Ty) → struct_or_union_type t ≡ kind_struct_or_union (kind (unalias t))
unfolding struct_or_union_type
struct_kinds t = refl

-- An arithmetic cast is also an explicit one.
pub can_imp_cast_arith-exp : (a b : Ty) → can_imp_cast_arith a b ≡ true → can_exp_cast a b ≡ true
can_imp_cast_arith-exp a b h =
    exp_kinds a b
    ∙ ground (
      arith,
      can_imp_cast_arith_lem a b,
      numeric_kinds a,
      numeric_kinds b,
      struct_kinds a,
      struct_kinds b,
      kind_sub (kind (unalias b)),
      kind_sub (kind (unalias a)),
      struct_sub (kind (unalias b)),
    )

-- A pointer or a function is an explicit cast of every type that is no struct or union.
exp_open :
    (a b : Ty)
    → struct_or_union_type a ≡ false
    → (fn_type b || ptr_type b) ≡ true
    → can_exp_cast a b ≡ true
unfolding fn_type ptr_type struct_or_union_type
exp_open a b s h = exp_kinds a b ∙ ground (arith, kind_sub (kind (unalias b)))

ptr_open :
    (t : Ty)
    → (arr_or_ptr_type t || ptr_type t || fn_type t) ≡ true
    → struct_or_union_type t ≡ false
unfolding arr_or_ptr_type ptr_type fn_type struct_or_union_type
ptr_open t h = kinds (kind (unalias t)) h
  where
    kinds :
        (k : Kind)
        → ((kind_ptr k || kind_arr k) || kind_ptr k || kind_fn k) ≡ true
        → kind_struct_or_union k ≡ false
    kinds k h = ground arith

other-exp : (a b : Ty) → can_assign_other a b ≡ true → can_exp_cast a b ≡ true
unfolding can_assign_other
other-exp a b h = elim (Bool-cases (can_imp_cast_arith a b)) [
  | inl e ↦ can_imp_cast_arith-exp a b e
  | inr n ↦ exp_open a b (ptr_open a (ground arith)) (ground arith)
]

fn-exp :
    (x : ℕ) (ps : Params) (r : Ty) (each : Params → Bool) (ret : Ty → Bool) (b : Ty)
    → assign_fn (fn_ty x ps r) ps each ret b ≡ true
    → can_exp_cast (fn_ty x ps r) b ≡ true
unfolding assign_fn arr_or_ptr_type unalias ptr_type fn_type
fn-exp x ps r each ret (fn_ty y qs s) h =
    exp_open (fn_ty x ps r) (fn_ty y qs s) (ptr_open (fn_ty x ps r) refl) refl
fn-exp x ps r each ret (leaf y k) h = other-exp (fn_ty x ps r) (leaf y k) h
fn-exp x ps r each ret (arr_ty y t) h = other-exp (fn_ty x ps r) (arr_ty y t) h
fn-exp x ps r each ret (ptr_ty y t) h = other-exp (fn_ty x ps r) (ptr_ty y t) h
fn-exp x ps r each ret (alias_ty y t) h = other-exp (fn_ty x ps r) (alias_ty y t) h

-- Aliases of the target do not matter.
exp_to : (a b : Ty) → can_exp_cast a (unalias b) ≡ can_exp_cast a b
unfolding unalias same_types
exp_to a b = exp_kinds a (unalias b) ∙ rw (unalias_idem b) (sym (exp_kinds a b))

-- What an assignment casts implicitly can be cast explicitly.
pub can_imp_cast_assign-exp : (a b : Ty) → can_imp_cast_assign a b ≡ true → can_exp_cast a b ≡ true
unfolding can_imp_cast_assign unalias same_types
can_imp_cast_assign-exp (alias_ty x a) b h =
    exp_kinds (alias_ty x a) b ∙ sym (exp_kinds a b) ∙ can_imp_cast_assign-exp a b h
can_imp_cast_assign-exp (leaf x k) b h =
    sym (exp_to (leaf x k) b) ∙ other-exp (leaf x k) (unalias b) h
can_imp_cast_assign-exp (arr_ty x t) b h =
    sym (exp_to (arr_ty x t) b) ∙ other-exp (arr_ty x t) (unalias b) h
can_imp_cast_assign-exp (ptr_ty x t) b h =
    sym (exp_to (ptr_ty x t) b) ∙ other-exp (ptr_ty x t) (unalias b) h
can_imp_cast_assign-exp (fn_ty x ps r) b h =
    sym (exp_to (fn_ty x ps r) b)
    ∙ fn-exp x ps r (can_imp_cast_params ps) (can_imp_cast_assign r) (unalias b) h
