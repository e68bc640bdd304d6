-- ===== src/Casts.antt =====
-- The implicit and explicit casts of src/nnc_typecheck.c. Thrown errors are the result `semantic`.
pub mod Order
pub mod Widening
pub mod Assign
pub mod Explicit
use nnc.Common.{ℕ, zero, suc, ◌+◌, Bool, true, false, not, ◌||◌, ◌&&◌, if◌then◌else◌, ◌==◌, leb}
use nnc.Types.{
  Ty, Kind, LeafKind, Params, leaf, arr_ty, ptr_ty, alias_ty, fn_ty, no_params, param, kind,
  unalias, numeric_type, struct_or_union_type, same_types, rank, leaf_void, kind_arr, kind_ptr,
  kind_fn, kind_incomplete, fn_type, ptr_type, arr_or_ptr_type,
}

-- The table `hierarchy`, 0 where it has no entry.
unfoldable pub hierarchy : Kind → ℕ
hierarchy Kind.primitive_i8 = 0
hierarchy Kind.primitive_u8 = 1
hierarchy Kind.primitive_i16 = 2
hierarchy Kind.primitive_u16 = 3
hierarchy Kind.primitive_i32 = 4
hierarchy Kind.primitive_u32 = 5
hierarchy Kind.primitive_i64 = 6
hierarchy Kind.enumeration = 6
hierarchy Kind.primitive_u64 = 7
hierarchy Kind.primitive_f32 = 8
hierarchy Kind.primitive_f64 = 9
hierarchy _ = 0

unfoldable pub can_imp_cast_arith : Ty → Ty → Bool
unfolding hierarchy
can_imp_cast_arith from to =
    let ref_to = unalias to in
    let ref_from = unalias from in
    if not (numeric_type ref_to) || not (numeric_type ref_from)
    then (if not (struct_or_union_type ref_to) || not (struct_or_union_type ref_from)
        then false
        else same_types ref_to ref_from)
    else leb (hierarchy (kind ref_from)) (hierarchy (kind ref_to))

-- A type, or the exception NNC_SEMANTIC.
pub data Checked : Type 0 where
  type_ok : Ty → Checked
  semantic : Checked

unfoldable pub cast_imp_arith : Ty → Ty → Checked
cast_imp_arith from to = if not (can_imp_cast_arith from to) then semantic else type_ok to

-- The loops that take `base` while the type is an array, an alias or a pointer.
unfoldable pub pointee : Ty → Ty
pointee (arr_ty a b) = pointee b
pointee (ptr_ty a b) = pointee b
pointee (alias_ty a b) = pointee b
pointee (leaf a k) = leaf a k
pointee (fn_ty a ps r) = fn_ty a ps r

abbrev pub kind_void : Kind → Bool
kind_void Kind.void = true
kind_void _ = false

unfoldable pub can_imp_cast_ptrs : Ty → Ty → Bool
unfolding pointee
can_imp_cast_ptrs from to =
    let ref_to = pointee to in
    let ref_from = pointee from in
    if not (rank from == rank to)
    then false
    else (if kind_void (kind ref_to) || kind_void (kind ref_from)
        then true
        else can_imp_cast_arith ref_from ref_to)

-- What `nnc_can_imp_cast_assign` decides when the types are not both functions.
pub can_assign_other : Ty → Ty → Bool
can_assign_other ref_from ref_to =
    if can_imp_cast_arith ref_from ref_to
    then true
    else (if fn_type ref_to && ptr_type ref_from
        then true
        else (if ptr_type ref_to && arr_or_ptr_type ref_from
            then can_imp_cast_ptrs ref_from ref_to
            else false))

abbrev pub paramc : Params → ℕ
paramc no_params = 0
paramc (param t ps) = suc (paramc ps)

-- `nnc_can_imp_cast_fns` from a function with the parameters `ps` to one with `qs` and `s`: `each`
-- and `ret` compare the parameters and the results. In the source its first argument is the target.
abbrev pub can_imp_cast_fns : Params → (Params → Bool) → (Ty → Bool) → Params → Ty → Bool
can_imp_cast_fns ps each ret qs s = if paramc qs == paramc ps then each qs && ret s else false

-- `nnc_can_imp_cast_assign` where `ref_from` is a function.
pub assign_fn : Ty → Params → (Params → Bool) → (Ty → Bool) → Ty → Bool
unfolding can_assign_other
assign_fn from ps each ret (fn_ty b qs s) =
    if can_imp_cast_arith from (fn_ty b qs s) then true else can_imp_cast_fns ps each ret qs s
assign_fn from ps each ret (leaf b k) = can_assign_other from (leaf b k)
assign_fn from ps each ret (arr_ty b t) = can_assign_other from (arr_ty b t)
assign_fn from ps each ret (ptr_ty b t) = can_assign_other from (ptr_ty b t)
assign_fn from ps each ret (alias_ty b t) = can_assign_other from (alias_ty b t)

unfoldable mutual
  unfolding can_assign_other assign_fn

  pub can_imp_cast_assign : Ty → Ty → Bool
  can_imp_cast_assign (alias_ty a b) to = can_imp_cast_assign b to
  can_imp_cast_assign (fn_ty a ps r) to =
      assign_fn (fn_ty a ps r) ps (can_imp_cast_params ps) (can_imp_cast_assign r) (unalias to)
  can_imp_cast_assign (leaf a k) to = can_assign_other (leaf a k) (unalias to)
  can_imp_cast_assign (arr_ty a t) to = can_assign_other (arr_ty a t) (unalias to)
  can_imp_cast_assign (ptr_ty a t) to = can_assign_other (ptr_ty a t) (unalias to)

  -- The loop over the parameters.
  pub can_imp_cast_params : Params → Params → Bool
  can_imp_cast_params no_params qs = true
  can_imp_cast_params (param p ps) no_params = true
  can_imp_cast_params (param p ps) (param q qs) =
      can_imp_cast_assign p q && can_imp_cast_params ps qs

unfoldable pub can_exp_cast : Ty → Ty → Bool
can_exp_cast from to =
    let ref_to = unalias to in
    let ref_from = unalias from in
    if kind_arr (kind ref_to) || kind_void (kind ref_to)
    then false
    else (if struct_or_union_type ref_to || struct_or_union_type ref_from
        then same_types ref_to ref_from
        else true)

unfoldable pub exp_cast : Ty → Ty → Checked
unfolding can_exp_cast
exp_cast from to = if can_exp_cast from to then type_ok to else semantic
