-- ===== src/Casts/Assign.antt =====
-- Assignment casts of src/nnc_typecheck.c: which types take their own values, and explicit casts.
use nnc.Common.{ℕ, ◌≡◌, ◌∙◌, refl, ap, Bool, true, false, ◌||◌, ◌&&◌, arith, ◌==◌}
use nnc.Types.{
  Ty, Params, LeafKind, leaf, arr_ty, ptr_ty, alias_ty, fn_ty, no_params, param, kind, unalias,
  numeric_type, struct_or_union_type, fn_type, ptr_type, arr_or_ptr_type, leaf_kind, kind_ptr,
  kind_struct_or_union, kind_integral, kind_real, kind_enum,
}
use nnc.Casts.{
  can_imp_cast_arith, can_imp_cast_ptrs, can_assign_other, can_imp_cast_assign, can_imp_cast_params,
  paramc, assign_fn, pointee, kind_void,
}
use nnc.Types.Classes.{unalias_idem}
use nnc.Casts.Order.{can_imp_cast_arith_refl}

-- Of the target only what stands behind its aliases counts.
pub can_imp_cast_assign_to :
    (from to to' : Ty)
    → unalias to ≡ unalias to'
    → can_imp_cast_assign from to ≡ can_imp_cast_assign from to'
unfolding can_imp_cast_assign
can_imp_cast_assign_to (alias_ty a b) to to' e = can_imp_cast_assign_to b to to' e
can_imp_cast_assign_to (leaf a k) to to' e = ap (can_assign_other (leaf a k)) e
can_imp_cast_assign_to (arr_ty a t) to to' e = ap (can_assign_other (arr_ty a t)) e
can_imp_cast_assign_to (ptr_ty a t) to to' e = ap (can_assign_other (ptr_ty a t)) e
can_imp_cast_assign_to (fn_ty a ps r) to to' e =
    ap (assign_fn (fn_ty a ps r) ps (can_imp_cast_params ps) (can_imp_cast_assign r)) e

-- The types whose values can be assigned to a place of the same type: numbers, structs and unions,
-- pointers down to one of these or to void, and functions of such parameters and such a result.
unfoldable mutual
  pub takes_itself : Ty → Bool
  takes_itself (leaf a k) = numeric_type (leaf a k) || struct_or_union_type (leaf a k)
  takes_itself (arr_ty a t) = false
  takes_itself (ptr_ty a t) =
      kind_void (kind (pointee t)) || (numeric_type (pointee t) || struct_or_union_type (pointee t))
  takes_itself (alias_ty a t) = takes_itself t
  takes_itself (fn_ty a ps r) = all_take ps && takes_itself r

  pub all_take : Params → Bool
  all_take no_params = true
  all_take (param t ps) = takes_itself t && all_take ps

-- An array, pointer or function is not cast arithmetically, and a leaf is no pointer.
not_arith :
    (t : Ty)
    → (kind_integral (kind (unalias t))
        || kind_real (kind (unalias t))
        || kind_enum (kind (unalias t)))
      ≡ false
    → kind_struct_or_union (kind (unalias t)) ≡ false
    → can_imp_cast_arith t t ≡ false
unfolding numeric_type struct_or_union_type
not_arith t n s = can_imp_cast_arith_refl t ∙ rw (unalias_idem t, n, s)

leaf_not_ptr : (k : LeafKind) → kind_ptr (leaf_kind k) ≡ false
leaf_not_ptr k = ground arith

leaf_other :
    (a : ℕ) (k : LeafKind)
    → can_assign_other (leaf a k) (leaf a k)
      ≡ (numeric_type (leaf a k) || struct_or_union_type (leaf a k))
unfolding can_assign_other fn_type ptr_type unalias
leaf_other a k = ground (arith, leaf_not_ptr k, can_imp_cast_arith_refl (leaf a k))

ptr_other :
    (a : ℕ) (t : Ty) → can_assign_other (ptr_ty a t) (ptr_ty a t) ≡ takes_itself (ptr_ty a t)
unfolding can_assign_other takes_itself can_imp_cast_ptrs fn_type ptr_type arr_or_ptr_type unalias
ptr_other a t =
    ground (arith, not_arith (ptr_ty a t) refl refl, can_imp_cast_arith_refl (pointee t))

arr_other : (a : ℕ) (t : Ty) → can_assign_other (arr_ty a t) (arr_ty a t) ≡ false
unfolding can_assign_other fn_type ptr_type unalias
arr_other a t = rw (not_arith (arr_ty a t) refl refl)

paramc_self : (ps : Params) → (paramc ps == paramc ps) ≡ true
paramc_self ps = ground arith

fns_self :
    (a : ℕ) (ps : Params) (r : Ty) (each : Params → Bool) (ret : Ty → Bool)
    → assign_fn (fn_ty a ps r) ps each ret (fn_ty a ps r) ≡ (each ps && ret r)
unfolding assign_fn unalias
fns_self a ps r each ret = rw (not_arith (fn_ty a ps r) refl refl, paramc_self ps)

mutual
  unfolding takes_itself can_imp_cast_assign unalias

  assign_self : (t : Ty) → can_imp_cast_assign t t ≡ takes_itself t
  assign_self (leaf a k) = leaf_other a k
  assign_self (arr_ty a t) = arr_other a t
  assign_self (ptr_ty a t) = ptr_other a t
  assign_self (alias_ty a t) = can_imp_cast_assign_to t (alias_ty a t) t refl ∙ assign_self t
  assign_self (fn_ty a ps r) =
      fns_self a ps r (can_imp_cast_params ps) (can_imp_cast_assign r)
      ∙ rw (params_self ps, assign_self r)

  params_self : (ps : Params) → can_imp_cast_params ps ps ≡ all_take ps
  params_self no_params = refl
  params_self (param t ps) = rw (assign_self t, params_self ps)

-- A value can be assigned to a place of its own type exactly if that type takes itself.
pub can_imp_cast_assign_self : (t : Ty) → can_imp_cast_assign t t ≡ takes_itself t
can_imp_cast_assign_self t = assign_self t
