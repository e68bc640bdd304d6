-- ===== src/Infer/Tests.antt =====
-- The theorems on types, casts and inference at concrete types.
use nnc.Common.{◌+◌, ◌&&◌, ◌⊎◌, if◌then◌else◌, true, false, ◌≡◌, refl}
use nnc.Types.{
  kind, arr_or_ptr_type, ptr_type, fn_type, rank_loop, Ty, leaf, arr_ty, ptr_ty, alias_ty, fn_ty,
  no_params, param, leaf_u8, leaf_i32, leaf_i64, leaf_enum, leaf_void, rank, unalias, signed_type,
  leaf_i8, numeric_type, struct_or_union_type, same_types,
}
use nnc.Types.Classes.{classes_of, classes_of_one}
use nnc.Types.Rank.{depth, aliases, rank-depth}
use nnc.Casts.{
  hierarchy, hierarchy, can_imp_cast_ptrs, can_imp_cast_arith, can_imp_cast_assign, can_exp_cast,
  type_ok, semantic,
}
use nnc.Casts.Order.{level, can_imp_cast_arith_trans}
use nnc.Casts.Widening.{number, number_casts, can_imp_cast_arith-widens}
use nnc.Casts.Assign.{takes_itself, can_imp_cast_assign_self}
use nnc.Casts.Explicit.{can_imp_cast_assign-exp}
use nnc.Infer.{Statics, binary_lt, infer_imp, infer_binary, static_type}
use nnc.Infer.Join.{IsJoin, infer_imp-IsJoin, infer_imp-order, infer_binary-compares}

abbrev byte_type : Ty
byte_type = leaf 1 leaf_u8

abbrev int_type : Ty
int_type = leaf 2 leaf_i32

abbrev long_type : Ty
long_type = leaf 3 leaf_i64

abbrev colour : Ty
colour = alias_ty 10 (leaf 11 leaf_enum)

-- An array of a name for a pointer.
abbrev table : Ty
table = arr_ty 20 (alias_ty 21 (ptr_ty 22 byte_type))

abbrev callback : Ty
callback = fn_ty 30 (param int_type (param colour no_params)) (ptr_ty 31 byte_type)

abbrev procedure : Ty
procedure = fn_ty 40 (param int_type no_params) (leaf 41 leaf_void)

abbrev statics : Statics
statics = record { addr = λ k. 100 }

classes_of_one_example : classes_of table ≡ 1
classes_of_one_example = classes_of_one table

rank-depth_example : rank table ≡ depth (unalias table) + aliases (unalias table)
rank-depth_example = rank-depth table

-- The table's rank is 3, its depth 2.
rank_of_table : (rank table ≡ 3) × (depth table ≡ 2)
unfolding rank depth rank_loop unalias
rank_of_table = (refl, refl)

can_imp_cast_arith-widens_example :
    can_imp_cast_arith byte_type colour
    ≡ number_casts (number (kind (unalias byte_type))) (number (kind (unalias colour))) (
        struct_or_union_type byte_type
        && struct_or_union_type colour
        && same_types colour byte_type)
can_imp_cast_arith-widens_example = can_imp_cast_arith-widens byte_type colour

byte_to_int : can_imp_cast_arith byte_type int_type ≡ true
unfolding can_imp_cast_arith numeric_type unalias
byte_to_int = refl

int_to_colour : can_imp_cast_arith int_type colour ≡ true
unfolding can_imp_cast_arith numeric_type unalias
int_to_colour = refl

can_imp_cast_arith_trans_example : can_imp_cast_arith byte_type colour ≡ true
can_imp_cast_arith_trans_example =
    can_imp_cast_arith_trans byte_type int_type colour byte_to_int int_to_colour

long_numeric : numeric_type long_type ≡ true
unfolding numeric_type unalias
long_numeric = refl

colour_numeric : numeric_type colour ≡ true
unfolding numeric_type unalias
colour_numeric = refl

can_imp_cast_assign_self_example : can_imp_cast_assign callback callback ≡ takes_itself callback
can_imp_cast_assign_self_example = can_imp_cast_assign_self callback

-- The callback can be assigned to itself, the procedure, whose result is void, cannot.
callback_assigned : can_imp_cast_assign callback callback ≡ true
unfolding can_imp_cast_assign unalias can_imp_cast_arith numeric_type struct_or_union_type fn_type
    ptr_type arr_or_ptr_type can_imp_cast_ptrs rank rank_loop
callback_assigned = refl

procedure_refused : can_imp_cast_assign procedure procedure ≡ false
unfolding can_imp_cast_assign unalias can_imp_cast_arith numeric_type struct_or_union_type fn_type
    ptr_type
procedure_refused = refl

can_imp_cast_assign-exp_example : can_exp_cast callback callback ≡ true
can_imp_cast_assign-exp_example = can_imp_cast_assign-exp callback callback callback_assigned

infer_imp-IsJoin_example :
    ((r : Ty) × (infer_imp byte_type colour ≡ type_ok r) × IsJoin byte_type colour r)
    ⊎ ((infer_imp byte_type colour ≡ semantic)
        × (can_imp_cast_arith byte_type colour ≡ false)
        × (can_imp_cast_arith colour byte_type ≡ false))
infer_imp-IsJoin_example = infer_imp-IsJoin byte_type colour

levels_equal : level long_type ≡ level colour
unfolding level unalias hierarchy
levels_equal = refl

infer_imp-order_example :
    (infer_imp long_type colour ≡ type_ok colour) × (infer_imp colour long_type ≡ type_ok long_type)
infer_imp-order_example = infer_imp-order long_type colour long_numeric colour_numeric levels_equal

infer_binary-compares_example :
    ((t : Ty) × IsJoin byte_type int_type t
      × (infer_binary statics binary_lt byte_type int_type
          ≡ type_ok
              (if signed_type t then static_type statics leaf_i8 else static_type statics leaf_u8)))
    ⊎ ((infer_binary statics binary_lt byte_type int_type ≡ semantic)
        × (can_imp_cast_arith byte_type int_type ≡ false)
        × (can_imp_cast_arith int_type byte_type ≡ false))
infer_binary-compares_example = infer_binary-compares statics binary_lt byte_type int_type refl
