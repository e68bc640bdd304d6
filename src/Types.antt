-- ===== src/Types.antt =====
-- The types of src/nnc_type.h and their classification in src/nnc_typecheck.c. A type is a tree along
-- `base`, parameters and result; each node has its address, by which the code compares structs and
-- unions. What the checker never looks into (members, enumerators, dimensions, names) is left out.
-- The base of an alias is taken to be set.
pub mod Classes
pub mod Rank
use nnc.Common.{ℕ, suc, ◌+◌, Bool, true, false, ◌||◌, if◌then◌else◌, ◌==◌}

-- `nnc_type_kind`
pub data Kind : Type 0 where
  array pointer : Kind
  primitive_i8 primitive_u8 primitive_i16 primitive_u16 : Kind
  primitive_i32 primitive_u32 primitive_i64 primitive_u64 : Kind
  primitive_f32 primitive_f64 : Kind
  enumeration union struct function namespace alias incomplete void unknown : Kind

-- The kinds of a type without a base.
pub data LeafKind : Type 0 where
  leaf_i8 leaf_u8 leaf_i16 leaf_u16 leaf_i32 leaf_u32 leaf_i64 leaf_u64 leaf_f32 leaf_f64 : LeafKind
  leaf_enum leaf_union leaf_struct leaf_namespace leaf_incomplete leaf_void leaf_unknown : LeafKind

-- The first number of each node is its address.
mutual
  pub data Ty : Type 0 where
    leaf : ℕ → LeafKind → Ty
    arr_ty : ℕ → Ty → Ty
    ptr_ty : ℕ → Ty → Ty
    alias_ty : ℕ → Ty → Ty
    fn_ty : ℕ → Params → Ty → Ty

  pub data Params : Type 0 where
    no_params : Params
    param : Ty → Params → Params

abbrev pub leaf_kind : LeafKind → Kind
leaf_kind leaf_i8 = primitive_i8
leaf_kind leaf_u8 = primitive_u8
leaf_kind leaf_i16 = primitive_i16
leaf_kind leaf_u16 = primitive_u16
leaf_kind leaf_i32 = primitive_i32
leaf_kind leaf_u32 = primitive_u32
leaf_kind leaf_i64 = primitive_i64
leaf_kind leaf_u64 = primitive_u64
leaf_kind leaf_f32 = primitive_f32
leaf_kind leaf_f64 = primitive_f64
leaf_kind leaf_enum = enumeration
leaf_kind leaf_union = union
leaf_kind leaf_struct = struct
leaf_kind leaf_namespace = namespace
leaf_kind leaf_incomplete = incomplete
leaf_kind leaf_void = void
leaf_kind leaf_unknown = unknown

abbrev pub kind : Ty → Kind
kind (leaf a k) = leaf_kind k
kind (arr_ty a b) = array
kind (ptr_ty a b) = pointer
kind (alias_ty a b) = alias
kind (fn_ty a ps r) = function

abbrev pub address : Ty → ℕ
address (leaf a k) = a
address (arr_ty a b) = a
address (ptr_ty a b) = a
address (alias_ty a b) = a
address (fn_ty a ps r) = a

unfoldable pub unalias : Ty → Ty
unalias (alias_ty a b) = unalias b
unalias (leaf a k) = leaf a k
unalias (arr_ty a b) = arr_ty a b
unalias (ptr_ty a b) = ptr_ty a b
unalias (fn_ty a ps r) = fn_ty a ps r

abbrev pub kind_incomplete : Kind → Bool
kind_incomplete void = true
kind_incomplete unknown = true
kind_incomplete incomplete = true
kind_incomplete _ = false

abbrev pub kind_fn : Kind → Bool
kind_fn function = true
kind_fn _ = false

abbrev pub kind_ptr : Kind → Bool
kind_ptr pointer = true
kind_ptr _ = false

abbrev pub kind_arr : Kind → Bool
kind_arr array = true
kind_arr _ = false

abbrev pub kind_namespace : Kind → Bool
kind_namespace namespace = true
kind_namespace _ = false

abbrev pub kind_struct_or_union : Kind → Bool
kind_struct_or_union struct = true
kind_struct_or_union union = true
kind_struct_or_union _ = false

abbrev pub kind_primitive : Kind → Bool
kind_primitive primitive_i8 = true
kind_primitive primitive_u8 = true
kind_primitive primitive_i16 = true
kind_primitive primitive_u16 = true
kind_primitive primitive_i32 = true
kind_primitive primitive_u32 = true
kind_primitive primitive_i64 = true
kind_primitive primitive_u64 = true
kind_primitive primitive_f32 = true
kind_primitive primitive_f64 = true
kind_primitive _ = false

abbrev pub kind_integral : Kind → Bool
kind_integral enumeration = true
kind_integral primitive_i8 = true
kind_integral primitive_u8 = true
kind_integral primitive_i16 = true
kind_integral primitive_u16 = true
kind_integral primitive_i32 = true
kind_integral primitive_u32 = true
kind_integral primitive_i64 = true
kind_integral primitive_u64 = true
kind_integral _ = false

abbrev pub kind_real : Kind → Bool
kind_real primitive_f32 = true
kind_real primitive_f64 = true
kind_real _ = false

abbrev pub kind_signed : Kind → Bool
kind_signed enumeration = true
kind_signed primitive_i8 = true
kind_signed primitive_i16 = true
kind_signed primitive_i32 = true
kind_signed primitive_i64 = true
kind_signed _ = false

abbrev pub kind_enum : Kind → Bool
kind_enum enumeration = true
kind_enum _ = false

unfoldable pub incomplete_type : Ty → Bool
incomplete_type t = kind_incomplete (kind (unalias t))

unfoldable pub fn_type : Ty → Bool
fn_type t = kind_fn (kind (unalias t))

unfoldable pub ptr_type : Ty → Bool
ptr_type t = kind_ptr (kind (unalias t))

unfoldable pub arr_type : Ty → Bool
arr_type t = kind_arr (kind (unalias t))

unfoldable pub namespace_type : Ty → Bool
namespace_type t = kind_namespace (kind (unalias t))

unfoldable pub arr_or_ptr_type : Ty → Bool
arr_or_ptr_type t = kind_ptr (kind (unalias t)) || kind_arr (kind (unalias t))

unfoldable pub struct_or_union_type : Ty → Bool
struct_or_union_type t = kind_struct_or_union (kind (unalias t))

unfoldable pub primitive_type : Ty → Bool
primitive_type t = kind_primitive (kind (unalias t))

unfoldable pub integral_type : Ty → Bool
integral_type t = kind_integral (kind (unalias t))

unfoldable pub real_type : Ty → Bool
real_type t = kind_real (kind (unalias t))

unfoldable pub signed_type : Ty → Bool
signed_type t = kind_signed (kind (unalias t))

unfoldable pub numeric_type : Ty → Bool
unfolding integral_type real_type
numeric_type t = let ref = unalias t in integral_type ref || real_type ref || kind_enum (kind ref)

-- The same object behind both aliases.
unfoldable pub same_types : Ty → Ty → Bool
same_types t1 t2 = address (unalias t1) == address (unalias t2)

-- The loop of `nnc_rank`: the test looks through aliases, the step takes `base` of the node itself.
unfoldable pub rank_loop : Ty → ℕ
unfolding arr_or_ptr_type
rank_loop (leaf a k) = 0
rank_loop (fn_ty a ps r) = 0
rank_loop (arr_ty a b) = suc (rank_loop b)
rank_loop (ptr_ty a b) = suc (rank_loop b)
rank_loop (alias_ty a b) = if arr_or_ptr_type (alias_ty a b) then suc (rank_loop b) else 0

unfoldable pub rank : Ty → ℕ
rank t = rank_loop (unalias t)
