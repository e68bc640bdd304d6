-- ===== src/Types/Classes.antt =====
-- How the classes of types of src/nnc_typecheck.c lie to one another.
use nnc.Common.{ℕ, ◌+◌, Bool, true, false, not, ◌≡◌, ◌||◌, ◌&&◌, refl, arith}
use nnc.Types.{
  Ty, Kind, leaf, arr_ty, ptr_ty, alias_ty, fn_ty, kind, unalias, numeric_type, integral_type,
  real_type, signed_type, primitive_type, struct_or_union_type, arr_or_ptr_type, fn_type,
  incomplete_type, namespace_type, kind_real, kind_integral, kind_enum, kind_struct_or_union,
  kind_ptr, kind_arr, kind_fn, kind_namespace, kind_incomplete, kind_signed, kind_primitive,
}

pub unalias_idem : (t : Ty) → unalias (unalias t) ≡ unalias t
unfolding unalias
unalias_idem (alias_ty a b) = unalias_idem b
unalias_idem (leaf a k) = refl
unalias_idem (arr_ty a b) = refl
unalias_idem (ptr_ty a b) = refl
unalias_idem (fn_ty a ps r) = refl

-- Unaliasing stops at a type that is no alias.
pub unalias-ne-alias : (t : Ty) → kind (unalias t) ≡ Kind.alias → ⊥
unfolding unalias
unalias-ne-alias (alias_ty a b) h = unalias-ne-alias b h
unalias-ne-alias (leaf a k) h = ground arith
unalias-ne-alias (arr_ty a b) h = cc
unalias-ne-alias (ptr_ty a b) h = cc
unalias-ne-alias (fn_ty a ps r) h = cc

abbrev pub to_nat : Bool → ℕ
to_nat true = 1
to_nat false = 0

-- The six classes by which the checker decides.
pub classes_of : Ty → ℕ
unfolding numeric_type struct_or_union_type arr_or_ptr_type fn_type namespace_type incomplete_type
classes_of t =
    to_nat (numeric_type t)
    + to_nat (struct_or_union_type t)
    + to_nat (arr_or_ptr_type t)
    + to_nat (fn_type t)
    + to_nat (namespace_type t)
    + to_nat (incomplete_type t)

-- Of any kind but an alias, exactly one class.
kind_classes : Kind → ℕ
kind_classes k =
    to_nat (kind_integral k || kind_real k || kind_enum k)
    + to_nat (kind_struct_or_union k)
    + to_nat (kind_ptr k || kind_arr k)
    + to_nat (kind_fn k)
    + to_nat (kind_namespace k)
    + to_nat (kind_incomplete k)

kind_classes_one : (k : Kind) → (k ≡ Kind.alias → ⊥) → kind_classes k ≡ 1
unfolding kind_classes
kind_classes_one Kind.alias h = absurd (h refl)
kind_classes_one _ h = refl

-- Every type, whatever its aliases, is of exactly one of the six classes numeric, struct or union,
-- array or pointer, function, namespace and incomplete.
pub classes_of_one : (t : Ty) → classes_of t ≡ 1
unfolding classes_of kind_classes
classes_of_one t = rw (unalias_idem t) (kind_classes_one (kind (unalias t)) (unalias-ne-alias t))

kind_numeric :
    (k : Kind)
    → ((kind_integral k && kind_real k) ≡ false)
      × ((kind_signed k && not (kind_integral k)) ≡ false)
      × ((kind_integral k || kind_real k || kind_enum k) ≡ (kind_integral k || kind_real k))
      × ((kind_integral k || kind_real k || kind_enum k) ≡ (kind_primitive k || kind_enum k))
kind_numeric k = ground arith

-- A type is never both integral and real; a signed type is integral; the numeric types are the
-- integral and the real ones, which are the primitive types and the enumerations.
pub numeric_type_split :
    (t : Ty)
    → ((integral_type t && real_type t) ≡ false)
      × ((signed_type t && not (integral_type t)) ≡ false)
      × (numeric_type t ≡ (integral_type t || real_type t))
      × (numeric_type t ≡ (primitive_type t || kind_enum (kind (unalias t))))
unfolding integral_type real_type signed_type numeric_type primitive_type
numeric_type_split t = rw (unalias_idem t) (kind_numeric (kind (unalias t)))

pub numeric_xor_struct : (t : Ty) → (numeric_type t && struct_or_union_type t) ≡ false
unfolding numeric_type struct_or_union_type
numeric_xor_struct t = rw (unalias_idem t) (kind_xor (kind (unalias t)))
  where
    kind_xor :
        (k : Kind)
        → ((kind_integral k || kind_real k || kind_enum k) && kind_struct_or_union k) ≡ false
    kind_xor k = ground arith
