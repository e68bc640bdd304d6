-- ===== src/Casts/Order.antt =====
-- The arithmetic cast of src/nnc_typecheck.c as an order on types.
use nnc.Common.{ℕ, ◌≡◌, ◌∙◌, ap, true, ◌||◌, ◌&&◌, arith, leb, if◌then◌else◌}
use nnc.Types.{
  Ty, kind, kind_enum, unalias, numeric_type, struct_or_union_type, same_types, integral_type,
  real_type,
}
use nnc.Types.Classes.{unalias_idem, numeric_xor_struct}
use nnc.Casts.{hierarchy, can_imp_cast_arith}

unfoldable pub level : Ty → ℕ
level t = hierarchy (kind (unalias t))

numeric-unalias : (t : Ty) → numeric_type (unalias t) ≡ numeric_type t
unfolding numeric_type
numeric-unalias t =
    ap (λ (r : Ty). integral_type r || real_type r || kind_enum (kind r)) (unalias_idem t)

struct-unalias : (t : Ty) → struct_or_union_type (unalias t) ≡ struct_or_union_type t
unfolding struct_or_union_type
struct-unalias t = rw (unalias_idem t)

same-unalias : (t u : Ty) → same_types (unalias t) (unalias u) ≡ same_types t u
unfolding same_types
same-unalias t u = rw (unalias_idem t, unalias_idem u)

same_refl : (t : Ty) → same_types t t ≡ true
unfolding same_types
same_refl t = ground arith

same_trans : (t u v : Ty) → same_types t u ≡ true → same_types u v ≡ true → same_types t v ≡ true
unfolding same_types
same_trans t u v h k = ground arith

-- Two numeric types cast by their places in the hierarchy, two structs or unions cast if they are
-- the same object behind their aliases, and nothing else casts.
pub can_imp_cast_arith_lem :
    (from to : Ty)
    → can_imp_cast_arith from to ≡ (
        if numeric_type from && numeric_type to
        then leb (level from) (level to)
        else struct_or_union_type from && struct_or_union_type to && same_types to from)
unfolding can_imp_cast_arith level
can_imp_cast_arith_lem from to =
    rw
      (
        numeric-unalias from,
        numeric-unalias to,
        struct-unalias from,
        struct-unalias to,
        same-unalias to from,
      )
      (ground arith)

-- The cast from a type to itself is allowed exactly for numeric types, structs and unions.
pub can_imp_cast_arith_refl :
    (t : Ty) → can_imp_cast_arith t t ≡ (numeric_type t || struct_or_union_type t)
can_imp_cast_arith_refl t = can_imp_cast_arith_lem t t ∙ ground (arith, same_refl t)

-- Casts compose.
pub can_imp_cast_arith_trans :
    (a b c : Ty)
    → can_imp_cast_arith a b ≡ true
    → can_imp_cast_arith b c ≡ true
    → can_imp_cast_arith a c ≡ true
can_imp_cast_arith_trans a b c h k = ground (
  arith,
  can_imp_cast_arith_lem a b,
  can_imp_cast_arith_lem b c,
  can_imp_cast_arith_lem a c,
  numeric_xor_struct a,
  numeric_xor_struct b,
  numeric_xor_struct c,
  same_trans c b a,
)

-- Of two numeric types one casts to the other.
pub can_imp_cast_arith_total :
    (a b : Ty)
    → numeric_type a ≡ true
    → numeric_type b ≡ true
    → (can_imp_cast_arith a b || can_imp_cast_arith b a) ≡ true
can_imp_cast_arith_total a b h k =
    ground (arith, can_imp_cast_arith_lem a b, can_imp_cast_arith_lem b a)
