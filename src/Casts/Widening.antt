-- ===== src/Casts/Widening.antt =====
-- What the arithmetic cast of src/nnc_typecheck.c allows, by the widths and signs of the numbers.
use nnc.Common.{
  ℕ, ◌+◌, ◌*◌, ◌≤◌, ◌≡◌, ◌∙◌, refl, Bool, true, false, Option, none, some, ◌||◌, ◌&&◌, not,
  Bool-cases, inl, inr, arith, leb, ltb, ◌==◌, if◌then◌else◌,
}
use nnc.Types.{
  Ty, Kind, kind, kind_enum, kind_integral, kind_real, unalias, numeric_type, struct_or_union_type,
  same_types, integral_type, real_type,
}
use nnc.Types.Classes.{unalias_idem}
use nnc.Casts.{hierarchy, can_imp_cast_arith}
use nnc.Casts.Order.{level, can_imp_cast_arith_lem}

-- A number of 8 * 2 ^ width bits.
pub record Number : Type 0 where
  pub real : Bool
  pub width : ℕ
  pub signed : Bool

abbrev integer : ℕ → Bool → Option Number
integer width signed = some (record { real = false; width = width; signed = signed })

abbrev floating : ℕ → Option Number
floating width = some (record { real = true; width = width; signed = true })

-- An enumeration is a signed number of 64 bits.
abbrev pub number : Kind → Option Number
number Kind.primitive_i8 = integer 0 true
number Kind.primitive_u8 = integer 0 false
number Kind.primitive_i16 = integer 1 true
number Kind.primitive_u16 = integer 1 false
number Kind.primitive_i32 = integer 2 true
number Kind.primitive_u32 = integer 2 false
number Kind.primitive_i64 = integer 3 true
number Kind.primitive_u64 = integer 3 false
number Kind.primitive_f32 = floating 2
number Kind.primitive_f64 = floating 3
number Kind.enumeration = integer 3 true
number _ = none

-- Integers widen to reals and to integers of more bits, also to those of another sign; with the same
-- bits a signed integer widens to an unsigned one, and each number to itself.
abbrev pub widens : Number → Number → Bool
widens a b =
    if a.real
    then b.real && leb a.width b.width
    else b.real || ltb a.width b.width || (a.width == b.width && (a.signed || not b.signed))

abbrev pub number_casts : Option Number → Option Number → Bool → Bool
number_casts (some a) (some b) same = widens a b
number_casts (some a) none same = same
number_casts none b same = same

abbrev place : Number → ℕ
place a = if a.real then 6 + a.width else (if a.signed then 2 * a.width else 2 * a.width + 1)

abbrev AtPlace : ℕ → Option Number → Type 0
AtPlace h none = Unit {0}
AtPlace h (some a) = (h ≡ place a) × (a.width ≤ 3) × ((a.real ≡ true) → 2 ≤ a.width)

hierarchy-AtPlace : (k : Kind) → AtPlace (hierarchy k) (number k)
unfolding hierarchy
hierarchy-AtPlace Kind.array = tt
hierarchy-AtPlace Kind.pointer = tt
hierarchy-AtPlace Kind.primitive_i8 = (refl, omega arith, λ r. cc)
hierarchy-AtPlace Kind.primitive_u8 = (refl, omega arith, λ r. cc)
hierarchy-AtPlace Kind.primitive_i16 = (refl, omega arith, λ r. cc)
hierarchy-AtPlace Kind.primitive_u16 = (refl, omega arith, λ r. cc)
hierarchy-AtPlace Kind.primitive_i32 = (refl, omega arith, λ r. cc)
hierarchy-AtPlace Kind.primitive_u32 = (refl, omega arith, λ r. cc)
hierarchy-AtPlace Kind.primitive_i64 = (refl, omega arith, λ r. cc)
hierarchy-AtPlace Kind.primitive_u64 = (refl, omega arith, λ r. cc)
hierarchy-AtPlace Kind.primitive_f32 = (refl, omega arith, λ r. omega arith)
hierarchy-AtPlace Kind.primitive_f64 = (refl, omega arith, λ r. omega arith)
hierarchy-AtPlace Kind.enumeration = (refl, omega arith, λ r. cc)
hierarchy-AtPlace Kind.union = tt
hierarchy-AtPlace Kind.struct = tt
hierarchy-AtPlace Kind.function = tt
hierarchy-AtPlace Kind.namespace = tt
hierarchy-AtPlace Kind.alias = tt
hierarchy-AtPlace Kind.incomplete = tt
hierarchy-AtPlace Kind.void = tt
hierarchy-AtPlace Kind.unknown = tt

abbrev is_number : Option Number → Bool
is_number none = false
is_number (some a) = true

kind-is_number : (k : Kind) → (kind_integral k || kind_real k || kind_enum k) ≡ is_number (number k)
kind-is_number Kind.array = refl
kind-is_number Kind.pointer = refl
kind-is_number Kind.primitive_i8 = refl
kind-is_number Kind.primitive_u8 = refl
kind-is_number Kind.primitive_i16 = refl
kind-is_number Kind.primitive_u16 = refl
kind-is_number Kind.primitive_i32 = refl
kind-is_number Kind.primitive_u32 = refl
kind-is_number Kind.primitive_i64 = refl
kind-is_number Kind.primitive_u64 = refl
kind-is_number Kind.primitive_f32 = refl
kind-is_number Kind.primitive_f64 = refl
kind-is_number Kind.enumeration = refl
kind-is_number Kind.union = refl
kind-is_number Kind.struct = refl
kind-is_number Kind.function = refl
kind-is_number Kind.namespace = refl
kind-is_number Kind.alias = refl
kind-is_number Kind.incomplete = refl
kind-is_number Kind.void = refl
kind-is_number Kind.unknown = refl

numeric-is_number : (t : Ty) → numeric_type t ≡ is_number (number (kind (unalias t)))
unfolding numeric_type integral_type real_type
numeric-is_number t = rw (unalias_idem t) (kind-is_number (kind (unalias t)))

leb-widens :
    (a b : Number) (h k : ℕ) → AtPlace h (some a) → AtPlace k (some b) → leb h k ≡ widens a b
leb-widens a b h k p q = elim (Bool-cases a.real) [
  | inl ar ↦ elim (Bool-cases b.real) [
    | inl br ↦ rw (p.0, q.0, ar, br) (ground arith)
    | inr br ↦ rw (p.0, q.0, ar, br) (ground (arith, p.2 ar))
  ]
  | inr ar ↦ elim (Bool-cases b.real) [
    | inl br ↦ rw (p.0, q.0, ar, br) (ground (arith, q.2 br))
    | inr br ↦ rw (p.0, q.0, ar, br) (ground arith)
  ]
]

levels-casts :
    (h k : ℕ) (a b : Option Number) (same : Bool)
    → AtPlace h a
    → AtPlace k b
    → (if is_number a && is_number b then leb h k else same) ≡ number_casts a b same
levels-casts h k (some a) (some b) same p q = leb-widens a b h k p q
levels-casts h k (some a) none same p q = refl
levels-casts h k none b same p q = refl

-- Of two numbers the first casts to the second exactly if it widens to it: integers to reals, to wider
-- integers and, at the same width, signed to unsigned or to the same sign; f32 to f64; the enumeration
-- as i64. Two structs or unions cast if they are the same object behind their aliases, and nothing else
-- casts.
pub can_imp_cast_arith-widens :
    (from to : Ty)
    → can_imp_cast_arith from to
      ≡ number_casts
          (number (kind (unalias from)))
          (number (kind (unalias to)))
          (struct_or_union_type from && struct_or_union_type to && same_types to from)
unfolding level
can_imp_cast_arith-widens from to =
    can_imp_cast_arith_lem from to
    ∙ rw (numeric-is_number from, numeric-is_number to)
        (levels-casts (hierarchy (kind (unalias from))) (hierarchy (kind (unalias to)))
          (number (kind (unalias from))) (number (kind (unalias to)))
          (struct_or_union_type from && struct_or_union_type to && same_types to from)
          (hierarchy-AtPlace (kind (unalias from))) (hierarchy-AtPlace (kind (unalias to))))
