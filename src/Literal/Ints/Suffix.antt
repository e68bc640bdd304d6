-- ===== src/Literal/Ints/Suffix.antt =====
-- How the integral literals of src/nnc_literal.c are taken apart into base, digits and suffix.
use nnc.Common.{
  ℕ, zero, suc, ◌+◌, ◌-◌, ◌*◌, ◌≡◌, ◌∙◌, refl, ap, Bool, true, false, not, ◌&&◌, if◌then◌else◌,
  ◌==◌, ltb, leb, List, [], ◌∷◌, ◌++◌, none, some, length, length-append, arith,
}
use nnc.Literal.{Read, ok}
use nnc.Literal.Ints.{
  IntSuffix, suffix_u8, suffix_u16, suffix_u32, suffix_u64, suffix_i8, suffix_i16, suffix_i32,
  suffix_i64, suffix_none, is_mark, rev_onto, find_suffix, suffix_ptr, exact_suffix, get_int_suffix,
  int_base, skip_base, suffix_size, take,
}

-- The bases of the language, with their prefixes x, o and b.
pub data Base : Type 0 where
  dec hex oct bin : Base

abbrev pub base_of : Base → ℕ
base_of dec = 10
base_of hex = 16
base_of oct = 8
base_of bin = 2

abbrev pub prefix : Base → List ℕ
prefix dec = []
prefix hex = 120 ∷ []
prefix oct = 111 ∷ []
prefix bin = 98 ∷ []

abbrev pub digit_value : ℕ → ℕ
digit_value c =
    if leb 48 c && leb c 57
    then c - 48
    else (if leb 97 c && leb c 102 then c - 87 else (if leb 65 c && leb c 70 then c - 55 else 36))

abbrev pub all_digits : ℕ → List ℕ → Bool
all_digits b [] = true
all_digits b (c ∷ cs) = ltb (digit_value c) b && all_digits b cs

-- The number that the digits write, after the number `n`.
unfoldable pub number : ℕ → List ℕ → ℕ → ℕ
number b [] n = n
number b (c ∷ cs) n = number b cs (n * b + digit_value c)

abbrev pub mark : Bool → Bool → ℕ
mark true true = 85
mark true false = 73
mark false true = 117
mark false false = 105

-- A suffix in small letters or capitals.
abbrev pub spelling : Bool → IntSuffix → List ℕ
spelling up suffix_none = []
spelling up suffix_u8 = mark up true ∷ 56 ∷ []
spelling up suffix_u16 = mark up true ∷ 49 ∷ 54 ∷ []
spelling up suffix_u32 = mark up true ∷ 51 ∷ 50 ∷ []
spelling up suffix_u64 = mark up true ∷ 54 ∷ 52 ∷ []
spelling up suffix_i8 = mark up false ∷ 56 ∷ []
spelling up suffix_i16 = mark up false ∷ 49 ∷ 54 ∷ []
spelling up suffix_i32 = mark up false ∷ 51 ∷ 50 ∷ []
spelling up suffix_i64 = mark up false ∷ 54 ∷ 52 ∷ []

abbrev pub no_marks : List ℕ → Bool
no_marks [] = true
no_marks (c ∷ cs) = not (is_mark c) && no_marks cs

digit-mark : (k : Base) (c : ℕ) → ltb (digit_value c) (base_of k) ≡ true → is_mark c ≡ false
digit-mark dec c h = ground arith
digit-mark hex c h = ground arith
digit-mark oct c h = ground arith
digit-mark bin c h = ground arith

pub digits-no_marks :
    (k : Base) (cs : List ℕ) → all_digits (base_of k) cs ≡ true → no_marks cs ≡ true
digits-no_marks k [] h = refl
digits-no_marks k (c ∷ cs) h = ground (arith, digit-mark k c, digits-no_marks k cs)

rev_onto-append : (xs ys zs : List ℕ) → rev_onto (xs ++ ys) zs ≡ rev_onto ys (rev_onto xs zs)
unfolding rev_onto
rev_onto-append [] ys zs = refl
rev_onto-append (x ∷ xs) ys zs = rev_onto-append xs ys (x ∷ zs)

no_marks-rev_onto :
    (xs ys : List ℕ) → no_marks xs ≡ true → no_marks ys ≡ true → no_marks (rev_onto xs ys) ≡ true
unfolding rev_onto
no_marks-rev_onto [] ys h k = k
no_marks-rev_onto (x ∷ xs) ys h k = no_marks-rev_onto xs (x ∷ ys) (ground arith) (ground arith)

no_marks-head :
    (c : ℕ) (cs : List ℕ) → no_marks (c ∷ cs) ≡ true → (is_mark c ≡ false) × (no_marks cs ≡ true)
no_marks-head c cs h = (ground arith, ground arith)

find_suffix-none : (n : ℕ) (cs read : List ℕ) → no_marks cs ≡ true → find_suffix n cs read ≡ none
unfolding find_suffix
find_suffix-none zero cs read h = refl
find_suffix-none (suc n) [] read h = refl
find_suffix-none (suc n) (c ∷ cs) read h =
    let (here, there) = no_marks-head c cs h in rw here (find_suffix-none n cs (c ∷ read) there)

read_rev : List ℕ → Read IntSuffix
unfolding find_suffix
read_rev r = elim (find_suffix 3 r []) [
  | none ↦ ok suffix_none
  | some cs ↦ exact_suffix (suffix_ptr cs)
]

read_rev-spelling :
    (up : Bool) (s : IntSuffix) (r : List ℕ)
    → no_marks r ≡ true
    → read_rev (rev_onto (spelling up s) r) ≡ ok s
unfolding read_rev rev_onto find_suffix
read_rev-spelling up suffix_none r h = rw (find_suffix-none 3 r [] h)
read_rev-spelling true suffix_u8 r h = refl
read_rev-spelling true suffix_u16 r h = refl
read_rev-spelling true suffix_u32 r h = refl
read_rev-spelling true suffix_u64 r h = refl
read_rev-spelling true suffix_i8 r h = refl
read_rev-spelling true suffix_i16 r h = refl
read_rev-spelling true suffix_i32 r h = refl
read_rev-spelling true suffix_i64 r h = refl
read_rev-spelling false suffix_u8 r h = refl
read_rev-spelling false suffix_u16 r h = refl
read_rev-spelling false suffix_u32 r h = refl
read_rev-spelling false suffix_u64 r h = refl
read_rev-spelling false suffix_i8 r h = refl
read_rev-spelling false suffix_i16 r h = refl
read_rev-spelling false suffix_i32 r h = refl
read_rev-spelling false suffix_i64 r h = refl

-- Behind characters that are no mark every suffix is recognised, and none where there is none.
pub get_int_suffix-spelling :
    (up : Bool) (s : IntSuffix) (cs : List ℕ)
    → no_marks cs ≡ true
    → get_int_suffix (cs ++ spelling up s) ≡ ok s
unfolding get_int_suffix read_rev
get_int_suffix-spelling up s cs h =
    ap read_rev (rev_onto-append cs (spelling up s) [])
    ∙ read_rev-spelling up s (rev_onto cs []) (no_marks-rev_onto cs [] h refl)

take-append : (xs ys : List ℕ) → take (length xs) (xs ++ ys) ≡ xs
unfolding take
take-append [] [] = refl
take-append [] (y ∷ ys) = refl
take-append (x ∷ xs) ys = ap (λ (l : List ℕ). x ∷ l) (take-append xs ys)

pub suffix_size-spelling : (up : Bool) (s : IntSuffix) → suffix_size s ≡ length (spelling up s)
suffix_size-spelling up s = ground arith

pub take_digits :
    (up : Bool) (s : IntSuffix) (cs : List ℕ)
    → take (length (cs ++ spelling up s) - suffix_size s) (cs ++ spelling up s) ≡ cs
take_digits up s cs =
    ap (λ (n : ℕ). take n (cs ++ spelling up s))
      (omega (arith, suffix_size-spelling up s, length-append cs (spelling up s)))
    ∙ take-append cs (spelling up s)

no_prefix :
    (c : ℕ)
    → ltb (digit_value c) 10 ≡ true
    → ((c == 120) ≡ false) × ((c == 111) ≡ false) × ((c == 98) ≡ false)
no_prefix c h = (ground arith, ground arith, ground arith)

pub int_base-prefix :
    (k : Base) (c : ℕ) (cs : List ℕ)
    → ltb (digit_value c) (base_of k) ≡ true
    → (int_base (prefix k ++ c ∷ cs) ≡ base_of k) × (skip_base (prefix k ++ c ∷ cs) ≡ c ∷ cs)
int_base-prefix dec c cs h = let (x, o, b) = no_prefix c h in (rw (x, o, b), rw (x, o, b))
int_base-prefix hex c cs h = (refl, refl)
int_base-prefix oct c cs h = (refl, refl)
int_base-prefix bin c cs h = (refl, refl)
