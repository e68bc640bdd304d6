-- ===== src/Literal/Ints.antt =====
-- Integral literals of src/nnc_literal.c. `strtoll` and `strtoull` are arguments; their answer is the
-- value and `errno`.
pub mod Suffix
pub mod Value
pub mod Range
use nnc.Common.{
  ℕ, zero, suc, ◌+◌, ◌-◌, ◌*◌, ◌^◌, Bool, true, false, not, ◌||◌, ◌&&◌, if◌then◌else◌, ◌==◌, ltb,
  leb, List, [], ◌∷◌, ◌++◌, Option, none, some, length, get_or,
}
use nnc.Literal.{Read, ok, aborted, overflow, fault, ◌>>=◌}

-- `nnc_int_suffix` with SUFFIX_NONE.
pub data IntSuffix : Type 0 where
  suffix_u8 suffix_u16 suffix_u32 suffix_u64 : IntSuffix
  suffix_i8 suffix_i16 suffix_i32 suffix_i64 : IntSuffix
  suffix_none : IntSuffix

abbrev pub is_u : ℕ → Bool
is_u c = c == 117 || c == 85

-- i, I, u and U
abbrev pub is_mark : ℕ → Bool
is_mark c = c == 105 || c == 73 || is_u c

unfoldable pub rev_onto : List ℕ → List ℕ → List ℕ
rev_onto [] ys = ys
rev_onto (x ∷ xs) ys = rev_onto xs (x ∷ ys)

-- The loop of `nnc_get_int_suffix` over the reversed lexeme, `n` characters at most: what is read up
-- to the mark, which is `suffix` without its leading zeros, or none if no mark is met.
unfoldable pub find_suffix : ℕ → List ℕ → List ℕ → Option (List ℕ)
find_suffix zero cs read = none
find_suffix (suc n) [] read = none
find_suffix (suc n) (c ∷ cs) read =
    let rest = find_suffix n cs (c ∷ read) in if is_mark c then some (c ∷ read) else rest

-- `suffix_ptr`: the buffer of three characters, without its first one if that is zero.
abbrev pub suffix_ptr : List ℕ → List ℕ
suffix_ptr (c ∷ []) = 0 ∷ c ∷ []
suffix_ptr cs = cs

-- The test of `suffix_ptr[2]`.
abbrev pub third : List ℕ → ℕ → IntSuffix → Read IntSuffix
third [] c s = fault
third (d ∷ ds) c s = if d == c then ok s else aborted

abbrev pub exact_suffix : List ℕ → Read IntSuffix
exact_suffix [] = fault
exact_suffix (m ∷ []) = fault
exact_suffix (m ∷ a ∷ ds) =
    if a == 56
    then ok (if is_u m then suffix_u8 else suffix_i8)
    else (if a == 49
        then third ds 54 (if is_u m then suffix_u16 else suffix_i16)
        else (if a == 51
            then third ds 50 (if is_u m then suffix_u32 else suffix_i32)
            else (if a == 54
                then third ds 52 (if is_u m then suffix_u64 else suffix_i64)
                else aborted)))

unfoldable pub get_int_suffix : List ℕ → Read IntSuffix
unfolding find_suffix rev_onto
get_int_suffix repr = elim (find_suffix 3 (rev_onto repr []) []) [
  | none ↦ ok suffix_none
  | some cs ↦ exact_suffix (suffix_ptr cs)
]

pub data ℤ : Type 0 where
  pos negsuc : ℕ → ℤ

-- `a < b`
abbrev pub ltℤ : ℤ → ℤ → Bool
ltℤ (pos a) (pos b) = ltb a b
ltℤ (pos a) (negsuc b) = false
ltℤ (negsuc a) (pos b) = true
ltℤ (negsuc a) (negsuc b) = ltb b a

-- The member of the union that `is_signed` selects.
pub data Exact : Type 0 where
  signed : ℤ → Exact
  unsigned : ℕ → Exact

pub record IntLiteral : Type 0 where
  pub base : ℕ
  pub suffix : IntSuffix
  pub exact : Exact

abbrev pub is_signed : IntSuffix → Bool
is_signed suffix_i8 = true
is_signed suffix_i16 = true
is_signed suffix_i32 = true
is_signed suffix_i64 = true
is_signed _ = false

-- The table `bounds` without its sign: the largest value, which for a signed suffix is also one less
-- than the absolute value of the least one. There is no entry for SUFFIX_NONE.
unfoldable pub bound : IntSuffix → ℕ
bound suffix_i8 = 127
bound suffix_i16 = 32767
bound suffix_i32 = 2147483647
bound suffix_i64 = 9223372036854775807
bound suffix_u8 = 255
bound suffix_u16 = 65535
bound suffix_u32 = 4294967295
bound suffix_u64 = 18446744073709551615
bound suffix_none = 0

unfoldable pub int_check_overflow : IntLiteral → Read IntLiteral
unfolding bound
int_check_overflow l = elim l.exact [
  | signed d ↦
      if ltℤ d (negsuc (bound l.suffix)) || ltℤ (pos (bound l.suffix)) d then overflow else ok l
  | unsigned u ↦ if ltb u 0 || ltb (bound l.suffix) u then overflow else ok l
]

pub data Errno : Type 0 where
  no_error erange other_error : Errno

abbrev pub int_base : List ℕ → ℕ
int_base [] = 10
int_base (c ∷ cs) = if c == 120 then 16 else (if c == 111 then 8 else (if c == 98 then 2 else 10))

abbrev pub skip_base : List ℕ → List ℕ
skip_base [] = []
skip_base (c ∷ cs) = if int_base (c ∷ cs) == 10 then c ∷ cs else cs

abbrev pub suffix_size : IntSuffix → ℕ
suffix_size suffix_i8 = 2
suffix_size suffix_u8 = 2
suffix_size suffix_none = 0
suffix_size _ = 3

unfoldable pub take : ℕ → List ℕ → List ℕ
take zero cs = []
take (suc n) [] = []
take (suc n) (c ∷ cs) = c ∷ take n cs

abbrev pub or_default : IntSuffix → IntSuffix
or_default suffix_none = suffix_i32
or_default s = s

abbrev pub errno_checked : {A : Type 0} → Errno → Read A → Read A
errno_checked no_error r = r
errno_checked erange r = overflow
errno_checked other_error r = aborted

module _ (strtoll : List ℕ → ℕ → ℤ × Errno) (strtoull : List ℕ → ℕ → ℕ × Errno) where
  -- The conversion of the digits by the suffix.
  unfoldable pub convert : List ℕ → ℕ → IntSuffix → Read IntLiteral
  unfolding int_check_overflow
  convert digits base s =
      if is_signed s
      then errno_checked (strtoll digits base).1 (
          int_check_overflow
            (record { base = base; suffix = s; exact = signed (strtoll digits base).0 }))
      else errno_checked (strtoull digits base).1 (
          int_check_overflow
            (record { base = base; suffix = s; exact = unsigned (strtoull digits base).0 }))

  -- The buffer `repr_buf` has 512 characters, the last of which must stay zero.
  unfoldable pub int_new : List ℕ → Read IntLiteral
  unfolding get_int_suffix take convert
  int_new repr = get_int_suffix repr >>= λ s.
      let cs = skip_base repr in
      let digits = take (length cs - suffix_size s) cs in
      if ltb (length digits) 512 then convert digits (int_base repr) (or_default s) else fault
