-- ===== src/Literal/Ints/Range.antt =====
-- The overflow check of src/nnc_literal.c against the ranges of machine integers.
use nnc.Common.{
  ℕ, ◌+◌, ◌-◌, ◌^◌, ◌≡◌, refl, Bool, true, false, ◌||◌, not, if◌then◌else◌, ltb, arith,
}
use nnc.Literal.{ok, overflow}
use nnc.Literal.Ints.{
  IntSuffix, suffix_u8, suffix_u16, suffix_u32, suffix_u64, suffix_i8, suffix_i16, suffix_i32,
  suffix_i64, suffix_none, ℤ, pos, negsuc, Exact, signed, unsigned, is_signed, bound,
  int_check_overflow,
}

abbrev pub width : IntSuffix → ℕ
width suffix_u8 = 8
width suffix_u16 = 16
width suffix_u32 = 32
width suffix_u64 = 64
width suffix_i8 = 8
width suffix_i16 = 16
width suffix_i32 = 32
width suffix_i64 = 64
width suffix_none = 0

-- The value is one of a `w`-bit two's complement number, or of an unsigned one.
abbrev pub in_range : ℕ → Exact → Bool
in_range w (signed (pos n)) = ltb n (2 ^ (w - 1))
in_range w (signed (negsuc n)) = ltb n (2 ^ (w - 1))
in_range w (unsigned n) = ltb n (2 ^ w)

-- The member of the union that the suffix selects.
abbrev pub selects : IntSuffix → Exact → Bool
selects suffix_none e = false
selects s (signed d) = is_signed s
selects s (unsigned u) = not (is_signed s)

bound-signed : (s : IntSuffix) → is_signed s ≡ true → bound s + 1 ≡ 2 ^ (width s - 1)
unfolding bound
bound-signed s h = ground arith

bound-unsigned : (s : IntSuffix) (u : ℕ) → selects s (unsigned u) ≡ true → bound s + 1 ≡ 2 ^ width s
unfolding bound
bound-unsigned s u h = ground arith

selects-is_signed : (s : IntSuffix) (d : ℤ) → selects s (signed d) ≡ true → is_signed s ≡ true
selects-is_signed s d h = ground arith

-- The test by the bound is the test by the width.
not_above : (b n w : ℕ) → b + 1 ≡ w → ltb b n ≡ not (ltb n w)
not_above b n w e = ground arith

swap {ℓ} : {A : Type ℓ} (b : Bool) (x y : A) → (if not b then x else y) ≡ (if b then y else x)
swap true x y = refl
swap false x y = refl

or_false : (b : Bool) → (b || false) ≡ b
or_false true = refl
or_false false = refl

ltb_zero : (n : ℕ) → ltb n 0 ≡ false
ltb_zero n = ground arith

-- For a literal whose value is the member that its suffix selects, the check passes exactly the
-- values of a two's complement or unsigned number of the suffix's width, and throws for all others.
pub int_check_overflow-range :
    (b : ℕ) (s : IntSuffix) (e : Exact)
    → selects s e ≡ true
    → int_check_overflow (record { base = b; suffix = s; exact = e })
      ≡ (if in_range (width s) e then ok (record { base = b; suffix = s; exact = e }) else overflow)
unfolding int_check_overflow
int_check_overflow-range b s (signed (pos n)) h =
    rw (not_above (bound s) n (2 ^ (width s - 1)) (bound-signed s (selects-is_signed s (pos n) h)))
      (swap (ltb n (2 ^ (width s - 1))) _ _)
int_check_overflow-range b s (signed (negsuc n)) h =
    rw
      (
        or_false (ltb (bound s) n),
        not_above (bound s) n (2 ^ (width s - 1))
            (bound-signed s (selects-is_signed s (negsuc n) h)),
      )
      (swap (ltb n (2 ^ (width s - 1))) _ _)
int_check_overflow-range b s (unsigned n) h =
    rw (ltb_zero n, not_above (bound s) n (2 ^ width s) (bound-unsigned s n h))
      (swap (ltb n (2 ^ width s)) _ _)
