-- ===== src/Literal/Conversion.antt =====
-- Conversion functions that read the digits as those of the C library do.
use nnc.Common.{ℕ, ◌-◌, ◌^◌, ◌≤◌, ◌<◌, ◌≡◌, true, false, ltb, if◌then◌else◌, List, ◌∷◌, arith}
use nnc.Literal.Ints.{ℤ, pos, Errno, no_error, erange}
use nnc.Literal.Ints.Suffix.{base_of, number}
use nnc.Literal.Ints.Value.{IsConversion}

abbrev pub strtoll : List ℕ → ℕ → ℤ × Errno
strtoll ds b =
    if ltb (number b ds 0) (2 ^ 63)
    then (pos (number b ds 0), no_error)
    else (pos (2 ^ 63 - 1), erange)

abbrev pub strtoull : List ℕ → ℕ → ℕ × Errno
strtoull ds b =
    if ltb (number b ds 0) (2 ^ 64) then (number b ds 0, no_error) else (2 ^ 64 - 1, erange)

below : (n w : ℕ) → n < w → ltb n w ≡ true
below n w h = ground arith

not_below : (n w : ℕ) → w ≤ n → ltb n w ≡ false
not_below n w h = ground arith

pub conversion : IsConversion strtoll strtoull
conversion = record {
  signed_fits = λ k c cs h l. rw (below (number (base_of k) (c ∷ cs) 0) (2 ^ 63) l);
  signed_big = λ k c cs h l. rw (not_below (number (base_of k) (c ∷ cs) 0) (2 ^ 63) l);
  unsigned_fits = λ k c cs h l. rw (below (number (base_of k) (c ∷ cs) 0) (2 ^ 64) l);
  unsigned_big = λ k c cs h l. rw (not_below (number (base_of k) (c ∷ cs) 0) (2 ^ 64) l);
}
