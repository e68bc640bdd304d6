-- ===== src/Literal/Ints/Value.antt =====
-- The value that an integral literal of src/nnc_literal.c gets, and when it throws.
use nnc.Common.{
  ℕ, ◌-◌, ◌^◌, ◌≤◌, ◌<◌, ◌≡◌, ◌∙◌, ap, Bool, true, false, if◌then◌else◌, ltb, leb, List, ◌∷◌, ◌++◌,
  length, arith, Bool-cases, ◌⊎◌, inl, inr,
}
use nnc.Literal.{Read, ok, overflow, fault, ◌>>=◌}
use nnc.Literal.Ints.{
  IntSuffix, get_int_suffix, ℤ, pos, Exact, signed, unsigned, IntLiteral, is_signed, bound,
  int_check_overflow, Errno, no_error, erange, int_base, skip_base, suffix_size, take, or_default,
  convert, int_new,
}
use nnc.Literal.Ints.Suffix.{
  Base, dec, hex, oct, bin, base_of, prefix, digit_value, all_digits, number, spelling,
  digits-no_marks, get_int_suffix-spelling, take_digits, int_base-prefix,
}

-- What the C library documents of `strtoll` and `strtoull` on digits of one of the bases.
pub record IsConversion (strtoll : List ℕ → ℕ → ℤ × Errno) (strtoull : List ℕ → ℕ → ℕ × Errno)
    : Type 0 where
  pub signed_fits :
      (k : Base) (c : ℕ) (cs : List ℕ)
      → all_digits (base_of k) (c ∷ cs) ≡ true
      → number (base_of k) (c ∷ cs) 0 < 2 ^ 63
      → strtoll (c ∷ cs) (base_of k) ≡ (pos (number (base_of k) (c ∷ cs) 0), no_error)
  pub signed_big :
      (k : Base) (c : ℕ) (cs : List ℕ)
      → all_digits (base_of k) (c ∷ cs) ≡ true
      → 2 ^ 63 ≤ number (base_of k) (c ∷ cs) 0
      → (strtoll (c ∷ cs) (base_of k)).1 ≡ erange
  pub unsigned_fits :
      (k : Base) (c : ℕ) (cs : List ℕ)
      → all_digits (base_of k) (c ∷ cs) ≡ true
      → number (base_of k) (c ∷ cs) 0 < 2 ^ 64
      → strtoull (c ∷ cs) (base_of k) ≡ (number (base_of k) (c ∷ cs) 0, no_error)
  pub unsigned_big :
      (k : Base) (c : ℕ) (cs : List ℕ)
      → all_digits (base_of k) (c ∷ cs) ≡ true
      → 2 ^ 64 ≤ number (base_of k) (c ∷ cs) 0
      → (strtoull (c ∷ cs) (base_of k)).1 ≡ erange

abbrev pub exact_of : IntSuffix → ℕ → Exact
exact_of s n = if is_signed s then signed (pos n) else unsigned n

le_or_lt : (m n : ℕ) → (m ≤ n) ⊎ (n < m)
le_or_lt m n = ground arith

-- The literal of the value `n`, or the exception if it is above the bound of the suffix.
abbrev pub bounded : ℕ → IntSuffix → ℕ → Read IntLiteral
bounded b s n =
    if leb n (bound s) then ok (record { base = b; suffix = s; exact = exact_of s n }) else overflow

bound-i64 : (s : IntSuffix) → is_signed s ≡ true → bound s < 2 ^ 63
unfolding bound
bound-i64 s h = ground arith

bound-u64 : (s : IntSuffix) → bound s < 2 ^ 64
unfolding bound
bound-u64 s = ground arith

-- The value, checked as a signed or an unsigned number.
check_signed :
    (b : ℕ) (s : IntSuffix) (n : ℕ)
    → int_check_overflow (record { base = b; suffix = s; exact = signed (pos n) }) ≡ (
        if leb n (bound s)
        then ok (record { base = b; suffix = s; exact = signed (pos n) })
        else overflow)
unfolding int_check_overflow
check_signed b s n = elim (Bool-cases (leb n (bound s))) [
  | inl e ↦ rw (e, ltb-leb (bound s) n e)
  | inr e ↦ rw (e, ltb-gtb (bound s) n e)
]
  where
    ltb-leb : (m n : ℕ) → leb n m ≡ true → ltb m n ≡ false
    ltb-leb m n h = ground arith

    ltb-gtb : (m n : ℕ) → leb n m ≡ false → ltb m n ≡ true
    ltb-gtb m n h = ground arith

check_unsigned :
    (b : ℕ) (s : IntSuffix) (n : ℕ)
    → int_check_overflow (record { base = b; suffix = s; exact = unsigned n }) ≡ (
        if leb n (bound s)
        then ok (record { base = b; suffix = s; exact = unsigned n })
        else overflow)
unfolding int_check_overflow
check_unsigned b s n = elim (Bool-cases (leb n (bound s))) [
  | inl e ↦ rw (e, ltb-zero n, ltb-leb (bound s) n e)
  | inr e ↦ rw (e, ltb-zero n, ltb-gtb (bound s) n e)
]
  where
    ltb-zero : (n : ℕ) → ltb n 0 ≡ false
    ltb-zero n = ground arith

    ltb-leb : (m n : ℕ) → leb n m ≡ true → ltb m n ≡ false
    ltb-leb m n h = ground arith

    ltb-gtb : (m n : ℕ) → leb n m ≡ false → ltb m n ≡ true
    ltb-gtb m n h = ground arith

above : (n m w : ℕ) → m < w → w ≤ n → leb n m ≡ false
above n m w h k = ground arith

suffix_of :
    (k : Base) (c : ℕ) (cs : List ℕ) (up : Bool) (s : IntSuffix)
    → all_digits (base_of k) (c ∷ cs) ≡ true
    → get_int_suffix (prefix k ++ ((c ∷ cs) ++ spelling up s)) ≡ ok s
suffix_of dec c cs up s h = get_int_suffix-spelling up s (c ∷ cs) (digits-no_marks dec (c ∷ cs) h)
suffix_of hex c cs up s h =
    get_int_suffix-spelling up s (120 ∷ c ∷ cs) (digits-no_marks hex (c ∷ cs) h)
suffix_of oct c cs up s h =
    get_int_suffix-spelling up s (111 ∷ c ∷ cs) (digits-no_marks oct (c ∷ cs) h)
suffix_of bin c cs up s h =
    get_int_suffix-spelling up s (98 ∷ c ∷ cs) (digits-no_marks bin (c ∷ cs) h)

module _ (strtoll : List ℕ → ℕ → ℤ × Errno) (strtoull : List ℕ → ℕ → ℕ × Errno)
    (conv : IsConversion strtoll strtoull) where
  convert-signed :
      (k : Base) (c : ℕ) (cs : List ℕ) (s : IntSuffix)
      → all_digits (base_of k) (c ∷ cs) ≡ true
      → is_signed s ≡ true
      → convert strtoll strtoull (c ∷ cs) (base_of k) s
        ≡ bounded (base_of k) s (number (base_of k) (c ∷ cs) 0)
  unfolding convert
  convert-signed k c cs s h g = elim (le_or_lt (2 ^ 63) (number (base_of k) (c ∷ cs) 0)) [
    | inl big ↦ rw (
      g,
      conv.signed_big k c cs h big,
      above (number (base_of k) (c ∷ cs) 0) (bound s) (2 ^ 63) (bound-i64 s g) big,
    )
    | inr fits ↦
        rw (g, conv.signed_fits k c cs h fits)
          (check_signed (base_of k) s (number (base_of k) (c ∷ cs) 0))
  ]

  convert-unsigned :
      (k : Base) (c : ℕ) (cs : List ℕ) (s : IntSuffix)
      → all_digits (base_of k) (c ∷ cs) ≡ true
      → is_signed s ≡ false
      → convert strtoll strtoull (c ∷ cs) (base_of k) s
        ≡ bounded (base_of k) s (number (base_of k) (c ∷ cs) 0)
  unfolding convert
  convert-unsigned k c cs s h g = elim (le_or_lt (2 ^ 64) (number (base_of k) (c ∷ cs) 0)) [
    | inl big ↦ rw (
      g,
      conv.unsigned_big k c cs h big,
      above (number (base_of k) (c ∷ cs) 0) (bound s) (2 ^ 64) (bound-u64 s) big,
    )
    | inr fits ↦
        rw (g, conv.unsigned_fits k c cs h fits)
          (check_unsigned (base_of k) s (number (base_of k) (c ∷ cs) 0))
  ]

  convert-bounded :
      (k : Base) (c : ℕ) (cs : List ℕ) (s : IntSuffix)
      → all_digits (base_of k) (c ∷ cs) ≡ true
      → convert strtoll strtoull (c ∷ cs) (base_of k) s
        ≡ bounded (base_of k) s (number (base_of k) (c ∷ cs) 0)
  convert-bounded k c cs s h = elim (Bool-cases (is_signed s)) [
    | inl g ↦ convert-signed k c cs s h g
    | inr g ↦ convert-unsigned k c cs s h g
  ]

  -- `nnc_int_new` behind the recognition of the suffix.
  finish : List ℕ → ℕ → IntSuffix → Read IntLiteral
  finish cs b s =
      let digits = take (length cs - suffix_size s) cs in
      if ltb (length digits) 512 then convert strtoll strtoull digits b (or_default s) else fault

  finish-digits :
      (cs ds : List ℕ) (b : ℕ) (s : IntSuffix)
      → take (length cs - suffix_size s) cs ≡ ds
      → length ds < 512
      → finish cs b s ≡ convert strtoll strtoull ds b (or_default s)
  unfolding finish
  finish-digits cs ds b s e l =
      ap
        (λ (xs : List ℕ).
          if ltb (length xs) 512 then convert strtoll strtoull xs b (or_default s) else fault)
        e
      ∙ rw (short (length ds) l)
    where
      short : (n : ℕ) → n < 512 → ltb n 512 ≡ true
      short n h = ground arith

  int_new-finish :
      (repr : List ℕ) (s : IntSuffix)
      → get_int_suffix repr ≡ ok s
      → int_new strtoll strtoull repr ≡ finish (skip_base repr) (int_base repr) s
  unfolding int_new finish
  int_new-finish repr s e =
      ap (λ (r : Read IntSuffix). r >>= λ s. finish (skip_base repr) (int_base repr) s) e

  -- A lexeme of a base's prefix, digits of that base and a suffix in small letters or capitals, its
  -- digits fewer than 512, is read as the number that the digits write, with that suffix or i32, if
  -- the number is at most the suffix's greatest; otherwise NNC_OVERFLOW is thrown.
  pub int_new-bounded :
      (k : Base) (c : ℕ) (cs : List ℕ) (up : Bool) (s : IntSuffix)
      → all_digits (base_of k) (c ∷ cs) ≡ true
      → length (c ∷ cs) < 512
      → int_new strtoll strtoull (prefix k ++ ((c ∷ cs) ++ spelling up s))
        ≡ bounded (base_of k) (or_default s) (number (base_of k) (c ∷ cs) 0)
  int_new-bounded k c cs up s h l =
      let (base, skip) = int_base-prefix k c (cs ++ spelling up s) (first h) in
      int_new-finish (prefix k ++ ((c ∷ cs) ++ spelling up s)) s (suffix_of k c cs up s h)
      ∙ ap (λ (xs : List ℕ). finish xs (int_base (prefix k ++ ((c ∷ cs) ++ spelling up s))) s) skip
      ∙ ap (λ (b : ℕ). finish (c ∷ (cs ++ spelling up s)) b s) base
      ∙ finish-digits (c ∷ (cs ++ spelling up s)) (c ∷ cs) (base_of k) s (take_digits up s (c ∷ cs))
          l
      ∙ convert-bounded k c cs (or_default s) h
    where
      first : all_digits (base_of k) (c ∷ cs) ≡ true → ltb (digit_value c) (base_of k) ≡ true
      first h = ground arith
