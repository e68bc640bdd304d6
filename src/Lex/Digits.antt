-- ===== src/Lex/Digits.antt =====
-- How the loops of src/nnc_lex.c read the digits of a number and the suffix behind them.
use nnc.Common.{
  ℕ, ◌+◌, ◌≤◌, ◌≡◌, ◌∙◌, refl, ap, Bool, true, false, ◌&&◌, ◌||◌, not, ◌==◌, ltb, List, [], ◌∷◌,
  ◌++◌, length, length-append, arith,
}
use nnc.Lex.Stream.{Lexer, Out, ok, ◌>>=◌, eof_char, tok_buf_max, tok_clear, put_cc, scan}
use nnc.Lex.Grab.{is_digit, is_hex_digit, is_oct_digit, is_bin_digit, grab_int_suffix, leave_dec}
use nnc.Lex.Reads.{Word, all_of, ends_class, Stopped, left, start-Scanned}
use nnc.Lex.Suffixes.{is_number_char, ends_number, grab_int_suffix-Appended}
use nnc.Literal.Ints.{
  IntSuffix, suffix_u8, suffix_u16, suffix_u32, suffix_u64, suffix_i8, suffix_i16, suffix_i32,
  suffix_i64, suffix_none,
}
use nnc.Literal.Ints.Suffix.{
  Base, dec, hex, oct, bin, base_of, spelling, mark, digit_value, all_digits,
}

-- The digits of a base as the lexer tests them.
abbrev pub digit_of : Base → ℕ → Bool
digit_of dec = is_digit
digit_of hex = is_hex_digit
digit_of oct = is_oct_digit
digit_of bin = is_bin_digit

pub digit_of-value :
    (k : Base) (c : ℕ) → ltb (digit_value c) (base_of k) ≡ true → digit_of k c ≡ true
digit_of-value dec c h = ground arith
digit_of-value hex c h = ground arith
digit_of-value oct c h = ground arith
digit_of-value bin c h = ground arith

all_of-digits :
    (k : Base) (cs : List ℕ) → all_digits (base_of k) cs ≡ true → all_of (digit_of k) cs ≡ true
all_of-digits k [] h = refl
all_of-digits k (c ∷ cs) h = ground (arith, digit_of-value k c, all_of-digits k cs)

abbrev is_u_or_i : ℕ → Bool
is_u_or_i c = c == 117 || c == 105 || c == 85 || c == 73

mark-is_u_or_i : (up signed : Bool) → is_u_or_i (mark up signed) ≡ true
mark-is_u_or_i true true = refl
mark-is_u_or_i true false = refl
mark-is_u_or_i false true = refl
mark-is_u_or_i false false = refl

-- A character that ends the digits of each base, a leading zero and a number without a dot.
abbrev no_digit : Base → ℕ → Bool
no_digit k c = not (digit_of k c) && not (c == eof_char)

abbrev pub is_base : ℕ → Bool
is_base c = c == 120 || c == 111 || c == 98

pub record EndsDigits (k : Base) (c : ℕ) : Type 0 where
  pub no_more : no_digit k c ≡ true
  pub no_base : (not (is_base c) && not (c == eof_char)) ≡ true
  pub no_dot : (c == 46) ≡ false

mark-no_digit : (k : Base) (c : ℕ) → is_u_or_i c ≡ true → no_digit k c ≡ true
mark-no_digit dec c h = ground arith
mark-no_digit hex c h = ground arith
mark-no_digit oct c h = ground arith
mark-no_digit bin c h = ground arith

mark-EndsDigits : (k : Base) (c : ℕ) → is_u_or_i c ≡ true → EndsDigits k c
mark-EndsDigits k c h = record {
  no_more = mark-no_digit k c h;
  no_base = ground arith;
  no_dot = ground arith;
}

other-no_digit :
    (k : Base) (c : ℕ)
    → (not (is_number_char c) && not (c == eof_char)) ≡ true
    → no_digit k c ≡ true
other-no_digit dec c h = ground arith
other-no_digit hex c h = ground arith
other-no_digit oct c h = ground arith
other-no_digit bin c h = ground arith

other-EndsDigits :
    (k : Base) (c : ℕ) → (not (is_number_char c) && not (c == eof_char)) ≡ true → EndsDigits k c
other-EndsDigits k c h = record {
  no_more = other-no_digit k c h;
  no_base = ground arith;
  no_dot = ground arith;
}

abbrev pub EndsAll : Base → List ℕ → Type 0
EndsAll k [] = Unit {0}
EndsAll k (c ∷ cs) = EndsDigits k c

-- What stands behind the digits ends them.
pub suffixed-EndsAll :
    (k : Base) (up : Bool) (s : IntSuffix) (tail : List ℕ)
    → ends_number s tail ≡ true
    → EndsAll k (spelling up s ++ tail)
suffixed-EndsAll k up suffix_none [] b = tt
suffixed-EndsAll k up suffix_none (c ∷ cs) b = other-EndsDigits k c b
suffixed-EndsAll k up suffix_u8 tail b = mark-EndsDigits k (mark up true) (mark-is_u_or_i up true)
suffixed-EndsAll k up suffix_u16 tail b = mark-EndsDigits k (mark up true) (mark-is_u_or_i up true)
suffixed-EndsAll k up suffix_u32 tail b = mark-EndsDigits k (mark up true) (mark-is_u_or_i up true)
suffixed-EndsAll k up suffix_u64 tail b = mark-EndsDigits k (mark up true) (mark-is_u_or_i up true)
suffixed-EndsAll k up suffix_i8 tail b = mark-EndsDigits k (mark up false) (mark-is_u_or_i up false)
suffixed-EndsAll k up suffix_i16 tail b =
    mark-EndsDigits k (mark up false) (mark-is_u_or_i up false)
suffixed-EndsAll k up suffix_i32 tail b =
    mark-EndsDigits k (mark up false) (mark-is_u_or_i up false)
suffixed-EndsAll k up suffix_i64 tail b =
    mark-EndsDigits k (mark up false) (mark-is_u_or_i up false)

EndsAll-class : (k : Base) (text : List ℕ) → EndsAll k text → ends_class (digit_of k) text ≡ true
EndsAll-class k [] h = refl
EndsAll-class k (c ∷ cs) h = h.no_more

pub leave_dec-suffix :
    (text : List ℕ) (t : Lexer)
    → EndsAll dec text
    → Stopped text t
    → left leave_dec text t ≡ left grab_int_suffix text t
unfolding leave_dec
leave_dec-suffix [] t h e = refl
leave_dec-suffix (c ∷ cs) t h (e, r) =
    let dot : (t.cc == 46) ≡ false = ap (λ d. d == 46) e ∙ h.no_dot in rw dot refl

digit_more : (k : Base) → digit_of k eof_char ≡ false
digit_more dec = refl
digit_more hex = refl
digit_more oct = refl
digit_more bin = refl

-- A first character that is put, digits and a suffix.
pub numeral-Word :
    (k : Base) (leave : Lexer → Out) (c : ℕ) (ds : List ℕ) (up : Bool) (s : IntSuffix)
    (tail : List ℕ) (l : Lexer)
    → ((t : Lexer)
        → Stopped (spelling up s ++ tail) t
        → left leave (spelling up s ++ tail) t ≡ left grab_int_suffix (spelling up s ++ tail) t)
    → l.cc ≡ c
    → (c == eof_char) ≡ false
    → l.rest ≡ ds ++ (spelling up s ++ tail)
    → all_digits (base_of k) ds ≡ true
    → ends_number s tail ≡ true
    → length ds + 4 ≤ tok_buf_max
    → (u : Lexer) × ((put_cc (tok_clear l) >>= scan (digit_of k) leave) ≡ ok u)
      × Word c (ds ++ spelling up s) tail u
numeral-Word k leave c ds up s tail l leaves e more r d b room =
    let text = spelling up s ++ tail in
    let ends = EndsAll-class k text (suffixed-EndsAll k up s tail b) in
    let (t, g, run) =
      start-Scanned (digit_of k) leave ds text l (digit_more k) (ap (λ c. c == eof_char) e ∙ more) r
        (all_of-digits k ds d) ends (omega arith) in
    let (u, run', h) = grab_int_suffix-Appended up s tail t b g.stopped (omega (arith, g.sized)) in
    (
      u,
      run ∙ leaves t g.stopped ∙ run',
      record {
        put = h.put ∙ ap (λ w. w ++ spelling up s) g.put ∙ ap (λ c. c ∷ (ds ++ spelling up s)) e;
        sized = omega (arith, h.sized, g.sized, length-append ds (spelling up s));
        left_over = h.left_over;
      },
    )
