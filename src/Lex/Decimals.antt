-- ===== src/Lex/Decimals.antt =====
-- How `nnc_lex_grab_number` of src/nnc_lex.c reads a decimal number.
use nnc.Common.{
  ℕ, ◌+◌, ◌≤◌, ◌≡◌, ◌∙◌, refl, ap, Bool, true, false, ◌&&◌, not, ◌==◌, ltb, List, [], ◌∷◌, ◌++◌,
  length, arith,
}
use nnc.Lex.Stream.{Lexer, ok, eof_char, tok_buf_max, undo, grab_from, grab}
use nnc.Lex.Grab.{leave_dec, grab_dec, after_zero, grab_number}
use nnc.Lex.GrabNumbers.{digit_or_not}
use nnc.Lex.Reads.{Word, ends_class, grab_more, undo-grab}
use nnc.Lex.Suffixes.{ends_number}
use nnc.Lex.Digits.{is_base, EndsAll, numeral-Word, leave_dec-suffix, suffixed-EndsAll}
use nnc.Literal.Ints.{IntSuffix}
use nnc.Literal.Ints.Suffix.{Base, dec, hex, oct, bin, spelling, digit_value, all_digits}

-- A decimal number, the leading zero with it.
pub grab_dec-Word :
    (c : ℕ) (cs : List ℕ) (up : Bool) (s : IntSuffix) (tail : List ℕ) (l : Lexer)
    → l.cc ≡ c
    → (c == eof_char) ≡ false
    → l.rest ≡ cs ++ (spelling up s ++ tail)
    → all_digits 10 cs ≡ true
    → ends_number s tail ≡ true
    → length cs + 4 ≤ tok_buf_max
    → (u : Lexer) × (grab_dec l ≡ ok u) × Word c (cs ++ spelling up s) tail u
unfolding grab_dec
grab_dec-Word c cs up s tail l e more r d b room =
    numeral-Word dec leave_dec c cs up s tail l
      (λ t. leave_dec-suffix (spelling up s ++ tail) t (suffixed-EndsAll dec up s tail b)) e more r
      d b room

after_zero-end : (t : Lexer) → (t.cc == eof_char) ≡ true → after_zero t ≡ grab_dec (undo t)
unfolding after_zero
after_zero-end t e = rw e refl

after_zero-other :
    (t : Lexer)
    → (not (is_base t.cc) && not (t.cc == eof_char)) ≡ true
    → after_zero t ≡ grab_dec (undo t)
unfolding after_zero
after_zero-other t h =
    let more : (t.cc == eof_char) ≡ false = ground arith in
    let x : (t.cc == 120) ≡ false = ground arith in
    let o : (t.cc == 111) ≡ false = ground arith in
    let b : (t.cc == 98) ≡ false = ground arith in rw (more, x, o, b, digit_or_not t.cc) refl

-- Behind a zero, what does not go on to a base's letter is a decimal number.
after_zero-grab :
    (text : List ℕ) (s : Lexer)
    → (s.cc == eof_char) ≡ false
    → s.rest ≡ text
    → ends_class is_base text ≡ true
    → after_zero (grab s) ≡ grab_dec (undo (grab s))
unfolding grab
after_zero-grab [] s more r b =
    after_zero-end (grab s) (rw more (ap (λ (cs : List ℕ). (grab_from cs s).cc == eof_char) r))
after_zero-grab (c ∷ cs) s more r b =
    after_zero-other (grab s) (
      ap (λ (t : Lexer). not (is_base t.cc) && not (t.cc == eof_char)) (grab_more c cs s more r)
      ∙ b)

EndsAll-base : (k : Base) (text : List ℕ) → EndsAll k text → ends_class is_base text ≡ true
EndsAll-base k [] h = refl
EndsAll-base k (c ∷ cs) h = h.no_base

digit_no_base :
    (c : ℕ) → ltb (digit_value c) 10 ≡ true → (not (is_base c) && not (c == eof_char)) ≡ true
digit_no_base c h = ground arith

no_base-behind :
    (cs text : List ℕ)
    → all_digits 10 cs ≡ true
    → ends_class is_base text ≡ true
    → ends_class is_base (cs ++ text) ≡ true
no_base-behind [] text d b = b
no_base-behind (c ∷ cs) text d b = digit_no_base c (ground arith)

any_class :
    (class : ℕ → Bool) (text : List ℕ)
    → ends_class class text ≡ true
    → ends_class (λ c. false) text ≡ true
any_class class [] b = refl
any_class class (c ∷ cs) b = ground arith

-- The letter of a base behind its zero.
abbrev pub lead : Base → List ℕ
lead dec = []
lead hex = 48 ∷ 120 ∷ []
lead oct = 48 ∷ 111 ∷ []
lead bin = 48 ∷ 98 ∷ []

pub zero_dec-Word :
    (cs : List ℕ) (up : Bool) (s : IntSuffix) (tail : List ℕ) (l : Lexer)
    → l.cc ≡ 48
    → l.rest ≡ cs ++ (spelling up s ++ tail)
    → all_digits 10 cs ≡ true
    → ends_number s tail ≡ true
    → length cs + 4 ≤ tok_buf_max
    → (u : Lexer) × (grab_number l ≡ ok u) × Word 48 (cs ++ spelling up s) tail u
unfolding grab_number
zero_dec-Word cs up s tail l e r d b room =
    let text = cs ++ (spelling up s ++ tail) in
    let more : (l.cc == eof_char) ≡ false = ap (λ c. c == eof_char) e in
    let no_base =
      no_base-behind cs (spelling up s ++ tail) d
        (EndsAll-base dec (spelling up s ++ tail) (suffixed-EndsAll dec up s tail b)) in
    let (c_back, r_back) =
      undo-grab l more (ap (ends_class (λ c. false)) r ∙ any_class is_base text no_base) in
    let (u, run, g) =
      grab_dec-Word 48 cs up s tail (undo (grab l)) (c_back ∙ e) refl (r_back ∙ r) d b room in
    let zero : (l.cc == 48) ≡ true = ap (λ c. c == 48) e in
    (u, rw zero (after_zero-grab text l more r no_base ∙ run), g)
