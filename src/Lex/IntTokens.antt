-- ===== src/Lex/IntTokens.antt =====
-- How `nnc_lex_next` of src/nnc_lex.c reads an integral number, and what `nnc_int_new` of
-- src/nnc_literal.c makes of its lexeme.
use nnc.Common.{
  ℕ, suc, ◌+◌, ◌≤◌, ◌≡◌, ◌∙◌, refl, ap, Bool, true, false, ◌==◌, ltb, List, none, ◌∷◌, ◌++◌, length,
  arith,
}
use nnc.Lex.Stream.{Lexer, eof_char, tok_buf_max, skip}
use nnc.Lex.Grab.{is_digit, grab_number}
use nnc.Lex.Reads.{all_of}
use nnc.Lex.Suffixes.{ends_number}
use nnc.Hash.{str_key}
use nnc.Map.{Map}
use nnc.Lex.Token
use nnc.Lex.Moves.{next-token}
use nnc.Lex.Decimals.{lead}
use nnc.Lex.Numerals.{first, behind, grab_number-Numeral}
use nnc.Literal.Ints.{ℤ, Errno, int_new, or_default}
use nnc.Literal.Ints.Suffix.{number}
use nnc.Literal.Ints.Value.{IsConversion, bounded, int_new-bounded}
use nnc.Lex.Blanks.{is_space, skip-blanks}
use nnc.Lex.Next.{
  commit, committed, find_char, singles, compounds, other_turn, switch, kind_of, next,
}
use nnc.Literal.Ints.{IntSuffix}
use nnc.Literal.Ints.Suffix.{Base, dec, hex, oct, bin, base_of, spelling, digit_value, all_digits}

first_digit :
    (k : Base) (c : ℕ) → ltb (digit_value c) (base_of k) ≡ true → is_digit (first k c) ≡ true
first_digit dec c h = ground arith
first_digit hex c h = refl
first_digit oct c h = refl
first_digit bin c h = refl

digit_space : (c : ℕ) → is_digit c ≡ true → is_space c ≡ false
digit_space c h = ground arith

digit_single : (c : ℕ) → is_digit c ≡ true → find_char c singles ≡ none
digit_single c h = ground arith

digit_compound : (c : ℕ) → is_digit c ≡ true → find_char c compounds ≡ none
digit_compound c h = ground arith

digit_other :
    (c : ℕ)
    → is_digit c ≡ true
    → ((c == 39) ≡ false) × ((c == 34) ≡ false) × ((c == eof_char) ≡ false)
digit_other c h = (ground arith, ground arith, ground arith)

number_case :
    (keywords : Map (List ℕ) ℕ) (s : Lexer)
    → is_digit s.cc ≡ true
    → switch keywords s ≡ committed Token.number (grab_number s)
unfolding switch other_turn
number_case keywords s h =
    let (q, d, more) = digit_other s.cc h in
    rw (more, digit_single s.cc h, digit_compound s.cc h, q, d, h) refl

-- The source of a number in terms of its first character.
lead-first :
    (k : Base) (blanks : List ℕ) (c : ℕ) (cs rest : List ℕ)
    → blanks ++ (lead k ++ ((c ∷ cs) ++ rest)) ≡ blanks ++ first k c ∷ behind k c (cs ++ rest)
lead-first dec blanks c cs rest = refl
lead-first hex blanks c cs rest = refl
lead-first oct blanks c cs rest = refl
lead-first bin blanks c cs rest = refl

committed_number : (t : Lexer) → (commit Token.number t).kind ≡ Token.number
unfolding commit
committed_number t = refl

committed_rest : (t : Lexer) → (commit Token.number t).rest ≡ t.rest
unfolding commit
committed_rest t = refl

committed_lexeme : (t : Lexer) → (commit Token.number t).lexeme ≡ t.lexeme
unfolding commit
committed_lexeme t = refl

module _ (strtoll : List ℕ → ℕ → ℤ × Errno) (strtoull : List ℕ → ℕ → ℕ × Errno)
    (conv : IsConversion strtoll strtoull) where
  -- With conversion functions that read digits as the C library's do: on blanks and line ends
  -- followed by a number (0x, 0o, 0b or nothing, at least one digit of that base, a suffix in small
  -- letters or capitals or none; at most 507 digits) and then by the end of the file or any text,
  -- which behind a number without a suffix starts with no letter, digit, underscore, dot or byte 255,
  -- `nnc_lex_next` returns TOK_NUMBER and leaves exactly that text, and `nnc_int_new` reads the
  -- token's lexeme as the number that the digits write, with its suffix or i32, or throws
  -- NNC_OVERFLOW if that suffix does not hold it.
  pub next-int_new :
      (keywords : Map (List ℕ) ℕ) (fuel : ℕ) (blanks : List ℕ) (k : Base) (c : ℕ) (cs : List ℕ)
      (up : Bool) (s : IntSuffix) (tail : List ℕ) (l : Lexer)
      → (l.cc == eof_char) ≡ false
      → l.rest ≡ blanks ++ (lead k ++ ((c ∷ cs) ++ (spelling up s ++ tail)))
      → all_of is_space blanks ≡ true
      → all_digits (base_of k) (c ∷ cs) ≡ true
      → ends_number s tail ≡ true
      → length (c ∷ cs) + 5 ≤ tok_buf_max
      → (t : Lexer) × (next keywords (suc fuel) l ≡ kind_of t)
        × (t.kind ≡ Token.number)
        × (t.rest ≡ tail)
        × (int_new strtoll strtoull t.lexeme
            ≡ bounded (base_of k) (or_default s) (number (base_of k) (c ∷ cs) 0))
  next-int_new keywords fuel blanks k c cs up s tail l more r a d b room =
      let digit = first_digit k c (ground arith) in
      let (cc_is, rest_is) =
        skip-blanks blanks (first k c) (behind k c (cs ++ (spelling up s ++ tail))) l more
          (r ∙ lead-first k blanks c cs (spelling up s ++ tail)) a
          (digit_space (first k c) digit) in
      let (t, run, g) =
        grab_number-Numeral k c cs up s tail (skip l) cc_is rest_is d b (omega arith) in
      (
        commit Token.number t,
        next-token keywords fuel l (commit Token.number t) (
            number_case keywords (skip l) (ap is_digit cc_is ∙ digit)
            ∙ ap (committed Token.number) run),
        committed_number t,
        committed_rest t ∙ g.left_over,
        ap (int_new strtoll strtoull) (committed_lexeme t ∙ g.put)
            ∙ int_new-bounded strtoll strtoull conv k c cs up s d (omega arith),
      )
