-- ===== src/Lex/Overruns.antt =====
-- The lexeme's buffer of src/nnc_lex.c is written without a test of its size.
use nnc.Common.{
  ℕ, suc, ◌+◌, ◌≤◌, ◌<◌, ◌≡◌, ◌∙◌, refl, ap, Bool, true, false, if◌then◌else◌, ◌==◌, ltb, List, [],
  ◌∷◌, ◌++◌, length, arith, Bool-cases, inl, inr,
}
use nnc.Hash.{str_key}
use nnc.Map.{Map}
use nnc.Lex.Stream.{
  Lexer, Out, ok, fault, ◌>>=◌, eof_char, tok_buf_max, undo, read, put_c, put_cc, scan_from, scan,
  skip,
}
use nnc.Lex.Grab.{is_letter, is_ident_char, grab_word}
use nnc.Lex.Next.{word_turn, overrun, next}
use nnc.Lex.Moves.{next-fault}
use nnc.Lex.Blanks.{is_space, skip-blanks}
use nnc.Lex.Words.{letter_space, letter_more, word_case}
use nnc.Lex.Reads.{all_of, started, put_cc-started, put_on, put_cc-put_on, not_eof}

put_cc_full : (s : Lexer) → tok_buf_max ≤ s.size → put_cc s ≡ fault
unfolding put_cc put_c
put_cc_full s full = ground arith

-- A word that does not fit is put outside the buffer.
scan_from-fault :
    (class : ℕ → Bool) (leave : Lexer → Out) (word tail : List ℕ) (s : Lexer)
    → class eof_char ≡ false
    → all_of class word ≡ true
    → s.size ≤ tok_buf_max
    → tok_buf_max < s.size + length word
    → scan_from class leave (word ++ tail) s ≡ fault
unfolding scan_from
scan_from-fault class leave [] tail s e a low full = absurd (omega arith)
scan_from-fault class leave (c ∷ word) tail s e a low full =
    let here : class c ≡ true = ground arith in
    let more = not_eof class c e here in
    let r = read c (word ++ tail) s in
    elim (Bool-cases (ltb s.size tok_buf_max)) [
      | inl fits ↦
          rw (more, here)
            (ap (λ (o : Out). o >>= scan_from class leave (word ++ tail))
                (put_cc-put_on r (ground arith))
              ∙ scan_from-fault class leave word tail (put_on c r) e (ground arith) (ground arith)
                  (omega arith))
      | inr out ↦
          rw (more, here)
            (ap (λ (o : Out). o >>= scan_from class leave (word ++ tail))
              (put_cc_full r (ground arith)))
    ]

grab_word-fault :
    (word tail : List ℕ) (s : Lexer)
    → is_letter s.cc ≡ true
    → s.rest ≡ word ++ tail
    → all_of is_ident_char word ≡ true
    → tok_buf_max ≤ length word
    → grab_word s ≡ fault
unfolding grab_word scan
grab_word-fault word tail s h r a full =
    ap (λ (o : Out). o >>= scan is_ident_char ok >>= λ t. ok (undo t)) (put_cc-started s)
    ∙ ap
        (λ (b : Bool).
          (if b then ok (started s) else scan_from is_ident_char ok s.rest (started s)) >>= λ t.
          ok (undo t))
        (letter_more s.cc h)
    ∙ ap (λ (cs : List ℕ). scan_from is_ident_char ok cs (started s) >>= λ t. ok (undo t)) r
    ∙ ap (λ (o : Out). o >>= λ t. ok (undo t))
        (scan_from-fault is_ident_char ok word tail (started s) refl a (omega arith) (omega arith))

-- On blanks and line ends followed by an identifier of more than 512 characters, whatever stands
-- behind it, `nnc_lex_next` writes outside the lexeme's buffer.
pub next-overrun :
    (keywords : Map (List ℕ) ℕ) (fuel : ℕ) (blanks : List ℕ) (c : ℕ) (word tail : List ℕ)
    (s : Lexer)
    → (s.cc == eof_char) ≡ false
    → s.rest ≡ blanks ++ c ∷ (word ++ tail)
    → all_of is_space blanks ≡ true
    → is_letter c ≡ true
    → all_of is_ident_char word ≡ true
    → tok_buf_max ≤ length word
    → next keywords (suc fuel) s ≡ overrun
next-overrun keywords fuel blanks c word tail s more r a h w full =
    let (cc_is, rest_is) = skip-blanks blanks c (word ++ tail) s more r a (letter_space c h) in
    let letter = ap is_letter cc_is ∙ h in
    next-fault keywords fuel s (
      word_case keywords (skip s) letter
      ∙ ap (word_turn keywords) (grab_word-fault word tail (skip s) letter rest_is w full))
