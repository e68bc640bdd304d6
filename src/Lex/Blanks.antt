-- ===== src/Lex/Blanks.antt =====
-- `nnc_lex_skip` of src/nnc_lex.c over blanks and line ends.
use nnc.Common.{
  ℕ, ◌≡◌, Bool, true, false, ◌||◌, if◌then◌else◌, ◌==◌, List, [], ◌∷◌, ◌++◌, arith, sym,
}
use mathlib.Core.Path.{subst}
use nnc.Hash.{str_key}
use nnc.Lex.Stream.{Lexer, eof_char, read, is_blank, new_line, skip_from, skip}
use nnc.Lex.Reads.{all_of}

abbrev pub is_space : ℕ → Bool
is_space c = is_blank c || c == 10

skip_from-blanks :
    (blanks : List ℕ) (c : ℕ) (text : List ℕ) (s : Lexer)
    → all_of is_space blanks ≡ true
    → is_space c ≡ false
    → ((skip_from (blanks ++ c ∷ text) s).cc ≡ c) × ((skip_from (blanks ++ c ∷ text) s).rest ≡ text)
unfolding skip_from
skip_from-blanks [] c text s a b = ground arith
skip_from-blanks (d ∷ blanks) c text s a b =
    let more : (d == eof_char) ≡ false = ground arith in
    let space : is_space d ≡ true = ground arith in
    let t = read d (blanks ++ c ∷ text) s in
    rw (more, space)
      (skip_from-blanks blanks c text (if d == 10 then new_line t else t) (ground arith) b)

-- The character behind blanks and line ends.
pub skip-blanks :
    (blanks : List ℕ) (c : ℕ) (text : List ℕ) (s : Lexer)
    → (s.cc == eof_char) ≡ false
    → s.rest ≡ blanks ++ c ∷ text
    → all_of is_space blanks ≡ true
    → is_space c ≡ false
    → ((skip s).cc ≡ c) × ((skip s).rest ≡ text)
unfolding skip
skip-blanks blanks c text s e r a b = rw e (
    subst (λ (cs : List ℕ). ((skip_from cs s).cc ≡ c) × ((skip_from cs s).rest ≡ text)) (sym r)
      (skip_from-blanks blanks c text s a b))
