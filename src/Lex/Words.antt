-- ===== src/Lex/Words.antt =====
-- How `nnc_lex_next` of src/nnc_lex.c reads an identifier or a keyword.
use nnc.Common.{
  ℕ, suc, ◌<◌, ◌≡◌, refl, ap, true, false, ◌==◌, List, ◌∷◌, ◌++◌, length, Option, none, some, arith,
  ◌∙◌,
}
use mathlib.Core.Path.{subst}
use nnc.Hash.{str_key, str_same}
use nnc.Map.{Map}
use nnc.Map as Table
use nnc.Map.Model.{Models}
use nnc.Lex.Token.{Tok, ident, keyword}
use nnc.Lex.Stream.{Lexer, ok, eof_char, tok_buf_max, undo, skip, scan}
use nnc.Lex.Grab.{is_digit, is_letter, is_ident_char, grab_word}
use nnc.Lex.Next.{
  token, commit, find_char, singles, compounds, other_turn, word_turn, word_token, switch, kind_of,
  next,
}
use nnc.Lex.Keywords.{nnc_keywords, index, init_keywords, init_keywords-Models}
use nnc.Lex.Moves.{word_kind-Models, next-token}
use nnc.Lex.Blanks.{is_space, skip-blanks}
use nnc.Lex.Reads.{
  Word, all_of, ends_class, scan-Scanned, left-ok, started, put_cc-started, undo-Stopped,
}

letter_single : (c : ℕ) → is_letter c ≡ true → find_char c singles ≡ none
letter_single c h = ground arith

letter_compound : (c : ℕ) → is_letter c ≡ true → find_char c compounds ≡ none
letter_compound c h = ground arith

letter_other :
    (c : ℕ)
    → is_letter c ≡ true
    → ((c == 39) ≡ false) × ((c == 34) ≡ false) × (is_digit c ≡ false) × ((c == eof_char) ≡ false)
letter_other c h = (ground arith, ground arith, ground arith, ground arith)

pub letter_space : (c : ℕ) → is_letter c ≡ true → is_space c ≡ false
letter_space c h = ground arith

undo-lexeme : (t : Lexer) → (undo t).lexeme ≡ t.lexeme
unfolding undo
undo-lexeme t = refl

undo-size : (t : Lexer) → (undo t).size ≡ t.size
unfolding undo
undo-size t = refl

grab_word-Word :
    (c : ℕ) (word tail : List ℕ) (s : Lexer)
    → s.cc ≡ c
    → s.rest ≡ word ++ tail
    → is_letter c ≡ true
    → all_of is_ident_char word ≡ true
    → ends_class is_ident_char tail ≡ true
    → length word < tok_buf_max
    → (t : Lexer) × (grab_word s ≡ ok t) × Word c word tail t
unfolding grab_word
grab_word-Word c word tail s e r h a b room =
    let more : (s.cc == eof_char) ≡ false = rw e (letter_other c h).3 in
    let (t, g, run) =
      scan-Scanned is_ident_char ok word tail (started s) refl more r a b (omega arith) in
    let scanned : scan is_ident_char ok (started s) ≡ ok t = run ∙ left-ok tail t in
    (
      undo t,
      rw (put_cc-started s, scanned) refl,
      record {
        put = undo-lexeme t ∙ g.put ∙ rw e refl;
        sized = undo-size t ∙ g.sized ∙ omega arith;
        left_over = undo-Stopped is_ident_char tail t b g.stopped;
      },
    )

pub word_case :
    (keywords : Map (List ℕ) ℕ) (s : Lexer)
    → is_letter s.cc ≡ true
    → switch keywords s ≡ word_turn keywords (grab_word s)
unfolding switch other_turn
word_case keywords s h =
    let (q, d, n, more) = letter_other s.cc h in
    rw (more, letter_single s.cc h, letter_compound s.cc h, q, d, n, h) refl

pub letter_more : (c : ℕ) → is_letter c ≡ true → (c == eof_char) ≡ false
letter_more c h = (letter_other c h).3

-- The kind of a word: its keyword's kind, or TOK_IDENT.
abbrev pub kind_at : Option ℕ → Tok
kind_at none = ident
kind_at (some i) = keyword i

Word-commit :
    (o : Option ℕ) (c : ℕ) (word tail : List ℕ) (t : Lexer)
    → Word c word tail t
    → ((commit (kind_at o) t).kind ≡ kind_at o) × Word c word tail (commit (kind_at o) t)
unfolding commit
Word-commit none c word tail t g =
    (refl, record { put = g.put; sized = g.sized; left_over = g.left_over })
Word-commit (some i) c word tail t g =
    (refl, record { put = g.put; sized = g.sized; left_over = g.left_over })

keywords-Models :
    (keywords : Map (List ℕ) ℕ)
    → init_keywords nnc_keywords ≡ Table.ok keywords
    → Models (index nnc_keywords 0) keywords
unfolding str_same
keywords-Models keywords e =
    let (m, run, models, _, _) =
      init_keywords-Models nnc_keywords (omega arith) (omega arith) refl in
    let same : m ≡ keywords = cc (run, e) in subst (Models (index nnc_keywords 0)) same models

kind_at_same : (o : Option ℕ) → elim o [ none ↦ ident | some i ↦ keyword i ] ≡ kind_at o
kind_at_same none = refl
kind_at_same (some i) = refl

word_turn-ok :
    (keywords : Map (List ℕ) ℕ) (f : List ℕ → Option ℕ) (w : List ℕ) (t : Lexer)
    → Models f keywords
    → t.lexeme ≡ w
    → word_turn keywords (ok t) ≡ token (commit (kind_at (f w)) t)
word_turn-ok keywords f w t models e =
    ap (word_token keywords t)
      (word_kind-Models keywords f models t.lexeme ∙ ap Table.ok (kind_at_same (f t.lexeme)))
    ∙ ap (λ v. token (commit (kind_at (f v)) t)) e

-- With the map that `nnc_lex_init_with_fp` builds, on blanks and line ends followed by a word of at
-- most 512 characters (a letter or underscore, then letters, digits and underscores) and by a
-- character that is none of these and not the byte 255, or by the end of the file, `nnc_lex_next`
-- returns the word as the lexeme, with its length as the size and exactly the characters behind the
-- word left. The kind is that of the keyword with this text, and TOK_IDENT for all other words.
pub next-Word :
    (keywords : Map (List ℕ) ℕ) (fuel : ℕ) (blanks : List ℕ) (c : ℕ) (word tail : List ℕ)
    (s : Lexer)
    → init_keywords nnc_keywords ≡ Table.ok keywords
    → (s.cc == eof_char) ≡ false
    → s.rest ≡ blanks ++ c ∷ (word ++ tail)
    → all_of is_space blanks ≡ true
    → is_letter c ≡ true
    → all_of is_ident_char word ≡ true
    → ends_class is_ident_char tail ≡ true
    → length word < tok_buf_max
    → (t : Lexer) × (next keywords (suc fuel) s ≡ kind_of t)
      × (t.kind ≡ kind_at (index nnc_keywords 0 (c ∷ word)))
      × Word c word tail t
next-Word keywords fuel blanks c word tail s built e r a h w b room =
    let (cc_is, rest_is) = skip-blanks blanks c (word ++ tail) s e r a (letter_space c h) in
    let (t, run, g) = grab_word-Word c word tail (skip s) cc_is rest_is h w b room in
    let o = index nnc_keywords 0 (c ∷ word) in
    let turn =
      word_turn-ok keywords (index nnc_keywords 0) (c ∷ word) t (keywords-Models keywords built)
        g.put in
    let (kind_is, g') = Word-commit o c word tail t g in
    (
      commit (kind_at o) t,
      next-token keywords fuel s (commit (kind_at o) t) (
          word_case keywords (skip s) (ap is_letter cc_is ∙ h)
          ∙ ap (word_turn keywords) run
          ∙ turn),
      kind_is,
      g',
    )
