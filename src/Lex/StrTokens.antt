-- ===== src/Lex/StrTokens.antt =====
-- How `nnc_lex_next` of src/nnc_lex.c reads a string literal, and what `nnc_str_new` of
-- src/nnc_literal.c makes of its lexeme.
use nnc.Common.{
  ℕ, suc, ◌+◌, ◌≤◌, ◌≡◌, ◌∙◌, sym, refl, ap, Bool, true, false, ◌&&◌, ◌||◌, not, if◌then◌else◌,
  ◌==◌, List, none, [], ◌∷◌, ◌++◌, length, length-append, arith,
}
use nnc.Hash.{str_key}
use nnc.Map.{Map}
use nnc.Lex.Token.{str}
use nnc.Lex.Stream.{Lexer, Out, ok, ◌>>=◌, eof_char, tok_buf_max, read, grab, put_cc, skip}
use nnc.Lex.Grab.{is_esc, grab_esc, put_esc, str_from, close_str, grab_str}
use nnc.Lex.Next.{
  commit, committed, find_char, singles, compounds, switch, other_turn, kind_of, next,
}
use nnc.Lex.Moves.{next-token}
use nnc.Lex.Blanks.{is_space, skip-blanks}
use nnc.Lex.Reads.{
  Word, all_of, started, put_cc-started, append_step, append_nil, Appended, grab_more, put_on,
  put_cc-put_on,
}
use nnc.Literal.{backslash, str_new, strlen}
use nnc.Literal as Literal
use nnc.Literal.Strings.{Escape, letter, Piece, plain, escape, spell, meaning, str_new-spell}

-- Plain characters other than the quotes, the line feed and the byte 255.
abbrev pub quotable : List Piece → Bool
quotable [] = true
quotable (plain c p ∷ ps) = not (c == eof_char || c == 10 || c == 34) && quotable ps
quotable (escape e ∷ ps) = quotable ps

letter-is_esc : (e : Escape) → is_esc (letter e) ≡ true
letter-is_esc e = ground arith

str_from-quote : (tail : List ℕ) (s : Lexer) → str_from (34 ∷ tail) s ≡ ok (read 34 tail s)
unfolding str_from
str_from-quote [] s = refl
str_from-quote (d ∷ cs) s = refl

str_from-plain :
    (c : ℕ) (cs : List ℕ) (s : Lexer)
    → (c == eof_char || c == 10 || c == 34) ≡ false
    → (c == backslash) ≡ false
    → suc s.size ≤ tok_buf_max
    → str_from (c ∷ cs) s ≡ str_from cs (put_on c (read c cs s))
unfolding str_from
str_from-plain c [] s p q room = rw (p, q, put_cc-put_on (read c [] s) room) refl
str_from-plain c (d ∷ cs) s p q room = rw (p, q, put_cc-put_on (read c (d ∷ cs) s) room) refl

put_esc-put_on :
    (d : ℕ) (cs : List ℕ) (s : Lexer)
    → is_esc d ≡ true
    → s.size + 2 ≤ tok_buf_max
    → put_esc (read backslash (d ∷ cs) s)
      ≡ ok (put_on d (read d cs (put_on backslash (read backslash (d ∷ cs) s))))
unfolding put_esc grab_esc
put_esc-put_on d cs s h room =
    let t = read backslash (d ∷ cs) s in
    let u = read d cs (put_on backslash t) in
    ap (λ (o : Out). o >>= λ t. grab_esc (grab t) >>= put_cc) (put_cc-put_on t (omega arith))
    ∙ ap (λ (t : Lexer). grab_esc t >>= put_cc) (grab_more d cs (put_on backslash t) refl refl)
    ∙ rw h (put_cc-put_on u (omega arith))

str_from-escape :
    (d : ℕ) (cs : List ℕ) (s : Lexer)
    → is_esc d ≡ true
    → s.size + 2 ≤ tok_buf_max
    → str_from (backslash ∷ d ∷ cs) s
      ≡ str_from cs (put_on d (read d cs (put_on backslash (read backslash (d ∷ cs) s))))
unfolding str_from
str_from-escape d cs s h room = ap (λ (o : Out). o >>= str_from cs) (put_esc-put_on d cs s h room)

-- The loop puts the text and stops at the closing quotes.
str_from-Appended :
    (ps : List Piece) (tail : List ℕ) (s : Lexer)
    → quotable ps ≡ true
    → s.size + length (spell ps) ≤ tok_buf_max
    → (t : Lexer) × (str_from (spell ps ++ 34 ∷ tail) s ≡ ok t)
      × Appended s (spell ps) tail t
      × (t.cc ≡ 34)
str_from-Appended [] tail s q room = (
  read 34 tail s,
  str_from-quote tail s,
  record { put = sym (append_nil s.lexeme); sized = omega arith; left_over = refl },
  refl,
)
str_from-Appended (plain c p ∷ ps) tail s q room =
    let cs = spell ps ++ 34 ∷ tail in
    let special : (c == eof_char || c == 10 || c == 34) ≡ false = ground arith in
    let (t, run, g, closed) =
      str_from-Appended ps tail (put_on c (read c cs s)) (ground arith) (omega arith) in
    (
      t,
      str_from-plain c cs s special p (omega arith) ∙ run,
      record {
        put = g.put ∙ append_step s.lexeme (spell ps) c;
        sized = omega (arith, g.sized);
        left_over = g.left_over;
      },
      closed,
    )
str_from-Appended (escape e ∷ ps) tail s q room =
    let cs = spell ps ++ 34 ∷ tail in
    let u = put_on backslash (read backslash (letter e ∷ cs) s) in
    let (t, run, g, closed) =
      str_from-Appended ps tail (put_on (letter e) (read (letter e) cs u)) q (omega arith) in
    (
      t,
      str_from-escape (letter e) cs s (letter-is_esc e) (omega arith) ∙ run,
      record {
        put =
            g.put
            ∙ append_step u.lexeme (spell ps) (letter e)
            ∙ append_step s.lexeme (letter e ∷ spell ps) backslash;
        sized = omega (arith, g.sized);
        left_over = g.left_over;
      },
      closed,
    )

closed_quote : (t : Lexer) → t.cc ≡ 34 → suc t.size ≤ tok_buf_max → close_str t ≡ ok (put_on t.cc t)
unfolding close_str
closed_quote t e room = rw (ap (λ c. c == 34) e) (put_cc-put_on t room)

grab_str-Word :
    (ps : List Piece) (tail : List ℕ) (s : Lexer)
    → s.cc ≡ 34
    → s.rest ≡ spell ps ++ 34 ∷ tail
    → quotable ps ≡ true
    → length (spell ps) + 2 ≤ tok_buf_max
    → (t : Lexer) × (grab_str s ≡ ok t) × Word 34 (spell ps ++ 34 ∷ []) tail t
unfolding grab_str
grab_str-Word ps tail s e r q room =
    let (t, run, g, closed) = str_from-Appended ps tail (started s) q (omega arith) in
    let more : (s.cc == eof_char) ≡ false = ap (λ c. c == eof_char) e in
    let room' : suc t.size ≤ tok_buf_max = omega (arith, g.sized) in
    (
      put_on t.cc t,
      ap
            (λ (o : Out).
              o >>= λ t. (if t.cc == eof_char then ok t else str_from t.rest t) >>= close_str)
            (put_cc-started s)
          ∙ ap
              (λ (b : Bool).
                (if b then ok (started s) else str_from s.rest (started s)) >>= close_str)
              more
          ∙ ap (λ (cs : List ℕ). str_from cs (started s) >>= close_str) r
          ∙ ap (λ (o : Out). o >>= close_str) run
          ∙ closed_quote t closed room',
      record {
        put =
            ap (λ w. w ++ t.cc ∷ []) g.put
            ∙ ap (λ c. (s.cc ∷ spell ps) ++ c ∷ []) closed
            ∙ ap (λ c. c ∷ (spell ps ++ 34 ∷ [])) e;
        sized = omega (arith, g.sized, length-append (spell ps) (34 ∷ []));
        left_over = g.left_over;
      },
    )

str_case :
    (keywords : Map (List ℕ) ℕ) (s : Lexer)
    → s.cc ≡ 34
    → switch keywords s ≡ committed str (grab_str s)
unfolding switch other_turn
str_case keywords s e =
    let more : (s.cc == eof_char) ≡ false = ap (λ c. c == eof_char) e in
    let single : find_char s.cc singles ≡ none = ap (λ c. find_char c singles) e in
    let compound : find_char s.cc compounds ≡ none = ap (λ c. find_char c compounds) e in
    let quote : (s.cc == 39) ≡ false = ap (λ c. c == 39) e in
    let quotes : (s.cc == 34) ≡ true = ap (λ c. c == 34) e in
    rw (more, single, compound, quote, quotes) refl

Word-commit :
    (c : ℕ) (word tail : List ℕ) (t : Lexer)
    → Word c word tail t
    → ((commit str t).kind ≡ str) × Word c word tail (commit str t)
unfolding commit
Word-commit c word tail t g =
    (refl, record { put = g.put; sized = g.sized; left_over = g.left_over })

-- On blanks and line ends followed by a double-quoted text of at most 509 characters, made of plain
-- characters (no quotes, backslash, line feed or byte 255) and of escapes other than the escaped
-- backslash, `nnc_lex_next` returns TOK_STR and leaves exactly what stands behind the closing quotes,
-- and `nnc_str_new` reads the token's lexeme as the characters that the text means.
pub next-str_new :
    (keywords : Map (List ℕ) ℕ) (fuel : ℕ) (blanks : List ℕ) (ps : List Piece) (tail : List ℕ)
    (s : Lexer)
    → (s.cc == eof_char) ≡ false
    → s.rest ≡ blanks ++ 34 ∷ (spell ps ++ 34 ∷ tail)
    → all_of is_space blanks ≡ true
    → quotable ps ≡ true
    → length (spell ps) + 3 ≤ tok_buf_max
    → (t : Lexer) × (next keywords (suc fuel) s ≡ kind_of t)
      × (t.kind ≡ str)
      × (t.rest ≡ tail)
      × (str_new t.lexeme ≡ Literal.ok (record { exact = meaning ps; bytes = strlen (meaning ps) }))
next-str_new keywords fuel blanks ps tail s more r a q room =
    let (cc_is, rest_is) = skip-blanks blanks 34 (spell ps ++ 34 ∷ tail) s more r a refl in
    let (t, run, g) = grab_str-Word ps tail (skip s) cc_is rest_is q (omega arith) in
    let (kind_is, h) = Word-commit 34 (spell ps ++ 34 ∷ []) tail t g in
    (
      commit str t,
      next-token keywords fuel s (commit str t)
          (str_case keywords (skip s) cc_is ∙ ap (committed str) run),
      kind_is,
      h.left_over,
      ap str_new h.put ∙ str_new-spell 34 ps,
    )
