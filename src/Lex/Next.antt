-- ===== src/Lex/Next.antt =====
-- The switch of `nnc_lex_next` in src/nnc_lex.c. `keywords` is the map `nnc_keywods_map`, from the
-- text of a keyword to its number.
use nnc.Common.{
  ℕ, zero, suc, Bool, true, false, if◌then◌else◌, ◌==◌, List, [], ◌∷◌, Option, none, some,
}
use nnc.Hash.{str_key}
use nnc.Map.{Map, has, get, ◌>>=◌}
use nnc.Map as Table
use nnc.Lex.Token.{
  Tok, ampersand, and, assign, asterisk, atpersand, cbrace, cbracket, chr, circumflex, colon, comma,
  cparen, dollar, dot, dcolon, eof, eq, excmark, grave, gt, gte, ident, lshift, lt, lte, minus, neq,
  number, obrace, obracket, oparen, or, percent, plus, question, rshift, semicolon, sign, slash,
  str, tilde, vline, keyword,
}
use nnc.Lex.Stream.{Lexer, LexError, Out, eof_char, undo, grab, skip, skip_line, recover}
use nnc.Lex.Stream as Stream
use nnc.Lex.Grab.{is_digit, is_letter, grab_chr, grab_str, grab_number, grab_word}

-- `nnc_tok_sizes`, none for the kinds whose size is what was put.
abbrev pub tok_sizes : Tok → Option ℕ
tok_sizes and = some 2
tok_sizes dcolon = some 2
tok_sizes eof = some 0
tok_sizes gte = some 2
tok_sizes lte = some 2
tok_sizes lshift = some 2
tok_sizes neq = some 2
tok_sizes or = some 2
tok_sizes rshift = some 2
tok_sizes chr = none
tok_sizes str = none
tok_sizes ident = none
tok_sizes number = none
tok_sizes (keyword i) = none
tok_sizes _ = some 1

unfoldable pub commit : Tok → Lexer → Lexer
commit k s = record s { kind = k; size = elim (tok_sizes k) [ none ↦ s.size | some n ↦ n ] }

-- The state behind `nnc_lex_adjust`, and whether the next character was `c`.
unfoldable pub adjust : ℕ → Lexer → Lexer × Bool
adjust c s =
    if s.cc == eof_char
    then (s, false)
    else (let t = grab s in if t.cc == c then (t, true) else (undo t, false))

-- The chain of NNC_LEX_ADJUST for one first character.
unfoldable pub choose : List (ℕ × Tok) → Tok → Lexer → Lexer
choose [] k s = commit k s
choose ((c, j) ∷ more) k s =
    let rest = choose more k (adjust c s).0 in
    if (adjust c s).1 then commit j (adjust c s).0 else rest

abbrev pub find_char {ℓ} : {A : Type ℓ} → ℕ → List (ℕ × A) → Option A
find_char c [] = none
find_char c ((d, a) ∷ more) = if d == c then some a else find_char c more

abbrev pub singles : List (ℕ × Tok)
singles =
    (42, asterisk)
    ∷ (64, atpersand)
    ∷ (125, cbrace)
    ∷ (93, cbracket)
    ∷ (94, circumflex)
    ∷ (44, comma)
    ∷ (41, cparen)
    ∷ (36, dollar)
    ∷ (46, dot)
    ∷ (96, grave)
    ∷ (45, minus)
    ∷ (123, obrace)
    ∷ (91, obracket)
    ∷ (40, oparen)
    ∷ (37, percent)
    ∷ (43, plus)
    ∷ (63, question)
    ∷ (59, semicolon)
    ∷ (35, sign)
    ∷ (126, tilde)
    ∷ []

-- A first character's own kind, and the second characters of its longer tokens in order.
pub record Compound : Type 0 where
  pub plain : Tok
  pub longer : List (ℕ × Tok)

abbrev pub compounds : List (ℕ × Compound)
compounds =
    (60, record { plain = lt; longer = (61, lte) ∷ (60, lshift) ∷ [] })
    ∷ (62, record { plain = gt; longer = (61, gte) ∷ (62, rshift) ∷ [] })
    ∷ (58, record { plain = colon; longer = (58, dcolon) ∷ [] })
    ∷ (61, record { plain = assign; longer = (61, eq) ∷ [] })
    ∷ (33, record { plain = excmark; longer = (61, neq) ∷ [] })
    ∷ (38, record { plain = ampersand; longer = (38, and) ∷ [] })
    ∷ (124, record { plain = vline; longer = (124, or) ∷ [] })
    ∷ []

-- What one pass through the switch ends with.
pub data Turn : Type 0 where
  token : Lexer → Turn
  comment : Lexer → Turn
  failed : LexError → Lexer → Turn
  faulted : Turn

abbrev pub committed : Tok → Out → Turn
committed k (Stream.ok s) = token (commit k s)
committed k (Stream.thrown e s) = failed e s
committed k Stream.fault = faulted

unfoldable pub slash_turn : Lexer → Turn
slash_turn s =
    if (adjust 47 s).1
    then comment (skip_line (adjust 47 s).0)
    else token (commit slash (adjust 47 s).0)

-- A token with its kind, or a write outside the lexeme's buffer.
pub data Next : Type 0 where
  kind_of : Lexer → Next
  overrun : Next
  out_of_fuel : Next

module _ (keywords : Map (List ℕ) ℕ) where
  -- The kind of an identifier's lexeme: NNC_IS_KEYWORD and NNC_GET_KEYWORD_KIND.
  unfoldable pub word_kind : List ℕ → Table.Run Tok
  word_kind w =
      if has keywords w then (get keywords w >>= λ i. Table.ok (keyword i)) else Table.ok ident

  -- The token of an identifier's lexeme; what goes wrong in the map is a fault.
  abbrev pub word_token : Lexer → Table.Run Tok → Turn
  word_token s (Table.ok k) = token (commit k s)
  word_token s Table.fault = faulted
  word_token s Table.null_read = faulted
  word_token s Table.out_of_fuel = faulted

  abbrev pub word_turn : Out → Turn
  word_turn (Stream.ok s) = word_token s (word_kind s.lexeme)
  word_turn (Stream.thrown e s) = failed e s
  word_turn Stream.fault = faulted

  -- The cases of the switch behind the simple and the compound tokens. Without a case for the
  -- character the token before is returned again.
  unfoldable pub other_turn : Lexer → Turn
  other_turn s =
      if s.cc == 39
      then committed chr (grab_chr s)
      else (if s.cc == 34
          then committed str (grab_str s)
          else (if is_digit s.cc
              then committed number (grab_number s)
              else (if is_letter s.cc
                  then word_turn (grab_word s)
                  else (if s.cc == 47 then slash_turn s else token s))))

  unfoldable pub switch : Lexer → Turn
  switch s = if s.cc == eof_char then token (commit eof s) else elim (find_char s.cc singles) [
    | some k ↦ token (commit k s)
    | none ↦ elim (find_char s.cc compounds) [
      | some c ↦ token (choose c.longer c.plain s)
      | none ↦ other_turn s
    ]
  ]

  -- `nnc_lex_next`: it calls itself behind a comment and behind an error.
  unfoldable pub next : ℕ → Lexer → Next
  next zero s = out_of_fuel
  next (suc fuel) s = elim (switch (skip s)) [
    | token t ↦ kind_of t
    | comment t ↦ next fuel t
    | failed e t ↦ next fuel (recover t)
    | faulted ↦ overrun
  ]
