-- ===== src/Lex/Tests.antt =====
-- The lexer's theorems at concrete texts.
use nnc.Common.{
  ℕ, ◌≡◌, ◌∙◌, refl, sym, ap, true, List, [], ◌∷◌, ◌++◌, length, replicate, none, arith,
}
use nnc.Hash.{str_key, str_same}
use nnc.Map.{Map, init}
use nnc.Map as Table
use nnc.Map.Model.{Models, init-Models}
use nnc.Lex.Token
use nnc.Lex.Token.{Tok, eof, ident, str, keyword}
use nnc.Lex.Stream.{Lexer}
use nnc.Lex.Next.{next, kind_of, overrun}
use nnc.Lex.Keywords.{codes, nnc_keywords, index, init_keywords, map_cap, init_keywords-Models}
use nnc.Lex.Reads.{Word}
use nnc.Lex.Words.{kind_at, next-Word}
use nnc.Lex.IntTokens.{next-int_new}
use nnc.Lex.StrTokens.{next-str_new}
use nnc.Lex.Overruns.{next-overrun}
use nnc.Lex.Ends.{Ends, next-Ends}
use nnc.Literal.{str_new, strlen}
use nnc.Literal as Literal
use nnc.Literal.Strings.{Piece, plain, escape, esc_line, meaning}
use nnc.Literal.Ints.{suffix_u8, int_new, or_default}
use nnc.Literal.Ints.Suffix.{hex, base_of, number}
use nnc.Literal.Ints.Value.{bounded}
use nnc.Literal.Conversion.{strtoll, strtoull, conversion}

-- A lexer at the start of a file.
abbrev start : List ℕ → Lexer
start text = record {
  rest = text;
  cc = 0;
  pc = 0;
  hint_ln = 1;
  hint_ch = 0;
  kind = eof;
  size = 0;
  lexeme = [];
}

abbrev no_keywords : Map (List ℕ) ℕ
no_keywords = init 8

-- A string that is not closed, an error, and the end of the file.
next-Ends_example : Ends (start (codes "\"a")) (next no_keywords 4 (start (codes "\"a")))
next-Ends_example =
    next-Ends no_keywords (λ q. none) (init-Models 8 (omega arith)) 4 (start (codes "\"a"))
      (omega arith)

init_keywords-Models_example :
    (m : Map (List ℕ) ℕ) × (init_keywords nnc_keywords ≡ Table.ok m)
    × Models (index nnc_keywords 0) m
    × (m.len ≡ length nnc_keywords)
    × (m.cap ≡ map_cap nnc_keywords)
unfolding str_same
init_keywords-Models_example = init_keywords-Models nnc_keywords (omega arith) (omega arith) refl

abbrev map_of : Table.Run (Map (List ℕ) ℕ) → Map (List ℕ) ℕ
map_of (Table.ok m) = m
map_of Table.fault = no_keywords
map_of Table.null_read = no_keywords
map_of Table.out_of_fuel = no_keywords

abbrev keywords : Map (List ℕ) ℕ
keywords = map_of (init_keywords nnc_keywords)

keywords_built : init_keywords nnc_keywords ≡ Table.ok keywords
unfolding str_same
keywords_built =
    let (m, run, _, _, _) = init_keywords-Models nnc_keywords (omega arith) (omega arith) refl in
    run ∙ ap Table.ok (sym (ap map_of run))

-- The keyword `while` and a word that only starts like it.
next-Word_example :
    (t : Lexer) × (next keywords 1 (start (codes " while(")) ≡ kind_of t)
    × (t.kind ≡ kind_at (index nnc_keywords 0 (codes "while")))
    × Word 119 (codes "hile") (codes "(") t
next-Word_example =
    next-Word keywords 0 (codes " ") 119 (codes "hile") (codes "(") (start (codes " while("))
      keywords_built refl refl refl refl refl refl (omega arith)

while_kind : kind_at (index nnc_keywords 0 (codes "while")) ≡ keyword 39
unfolding str_same
while_kind = refl

whiles_kind : kind_at (index nnc_keywords 0 (codes "whiles")) ≡ ident
unfolding str_same
whiles_kind = refl

-- 0xFfU8;
next-int_new_example :
    (t : Lexer) × (next no_keywords 1 (start (codes "0xFfU8;")) ≡ kind_of t)
    × (t.kind ≡ Token.number)
    × (t.rest ≡ codes ";")
    × (int_new strtoll strtoull t.lexeme
        ≡ bounded (base_of hex) (or_default suffix_u8) (number (base_of hex) (codes "Ff") 0))
next-int_new_example =
    next-int_new strtoll strtoull conversion no_keywords 0 [] hex 70 (codes "f") true suffix_u8
      (codes ";") (start (codes "0xFfU8;")) refl refl refl refl refl (omega arith)

abbrev text : List Piece
text = plain 97 refl ∷ escape esc_line ∷ []

next-str_new_example :
    (t : Lexer) × (next no_keywords 1 (start (codes " \"a\\n\")")) ≡ kind_of t)
    × (t.kind ≡ str)
    × (t.rest ≡ codes ")")
    × (str_new t.lexeme
        ≡ Literal.ok (record { exact = meaning text; bytes = strlen (meaning text) }))
next-str_new_example =
    next-str_new no_keywords 0 (codes " ") text (codes ")") (start (codes " \"a\\n\")")) refl refl
      refl refl (omega arith)

abbrev long_word : List ℕ
long_word = replicate 512 97

next-overrun_example : next no_keywords 1 (start (97 ∷ (long_word ++ codes " "))) ≡ overrun
next-overrun_example =
    next-overrun no_keywords 0 [] 97 long_word (codes " ") (start (97 ∷ (long_word ++ codes " ")))
      refl refl refl refl refl (omega arith)
