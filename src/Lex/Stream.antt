-- ===== src/Lex/Stream.antt =====
-- The state of the lexer of src/nnc_lex.c and how it moves over the file. A character is its 8-bit
-- pattern, and EOF, the `char` -1, is 255. The file is the list of its bytes that are left.
use nnc.Common.{ℕ, ◌+◌, ◌-◌, ◌%◌, ◌^◌, Bool, ◌||◌, if◌then◌else◌, ◌==◌, ltb, List, [], ◌∷◌, ◌++◌}
use nnc.Lex.Token.{Tok}

-- `nnc_lex` with its `nnc_ctx` and `nnc_tok`. `lexeme` is what was put into the buffer since it was
-- cleared, `size` the field of this name.
pub record Lexer : Type 0 where
  pub rest : List ℕ
  pub cc : ℕ
  pub pc : ℕ
  pub hint_ln : ℕ
  pub hint_ch : ℕ
  pub kind : Tok
  pub size : ℕ
  pub lexeme : List ℕ

-- The exceptions of the lexer.
pub data LexError : Type 0 where
  bad_esc bad_chr bad_str bad_exp bad_float bad_suffix : LexError

-- `fault` is a write outside the lexeme's buffer.
pub data Out : Type 0 where
  ok : Lexer → Out
  thrown : LexError → Lexer → Out
  fault : Out

infixl 5 ◌>>=◌
abbrev pub ◌>>=◌ : Out → (Lexer → Out) → Out
ok s >>= f = f s
thrown e s >>= f = thrown e s
fault >>= f = fault

abbrev pub eof_char : ℕ
eof_char = 255

abbrev pub tok_buf_max : ℕ
tok_buf_max = 512

abbrev pub u16_mod : ℕ
u16_mod = 2 ^ 16

abbrev pub u32_mod : ℕ
u32_mod = 2 ^ 32

-- `nnc_lex_undo`: `ungetc` of EOF does nothing, and gives any other character back.
unfoldable pub undo : Lexer → Lexer
undo s = record s {
  rest = if s.cc == eof_char then s.rest else s.cc ∷ s.rest;
  cc = s.pc;
  hint_ch = (s.hint_ch + (u32_mod - 1)) % u32_mod;
}

-- The character `c` is read and `cs` is left.
abbrev pub read : ℕ → List ℕ → Lexer → Lexer
read c cs s = record s { rest = cs; pc = s.cc; cc = c; hint_ch = (s.hint_ch + 1) % u32_mod }

-- `fgetc` and the assignments around it.
abbrev pub grab_from : List ℕ → Lexer → Lexer
grab_from [] s = read eof_char [] s
grab_from (c ∷ cs) s = read c cs s

unfoldable pub grab : Lexer → Lexer
grab s = if s.cc == eof_char then s else grab_from s.rest s

abbrev pub new_line : Lexer → Lexer
new_line s = record s { hint_ln = (s.hint_ln + 1) % u16_mod; hint_ch = 1 }

-- Space, \a, \b, \f, \t, \v and \r.
abbrev pub is_blank : ℕ → Bool
is_blank c = c == 32 || c == 7 || c == 8 || c == 12 || c == 9 || c == 11 || c == 13

-- The loop of `nnc_lex_skip` over the bytes that are left.
unfoldable pub skip_from : List ℕ → Lexer → Lexer
skip_from [] s = read eof_char [] s
skip_from (c ∷ cs) s =
    let t = read c cs s in
    let further = skip_from cs (if c == 10 then new_line t else t) in
    if c == eof_char then t else (if is_blank c || c == 10 then further else t)

unfoldable pub skip : Lexer → Lexer
unfolding skip_from
skip s = if s.cc == eof_char then s else skip_from s.rest s

abbrev pub tok_clear : Lexer → Lexer
tok_clear s = record s { size = 0; lexeme = [] }

unfoldable pub skip_line_from : List ℕ → Lexer → Lexer
skip_line_from [] s = read eof_char [] s
skip_line_from (c ∷ cs) s =
    let t = read c cs s in
    let further = skip_line_from cs t in if c == eof_char || c == 10 then t else further

unfoldable pub skip_line : Lexer → Lexer
unfolding skip_line_from
skip_line s = new_line (if s.cc == eof_char then s else skip_line_from s.rest s)

-- `nnc_lex_recover`
abbrev pub recover : Lexer → Lexer
recover s = skip_line s

-- NNC_TOK_PUT_C and NNC_TOK_PUT_CC. The buffer is cleared before a token is put into it, so that
-- `size` is where its contents end.
unfoldable pub put_c : ℕ → Lexer → Out
put_c c s =
    if ltb s.size tok_buf_max
    then ok (record s { lexeme = s.lexeme ++ c ∷ []; size = s.size + 1 })
    else fault

unfoldable pub put_cc : Lexer → Out
unfolding put_c
put_cc s = put_c s.cc s

-- `while (nnc_lex_grab(lex) != EOF)` over a class of characters that are put: at the first other
-- character `leave` is done, at the end of the file nothing.
unfoldable pub scan_from : (ℕ → Bool) → (Lexer → Out) → List ℕ → Lexer → Out
unfolding put_cc
scan_from class leave [] s = ok (read eof_char [] s)
scan_from class leave (c ∷ cs) s =
    let t = read c cs s in
    let further = put_cc t >>= scan_from class leave cs in
    if c == eof_char then ok t else (if class c then further else leave t)

unfoldable pub scan : (ℕ → Bool) → (Lexer → Out) → Lexer → Out
unfolding scan_from
scan class leave s = if s.cc == eof_char then ok s else scan_from class leave s.rest s
