-- ===== src/Lex/Token.antt =====
-- The token kinds of src/nnc_lex.h and the tables of src/nnc_lex.c.
use nnc.Common.{ℕ}

-- `nnc_tok_kind`; `keyword i` is the kind TOK_AS + i, from TOK_AS to TOK_ELSE.
pub data Tok : Type 0 where
  ampersand and assign asterisk atpersand cbrace cbracket chr circumflex colon comma cparen : Tok
  dollar dot dcolon eof eq excmark grave gt gte ident lshift lt lte minus neq number : Tok
  obrace obracket oparen or percent plus question quote quotes rshift semicolon sign slash : Tok
  str tilde underscore vline : Tok
  keyword : ℕ → Tok
