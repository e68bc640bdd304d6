-- ===== src/Literal/Strings.antt =====
-- Round trips of the character and string literals of src/nnc_literal.c.
use nnc.Common.{ℕ, ◌≡◌, ◌∙◌, refl, sym, ap, false, ◌==◌, List, [], ◌∷◌, ◌++◌, get_or, arith}
use nnc.Literal.Buffer.{zip_freely, literal, str_new_quoted}
use nnc.Literal.{ok, ◌>>=◌, backslash, get_esc_chr, char_at, chr_new, strlen, str_new}

-- The escapes of the language but the escaped backslash.
pub data Escape : Type 0 where
  esc_zero esc_alert esc_back esc_feed esc_tab esc_vertical esc_return esc_line esc_quote
        esc_quotes :
      Escape

abbrev pub letter : Escape → ℕ
letter esc_zero = 48
letter esc_alert = 97
letter esc_back = 98
letter esc_feed = 102
letter esc_tab = 116
letter esc_vertical = 118
letter esc_return = 114
letter esc_line = 110
letter esc_quote = 39
letter esc_quotes = 34

abbrev pub code : Escape → ℕ
code esc_zero = 0
code esc_alert = 7
code esc_back = 8
code esc_feed = 12
code esc_tab = 9
code esc_vertical = 11
code esc_return = 13
code esc_line = 10
code esc_quote = 39
code esc_quotes = 34

-- A piece of a string's text.
pub data Piece : Type 0 where
  plain : (c : ℕ) → (c == backslash) ≡ false → Piece
  escape : Escape → Piece

abbrev pub spell : List Piece → List ℕ
spell [] = []
spell (plain c p ∷ ps) = c ∷ spell ps
spell (escape e ∷ ps) = backslash ∷ letter e ∷ spell ps

abbrev pub meaning : List Piece → List ℕ
meaning [] = []
meaning (plain c p ∷ ps) = c ∷ meaning ps
meaning (escape e ∷ ps) = code e ∷ meaning ps

get_esc_chr-letter : (e : Escape) → get_esc_chr (letter e) ≡ ok (code e)
unfolding get_esc_chr
get_esc_chr-letter e = ground arith

letter_ne_backslash : (e : Escape) → (letter e == backslash) ≡ false
letter_ne_backslash e = ground arith

zip_freely-spell : (ps : List Piece) → zip_freely false (spell ps) ≡ ok (meaning ps)
unfolding zip_freely
zip_freely-spell [] = refl
zip_freely-spell (plain c p ∷ ps) = rw (p, zip_freely-spell ps)
zip_freely-spell (escape e ∷ ps) =
    rw (get_esc_chr-letter e, letter_ne_backslash e, zip_freely-spell ps)

-- A quoted text of plain characters and escapes other than the escaped backslash is read as the
-- characters it means, and its byte count is that of the characters before the first zero.
pub str_new-spell :
    (q : ℕ) (ps : List Piece)
    → str_new (q ∷ spell ps ++ q ∷ [])
      ≡ ok (record { exact = meaning ps; bytes = strlen (meaning ps) })
str_new-spell q ps = str_new_quoted q (spell ps) ∙ ap (λ r. r >>= literal) (zip_freely-spell ps)

zip_backslash :
    (cs : List ℕ)
    → zip_freely false (backslash ∷ backslash ∷ cs) ≡ zip_freely false (backslash ∷ cs)
unfolding zip_freely get_esc_chr
zip_backslash cs = refl

-- An escaped backslash in front of any text is read like one backslash in front of it: no character
-- is written for it, and the next character is taken as an escape.
pub str_new-backslash :
    (q : ℕ) (cs : List ℕ)
    → str_new (q ∷ (backslash ∷ backslash ∷ cs) ++ q ∷ [])
      ≡ str_new (q ∷ (backslash ∷ cs) ++ q ∷ [])
str_new-backslash q cs =
    str_new_quoted q (backslash ∷ backslash ∷ cs)
    ∙ ap (λ r. r >>= literal) (zip_backslash cs)
    ∙ sym (str_new_quoted q (backslash ∷ cs))

-- A quoted character is read as itself, a quoted escape as the character it means, the escaped
-- backslash included.
pub chr_new-spell :
    (q : ℕ) (p : Piece)
    → (chr_new (q ∷ spell (p ∷ []) ++ q ∷ []) ≡ ok (get_or (meaning (p ∷ [])) 0 0))
      × (chr_new (q ∷ backslash ∷ backslash ∷ q ∷ []) ≡ ok backslash)
unfolding chr_new char_at get_esc_chr
chr_new-spell q (plain c p) = (rw p refl, refl)
chr_new-spell q (escape e) = (get_esc_chr-letter e, refl)
