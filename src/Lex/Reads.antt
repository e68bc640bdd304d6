-- ===== src/Lex/Reads.antt =====
-- What the loops of src/nnc_lex.c leave on a file that starts with given characters.
use nnc.Common.{
  ℕ, suc, ◌+◌, ◌≤◌, ◌≡◌, refl, ap, Bool, true, false, ◌&&◌, not, ◌==◌, List, [], ◌∷◌, ◌++◌, length,
  ◌<◌, arith, inl, inr, sym, ◌∙◌, ==_iff, Bool-cases,
}
use nnc.Lex.Stream.{
  Lexer, Out, ok, ◌>>=◌, eof_char, tok_buf_max, undo, read, grab_from, grab, tok_clear, put_c,
  put_cc, scan_from, scan,
}

abbrev pub all_of : (ℕ → Bool) → List ℕ → Bool
all_of class [] = true
all_of class (c ∷ cs) = class c && all_of class cs

-- Nothing, or text that starts with a character that is not in the class, and not the byte 255.
abbrev pub ends_class : (ℕ → Bool) → List ℕ → Bool
ends_class class [] = true
ends_class class (c ∷ cs) = not (class c) && not (c == eof_char)

-- The first character behind the word is read, if there is one.
abbrev pub Stopped : List ℕ → Lexer → Type 0
Stopped [] t = (t.cc ≡ eof_char) × (t.rest ≡ [])
Stopped (c ∷ cs) t = (t.cc ≡ c) × (t.rest ≡ cs)

pub record Scanned (s : Lexer) (word tail : List ℕ) (t : Lexer) : Type 0 where
  pub put : t.lexeme ≡ s.lexeme ++ word
  pub sized : t.size ≡ s.size + length word
  pub stopped : Stopped tail t

abbrev pub left : (Lexer → Out) → List ℕ → Lexer → Out
left leave [] t = ok t
left leave (c ∷ cs) t = leave t

pub append_step : (xs ys : List ℕ) (c : ℕ) → (xs ++ c ∷ []) ++ ys ≡ xs ++ c ∷ ys
append_step [] ys c = refl
append_step (x ∷ xs) ys c = ap (λ zs. x ∷ zs) (append_step xs ys c)

pub append_nil : (xs : List ℕ) → xs ++ [] ≡ xs
append_nil [] = refl
append_nil (x ∷ xs) = ap (λ zs. x ∷ zs) (append_nil xs)

pub put_fits :
    (c : ℕ) (s : Lexer)
    → suc s.size ≤ tok_buf_max
    → put_c c s ≡ ok (record s { lexeme = s.lexeme ++ c ∷ []; size = s.size + 1 })
unfolding put_c
put_fits c s h = ground arith

pub not_eof :
    (class : ℕ → Bool) (c : ℕ) → class eof_char ≡ false → class c ≡ true → (c == eof_char) ≡ false
not_eof class c e h = elim (Bool-cases (c == eof_char)) [
  | inl same ↦ absurd (cc ((==_iff c eof_char).0 same, e, h))
  | inr other ↦ other
]

-- The word is put and the character behind it is read.
pub scan_from-Scanned :
    (class : ℕ → Bool) (leave : Lexer → Out) (word tail : List ℕ) (s : Lexer)
    → class eof_char ≡ false
    → all_of class word ≡ true
    → ends_class class tail ≡ true
    → s.size + length word ≤ tok_buf_max
    → (t : Lexer) × Scanned s word tail t
      × (scan_from class leave (word ++ tail) s ≡ left leave tail t)
unfolding scan_from put_cc
scan_from-Scanned class leave [] [] s e a b room = (
  read eof_char [] s,
  record { put = sym (append_nil s.lexeme); sized = omega arith; stopped = (refl, refl) },
  refl,
)
scan_from-Scanned class leave [] (c ∷ cs) s e a b room =
    let other : class c ≡ false = ground arith in
    let more : (c == eof_char) ≡ false = ground arith in
    (
      read c cs s,
      record { put = sym (append_nil s.lexeme); sized = omega arith; stopped = (refl, refl) },
      rw (more, other) refl,
    )
scan_from-Scanned class leave (c ∷ word) tail s e a b room =
    let here : class c ≡ true = ground arith in
    let more = not_eof class c e here in
    let r = read c (word ++ tail) s in
    let (t, g, run) =
      scan_from-Scanned class leave word tail
        (record r { lexeme = s.lexeme ++ c ∷ []; size = s.size + 1 }) e (ground arith) b
        (omega arith) in
    (
      t,
      record {
        put = g.put ∙ append_step s.lexeme word c;
        sized = omega (arith, g.sized);
        stopped = g.stopped;
      },
      rw (more, here, put_fits c r (omega arith)) run,
    )

pub scan-Scanned :
    (class : ℕ → Bool) (leave : Lexer → Out) (word tail : List ℕ) (s : Lexer)
    → class eof_char ≡ false
    → (s.cc == eof_char) ≡ false
    → s.rest ≡ word ++ tail
    → all_of class word ≡ true
    → ends_class class tail ≡ true
    → s.size + length word ≤ tok_buf_max
    → (t : Lexer) × Scanned s word tail t × (scan class leave s ≡ left leave tail t)
unfolding scan
scan-Scanned class leave word tail s e more r a b room =
    let (t, g, run) = scan_from-Scanned class leave word tail s e a b room in
    (t, g, rw more (ap (λ rest. scan_from class leave rest s) r ∙ run))

pub left-ok : (tail : List ℕ) (t : Lexer) → left ok tail t ≡ ok t
left-ok [] t = refl
left-ok (c ∷ cs) t = refl

-- The state behind the first character of a token.
abbrev pub started : Lexer → Lexer
started s = record s { lexeme = s.cc ∷ []; size = 1 }

pub put_cc-started : (s : Lexer) → put_cc (tok_clear s) ≡ ok (started s)
unfolding put_cc put_c
put_cc-started s = refl

-- Behind a scan that stops on any other character, `nnc_lex_undo` leaves the tail to be read.
pub undo-Stopped :
    (class : ℕ → Bool) (tail : List ℕ) (t : Lexer)
    → ends_class class tail ≡ true
    → Stopped tail t
    → (undo t).rest ≡ tail
unfolding undo
undo-Stopped class [] t b (c, r) = rw c r
undo-Stopped class (d ∷ ds) t b (c, r) =
    let more : (d == eof_char) ≡ false = ground arith in rw (c, more, r) refl

-- A token's first character and a scan behind it.
pub start-Scanned :
    (class : ℕ → Bool) (leave : Lexer → Out) (word tail : List ℕ) (s : Lexer)
    → class eof_char ≡ false
    → (s.cc == eof_char) ≡ false
    → s.rest ≡ word ++ tail
    → all_of class word ≡ true
    → ends_class class tail ≡ true
    → length word < tok_buf_max
    → (t : Lexer) × Scanned (started s) word tail t
      × ((put_cc (tok_clear s) >>= scan class leave) ≡ left leave tail t)
start-Scanned class leave word tail s e more r a b room =
    let (t, g, run) = scan-Scanned class leave word tail (started s) e more r a b (omega arith) in
    (t, g, ap (λ (o : Out). o >>= scan class leave) (put_cc-started s) ∙ run)

-- Characters are put and exactly `tail` is left.
pub record Appended (s : Lexer) (word tail : List ℕ) (t : Lexer) : Type 0 where
  pub put : t.lexeme ≡ s.lexeme ++ word
  pub sized : t.size ≡ s.size + length word
  pub left_over : t.rest ≡ tail

pub grab_more :
    (d : ℕ) (ds : List ℕ) (s : Lexer)
    → (s.cc == eof_char) ≡ false
    → s.rest ≡ d ∷ ds
    → grab s ≡ read d ds s
unfolding grab
grab_more d ds s more r = rw more (ap (λ (cs : List ℕ). grab_from cs s) r)

-- The character that was read is given back.
pub undo-grab :
    (s : Lexer)
    → (s.cc == eof_char) ≡ false
    → ends_class (λ c. false) s.rest ≡ true
    → ((undo (grab s)).cc ≡ s.cc) × ((undo (grab s)).rest ≡ s.rest)
unfolding grab undo
undo-grab s more b = rw more (back s.rest b)
  where
    back :
        (cs : List ℕ)
        → ends_class (λ c. false) cs ≡ true
        → ((undo (grab_from cs s)).cc ≡ s.cc) × ((undo (grab_from cs s)).rest ≡ cs)
    back [] b = (refl, refl)
    back (c ∷ cs) b = let other : (c == eof_char) ≡ false = ground arith in rw other (refl, refl)

-- A lexeme, by its first character, and what is left behind it.
pub record Word (c : ℕ) (word tail : List ℕ) (t : Lexer) : Type 0 where
  pub put : t.lexeme ≡ c ∷ word
  pub sized : t.size ≡ suc (length word)
  pub left_over : t.rest ≡ tail

-- The state behind a character that is put.
abbrev pub put_on : ℕ → Lexer → Lexer
put_on c s = record s { lexeme = s.lexeme ++ c ∷ []; size = s.size + 1 }

pub put_cc-put_on : (s : Lexer) → suc s.size ≤ tok_buf_max → put_cc s ≡ ok (put_on s.cc s)
unfolding put_cc
put_cc-put_on s room = put_fits s.cc s room
