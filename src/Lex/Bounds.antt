-- ===== src/Lex/Bounds.antt =====
-- How much the functions of src/nnc_lex.c read and put: no character is put twice, so that the
-- lexeme's buffer overflows only on a longer rest of the file.
use nnc.Common.{
  ℕ, ◌+◌, ◌≤◌, ◌<◌, ◌≡◌, refl, ap, Bool, true, false, if◌then◌else◌, ◌==◌, ltb, List, [], ◌∷◌,
  length, arith, Bool-cases, inl, inr,
}
use nnc.Lex.Stream.{
  Lexer, Out, ok, thrown, fault, ◌>>=◌, eof_char, undo, read, grab_from, grab, tok_clear, put_c,
  put_cc, scan_from, scan, tok_buf_max,
}

-- What is put and what is left, with the character read but not put.
abbrev pub used : Lexer → ℕ
used s = s.size + length s.rest

abbrev pub pending : Lexer → ℕ
pending s = if s.cc == eof_char then 0 else 1

-- Some character is put, and what is read and put together with what is left is at most `n`.
pub record Put (n : ℕ) (s : Lexer) : Type 0 where
  pub some_put : 1 ≤ s.size
  pub bounded : used s ≤ n

pub record Pending (n : ℕ) (s : Lexer) : Type 0 where
  pub some_put : 1 ≤ s.size
  pub bounded : used s + pending s ≤ n

-- `P` holds of a result, an exception leaves at most `n` characters, and a fault needs more than the
-- buffer has.
abbrev pub Within : (Lexer → Type 0) → ℕ → Out → Type 0
Within P n (ok s) = P s
Within P n (thrown e s) = length s.rest ≤ n
Within P n fault = tok_buf_max < n

abbrev pub Holds : ℕ → Out → Type 0
Holds n o = Within (Put n) n o

pub bind_assoc : (o : Out) (f g : Lexer → Out) → ((o >>= f) >>= g) ≡ (o >>= λ s. f s >>= g)
bind_assoc (ok s) f g = refl
bind_assoc (thrown e s) f g = refl
bind_assoc fault f g = refl

pub bind-Within :
    (P : Lexer → Type 0) (n : ℕ) (o : Out) (f : Lexer → Out)
    → Holds n o
    → ((s : Lexer) → Put n s → Within P n (f s))
    → Within P n (o >>= f)
bind-Within P n (ok s) f h k = k s h
bind-Within P n (thrown e s) f h k = h
bind-Within P n fault f h k = h

pub Pending-Put : (n : ℕ) (s : Lexer) → Pending n s → Put n s
Pending-Put n s p = record { some_put = p.some_put; bounded = omega (arith, p.bounded) }

pub grab_from-Pending :
    (n : ℕ) (cs : List ℕ) (s : Lexer)
    → 1 ≤ s.size
    → s.size + length cs ≤ n
    → Pending n (grab_from cs s)
grab_from-Pending n [] s o b = ground arith
grab_from-Pending n (c ∷ cs) s o b = ground arith

pub grab-Pending : (n : ℕ) (s : Lexer) → Put n s → Pending n (grab s)
unfolding grab
grab-Pending n s p = elim (Bool-cases (s.cc == eof_char)) [
  | inl e ↦ rw e (record { some_put = p.some_put; bounded = rw e (omega (arith, p.bounded)) })
  | inr e ↦ rw e (grab_from-Pending n s.rest s p.some_put p.bounded)
]

pub undo-Put : (n : ℕ) (s : Lexer) → Pending n s → Put n (undo s)
unfolding undo
undo-Put n s p = ground arith

pub undo-rest : (n : ℕ) (s : Lexer) → Pending n s → length (undo s).rest ≤ n
undo-rest n s p = omega (arith, (undo-Put n s p).bounded)

pub put_c-Holds :
    (n c : ℕ) (s : Lexer) → Pending n s → (s.cc == eof_char) ≡ false → Holds n (put_c c s)
unfolding put_c
put_c-Holds n c s p h = ground arith

pub put_cc-Holds :
    (n : ℕ) (s : Lexer) → Pending n s → (s.cc == eof_char) ≡ false → Holds n (put_cc s)
unfolding put_cc
put_cc-Holds n s p h = put_c-Holds n s.cc s p h

-- What follows a put finds the same character and the same characters left.
pub then-Within :
    (P : Lexer → Type 0) (n c : ℕ) (s : Lexer) (f : Lexer → Out)
    → Pending n s
    → (s.cc == eof_char) ≡ false
    → ((t : Lexer) → t.rest ≡ s.rest → t.cc ≡ s.cc → Put n t → Within P n (f t))
    → Within P n (put_c c s >>= f)
unfolding put_c
then-Within P n c s f p h k = elim (Bool-cases (ltb s.size tok_buf_max)) [
  | inl e ↦ rw e (k _ refl refl (record { some_put = omega arith; bounded = bound }))
  | inr e ↦ rw e (over e)
]
  where
    bound : s.size + 1 + length s.rest ≤ n
    bound = ground arith

    over : ltb s.size tok_buf_max ≡ false → tok_buf_max < n
    over e = ground arith

-- The first character of a token.
pub start-Holds : (n : ℕ) (s : Lexer) → length s.rest + 1 ≤ n → Holds n (put_cc (tok_clear s))
unfolding put_cc put_c
start-Holds n s h = ground arith

pub not_eof : (c d : ℕ) → (c == d) ≡ true → d < 255 → (c == eof_char) ≡ false
not_eof c d h l = ground arith

pub if-Within :
    (P : Lexer → Type 0) (n : ℕ) (b : Bool) (x y : Out)
    → (b ≡ true → Within P n x)
    → (b ≡ false → Within P n y)
    → Within P n (if b then x else y)
if-Within P n true x y h k = h refl
if-Within P n false x y h k = k refl

module _ (n : ℕ) (class : ℕ → Bool) (leave : Lexer → Out)
    (leaves : (t : Lexer) → Pending n t → Holds n (leave t)) where
  scan_from-Holds :
      (cs : List ℕ) (s : Lexer)
      → 1 ≤ s.size
      → s.size + length cs ≤ n
      → Holds n (scan_from class leave cs s)
  unfolding scan_from put_cc
  scan_from-Holds [] s o b = record { some_put = o; bounded = omega arith }
  scan_from-Holds (c ∷ cs) s o b =
      let t = read c cs s in
      let p = grab_from-Pending n (c ∷ cs) s o b in
      if-Within (Put n) n (c == eof_char) _ _ (λ e. Pending-Put n t p)
        (λ e.
          if-Within (Put n) n (class c) _ _
            (λ h. then-Within (Put n) n c t (scan_from class leave cs) p e (λ u same here q.
              scan_from-Holds cs u q.some_put (omega (arith, ap length same, q.bounded))))
            (λ h. leaves t p))

  pub scan-Holds : (s : Lexer) → Put n s → Holds n (scan class leave s)
  unfolding scan
  scan-Holds s p =
      if-Within (Put n) n (s.cc == eof_char) _ _ (λ e. p)
        (λ e. scan_from-Holds s.rest s p.some_put p.bounded)

pub pass-Within :
    (P Q : Lexer → Type 0) (n : ℕ) (o : Out) (f : Lexer → Out)
    → Within P n o
    → ((s : Lexer) → P s → Within Q n (f s))
    → Within Q n (o >>= f)
pass-Within P Q n (ok s) f h k = k s h
pass-Within P Q n (thrown e s) f h k = h
pass-Within P Q n fault f h k = h

pub at_eof-Pending : (n : ℕ) (s : Lexer) → Put n s → (s.cc == eof_char) ≡ true → Pending n s
at_eof-Pending n s p e = record { some_put = p.some_put; bounded = rw e (omega (arith, p.bounded)) }
