-- ===== src/Lex/Grabs.antt =====
-- Every function of src/nnc_lex.c that reads a token stays within the bounds of Bounds.
use nnc.Common.{
  ℕ, ◌+◌, ◌≤◌, ◌≡◌, refl, sym, ap, ◌∙◌, true, false, ◌||◌, if◌then◌else◌, ◌==◌, List, [], ◌∷◌,
  length, arith, Bool-cases, inl, inr,
}
use nnc.Lex.Stream.{
  Lexer, Out, ok, thrown, fault, ◌>>=◌, eof_char, read, grab_from, grab, tok_clear, put_c, put_cc,
}
use nnc.Lex.Grab.{
  is_esc, grab_esc, put_esc, chr_body, close_chr, grab_chr, str_from, close_str, grab_str,
}
use mathlib.Core.Path.{subst}
use nnc.Lex.Bounds.{
  pass-Within, at_eof-Pending, bind_assoc, Put, Pending, Holds, Within, bind-Within,
  grab_from-Pending, grab-Pending, undo-rest, put_c-Holds, put_cc-Holds, then-Within, start-Holds,
  not_eof, if-Within,
}

-- A character that passes one of the tests is not EOF.
esc_not_eof : (c : ℕ) → is_esc c ≡ true → (c == eof_char) ≡ false
esc_not_eof c h = ground arith

grab_esc-Holds : (n : ℕ) (s : Lexer) → Pending n s → Holds n (grab_esc s >>= put_cc)
unfolding grab_esc
grab_esc-Holds n s p = elim (Bool-cases (is_esc s.cc)) [
  | inl e ↦ rw e (put_cc-Holds n s p (esc_not_eof s.cc e))
  | inr e ↦ rw e (undo-rest n s p)
]

put_esc-Holds : (n : ℕ) (s : Lexer) → Pending n s → (s.cc == 92) ≡ true → Holds n (put_esc s)
unfolding put_esc
put_esc-Holds n s p h =
    bind-Within (Put n) n (put_cc s) _ (put_cc-Holds n s p (not_eof s.cc 92 h (omega arith)))
      (λ t q. grab_esc-Holds n (grab t) (grab-Pending n t q))

grab_then-Within :
    (P : Lexer → Type 0) (n : ℕ) (o : Out) (f : Lexer → Out)
    → Holds n o
    → ((t : Lexer) → Pending n t → Within P n (f t))
    → Within P n ((o >>= λ t. ok (grab t)) >>= f)
grab_then-Within P n (ok s) f h k = k (grab s) (grab-Pending n s h)
grab_then-Within P n (thrown e s) f h k = h
grab_then-Within P n fault f h k = h

chr_put-Holds :
    (n : ℕ) (s : Lexer)
    → Pending n s
    → (s.cc == eof_char) ≡ false
    → Holds n (if s.cc == 92 then put_esc s else put_c s.cc s)
chr_put-Holds n s p e =
    if-Within (Put n) n (s.cc == 92) _ _ (put_esc-Holds n s p) (λ h. put_c-Holds n s.cc s p e)

chr_body-Holds :
    (n : ℕ) (s : Lexer) (f : Lexer → Out)
    → Pending n s
    → ((t : Lexer) → Pending n t → Holds n (f t))
    → Holds n (chr_body s >>= f)
unfolding chr_body
chr_body-Holds n s f p k = elim (Bool-cases (s.cc == eof_char)) [
  | inl e ↦ rw e (k s p)
  | inr e ↦ rw e (grab_then-Within (Put n) n _ f (chr_put-Holds n s p e) k)
]

close_chr-Holds : (n : ℕ) (s : Lexer) → Pending n s → Holds n (close_chr s)
unfolding close_chr
close_chr-Holds n s p =
    if-Within (Put n) n (s.cc == 39) _ _ (λ h. put_cc-Holds n s p (not_eof s.cc 39 h (omega arith)))
      (λ h. undo-rest n s p)

pub grab_chr-Holds : (n : ℕ) (s : Lexer) → length s.rest + 1 ≤ n → Holds n (grab_chr s)
unfolding grab_chr
grab_chr-Holds n s b =
    bind-Within (Put n) n (put_cc (tok_clear s)) _ (start-Holds n s b)
      (λ t q. chr_body-Holds n (grab t) close_chr (grab-Pending n t q) (close_chr-Holds n))

grab-rest :
    (s : Lexer) (c : ℕ) (cs : List ℕ)
    → (s.cc == eof_char) ≡ false
    → s.rest ≡ c ∷ cs
    → (grab s).rest ≡ cs
unfolding grab
grab-rest s c cs e h = rw e (ap (λ (l : List ℕ). (grab_from l s).rest) h)

-- A backslash and the character behind it, on to the characters left.
put_esc_then-Within :
    (P : Lexer → Type 0) (n d : ℕ) (cs : List ℕ) (s : Lexer) (f : Lexer → Out)
    → Pending n s
    → (s.cc == 92) ≡ true
    → s.rest ≡ d ∷ cs
    → ((t : Lexer) → t.rest ≡ cs → Put n t → Within P n (f t))
    → Within P n (put_esc s >>= f)
unfolding put_esc put_cc grab_esc
put_esc_then-Within P n d cs s f p h e k =
    subst (λ (o : Out). Within P n o)
      (sym (bind_assoc (put_cc s) (λ t. grab_esc (grab t) >>= put_cc) f))
      (then-Within P n s.cc s _ p (not_eof s.cc 92 h (omega arith)) (λ t same here q.
        let g = grab t in
        let r = grab-Pending n t q in
        let left : g.rest ≡ cs =
          grab-rest t d cs (ap (λ (c : ℕ). c == eof_char) here ∙ not_eof s.cc 92 h (omega arith))
            (same ∙ e) in
        elim (Bool-cases (is_esc g.cc)) [
          | inl b ↦
              rw b (
                then-Within P n g.cc g f r (esc_not_eof g.cc b) (λ u away _ w. k u (away ∙ left) w))
          | inr b ↦ rw b (undo-rest n g r)
        ]))

str_char-Within :
    (n c : ℕ) (t : Lexer) (x y : Out)
    → Pending n t
    → (c == eof_char || c == 10 || c == 34 ≡ false → (c == 92) ≡ true → Within (Pending n) n x)
    → (c == eof_char || c == 10 || c == 34 ≡ false → Within (Pending n) n y)
    → Within
        (Pending n)
        n
        (if c == eof_char || c == 10 || c == 34 then ok t else (if c == 92 then x else y))
str_char-Within n c t x y p h k =
    if-Within (Pending n) n (c == eof_char || c == 10 || c == 34) _ _ (λ e. p)
      (λ e. if-Within (Pending n) n (c == 92) _ _ (h e) (λ f. k e))

inside_not_eof : (c : ℕ) → (c == eof_char || c == 10 || c == 34) ≡ false → (c == eof_char) ≡ false
inside_not_eof c h = ground arith

str_from-Within :
    (n : ℕ) (cs : List ℕ) (s : Lexer)
    → 1 ≤ s.size
    → s.size + length cs ≤ n
    → Within (Pending n) n (str_from cs s)
unfolding str_from put_cc
str_from-Within n [] s o b = record { some_put = o; bounded = omega arith }
str_from-Within n (c ∷ []) s o b =
    let t = read c [] s in
    let p = grab_from-Pending n (c ∷ []) s o b in
    str_char-Within n c t _ _ p
      (λ e h.
        bind-Within (Pending n) n (put_esc t) (str_from []) (put_esc-Holds n t p h)
          (λ u q. str_from-Within n [] u q.some_put (omega (arith, q.bounded))))
      (λ e.
        then-Within (Pending n) n c t (str_from []) p (inside_not_eof c e)
          (λ u same here q. str_from-Within n [] u q.some_put (omega (arith, q.bounded))))
str_from-Within n (c ∷ d ∷ cs) s o b =
    let t = read c (d ∷ cs) s in
    let p = grab_from-Pending n (c ∷ d ∷ cs) s o b in
    str_char-Within n c t _ _ p
      (λ e h.
        put_esc_then-Within (Pending n) n d cs t (str_from cs) p h refl (λ u same q.
          str_from-Within n cs u q.some_put (omega (arith, ap length same, q.bounded))))
      (λ e.
        then-Within (Pending n) n c t (str_from (d ∷ cs)) p (inside_not_eof c e) (λ u same here q.
          str_from-Within n (d ∷ cs) u q.some_put (omega (arith, ap length same, q.bounded))))

close_str-Holds : (n : ℕ) (s : Lexer) → Pending n s → Holds n (close_str s)
unfolding close_str
close_str-Holds n s p =
    if-Within (Put n) n (s.cc == 34) _ _ (λ h. put_cc-Holds n s p (not_eof s.cc 34 h (omega arith)))
      (λ h. undo-rest n s p)

pub grab_str-Holds : (n : ℕ) (s : Lexer) → length s.rest + 1 ≤ n → Holds n (grab_str s)
unfolding grab_str
grab_str-Holds n s b =
    bind-Within (Put n) n (put_cc (tok_clear s))
      (λ (t : Lexer). (if t.cc == eof_char then ok t else str_from t.rest t) >>= close_str)
      (start-Holds n s b)
      (λ t q.
        pass-Within (Pending n) (Put n) n (if t.cc == eof_char then ok t else str_from t.rest t)
          close_str
          (if-Within (Pending n) n (t.cc == eof_char) (ok t) (str_from t.rest t)
            (at_eof-Pending n t q) (λ e. str_from-Within n t.rest t q.some_put q.bounded))
          (close_str-Holds n))
