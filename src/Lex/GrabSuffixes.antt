-- ===== src/Lex/GrabSuffixes.antt =====
-- The suffixes and the exponent of a number of src/nnc_lex.c stay within the bounds of Bounds.
use nnc.Common.{
  ℕ, ◌+◌, ◌≤◌, ◌<◌, ◌≡◌, refl, ap, Bool, true, false, ◌||◌, if◌then◌else◌, ◌==◌, List, [], ◌∷◌,
  length, arith,
}
use nnc.Lex.Stream.{Lexer, Out, ok, eof_char, read, grab, put_c, put_cc, scan_from, scan}
use nnc.Lex.Grab.{
  is_digit, grab_exponent, suffix_pair, int_suffix_size, grab_int_suffix, float_suffix_size,
  grab_float_suffix,
}
use nnc.Lex.Bounds.{
  at_eof-Pending, Put, Pending, Holds, Within, bind-Within, grab_from-Pending, grab-Pending,
  undo-Put, undo-rest, put_c-Holds, put_cc-Holds, then-Within, not_eof, if-Within,
}

-- A test of the character that EOF fails.
guarded-Holds :
    (n : ℕ) (b : Bool) (s : Lexer) (x y : Out)
    → Pending n s
    → (b ≡ true → (s.cc == eof_char) ≡ false)
    → ((s.cc == eof_char) ≡ false → Holds n x)
    → Holds n y
    → Holds n (if b then x else y)
guarded-Holds n true s x y p e h k = h (e refl)
guarded-Holds n false s x y p e h k = k

suffix_pair-Holds :
    (n d : ℕ) (s : Lexer)
    → d < 255
    → Pending n s
    → (s.cc == eof_char) ≡ false
    → Holds n (suffix_pair d s)
unfolding suffix_pair
suffix_pair-Holds n d s l p e = bind-Within (Put n) n (put_cc s) _ (put_cc-Holds n s p e) (λ t q.
    let u = grab t in
    let r = grab-Pending n t q in
    guarded-Holds n (u.cc == d) u _ _ r (λ h. not_eof u.cc d h l) (put_cc-Holds n u r)
      (undo-rest n u r))

pub digit-Holds :
    (n d : ℕ) (s : Lexer) (x y : Out)
    → Pending n s
    → d < 255
    → ((s.cc == eof_char) ≡ false → Holds n x)
    → Holds n y
    → Holds n (if s.cc == d then x else y)
digit-Holds n d s x y p l h k = guarded-Holds n (s.cc == d) s x y p (λ e. not_eof s.cc d e l) h k

int_suffix_size-Holds : (n : ℕ) (s : Lexer) → Pending n s → Holds n (int_suffix_size s)
unfolding int_suffix_size
int_suffix_size-Holds n s p =
    digit-Holds n 49 s _ _ p (omega arith) (suffix_pair-Holds n 54 s (omega arith) p) (
      digit-Holds n 51 s _ _ p (omega arith) (suffix_pair-Holds n 50 s (omega arith) p) (
        digit-Holds n 54 s _ _ p (omega arith) (suffix_pair-Holds n 52 s (omega arith) p)
          (digit-Holds n 56 s _ _ p (omega arith) (put_cc-Holds n s p) (undo-rest n s p))))

is_u_or_i : (c : ℕ) → (c == 117 || c == 105 || c == 85 || c == 73) ≡ true → (c == eof_char) ≡ false
is_u_or_i c h = ground arith

pub grab_int_suffix-Holds : (n : ℕ) (s : Lexer) → Pending n s → Holds n (grab_int_suffix s)
unfolding grab_int_suffix
grab_int_suffix-Holds n s p =
    guarded-Holds n _ s _ _ p (is_u_or_i s.cc)
      (λ e.
        bind-Within (Put n) n (put_cc s) _ (put_cc-Holds n s p e)
          (λ t q. int_suffix_size-Holds n (grab t) (grab-Pending n t q)))
      (undo-Put n s p)

float_suffix_size-Holds : (n : ℕ) (s : Lexer) → Pending n s → Holds n (float_suffix_size s)
unfolding float_suffix_size
float_suffix_size-Holds n s p =
    digit-Holds n 51 s _ _ p (omega arith) (suffix_pair-Holds n 50 s (omega arith) p) (
      digit-Holds n 54 s _ _ p (omega arith) (suffix_pair-Holds n 52 s (omega arith) p)
        (undo-rest n s p))

is_f : (c : ℕ) → (c == 102 || c == 70) ≡ true → (c == eof_char) ≡ false
is_f c h = ground arith

pub grab_float_suffix-Holds : (n : ℕ) (s : Lexer) → Pending n s → Holds n (grab_float_suffix s)
unfolding grab_float_suffix
grab_float_suffix-Holds n s p =
    guarded-Holds n _ s _ _ p (is_f s.cc)
      (λ e.
        bind-Within (Put n) n (put_cc s) _ (put_cc-Holds n s p e)
          (λ t q. float_suffix_size-Holds n (grab t) (grab-Pending n t q)))
      (undo-Put n s p)

is_sign : (c : ℕ) → (c == 43 || c == 45) ≡ true → (c == eof_char) ≡ false
is_sign c h = ground arith

-- The exponent leaves the character behind its digits read, which the suffix starts from.
scan-Pending :
    (n : ℕ) (class : ℕ → Bool) (cs : List ℕ) (s : Lexer)
    → 1 ≤ s.size
    → s.size + length cs ≤ n
    → Within (Pending n) n (scan_from class ok cs s)
unfolding scan_from put_cc
scan-Pending n class [] s o b = record { some_put = o; bounded = omega arith }
scan-Pending n class (c ∷ cs) s o b =
    let t = read c cs s in
    let p = grab_from-Pending n (c ∷ cs) s o b in
    if-Within (Pending n) n (c == eof_char) _ _ (λ e. p)
      (λ e.
        if-Within (Pending n) n (class c) _ _
          (λ h. then-Within (Pending n) n c t (scan_from class ok cs) p e (λ u same here q.
            scan-Pending n class cs u q.some_put (omega (arith, ap length same, q.bounded))))
          (λ h. p))

pub scan_class :
    (n : ℕ) (class : ℕ → Bool) (s : Lexer) → Put n s → Within (Pending n) n (scan class ok s)
unfolding scan
scan_class n class s p =
    if-Within (Pending n) n (s.cc == eof_char) _ _ (at_eof-Pending n s p)
      (λ e. scan-Pending n class s.rest s p.some_put p.bounded)

pub grab_exponent-Within :
    (n : ℕ) (s : Lexer)
    → Pending n s
    → (s.cc == eof_char) ≡ false
    → Within (Pending n) n (grab_exponent s)
unfolding grab_exponent
grab_exponent-Within n s p e = bind-Within (Pending n) n (put_cc s) _ (put_cc-Holds n s p e) (λ t q.
    let u = grab t in
    let r = grab-Pending n t q in
    if-Within (Pending n) n (u.cc == 43 || u.cc == 45) _ _
      (λ h.
        bind-Within (Pending n) n (put_c u.cc u) (scan is_digit ok)
          (put_c-Holds n u.cc u r (is_sign u.cc h)) (scan_class n is_digit))
      (λ h. undo-rest n u r))
