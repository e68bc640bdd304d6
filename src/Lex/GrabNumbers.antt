-- ===== src/Lex/GrabNumbers.antt =====
-- The functions of src/nnc_lex.c that read numbers and identifiers stay within the bounds of Bounds.
use nnc.Common.{
  ℕ, ◌+◌, ◌≤◌, ◌≡◌, ap, Bool, true, false, ◌||◌, if◌then◌else◌, ◌==◌, leb, List, [], ◌∷◌, length,
  arith, Bool-cases, inl, inr,
}
use nnc.Lex.Stream.{
  Lexer, Out, ok, ◌>>=◌, eof_char, undo, read, grab_from, grab, tok_clear, put_cc, scan,
}
use nnc.Lex.Grab.{
  is_digit, is_hex_digit, is_oct_digit, is_bin_digit, is_ident_char, grab_exponent, grab_int_suffix,
  grab_float_suffix, after_dot, float_from, grab_float, grab_hex, leave_dec, grab_dec, grab_oct,
  grab_bin, after_zero, grab_number, grab_word,
}
use nnc.Lex.GrabSuffixes.{
  digit-Holds, grab_int_suffix-Holds, grab_float_suffix-Holds, scan_class, grab_exponent-Within,
}
use nnc.Lex.Bounds.{
  pass-Within, Put, Pending, Holds, bind-Within, Pending-Put, grab_from-Pending, undo-Put,
  put_cc-Holds, then-Within, start-Holds, if-Within, scan-Holds,
}

after_dot-Holds : (n after : ℕ) (s : Lexer) → Put n s → Holds n (after_dot after s)
unfolding after_dot undo
after_dot-Holds n after s p = ground arith

is_e : (c : ℕ) → (c == 101 || c == 69) ≡ true → (c == eof_char) ≡ false
is_e c h = ground arith

float_from-Holds :
    (n : ℕ) (cs : List ℕ) (after : ℕ) (s : Lexer)
    → 1 ≤ s.size
    → s.size + length cs ≤ n
    → Holds n (float_from cs after s)
unfolding float_from put_cc
float_from-Holds n [] after s o b =
    after_dot-Holds n after (read eof_char [] s) (record { some_put = o; bounded = omega arith })
float_from-Holds n (c ∷ cs) after s o b =
    let t = read c cs s in
    let p = grab_from-Pending n (c ∷ cs) s o b in
    if-Within (Put n) n (c == eof_char) _ _ (λ e. after_dot-Holds n after t (Pending-Put n t p))
      (λ e.
        if-Within (Put n) n (c == 101 || c == 69) _ _
          (λ h.
            pass-Within (Pending n) (Put n) n (grab_exponent t)
              (λ (u : Lexer). grab_float_suffix u >>= after_dot after)
              (grab_exponent-Within n t p e)
              (λ u q.
                bind-Within (Put n) n (grab_float_suffix u) (after_dot after)
                  (grab_float_suffix-Holds n u q) (after_dot-Holds n after)))
          (λ h.
            if-Within (Put n) n (is_digit c) _ _
              (λ d. then-Within (Put n) n c t (float_from cs (after + 1)) p e (λ u same here q.
                float_from-Holds n cs (after + 1) u q.some_put
                  (omega (arith, ap length same, q.bounded))))
              (λ d.
                bind-Within (Put n) n (grab_float_suffix t) (after_dot after)
                  (grab_float_suffix-Holds n t p) (after_dot-Holds n after))))

grab_float-Holds :
    (n : ℕ) (s : Lexer) → Pending n s → (s.cc == eof_char) ≡ false → Holds n (grab_float s)
unfolding grab_float
grab_float-Holds n s p e =
    bind-Within (Put n) n (put_cc s)
      (λ (t : Lexer). if t.cc == eof_char then after_dot 0 t else float_from t.rest 0 t)
      (put_cc-Holds n s p e)
      (λ t q.
        if-Within (Put n) n (t.cc == eof_char) (after_dot 0 t) (float_from t.rest 0 t)
          (λ h. after_dot-Holds n 0 t q) (λ h. float_from-Holds n t.rest 0 t q.some_put q.bounded))

leave_dec-Holds : (n : ℕ) (s : Lexer) → Pending n s → Holds n (leave_dec s)
unfolding leave_dec
leave_dec-Holds n s p =
    digit-Holds n 46 s (grab_float s) (grab_int_suffix s) p (omega arith) (grab_float-Holds n s p)
      (grab_int_suffix-Holds n s p)

-- A token that starts with a character put and goes on with a scan.
scanned-Holds :
    (n : ℕ) (class : ℕ → Bool) (leave : Lexer → Out) (s : Lexer)
    → ((t : Lexer) → Pending n t → Holds n (leave t))
    → length s.rest + 1 ≤ n
    → Holds n (put_cc (tok_clear s) >>= scan class leave)
scanned-Holds n class leave s leaves b =
    bind-Within (Put n) n (put_cc (tok_clear s)) (scan class leave) (start-Holds n s b)
      (scan-Holds n class leave leaves)

grab_dec-Holds : (n : ℕ) (s : Lexer) → length s.rest + 1 ≤ n → Holds n (grab_dec s)
unfolding grab_dec
grab_dec-Holds n s b = scanned-Holds n is_digit leave_dec s (leave_dec-Holds n) b

pub grab_word-Holds : (n : ℕ) (s : Lexer) → length s.rest + 1 ≤ n → Holds n (grab_word s)
unfolding grab_word
grab_word-Holds n s b =
    pass-Within (Pending n) (Put n) n (put_cc (tok_clear s) >>= scan is_ident_char ok)
      (λ (t : Lexer). ok (undo t))
      (bind-Within (Pending n) n (put_cc (tok_clear s)) (scan is_ident_char ok) (start-Holds n s b)
        (scan_class n is_ident_char))
      (undo-Put n)

pub rest_of_grab : (s : Lexer) → length (grab s).rest ≤ length s.rest
unfolding grab
rest_of_grab s = elim (Bool-cases (s.cc == eof_char)) [
  | inl e ↦ rw e (omega arith)
  | inr e ↦ rw e (shorter s.rest)
]
  where
    shorter : (cs : List ℕ) → length (grab_from cs s).rest ≤ length cs
    shorter [] = omega arith
    shorter (c ∷ cs) = omega arith

pub rest_of_undo :
    (s : Lexer) → (s.cc == eof_char) ≡ false → length (undo (grab s)).rest ≤ length s.rest
unfolding grab undo
rest_of_undo s e = rw e (back s.rest)
  where
    back : (cs : List ℕ) → length (undo (grab_from cs s)).rest ≤ length cs
    back [] = omega arith
    back (c ∷ cs) = ground arith

-- The test in the source for a digit holds of every character.
pub digit_or_not : (c : ℕ) → (leb 48 c || leb c 57) ≡ true
digit_or_not c = ground arith

after_zero-Holds :
    (n : ℕ) (t : Lexer)
    → length t.rest + 1 ≤ n
    → length (undo t).rest + 1 ≤ n
    → Holds n (after_zero t)
unfolding after_zero grab_hex grab_oct grab_bin
after_zero-Holds n t b u =
    if-Within (Put n) n (t.cc == eof_char) _ _ (λ e. grab_dec-Holds n (undo t) u)
      (λ e.
        if-Within (Put n) n (t.cc == 120) _ _
          (λ h. scanned-Holds n is_hex_digit grab_int_suffix t (grab_int_suffix-Holds n) b)
          (λ h.
            if-Within (Put n) n (t.cc == 111) _ _
              (λ k. scanned-Holds n is_oct_digit grab_int_suffix t (grab_int_suffix-Holds n) b)
              (λ k.
                if-Within (Put n) n (t.cc == 98) _ _
                  (λ l. scanned-Holds n is_bin_digit grab_int_suffix t (grab_int_suffix-Holds n) b)
                  (λ l. rw (digit_or_not t.cc) (grab_dec-Holds n (undo t) u)))))

pub grab_number-Holds :
    (n : ℕ) (s : Lexer)
    → length s.rest + 1 ≤ n
    → (s.cc == eof_char) ≡ false
    → Holds n (grab_number s)
unfolding grab_number
grab_number-Holds n s b e =
    if-Within (Put n) n (s.cc == 48) (after_zero (grab s)) (grab_dec s)
      (λ h.
        after_zero-Holds n (grab s) (omega (arith, rest_of_grab s))
          (omega (arith, rest_of_undo s e)))
      (λ h. grab_dec-Holds n s b)
