-- ===== src/Lex/Numerals.antt =====
-- How `nnc_lex_grab_number` of src/nnc_lex.c reads an integral number.
use nnc.Common.{
  ℕ, ◌+◌, ◌≤◌, ◌≡◌, ◌∙◌, sym, refl, ap, Bool, true, false, ◌==◌, List, ==_iff, ◌∷◌, ◌++◌, length,
  arith, Bool-cases, inl, inr,
}
use nnc.Lex.Stream.{Lexer, Out, ok, ◌>>=◌, eof_char, tok_buf_max, read, tok_clear, put_cc, scan}
use nnc.Lex.Grab.{grab_int_suffix, grab_hex, grab_oct, grab_bin, after_zero, grab_number}
use nnc.Lex.Reads.{Word, grab_more}
use nnc.Lex.Suffixes.{ends_number}
use nnc.Lex.Decimals.{grab_dec-Word, zero_dec-Word}
use nnc.Lex.Digits.{digit_of, numeral-Word}
use nnc.Literal.Ints.{IntSuffix}
use nnc.Literal.Ints.Suffix.{Base, dec, hex, oct, bin, base_of, prefix, spelling, all_digits}

based_number :
    (k : Base) (text : List ℕ) (leave : Lexer → Out) (p : ℕ) (grab_base : Lexer → Out) (l : Lexer)
    → l.cc ≡ 48
    → l.rest ≡ p ∷ text
    → ((t : Lexer) → t.cc ≡ p → after_zero t ≡ grab_base t)
    → grab_number l ≡ grab_base (read p text l)
unfolding grab_number
based_number k text leave p grab_base l e r is =
    let zero : (l.cc == 48) ≡ true = ap (λ c. c == 48) e in
    let more : (l.cc == eof_char) ≡ false = ap (λ c. c == eof_char) e in
    rw zero (ap after_zero (grab_more p text l more r) ∙ is (read p text l) refl)

based-Word :
    (k : Base) (p : ℕ) (grab_base : Lexer → Out) (c : ℕ) (cs : List ℕ) (up : Bool) (s : IntSuffix)
    (tail : List ℕ) (l : Lexer)
    → ((t : Lexer) → t.cc ≡ p → after_zero t ≡ grab_base t)
    → ((t : Lexer) → grab_base t ≡ (put_cc (tok_clear t) >>= scan (digit_of k) grab_int_suffix))
    → (p == eof_char) ≡ false
    → l.cc ≡ 48
    → l.rest ≡ p ∷ ((c ∷ cs) ++ (spelling up s ++ tail))
    → all_digits (base_of k) (c ∷ cs) ≡ true
    → ends_number s tail ≡ true
    → length (c ∷ cs) + 4 ≤ tok_buf_max
    → (u : Lexer) × (grab_number l ≡ ok u) × Word p ((c ∷ cs) ++ spelling up s) tail u
based-Word k p grab_base c cs up s tail l is body more e r d b room =
    let text = (c ∷ cs) ++ (spelling up s ++ tail) in
    let t = read p text l in
    let (u, run, g) =
      numeral-Word k grab_int_suffix p (c ∷ cs) up s tail t (λ t h. refl) refl more refl d b room in
    (u, based_number k text grab_int_suffix p grab_base l e r is ∙ body t ∙ run, g)

-- The first character of a number and what is behind it, of its digits `c` and `cs` and `rest`.
abbrev pub first : Base → ℕ → ℕ
first dec c = c
first _ c = 48

abbrev pub behind : Base → ℕ → List ℕ → List ℕ
behind dec c rest = rest
behind hex c rest = 120 ∷ c ∷ rest
behind oct c rest = 111 ∷ c ∷ rest
behind bin c rest = 98 ∷ c ∷ rest

-- The lexeme has the base's letter and not its zero.
pub record Numeral (k : Base) (c : ℕ) (cs : List ℕ) (up : Bool) (s : IntSuffix) (tail : List ℕ)
    (t : Lexer) : Type 0 where
  pub put : t.lexeme ≡ prefix k ++ ((c ∷ cs) ++ spelling up s)
  pub left_over : t.rest ≡ tail

pub grab_number-Numeral :
    (k : Base) (c : ℕ) (cs : List ℕ) (up : Bool) (s : IntSuffix) (tail : List ℕ) (l : Lexer)
    → l.cc ≡ first k c
    → l.rest ≡ behind k c (cs ++ (spelling up s ++ tail))
    → all_digits (base_of k) (c ∷ cs) ≡ true
    → ends_number s tail ≡ true
    → length (c ∷ cs) + 4 ≤ tok_buf_max
    → (u : Lexer) × (grab_number l ≡ ok u) × Numeral k c cs up s tail u
unfolding after_zero grab_hex grab_oct grab_bin grab_number
grab_number-Numeral dec c cs up s tail l e r d b room = elim (Bool-cases (c == 48)) [
  | inl z ↦
      let zero : c ≡ 48 = (==_iff c 48).0 z in
      let (u, run, g) = zero_dec-Word cs up s tail l (e ∙ zero) r (ground arith) b (omega arith) in
      (
        u,
        run,
        record {
          put = g.put ∙ ap (λ c. c ∷ (cs ++ spelling up s)) (sym zero);
          left_over = g.left_over;
        },
      )
  | inr n ↦
      let more : (c == eof_char) ≡ false = ground arith in
      let (u, run, g) = grab_dec-Word c cs up s tail l e more r (ground arith) b (omega arith) in
      (u, rw (ap (λ c. c == 48) e ∙ n) run, record { put = g.put; left_over = g.left_over })
]
grab_number-Numeral hex c cs up s tail l e r d b room =
    let (u, run, g) =
      based-Word hex 120 grab_hex c cs up s tail l (λ t e. rw e refl) (λ t. refl) refl e r d b
        room in
    (u, run, record { put = g.put; left_over = g.left_over })
grab_number-Numeral oct c cs up s tail l e r d b room =
    let (u, run, g) =
      based-Word oct 111 grab_oct c cs up s tail l (λ t e. rw e refl) (λ t. refl) refl e r d b
        room in
    (u, run, record { put = g.put; left_over = g.left_over })
grab_number-Numeral bin c cs up s tail l e r d b room =
    let (u, run, g) =
      based-Word bin 98 grab_bin c cs up s tail l (λ t e. rw e refl) (λ t. refl) refl e r d b
        room in
    (u, run, record { put = g.put; left_over = g.left_over })
