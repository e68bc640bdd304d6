-- ===== src/Lex/Skips.antt =====
-- How far `nnc_lex_skip` and `nnc_lex_skip_line` of src/nnc_lex.c get.
use nnc.Common.{
  ℕ, suc, ◌≤◌, ◌<◌, ◌≡◌, refl, Bool, true, false, ◌||◌, if◌then◌else◌, ◌==◌, List, [], ◌∷◌, length,
  arith, Bool-cases, ◌⊎◌, inl, inr,
}
use nnc.Hash.{str_key}
use nnc.Lex.Stream.{
  Lexer, eof_char, read, skip_from, skip, skip_line_from, skip_line, is_blank, new_line,
}

-- The lexer is at the end, or fewer than `n` characters are left.
abbrev pub Advances : ℕ → Lexer → Type 0
Advances n s = ((s.cc == eof_char) ≡ true) ⊎ (length s.rest < n)

if-Advances :
    (n : ℕ) (b : Bool) (s t : Lexer)
    → (b ≡ true → Advances n s)
    → (b ≡ false → Advances n t)
    → Advances n (if b then s else t)
if-Advances n true s t h k = h refl
if-Advances n false s t h k = k refl

further : (n : ℕ) (s : Lexer) → Advances n s → Advances (suc n) s
further n s (inl e) = inl e
further n s (inr h) = inr (omega arith)

skip_from-Advances : (cs : List ℕ) (s : Lexer) → Advances (length cs) (skip_from cs s)
unfolding skip_from
skip_from-Advances [] s = inl refl
skip_from-Advances (c ∷ cs) s =
    let t = if c == 10 then new_line (read c cs s) else read c cs s in
    let skipped = further (length cs) (skip_from cs t) (skip_from-Advances cs t) in
    if-Advances (suc (length cs)) (c == eof_char) _ _ inl (λ e.
      if-Advances (suc (length cs)) (is_blank c || c == 10) _ _ (λ h. skipped)
        (λ h. inr (omega arith)))

pub skip-Advances : (s : Lexer) → Advances (length s.rest) (skip s)
unfolding skip
skip-Advances s = elim (Bool-cases (s.cc == eof_char)) [
  | inl e ↦ rw e (inl e)
  | inr e ↦ rw e (skip_from-Advances s.rest s)
]

skip_line_from-Advances : (cs : List ℕ) (s : Lexer) → Advances (length cs) (skip_line_from cs s)
unfolding skip_line_from
skip_line_from-Advances [] s = inl refl
skip_line_from-Advances (c ∷ cs) s =
    if-Advances (suc (length cs)) (c == eof_char || c == 10) _ _ (λ e. inr (omega arith))
      (λ e.
        further (length cs) (skip_line_from cs (read c cs s))
          (skip_line_from-Advances cs (read c cs s)))

pub skip_line-Advances : (s : Lexer) → Advances (length s.rest) (skip_line s)
unfolding skip_line
skip_line-Advances s = elim (Bool-cases (s.cc == eof_char)) [
  | inl e ↦ rw e (inl e)
  | inr e ↦ rw e (skip_line_from-Advances s.rest s)
]

if-rest :
    (n : ℕ) (b : Bool) (s t : Lexer)
    → length s.rest ≤ n
    → length t.rest ≤ n
    → length (if b then s else t).rest ≤ n
if-rest n true s t h k = h
if-rest n false s t h k = k

skip_line_from-rest : (cs : List ℕ) (s : Lexer) → length (skip_line_from cs s).rest ≤ length cs
unfolding skip_line_from
skip_line_from-rest [] s = omega arith
skip_line_from-rest (c ∷ cs) s =
    if-rest (suc (length cs)) (c == eof_char || c == 10) (read c cs s)
      (skip_line_from cs (read c cs s)) (omega arith)
      (omega (arith, skip_line_from-rest cs (read c cs s)))

pub skip_line-rest : (s : Lexer) → length (skip_line s).rest ≤ length s.rest
unfolding skip_line
skip_line-rest s =
    if-rest (length s.rest) (s.cc == eof_char) s (skip_line_from s.rest s) (omega arith)
      (skip_line_from-rest s.rest s)
