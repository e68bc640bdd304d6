-- ===== src/Lex/Ends.antt =====
-- The lexer of src/nnc_lex.c always comes to a token, whatever bytes the file holds.
use nnc.Common.{
  ℕ, zero, suc, ◌+◌, ◌≤◌, ◌<◌, ◌≡◌, refl, sym, true, false, if◌then◌else◌, ◌==◌, List, length,
  Option, arith, Bool-cases, ◌⊎◌, inl, inr,
}
use mathlib.Core.Path.{subst}
use nnc.Hash.{str_key}
use nnc.Map.{Map}
use nnc.Map.Model.{Models}
use nnc.Lex.Token.{eof}
use nnc.Lex.Stream.{Lexer, eof_char, skip, recover, skip_line, tok_buf_max}
use nnc.Lex.Next.{
  Turn, token, comment, failed, faulted, commit, switch, Next, kind_of, overrun, out_of_fuel, next,
}
use nnc.Lex.Skips.{skip-Advances, skip_line-Advances, skip_line-rest}
use nnc.Lex.Moves.{Moves, switch-Moves, switch_eof, next-token}

-- The calls that `nnc_lex_next` can make of itself: at the end of the file there is none.
abbrev pub measure : Lexer → ℕ
measure s = if s.cc == eof_char then 0 else length s.rest

-- A token, with characters read or at the end of the file; the lexeme's buffer overflows only where
-- more than its size is left.
abbrev pub Ends : Lexer → Next → Type 0
Ends s (kind_of t) =
    ((t.kind ≡ eof) × ((t.cc == eof_char) ≡ true)) ⊎ (length t.rest < length s.rest)
Ends s overrun = tok_buf_max < length s.rest
Ends s out_of_fuel = ⊥

Ends-later : (s u : Lexer) (r : Next) → length u.rest ≤ length s.rest → Ends u r → Ends s r
Ends-later s u (kind_of t) l (inl h) = inl h
Ends-later s u (kind_of t) l (inr h) = inr (omega arith)
Ends-later s u overrun l h = omega arith
Ends-later s u out_of_fuel l h = h

measure-le : (s : Lexer) → measure s ≤ length s.rest
measure-le s = ground arith

measure-open : (s : Lexer) → (s.cc == eof_char) ≡ false → measure s ≡ length s.rest
measure-open s b = rw b refl

-- The end of the file stays the end of the file.
skip-closed : (s : Lexer) → (s.cc == eof_char) ≡ true → ((skip s).cc == eof_char) ≡ true
unfolding skip
skip-closed s a = rw a a

in_file :
    (s : Lexer) (fuel : ℕ)
    → ((skip s).cc == eof_char) ≡ false
    → measure s < suc fuel
    → length s.rest ≤ fuel
in_file s fuel e h = elim (Bool-cases (s.cc == eof_char)) [
  | inl a ↦ absurd (ground (arith, e, skip-closed s a))
  | inr b ↦ omega (arith, h, measure-open s b)
]

module _ (keywords : Map (List ℕ) ℕ) (f : List ℕ → Option ℕ) (models : Models f keywords) where
  turn-Ends :
      (fuel : ℕ) (s : Lexer) (t : Turn)
      → ((u : Lexer) → measure u < fuel → Ends u (next keywords fuel u))
      → length s.rest ≤ fuel
      → length (skip s).rest < length s.rest
      → Moves (length (skip s).rest + 1) t
      → Ends s (elim t [
        | token t ↦ kind_of t
        | comment t ↦ next keywords fuel t
        | failed e t ↦ next keywords fuel (recover t)
        | faulted ↦ overrun
      ])
  turn-Ends fuel s (token t) ih l b m = inr (omega arith)
  turn-Ends fuel s (comment t) ih l b m =
      Ends-later s t (next keywords fuel t) (omega arith) (ih t (omega (arith, measure-le t)))
  turn-Ends fuel s (failed e t) ih l b m =
      Ends-later s (recover t) (next keywords fuel (recover t)) (omega (arith, skip_line-rest t)) (
        ih (recover t) (elim (skip_line-Advances t) [
          | inl h ↦ rw h (omega arith)
          | inr h ↦ omega (arith, measure-le (skip_line t))
        ]))
  turn-Ends fuel s faulted ih l b m = omega arith

  at_eof :
      (fuel : ℕ) (s : Lexer)
      → ((skip s).cc == eof_char) ≡ true
      → Ends s (next keywords (suc fuel) s)
  unfolding commit
  at_eof fuel s e =
      subst (Ends s)
        (sym (
          next-token keywords fuel s (commit eof (skip s))
            (switch_eof keywords f models (skip s) e)))
        (inl (refl, e))

  -- With a well-formed map of keywords and more rounds than bytes are left, `nnc_lex_next` returns,
  -- whatever the bytes: with a token behind characters read or with TOK_EOF at the end of the file;
  -- or the lexeme's buffer overflows, which needs more than 512 bytes left.
  pub next-Ends : (fuel : ℕ) (s : Lexer) → measure s < fuel → Ends s (next keywords fuel s)
  unfolding next
  next-Ends zero s h = elim h [ ]
  next-Ends (suc fuel) s h = elim (Bool-cases ((skip s).cc == eof_char)) [
    | inl e ↦ at_eof fuel s e
    | inr e ↦ elim (skip-Advances s) [
      | inl a ↦ at_eof fuel s a
      | inr b ↦
          turn-Ends fuel s (switch keywords (skip s)) (next-Ends fuel) (in_file s fuel e h) b
            (switch-Moves keywords f models (skip s) e)
    ]
  ]
