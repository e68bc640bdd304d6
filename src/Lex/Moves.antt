-- ===== src/Lex/Moves.antt =====
-- What each part of the switch in src/nnc_lex.c leaves of the file.
use nnc.Common.{
  ℕ, suc, ◌+◌, ◌≤◌, ◌<◌, ◌≡◌, ◌∙◌, refl, ap, Bool, true, false, if◌then◌else◌, ◌==◌, List, [], ◌∷◌,
  length, Option, none, some, arith, Bool-cases, Option-cases, inl, inr,
}
use nnc.Hash.{str_key}
use nnc.Map.{Map}
use nnc.Map as Table
use nnc.Map.Model.{Models, get-has-Models}
use nnc.Lex.Token.{Tok, eof, ident, keyword, chr, str, number}
use nnc.Lex.Stream.{
  Lexer, LexError, Out, eof_char, undo, read, grab_from, grab, skip_from, skip, skip_line_from,
  skip_line, recover, tok_buf_max, is_blank, new_line,
}
use nnc.Lex.Stream as Stream
use nnc.Lex.Grab.{grab_chr, grab_str, grab_number, grab_word, is_digit, is_letter}
use nnc.Lex.Bounds.{Holds}
use nnc.Lex.Grabs.{grab_chr-Holds, grab_str-Holds}
use nnc.Lex.GrabNumbers.{grab_word-Holds, grab_number-Holds, rest_of_grab, rest_of_undo}
use nnc.Lex.Skips.{skip_line-rest}
use nnc.Lex.Next.{
  Turn, token, comment, failed, faulted, commit, adjust, choose, committed, slash_turn, word_kind,
  word_turn, other_turn, switch, find_char, singles, compounds, Compound, Next, kind_of, overrun,
  next,
}

-- None of the following gives back more than it took.
adjust-rest : (c : ℕ) (s : Lexer) → length (adjust c s).0.rest ≤ length s.rest
unfolding adjust
adjust-rest c s = elim (Bool-cases (s.cc == eof_char)) [
  | inl e ↦ rw e (omega arith)
  | inr e ↦ elim (Bool-cases ((grab s).cc == c)) [
    | inl h ↦ rw (e, h) (rest_of_grab s)
    | inr h ↦ rw (e, h) (rest_of_undo s e)
  ]
]

choose-rest :
    (more : List (ℕ × Tok)) (k : Tok) (s : Lexer) → length (choose more k s).rest ≤ length s.rest
unfolding choose commit
choose-rest [] k s = omega arith
choose-rest ((c, j) ∷ more) k s = elim (Bool-cases (adjust c s).1) [
  | inl h ↦ rw h (adjust-rest c s)
  | inr h ↦ rw h (omega (arith, choose-rest more k (adjust c s).0, adjust-rest c s))
]

-- What a pass of the switch leaves, when `n` bounds what was left and the character read.
abbrev pub Moves : ℕ → Turn → Type 0
Moves n (token t) = length t.rest < n
Moves n (comment t) = length t.rest < n
Moves n (failed e t) = length t.rest ≤ n
Moves n faulted = tok_buf_max < n

committed-Moves : (n : ℕ) (k : Tok) (o : Out) → Holds n o → Moves n (committed k o)
unfolding commit
committed-Moves n k (Stream.ok s) p = omega (arith, p.some_put, p.bounded)
committed-Moves n k (Stream.thrown e s) p = p
committed-Moves n k Stream.fault p = p

if-Moves :
    (n : ℕ) (b : Bool) (x y : Turn)
    → (b ≡ true → Moves n x)
    → (b ≡ false → Moves n y)
    → Moves n (if b then x else y)
if-Moves n true x y h k = h refl
if-Moves n false x y h k = k refl

slash-Moves : (n : ℕ) (s : Lexer) → length s.rest < n → Moves n (slash_turn s)
unfolding slash_turn commit
slash-Moves n s h =
    if-Moves n (adjust 47 s).1 _ _
      (λ e. omega (arith, adjust-rest 47 s, skip_line-rest (adjust 47 s).0))
      (λ e. omega (arith, adjust-rest 47 s))

module _ (keywords : Map (List ℕ) ℕ) (f : List ℕ → Option ℕ) (models : Models f keywords) where
  -- With a well-formed map of keywords the kind of an identifier is found without a fault.
  pub word_kind-Models :
      (w : List ℕ)
      → word_kind keywords w ≡ Table.ok (elim (f w) [ none ↦ ident | some i ↦ keyword i ])
  unfolding word_kind
  word_kind-Models w =
      let found = get-has-Models f keywords w models in
      elim (Option-cases (f w)) [ inl e ↦ rw (found.1, e) | inr (i, e) ↦ rw (found.1, found.0, e) ]

  word-Moves : (n : ℕ) (o : Out) → Holds n o → Moves n (word_turn keywords o)
  unfolding commit
  word-Moves n (Stream.ok s) p =
      rw (word_kind-Models s.lexeme) (omega (arith, p.some_put, p.bounded))
  word-Moves n (Stream.thrown e s) p = p
  word-Moves n Stream.fault p = p

  other-Moves :
      (s : Lexer) → (s.cc == eof_char) ≡ false → Moves (length s.rest + 1) (other_turn keywords s)
  unfolding other_turn
  other-Moves s e =
      let n = length s.rest + 1 in
      let enough : length s.rest + 1 ≤ n = omega arith in
      if-Moves n (s.cc == 39) _ _
        (λ h. committed-Moves n chr (grab_chr s) (grab_chr-Holds n s enough))
        (λ h.
          if-Moves n (s.cc == 34) _ _
            (λ h. committed-Moves n str (grab_str s) (grab_str-Holds n s enough))
            (λ h.
              if-Moves n (is_digit s.cc) _ _
                (λ h. committed-Moves n number (grab_number s) (grab_number-Holds n s enough e))
                (λ h.
                  if-Moves n (is_letter s.cc) _ _
                    (λ h. word-Moves n (grab_word s) (grab_word-Holds n s enough))
                    (λ h.
                      if-Moves n (s.cc == 47) _ _ (λ h. slash-Moves n s (omega arith))
                        (λ h. omega arith)))))

  compound-Moves :
      (n : ℕ) (s : Lexer) (o : Option Compound) (t : Turn)
      → length s.rest < n
      → Moves n t
      → Moves n (elim o [ some c ↦ token (choose c.longer c.plain s) | none ↦ t ])
  compound-Moves n s none t h k = k
  compound-Moves n s (some c) t h k = omega (arith, choose-rest c.longer c.plain s)

  single-Moves :
      (n : ℕ) (s : Lexer) (o : Option Tok) (t : Turn)
      → length s.rest < n
      → Moves n t
      → Moves n (elim o [ some k ↦ token (commit k s) | none ↦ t ])
  unfolding commit
  single-Moves n s none t h k = k
  single-Moves n s (some c) t h k = h

  pub switch-Moves :
      (s : Lexer) → (s.cc == eof_char) ≡ false → Moves (length s.rest + 1) (switch keywords s)
  unfolding switch
  switch-Moves s e =
      let n = length s.rest + 1 in
      rw e (
        single-Moves n s (find_char s.cc singles) _ (omega arith) (
          compound-Moves n s (find_char s.cc compounds) (other_turn keywords s) (omega arith)
            (other-Moves s e)))

  pub switch_eof :
      (s : Lexer) → (s.cc == eof_char) ≡ true → switch keywords s ≡ token (commit eof s)
  unfolding switch
  switch_eof s e = rw e

-- What `nnc_lex_next` makes of a pass through the switch.
abbrev after_turn : Map (List ℕ) ℕ → ℕ → Turn → Next
after_turn keywords fuel (token t) = kind_of t
after_turn keywords fuel (comment t) = next keywords fuel t
after_turn keywords fuel (failed e t) = next keywords fuel (recover t)
after_turn keywords fuel faulted = overrun

module _ (keywords : Map (List ℕ) ℕ) where
  next-after :
      (fuel : ℕ) (s : Lexer)
      → next keywords (suc fuel) s ≡ after_turn keywords fuel (switch keywords (skip s))
  unfolding next
  next-after fuel s = refl

  pub next-token :
      (fuel : ℕ) (s t : Lexer)
      → switch keywords (skip s) ≡ token t
      → next keywords (suc fuel) s ≡ kind_of t
  next-token fuel s t e = next-after fuel s ∙ ap (after_turn keywords fuel) e

  pub next-fault :
      (fuel : ℕ) (s : Lexer)
      → switch keywords (skip s) ≡ faulted
      → next keywords (suc fuel) s ≡ overrun
  next-fault fuel s e = next-after fuel s ∙ ap (after_turn keywords fuel) e
