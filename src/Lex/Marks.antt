-- ===== src/Lex/Marks.antt =====
-- How src/nnc_lex.c reads a mark and a size, the suffix of an integral number.
use nnc.Common.{
  ℕ, suc, ◌+◌, ◌≤◌, ◌≡◌, ◌∙◌, refl, ap, Bool, true, false, if◌then◌else◌, ◌==◌, List, [], ◌∷◌, ◌++◌,
  length, arith,
}
use nnc.Lex.Stream.{
  Lexer, Out, ok, thrown, bad_suffix, ◌>>=◌, eof_char, tok_buf_max, undo, read, grab, put_cc,
}
use nnc.Lex.Grab.{suffix_pair, int_suffix_size, grab_int_suffix}
use nnc.Lex.Reads.{put_on, put_cc-put_on, append_step, Appended, grab_more}
use nnc.Literal.Ints.Suffix.{mark}

-- What a function reads of `word`, which starts at the current character, before `tail`.
abbrev pub Reads : (Lexer → Out) → Lexer → List ℕ → List ℕ → Type 0
Reads f s word tail = (t : Lexer) × (f s ≡ ok t) × Appended s word tail t

Reads-as :
    (f g : Lexer → Out) (s : Lexer) (word tail : List ℕ)
    → f s ≡ g s
    → Reads g s word tail
    → Reads f s word tail
Reads-as f g s word tail same (t, run, h) = (t, same ∙ run, h)

put_cc-Reads :
    (c : ℕ) (tail : List ℕ) (s : Lexer)
    → s.cc ≡ c
    → s.rest ≡ tail
    → s.size + 1 ≤ tok_buf_max
    → Reads put_cc s (c ∷ []) tail
put_cc-Reads c tail s e r room = (
  put_on s.cc s,
  put_cc-put_on s (omega arith),
  record { put = ap (λ d. s.lexeme ++ d ∷ []) e; sized = omega arith; left_over = r },
)

-- A character, put, and what a function reads behind it.
put-then :
    (c d : ℕ) (word tail : List ℕ) (f g : Lexer → Out) (s : Lexer)
    → f s ≡ (put_cc s >>= λ u. g (grab u))
    → s.cc ≡ c
    → (c == eof_char) ≡ false
    → s.rest ≡ d ∷ (word ++ tail)
    → s.size + suc (suc (length word)) ≤ tok_buf_max
    → ((t : Lexer)
        → t.cc ≡ d
        → t.rest ≡ word ++ tail
        → t.size + suc (length word) ≤ tok_buf_max
        → Reads g t (d ∷ word) tail)
    → Reads f s (c ∷ d ∷ word) tail
put-then c d word tail f g s body e more r room inner =
    let u = put_on s.cc s in
    let v = read d (word ++ tail) u in
    let (t, run, h) = inner v refl refl (omega arith) in
    (
      t,
      body
          ∙ ap (λ (o : Out). o >>= λ u. g (grab u)) (put_cc-put_on s (omega arith))
          ∙ ap g (grab_more d (word ++ tail) u (ap (λ c. c == eof_char) e ∙ more) r)
          ∙ run,
      record {
        put = h.put ∙ append_step s.lexeme (d ∷ word) s.cc ∙ ap (λ c. s.lexeme ++ c ∷ d ∷ word) e;
        sized = omega (arith, h.sized);
        left_over = h.left_over;
      },
    )

eq_self : (d : ℕ) → (d == d) ≡ true
eq_self d = ground arith

suffix_pair-Reads :
    (c d : ℕ) (tail : List ℕ) (s : Lexer)
    → (c == eof_char) ≡ false
    → s.cc ≡ c
    → s.rest ≡ d ∷ tail
    → s.size + 2 ≤ tok_buf_max
    → Reads (suffix_pair d) s (c ∷ d ∷ []) tail
unfolding suffix_pair
suffix_pair-Reads c d tail s more e r room =
    let second : Lexer → Out = λ u. if u.cc == d then put_cc u else thrown bad_suffix (undo u) in
    put-then c d [] tail (suffix_pair d) second s refl e more r room (λ t e r room.
      Reads-as second put_cc t (d ∷ []) tail (rw (ap (λ c. c == d) e ∙ eq_self d) refl)
        (put_cc-Reads d tail t e r room))

-- The digits behind the mark.
size-Reads :
    (c d : ℕ) (tail : List ℕ) (s : Lexer)
    → ((t : Lexer) → t.cc ≡ c → int_suffix_size t ≡ suffix_pair d t)
    → (c == eof_char) ≡ false
    → s.cc ≡ c
    → s.rest ≡ d ∷ tail
    → s.size + 2 ≤ tok_buf_max
    → Reads int_suffix_size s (c ∷ d ∷ []) tail
size-Reads c d tail s is more e r room =
    Reads-as int_suffix_size (suffix_pair d) s (c ∷ d ∷ []) tail (is s e)
      (suffix_pair-Reads c d tail s more e r room)

single_8 : (t : Lexer) → t.cc ≡ 56 → int_suffix_size t ≡ put_cc t
unfolding int_suffix_size
single_8 t e = rw e refl

size8-Reads :
    (tail : List ℕ) (s : Lexer)
    → s.cc ≡ 56
    → s.rest ≡ tail
    → s.size + 1 ≤ tok_buf_max
    → Reads int_suffix_size s (56 ∷ []) tail
size8-Reads tail s e r room =
    Reads-as int_suffix_size put_cc s (56 ∷ []) tail (single_8 s e)
      (put_cc-Reads 56 tail s e r room)

pub pair_16 : (t : Lexer) → t.cc ≡ 49 → int_suffix_size t ≡ suffix_pair 54 t
unfolding int_suffix_size
pair_16 t e = rw e refl

pub pair_32 : (t : Lexer) → t.cc ≡ 51 → int_suffix_size t ≡ suffix_pair 50 t
unfolding int_suffix_size
pair_32 t e = rw e refl

pub pair_64 : (t : Lexer) → t.cc ≡ 54 → int_suffix_size t ≡ suffix_pair 52 t
unfolding int_suffix_size
pair_64 t e = rw e refl

marked :
    (up signed : Bool) (s : Lexer)
    → s.cc ≡ mark up signed
    → grab_int_suffix s ≡ (put_cc s >>= λ u. int_suffix_size (grab u))
unfolding grab_int_suffix
marked true true s e = rw e refl
marked true false s e = rw e refl
marked false true s e = rw e refl
marked false false s e = rw e refl

marked_more : (up signed : Bool) → (mark up signed == eof_char) ≡ false
marked_more true true = refl
marked_more true false = refl
marked_more false true = refl
marked_more false false = refl

pub mark8 :
    (up signed : Bool) (tail : List ℕ) (s : Lexer)
    → s.cc ≡ mark up signed
    → s.rest ≡ 56 ∷ tail
    → s.size + 2 ≤ tok_buf_max
    → Reads grab_int_suffix s (mark up signed ∷ 56 ∷ []) tail
mark8 up signed tail s e r room =
    put-then (mark up signed) 56 [] tail grab_int_suffix int_suffix_size s (marked up signed s e) e
      (marked_more up signed) r room (size8-Reads tail)

pub mark_pair :
    (up signed : Bool) (c d : ℕ) (tail : List ℕ) (s : Lexer)
    → ((t : Lexer) → t.cc ≡ c → int_suffix_size t ≡ suffix_pair d t)
    → (c == eof_char) ≡ false
    → s.cc ≡ mark up signed
    → s.rest ≡ c ∷ d ∷ tail
    → s.size + 3 ≤ tok_buf_max
    → Reads grab_int_suffix s (mark up signed ∷ c ∷ d ∷ []) tail
mark_pair up signed c d tail s is more e r room =
    put-then (mark up signed) c (d ∷ []) tail grab_int_suffix int_suffix_size s
      (marked up signed s e) e (marked_more up signed) r room (λ t. size-Reads c d tail t is more)
