-- ===== src/Literal/Buffer.antt =====
-- The buffer that `nnc_str_new` of src/nnc_literal.c allocates and `nnc_str_zip` fills.
use nnc.Common.{
  zero, suc, ◌+◌, ◌-◌, ◌<◌, ◌≢◌, ℕ, ◌≤◌, ◌≡◌, ◌∙◌, refl, sym, ap, Bool, true, false, if◌then◌else◌,
  ◌==◌, List, [], ◌∷◌, ◌++◌, length, arith,
}
use mathlib.Core.Path.{subst, fun_ext}
use nnc.Literal.{
  StrLiteral, strlen_in, Read, ok, aborted, overflow, fault, ◌>>=◌, backslash, get_esc_chr,
  zip_chars, but_last, str_zip, strlen, str_new,
}

-- The loop of `nnc_str_zip` with a buffer that never ends.
unfoldable pub zip_freely : Bool → List ℕ → Read (List ℕ)
unfolding get_esc_chr
zip_freely met [] = ok []
zip_freely met (c ∷ cs) = (if met then get_esc_chr c else ok c) >>= λ d.
    let after_esc = zip_freely true cs in
    let after_chr = zip_freely false cs in
    if c == backslash then after_esc else (after_chr >>= λ ds. ok (d ∷ ds))

-- A buffer as long as the text is as good.
zip_chars-freely :
    (room : ℕ) (met : Bool) (cs : List ℕ)
    → length cs ≤ room
    → zip_chars room met cs ≡ zip_freely met cs
unfolding zip_chars zip_freely
zip_chars-freely room met [] h = refl
zip_chars-freely room met (c ∷ cs) h =
    let left : (room == 0) ≡ false = ground arith in
    let after_esc = zip_chars-freely room true cs (omega arith) in
    let after_chr = zip_chars-freely (room - 1) false cs (omega arith) in
    ap (λ f. (if met then get_esc_chr c else ok c) >>= f)
      (fun_ext λ d. rw (left, after_esc, after_chr) refl)

abbrev Fits : List ℕ → Read (List ℕ) → Type 0
Fits cs (ok ds) = length ds ≤ length cs
Fits cs aborted = Unit
Fits cs overflow = ⊥
Fits cs fault = ⊥

Fits-skip : (c : ℕ) (cs : List ℕ) (r : Read (List ℕ)) → Fits cs r → Fits (c ∷ cs) r
Fits-skip c cs (ok ds) h = omega arith
Fits-skip c cs aborted h = tt
Fits-skip c cs overflow h = h
Fits-skip c cs fault h = h

Fits-cons :
    (c d : ℕ) (cs : List ℕ) (r : Read (List ℕ))
    → Fits cs r
    → Fits (c ∷ cs) (r >>= λ ds. ok (d ∷ ds))
Fits-cons c d cs (ok ds) h = omega arith
Fits-cons c d cs aborted h = tt
Fits-cons c d cs overflow h = h
Fits-cons c d cs fault h = h

abbrev IsKnown : Read ℕ → Type 0
IsKnown (ok d) = Unit
IsKnown aborted = Unit
IsKnown overflow = ⊥
IsKnown fault = ⊥

IsKnown-if : (b : Bool) (d : ℕ) (r : Read ℕ) → IsKnown r → IsKnown (if b then ok d else r)
IsKnown-if true d r h = tt
IsKnown-if false d r h = h

get_esc_chr-IsKnown : (c : ℕ) → IsKnown (get_esc_chr c)
unfolding get_esc_chr
get_esc_chr-IsKnown c = IsKnown-if (c == 48) 0 _ (
    IsKnown-if (c == 97) 7 _ (
      IsKnown-if (c == 98) 8 _ (
        IsKnown-if (c == 102) 12 _ (
          IsKnown-if (c == 116) 9 _ (
            IsKnown-if (c == 118) 11 _ (
              IsKnown-if (c == 114) 13 _ (
                IsKnown-if (c == 110) 10 _ (
                  IsKnown-if (c == 92) 92 _
                    (IsKnown-if (c == 39) 39 _ (IsKnown-if (c == 34) 34 _ tt))))))))))

Fits-bind :
    (xs : List ℕ) (r : Read ℕ) (f : ℕ → Read (List ℕ))
    → IsKnown r
    → ((d : ℕ) → Fits xs (f d))
    → Fits xs (r >>= f)
Fits-bind xs (ok d) f k h = h d
Fits-bind xs aborted f k h = tt
Fits-bind xs overflow f k h = k
Fits-bind xs fault f k h = k

Fits-if :
    (b : Bool) (xs : List ℕ) (r s : Read (List ℕ))
    → Fits xs r
    → Fits xs s
    → Fits xs (if b then r else s)
Fits-if true xs r s h k = h
Fits-if false xs r s h k = k

char-IsKnown : (met : Bool) (c : ℕ) → IsKnown (if met then get_esc_chr c else ok c)
char-IsKnown true c = get_esc_chr-IsKnown c
char-IsKnown false c = tt

zip_freely-Fits : (met : Bool) (cs : List ℕ) → Fits cs (zip_freely met cs)
unfolding zip_freely
zip_freely-Fits met [] = omega arith
zip_freely-Fits met (c ∷ cs) =
    Fits-bind (c ∷ cs) (if met then get_esc_chr c else ok c) _ (char-IsKnown met c) (λ d.
      Fits-if (c == backslash) (c ∷ cs) _ _
        (Fits-skip c cs (zip_freely true cs) (zip_freely-Fits true cs))
        (Fits-cons c d cs (zip_freely false cs) (zip_freely-Fits false cs)))

but_last-length : (cs : List ℕ) → length (but_last cs) ≤ length cs
but_last-length [] = omega arith
but_last-length (c ∷ []) = omega arith
but_last-length (c ∷ d ∷ cs) = omega (arith, but_last-length (d ∷ cs))

strlen_in-strlen : (room : ℕ) (cs : List ℕ) → length cs < room → strlen_in room cs ≡ ok (strlen cs)
unfolding strlen_in
strlen_in-strlen zero cs h = absurd (omega arith)
strlen_in-strlen (suc room) [] h = refl
strlen_in-strlen (suc room) (zero ∷ cs) h = refl
strlen_in-strlen (suc room) (suc c ∷ cs) h = rw (strlen_in-strlen room cs (omega arith)) refl

-- The literal that these characters give.
abbrev pub literal : List ℕ → Read StrLiteral
literal exact = ok (record { exact = exact; bytes = strlen exact })

counted :
    (room : ℕ) (cs : List ℕ) (r : Read (List ℕ))
    → length cs < room
    → Fits cs r
    → (r >>= λ exact.
        strlen_in room exact >>= λ bytes. ok (record { exact = exact; bytes = bytes }))
      ≡ (r >>= literal)
counted room cs (ok ds) h f = rw (strlen_in-strlen room ds (omega arith)) refl
counted room cs aborted h f = refl
counted room cs overflow h f = refl
counted room cs fault h f = refl

-- The buffer of `nnc_str_new` is as good as one that never ends.
str_new-freely :
    (c : ℕ) (cs : List ℕ) → str_new (c ∷ cs) ≡ (zip_freely false (but_last cs) >>= literal)
unfolding str_new str_zip
str_new-freely c cs =
    let room = length (c ∷ cs) + 1 in
    let short = but_last-length cs in
    rw (zip_chars-freely room false (but_last cs) (omega (arith, short))) (
      counted room (but_last cs) (zip_freely false (but_last cs)) (omega (arith, short))
        (zip_freely-Fits false (but_last cs)))

bind_literal-Fits : (cs : List ℕ) (r : Read (List ℕ)) → Fits cs r → (r >>= literal) ≢ fault
bind_literal-Fits cs (ok ds) f e = cc
bind_literal-Fits cs aborted f e = cc
bind_literal-Fits cs overflow f e = f
bind_literal-Fits cs fault f e = f

-- For every lexeme with at least one character `nnc_str_new` neither writes nor counts outside the
-- buffer that it allocates, whatever escapes the lexeme has.
pub str_new_fits : (c : ℕ) (cs : List ℕ) → str_new (c ∷ cs) ≢ fault
str_new_fits c cs =
    subst (λ r. r ≢ fault) (sym (str_new-freely c cs))
      (bind_literal-Fits (but_last cs) (zip_freely false (but_last cs))
        (zip_freely-Fits false (but_last cs)))

but_last-snoc : (cs : List ℕ) (q : ℕ) → but_last (cs ++ q ∷ []) ≡ cs
but_last-snoc [] q = refl
but_last-snoc (c ∷ []) q = refl
but_last-snoc (c ∷ d ∷ cs) q = ap (λ (xs : List ℕ). c ∷ xs) (but_last-snoc (d ∷ cs) q)

pub str_new_quoted :
    (q : ℕ) (cs : List ℕ) → str_new (q ∷ cs ++ q ∷ []) ≡ (zip_freely false cs >>= literal)
str_new_quoted q cs =
    str_new-freely q (cs ++ q ∷ [])
    ∙ ap (λ ds. zip_freely false ds >>= literal) (but_last-snoc cs q)
