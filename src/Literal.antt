-- ===== src/Literal.antt =====
-- Character and string literals of src/nnc_literal.c. A lexeme is the list of its characters' codes,
-- the zero that ends it left out.
pub mod Buffer
pub mod Strings
pub mod Ints
pub mod Conversion
mod Tests
use nnc.Common.{
  ℕ, zero, suc, ◌+◌, ◌-◌, Bool, true, false, not, ◌||◌, ◌&&◌, if◌then◌else◌, ◌==◌, ltb, List, [],
  ◌∷◌, length, get_or,
}

-- `fault` is a read or write outside a buffer, `overflow` the exception NNC_OVERFLOW.
pub data Read (A : Type 0) : Type 0 where
  ok : A → Read A
  aborted : Read A
  overflow : Read A
  fault : Read A

infixl 5 ◌>>=◌
abbrev pub ◌>>=◌ : {A B : Type 0} → Read A → (A → Read B) → Read B
ok a >>= f = f a
aborted >>= f = aborted
overflow >>= f = overflow
fault >>= f = fault

abbrev pub backslash : ℕ
backslash = 92

-- `nnc_get_esc_chr`, by the character codes of 0 a b f t v r n and of the three marks.
unfoldable pub get_esc_chr : ℕ → Read ℕ
get_esc_chr c =
    if c == 48
    then ok 0
    else (if c == 97
        then ok 7
        else (if c == 98
            then ok 8
            else (if c == 102
                then ok 12
                else (if c == 116
                    then ok 9
                    else (if c == 118
                        then ok 11
                        else (if c == 114
                            then ok 13
                            else (if c == 110
                                then ok 10
                                else (if c == 92
                                    then ok 92
                                    else (if c == 39
                                        then ok 39
                                        else (if c == 34 then ok 34 else aborted))))))))))

-- `repr[i]`, which is zero at the end.
pub char_at : List ℕ → ℕ → Read ℕ
char_at repr i = if ltb (length repr) i then fault else ok (get_or repr i 0)

unfoldable pub chr_new : List ℕ → Read ℕ
unfolding char_at get_esc_chr
chr_new repr =
    if ltb (length repr) 1
    then aborted
    else char_at repr 1 >>= λ c.
        if not (c == backslash) then ok c else (char_at repr 2 >>= get_esc_chr)

-- The loop of `nnc_str_zip` over the characters between the quotes: `room` is what is left of the
-- buffer `exact`, `met` is `esc_chr_met`, and the result is what is written to the buffer.
unfoldable pub zip_chars : ℕ → Bool → List ℕ → Read (List ℕ)
unfolding get_esc_chr
zip_chars room met [] = ok []
zip_chars room met (c ∷ cs) = (if met then get_esc_chr c else ok c) >>= λ d.
    let after_esc = zip_chars room true cs in
    let after_chr = zip_chars (room - 1) false cs in
    if c == backslash
    then after_esc
    else (if room == 0 then fault else (after_chr >>= λ ds. ok (d ∷ ds)))

-- The characters up to the last one.
abbrev pub but_last : List ℕ → List ℕ
but_last [] = []
but_last (c ∷ []) = []
but_last (c ∷ d ∷ cs) = c ∷ but_last (d ∷ cs)

-- The loop runs from 1 to the length less one, which wraps around for the empty lexeme.
unfoldable pub str_zip : ℕ → List ℕ → Read (List ℕ)
unfolding zip_chars
str_zip room [] = fault
str_zip room (c ∷ cs) = zip_chars room false (but_last cs)

-- `strlen` of the zeroed buffer that holds these characters.
abbrev pub strlen : List ℕ → ℕ
strlen [] = 0
strlen (zero ∷ cs) = 0
strlen (suc c ∷ cs) = suc (strlen cs)

-- The same where the buffer has `room` characters.
unfoldable pub strlen_in : ℕ → List ℕ → Read ℕ
strlen_in zero cs = fault
strlen_in (suc room) [] = ok 0
strlen_in (suc room) (zero ∷ cs) = ok 0
strlen_in (suc room) (suc c ∷ cs) = strlen_in room cs >>= λ n. ok (suc n)

pub record StrLiteral : Type 0 where
  pub exact : List ℕ
  pub bytes : ℕ

-- The buffer is allocated for one character more than the lexeme has.
unfoldable pub str_new : List ℕ → Read StrLiteral
unfolding str_zip strlen_in
str_new repr =
    let room = length repr + 1 in
    str_zip room repr >>= λ exact.
    strlen_in room exact >>= λ bytes. ok (record { exact = exact; bytes = bytes })
