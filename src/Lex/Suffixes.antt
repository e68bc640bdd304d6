-- ===== src/Lex/Suffixes.antt =====
-- How src/nnc_lex.c reads the suffix of an integral number, or none.
use nnc.Common.{
  ℕ, ◌+◌, ◌≤◌, ◌≡◌, sym, refl, Bool, true, false, ◌||◌, ◌==◌, List, [], ◌∷◌, ◌++◌, arith,
}
use nnc.Lex.Stream.{Lexer, ok, tok_buf_max, undo}
use nnc.Lex.Grab.{is_ident_char, grab_int_suffix}
use nnc.Lex.Reads.{ends_class, Stopped, left, append_nil, Appended, undo-Stopped}
use nnc.Literal.Ints.{
  IntSuffix, suffix_u8, suffix_u16, suffix_u32, suffix_u64, suffix_i8, suffix_i16, suffix_i32,
  suffix_i64, suffix_none,
}
use nnc.Literal.Ints.Suffix.{spelling}
use nnc.Lex.Marks.{mark8, mark_pair, pair_16, pair_32, pair_64}

-- What cannot go on a number: neither an identifier's characters nor a dot.
abbrev pub is_number_char : ℕ → Bool
is_number_char c = is_ident_char c || c == 46

unsuffixed :
    (c : ℕ) (cs : List ℕ) (s : Lexer)
    → ends_class is_number_char (c ∷ cs) ≡ true
    → s.cc ≡ c
    → grab_int_suffix s ≡ ok (undo s)
unfolding grab_int_suffix
unsuffixed c cs s b e =
    let other : (c == 117 || c == 105 || c == 85 || c == 73) ≡ false = ground arith in
    rw (e, other) refl

grab_int_suffix-none :
    (tail : List ℕ) (t : Lexer)
    → ends_class is_number_char tail ≡ true
    → Stopped tail t
    → (u : Lexer) × (left grab_int_suffix tail t ≡ ok u) × Appended t [] tail u
unfolding undo
grab_int_suffix-none [] t b (e, r) =
    (t, refl, record { put = sym (append_nil t.lexeme); sized = omega arith; left_over = r })
grab_int_suffix-none (c ∷ cs) t b (e, r) = (
  undo t,
  unsuffixed c cs t b e,
  record {
    put = sym (append_nil t.lexeme);
    sized = omega arith;
    left_over = undo-Stopped is_number_char (c ∷ cs) t b (e, r);
  },
)

-- What may stand behind a number with this suffix: anything behind a suffix.
abbrev pub ends_number : IntSuffix → List ℕ → Bool
ends_number suffix_none tail = ends_class is_number_char tail
ends_number _ tail = true

pub grab_int_suffix-Appended :
    (up : Bool) (s : IntSuffix) (tail : List ℕ) (t : Lexer)
    → ends_number s tail ≡ true
    → Stopped (spelling up s ++ tail) t
    → t.size + 3 ≤ tok_buf_max
    → (u : Lexer) × (left grab_int_suffix (spelling up s ++ tail) t ≡ ok u)
      × Appended t (spelling up s) tail u
grab_int_suffix-Appended up suffix_none tail t b h room = grab_int_suffix-none tail t b h
grab_int_suffix-Appended up suffix_u8 tail t b (e, r) room = mark8 up true tail t e r (omega arith)
grab_int_suffix-Appended up suffix_i8 tail t b (e, r) room = mark8 up false tail t e r (omega arith)
grab_int_suffix-Appended up suffix_u16 tail t b (e, r) room =
    mark_pair up true 49 54 tail t pair_16 refl e r room
grab_int_suffix-Appended up suffix_i16 tail t b (e, r) room =
    mark_pair up false 49 54 tail t pair_16 refl e r room
grab_int_suffix-Appended up suffix_u32 tail t b (e, r) room =
    mark_pair up true 51 50 tail t pair_32 refl e r room
grab_int_suffix-Appended up suffix_i32 tail t b (e, r) room =
    mark_pair up false 51 50 tail t pair_32 refl e r room
grab_int_suffix-Appended up suffix_u64 tail t b (e, r) room =
    mark_pair up true 54 52 tail t pair_64 refl e r room
grab_int_suffix-Appended up suffix_i64 tail t b (e, r) room =
    mark_pair up false 54 52 tail t pair_64 refl e r room
