-- ===== src/Literal/Tests.antt =====
-- The theorems on literals at concrete lexemes.
use nnc.Common.{◌≢◌, ◌≡◌, refl, true, if◌then◌else◌, List, [], ◌∷◌, ◌++◌, get_or, arith}
use nnc.Literal.{ok, overflow, fault, backslash, chr_new, str_new, strlen}
use nnc.Literal.Buffer.{str_new_fits}
use nnc.Literal.Strings.{
  Piece, plain, escape, esc_line, esc_zero, spell, meaning, str_new-spell, str_new-backslash,
  chr_new-spell,
}
use nnc.Literal.Ints.{
  negsuc, suffix_u8, suffix_i16, int_new, int_check_overflow, signed, unsigned, or_default,
}
use nnc.Literal.Ints.Suffix.{hex, base_of, prefix, spelling, number}
use nnc.Literal.Ints.Value.{bounded, int_new-bounded}
use nnc.Literal.Conversion.{strtoll, strtoull, conversion}
use nnc.Literal.Ints.Range.{width, in_range, int_check_overflow-range}

-- a\nb\0
abbrev text : List Piece
text = plain 97 refl ∷ escape esc_line ∷ plain 98 refl ∷ escape esc_zero ∷ []

str_new-spell_example :
    str_new (34 ∷ spell text ++ 34 ∷ [])
    ≡ ok (record { exact = meaning text; bytes = strlen (meaning text) })
str_new-spell_example = str_new-spell 34 text

-- The zero at the end is not counted.
text_bytes : strlen (meaning text) ≡ 3
text_bytes = refl

-- The text of an escaped backslash and the letter n is read as a line feed.
str_new-backslash_example :
    str_new (34 ∷ (backslash ∷ backslash ∷ 110 ∷ []) ++ 34 ∷ [])
    ≡ str_new (34 ∷ (backslash ∷ 110 ∷ []) ++ 34 ∷ [])
str_new-backslash_example = str_new-backslash 34 (110 ∷ [])

str_new_fits_example : str_new (34 ∷ backslash ∷ 110 ∷ 34 ∷ []) ≢ fault
str_new_fits_example = str_new_fits 34 (backslash ∷ 110 ∷ 34 ∷ [])

chr_new-spell_example :
    (chr_new (39 ∷ spell (escape esc_line ∷ []) ++ 39 ∷ [])
      ≡ ok (get_or (meaning (escape esc_line ∷ [])) 0 0))
    × (chr_new (39 ∷ backslash ∷ backslash ∷ 39 ∷ []) ≡ ok backslash)
chr_new-spell_example = chr_new-spell 39 (escape esc_line)

-- xFfU8
int_new-bounded_example :
    int_new strtoll strtoull (prefix hex ++ ((70 ∷ 102 ∷ []) ++ spelling true suffix_u8))
    ≡ bounded (base_of hex) (or_default suffix_u8) (number (base_of hex) (70 ∷ 102 ∷ []) 0)
int_new-bounded_example =
    int_new-bounded strtoll strtoull conversion hex 70 (102 ∷ []) true suffix_u8 refl (omega arith)

int_new_runs :
    (int_new strtoll strtoull (120 ∷ 70 ∷ 102 ∷ 85 ∷ 56 ∷ [])
      ≡ ok (record { base = 16; suffix = suffix_u8; exact = unsigned 255 }))
    × (int_new strtoll strtoull (120 ∷ 49 ∷ 48 ∷ 48 ∷ 85 ∷ 56 ∷ []) ≡ overflow)
unfolding int_new number
int_new_runs = (refl, refl)

int_check_overflow-range_example :
    int_check_overflow (record { base = 10; suffix = suffix_i16; exact = signed (negsuc 32768) })
    ≡ (if in_range (width suffix_i16) (signed (negsuc 32768))
        then ok (record { base = 10; suffix = suffix_i16; exact = signed (negsuc 32768) })
        else overflow)
int_check_overflow-range_example =
    int_check_overflow-range 10 suffix_i16 (signed (negsuc 32768)) refl
