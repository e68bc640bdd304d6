-- ===== src/Lex/Grab.antt =====
-- The functions of src/nnc_lex.c that read the characters of one token.
use nnc.Common.{ℕ, ◌+◌, Bool, ◌||◌, ◌&&◌, if◌then◌else◌, ◌==◌, leb, List, [], ◌∷◌}
use nnc.Lex.Stream.{
  Lexer, bad_esc, bad_chr, bad_str, bad_exp, bad_float, bad_suffix, Out, ok, thrown, ◌>>=◌,
  eof_char, undo, read, grab, tok_clear, put_c, put_cc, scan,
}

abbrev pub is_digit : ℕ → Bool
is_digit c = leb 48 c && leb c 57

abbrev pub is_hex_digit : ℕ → Bool
is_hex_digit c = is_digit c || (leb 97 c && leb c 102) || (leb 65 c && leb c 70)

abbrev pub is_oct_digit : ℕ → Bool
is_oct_digit c = leb 48 c && leb c 55

abbrev pub is_bin_digit : ℕ → Bool
is_bin_digit c = leb 48 c && leb c 49

abbrev pub is_letter : ℕ → Bool
is_letter c = (leb 97 c && leb c 122) || (leb 65 c && leb c 90) || c == 95

abbrev pub is_ident_char : ℕ → Bool
is_ident_char c = is_digit c || is_letter c

-- The characters that may follow a backslash: 0 a b f t v r n, the backslash and both quotes.
abbrev pub is_esc : ℕ → Bool
is_esc c =
    c == 48
    || c == 97
    || c == 98
    || c == 102
    || c == 116
    || c == 118
    || c == 114
    || c == 110
    || c == 92
    || c == 39
    || c == 34

unfoldable pub grab_esc : Lexer → Out
grab_esc s = if is_esc s.cc then ok s else thrown bad_esc (undo s)

-- A backslash and the character behind it, as `nnc_lex_grab_chr` and `nnc_lex_grab_str` put them.
unfoldable pub put_esc : Lexer → Out
unfolding grab_esc put_cc grab
put_esc s = put_cc s >>= λ t. grab_esc (grab t) >>= put_cc

-- The character literal up to the test for its closing quote.
unfoldable pub chr_body : Lexer → Out
unfolding put_esc
chr_body s =
    if s.cc == eof_char
    then ok s
    else ((if s.cc == 92 then put_esc s else put_c s.cc s) >>= λ t. ok (grab t))

unfoldable pub close_chr : Lexer → Out
close_chr s = if s.cc == 39 then put_cc s else thrown bad_chr (undo s)

unfoldable pub grab_chr : Lexer → Out
unfolding chr_body close_chr
grab_chr s = put_cc (tok_clear s) >>= λ t. chr_body (grab t) >>= close_chr

-- The loop of `nnc_lex_grab_str` over the bytes that are left.
unfoldable pub str_from : List ℕ → Lexer → Out
unfolding put_esc
str_from [] s = ok (read eof_char [] s)
str_from (c ∷ []) s =
    let t = read c [] s in
    let further = put_cc t >>= str_from [] in
    let escaped = put_esc t >>= str_from [] in
    if c == eof_char || c == 10 || c == 34 then ok t else (if c == 92 then escaped else further)
str_from (c ∷ d ∷ cs) s =
    let t = read c (d ∷ cs) s in
    let further = put_cc t >>= str_from (d ∷ cs) in
    let escaped = put_esc t >>= str_from cs in
    if c == eof_char || c == 10 || c == 34 then ok t else (if c == 92 then escaped else further)

unfoldable pub close_str : Lexer → Out
close_str s = if s.cc == 34 then put_cc s else thrown bad_str (undo s)

unfoldable pub grab_str : Lexer → Out
unfolding str_from close_str
grab_str s = put_cc (tok_clear s) >>= λ t.
    (if t.cc == eof_char then ok t else str_from t.rest t) >>= close_str

unfoldable pub grab_exponent : Lexer → Out
unfolding put_cc grab
grab_exponent s = put_cc s >>= λ t.
    let u = grab t in
    if u.cc == 43 || u.cc == 45
    then (put_c u.cc u >>= scan is_digit ok)
    else thrown bad_exp (undo u)

-- One digit of a suffix and the one that must follow it.
unfoldable pub suffix_pair : ℕ → Lexer → Out
unfolding put_cc grab
suffix_pair d s =
    put_cc s >>= λ t. let u = grab t in if u.cc == d then put_cc u else thrown bad_suffix (undo u)

unfoldable pub int_suffix_size : Lexer → Out
unfolding suffix_pair
int_suffix_size s =
    if s.cc == 49
    then suffix_pair 54 s
    else (if s.cc == 51
        then suffix_pair 50 s
        else (if s.cc == 54
            then suffix_pair 52 s
            else (if s.cc == 56 then put_cc s else thrown bad_suffix (undo s))))

unfoldable pub grab_int_suffix : Lexer → Out
unfolding int_suffix_size
grab_int_suffix s =
    if s.cc == 117 || s.cc == 105 || s.cc == 85 || s.cc == 73
    then (put_cc s >>= λ t. int_suffix_size (grab t))
    else ok (undo s)

unfoldable pub float_suffix_size : Lexer → Out
unfolding suffix_pair
float_suffix_size s =
    if s.cc == 51
    then suffix_pair 50 s
    else (if s.cc == 54 then suffix_pair 52 s else thrown bad_suffix (undo s))

unfoldable pub grab_float_suffix : Lexer → Out
unfolding float_suffix_size
grab_float_suffix s =
    if s.cc == 102 || s.cc == 70
    then (put_cc s >>= λ t. float_suffix_size (grab t))
    else ok (undo s)

-- The loop of `nnc_lex_grab_float` and the test behind it: `after` is `size_after_dot`.
unfoldable pub after_dot : ℕ → Lexer → Out
after_dot after s = if after == 0 then thrown bad_float (undo s) else ok s

unfoldable pub float_from : List ℕ → ℕ → Lexer → Out
unfolding after_dot grab_exponent grab_float_suffix
float_from [] after s = after_dot after (read eof_char [] s)
float_from (c ∷ cs) after s =
    let t = read c cs s in
    let further = put_cc t >>= float_from cs (after + 1) in
    if c == eof_char
    then after_dot after t
    else (if c == 101 || c == 69
        then (grab_exponent t >>= λ u. grab_float_suffix u >>= after_dot after)
        else (if is_digit c then further else (grab_float_suffix t >>= after_dot after)))

unfoldable pub grab_float : Lexer → Out
unfolding float_from
grab_float s = put_cc s >>= λ t. if t.cc == eof_char then after_dot 0 t else float_from t.rest 0 t

unfoldable pub grab_hex : Lexer → Out
unfolding grab_int_suffix
grab_hex s = put_cc (tok_clear s) >>= scan is_hex_digit grab_int_suffix

-- What ends a decimal number: a dot makes it a floating one.
unfoldable pub leave_dec : Lexer → Out
unfolding grab_float grab_int_suffix
leave_dec s = if s.cc == 46 then grab_float s else grab_int_suffix s

unfoldable pub grab_dec : Lexer → Out
unfolding leave_dec
grab_dec s = put_cc (tok_clear s) >>= scan is_digit leave_dec

unfoldable pub grab_oct : Lexer → Out
unfolding grab_int_suffix
grab_oct s = put_cc (tok_clear s) >>= scan is_oct_digit grab_int_suffix

unfoldable pub grab_bin : Lexer → Out
unfolding grab_int_suffix
grab_bin s = put_cc (tok_clear s) >>= scan is_bin_digit grab_int_suffix

-- The number behind a leading zero.
unfoldable pub after_zero : Lexer → Out
unfolding grab_hex grab_oct grab_bin grab_dec undo
after_zero t =
    if t.cc == eof_char
    then grab_dec (undo t)
    else (if t.cc == 120
        then grab_hex t
        else (if t.cc == 111
            then grab_oct t
            else (if t.cc == 98
                then grab_bin t
                else (if leb 48 t.cc || leb t.cc 57 then grab_dec (undo t) else ok (undo t)))))

unfoldable pub grab_number : Lexer → Out
unfolding after_zero
grab_number s = if s.cc == 48 then after_zero (grab s) else grab_dec s

-- The identifier, without the search for a keyword.
unfoldable pub grab_word : Lexer → Out
unfolding put_cc scan undo
grab_word s = put_cc (tok_clear s) >>= scan is_ident_char ok >>= λ t. ok (undo t)
