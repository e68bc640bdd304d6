-- ===== src/Hash.antt =====
-- The hash functions and the comparison of keys of src/nnc_map.c. A map is used with one of the two
-- hash functions throughout: with `nncmap_hash` its keys are 64-bit numbers, with `nncmap_hash_str`
-- they are C strings, taken here by their contents (bytes before the terminating 0).
use Prim.Native.Nat.{bit_xor}
use nnc.Common.{
  ℕ, ◌+◌, ◌-◌, ◌*◌, ◌/◌, ◌%◌, ◌^◌, ◌≡◌, refl, ◌↔◌, Option, none, some, List, [], ◌∷◌, Bool, true,
  false, arith, ltb, ◌==◌, ==_iff, if◌then◌else◌,
}

-- A hash function with the comparison that `nncmap_keys_cmp` makes for it. `zero_cmp` tells whether
-- the comparison finds the key equal to the zero that an empty bucket has in place of a key; `none`
-- is a read through the null pointer that this zero is for a string.
pub record Key {ℓ} (K : Type ℓ) : Type ℓ where
  pub keys_cmp : K → K → Bool
  pub zero_cmp : K → Option Bool
  pub hash : K → ℕ
  pub keys_cmp_iff : (a b : K) → (keys_cmp a b ≡ true) ↔ (a ≡ b)

abbrev pub u64_mod : ℕ
u64_mod = 2 ^ 64

-- `key ^ (key >> a) ^ (key >> b)`
abbrev mix : ℕ → ℕ → ℕ → ℕ
mix key a b = bit_xor (bit_xor key (key / 2 ^ a)) (key / 2 ^ b)

unfoldable pub hash_u64 : ℕ → ℕ
hash_u64 key =
    let first = mix key 31 62 * 0x319642b2d24d8ec3 % u64_mod in
    let second = mix first 27 54 * 0x96de1b173f119089 % u64_mod in mix second 30 60

-- A `char` is signed: from 128 on it is read as a negative number and wraps in the 64-bit sum.
abbrev char_u64 : ℕ → ℕ
char_u64 c = if ltb c 128 then c else u64_mod - 256 + c

hash_str_from : ℕ → List ℕ → ℕ
hash_str_from hash [] = hash
hash_str_from hash (c ∷ s) = hash_str_from ((hash * 32 + hash + char_u64 c) % u64_mod) s

unfoldable pub hash_str : List ℕ → ℕ
unfolding hash_str_from
hash_str s = hash_str_from 5481 s

-- `strcmp(a, b) == 0`
unfoldable pub str_same : List ℕ → List ℕ → Bool
str_same [] [] = true
str_same [] (d ∷ t) = false
str_same (c ∷ s) [] = false
str_same (c ∷ s) (d ∷ t) = if c == d then str_same s t else false

str_same→eq : (a b : List ℕ) → str_same a b ≡ true → a ≡ b
unfolding str_same
str_same→eq [] [] h = refl
str_same→eq [] (d ∷ t) h = cc
str_same→eq (c ∷ s) [] h = cc
str_same→eq (c ∷ s) (d ∷ t) h = ground (arith, str_same→eq s t)

str_same_refl : (a : List ℕ) → str_same a a ≡ true
unfolding str_same
str_same_refl [] = refl
str_same_refl (c ∷ s) = ground (arith, str_same_refl s)

pub str_same_iff : (a b : List ℕ) → (str_same a b ≡ true) ↔ (a ≡ b)
str_same_iff a b = (str_same→eq a b, λ e. rw e (str_same_refl b))

instance abbrev pub u64_key : Key ℕ
u64_key = record {
  keys_cmp = ◌==◌;
  zero_cmp = λ k. some (k == 0);
  hash = hash_u64;
  keys_cmp_iff = ==_iff;
}

instance abbrev pub str_key : Key (List ℕ)
str_key = record {
  keys_cmp = str_same;
  zero_cmp = λ k. none;
  hash = hash_str;
  keys_cmp_iff = str_same_iff;
}

-- The bytes of a string as the digits of a number in base 33, the first one highest.
unfoldable pub horner : ℕ → List ℕ → ℕ
horner n [] = n
horner n (c ∷ s) = horner (n * 33 + char_u64 c) s

hash_str_from-horner : (n : ℕ) (s : List ℕ) → hash_str_from (n % u64_mod) s ≡ horner n s % u64_mod
unfolding hash_str_from horner
hash_str_from-horner n [] = refl
hash_str_from-horner n (c ∷ s) =
    let step : (n % u64_mod * 32 + n % u64_mod + char_u64 c) % u64_mod
        ≡ (n * 33 + char_u64 c) % u64_mod =
      omega arith in
    rw (step, hash_str_from-horner (n * 33 + char_u64 c) s)

-- The loop with its shifts and its wrap-around at every step computes the string's bytes as digits in
-- base 33 on top of the seed 5481, reduced modulo 2 ^ 64 once.
pub hash_str-horner : (s : List ℕ) → hash_str s ≡ horner 5481 s % u64_mod
unfolding hash_str
hash_str-horner s = hash_str_from-horner 5481 s
