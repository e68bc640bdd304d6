-- ===== src/Arena/Live.antt =====
-- The live entries of src/nnc_arena.c's array: what the program sees of it.
use nnc.Common.{
  ℕ, zero, suc, ◌+◌, ◌≤◌, ◌<◌, ◌≡◌, refl, ◌∙◌, List, [], ◌∷◌, ◌++◌, Option, none, some, arith,
  length,
}
use mathlib.Core.List.{append_assoc, append-nil}
use nnc.Arena.{Entry, Slots}

abbrev pub to_list : Option Entry → List Entry
to_list none = []
to_list (some e) = e ∷ []

-- The entries in the `n` slots from slot `i`, in their order.
unfoldable pub live : Slots → ℕ → ℕ → List Entry
live es i zero = []
live es i (suc n) = to_list (es i) ++ live es (i + 1) n

unfoldable pub total_bytes : List Entry → ℕ
total_bytes [] = 0
total_bytes (e ∷ l) = e.bytes + total_bytes l

pub total_bytes-append : (a b : List Entry) → total_bytes (a ++ b) ≡ total_bytes a + total_bytes b
unfolding total_bytes
total_bytes-append [] b = omega arith
total_bytes-append (e ∷ a) b = omega (arith, total_bytes-append a b)

pub live_congr :
    (es fs : Slots) (i n : ℕ)
    → ((j : ℕ) → i ≤ j → j < i + n → es j ≡ fs j)
    → live es i n ≡ live fs i n
unfolding live
live_congr es fs i zero h = refl
live_congr es fs i (suc n) h = rw (
  h i (omega arith) (omega arith),
  live_congr es fs (i + 1) n (λ j p q. h j (omega arith) (omega arith)),
)

pub live-split : (es : Slots) (i m n : ℕ) → live es i (m + n) ≡ live es i m ++ live es (i + m) n
unfolding live
live-split es i zero n =
    let e : i + 0 ≡ i = omega arith in let f : 0 + n ≡ n = omega arith in rw (e, f)
live-split es i (suc m) n =
    let e : suc m + n ≡ suc (m + n) = omega arith in
    let f : i + 1 + m ≡ i + suc m = omega arith in
    rw (e, live-split es (i + 1) m n, f, append_assoc)

pub live_one : (es : Slots) (i : ℕ) → live es i 1 ≡ to_list (es i)
unfolding live
live_one es i = append-nil _

pub live-suc : (es : Slots) (n : ℕ) → live es 0 (n + 1) ≡ live es 0 n ++ to_list (es n)
live-suc es n = let e : 0 + n ≡ n = omega arith in live-split es 0 n 1 ∙ rw (e, live_one es n)

pub length-live-le : (es : Slots) (i n : ℕ) → length (live es i n) ≤ n
unfolding live
length-live-le es i zero = omega arith
length-live-le es i (suc n) = ground (arith, length-live-le es (i + 1) n)
