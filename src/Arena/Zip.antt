-- ===== src/Arena/Zip.antt =====
-- The compaction `nnc_arena_zip` of src/nnc_arena.c.
use nnc.Common.{
  ℕ, zero, suc, ◌+◌, ◌≤◌, ◌<◌, ◌≡◌, refl, ap, ◌∙◌, inl, inr, [], ◌∷◌, ◌++◌, none, some, arith,
  length, Option-cases,
}
use mathlib.Core.List.{append_assoc, append-nil}
use nnc.Arena.{Arena, Entry, Slots, move, zip_loop, zip}
use nnc.Arena.Live.{live, live_congr, live-suc}

-- What the rounds `addr ≤ j < addr + rounds` of the loop leave.
record Packs (es : Slots) (rounds addr len : ℕ) (r : ℕ × Slots) : Type 0 where
  keeps : live r.1 0 r.0 ≡ live es 0 len ++ live es addr rounds
  counts : r.0 ≡ len + length (live es addr rounds)
  clears : (j : ℕ) → r.0 ≤ j → j < addr + rounds → r.1 j ≡ none

module _ (es : Slots) (addr len : ℕ) (e : Entry) (h : len ≤ addr) where
  move_before : (j : ℕ) → j < len → move es addr len e j ≡ es j
  unfolding move
  move_before j p = ground arith

  move_at : move es addr len e len ≡ some e
  unfolding move
  move_at = ground arith

  move_behind : (j : ℕ) → addr < j → move es addr len e j ≡ es j
  unfolding move
  move_behind j p = ground arith

  move_between :
      ((j : ℕ) → len ≤ j → j < addr → es j ≡ none)
      → (j : ℕ) → len < j
      → j < addr + 1
      → move es addr len e j ≡ none
  unfolding move
  move_between gap j p q = ground (arith, gap j)

  live-move_front : live (move es addr len e) 0 (len + 1) ≡ live es 0 len ++ e ∷ []
  live-move_front =
      live-suc _ len ∙ rw (move_at, live_congr _ es 0 len (λ j p q. move_before j (omega arith)))

  live-move_back : (n : ℕ) → live (move es addr len e) (addr + 1) n ≡ live es (addr + 1) n
  live-move_back n = live_congr _ es (addr + 1) n (λ j p q. move_behind j (omega arith))

zip_loop-Packs :
    (rounds addr len : ℕ) (es : Slots)
    → len ≤ addr
    → ((j : ℕ) → len ≤ j → j < addr → es j ≡ none)
    → Packs es rounds addr len (zip_loop rounds addr len es)
unfolding zip_loop live
zip_loop-Packs zero addr len es h gap = record {
  keeps = rw append-nil;
  counts = omega arith;
  clears = λ j p q. gap j p (omega arith);
}
zip_loop-Packs (suc rounds) addr len es h gap = elim (Option-cases (es addr)) [
  | inl e ↦
      let r =
        zip_loop-Packs rounds (addr + 1) len es (omega arith) (λ j p q. ground (arith, gap j)) in
      rw (e, zip_loop)
        (record {
          keeps = r.keeps ∙ rw e;
          counts = rw e r.counts;
          clears = λ j p q. r.clears j p (omega arith);
        })
  | inr (x, e) ↦
      let r =
        zip_loop-Packs rounds (addr + 1) (len + 1) (move es addr len x) (omega arith)
          (λ j p q. move_between es addr len x h gap j (omega arith) q) in
      let front = live-move_front es addr len x h in
      let back = live-move_back es addr len x h rounds in
      rw (e, zip_loop)
        (record {
          keeps = r.keeps ∙ rw (front, back, append_assoc, e);
          counts = rw e (omega (arith, r.counts, ap length back));
          clears = λ j p q. r.clears j p (omega arith);
        })
]

-- The live entries stay, in their order, in the first slots; the other slots in use are NULL.
pub record IsCompacted (a r : Arena) : Type 0 where
  pub keeps : live r.entries 0 r.len ≡ live a.entries 0 a.len
  pub counts : r.len ≡ length (live a.entries 0 a.len)
  pub clears : (j : ℕ) → r.len ≤ j → j < a.len → r.entries j ≡ none
  pub resets : r.disposed ≡ 0
  pub same_cap : r.cap ≡ a.cap
  pub same_bytes : r.alloc_bytes ≡ a.alloc_bytes

-- `nnc_arena_zip` moves the entries that are left to the front, in order, clears the slots behind
-- them up to the old length, counts them as the new length and forgets the disposed ones.
pub zip-IsCompacted : (a : Arena) → IsCompacted a (zip a)
unfolding zip live
zip-IsCompacted a =
    let r = zip_loop-Packs a.len 0 0 a.entries (omega arith) (λ j p q. absurd (omega arith)) in
    record {
      keeps = r.keeps;
      counts = omega (arith, r.counts);
      clears = λ j p q. r.clears j p (omega arith);
      resets = refl;
      same_cap = refl;
      same_bytes = refl;
    }
