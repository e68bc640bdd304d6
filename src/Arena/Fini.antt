-- ===== src/Arena/Fini.antt =====
-- `nnc_arena_fini` of src/nnc_arena.c under the arena's invariant.
use nnc.Common.{
  ℕ, zero, suc, ◌+◌, ◌-◌, ◌%◌, ◌≤◌, ◌<◌, ◌≡◌, refl, ap, ◌∙◌, inl, inr, none, some, arith, ◌==◌,
  Bool-cases, Option-cases,
}
use nnc.Arena.{Arena, Entry, ok, u64_mod, write, flush, fini_loop, release, fini}
use nnc.Arena.Live.{live, total_bytes}
use nnc.Arena.Methods.{live-flushed}
use nnc.Arena.Invariant.{IsValid}

-- What the finalising loop leaves of the slots `i ≤ j < i + n`.
record Clears (a r : Arena) (i n : ℕ) : Type 0 where
  before : (j : ℕ) → j < i → r.entries j ≡ a.entries j
  clears : (j : ℕ) → i ≤ j → j < i + n → r.entries j ≡ none
  freed : (r.alloc_bytes + total_bytes (live a.entries i n)) % u64_mod ≡ a.alloc_bytes % u64_mod
  bounded : a.alloc_bytes < u64_mod → r.alloc_bytes < u64_mod

abbrev emptied : Arena → ℕ → Entry → Arena
emptied a i e = record a {
  alloc_bytes = (a.alloc_bytes + (u64_mod - e.bytes % u64_mod)) % u64_mod;
  entries = write a.entries i none;
}

flush-some : (a : Arena) (i : ℕ) (e : Entry) → a.entries i ≡ some e → flush a i ≡ ok (emptied a i e)
unfolding flush
flush-some a i e h = rw (h, flush)

-- What stands in slot `i` is NULL once the loop is past it.
Clears-first :
    (a b r : Arena) (i n : ℕ)
    → b.entries i ≡ none
    → Clears b r (i + 1) n
    → (j : ℕ) → i ≤ j
    → j < i + suc n
    → r.entries j ≡ none
Clears-first a b r i n e t j p q = elim (Bool-cases (i == j)) [
  | inl same ↦ let s : j ≡ i = ground arith in rw s (t.before i (omega arith) ∙ e)
  | inr other ↦ t.clears j (ground arith) (omega arith)
]

fini_loop-Clears : (n i : ℕ) (a : Arena) → (r : Arena) × (fini_loop n i a ≡ ok r) × Clears a r i n
unfolding fini_loop live total_bytes
fini_loop-Clears zero i a = (
  a,
  refl,
  record {
    before = λ j p. refl;
    clears = λ j p q. absurd (omega arith);
    freed = omega arith;
    bounded = λ p. p;
  },
)
fini_loop-Clears (suc n) i a = elim (Option-cases (a.entries i)) [
  | inl e ↦
      let (r, run, t) = fini_loop-Clears n (i + 1) a in
      (
        r,
        rw (e, fini_loop) run,
        record {
          before = λ j p. t.before j (omega arith);
          clears = Clears-first a a r i n e t;
          freed = rw e t.freed;
          bounded = t.bounded;
        },
      )
  | inr (x, e) ↦
      let b = emptied a i x in
      let (r, run, t) = fini_loop-Clears n (i + 1) b in
      let back = ap total_bytes (live-flushed a.entries i n) in
      (
        r,
        rw (e, fini_loop, flush-some a i x e) run,
        record {
          before = λ j p. t.before j (omega arith) ∙ ground arith;
          clears = Clears-first a b r i n (ground arith) t;
          freed = rw e (omega (arith, t.freed, back));
          bounded = λ p. t.bounded (omega arith);
        },
      )
]

-- Finalising a valid arena releases every live entry: no slot in use holds one any more, the byte
-- count comes back to 0, so that the closing assertion holds, and the measures are reset.
pub fini-releases :
    (a : Arena)
    → IsValid a
    → (r : Arena) × (fini a ≡ ok r)
      × ((j : ℕ) → j < a.len → r.entries j ≡ none)
      × (r.alloc_bytes ≡ 0)
      × (r.len ≡ 0)
      × (r.cap ≡ 0)
      × (r.disposed ≡ 0)
unfolding fini release
fini-releases a v =
    let (r, run, t) = fini_loop-Clears a.len 0 a in
    let zero_bytes : r.alloc_bytes ≡ 0 =
      omega (arith, t.freed, v.summed, t.bounded (omega (arith, v.summed))) in
    (
      record r { len = 0; cap = 0; disposed = 0 },
      rw (run, release, zero_bytes),
      λ j p. t.clears j (omega arith) (omega arith),
      zero_bytes,
      refl,
      refl,
      refl,
    )
