-- ===== src/Arena/Methods.antt =====
-- `nnc_arena_init`, `nnc_alloc` and `nnc_dispose` of src/nnc_arena.c under the arena's invariant.
use nnc.Common.{
  ℕ, zero, suc, ◌+◌, ◌-◌, ◌%◌, ◌^◌, ◌<◌, ◌≡◌, refl, ap, ◌∙◌, inl, inr, List, [], ◌∷◌, ◌++◌, true,
  false, Option, none, some, arith, length, length-append, ◌==◌, ◌&&◌, not, if◌then◌else◌,
  Bool-cases,
}
use nnc.Arena.{
  Arena, Entry, Slots, ok, aborted, u64_mod, arena_cap, need_zip, write, flush, holds,
  count_disposed, alloc, dispose_loop, dispose, init,
}
use nnc.Arena.Live.{live, to_list, live_congr, total_bytes, total_bytes-append}
use nnc.Arena.Invariant.{IsValid, live_entries, Pushed, push-Pushed, push_without}

-- The list without its first entry at the address `ptr`.
pub remove : ℕ → List Entry → List Entry
remove ptr [] = []
remove ptr (e ∷ l) = if e.hptr == ptr then l else e ∷ remove ptr l

-- `nnc_arena_init` gives a valid arena with no live entry, whatever its slots hold.
pub init-IsValid :
    (junk : Slots) → (r : Arena) × (init true junk ≡ ok r) × IsValid r × (live_entries r ≡ [])
unfolding init live total_bytes
init-IsValid junk = (
  record {
    alloc_bytes = 0;
    overall_alloc_bytes = 0;
    len = 0;
    cap = arena_cap;
    disposed = 0;
    entries = junk;
  },
  refl,
  omega arith,
  refl,
)

-- `nnc_alloc` of `size` bytes at the address that `malloc` returned, where the other calls do not fail,
-- succeeds in a valid arena below 2 ^ 60 slots, keeps it valid and adds that block behind the live ones.
-- Where `malloc` or `calloc` fail it aborts; where `realloc` would fail it aborts exactly if the array is
-- full and not worth compacting, and else does the same.
pub alloc-Pushed :
    (a : Arena) (size mem : ℕ)
    → IsValid a
    → a.cap < 2 ^ 60
    → ((r : Arena) × (alloc a size (some mem) true true ≡ ok r)
        × Pushed a (record { bytes = size; hptr = mem }) r)
      × (alloc a size none true true ≡ aborted)
      × (alloc a size (some mem) false true ≡ aborted)
      × (alloc a size (some mem) true false ≡ (
          if a.cap == a.len && not (need_zip a)
          then aborted
          else alloc a size (some mem) true true))
unfolding alloc
alloc-Pushed a size mem v small = (
  push-Pushed a (record { bytes = size; hptr = mem }) v small,
  refl,
  refl,
  push_without a (record { bytes = size; hptr = mem }),
)

-- What the search loop leaves of the slots `i ≤ j < i + n`.
record Removes (a r : Arena) (ptr i n : ℕ) : Type 0 where
  same_len : r.len ≡ a.len
  same_cap : r.cap ≡ a.cap
  before : (j : ℕ) → j < i → r.entries j ≡ a.entries j
  after : live r.entries i n ≡ remove ptr (live a.entries i n)
  counted : r.disposed + length (live r.entries i n) ≡ a.disposed + length (live a.entries i n)
  summed :
      (r.alloc_bytes + total_bytes (live a.entries i n)) % u64_mod
      ≡ (a.alloc_bytes + total_bytes (live r.entries i n)) % u64_mod
  bounded : a.alloc_bytes < u64_mod → r.alloc_bytes < u64_mod

abbrev flushed : Arena → ℕ → Entry → Arena
flushed a i e = record a {
  alloc_bytes = (a.alloc_bytes + (u64_mod - e.bytes % u64_mod)) % u64_mod;
  disposed = a.disposed + 1;
  entries = write a.entries i none;
}

flush_found :
    (a : Arena) (i : ℕ) (e : Entry)
    → a.entries i ≡ some e
    → count_disposed (flush a i) ≡ ok (flushed a i e)
unfolding flush count_disposed
flush_found a i e h = rw (h, flush)

-- Everything behind a flushed slot is as it was.
pub live-flushed : (es : Slots) (i n : ℕ) → live (write es i none) (i + 1) n ≡ live es (i + 1) n
live-flushed es i n = live_congr _ es (i + 1) n (λ j p q. ground arith)

holds_found :
    (o : Option Entry) (ptr : ℕ)
    → holds o ptr ≡ true
    → (e : Entry) × (o ≡ some e) × ((e.hptr == ptr) ≡ true)
unfolding holds
holds_found none ptr h = cc
holds_found (some e) ptr h = (e, refl, h)

remove_other :
    (o : Option Entry) (ptr : ℕ) (l : List Entry)
    → holds o ptr ≡ false
    → remove ptr (to_list o ++ l) ≡ to_list o ++ remove ptr l
unfolding holds remove
remove_other none ptr l h = refl
remove_other (some e) ptr l h = rw h

-- One slot that is passed over.
Removes-skip :
    (a r : Arena) (ptr i n : ℕ)
    → holds (a.entries i) ptr ≡ false
    → Removes a r ptr (i + 1) n
    → Removes a r ptr i (suc n)
unfolding live total_bytes
Removes-skip a r ptr i n other t =
    let here = t.before i (omega arith) in
    let l = live a.entries (i + 1) n in
    let m = live r.entries (i + 1) n in
    let o = to_list (a.entries i) in
    let first = remove_other (a.entries i) ptr l other in
    record {
      same_len = t.same_len;
      same_cap = t.same_cap;
      before = λ j p. t.before j (omega arith);
      after = rw (here, first, t.after);
      counted = rw here (omega (arith, length-append o m, length-append o l, t.counted));
      summed = rw here (omega (arith, total_bytes-append o m, total_bytes-append o l, t.summed));
      bounded = t.bounded;
    }

Removes-hit :
    (a : Arena) (x : Entry) (ptr i n : ℕ)
    → a.entries i ≡ some x
    → (x.hptr == ptr) ≡ true
    → Removes a (flushed a i x) ptr i (suc n)
unfolding live total_bytes remove
Removes-hit a x ptr i n e hit =
    let back = live-flushed a.entries i n in
    let gone : write a.entries i none i ≡ none = ground arith in
    record {
      same_len = refl;
      same_cap = refl;
      before = λ j p. ground arith;
      after = rw (gone, e, hit) back;
      counted = rw (gone, e, back) (omega arith);
      summed = rw (gone, e, back) (omega arith);
      bounded = λ p. omega arith;
    }

dispose_loop-Removes :
    (n i ptr : ℕ) (a : Arena) → (r : Arena) × (dispose_loop n i ptr a ≡ ok r) × Removes a r ptr i n
unfolding dispose_loop live remove
dispose_loop-Removes zero i ptr a = (
  a,
  refl,
  record {
    same_len = refl;
    same_cap = refl;
    before = λ j p. refl;
    after = refl;
    counted = refl;
    summed = refl;
    bounded = λ p. p;
  },
)
dispose_loop-Removes (suc n) i ptr a = elim (Bool-cases (holds (a.entries i) ptr)) [
  | inr other ↦
      let (r, run, t) = dispose_loop-Removes n (i + 1) ptr a in
      (r, rw (other, dispose_loop) run, Removes-skip a r ptr i n other t)
  | inl here ↦
      let (x, e, hit) = holds_found (a.entries i) ptr here in
      (flushed a i x, rw (here, dispose_loop) (flush_found a i x e), Removes-hit a x ptr i n e hit)
]

-- In a valid arena `nnc_dispose` succeeds and keeps the arena valid; the first live entry at `ptr` is
-- gone, the others stay in order, and with no entry at `ptr` all stay.
pub dispose-removes :
    (a : Arena) (ptr : ℕ)
    → IsValid a
    → (r : Arena) × (dispose a ptr ≡ ok r)
      × IsValid r
      × (live_entries r ≡ remove ptr (live_entries a))
unfolding dispose
dispose-removes a ptr v =
    let (r, run, t) = dispose_loop-Removes a.len 0 ptr a in
    let same : live_entries r ≡ live r.entries 0 a.len =
      ap (λ (k : ℕ). live r.entries 0 k) t.same_len in
    (
      r,
      run,
      record {
        roomy = omega (arith, v.roomy, t.same_cap);
        fits = omega (arith, v.fits, t.same_cap, t.same_len);
        counted = rw same (omega (arith, t.counted, v.counted, t.same_len));
        summed = rw same (omega (arith, t.summed, v.summed, t.bounded (omega (arith, v.summed))));
      },
      same ∙ t.after,
    )
