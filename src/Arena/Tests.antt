-- ===== src/Arena/Tests.antt =====
-- The arena's theorems at concrete arenas, and runs of its operations.
use nnc.Common.{
  ℕ, ◌<◌, ◌≡◌, refl, List, [], ◌∷◌, true, false, none, some, arith, ◌==◌, ◌&&◌, not, if◌then◌else◌,
}
use nnc.Arena.{
  Arena, Entry, Run, Slots, ok, aborted, alloc, dispose, init, fini, need_zip, zip, push,
}
use nnc.Arena.Live.{live, total_bytes}
use nnc.Arena.Zip.{IsCompacted, zip-IsCompacted}
use nnc.Arena.Invariant.{IsValid, live_entries, Pushed, push-Pushed}
use nnc.Arena.Methods.{remove, init-IsValid, alloc-Pushed, dispose-removes}
use nnc.Arena.Fini.{fini-releases}

abbrev block : ℕ → ℕ → Entry
block size mem = record { bytes = size; hptr = mem }

-- Four slots in use, the second one disposed.
abbrev sample_slots : Slots
sample_slots i =
    if i == 0
    then some (block 16 100)
    else if i == 2
    then some (block 8 300)
    else if i == 3
    then some (block 40 400)
    else none

abbrev sample : Arena
sample = record {
  alloc_bytes = 64;
  overall_alloc_bytes = 80;
  len = 4;
  cap = 4;
  disposed = 1;
  entries = sample_slots;
}

sample-IsValid : IsValid sample
unfolding live total_bytes
sample-IsValid = omega arith

zip-IsCompacted_example : IsCompacted sample (zip sample)
zip-IsCompacted_example = zip-IsCompacted sample

-- The array is full and one of four slots is disposed, so the push compacts.
push-Pushed_example :
    (r : Arena) × (push sample (block 24 500) true ≡ ok r) × Pushed sample (block 24 500) r
push-Pushed_example = push-Pushed sample (block 24 500) sample-IsValid (omega arith)

alloc-Pushed_example :
    ((r : Arena) × (alloc sample 24 (some 500) true true ≡ ok r) × Pushed sample (block 24 500) r)
    × (alloc sample 24 none true true ≡ aborted)
    × (alloc sample 24 (some 500) false true ≡ aborted)
    × (alloc sample 24 (some 500) true false ≡ (
        if sample.cap == sample.len && not (need_zip sample)
        then aborted
        else alloc sample 24 (some 500) true true))
alloc-Pushed_example = alloc-Pushed sample 24 500 sample-IsValid (omega arith)

dispose-removes_example :
    (r : Arena) × (dispose sample 300 ≡ ok r)
    × IsValid r
    × (live_entries r ≡ remove 300 (live_entries sample))
dispose-removes_example = dispose-removes sample 300 sample-IsValid

fini-releases_example :
    (r : Arena) × (fini sample ≡ ok r)
    × ((j : ℕ) → j < 4 → r.entries j ≡ none)
    × (r.alloc_bytes ≡ 0)
    × (r.len ≡ 0)
    × (r.cap ≡ 0)
    × (r.disposed ≡ 0)
fini-releases_example = fini-releases sample sample-IsValid

init-IsValid_example :
    (r : Arena) × (init true sample_slots ≡ ok r) × IsValid r × (live_entries r ≡ [])
init-IsValid_example = init-IsValid sample_slots

-- The state that a run ends in, and the live entries it holds.
abbrev seen : Run Arena → List Entry
seen (ok a) = live a.entries 0 a.len
seen r = []

-- A push into the full array compacts it in place.
push_compacts :
    seen (alloc sample 24 (some 500) true true)
    ≡ block 16 100 ∷ block 8 300 ∷ block 40 400 ∷ block 24 500 ∷ []
unfolding alloc live
push_compacts = refl
