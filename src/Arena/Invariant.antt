-- ===== src/Arena/Invariant.antt =====
-- The invariant of the arena of src/nnc_arena.c, and what `nnc_arena_push` does under it.
use nnc.Common.{
  ◌+◌, ◌*◌, ◌%◌, ◌^◌, ◌≤◌, ◌<◌, ◌≡◌, refl, sym, ap, ◌∙◌, inl, inr, List, [], ◌∷◌, ◌++◌, true, false,
  some, arith, length, length-append, ◌==◌, ◌&&◌, not, if◌then◌else◌, Bool-cases,
}
use nnc.Arena.{
  Arena, Entry, ok, aborted, u64_mod, write, need_zip, zip, grow, make_room, store, store_in, push,
}
use mathlib.Core.Path.{ap₂}
use nnc.Arena.Live.{live, to_list, live_congr, live-suc, total_bytes, total_bytes-append}
use nnc.Arena.Zip.{zip-IsCompacted}

abbrev pub live_entries : Arena → List Entry
live_entries a = live a.entries 0 a.len

-- The length fits the array, every slot in use is live or counted as disposed, and `alloc_bytes` is
-- the bytes of the live entries (as a 64-bit sum).
pub record IsValid (a : Arena) : Type 0 where
  pub roomy : 0 < a.cap
  pub fits : a.len ≤ a.cap
  pub counted : a.disposed + length (live_entries a) ≡ a.len
  pub summed : a.alloc_bytes ≡ total_bytes (live_entries a) % u64_mod

need_zip-pos : (a : Arena) → need_zip a ≡ true → 0 < a.disposed
unfolding need_zip
need_zip-pos a h = ground arith

-- There is room after `nnc_arena_push` has made it, and the live entries are those from before.
record HasRoom (a r : Arena) : Type 0 where
  valid : IsValid r
  room : r.len < r.cap
  same : live_entries r ≡ live_entries a

-- An array below 2 ^ 60 slots grows without a wrap.
grow-HasRoom :
    (a : Arena)
    → IsValid a
    → a.len ≡ a.cap
    → a.cap < 2 ^ 60
    → (r : Arena) × (grow a true ≡ ok r) × HasRoom a r
unfolding grow
grow-HasRoom a v full small = (
  record a { cap = a.cap * 2 % u64_mod },
  ground (arith, v.roomy),
  record {
    valid = record {
      roomy = omega (arith, v.roomy);
      fits = omega (arith, v.fits);
      counted = v.counted;
      summed = v.summed;
    };
    room = omega (arith, v.fits, v.roomy);
    same = refl;
  },
)

zip-HasRoom : (a : Arena) → IsValid a → a.len ≡ a.cap → need_zip a ≡ true → HasRoom a (zip a)
zip-HasRoom a v full loose =
    let z = zip-IsCompacted a in
    let freed = need_zip-pos a loose in
    let size = ap length z.keeps in
    record {
      valid = record {
        roomy = omega (arith, v.roomy, z.same_cap);
        fits = omega (arith, v.fits, v.counted, z.same_cap, z.counts);
        counted = omega (arith, z.resets, z.counts, size);
        summed = z.same_bytes ∙ v.summed ∙ ap (λ l. total_bytes l % u64_mod) (sym z.keeps);
      };
      room = omega (arith, v.fits, v.counted, freed, z.same_cap, z.counts);
      same = z.keeps;
    }

make_room-HasRoom :
    (a : Arena) → IsValid a → a.cap < 2 ^ 60 → (r : Arena) × (make_room a true ≡ ok r) × HasRoom a r
unfolding make_room
make_room-HasRoom a v small = elim (Bool-cases (a.cap == a.len)) [
  | inr free ↦ (a, rw free refl, record { valid = v; room = ground arith; same = refl })
  | inl full ↦
      let same : a.len ≡ a.cap = ground arith in
      elim (Bool-cases (need_zip a)) [
        | inr tight ↦ let (r, run, h) = grow-HasRoom a v same small in (r, rw (full, tight) run, h)
        | inl loose ↦ (zip a, rw (full, loose) refl, zip-HasRoom a v same loose)
      ]
]

-- What a push of `e` to `a` leaves.
pub record Pushed (a : Arena) (e : Entry) (r : Arena) : Type 0 where
  pub valid : IsValid r
  pub appends : live_entries r ≡ live_entries a ++ e ∷ []

live-write_last :
    (a : Arena) (e : Entry)
    → live (write a.entries a.len (some e)) 0 (a.len + 1) ≡ live_entries a ++ e ∷ []
live-write_last a e =
    live-suc _ a.len
    ∙ ap₂ ◌++◌ (live_congr _ a.entries 0 a.len (λ j p q. ground arith))
        (ap to_list {x = write a.entries a.len (some e) a.len} {y = some e} (ground arith))

store-Pushed :
    (a : Arena) (e : Entry)
    → IsValid a
    → a.len < a.cap
    → (r : Arena) × (store a e ≡ ok r) × Pushed a e r
unfolding store total_bytes
store-Pushed a e v h =
    let last = live-write_last a e in
    let grown = length-append (live_entries a) (e ∷ []) in
    let sum = total_bytes-append (live_entries a) (e ∷ []) in
    (
      record a {
        alloc_bytes = (a.alloc_bytes + e.bytes) % u64_mod;
        overall_alloc_bytes = (a.overall_alloc_bytes + e.bytes) % u64_mod;
        len = a.len + 1;
        entries = write a.entries a.len (some e);
      },
      ground arith,
      record {
        valid = record {
          roomy = v.roomy;
          fits = omega arith;
          counted = rw last (omega (arith, grown, v.counted));
          summed = rw last (omega (arith, sum, v.summed));
        };
        appends = last;
      },
    )

-- In a valid arena below 2 ^ 60 slots a push writes inside the array, whether it compacts, grows or
-- finds room: the new entry stands last among the live ones, and the arena is valid again.
pub push-Pushed :
    (a : Arena) (e : Entry)
    → IsValid a
    → a.cap < 2 ^ 60
    → (r : Arena) × (push a e true ≡ ok r) × Pushed a e r
unfolding push store_in
push-Pushed a e v small =
    let (b, made, m) = make_room-HasRoom a v small in
    let (r, run, t) = store-Pushed b e m.valid m.room in
    (
      r,
      ap (λ o. store_in o e) made ∙ run,
      record { valid = t.valid; appends = t.appends ∙ ap (λ l. l ++ e ∷ []) m.same },
    )

-- Without a longer array a push aborts if it asks for one, and does the same otherwise.
pub push_without :
    (a : Arena) (e : Entry)
    → push a e false ≡ (if a.cap == a.len && not (need_zip a) then aborted else push a e true)
unfolding push make_room grow store_in
push_without a e = elim (Bool-cases (a.cap == a.len)) [
  | inr free ↦ rw free refl
  | inl full ↦ elim (Bool-cases (need_zip a)) [
    | inr tight ↦ rw (full, tight) refl
    | inl loose ↦ rw (full, loose) refl
  ]
]
