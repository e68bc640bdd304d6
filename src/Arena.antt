-- ===== src/Arena.antt =====
-- The memory arena of src/nnc_arena.c and src/nnc_arena.h: the array of entry pointers behind
-- `nnc_alloc` and `nnc_dispose`. `entries` gives the pointer in every slot (`none` is NULL), so the
-- slots past `len`, which `calloc` and `realloc` leave as they are, hold any value. Blocks are
-- addresses; their contents are not modelled. `malloc`, `calloc` and `realloc` belong to libc: their
-- answers are arguments, and a failure is `aborted`, as in the source.
pub mod Live
pub mod Zip
pub mod Invariant
pub mod Methods
pub mod Fini
mod Tests
use nnc.Common.{
  ℕ, zero, suc, ◌+◌, ◌-◌, ◌*◌, ◌%◌, ◌^◌, Bool, true, false, Option, none, some, ◌==◌, leb, ltb,
  if◌then◌else◌,
}

pub record Entry : Type 0 where
  pub bytes : ℕ
  pub hptr : ℕ

abbrev pub Slots : Type 0
Slots = ℕ → Option Entry

pub record Arena : Type 0 where
  pub alloc_bytes : ℕ
  pub overall_alloc_bytes : ℕ
  pub len : ℕ
  pub cap : ℕ
  pub disposed : ℕ
  pub entries : Slots

-- `aborted` is `nnc_abort_no_ctx`; `fault` is a failed assertion or a write outside the array.
pub data Run (A : Type 0) : Type 0 where
  ok : A → Run A
  aborted : Run A
  fault : Run A

abbrev pub u64_mod : ℕ
u64_mod = 2 ^ 64

-- NNC_ARENA_CAP
abbrev pub arena_cap : ℕ
arena_cap = 4

abbrev pub write : Slots → ℕ → Option Entry → Slots
write es i e j = if i == j then e else es j

-- The quotient of two counts below 2 ^ 53, the divisor a power of two, is exact as a double, and the
-- double written 0.15 is 5404319552844595 / 2 ^ 55.
pub need_zip : Arena → Bool
need_zip a = if a.disposed == 0 then false else leb (5404319552844595 * a.cap) (2 ^ 55 * a.disposed)

-- The entry `e` of slot `addr` goes to slot `len`.
pub move : Slots → ℕ → ℕ → Entry → Slots
move es addr len e =
    let moved = write es len (some e) in if len == addr then moved else write moved addr none

-- The loop of `nnc_arena_zip`, from slot `addr` with `rounds` slots to go: the new length and slots.
zip_loop : ℕ → ℕ → ℕ → Slots → ℕ × Slots
unfolding move
zip_loop zero addr len es = (len, es)
zip_loop (suc rounds) addr len es = elim (es addr) [
  | none ↦ zip_loop rounds (addr + 1) len es
  | some e ↦ zip_loop rounds (addr + 1) (len + 1) (move es addr len e)
]

pub zip : Arena → Arena
zip a =
    let (len, entries) = zip_loop a.len 0 0 a.entries in
    record a { len = len; disposed = 0; entries = entries }

-- `array` tells whether `realloc` gave the block of `size` bytes, a product of 64 bits with a pointer's
-- 8 bytes. Where the product wraps, the block ends before the slot `len`, to which the push that called
-- for the growth writes next. The slots that are there are kept.
grow : Arena → Bool → Run Arena
grow a false = aborted
grow a true =
    let cap = a.cap * 2 % u64_mod in
    let size = cap * 8 % u64_mod in
    if leb ((a.len + 1) * 8) size then ok (record a { cap = cap }) else fault

make_room : Arena → Bool → Run Arena
unfolding need_zip zip grow zip_loop
make_room a array =
    if a.cap == a.len then (if need_zip a then ok (zip a) else grow a array) else ok a

-- The assignment to `entries[len++]`, with both byte counts raised first.
store : Arena → Entry → Run Arena
store a e =
    if ltb a.len a.cap
    then ok (record a {
      alloc_bytes = (a.alloc_bytes + e.bytes) % u64_mod;
      overall_alloc_bytes = (a.overall_alloc_bytes + e.bytes) % u64_mod;
      len = a.len + 1;
      entries = write a.entries a.len (some e);
    })
    else fault

store_in : Run Arena → Entry → Run Arena
unfolding store
store_in (ok a) e = store a e
store_in aborted e = aborted
store_in fault e = fault

pub push : Arena → Entry → Bool → Run Arena
unfolding make_room store_in
push a e array = store_in (make_room a array) e

flush : Arena → ℕ → Run Arena
flush a i = elim (a.entries i) [
  | none ↦ fault
  | some e ↦ ok (record a {
    alloc_bytes = (a.alloc_bytes + (u64_mod - e.bytes % u64_mod)) % u64_mod;
    entries = write a.entries i none;
  })
]

-- `mem` is the answer of `malloc`, `header` tells whether `calloc` gave the entry, and `array` whether
-- `realloc` gives a longer array if the push asks for one.
unfoldable pub alloc : Arena → ℕ → Option ℕ → Bool → Bool → Run Arena
unfolding push
alloc a size none header array = aborted
alloc a size (some mem) false array = aborted
alloc a size (some mem) true array = push a (record { bytes = size; hptr = mem }) array

count_disposed : Run Arena → Run Arena
count_disposed (ok a) = ok (record a { disposed = a.disposed + 1 })
count_disposed aborted = aborted
count_disposed fault = fault

holds : Option Entry → ℕ → Bool
holds none ptr = false
holds (some e) ptr = e.hptr == ptr

-- The search loop of `nnc_dispose`, from slot `i` with `rounds` slots to go.
dispose_loop : ℕ → ℕ → ℕ → Arena → Run Arena
unfolding flush count_disposed holds
dispose_loop zero i ptr a = ok a
dispose_loop (suc rounds) i ptr a = elim (holds (a.entries i) ptr) [
  | true ↦ count_disposed (flush a i)
  | false ↦ dispose_loop rounds (i + 1) ptr a
]

unfoldable pub dispose : Arena → ℕ → Run Arena
unfolding dispose_loop
dispose a ptr = dispose_loop a.len 0 ptr a

-- `junk` is what the slots past `len` hold.
unfoldable pub init : Bool → Slots → Run Arena
init false junk = aborted
init true junk = ok (record {
  alloc_bytes = 0;
  overall_alloc_bytes = 0;
  len = 0;
  cap = arena_cap;
  disposed = 0;
  entries = junk;
})

-- The loop of `nnc_arena_fini` over the global arena, which is the one that the program finalises.
fini_loop : ℕ → ℕ → Arena → Run Arena
fini_loop zero i a = ok a
fini_loop (suc rounds) i a = elim (a.entries i) [
  | none ↦ fini_loop rounds (i + 1) a
  | some e ↦ elim (flush a i) [
    | ok a' ↦ fini_loop rounds (i + 1) a'
    | aborted ↦ aborted
    | fault ↦ fault
  ]
]

-- The closing assertion `alloc_bytes == 0`.
release : Run Arena → Run Arena
release (ok a) =
    if a.alloc_bytes == 0 then ok (record a { len = 0; cap = 0; disposed = 0 }) else fault
release aborted = aborted
release fault = fault

unfoldable pub fini : Arena → Run Arena
unfolding fini_loop flush release
fini a = release (fini_loop a.len 0 a)
