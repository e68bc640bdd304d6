-- ===== src/Map/Tests.antt =====
-- The map's theorems at concrete maps with 64-bit keys, and runs of its operations.
use nnc.Common.{
  ◌&&◌, if◌then◌else◌, ℕ, ◌+◌, ◌*◌, ◌/◌, ◌%◌, ◌≤◌, ◌^◌, ◌≡◌, ◌≢◌, refl, Bool, [], ◌∷◌, true, false,
  none, some, arith,
}
use nnc.Hash.{u64_key, str_key, hash_u64, hash_str, horner, hash_str-horner}
use nnc.Map.{
  Map, Run, ok, fault, null_read, chain_of, init, slot, find, get, has, put, pop, put_bucket,
  rehash, ◌>>=◌,
}
use nnc.Map.Buckets.{lookup, entries}
use nnc.Map.Rehash.{Rehashed, rehash-Rehashed}
use nnc.Map.Put.{IsValid, Overwritten}
use nnc.Map.Model.{
  Models, update, is_empty, equals_zero, put-Models, pop-Models, get-has-Models, put-Overwritten,
}

-- The keys 1 and 3 share the slot 2 of 4.
abbrev shared : Map ℕ ℕ
shared = record { cap = 4; len = 2; buckets = [] ∷ [] ∷ ((1, 10) ∷ (3, 30) ∷ []) ∷ [] ∷ [] }

shared-IsValid : IsValid shared
unfolding slot find entries hash_u64
shared-IsValid = record {
  placed = record {
    roomy = omega arith;
    sized = refl;
    spread = (tt, tt, (tt, tt, ((refl, (refl, tt)), (refl, (refl, tt)), (tt, tt, tt))));
    counted = refl;
  };
  wide = omega arith;
  room = omega arith;
}

shared-Models : Models (lookup shared) shared
shared-Models = record { valid = shared-IsValid; reads = λ q. refl }

absent : lookup shared 2 ≡ none
unfolding slot find hash_u64
absent = refl

put-Models_example :
    (r : Map ℕ ℕ) × (put 2 shared 2 20 ≡ ok r)
    × Models (update (lookup shared) 2 (some 20)) r
    × (r.len ≡ shared.len + 1)
    × (r.cap ≤ shared.cap * 3 / 2)
put-Models_example = put-Models 0 (lookup shared) shared 2 20 shared-Models (omega arith) absent

pop-Models_example :
    Models (update (lookup shared) 1 none) (pop shared 1)
    × ((pop shared 1).len + elim (lookup shared 1) [ none ↦ 0 | some v ↦ 1 ] ≡ 2)
pop-Models_example = pop-Models (lookup shared) shared 1 shared-Models

get-has-Models_example :
    (get shared 3 ≡ elim (lookup shared 3) [
      | none ↦
          if is_empty (chain_of shared 3) && equals_zero (u64_key.zero_cmp 3)
          then fault
          else null_read
      | some v ↦ ok v
    ])
    × (has shared 3 ≡ elim (lookup shared 3) [ none ↦ false | some v ↦ true ])
get-has-Models_example = get-has-Models (lookup shared) shared 3 shared-Models

present : lookup shared 1 ≢ none
unfolding slot find hash_u64
present = cc

put-Overwritten_example :
    (put 1 shared 1 11 ≡ ok (put_bucket 1 11 shared))
    × Overwritten shared 1 11 (put_bucket 1 11 shared)
put-Overwritten_example =
    put-Overwritten 0 (lookup shared) shared 1 11 shared-Models present (omega arith)

rehash-Rehashed_example : (r : Map ℕ ℕ) × (rehash (put 1) shared ≡ ok r) × Rehashed shared r
rehash-Rehashed_example =
    rehash-Rehashed 0 shared shared-IsValid.placed shared-IsValid.room (omega arith)

hash_str-horner_example : hash_str (b'i' ∷ b'f' ∷ []) ≡ horner 5481 (b'i' ∷ b'f' ∷ []) % 2 ^ 64
hash_str-horner_example = hash_str-horner (b'i' ∷ b'f' ∷ [])

-- The key 2 has an empty chain, and so has the key 0, which equals the zero there.
get_missing : (get shared 2 ≡ null_read) × (get shared 0 ≡ fault)
unfolding get find hash_u64
get_missing = (refl, refl)

-- Writing 11 under the key 1 loses the key 3, which stands behind it.
abbrev overwritten : Run (Bool × Bool × ℕ)
overwritten = do m ← put 1 shared 1 11; ok (has m 1, has m 3, m.len)

overwrite_loses : overwritten ≡ ok (true, false, 2)
unfolding put has find hash_u64
overwrite_loses = refl

-- The fourth put finds the map three quarters full and moves it to six chains.
abbrev session : Run (ℕ × ℕ × Bool × ℕ)
session = do
  let m : Map ℕ ℕ = init 4
  a ← put 2 m 1 10
  b ← put 2 a 3 30
  c ← put 2 b 2 20
  d ← put 2 c 5 50
  v ← get (pop d 3) 5
  ok (d.cap, d.len, has (pop d 3) 3, v)

session_runs : session ≡ ok (6, 4, false, 50)
unfolding put init get has pop find hash_u64
session_runs = refl
