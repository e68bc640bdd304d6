-- ===== src/Map.antt =====
-- The hash map of src/nnc_map.c and src/nnc_map.h: an array of bucket chains. A chain is the list of
-- its keys and values: the empty list is a head bucket without a key (all zero), any other list is
-- the head bucket with the buckets that `next` links behind it. The hash function with its key
-- comparison is the instance argument. Memory that a bucket or an array held is given back by
-- `nnc_dispose` (see Arena), which changes nothing here.
pub mod Chain
pub mod Buckets
pub mod Put
pub mod Rehash
pub mod Model
mod Tests
use nnc.Common.{
  ℕ, zero, suc, ◌+◌, ◌-◌, ◌*◌, ◌/◌, ◌%◌, ◌^◌, List, [], ◌∷◌, ◌++◌, Bool, true, false, Option, none,
  some, ◌==◌, leb, if◌then◌else◌, get_or, set, replicate,
}
use nnc.Hash.{Key}

abbrev pub Chain {ℓ} : Type ℓ → Type ℓ → Type ℓ
Chain K V = List (K × V)

pub record Map {ℓ} (K V : Type ℓ) : Type ℓ where
  pub cap : ℕ
  pub len : ℕ
  pub buckets : List (Chain K V)

-- `fault` is a failed assertion, a division by zero or a read outside the bucket array, `null_read` a
-- read through a null pointer.
pub data Run {ℓ} (A : Type ℓ) : Type ℓ where
  ok : A → Run A
  fault : Run A
  null_read : Run A
  out_of_fuel : Run A

infixl 5 ◌>>=◌
abbrev pub ◌>>=◌ {ℓ κ} : {A : Type ℓ} {B : Type κ} → Run A → (A → Run B) → Run B
ok a >>= f = f a
fault >>= f = fault
null_read >>= f = null_read
out_of_fuel >>= f = out_of_fuel

abbrev pub u64_mod : ℕ
u64_mod = 2 ^ 64

-- `nncmap_init` with a zeroed array of `inicap` head buckets.
unfoldable pub init {ℓ} : {K V : Type ℓ} → ℕ → Map K V
init inicap = record { cap = inicap; len = 0; buckets = replicate inicap [] }

-- The load `len / cap` is a double. Below 2 ^ 49 its comparison with the double 0.7 is that of
-- 10 * len with 7 * cap. A map without buckets gets the capacity 4 here, and no array for it.
needs_rehash {ℓ} : {K V : Type ℓ} → Map K V → Map K V × Bool
needs_rehash m =
    if m.cap == 0 then (record m { cap = 4 }, true) else (m, leb (7 * m.cap) (10 * m.len))

-- `hash(key) % map->cap`
pub slot {ℓ} : {K : Type ℓ} ⦃key : Key K⦄ → K → ℕ → ℕ
slot ⦃key⦄ k n = key.hash k % n

module _ {ℓ} {K V : Type ℓ} ⦃key : Key K⦄ where
  abbrev pub chain_of : Map K V → K → Chain K V
  chain_of m k = get_or m.buckets (slot k m.cap) []

  -- The search loops of `nncmap_has` and `nncmap_get`.
  unfoldable pub find : K → Chain K V → Option V
  find k [] = none
  find k (e ∷ c) = if key.keys_cmp e.0 k then some e.1 else find k c

  unfoldable pub has : Map K V → K → Bool
  unfolding slot
  has m k = elim (find k (chain_of m k)) [ none ↦ false | some v ↦ true ]

  -- `nncmap_get` for a key that its chain does not have. In an empty head bucket the key may equal the
  -- zero there, and the assertion on `has_key` fails; else the loop leaves `bucket` null, and that
  -- assertion reads through it.
  pub missed : K → Chain K V → Run V
  missed k [] = elim (key.zero_cmp k) [
    | some true ↦ fault
    | some false ↦ null_read
    | none ↦ null_read
  ]
  missed k (e ∷ c) = null_read

  unfoldable pub get : Map K V → K → Run V
  unfolding slot missed
  get m k = elim (find k (chain_of m k)) [ none ↦ missed k (chain_of m k) | some v ↦ ok v ]

  -- The loop of `nncmap_put`: a bucket whose key is `k` is written and its `next` becomes NULL; a
  -- bucket without a key is filled. The Boolean tells whether `len` goes up.
  unfoldable pub put_chain : K → V → Chain K V → Chain K V × Bool
  put_chain k v [] = ((k, v) ∷ [], true)
  put_chain k v (e ∷ c) =
      let rest = put_chain k v c in
      if key.keys_cmp e.0 k then ((k, v) ∷ [], false) else (e ∷ rest.0, rest.1)

  -- What `nncmap_put` does behind the test for rehashing.
  pub put_bucket : K → V → Map K V → Map K V
  unfolding put_chain slot
  put_bucket k v m =
      let (c, fresh) = put_chain k v (chain_of m k) in
      record m {
        len = if fresh then (m.len + 1) % u64_mod else m.len;
        buckets = set m.buckets (slot k m.cap) c;
      }

  module _ (put : Map K V → K → V → Run (Map K V)) where
    -- The loops of `nncmap_rehash`, along one chain and over the first `n` chains.
    pub move_chain : Chain K V → Map K V → Run (Map K V)
    move_chain [] m = ok m
    move_chain (e ∷ c) m = put m e.0 e.1 >>= move_chain c

    pub move_buckets : ℕ → List (Chain K V) → Map K V → Run (Map K V)
    unfolding move_chain
    move_buckets zero bs m = ok m
    move_buckets (suc n) [] m = fault
    move_buckets (suc n) (c ∷ bs) m = move_chain c m >>= move_buckets n bs

    -- The new capacity is 1.5 times the old one, rounded down.
    pub rehash : Map K V → Run (Map K V)
    unfolding move_buckets init
    rehash m = move_buckets m.cap m.buckets (init (m.cap * 3 / 2))

  -- The fuel bounds how deep `nncmap_put` and `nncmap_rehash` call each other.
  unfoldable pub put : ℕ → Map K V → K → V → Run (Map K V)
  unfolding needs_rehash put_bucket rehash
  put zero m k v = out_of_fuel
  put (suc fuel) m k v =
      let (m', needed) = needs_rehash m in
      let grown = rehash (put fuel) m' in
      (if needed then grown else ok m') >>= λ r. ok (put_bucket k v r)

  -- The chain without its first bucket for `k`.
  unfoldable pub erase : K → Chain K V → Chain K V
  erase k [] = []
  erase k (e ∷ c) = if key.keys_cmp e.0 k then c else e ∷ erase k c

  unfoldable pub pop : Map K V → K → Map K V
  unfolding has erase slot
  pop m k =
      if has m k
      then record m {
        len = if m.len == 0 then u64_mod - 1 else m.len - 1;
        buckets = set m.buckets (slot k m.cap) (erase k (chain_of m k));
      }
      else m
