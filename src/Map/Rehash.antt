-- ===== src/Map/Rehash.antt =====
-- `nncmap_rehash` of src/nnc_map.c, and the puts that it makes.
use nnc.Common.{
  ℕ, zero, suc, ◌+◌, ◌*◌, ◌/◌, ◌%◌, ◌<◌, ◌^◌, ◌≡◌, ◌≢◌, refl, sym, ap, ◌∙◌, List, [], ◌∷◌, ◌++◌,
  none, some, arith, length, length-append, replicate, length-replicate, get_or, get_or-replicate,
  if◌then◌else◌,
}
use mathlib.Core.Path.{fun_ext}
use nnc.Hash.{Key}
use nnc.Map.{
  Chain, Map, Run, ok, fault, null_read, out_of_fuel, ◌>>=◌, u64_mod, init, needs_rehash, slot,
  chain_of, find, put_bucket, move_chain, move_buckets, rehash, put,
}
use nnc.Map.Chain.{
  or_else, cmp→eq, cmp_refl, IsDistinct, put_chain_fresh, find-append_new, IsDistinct-append_new,
}
use nnc.Map.Buckets.{
  entries, IsHomed-append, IsSpread, chain_of-IsHomed, lookup, IsPlaced, IsPlaced-set,
  IsPlaced-IsDistinct, find-entries, find-set_update,
}

empty-IsSpread {ℓ} :
    (K V : Type ℓ) ⦃key : Key K⦄ (w i k : ℕ) → IsSpread {K = K} {V = V} w i (replicate k [])
empty-IsSpread K V w i zero = tt
empty-IsSpread K V w i (suc k) = (tt, tt, empty-IsSpread K V w (i + 1) k)

module _ {ℓ} {K V : Type ℓ} ⦃key : Key K⦄ where
  -- What a put of a new key to `m` leaves.
  pub record Added (m : Map K V) (k : K) (v : V) (r : Map K V) : Type ℓ where
    pub placed : IsPlaced r
    pub same_cap : r.cap ≡ m.cap
    pub longer : r.len ≡ m.len + 1
    pub reads : (q : K) → lookup r q ≡ (if key.keys_cmp k q then some v else lookup m q)

  -- A put of a key that is not there, behind the test for rehashing.
  pub put_bucket-Added :
      (m : Map K V) (k : K) (v : V)
      → IsPlaced m
      → lookup m k ≡ none
      → m.len + 1 < u64_mod
      → Added m k v (put_bucket k v m)
  unfolding put_bucket find
  put_bucket-Added m k v p new small =
      let home = chain_of-IsHomed m k p in
      let grown = chain_of m k ++ (k, v) ∷ [] in
      rw (put_bucket, put_chain_fresh k v (chain_of m k) new)
        (record {
          placed =
              IsPlaced-set m k p grown ((m.len + 1) % u64_mod)
                (IsHomed-append m.cap (slot k m.cap) (chain_of m k) ((k, v) ∷ []) home.0 (refl, tt))
                (IsDistinct-append_new k v (chain_of m k) new home.1)
                (omega (arith, length-append (chain_of m k) ((k, v) ∷ [])));
          same_cap = refl;
          longer = omega arith;
          reads =
              find-set_update m k p (some v) grown (λ q. find-append_new k q v (chain_of m k) new);
        })

  -- A map that is not too full is not rehashed.
  pub put_roomy :
      (fuel : ℕ) (m : Map K V) (k : K) (v : V)
      → 0 < m.cap
      → 10 * m.len < 7 * m.cap
      → put (suc fuel) m k v ≡ ok (put_bucket k v m)
  unfolding put needs_rehash
  put_roomy fuel m k v pos room = ground arith

  -- What moving the entries `es` into `m` leaves.
  record Moved (m : Map K V) (es : Chain K V) (r : Map K V) : Type ℓ where
    placed : IsPlaced r
    same_cap : r.cap ≡ m.cap
    longer : r.len ≡ m.len + length es
    reads : (q : K) → lookup r q ≡ or_else (lookup m q) (find q es)

  move_chain-Moved :
      (fuel : ℕ) (es : Chain K V) (m : Map K V)
      → IsPlaced m
      → IsDistinct es
      → ((q : K) → find q es ≢ none → lookup m q ≡ none)
      → 10 * (m.len + length es) < 7 * m.cap + 10
      → m.len + length es < u64_mod
      → (r : Map K V) × (move_chain (put (suc fuel)) es m ≡ ok r) × Moved m es r
  unfolding move_chain find
  move_chain-Moved fuel [] m p d apart room small = (
    m,
    refl,
    record { placed = p; same_cap = refl; longer = omega arith; reads = λ q. ground arith },
  )
  move_chain-Moved fuel ((k, v) ∷ es) m p d apart room small =
      let step = put_bucket-Added m k v p (apart k (ground (arith, cmp_refl k))) (omega arith) in
      let n = put_bucket k v m in
      let (r, run, t) =
        move_chain-Moved fuel es n step.placed d.1
          (λ q h. step.reads q ∙ ground (arith, apart q, cmp→eq k q, d.0))
          (omega (arith, step.longer, step.same_cap)) (omega (arith, step.longer)) in
      (
        r,
        rw (put_roomy fuel m k v p.roomy (omega arith)) run,
        record {
          placed = t.placed;
          same_cap = t.same_cap ∙ step.same_cap;
          longer = omega (arith, t.longer, step.longer);
          reads = λ q. t.reads q ∙ ground (arith, step.reads q, apart q, cmp→eq k q, d.0);
        },
      )

  bind_each :
      (f g h : Map K V → Run (Map K V)) (r : Run (Map K V))
      → ((n : Map K V) → f n ≡ (g n >>= h))
      → (r >>= f) ≡ (r >>= g >>= h)
  bind_each f g h (ok n) e = e n
  bind_each f g h fault e = refl
  bind_each f g h null_read e = refl
  bind_each f g h out_of_fuel e = refl

  move_chain-append :
      (put' : Map K V → K → V → Run (Map K V)) (a b : Chain K V) (m : Map K V)
      → move_chain put' (a ++ b) m ≡ (move_chain put' a m >>= move_chain put' b)
  unfolding move_chain
  move_chain-append put' [] b m = refl
  move_chain-append put' (e ∷ a) b m =
      bind_each _ _ _ (put' m e.0 e.1) (λ n. move_chain-append put' a b n)

  -- The nested loops over an array with `n` chains are one loop over all its entries.
  move_buckets-entries :
      (put' : Map K V → K → V → Run (Map K V)) (n : ℕ) (bs : List (Chain K V)) (m : Map K V)
      → length bs ≡ n
      → move_buckets put' n bs m ≡ move_chain put' (entries bs) m
  unfolding move_buckets entries move_chain
  move_buckets-entries put' zero [] m e = refl
  move_buckets-entries put' zero (c ∷ bs) m e = absurd (omega arith)
  move_buckets-entries put' (suc n) [] m e = absurd (omega arith)
  move_buckets-entries put' (suc n) (c ∷ bs) m e =
      ap (λ f. move_chain put' c m >>= f)
        (fun_ext (λ r. move_buckets-entries put' n bs r (omega arith)))
      ∙ sym (move_chain-append put' c (entries bs) m)

  entries-empty : (k : ℕ) → entries (replicate {A = Chain K V} k []) ≡ []
  unfolding entries
  entries-empty zero = refl
  entries-empty (suc k) = entries-empty k

  init_lookup :
      (n : ℕ) (q : K) → find q (get_or (replicate {A = Chain K V} n []) (slot q n) []) ≡ none
  unfolding find
  init_lookup n q = ap (find q) (get_or-replicate n (slot q n) [])

  -- A new map is in place, and holds no key.
  pub init-IsPlaced :
      (n : ℕ) (m : Map K V) → 0 < n → m ≡ init n → IsPlaced m × ((q : K) → lookup m q ≡ none)
  unfolding init
  init-IsPlaced n m pos e = rw e (
    record {
      roomy = pos;
      sized = length-replicate n [];
      spread = empty-IsSpread K V n 0 n;
      counted = sym (ap length (entries-empty n));
    },
    init_lookup n,
  )

  -- The load at which a rehash leaves room: it is what `nncmap_put` keeps below its threshold.
  abbrev pub IsRoomy : Map K V → Type 0
  IsRoomy m = 10 * m.len < 7 * (m.cap * 3 / 2) + 10

  -- A map of which a rehash must still be right: in place, with some room and of a size that a
  -- double and a 64-bit number hold.
  pub record Rehashed (m r : Map K V) : Type ℓ where
    pub placed : IsPlaced r
    pub wider : r.cap ≡ m.cap * 3 / 2
    pub same_len : r.len ≡ m.len
    pub reads : (q : K) → lookup r q ≡ lookup m q

  -- Rehashing a map in place, with a load that the new array takes, makes only puts that find room:
  -- it ends with any fuel above 0, half as many chains more, the same number of entries, and the
  -- same value under every key.
  pub rehash-Rehashed :
      (fuel : ℕ) (m : Map K V)
      → IsPlaced m
      → IsRoomy m
      → m.cap < 2 ^ 49
      → (r : Map K V) × (rehash (put (suc fuel)) m ≡ ok r) × Rehashed m r
  unfolding rehash init
  rehash-Rehashed fuel m p room small =
      let w = m.cap * 3 / 2 in
      let (start, empty) = init-IsPlaced w (init w) (omega (arith, p.roomy)) refl in
      let es = entries m.buckets in
      let (r, run, t) =
        move_chain-Moved fuel es (init w) start (IsPlaced-IsDistinct m p) (λ q h. empty q)
          (omega (arith, p.counted)) (omega (arith, p.counted)) in
      (
        r,
        move_buckets-entries (put (suc fuel)) m.cap m.buckets (init w) p.sized ∙ run,
        record {
          placed = t.placed;
          wider = t.same_cap;
          same_len = omega (arith, t.longer, p.counted);
          reads = λ q. t.reads q ∙ rw (empty q) (find-entries m q p);
        },
      )
