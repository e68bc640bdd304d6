-- ===== src/Map/Model.antt =====
-- The map of src/nnc_map.c as a function from keys to values.
use nnc.Common.{
  ℕ, suc, ◌+◌, ◌*◌, ◌/◌, ◌≤◌, ◌<◌, ◌^◌, ◌≡◌, ◌≢◌, ◌∙◌, ap, refl, sym, List, [], ◌∷◌, Bool, true,
  false, ◌&&◌, Option, none, some, arith, if◌then◌else◌, Option-cases, inl, inr,
}
use nnc.Hash.{Key}
use nnc.Map.{
  Chain, Map, Run, ok, fault, null_read, chain_of, init, missed, get, has, put, pop, put_bucket,
}
use nnc.Map.Buckets.{lookup}
use nnc.Map.Rehash.{init-IsPlaced, put_roomy}
use nnc.Map.Put.{IsValid, put-Grown, Overwritten, put_bucket-Overwritten, pop-Popped}

abbrev pub is_empty {ℓ} : {A : Type ℓ} → List A → Bool
is_empty [] = true
is_empty (x ∷ xs) = false

abbrev pub equals_zero : Option Bool → Bool
equals_zero none = false
equals_zero (some b) = b

module _ {ℓ} {K V : Type ℓ} ⦃key : Key K⦄ where
  abbrev pub update : (K → Option V) → K → Option V → K → Option V
  update f k x q = if key.keys_cmp k q then x else f q

  -- The map is valid and reads as the function `f`.
  pub record Models (f : K → Option V) (m : Map K V) : Type ℓ where
    pub valid : IsValid m
    pub reads : (q : K) → lookup m q ≡ f q

  -- A new map of four chains or more is empty.
  pub init-Models : (n : ℕ) → 4 ≤ n → Models (λ q. none) (init n)
  unfolding init
  init-Models n wide =
      let (placed, reads) = init-IsPlaced n (init n) (omega arith) refl in
      record { valid = record { placed = placed; wide = wide; room = omega arith }; reads = reads }

  -- A put of a key that is not there ends without a fault, with any fuel from 2 on, whether the map
  -- is rehashed or not: the result is the map with that key added, and `len` goes up by one.
  pub put-Models :
      (fuel : ℕ) (f : K → Option V) (m : Map K V) (k : K) (v : V)
      → Models f m
      → m.cap < 2 ^ 48
      → f k ≡ none
      → (r : Map K V) × (put (suc (suc fuel)) m k v ≡ ok r)
        × Models (update f k (some v)) r
        × (r.len ≡ m.len + 1)
        × (r.cap ≤ m.cap * 3 / 2)
  put-Models fuel f m k v t small new =
      let (r, run, g) = put-Grown fuel m k v t.valid small (t.reads k ∙ new) in
      (
        r,
        run,
        record { valid = g.valid; reads = λ q. g.reads q ∙ rw (t.reads q) },
        g.longer,
        g.bounded,
      )

  pop-len :
      (f : K → Option V) (m : Map K V) (k : K)
      → Models f m
      → (pop m k).len + elim (f k) [ none ↦ 0 | some v ↦ 1 ] ≡ m.len
  unfolding has
  pop-len f m k t =
      let p = pop-Popped m k t.valid.placed in
      rw (← t.reads k) (elim (Option-cases (lookup m k)) [
        | inl e ↦ let h : has m k ≡ false = rw (e, has) in rw e (rw h at p.shorter)
        | inr (v, e) ↦ let h : has m k ≡ true = rw (e, has) in rw e (rw h at p.shorter)
      ])

  -- A pop takes the key away and leaves all else, whether the key was there or not; `len` goes down
  -- exactly if it was.
  pub pop-Models :
      (f : K → Option V) (m : Map K V) (k : K)
      → Models f m
      → Models (update f k none) (pop m k)
        × ((pop m k).len + elim (f k) [ none ↦ 0 | some v ↦ 1 ] ≡ m.len)
  pop-Models f m k t =
      let p = pop-Popped m k t.valid.placed in
      (
        record {
          valid = record {
            placed = p.placed;
            wide = omega (arith, p.same_cap, t.valid.wide);
            room = omega (arith, p.same_cap, p.shorter, t.valid.room);
          };
          reads = λ q. p.reads q ∙ rw (t.reads q);
        },
        pop-len f m k t,
      )

  missed-cases :
      (k : K) (c : Chain K V)
      → missed k c ≡ (if is_empty c && equals_zero (key.zero_cmp k) then fault else null_read)
  unfolding missed
  missed-cases k [] = by_case (key.zero_cmp k)
    where
      by_case :
          (z : Option Bool)
          → elim z [ some true ↦ fault | some false ↦ null_read | none ↦ null_read ]
            ≡ if◌then◌else◌ {A = Run V} (equals_zero z) fault null_read
      by_case none = refl
      by_case (some true) = refl
      by_case (some false) = refl
  missed-cases k (e ∷ c) = refl

  pub get-has-Models :
      (f : K → Option V) (m : Map K V) (k : K)
      → Models f m
      → (get m k ≡ elim (f k) [
        | none ↦
            if is_empty (chain_of m k) && equals_zero (key.zero_cmp k) then fault else null_read
        | some v ↦ ok v
      ])
        × (has m k ≡ elim (f k) [ none ↦ false | some v ↦ true ])
  unfolding get has
  get-has-Models f m k t = (
    rw (← t.reads k) (
        ap (λ (r : Run V). elim (lookup m k) [ none ↦ r | some v ↦ ok v ])
          (missed-cases k (chain_of m k))),
    rw (← t.reads k),
  )

  -- A put of a key that is there, to a map that is not rehashed, ends without a fault and stores the
  -- value, but it drops every entry that stands behind that key in its chain: those keys are gone
  -- from the map, while `len` stays and so counts more than the entries that are left.
  pub put-Overwritten :
      (fuel : ℕ) (f : K → Option V) (m : Map K V) (k : K) (v : V)
      → Models f m
      → f k ≢ none
      → 10 * m.len < 7 * m.cap
      → (put (suc fuel) m k v ≡ ok (put_bucket k v m)) × Overwritten m k v (put_bucket k v m)
  put-Overwritten fuel f m k v t there low = (
    put_roomy fuel m k v (omega (arith, t.valid.wide)) low,
    put_bucket-Overwritten m k v t.valid.placed (λ e. there (sym (t.reads k) ∙ e)),
  )
