-- ===== src/Map/Buckets.antt =====
-- Where the entries of the bucket array of src/nnc_map.c stand, and what a write to one chain does.
use nnc.Common.{
  ℕ, zero, suc, ◌+◌, ◌<◌, ◌≡◌, ◌≢◌, refl, sym, ap, ◌∙◌, inl, inr, List, [], ◌∷◌, ◌++◌, Option, none,
  arith, length, length-append, length-set, get_or, set, get_or-set_self, get_or-set_ne, ◌==◌,
  if◌then◌else◌, Bool-cases,
}
use nnc.Hash.{Key}
use nnc.Map.{Chain, Map, slot, chain_of, find, erase}
use nnc.Map.Chain.{or_else, cmp→eq, IsDistinct, IsDistinct-append, find-append}

pub slot-lt {ℓ} : {K : Type ℓ} ⦃key : Key K⦄ (k : K) (n : ℕ) → 0 < n → slot k n < n
unfolding slot
slot-lt k n h = omega arith

module _ {ℓ} {K V : Type ℓ} ⦃key : Key K⦄ where
  -- All entries, in the order of the array and of `next`.
  unfoldable pub entries : List (Chain K V) → Chain K V
  entries [] = []
  entries (c ∷ bs) = c ++ entries bs

  -- Every key of the chain has the hash slot `i`.
  abbrev pub IsHomed : ℕ → ℕ → Chain K V → Type 0
  IsHomed n i [] = Unit
  IsHomed n i (e ∷ c) = (slot e.0 n ≡ i) × IsHomed n i c

  -- From slot `i` on, every chain holds keys of its slot, and no key twice.
  abbrev pub IsSpread : ℕ → ℕ → List (Chain K V) → Type ℓ
  IsSpread n i [] = Unit
  IsSpread n i (c ∷ bs) = IsHomed n i c × IsDistinct c × IsSpread n (i + 1) bs

  abbrev pub lookup : Map K V → K → Option V
  lookup m q = find q (chain_of m q)

  -- The array has `cap` chains, its entries stand in their slots, and `len` counts them.
  pub record IsPlaced (m : Map K V) : Type ℓ where
    pub roomy : 0 < m.cap
    pub sized : length m.buckets ≡ m.cap
    pub spread : IsSpread m.cap 0 m.buckets
    pub counted : m.len ≡ length (entries m.buckets)

  pub IsHomed-find :
      (n i : ℕ) (q : K) (c : Chain K V) → IsHomed n i c → slot q n ≢ i → find q c ≡ none
  unfolding find
  IsHomed-find n i q [] h ne = refl
  IsHomed-find n i q (e ∷ c) h ne = elim (Bool-cases (key.keys_cmp e.0 q)) [
    | inl same ↦ absurd (ne (rw (← cmp→eq e.0 q same) h.0))
    | inr other ↦ rw other (IsHomed-find n i q c h.1 ne)
  ]

  pub IsHomed-append :
      (n i : ℕ) (a b : Chain K V) → IsHomed n i a → IsHomed n i b → IsHomed n i (a ++ b)
  IsHomed-append n i [] b p q = q
  IsHomed-append n i (e ∷ a) b p q = (p.0, IsHomed-append n i a b p.1 q)

  pub IsHomed-erase : (n i : ℕ) (k : K) (c : Chain K V) → IsHomed n i c → IsHomed n i (erase k c)
  unfolding erase
  IsHomed-erase n i k [] h = tt
  IsHomed-erase n i k (e ∷ c) h = elim (Bool-cases (key.keys_cmp e.0 k)) [
    | inl same ↦ rw same h.1
    | inr other ↦ rw other (h.0, IsHomed-erase n i k c h.1)
  ]

  pub IsSpread-get :
      (n i j : ℕ) (bs : List (Chain K V))
      → IsSpread n i bs
      → IsHomed n (i + j) (get_or bs j []) × IsDistinct (get_or bs j [])
  IsSpread-get n i j [] h = (tt, tt)
  IsSpread-get n i zero (c ∷ bs) h = let e : i + 0 ≡ i = omega arith in rw e (h.0, h.1)
  IsSpread-get n i (suc j) (c ∷ bs) h =
      let e : i + suc j ≡ i + 1 + j = omega arith in rw e (IsSpread-get n (i + 1) j bs h.2)

  pub IsSpread-set :
      (n i j : ℕ) (bs : List (Chain K V)) (c : Chain K V)
      → IsSpread n i bs
      → IsHomed n (i + j) c
      → IsDistinct c
      → IsSpread n i (set bs j c)
  IsSpread-set n i j [] c h p d = tt
  IsSpread-set n i zero (b ∷ bs) c h p d = let e : i + 0 ≡ i = omega arith in (rw e at p, d, h.2)
  IsSpread-set n i (suc j) (b ∷ bs) c h p d =
      let e : i + suc j ≡ i + 1 + j = omega arith in
      (h.0, h.1, IsSpread-set n (i + 1) j bs c h.2 (rw e at p) d)

  pub length-entries_set :
      (bs : List (Chain K V)) (j : ℕ) (c : Chain K V)
      → j < length bs
      → length (entries (set bs j c)) + length (get_or bs j []) ≡ length (entries bs) + length c
  unfolding entries
  length-entries_set [] j c h = absurd (omega arith)
  length-entries_set (b ∷ bs) zero c h =
      omega (arith, length-append b (entries bs), length-append c (entries bs))
  length-entries_set (b ∷ bs) (suc j) c h = omega (
    arith,
    length-append b (entries bs),
    length-append b (entries (set bs j c)),
    length-entries_set bs j c (omega arith),
  )

  entries_before :
      (n i : ℕ) (q : K) (bs : List (Chain K V))
      → IsSpread n i bs
      → slot q n < i
      → find q (entries bs) ≡ none
  unfolding entries find
  entries_before n i q [] h lt = refl
  entries_before n i q (c ∷ bs) h lt = rw (
    find-append q c (entries bs),
    IsHomed-find n i q c h.0 (omega arith),
    entries_before n (i + 1) q bs h.2 (omega arith),
  )

  find-entries_from :
      (n i j : ℕ) (q : K) (bs : List (Chain K V))
      → IsSpread n i bs
      → slot q n ≡ i + j
      → find q (entries bs) ≡ find q (get_or bs j [])
  unfolding entries
  find-entries_from n i j q [] h e = refl
  find-entries_from n i zero q (c ∷ bs) h e =
      rw (find-append q c (entries bs), entries_before n (i + 1) q bs h.2 (omega arith))
        (or_else_none (find q c))
    where
      or_else_none : (o : Option V) → or_else o none ≡ o
      or_else_none o = ground arith
  find-entries_from n i (suc j) q (c ∷ bs) h e =
      rw (find-append q c (entries bs), IsHomed-find n i q c h.0 (omega arith))
        (find-entries_from n (i + 1) j q bs h.2 (omega arith))

  -- What is found in the chain of a key's slot is what is found among all entries.
  pub find-entries : (m : Map K V) (q : K) → IsPlaced m → find q (entries m.buckets) ≡ lookup m q
  find-entries m q p = find-entries_from m.cap 0 (slot q m.cap) q m.buckets p.spread (omega arith)

  entries-IsDistinct : (n i : ℕ) (bs : List (Chain K V)) → IsSpread n i bs → IsDistinct (entries bs)
  unfolding entries
  entries-IsDistinct n i [] h = tt
  entries-IsDistinct n i (c ∷ bs) h =
      IsDistinct-append c (entries bs) h.1 (entries-IsDistinct n (i + 1) bs h.2) apart
    where
      apart : (q : K) → find q c ≢ none → find q (entries bs) ≡ none
      apart q f = elim (Bool-cases (slot q n == i)) [
        | inl same ↦ entries_before n (i + 1) q bs h.2 (ground arith)
        | inr other ↦ absurd (f (IsHomed-find n i q c h.0 (ground arith)))
      ]

  pub IsPlaced-IsDistinct : (m : Map K V) → IsPlaced m → IsDistinct (entries m.buckets)
  IsPlaced-IsDistinct m p = entries-IsDistinct m.cap 0 m.buckets p.spread

  -- Reading after the chain of `k` is replaced by `c`.
  pub find-set :
      (bs : List (Chain K V)) (n : ℕ) (k q : K) (c : Chain K V)
      → slot k n < length bs
      → find q (get_or (set bs (slot k n) c) (slot q n) [])
        ≡ (if slot k n == slot q n then find q c else find q (get_or bs (slot q n) []))
  find-set bs n k q c h = elim (Bool-cases (slot k n == slot q n)) [
    | inl same ↦
        let e : slot q n ≡ slot k n = ground arith in
        rw (same, e) (ap (find q) (get_or-set_self bs (slot k n) c [] h))
    | inr other ↦
        rw other (ap (find q) (get_or-set_ne bs (slot k n) (slot q n) c [] (ground arith)))
  ]

  module _ (m : Map K V) (k : K) (p : IsPlaced m) where
    pub slot_in : slot k m.cap < length m.buckets
    slot_in = omega (arith, slot-lt k m.cap p.roomy, p.sized)

    pub chain_of-IsHomed : IsHomed m.cap (slot k m.cap) (chain_of m k) × IsDistinct (chain_of m k)
    chain_of-IsHomed =
        let e : 0 + slot k m.cap ≡ slot k m.cap = omega arith in
        rw e at (IsSpread-get m.cap 0 (slot k m.cap) m.buckets p.spread)

    -- Where the chain of `k` becomes `c`, in the slot of `k` and with no key twice, all is in place.
    pub IsPlaced-set :
        (c : Chain K V) (n : ℕ)
        → IsHomed m.cap (slot k m.cap) c
        → IsDistinct c
        → n + length (chain_of m k) ≡ m.len + length c
        → IsPlaced (record m { len = n; buckets = set m.buckets (slot k m.cap) c })
    IsPlaced-set c n homed distinct size = record {
      roomy = p.roomy;
      sized = length-set m.buckets (slot k m.cap) c ∙ p.sized;
      spread =
          IsSpread-set m.cap 0 (slot k m.cap) m.buckets c p.spread
            (let e : 0 + slot k m.cap ≡ slot k m.cap = omega arith in rw e homed) distinct;
      counted = omega (arith, length-entries_set m.buckets (slot k m.cap) c slot_in, p.counted);
    }

    -- Where `c` differs from the chain of `k` at the key `k` alone, so does the whole map.
    pub find-set_update :
        (x : Option V) (c : Chain K V)
        → ((q : K) → find q c ≡ (if key.keys_cmp k q then x else find q (chain_of m k)))
        → (q : K)
        → find q (get_or (set m.buckets (slot k m.cap) c) (slot q m.cap) [])
          ≡ (if key.keys_cmp k q then x else lookup m q)
    find-set_update x c h q =
        find-set m.buckets m.cap k q c slot_in ∙ elim (Bool-cases (slot k m.cap == slot q m.cap)) [
          | inl same ↦
              let e : slot q m.cap ≡ slot k m.cap = ground arith in
              rw (same, h q)
                (ap (λ (i : ℕ). if key.keys_cmp k q then x else find q (get_or m.buckets i []))
                  (sym e))
          | inr other ↦ elim (Bool-cases (key.keys_cmp k q)) [
            | inl eq ↦
                let e : slot k m.cap ≡ slot q m.cap =
                  ap (λ (j : K). slot j m.cap) (cmp→eq k q eq) in
                ground arith
            | inr ne ↦ rw (other, ne)
          ]
        ]
