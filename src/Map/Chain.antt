-- ===== src/Map/Chain.antt =====
-- One bucket chain of src/nnc_map.c: what the loops of put and pop do to what is found in it.
use nnc.Common.{
  ◌∙◌, ◌+◌, ◌≡◌, ◌≢◌, refl, inl, inr, [], ◌∷◌, ◌++◌, true, false, Option, none, some, arith, length,
  if◌then◌else◌, Bool-cases,
}
use nnc.Hash.{Key}
use nnc.Map.{Chain, find, put_chain, erase}

module _ {ℓ} {A : Type ℓ} where
  abbrev pub or_else : Option A → Option A → Option A
  or_else none p = p
  or_else (some a) p = some a

module _ {ℓ} {K : Type ℓ} ⦃key : Key K⦄ where
  pub cmp_refl : (k : K) → key.keys_cmp k k ≡ true
  cmp_refl k = (key.keys_cmp_iff k k).1 refl

  pub cmp→eq : (a b : K) → key.keys_cmp a b ≡ true → a ≡ b
  cmp→eq a b h = (key.keys_cmp_iff a b).0 h

  pub cmp_ne : (a b : K) → a ≢ b → key.keys_cmp a b ≡ false
  cmp_ne a b h = ground (arith, cmp→eq a b)

  pub cmp_comm : (a b : K) → key.keys_cmp a b ≡ key.keys_cmp b a
  cmp_comm a b = ground (arith, cmp→eq a b, cmp→eq b a, cmp_refl a, cmp_refl b)

module _ {ℓ} {K V : Type ℓ} ⦃key : Key K⦄ where
  -- No key stands in the chain twice.
  abbrev pub IsDistinct : Chain K V → Type ℓ
  IsDistinct [] = Unit
  IsDistinct (e ∷ c) = (find e.0 c ≡ none) × IsDistinct c

  pub find-append : (q : K) (a b : Chain K V) → find q (a ++ b) ≡ or_else (find q a) (find q b)
  unfolding find
  find-append q [] b = refl
  find-append q (e ∷ a) b = ground (arith, find-append q a b)

  -- With no bucket for `k` the loop of put goes to the end and fills a new bucket there.
  pub put_chain_fresh :
      (k : K) (v : V) (c : Chain K V) → find k c ≡ none → put_chain k v c ≡ (c ++ (k, v) ∷ [], true)
  unfolding find put_chain
  put_chain_fresh k v [] h = refl
  put_chain_fresh k v (e ∷ c) h = ground (arith, put_chain_fresh k v c)

  pub IsDistinct-append :
      (a b : Chain K V)
      → IsDistinct a
      → IsDistinct b
      → ((q : K) → find q a ≢ none → find q b ≡ none)
      → IsDistinct (a ++ b)
  unfolding find
  IsDistinct-append [] b da db apart = db
  IsDistinct-append (e ∷ a) b da db apart =
      let free = apart e.0 (ground (arith, cmp_refl e.0)) in
      (rw (find-append, da.0) free, IsDistinct-append a b da.1 db (λ q h. apart q (later q h)))
    where
      later : (q : K) → find q a ≢ none → find q (e ∷ a) ≢ none
      later q h = ground arith

  -- Erasing the bucket of `k` takes the key away and leaves what is found under all others.
  pub find-erase :
      (k q : K) (c : Chain K V)
      → IsDistinct c
      → find q (erase k c) ≡ (if key.keys_cmp k q then none else find q c)
  unfolding find erase
  find-erase k q [] d = ground arith
  find-erase k q (e ∷ c) d =
      ground (arith, find-erase k q c, cmp→eq e.0 k, cmp→eq k q, cmp→eq e.0 q, cmp_refl k)

  pub IsDistinct-erase : (k : K) (c : Chain K V) → IsDistinct c → IsDistinct (erase k c)
  unfolding erase
  IsDistinct-erase k [] d = tt
  IsDistinct-erase k (e ∷ c) d = elim (Bool-cases (key.keys_cmp e.0 k)) [
    | inl hit ↦ rw hit d.1
    | inr miss ↦ rw miss (rw (find-erase k e.0 c d.1, d.0) (ground arith), IsDistinct-erase k c d.1)
  ]

  pub length-erase : (k : K) (c : Chain K V) → find k c ≢ none → length (erase k c) + 1 ≡ length c
  unfolding find erase
  length-erase k [] h = absurd (h refl)
  length-erase k (e ∷ c) h = ground (arith, length-erase k c)

  -- The buckets that `next` links behind the bucket of `k`.
  unfoldable pub behind : K → Chain K V → Chain K V
  behind k [] = []
  behind k (e ∷ c) = if key.keys_cmp e.0 k then c else behind k c

  pub find-behind : (k q : K) (c : Chain K V) → find q c ≡ none → find q (behind k c) ≡ none
  unfolding find behind
  find-behind k q [] h = refl
  find-behind k q (e ∷ c) h = ground (arith, find-behind k q c)

  -- Writing to a bucket that is there cuts the chain behind it off.
  pub find-put_chain :
      (k q : K) (v : V) (c : Chain K V)
      → find k c ≢ none
      → IsDistinct c
      → find q (put_chain k v c).0 ≡ (
          if key.keys_cmp k q
          then some v
          else elim (find q (behind k c)) [ none ↦ find q c | some w ↦ none ])
  unfolding find put_chain behind
  find-put_chain k q v [] h d = absurd (h refl)
  find-put_chain k q v (e ∷ c) h d = ground (
    arith,
    find-put_chain k q v c,
    find-behind k e.0 c,
    cmp→eq e.0 k,
    cmp→eq k q,
    cmp→eq e.0 q,
    cmp_refl k,
  )

  pub length-put_chain :
      (k : K) (v : V) (c : Chain K V)
      → find k c ≢ none
      → ((put_chain k v c).1 ≡ false)
        × (length (put_chain k v c).0 + length (behind k c) ≡ length c)
  unfolding find put_chain behind
  length-put_chain k v [] h = absurd (h refl)
  length-put_chain k v (e ∷ c) h = ground (arith, length-put_chain k v c)

  -- The chain with a new bucket for `k` at its end.
  pub find-append_new :
      (k q : K) (v : V) (c : Chain K V)
      → find k c ≡ none
      → find q (c ++ (k, v) ∷ []) ≡ (if key.keys_cmp k q then some v else find q c)
  unfolding find
  find-append_new k q v [] h = refl
  find-append_new k q v (e ∷ c) h =
      ground (arith, find-append_new k q v c, cmp→eq e.0 q, cmp→eq k q, cmp_refl k)

  pub IsDistinct-append_new :
      (k : K) (v : V) (c : Chain K V)
      → find k c ≡ none
      → IsDistinct c
      → IsDistinct (c ++ (k, v) ∷ [])
  unfolding find
  IsDistinct-append_new k v [] h d = (refl, tt)
  IsDistinct-append_new k v (e ∷ c) h d = elim (Bool-cases (key.keys_cmp e.0 k)) [
    | inl same ↦ absurd (ground arith)
    | inr other ↦
        let rest : find k c ≡ none = ground arith in
        (
          find-append_new k e.0 v c rest ∙ ground (arith, cmp_comm e.0 k),
          IsDistinct-append_new k v c rest d.1,
        )
  ]
