-- ===== src/Map/Put.antt =====
-- `nncmap_put` and `nncmap_pop` of src/nnc_map.c on a map in place.
use nnc.Common.{
  ℕ, suc, ◌+◌, ◌-◌, ◌*◌, ◌/◌, ◌≤◌, ◌<◌, ◌^◌, ◌≡◌, ◌≢◌, refl, sym, ap, ◌∙◌, inl, inr, [], true,
  false, none, some, arith, length, get_or, ◌==◌, leb, if◌then◌else◌, Bool-cases, Option-cases,
}
use nnc.Hash.{Key}
use nnc.Map.{
  Map, ok, ◌>>=◌, needs_rehash, slot, chain_of, find, has, put_chain, put_bucket, rehash, put, pop,
  erase,
}
use nnc.Map.Chain.{
  cmp_ne, cmp→eq, behind, find-behind, find-put_chain, length-put_chain, find-erase,
  IsDistinct-erase, length-erase,
}
use nnc.Map.Buckets.{
  entries, lookup, IsPlaced, IsPlaced-set, IsHomed-find, IsHomed-erase, chain_of-IsHomed, find-set,
  find-set_update, slot_in, length-entries_set,
}
use nnc.Map.Rehash.{put_bucket-Added, put_roomy, IsRoomy, rehash-Rehashed}

module _ {ℓ} {K V : Type ℓ} ⦃key : Key K⦄ where
  -- In place, with at least four chains (so that a half more is two more) and below the load.
  pub record IsValid (m : Map K V) : Type ℓ where
    pub placed : IsPlaced m
    pub wide : 4 ≤ m.cap
    pub room : IsRoomy m

  needs_rehash_full :
      (m : Map K V) → 0 < m.cap → 7 * m.cap ≤ 10 * m.len → needs_rehash m ≡ (m, true)
  unfolding needs_rehash
  needs_rehash_full m pos full =
      let positive : (m.cap == 0) ≡ false = ground arith in
      let loaded : leb (7 * m.cap) (10 * m.len) ≡ true = ground arith in rw (positive, loaded)

  put_full :
      (fuel : ℕ) (m : Map K V) (k : K) (v : V)
      → 0 < m.cap
      → 7 * m.cap ≤ 10 * m.len
      → put (suc fuel) m k v ≡ (rehash (put fuel) m >>= λ r. ok (put_bucket k v r))
  unfolding put
  put_full fuel m k v pos full = rw (needs_rehash_full m pos full)

  -- What a put of a new key leaves: at most half as many chains more, all else as it should be.
  pub record Grown (m : Map K V) (k : K) (v : V) (r : Map K V) : Type ℓ where
    pub valid : IsValid r
    pub bounded : r.cap ≤ m.cap * 3 / 2
    pub longer : r.len ≡ m.len + 1
    pub reads : (q : K) → lookup r q ≡ (if key.keys_cmp k q then some v else lookup m q)

  pub put-Grown :
      (fuel : ℕ) (m : Map K V) (k : K) (v : V)
      → IsValid m
      → m.cap < 2 ^ 48
      → lookup m k ≡ none
      → (r : Map K V) × (put (suc (suc fuel)) m k v ≡ ok r) × Grown m k v r
  put-Grown fuel m k v valid small new = elim (Bool-cases (leb (7 * m.cap) (10 * m.len))) [
    | inr free ↦
        let low : 10 * m.len < 7 * m.cap = ground arith in
        let a = put_bucket-Added m k v valid.placed new (omega (arith, valid.room)) in
        (
          put_bucket k v m,
          put_roomy (suc fuel) m k v (omega (arith, valid.wide)) low,
          record {
            valid = record {
              placed = a.placed;
              wide = omega (arith, a.same_cap, valid.wide);
              room = omega (arith, a.same_cap, a.longer, valid.room);
            };
            bounded = omega (arith, a.same_cap);
            longer = a.longer;
            reads = a.reads;
          },
        )
    | inl full ↦
        let (n, run, t) = rehash-Rehashed fuel m valid.placed valid.room (omega arith) in
        let a =
          put_bucket-Added n k v t.placed (t.reads k ∙ new)
            (omega (arith, t.same_len, valid.room)) in
        (
          put_bucket k v n,
          put_full (suc fuel) m k v (omega (arith, valid.wide)) (ground arith) ∙ rw run,
          record {
            valid = record {
              placed = a.placed;
              wide = omega (arith, a.same_cap, t.wider, valid.wide);
              room =
                  omega (arith, a.same_cap, a.longer, t.wider, t.same_len, valid.room, valid.wide);
            };
            bounded = omega (arith, a.same_cap, t.wider);
            longer = omega (arith, a.longer, t.same_len);
            reads = λ q. a.reads q ∙ rw (t.reads q);
          },
        )
  ]

  -- What a put of a key that is there leaves: the value is the new one, but every entry that the
  -- chain holds behind it is lost, and `len` still counts it.
  pub record Overwritten (m : Map K V) (k : K) (v : V) (r : Map K V) : Type ℓ where
    pub same_cap : r.cap ≡ m.cap
    pub same_len : r.len ≡ m.len
    pub reads :
        (q : K)
        → lookup r q ≡ (
            if key.keys_cmp k q
            then some v
            else elim (find q (behind k (chain_of m k))) [ none ↦ lookup m q | some w ↦ none ])
    pub loses :
        length (entries r.buckets) + length (behind k (chain_of m k)) ≡ length (entries m.buckets)

  pub put_bucket-Overwritten :
      (m : Map K V) (k : K) (v : V)
      → IsPlaced m
      → lookup m k ≢ none
      → Overwritten m k v (put_bucket k v m)
  unfolding put_bucket
  put_bucket-Overwritten m k v p there =
      let c = chain_of m k in
      let home = chain_of-IsHomed m k p in
      let put = length-put_chain k v c there in
      rw (put_bucket, put.0)
        (record {
          same_cap = refl;
          same_len = refl;
          reads = λ q.
              find-set m.buckets m.cap k q (put_chain k v c).0 (slot_in m k p)
              ∙ elim (Bool-cases (slot k m.cap == slot q m.cap)) [
                | inl same ↦
                    let e : slot q m.cap ≡ slot k m.cap = ground arith in
                    rw same (
                      find-put_chain k q v c there home.1
                      ∙ ap
                          (λ (i : ℕ).
                            if key.keys_cmp k q then some v else elim (find q (behind k c)) [
                              | none ↦ find q (get_or m.buckets i [])
                              | some w ↦ none
                            ])
                          (sym e))
                | inr other ↦
                    let apart : slot q m.cap ≢ slot k m.cap = ground arith in
                    let gone =
                      find-behind k q c (IsHomed-find m.cap (slot k m.cap) q c home.0 apart) in
                    let differ = cmp_ne k q (λ e. apart (ap (λ (j : K). slot j m.cap) (sym e))) in
                    rw (other, differ, gone)
              ];
          loses = omega (
            arith,
            put.1,
            length-entries_set m.buckets (slot k m.cap) (put_chain k v c).0 (slot_in m k p),
          );
        })

  -- What a pop of `k` leaves.
  pub record Popped (m : Map K V) (k : K) (r : Map K V) : Type ℓ where
    pub placed : IsPlaced r
    pub same_cap : r.cap ≡ m.cap
    pub shorter : r.len + (if has m k then 1 else 0) ≡ m.len
    pub reads : (q : K) → lookup r q ≡ (if key.keys_cmp k q then none else lookup m q)

  pub pop-Popped : (m : Map K V) (k : K) → IsPlaced m → Popped m k (pop m k)
  unfolding pop has
  pop-Popped m k p =
      let c = chain_of m k in
      let home = chain_of-IsHomed m k p in
      elim (Option-cases (lookup m k)) [
        | inl e ↦
            rw (e, pop, has)
              (record {
                placed = p;
                same_cap = refl;
                shorter = rw (e, has) (omega arith);
                reads = λ q. elim (Bool-cases (key.keys_cmp k q)) [
                  | inl same ↦ rw same (ap (lookup m) (sym (cmp→eq k q same)) ∙ e)
                  | inr other ↦ rw other
                ];
              })
        | inr (v, e) ↦
            let size = length-erase k c (λ n. cc (e, n)) in
            let left = length-entries_set m.buckets (slot k m.cap) (erase k c) (slot_in m k p) in
            let some_left : 0 < m.len = omega (arith, size, left, p.counted) in
            let test : (m.len == 0) ≡ false = ground arith in
            rw (e, pop, has, test)
              (record {
                placed =
                    IsPlaced-set m k p (erase k c) (m.len - 1)
                      (IsHomed-erase m.cap (slot k m.cap) k c home.0) (IsDistinct-erase k c home.1)
                      (omega (arith, size));
                same_cap = refl;
                shorter = rw (e, has) (omega arith);
                reads = find-set_update m k p none (erase k c) (λ q. find-erase k q c home.1);
              })
      ]
