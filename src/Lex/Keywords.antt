-- ===== src/Lex/Keywords.antt =====
-- The table of keywords and the map that `nnc_lex_init_with_fp` of src/nnc_lex.c fills with it.
use Prim.Native.Char.{code}
use Prim.Native.String.{String}
use nnc.Common.{
  ℕ, ◌+◌, ◌*◌, ◌/◌, ◌<◌, ◌≤◌, ◌^◌, ◌≡◌, ◌∙◌, refl, ap, inl, inr, Bool, true, false, not, ◌||◌, ◌&&◌,
  if◌then◌else◌, List, [], ◌∷◌, Option, none, some, length, arith, Bool-cases,
}
use nnc.Hash.{str_same, str_same_iff, str_key}
use nnc.Map.{Map, Run, ok, ◌>>=◌, init, put, put_bucket}
use nnc.Map.Rehash.{put_roomy, put_bucket-Added}
use nnc.Map.Model.{Models, update, init-Models, put-Models}

-- The bytes of an ASCII text.
abbrev pub codes : String → List ℕ
codes String.[] = []
codes (String.◌∷◌ c s) = code c ∷ codes s

-- `nnc_keywords`, in the order of the kinds from TOK_AS to TOK_ELSE.
abbrev pub nnc_keywords : List (List ℕ)
nnc_keywords =
    codes "as"
    ∷ codes "break"
    ∷ codes "case"
    ∷ codes "cast"
    ∷ codes "continue"
    ∷ codes "default"
    ∷ codes "enum"
    ∷ codes "elif"
    ∷ codes "ent"
    ∷ codes "ext"
    ∷ codes "for"
    ∷ codes "fn"
    ∷ codes "from"
    ∷ codes "f32"
    ∷ codes "f64"
    ∷ codes "goto"
    ∷ codes "if"
    ∷ codes "i8"
    ∷ codes "i16"
    ∷ codes "i32"
    ∷ codes "i64"
    ∷ codes "import"
    ∷ codes "namespace"
    ∷ codes "pub"
    ∷ codes "return"
    ∷ codes "struct"
    ∷ codes "switch"
    ∷ codes "sizeof"
    ∷ codes "type"
    ∷ codes "union"
    ∷ codes "u8"
    ∷ codes "u16"
    ∷ codes "u32"
    ∷ codes "u64"
    ∷ codes "let"
    ∷ codes "label"
    ∷ codes "lengthof"
    ∷ codes "var"
    ∷ codes "void"
    ∷ codes "while"
    ∷ codes "do"
    ∷ codes "else"
    ∷ []

-- The loop of `nnc_lex_init_with_fp`: the kind TOK_AS + i is written as i.
unfoldable pub fill : List (List ℕ) → ℕ → Map (List ℕ) ℕ → Run (Map (List ℕ) ℕ)
unfolding put
fill [] i m = ok m
fill (k ∷ ks) i m = put 2 m k i >>= fill ks (i + 1)

-- NNC_MAP_REHASH_SCALAR is 1.5.
abbrev pub map_cap : List (List ℕ) → ℕ
map_cap ks = length ks * 3 / 2

unfoldable pub init_keywords : List (List ℕ) → Run (Map (List ℕ) ℕ)
unfolding fill init
init_keywords ks = fill ks 0 (init (map_cap ks))

-- Where a word stands in a table whose first number is `i`.
abbrev pub index : List (List ℕ) → ℕ → List ℕ → Option ℕ
index [] i q = none
index (k ∷ ks) i q = if str_same k q then some i else index ks (i + 1) q

abbrev pub has_word : List ℕ → List (List ℕ) → Bool
has_word q [] = false
has_word q (k ∷ ks) = str_same k q || has_word q ks

abbrev pub distinct : List (List ℕ) → Bool
distinct [] = true
distinct (k ∷ ks) = not (has_word k ks) && distinct ks

abbrev or_else : Option ℕ → Option ℕ → Option ℕ
or_else none b = b
or_else (some a) b = some a

index-none : (ks : List (List ℕ)) (i : ℕ) (q : List ℕ) → has_word q ks ≡ false → index ks i q ≡ none
index-none [] i q h = refl
index-none (k ∷ ks) i q h = ground (arith, index-none ks (i + 1) q)

Models-ext :
    (f g : List ℕ → Option ℕ) (m : Map (List ℕ) ℕ)
    → Models f m
    → ((q : List ℕ) → f q ≡ g q)
    → Models g m
Models-ext f g m t e = record { valid = t.valid; reads = λ q. t.reads q ∙ e q }

-- The keys of a table without duplicates, one behind the other.
or_else-index :
    (ks : List (List ℕ)) (i : ℕ) (f : List ℕ → Option ℕ) (k q : List ℕ)
    → has_word k ks ≡ false
    → or_else (index ks (i + 1) q) (update f k (some i) q) ≡ or_else (index (k ∷ ks) i q) (f q)
or_else-index ks i f k q new = elim (Bool-cases (str_same k q)) [
  | inl e ↦ rw (e, index-none ks (i + 1) q (rw (← (str_same_iff k q).0 e) new)) refl
  | inr e ↦ rw e refl
]

still_new :
    (ks : List (List ℕ)) (i : ℕ) (f : List ℕ → Option ℕ) (k q : List ℕ)
    → has_word k ks ≡ false
    → has_word q ks ≡ true
    → f q ≡ none
    → update f k (some i) q ≡ none
still_new ks i f k q new there h = elim (Bool-cases (str_same k q)) [
  | inl e ↦ ground (arith, ap (λ w. has_word w ks) ((str_same_iff k q).0 e))
  | inr e ↦ rw e h
]

-- What the loop leaves: the table over what was there, in as many chains as before.
record Filled (ks : List (List ℕ)) (i : ℕ) (f : List ℕ → Option ℕ) (m r : Map (List ℕ) ℕ)
    : Type 0 where
  models : Models (λ q. or_else (index ks i q) (f q)) r
  longer : r.len ≡ m.len + length ks
  same_cap : r.cap ≡ m.cap

put_new :
    (f : List ℕ → Option ℕ) (m : Map (List ℕ) ℕ) (k : List ℕ) (v : ℕ)
    → Models f m
    → f k ≡ none
    → m.cap < 2 ^ 48
    → 10 * m.len < 7 * m.cap
    → (r : Map (List ℕ) ℕ) × (put 2 m k v ≡ ok r)
      × Models (update f k (some v)) r
      × (r.len ≡ m.len + 1)
      × (r.cap ≡ m.cap)
put_new f m k v t new small low =
    let (r, run, models, longer, _) = put-Models 0 f m k v t small new in
    let same : r ≡ put_bucket k v m =
      cc (run, put_roomy 1 m k v (omega (arith, t.valid.wide)) low) in
    let added = put_bucket-Added m k v t.valid.placed (t.reads k ∙ new) (omega arith) in
    (r, run, models, longer, ap (λ (n : Map (List ℕ) ℕ). n.cap) same ∙ added.same_cap)

fill-Filled :
    (ks : List (List ℕ)) (i : ℕ) (f : List ℕ → Option ℕ) (m : Map (List ℕ) ℕ)
    → Models f m
    → distinct ks ≡ true
    → ((q : List ℕ) → has_word q ks ≡ true → f q ≡ none)
    → m.cap < 2 ^ 48
    → 10 * (m.len + length ks) < 7 * m.cap + 10
    → (r : Map (List ℕ) ℕ) × (fill ks i m ≡ ok r) × Filled ks i f m r
unfolding fill
fill-Filled [] i f m t d new small low = (
  m,
  refl,
  record { models = Models-ext f f m t (λ q. refl); longer = omega arith; same_cap = refl },
)
fill-Filled (k ∷ ks) i f m t d new small low =
    let first : f k ≡ none = new k (rw ((str_same_iff k k).1 refl) refl) in
    let fresh : has_word k ks ≡ false = ground arith in
    let (r, run, models, longer, same) = put_new f m k i t first small (omega arith) in
    let (s, run', g) =
      fill-Filled ks (i + 1) (update f k (some i)) r models (ground arith)
        (λ q h. still_new ks i f k q fresh h (new q (ground arith))) (omega arith) (omega arith) in
    (
      s,
      rw run run',
      record {
        models = Models-ext _ _ s g.models (λ q. or_else-index ks i f k q fresh);
        longer = omega (arith, g.longer);
        same_cap = g.same_cap ∙ same;
      },
    )

or_else-none : (o : Option ℕ) → or_else o none ≡ o
or_else-none none = refl
or_else-none (some i) = refl

-- For a table of at least three and at most a thousand texts without duplicates, the map is built
-- without a fault and reads each text of the table as its place and all else as absent. Its `len` is
-- the table's length and its `cap` half as much again, which is what the two assertions behind the
-- loop test.
pub init_keywords-Models :
    (ks : List (List ℕ))
    → 3 ≤ length ks
    → length ks < 1000
    → distinct ks ≡ true
    → (m : Map (List ℕ) ℕ) × (init_keywords ks ≡ ok m)
      × Models (index ks 0) m
      × (m.len ≡ length ks)
      × (m.cap ≡ map_cap ks)
unfolding init_keywords init
init_keywords-Models ks three few d =
    let (m, run, g) =
      fill-Filled ks 0 (λ q. none) (init (map_cap ks)) (init-Models (map_cap ks) (omega arith)) d
        (λ q h. refl) (omega arith) (omega arith) in
    (
      m,
      run,
      Models-ext _ (index ks 0) m g.models (λ q. or_else-none (index ks 0 q)),
      omega (arith, g.longer),
      g.same_cap,
    )
