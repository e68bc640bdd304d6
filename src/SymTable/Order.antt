-- ===== src/SymTable/Order.antt =====
-- The order in which src/nnc_symtable.c searches its scopes.
use nnc.Common.{
  ℕ, ◌≡◌, ◌∙◌, refl, sym, ap, Bool, true, false, if◌then◌else◌, List, [], ◌∷◌, ◌++◌, Option, none,
  some,
}
use nnc.Hash.{str_key}
use nnc.Map.{Map, Run, ok, ◌>>=◌, chain_of, missed, has, get}
use nnc.Map.Buckets.{lookup}
use nnc.SymTable.{
  Sym, Scope, Table, Branches, table, no_branches, branch, SymKind, sym_type, sym_ident,
  scope_namespace, has_in, st_has, get_in, st_get, deep_get, deep_get_branches,
}

-- The scopes that can be seen: up to the nearest namespace, this one included.
abbrev pub visible : List Scope → List Scope
visible [] = []
visible (s ∷ roots) = s ∷ (if scope_namespace s then [] else visible roots)

abbrev pub or_else : {A : Type 0} → Option A → Option A → Option A
or_else none b = b
or_else (some v) b = some v

-- The first of the scopes whose map has the key.
abbrev pub first_in : {A : Type 0} → (Scope → Map (List ℕ) A) → List ℕ → List Scope → Option A
first_in select key [] = none
first_in select key (s ∷ ss) = or_else (lookup (select s) key) (first_in select key ss)

pub get_in-lookup :
    {A : Type 0} → (m : Map (List ℕ) A) (key : List ℕ) → get_in m key ≡ ok (lookup m key)
unfolding get_in has get
get_in-lookup {A} m key = by_case (lookup m key)
  where
    by_case :
        (o : Option A)
        → (if (elim o [ none ↦ false | some v ↦ true ])
            then (elim o [ none ↦ missed key (chain_of m key) | some v ↦ ok v ] >>= λ v.
                ok (some v))
            else ok none)
          ≡ ok o
    by_case none = refl
    by_case (some v) = refl

-- `nnc_st_get` reads the key in the first of the visible scopes that has it.
pub st_get-visible :
    {A : Type 0} (select : Scope → Map (List ℕ) A) (scopes : List Scope) (key : List ℕ)
    → st_get select scopes key ≡ ok (first_in select key (visible scopes))
unfolding st_get
st_get-visible select [] key = refl
st_get-visible {A} select (s ∷ roots) key = rw (get_in-lookup (select s) key) (
    walk (scope_namespace s) (lookup (select s) key) (st_get select roots key)
      (st_get-visible select roots key))
  where
    walk :
        (b : Bool) (o : Option A) (r : Run (Option A))
        → r ≡ ok (first_in select key (visible roots))
        → (if b then ok o else elim o [ none ↦ r | some v ↦ ok (some v) ])
          ≡ ok (or_else o (first_in select key (if b then [] else visible roots)))
    walk true none r e = refl
    walk true (some v) r e = refl
    walk false none r e = e
    walk false (some v) r e = refl

abbrev pub is_some : {A : Type 0} → Option A → Bool
is_some none = false
is_some (some v) = true

has-lookup : {A : Type 0} (m : Map (List ℕ) A) (key : List ℕ) → has m key ≡ is_some (lookup m key)
unfolding has
has-lookup {A} m key = by_case (lookup m key)
  where
    by_case : (o : Option A) → elim o [ none ↦ false | some v ↦ true ] ≡ is_some o
    by_case none = refl
    by_case (some v) = refl

abbrev pub found : SymKind → List ℕ → List Scope → Bool
found sym_type key ss = is_some (first_in (λ s. s.types) key ss)
found sym_ident key ss = is_some (first_in (λ s. s.syms) key ss)

some_or :
    {A : Type 0} (o p : Option A) → (if is_some o then true else is_some p) ≡ is_some (or_else o p)
some_or none p = refl
some_or (some v) p = refl

found_nil : (kind : SymKind) (key : List ℕ) → found kind key [] ≡ false
found_nil sym_type key = refl
found_nil sym_ident key = refl

has_in-lookup :
    (kind : SymKind) (s : Scope) (key : List ℕ) (ss : List Scope)
    → (if has_in kind s key then true else found kind key ss) ≡ found kind key (s ∷ ss)
has_in-lookup sym_type s key ss =
    rw (has-lookup s.types key) (some_or (lookup s.types key) (first_in (λ s. s.types) key ss))
has_in-lookup sym_ident s key ss =
    rw (has-lookup s.syms key) (some_or (lookup s.syms key) (first_in (λ s. s.syms) key ss))

pub st_has-found :
    (scopes : List Scope) (key : List ℕ) (kind : SymKind)
    → st_has scopes key kind ≡ found kind key (visible scopes)
unfolding st_has
st_has-found [] key sym_type = refl
st_has-found [] key sym_ident = refl
st_has-found (s ∷ roots) key kind = rw (st_has-found roots key kind) (walk (scope_namespace s))
  where
    walk :
        (b : Bool)
        → (if has_in kind s key
            then true
            else (if b then false else found kind key (visible roots)))
          ≡ found kind key (s ∷ (if b then [] else visible roots))
    walk true =
        ap (λ c. if has_in kind s key then true else c) (sym (found_nil kind key))
        ∙ has_in-lookup kind s key []
    walk false = has_in-lookup kind s key (visible roots)

-- The loops of `nnc_st_get` and `nnc_st_has` never fail an assertion and agree: for identifiers and
-- for types they search the scopes up to the nearest namespace, this one included, and the first of
-- these that has the key is read.
pub searches_visible :
    (scopes : List Scope) (key : List ℕ)
    → (st_get (λ s. s.syms) scopes key ≡ ok (first_in (λ s. s.syms) key (visible scopes)))
      × (st_get (λ s. s.types) scopes key ≡ ok (first_in (λ s. s.types) key (visible scopes)))
      × ((kind : SymKind) → st_has scopes key kind ≡ found kind key (visible scopes))
searches_visible scopes key = (
  st_get-visible (λ s. s.syms) scopes key,
  st_get-visible (λ s. s.types) scopes key,
  st_has-found scopes key,
)

-- The scope of a table and those of its branches, each before what is below it.
abbrev mutual
  pub preorder : Table → List Scope
  preorder (table s bs) = s ∷ preorder_branches bs

  pub preorder_branches : Branches → List Scope
  preorder_branches no_branches = []
  preorder_branches (branch t bs) = preorder t ++ preorder_branches bs

first_in-append :
    (key : List ℕ) (ss ts : List Scope)
    → first_in (λ s. s.syms) key (ss ++ ts)
      ≡ or_else (first_in (λ s. s.syms) key ss) (first_in (λ s. s.syms) key ts)
first_in-append key [] ts = refl
first_in-append key (s ∷ ss) ts =
    ap (or_else (lookup s.syms key)) (first_in-append key ss ts)
    ∙ assoc (lookup s.syms key) (first_in (λ s. s.syms) key ss) (first_in (λ s. s.syms) key ts)
  where
    assoc : (o p q : Option Sym) → or_else o (or_else p q) ≡ or_else (or_else o p) q
    assoc none p q = refl
    assoc (some v) p q = refl

passed_on :
    (o : Option Sym) (r : Run (Option Sym)) (p : Option Sym)
    → r ≡ ok p
    → elim o [ none ↦ r | some v ↦ ok (some v) ] ≡ ok (or_else o p)
passed_on none r p e = e
passed_on (some v) r p e = refl

mutual
  unfolding deep_get

  deep_get_at :
      (t : Table) (key : List ℕ) → deep_get t key ≡ ok (first_in (λ s. s.syms) key (preorder t))
  deep_get_at (table s bs) key = rw (get_in-lookup s.syms key) (
      passed_on (lookup s.syms key) (deep_get_branches bs key)
        (first_in (λ s. s.syms) key (preorder_branches bs)) (deep_get_branches_at bs key))

  deep_get_branches_at :
      (bs : Branches) (key : List ℕ)
      → deep_get_branches bs key ≡ ok (first_in (λ s. s.syms) key (preorder_branches bs))
  deep_get_branches_at no_branches key = refl
  deep_get_branches_at (branch t bs) key =
      let rest = first_in (λ s. s.syms) key (preorder_branches bs) in
      rw (deep_get_at t key) (
        passed_on (first_in (λ s. s.syms) key (preorder t)) (deep_get_branches bs key) rest
          (deep_get_branches_at bs key))
      ∙ ap ok (sym (first_in-append key (preorder t) (preorder_branches bs)))

-- `nnc_st_deep_get` reads the key in the first scope that has it of the table and its branches, each
-- scope before the branches below it, and namespaces are no border.
pub deep_get-preorder :
    (t : Table) (key : List ℕ) → deep_get t key ≡ ok (first_in (λ s. s.syms) key (preorder t))
deep_get-preorder t key = deep_get_at t key
