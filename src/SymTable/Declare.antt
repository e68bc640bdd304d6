-- ===== src/SymTable/Declare.antt =====
-- What `nnc_st_put_sym` and `nnc_st_put_type` of src/nnc_symtable.c declare, and when they throw.
use nnc.Common.{
  ℕ, ◌<◌, ◌^◌, ◌≡◌, ◌∙◌, refl, sym, ap, Bool, true, false, if◌then◌else◌, List, [], ◌∷◌, Option,
  none, some, Option-cases, inl, inr,
}
use mathlib.Core.Path.{subst}
use nnc.Hash.{str_key, str_same}
use nnc.Map.{Map, Run, ok, ◌>>=◌, put}
use nnc.Map.Buckets.{lookup}
use nnc.Map.Model.{Models, update, put-Models}
use nnc.SymTable.{
  Sym, Scope, Place, table, scope_namespace, is_global, st_sym, st_get, deep_get, put_sym, Put,
  declared, name_taken,
}
use nnc.SymTable.Order.{visible, or_else, first_in, preorder, st_get-visible, deep_get-preorder}

-- The symbol that stands in the way of a declaration: for a global one in the table and below it, for
-- any other in the visible scopes.
abbrev pub in_the_way : Place → Sym → Option Sym
in_the_way p new =
    first_in (λ s. s.syms) new.name
      (if is_global new.ictx
        then preorder (table p.scope p.branches)
        else visible (p.scope ∷ p.roots))

st_sym-in_the_way : (p : Place) (new : Sym) → st_sym p new ≡ ok (in_the_way p new)
unfolding st_sym
st_sym-in_the_way p new = by_case (is_global new.ictx)
  where
    by_case :
        (b : Bool)
        → (if b
            then deep_get (table p.scope p.branches) new.name
            else st_get (λ s. s.syms) (p.scope ∷ p.roots) new.name)
          ≡ ok (
              first_in
                (λ s. s.syms)
                new.name
                (if b then preorder (table p.scope p.branches) else visible (p.scope ∷ p.roots)))
    by_case true = deep_get-preorder (table p.scope p.branches) new.name
    by_case false = st_get-visible (λ s. s.syms) (p.scope ∷ p.roots) new.name

-- A name that has nothing in the way is not in the scope itself.
own_none : {A : Type 0} (o p : Option A) → or_else o p ≡ none → o ≡ none
own_none none p h = refl
own_none (some v) p h = h

own_scope : (p : Place) (new : Sym) → in_the_way p new ≡ none → lookup p.scope.syms new.name ≡ none
own_scope p new h = by_case (is_global new.ictx) h
  where
    by_case :
        (b : Bool)
        → first_in
            (λ s. s.syms)
            new.name
            (if b then preorder (table p.scope p.branches) else visible (p.scope ∷ p.roots))
          ≡ none
        → lookup p.scope.syms new.name ≡ none
    by_case true h = own_none _ _ h
    by_case false h = own_none _ _ h

abbrev with_syms : Place → Map (List ℕ) Sym → Place
with_syms p m = record p { scope = record p.scope { syms = m } }

-- `nnc_st_get` behind a declaration: the new symbol is in front of all that could be seen.
abbrev syms_of : Scope → Map (List ℕ) Sym
syms_of s = s.syms

seen-update :
    (f : List ℕ → Option Sym) (p : Place) (new : Sym) (m : Map (List ℕ) Sym) (q : List ℕ)
    → Models f p.scope.syms
    → Models (update f new.name (some new)) m
    → st_get syms_of ((with_syms p m).scope ∷ p.roots) q
      ≡ (if str_same new.name q then ok (some new) else st_get syms_of (p.scope ∷ p.roots) q)
seen-update f p new m q t u =
    st_get-visible syms_of ((with_syms p m).scope ∷ p.roots) q
    ∙ ap (λ (o : Option Sym). ok (or_else o behind))
        (u.reads q
          ∙ ap (λ (o : Option Sym). if str_same new.name q then some new else o) (sym (t.reads q)))
    ∙ by_case (str_same new.name q)
  where
    behind : Option Sym
    behind = first_in syms_of q (if scope_namespace p.scope then [] else visible p.roots)

    by_case :
        (b : Bool)
        → ok (or_else (if b then some new else lookup p.scope.syms q) behind)
          ≡ (if b then ok (some new) else st_get syms_of (p.scope ∷ p.roots) q)
    by_case true = refl
    by_case false = sym (st_get-visible syms_of (p.scope ∷ p.roots) q)

-- What a declaration ends with, by what is in the way.
abbrev pub Declares : (List ℕ → Option Sym) → Place → Sym → Option Sym → Type 0
Declares f p new (some old) = put_sym p new ≡ ok (name_taken old)
Declares f p new none =
    (m : Map (List ℕ) Sym) × (put_sym p new ≡ ok (declared (with_syms p m)))
    × Models (update f new.name (some new)) m
    × ((q : List ℕ)
        → st_get syms_of ((with_syms p m).scope ∷ p.roots) q
          ≡ (if str_same new.name q then ok (some new) else st_get syms_of (p.scope ∷ p.roots) q))

abbrev put_found : Place → Sym → Run (Option Sym) → Run Put
put_found p new r = r >>= λ found. elim found as (λ _. Run Put) [
  | some old ↦ ok (name_taken old)
  | none ↦ put 2 p.scope.syms new.name new >>= λ m. ok (declared (with_syms p m))
]

put_sym-found : (p : Place) (new : Sym) → put_sym p new ≡ put_found p new (ok (in_the_way p new))
unfolding put_sym
put_sym-found p new = ap (put_found p new) (st_sym-in_the_way p new)

put_sym-none :
    (f : List ℕ → Option Sym) (p : Place) (new : Sym)
    → Models f p.scope.syms
    → p.scope.syms.cap < 2 ^ 48
    → in_the_way p new ≡ none
    → Declares f p new none
put_sym-none f p new t small e =
    let absent : f new.name ≡ none = sym (t.reads new.name) ∙ own_scope p new e in
    let (m, run, u, _, _) = put-Models 0 f p.scope.syms new.name new t small absent in
    (
      m,
      put_sym-found p new
          ∙ ap (λ (o : Option Sym). put_found p new (ok o)) e
          ∙ ap (λ (r : Run (Map (List ℕ) Sym)). r >>= λ m. ok (declared (with_syms p m))) run,
      u,
      λ q. seen-update f p new m q t u,
    )

-- With a well-formed map of the scope's own symbols, of fewer than 2 ^ 48 chains: a declaration throws
-- exactly if its name is in the way, which for a global symbol means in the scope or below it, and
-- for any other in a visible scope, and the exception has the symbol that is. Otherwise it ends
-- without a fault; the scope's own map gets the symbol, and `nnc_st_get` then reads the symbol under
-- its name and under every other name what it read before.
pub put_sym-Declares :
    (f : List ℕ → Option Sym) (p : Place) (new : Sym)
    → Models f p.scope.syms
    → p.scope.syms.cap < 2 ^ 48
    → Declares f p new (in_the_way p new)
put_sym-Declares f p new t small = elim (Option-cases (in_the_way p new)) [
  | inl e ↦ subst (Declares f p new) (sym e) (put_sym-none f p new t small e)
  | inr (old, e) ↦
      subst (Declares f p new) (sym e)
        (put_sym-found p new ∙ ap (λ (o : Option Sym). put_found p new (ok o)) e)
]
