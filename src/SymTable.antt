-- ===== src/SymTable.antt =====
-- The symbol table of src/nnc_symtable.c. A table has its own scope, the tables of its branches and,
-- along `root`, the scopes around it, the nearest first. A pointer to a symbol or to a type is its
-- record, which has the address, and NULL is `none`.
pub mod Order
pub mod Declare
mod Tests
use Prim.Native.Nat.{bit_and}
use nnc.Common.{
  ℕ, ◌+◌, Bool, true, false, not, ◌||◌, if◌then◌else◌, ◌==◌, List, [], ◌∷◌, Option, none, some,
}
use nnc.Hash.{str_key}
use nnc.Map.{Map, Run, ok, fault, out_of_fuel, ◌>>=◌, init, has, get, put}
use nnc.Types.{Kind, alias}

-- `nnc_ident_ctx`
pub data IdentCtx : Type 0 where
  ident_global ident_default ident_function ident_namespace ident_enumerator : IdentCtx
  ident_function_param : IdentCtx

-- The fields of `nnc_ident` that the table reads.
pub record Sym : Type 0 where
  pub ictx : IdentCtx
  pub name : List ℕ
  pub address : ℕ

-- The fields of `nnc_type` that the table reads.
pub record TypeDecl : Type 0 where
  pub kind : Kind
  pub repr : List ℕ
  pub address : ℕ

pub record Scope : Type 0 where
  pub ctx : ℕ
  pub types : Map (List ℕ) TypeDecl
  pub syms : Map (List ℕ) Sym

mutual
  pub data Table : Type 0 where
    table : Scope → Branches → Table

  pub data Branches : Type 0 where
    no_branches : Branches
    branch : Table → Branches → Branches

-- A table with what is around it.
pub record Place : Type 0 where
  pub scope : Scope
  pub branches : Branches
  pub roots : List Scope

pub data SymKind : Type 0 where
  sym_type sym_ident : SymKind

-- ST_CTX_DEFAULT and SCOPE_NAMESPACE.
abbrev pub ctx_default : ℕ
ctx_default = 0

abbrev pub scope_namespace : Scope → Bool
scope_namespace s = not (bit_and s.ctx 0x1000 == 0)

-- `nnc_st_init`
unfoldable pub st_init : Scope
unfolding init
st_init = record { ctx = ctx_default; types = init 8; syms = init 8 }

abbrev pub has_in : SymKind → Scope → List ℕ → Bool
has_in sym_type s key = has s.types key
has_in sym_ident s key = has s.syms key

-- `nnc_st_has`, from a scope along its roots.
unfoldable pub st_has : List Scope → List ℕ → SymKind → Bool
st_has [] key kind = false
st_has (s ∷ roots) key kind =
    let further = st_has roots key kind in
    if has_in kind s key then true else (if scope_namespace s then false else further)

-- `map_has_s` and `map_get_s` behind it.
unfoldable pub get_in : {A : Type 0} → Map (List ℕ) A → List ℕ → Run (Option A)
unfolding has get
get_in m key = if has m key then (get m key >>= λ v. ok (some v)) else ok none

-- `nnc_st_get`, with the map that the kind selects.
unfoldable pub st_get :
    {A : Type 0} → (Scope → Map (List ℕ) A) → List Scope → List ℕ → Run (Option A)
unfolding get_in
st_get select [] key = ok none
st_get select (s ∷ roots) key =
    let further = st_get select roots key in
    get_in (select s) key >>= λ found.
    if scope_namespace s then ok found else elim found [ none ↦ further | some v ↦ ok (some v) ]

-- `nnc_st_deep_get` on a table and the loop over its branches.
unfoldable mutual
  unfolding get_in

  pub deep_get : Table → List ℕ → Run (Option Sym)
  deep_get (table s bs) key = get_in s.syms key >>= λ found. elim found [
    | none ↦ deep_get_branches bs key
    | some v ↦ ok (some v)
  ]

  pub deep_get_branches : Branches → List ℕ → Run (Option Sym)
  deep_get_branches no_branches key = ok none
  deep_get_branches (branch t bs) key =
      let further = deep_get_branches bs key in
      deep_get t key >>= λ found. elim found [ none ↦ further | some v ↦ ok (some v) ]

-- What a put ends with: the table, or NNC_NAME_ALREADY_DECLARED or NNC_TYPE_ALREADY_DECLARED.
pub data Put : Type 0 where
  declared : Place → Put
  name_taken : Sym → Put
  type_taken : Put

abbrev pub is_global : IdentCtx → Bool
is_global ident_global = true
is_global _ = false

-- The search for a symbol of the same name.
unfoldable pub st_sym : Place → Sym → Run (Option Sym)
unfolding deep_get st_get
st_sym p sym =
    if is_global sym.ictx
    then deep_get (table p.scope p.branches) sym.name
    else st_get (λ s. s.syms) (p.scope ∷ p.roots) sym.name

-- `nnc_st_put_sym`
unfoldable pub put_sym : Place → Sym → Run Put
unfolding st_sym put
put_sym p sym = st_sym p sym >>= λ found. elim found [
  | some old ↦ ok (name_taken old)
  | none ↦ put 2 p.scope.syms sym.name sym >>= λ m.
      ok (declared (record p { scope = record p.scope { syms = m } }))
]

abbrev pub is_alias : Kind → Bool
is_alias alias = true
is_alias _ = false

-- `nnc_st_put_type`, with its assertion.
unfoldable pub put_type : Place → TypeDecl → Run Put
unfolding st_has put
put_type p type =
    let absent = put 2 p.scope.types type.repr type >>= λ m.
    ok (declared (record p { scope = record p.scope { types = m } })) in
    if not (is_alias type.kind)
    then fault
    else (if st_has (p.scope ∷ p.roots) type.repr sym_type then ok type_taken else absent)

-- What `nnc_st_put` is given: a symbol or a type, by the kind beside the pointer.
pub data Decl : Type 0 where
  decl_type : TypeDecl → Decl
  decl_ident : Sym → Decl

unfoldable pub st_put : Place → Decl → Run Put
unfolding put_sym put_type
st_put p (decl_type type) = put_type p type
st_put p (decl_ident sym) = put_sym p sym

-- `nnc_st_has_ctx`: the table that it finds, with its roots.
unfoldable pub has_ctx : List Scope → ℕ → Option (List Scope)
has_ctx [] ctx = none
has_ctx (s ∷ roots) ctx =
    let further = has_ctx roots ctx in if s.ctx == ctx then some (s ∷ roots) else further
