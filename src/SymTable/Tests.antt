-- ===== src/SymTable/Tests.antt =====
-- The symbol table's theorems at concrete tables.
use nnc.Common.{◌≡◌, refl, [], ◌∷◌, none, arith}
use nnc.Hash.{str_same, str_key, hash_str}
use nnc.Map.{Run, ok, fault, ◌>>=◌, init, put, get, has, find}
use nnc.Map.Model.{init-Models}
use nnc.SymTable.{
  Sym, ident_global, Scope, Place, no_branches, SymKind, st_get, st_has, put_sym, Put, declared,
  name_taken, type_taken,
}
use nnc.SymTable.Order.{visible, first_in, found, searches_visible}
use nnc.SymTable.Declare.{in_the_way, Declares, put_sym-Declares}

abbrev namespace_scope : Scope
namespace_scope = record { ctx = 0x1000; types = init 8; syms = init 8 }

abbrev global_scope : Scope
global_scope = record { ctx = 1; types = init 8; syms = init 8 }

searches_visible_example :
    (st_get (λ s. s.syms) (namespace_scope ∷ global_scope ∷ []) (97 ∷ [])
      ≡ ok (first_in (λ s. s.syms) (97 ∷ []) (visible (namespace_scope ∷ global_scope ∷ []))))
    × (st_get (λ s. s.types) (namespace_scope ∷ global_scope ∷ []) (97 ∷ [])
        ≡ ok (first_in (λ s. s.types) (97 ∷ []) (visible (namespace_scope ∷ global_scope ∷ []))))
    × ((kind : SymKind)
        → st_has (namespace_scope ∷ global_scope ∷ []) (97 ∷ []) kind
          ≡ found kind (97 ∷ []) (visible (namespace_scope ∷ global_scope ∷ [])))
searches_visible_example = searches_visible (namespace_scope ∷ global_scope ∷ []) (97 ∷ [])

abbrev place : Place
place = record { scope = global_scope; branches = no_branches; roots = [] }

abbrev a_global : Sym
a_global = record { ictx = ident_global; name = 97 ∷ []; address = 1 }

put_sym-Declares_example : Declares (λ q. none) place a_global (in_the_way place a_global)
unfolding init
put_sym-Declares_example =
    put_sym-Declares (λ q. none) place a_global (init-Models 8 (omega arith)) (omega arith)

-- A second declaration of the name is refused, with the first symbol.
abbrev again : Put → Run Put
again (declared p) = put_sym p (record a_global { address = 2 })
again (name_taken old) = fault
again type_taken = fault

abbrev twice : Run Put
twice = put_sym place a_global >>= again

twice_refused : twice ≡ ok (name_taken a_global)
unfolding put_sym put has get find hash_str init str_same
twice_refused = refl
