-- ===== src/ThreeAddr/Builds.antt =====
-- Leaves and unary expressions are put together as in Built.
use nnc.Common.{ℕ, ◌≡◌, refl, sym, ap, ◌∙◌, Bool, true, false, not, if◌then◌else◌}
use nnc.Types.{Ty, unalias, incomplete_type, kind_incomplete, kind}
use nnc.Types.Classes.{unalias_idem}
use mathlib.Core.Path.{subst}
use nnc.ThreeAddr.{
  base, addr_type, Env, M, ◌>>=◌, ◌>>◌, ret, assert_that, op_copy, op_cast, op_ref, op_deref,
  addr_name, addr_iconst,
}
use nnc.ThreeAddr.Exprs.{
  Ident, Expr, ident, int_lit, chr_lit, sizeof, unary, binary, ternary, value, lvalue,
  is_enumerator, set_cgt, ident_to_3a, sizeof_to_3a, lval_deref_to_3a, deref_to_3a, cast_to_3a,
  ref_to_3a,
}
use nnc.ThreeAddr.Translate.{to_3a}
use nnc.ThreeAddr.Emit.{Code, ref_type, type_of, set_code}
use nnc.ThreeAddr.Spec.{then_code, deref_code, ref_code, emit, Complete, RefValid, Valid}
use nnc.ThreeAddr.Machine.{Machine, name_value}
use nnc.ThreeAddr.Meaning.{Mean, map_mean, ref_mean, eval_with}
use nnc.ThreeAddr.Built.{Built, set_built, then_built}

-- A passed assert leaves no trace.
assert_passes : (b : Bool) (g : M (Unit {0})) → b ≡ false → (do assert_that (not b); g) ≡ g
assert_passes b g h = ap (λ b. (do assert_that (not b); g)) h

Complete-unalias : (t : Ty) → Complete t → Complete (unalias t)
unfolding incomplete_type
Complete-unalias t h = ap (λ u. kind_incomplete (kind u)) (unalias_idem t) ∙ h

module _ (e : Env) (k : Machine) where
  pub const-Built :
      (n : ℕ) (t u : Ty)
      → Built e k
          (set_cgt op_copy t (addr_iconst n u))
          (set_code op_copy t (addr_iconst n u))
          t
          (λ m. (n, m))
  const-Built n t u = set_built op_copy t (addr_iconst n u) (λ m. n) (λ p c y qs m g. refl)

  pub ident-Built :
      (i : Ident)
      → Valid e value (ident i)
      → Built e k
          (to_3a e value (ident i))
          (emit e value (ident i))
          (type_of e value (ident i))
          (eval_with base e k value (ident i))
  unfolding to_3a emit type_of eval_with Valid ident_to_3a
  ident-Built i h = by_case (is_enumerator i.ictx) h
    where
      by_case :
          (b : Bool)
          → (if b then Complete i.enum_type else Unit {0})
          → Built e k
              (if b
                then (do
                  assert_that (not (incomplete_type i.enum_type))
                  set_cgt op_copy i.enum_type (addr_iconst i.init_const i.enum_type))
                else set_cgt op_copy i.type (addr_name i.ictx i.name i.type))
              (if b
                then set_code op_copy i.enum_type (addr_iconst i.init_const i.enum_type)
                else set_code op_copy i.type (addr_name i.ictx i.name i.type))
              (if b then i.enum_type else i.type)
              (λ m. if b then (i.init_const, m) else (name_value k i.ictx i.name i.type m, m))
      by_case true h =
          subst
            (λ g.
              Built e k g (set_code op_copy i.enum_type (addr_iconst i.init_const i.enum_type))
                i.enum_type (λ m. (i.init_const, m)))
            (sym (
              assert_passes (incomplete_type i.enum_type)
                (set_cgt op_copy i.enum_type (addr_iconst i.init_const i.enum_type)) h))
            (const-Built i.init_const i.enum_type i.enum_type)
      by_case false h =
          set_built op_copy i.type (addr_name i.ictx i.name i.type)
            (name_value k i.ictx i.name i.type) (λ p c y qs m g. refl)

  sizeof_passes :
      (of t : Ty)
      → Complete of
      → sizeof_to_3a e of t ≡ set_cgt op_copy t (addr_iconst (e.size (unalias of)) t)
  sizeof_passes of t h =
      ap
        (λ b. (do
          n ← (do assert_that (not b); ret (e.size (unalias (unalias of))))
          set_cgt op_copy t (addr_iconst n t)))
        (Complete-unalias of h)
      ∙ ap (λ u. set_cgt op_copy t (addr_iconst (e.size u) t)) (unalias_idem of)

  pub sizeof-Built :
      (of t : Ty)
      → Complete of
      → Built e k
          (sizeof_to_3a e of t)
          (set_code op_copy t (addr_iconst (e.size (unalias of)) t))
          t
          (λ m. (e.size (unalias of), m))
  sizeof-Built of t h =
      subst
        (λ g.
          Built e k g (set_code op_copy t (addr_iconst (e.size (unalias of)) t)) t
            (λ m. (e.size (unalias of), m)))
        (sym (sizeof_passes of t h)) (const-Built (e.size (unalias of)) t t)

  pub address-Built :
      (i : Ident) (t : Ty)
      → Built e k
          (set_cgt op_ref t (addr_name i.ictx i.name i.type))
          (set_code op_ref t (addr_name i.ictx i.name i.type))
          t
          (λ m. (k.address i.ictx i.name, m))
  address-Built i t =
      set_built op_ref t (addr_name i.ictx i.name i.type) (λ m. k.address i.ictx i.name)
        (λ p c y qs m g. refl)

  module _ {a : M (Unit {0})} {x : Code} {f : Mean} {u : Ty} (b : Built e k a x u f) where
    pub copy-Built : Built e k (lval_deref_to_3a a) (then_code op_copy u u x) u f
    copy-Built = then_built op_copy u addr_type (λ m n. n) (λ n. refl) (λ p n x y z qs m g. refl) b

    pub deref-Built :
        (t : Ty)
        → Built e k
            (deref_to_3a a t)
            (deref_code t u x)
            t
            (λ m. (k.load t (f m).0 (f m).1, (f m).1))
    deref-Built t =
        then_built op_deref t (λ _. t) (λ m n. k.load t n m) (λ n. refl) (λ p n x y z qs m g. refl)
          copy-Built

    pub cast-Built :
        (t : Ty) → Built e k (cast_to_3a a t) (then_code op_cast t u x) t (map_mean (k.cast u t) f)
    cast-Built t =
        then_built op_cast t (λ _. t) (λ m n. k.cast u t n) (λ n. refl) (λ p n x y z qs m g. refl) b

  pub ref-Built :
      (x : Expr) (t : Ty)
      → RefValid x (Valid e lvalue x)
      → (Valid e lvalue x
          → Built e k
              (to_3a e lvalue x)
              (emit e lvalue x)
              (type_of e lvalue x)
              (eval_with base e k lvalue x))
      → Built e k
          (ref_to_3a x (to_3a e lvalue x) t)
          (ref_code x t (emit e lvalue x))
          (ref_type x (type_of e lvalue x) t)
          (ref_mean k x (eval_with base e k lvalue x))
  ref-Built (ident i) t h b = address-Built i t
  ref-Built (unary o x u) t h b = b h
  ref-Built (int_lit n u) t h b = b h
  ref-Built (chr_lit n u) t h b = b h
  ref-Built (sizeof of u) t h b = b h
  ref-Built (binary o l r u) t h b = b h
  ref-Built (ternary c l r u) t h b = b h
