-- ===== src/ThreeAddr/Emits.antt =====
-- The generator of src/nnc_3a.c appends the code of Emit and counts as it does.
use nnc.Common.{ℕ, ◌+◌, ◌%◌, ◌^◌, ◌<◌, ◌≡◌, ◌∙◌, refl, ap, arith, List, ◌++◌, Option, none, some}
use mathlib.Core.List.{append_assoc}
use nnc.Types.{Ty}
use nnc.ThreeAddr.{
  Op, Addr, Quad, Env, Gen, M, ◌>>=◌, ◌>>◌, next_cgt, next_label, mkcgt, label_field, mklabel,
  quads_add, last_res, quads_res, addr_cgt,
}
use nnc.ThreeAddr.Exprs.{set_cgt, un_op_to_3a, test_end, not_to_3a}
use nnc.ThreeAddr.Emit.{Emit, Code, set_code, then_set, un_op_code, test_code, not_code}
use nnc.ThreeAddr.Built.{then_gen}
use nnc.ThreeAddr.Last.{last_end}
use nnc.ThreeAddr.Grows.{Rise}

-- The generator's state after the code `x`.
abbrev pub after : Gen → Emit → Gen
after s x = record s { quads = s.quads ++ x.code; cgt_cnt = x.cgt; label_cnt = x.label }

pub bind_some :
    {A B : Type 0} (m : M A) (f : A → M B) {s s' : Gen} {a : A} {r : Option (B × Gen)}
    → m s ≡ some (a, s')
    → f a s' ≡ r
    → (m >>= f) s ≡ r
bind_some m f h i = ap (λ o. elim o [ none ↦ none | some (a, s') ↦ f a s' ]) h ∙ i

pub mod_small : (n b : ℕ) → n < b → n % b ≡ n
mod_small n b h = grind arith

mkcgt_lem :
    (s : Gen)
    → s.cgt_cnt + 1 < 2 ^ 64
    → mkcgt s ≡ some (s.cgt_cnt + 1, record s { cgt_cnt = s.cgt_cnt + 1 })
unfolding mkcgt next_cgt
mkcgt_lem s h = ap (λ n. some (n, record s { cgt_cnt = n })) (mod_small _ _ h)

-- The two labels that a test or a choice takes first.
pub two_labels :
    (f : ℕ → ℕ → M (Unit {0})) (s : Gen)
    → s.label_cnt + 2 < 2 ^ 26
    → (do x ← mklabel; y ← mklabel; f x y) s
      ≡ f (s.label_cnt + 1) (s.label_cnt + 2) (record s { label_cnt = s.label_cnt + 2 })
unfolding mklabel next_label label_field
two_labels f s h =
    ap (λ n. f (n % 2 ^ 26) ((n + 1) % 2 ^ 32 % 2 ^ 26) (record s { label_cnt = (n + 1) % 2 ^ 32 }))
      (mod_small (s.label_cnt + 1) (2 ^ 32) (omega arith))
    ∙ ap (λ n. f ((s.label_cnt + 1) % 2 ^ 26) (n % 2 ^ 26) (record s { label_cnt = n }))
        (mod_small (s.label_cnt + 1 + 1) (2 ^ 32) (omega arith) ∙ omega arith)
    ∙ ap (λ n. f n ((s.label_cnt + 2) % 2 ^ 26) (record s { label_cnt = s.label_cnt + 2 }))
        (mod_small (s.label_cnt + 1) (2 ^ 26) (omega arith))
    ∙ ap (λ n. f (s.label_cnt + 1) n (record s { label_cnt = s.label_cnt + 2 }))
        (mod_small (s.label_cnt + 2) (2 ^ 26) h)

pub res_lem : (s : Gen) {r : Addr} → last_res s.quads ≡ some r → quads_res s ≡ some (r, s)
unfolding quads_res
res_lem s h = ap (λ o. elim o [ none ↦ none | some a ↦ some (a, s) ]) h

-- A translation, then its result.
with_res :
    (a : M (Unit {0})) (h : Addr → M (Unit {0})) (s : Gen) (x : Emit) (r : Addr)
    → a s ≡ some (tt, after s x)
    → last_res x.code ≡ some r
    → (do a; r ← quads_res; h r) s ≡ h r (after s x)
with_res a h s x r i j =
    bind_some a _ i (bind_some quads_res h (res_lem (after s x) (last_end s.quads x.code j)) refl)

pub with_cgt :
    (h : ℕ → M (Unit {0})) (s : Gen)
    → s.cgt_cnt + 1 < 2 ^ 64
    → (mkcgt >>= h) s ≡ h (s.cgt_cnt + 1) (record s { cgt_cnt = s.cgt_cnt + 1 })
with_cgt h s i = bind_some mkcgt h (mkcgt_lem s i) refl

pub set_cgt_lem :
    (o : Op) (t : Ty) (a : Addr) (s : Gen)
    → s.cgt_cnt + 1 < 2 ^ 64
    → set_cgt o t a s ≡ some (tt, after s (set_code o t a s.cgt_cnt s.label_cnt))
unfolding set_cgt quads_add
set_cgt_lem o t a s i = with_cgt _ s i

pub finish :
    (s : Gen) (c l : ℕ) {qs qs' : List Quad}
    → qs ≡ qs'
    → ◌≡◌ {A = Option (Unit {0} × Gen)}
        (some (tt, record s { quads = qs; cgt_cnt = c; label_cnt = l }))
        (some (tt, record s { quads = qs'; cgt_cnt = c; label_cnt = l }))
finish s c l e = ap (λ qs. some (tt, record s { quads = qs; cgt_cnt = c; label_cnt = l })) e

-- The translation `a` appends the code `x` to the state `s`, if no counter wraps.
abbrev pub EmitsAt : M (Unit {0}) → Code → Gen → Type 0
EmitsAt a x s =
    (x s.cgt_cnt s.label_cnt).cgt < 2 ^ 64
    → (x s.cgt_cnt s.label_cnt).label < 2 ^ 26
    → a s ≡ some (tt, after s (x s.cgt_cnt s.label_cnt))

pub test_end_lem :
    (e : Env) (t : Ty) (l r p q : ℕ) (s : Gen)
    → test_end e t (l + 1) (l + 2) r p q s
      ≡ some (tt, record s { quads = s.quads ++ test_code e t l r p q })
unfolding test_end quads_add
test_end_lem e t l r p q s = finish s _ _ (simp (append_assoc))

-- What the lemmas use of an operand.
pub record Part (a : M (Unit {0})) (x : Code) (t : Ty) : Type 0 where
  pub emits : (s : Gen) → EmitsAt a x s
  pub last : (c l : ℕ) → last_res (x c l).code ≡ some (addr_cgt (x c l).res t)
  pub rise : (c l : ℕ) → Rise (x c l) c l

-- An operand and its result, at given counters.
pub operand :
    {a : M (Unit {0})} {x : Code} {t : Ty} (h : Addr → M (Unit {0})) (s : Gen)
    → Part a x t
    → (x s.cgt_cnt s.label_cnt).cgt < 2 ^ 64
    → (x s.cgt_cnt s.label_cnt).label < 2 ^ 26
    → (do a; r ← quads_res; h r) s
      ≡ h (addr_cgt (x s.cgt_cnt s.label_cnt).res t) (after s (x s.cgt_cnt s.label_cnt))
operand {a = a} {x = x} h s b i j =
    with_res a h s (x s.cgt_cnt s.label_cnt) _ (b.emits s i j) (b.last _ _)

module _ {a : M (Unit {0})} {x : Code} {u : Ty} (b : Part a x u) where
  pub then_emits :
      (o : Op) (t : Ty) (tf : Addr → Ty)
      → ((n : ℕ) → tf (addr_cgt n u) ≡ t)
      → (s : Gen) → EmitsAt (then_gen o tf a) (λ c l. then_set o t u (x c l)) s
  then_emits o t tf q s i j =
      let a' = x s.cgt_cnt s.label_cnt in
      operand _ s b (omega arith) j
      ∙ set_cgt_lem o _ _ _ i
      ∙ ap (λ w. some (tt, after (after s a') (set_code o w (addr_cgt a'.res u) a'.cgt a'.label)))
          (q a'.res)
      ∙ finish s _ _ (append_assoc s.quads _ _)

  pub un_emits : (o : Op) (t : Ty) (s : Gen) → EmitsAt (un_op_to_3a o a t) (un_op_code o t u x) s
  unfolding quads_add
  un_emits o t s i j = operand _ s b i j ∙ finish s _ _ (append_assoc s.quads _ _)

  pub not_emits : (e : Env) (s : Gen) → EmitsAt (not_to_3a e a) (not_code e u x) s
  unfolding quads_add not_to_3a
  not_emits e s i j =
      let h = b.rise s.cgt_cnt (s.label_cnt + 2) in
      let s2 = record s { label_cnt = s.label_cnt + 2 } in
      let a' = x s.cgt_cnt (s.label_cnt + 2) in
      two_labels _ s (omega (arith, h.labels))
      ∙ bind_some a _ (b.emits s2 (omega arith) j) (with_cgt _ (after s2 a') i)
      ∙ bind_some quads_res _
          (res_lem (record (after s2 a') { cgt_cnt = a'.cgt + 1 })
            (last_end s.quads a'.code (b.last _ _)))
          (test_end_lem e _ s.label_cnt (a'.cgt + 1) 0 1 _)
      ∙ finish s _ _ (simp (append_assoc))
