-- ===== src/ThreeAddr/Appends.antt =====
-- The generator of src/nnc_3a.c appends the code of Emit and counts as it does: the translations with
-- two or three operands, and all expressions.
use nnc.Common.{ℕ, ◌+◌, ◌≡◌, ◌∙◌, refl, sym, ap, arith, true, List, ◌++◌, some}
use mathlib.Core.List.{append_assoc, append-nil}
use nnc.Types.{Ty, arr_or_ptr_type}
use nnc.ThreeAddr.{Op, Addr, Quad, Env, Gen, M, assert_that, quads_add, op_copy, addr_cgt}
use nnc.ThreeAddr.Translate.{
  logic_to_3a, binary_rel_to_3a, comma_to_3a, assign_to_3a, scale, bin_op_to_3a, ternary_to_3a,
  jump_if_true, jump_if_zero,
}
use nnc.ThreeAddr.Emit.{Code, logic_code, rel_code, comma_code, assign_code, bin_code, ternary_code}
use nnc.ThreeAddr.Meaning.{Mean}
use nnc.ThreeAddr.Machine.{Machine}
use nnc.ThreeAddr.Built.{
  Scales, no_scale, not_scaled, is_scaled, Built, set_built, then_built, un_built, not_built,
  or_built, and_built, rel_built, comma_built, assign_built, bin_built, ternary_built,
}
use nnc.ThreeAddr.Last.{Built-last}
use nnc.ThreeAddr.Grows.{Built-Rise}
use nnc.ThreeAddr.Emits.{
  after, two_labels, bind_some, with_cgt, set_cgt_lem, finish, EmitsAt, test_end_lem, Part, operand,
  then_emits, un_emits, not_emits,
}

module _ {a b : M (Unit {0})} {x y : Code} {u v : Ty} (m : Part a x u) (n : Part b y v) where
  logic_emits :
      (e : Env) (jump : ℕ → Addr → Quad) (p q : ℕ) (s : Gen)
      → EmitsAt (logic_to_3a e jump p q a b) (logic_code e jump p q u v x y) s
  unfolding quads_add logic_to_3a
  logic_emits e jump p q s i j =
      let a' = x s.cgt_cnt (s.label_cnt + 2) in
      let b' = y a'.cgt a'.label in
      let h = m.rise s.cgt_cnt (s.label_cnt + 2) in
      let h' = n.rise a'.cgt a'.label in
      two_labels _ s (omega (arith, h.labels, h'.labels))
      ∙ operand _ _ m (omega (arith, h'.new, h'.counted)) (omega (arith, h'.labels))
      ∙ operand _ _ n (omega arith) j
      ∙ with_cgt _ _ i
      ∙ test_end_lem e _ s.label_cnt (b'.cgt + 1) p q _
      ∙ finish s _ _ (simp (append_assoc))

  rel_emits :
      (e : Env) (o : Op) (t : Ty) (s : Gen)
      → EmitsAt (binary_rel_to_3a e o a b t) (rel_code e o t u v x y) s
  unfolding quads_add binary_rel_to_3a
  rel_emits e o t s i j =
      let a' = x s.cgt_cnt (s.label_cnt + 2) in
      let b' = y a'.cgt a'.label in
      let h = m.rise s.cgt_cnt (s.label_cnt + 2) in
      let h' = n.rise a'.cgt a'.label in
      two_labels _ s (omega (arith, h.labels, h'.labels))
      ∙ operand _ _ m (omega (arith, h'.new, h'.counted)) (omega (arith, h'.labels))
      ∙ operand _ _ n (omega arith) j
      ∙ with_cgt _ _ i
      ∙ test_end_lem e _ s.label_cnt (b'.cgt + 1) 0 1 _
      ∙ finish s _ _ (simp (append_assoc))

  comma_emits : (s : Gen) → EmitsAt (comma_to_3a a b) (comma_code v x y) s
  unfolding quads_add comma_to_3a
  comma_emits s i j =
      let a' = x s.cgt_cnt s.label_cnt in
      let h' = n.rise a'.cgt a'.label in
      bind_some a _ (m.emits s (omega (arith, h'.new, h'.counted)) (omega (arith, h'.labels))) refl
      ∙ operand _ _ n (omega arith) j
      ∙ set_cgt_lem op_copy _ _ _ i
      ∙ finish s _ _ (simp (append_assoc))

  assign_emits :
      (t : Ty)
      → arr_or_ptr_type u ≡ true
      → (s : Gen) → EmitsAt (assign_to_3a a b t) (assign_code t u x y) s
  unfolding quads_add assign_to_3a
  assign_emits t p s i j =
      let a' = x s.cgt_cnt s.label_cnt in
      let h' = n.rise a'.cgt a'.label in
      let s2 = after (after s a') (y a'.cgt a'.label) in
      operand _ _ m (omega (arith, h'.new, h'.counted)) (omega (arith, h'.labels))
      ∙ operand _ _ n (omega arith) j
      ∙ bind_some (assert_that (arr_or_ptr_type u)) _ (ap (λ c. assert_that c s2) p) refl
      ∙ set_cgt_lem op_copy _ _ _ i
      ∙ finish s _ _ (simp (append_assoc))

  bin_emits :
      (before : Addr → Addr → M (Unit {0})) (qs : ℕ → List Quad) (o : Op) (t : Ty)
      → ((s : Gen) (c d : ℕ)
          → before (addr_cgt c u) (addr_cgt d v) s
            ≡ some (tt, record s { quads = s.quads ++ qs d }))
      → (s : Gen) → EmitsAt (bin_op_to_3a before o a b t) (bin_code qs o t u v x y) s
  unfolding quads_add bin_op_to_3a
  bin_emits before qs o t p s i j =
      let a' = x s.cgt_cnt s.label_cnt in
      let h' = n.rise a'.cgt a'.label in
      operand _ _ m (omega (arith, h'.new, h'.counted)) (omega (arith, h'.labels))
      ∙ operand _ _ n i j
      ∙ bind_some (before _ _) _ (p _ _ _) refl
      ∙ finish s _ _ (simp (append_assoc))

  ternary_emits :
      {d : M (Unit {0})} {z : Code} {w : Ty} (e : Env) (t : Ty)
      → Part d z w
      → (s : Gen) → EmitsAt (ternary_to_3a e a b d t) (ternary_code e t u v w x y z) s
  unfolding quads_add ternary_to_3a
  ternary_emits {z = z} e t r s i j =
      let a' = x s.cgt_cnt (s.label_cnt + 2) in
      let d' = z (a'.cgt + 1) a'.label in
      let b' = y d'.cgt d'.label in
      let h = m.rise s.cgt_cnt (s.label_cnt + 2) in
      let h' = r.rise (a'.cgt + 1) a'.label in
      let h'' = n.rise d'.cgt d'.label in
      two_labels _ s (omega (arith, h.labels, h'.labels, h''.labels))
      ∙ operand _ _ m (omega (arith, h'.new, h'.counted, h''.new, h''.counted))
          (omega (arith, h'.labels, h''.labels))
      ∙ with_cgt _ _ (omega (arith, h'.new, h'.counted, h''.new, h''.counted))
      ∙ operand _ _ r (omega (arith, h''.new, h''.counted)) (omega (arith, h''.labels))
      ∙ operand _ _ n i j
      ∙ finish s _ _ (simp (append_assoc))

-- What happens before an operation appends the quads that scale.
Scales-emits :
    {e : Env} {k : Machine} {u v : Ty} {before : Addr → Addr → M (Unit {0})} {qs : ℕ → List Quad}
    {f : ℕ → ℕ}
    → Scales e k u v before qs f
    → (s : Gen) (c d : ℕ)
    → before (addr_cgt c u) (addr_cgt d v) s ≡ some (tt, record s { quads = s.quads ++ qs d })
unfolding quads_add scale
Scales-emits no_scale s c d = finish s _ _ (sym (append-nil s.quads))
Scales-emits (not_scaled p) s c d = rw (p, append-nil s.quads)
Scales-emits (is_scaled p q) s c d = rw (p, q)

module _ {e : Env} {k : Machine} where
  part :
      {a : M (Unit {0})} {x : Code} {t : Ty} {f : Mean}
      → Built e k a x t f
      → ((s : Gen) → EmitsAt a x s)
      → Part a x t
  part b h = record { emits = h; last = Built-last b; rise = Built-Rise b }

  pub Built-emits :
      {a : M (Unit {0})} {x : Code} {t : Ty} {f : Mean}
      → Built e k a x t f
      → (s : Gen) → EmitsAt a x s
  Built-emits (set_built o t a v q) s = λ i j. set_cgt_lem o t a s i
  Built-emits (then_built o t tf v q r b) s = then_emits (part b (Built-emits b)) o t tf q s
  Built-emits (un_built o t v q b) s = un_emits (part b (Built-emits b)) o t s
  Built-emits (not_built b) s = not_emits (part b (Built-emits b)) e s
  Built-emits (or_built a b) s =
      logic_emits (part a (Built-emits a)) (part b (Built-emits b)) e (jump_if_true e) 0 1 s
  Built-emits (and_built a b) s =
      logic_emits (part a (Built-emits a)) (part b (Built-emits b)) e (jump_if_zero e) 1 0 s
  Built-emits (rel_built o t rel q a b) s =
      rel_emits (part a (Built-emits a)) (part b (Built-emits b)) e o t s
  Built-emits (comma_built a b) s = comma_emits (part a (Built-emits a)) (part b (Built-emits b)) s
  Built-emits (assign_built t q a b) s =
      assign_emits (part a (Built-emits a)) (part b (Built-emits b)) t q s
  Built-emits (bin_built o t w q r a b) s =
      bin_emits (part a (Built-emits a)) (part b (Built-emits b)) _ _ o t (Scales-emits r) s
  Built-emits (ternary_built t a b d) s =
      ternary_emits (part a (Built-emits a)) (part b (Built-emits b)) e t (part d (Built-emits d)) s
