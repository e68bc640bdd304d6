-- ===== src/ThreeAddr/Targets.antt =====
-- The labels of every translation, and of a state that it appends to.
use nnc.Common.{ℕ, ◌+◌, ◌<◌, ◌≡◌, ◌∙◌, refl, ap, arith, if◌then◌else◌, List, [], ◌∷◌, ◌++◌, inl}
use nnc.Types.{Ty}
use nnc.ThreeAddr.{
  Addr, no_addr, Quad, mkquad, mkquad1, label_quad, Env, mki3, M, op_ujump, op_copy, addr_cgt,
}
use nnc.ThreeAddr.Translate.{jump_if_true, jump_if_zero}
use nnc.ThreeAddr.Emit.{Code, scale_quad, ternary_code}
use nnc.ThreeAddr.Machine.{Machine}
use nnc.ThreeAddr.Meaning.{Mean}
use nnc.ThreeAddr.Built.{
  Scales, no_scale, not_scaled, is_scaled, Built, set_built, then_built, un_built, not_built,
  or_built, and_built, rel_built, comma_built, assign_built, bin_built, ternary_built,
}
use nnc.ThreeAddr.Grows.{Rise, Built-Rise}
use nnc.ThreeAddr.Labels.{
  count, count-none, count-append, count-plain, count-label, count-one, LabelsOnce, Once-eq,
  Once-both, Once-test, plain_labels, not_labels, comma_labels, assign_labels, bin_labels,
  logic_labels, rel_labels,
}

-- The quads that scale have no label.
count-scale :
    {e : Env} {k : Machine} {u v : Ty} {before : Addr → Addr → M (Unit {0})} {qs : ℕ → List Quad}
    {f : ℕ → ℕ}
    → Scales e k u v before qs f
    → (n m : ℕ) → 0 < n
    → count n (qs m) ≡ 0
unfolding count
count-scale no_scale n m h = refl
count-scale (not_scaled p) n m h = rw p
count-scale {e = e} {u = u} {v = v} (is_scaled p q) n m h =
    ap (λ b. count n (if b then scale_quad e u v m ∷ [] else [])) p ∙ ground arith

ternary_labels :
    {x y z : Code}
    → LabelsOnce x
    → LabelsOnce y
    → LabelsOnce z
    → ((c l : ℕ) → Rise (x c l) c l)
    → ((c l : ℕ) → Rise (y c l) c l)
    → ((c l : ℕ) → Rise (z c l) c l)
    → (e : Env) (t u v w : Ty) → LabelsOnce (ternary_code e t u v w x y z)
ternary_labels {x = x} {y = y} {z = z} a b d rise rise' rise'' e t u v w c l n h =
    let a' = x c (l + 2) in
    let d' = z (a'.cgt + 1) a'.label in
    let b' = y d'.cgt d'.label in
    let j = jump_if_true e (l + 1) (addr_cgt a'.res u) in
    let s = mkquad1 op_copy (addr_cgt (a'.cgt + 1) t) t (addr_cgt d'.res w) no_addr in
    let g = mkquad op_ujump (mki3 e (l + 2)) no_addr no_addr in
    let s' = mkquad1 op_copy (addr_cgt (a'.cgt + 1) t) t (addr_cgt b'.res v) no_addr in
    let end = s' ∷ label_quad (l + 2) ∷ [] in
    let mid = label_quad (l + 1) ∷ (b'.code ++ end) in
    let r = rise c (l + 2) in
    let r' = rise'' (a'.cgt + 1) a'.label in
    let r'' = rise' d'.cgt d'.label in
    Once-eq
      (Once-test
        (Once-both (Once-both (a c (l + 2) n h) (d (a'.cgt + 1) a'.label n h) r.labels r'.labels)
          (b d'.cgt d'.label n h) (omega (arith, r.labels, r'.labels)) r''.labels)
        (omega (arith, r.labels, r'.labels, r''.labels)))
      (omega (
        arith,
        count-append n a'.code (j ∷ (d'.code ++ (s ∷ g ∷ mid))),
        count-plain n j (d'.code ++ (s ∷ g ∷ mid)) refl h,
        count-append n d'.code (s ∷ g ∷ mid),
        count-plain n s (g ∷ mid) refl h,
        count-plain n g mid refl h,
        count-label n (l + 1) (b'.code ++ end),
        count-append n b'.code end,
        count-plain n s' (label_quad (l + 2) ∷ []) refl h,
        count-label n (l + 2) [],
        count-none n,
      ))

module _ {e : Env} {k : Machine} where
  pub Built-LabelsOnce :
      {a : M (Unit {0})} {x : Code} {t : Ty} {f : Mean} → Built e k a x t f → LabelsOnce x
  Built-LabelsOnce (set_built o t a v s) = λ c l n h. inl (count-one n o _ _ _ h)
  Built-LabelsOnce (then_built o t tf v s r b) =
      λ c l n h. plain_labels (Built-LabelsOnce b) (Built-Rise b) c l n _ h (count-one n o _ _ _ h)
  Built-LabelsOnce (un_built o t v s b) =
      λ c l n h. plain_labels (Built-LabelsOnce b) (Built-Rise b) c l n _ h (count-one n o _ _ _ h)
  Built-LabelsOnce (not_built b) = not_labels (Built-LabelsOnce b) (Built-Rise b) e _
  Built-LabelsOnce (or_built a b) =
      logic_labels (Built-LabelsOnce a) (Built-Rise a) (Built-LabelsOnce b) (Built-Rise b) e
        (jump_if_true e) (λ m d. refl) 0 1 _ _
  Built-LabelsOnce (and_built a b) =
      logic_labels (Built-LabelsOnce a) (Built-Rise a) (Built-LabelsOnce b) (Built-Rise b) e
        (jump_if_zero e) (λ m d. refl) 1 0 _ _
  Built-LabelsOnce (rel_built o t rel q a b) =
      rel_labels (Built-LabelsOnce a) (Built-Rise a) (Built-LabelsOnce b) (Built-Rise b) e o t _ _
  Built-LabelsOnce (comma_built a b) =
      comma_labels (Built-LabelsOnce a) (Built-Rise a) (Built-LabelsOnce b) (Built-Rise b) _
  Built-LabelsOnce (assign_built {u = u} t q a b) =
      assign_labels (Built-LabelsOnce a) (Built-Rise a) (Built-LabelsOnce b) (Built-Rise b) t u
  Built-LabelsOnce (bin_built o t w q r a b) =
      bin_labels (Built-LabelsOnce a) (Built-Rise a) (Built-LabelsOnce b) (Built-Rise b) _
        (count-scale r) o t _ _
  Built-LabelsOnce (ternary_built t a b d) =
      ternary_labels (Built-LabelsOnce a) (Built-LabelsOnce b) (Built-LabelsOnce d) (Built-Rise a)
        (Built-Rise b) (Built-Rise d) e t _ _ _
