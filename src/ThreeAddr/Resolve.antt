-- ===== src/ThreeAddr/Resolve.antt =====
-- Every translation computes, and labels that stand once lead to their quads.
use nnc.Common.{
  ℕ, ◌+◌, ◌≤◌, ◌<◌, ◌≡◌, ◌∙◌, ap, arith, Bool, true, false, if◌then◌else◌, ◌==◌, List, [], ◌∷◌,
  ◌++◌,
}
use nnc.Types.{Ty}
use nnc.ThreeAddr.{Quad, label_quad, Env, M}
use nnc.ThreeAddr.Emit.{Code}
use nnc.ThreeAddr.Machine.{Machine, goto}
use nnc.ThreeAddr.Meaning.{Mean}
use nnc.ThreeAddr.Built.{
  Built, set_built, then_built, un_built, not_built, or_built, and_built, rel_built, comma_built,
  assign_built, bin_built, ternary_built,
}
use nnc.ThreeAddr.Grows.{Built-Rise}
use nnc.ThreeAddr.Labels.{count, count-append, count-label, bit}
use nnc.ThreeAddr.Computes.{Resolves, Computes}
use nnc.ThreeAddr.Unaries.{set-Computes, then-Computes, un-Computes, not-Computes}
use nnc.ThreeAddr.Binaries.{comma-Computes, rel-Computes, assign-Computes, bin-Computes}
use nnc.ThreeAddr.Choices.{or_Computes, and_Computes}
use nnc.ThreeAddr.Ternaries.{ternary-Computes}

module _ {e : Env} {k : Machine} where
  pub Built-Computes :
      {a : M (Unit {0})} {x : Code} {t : Ty} {f : Mean} → Built e k a x t f → Computes k x f
  Built-Computes (set_built o t a v s) = set-Computes o t a v s
  Built-Computes (then_built {u = u} o t tf v s r b) =
      then-Computes u (Built-Computes b) (Built-Rise b) o t v r
  Built-Computes (un_built {u = u} o t v s b) =
      un-Computes u (Built-Computes b) (Built-Rise b) o t v s
  Built-Computes (not_built {u = u} b) = not-Computes u (Built-Computes b) (Built-Rise b) e
  Built-Computes (or_built {u = u} {v = v} a b) =
      or_Computes (Built-Computes a) (Built-Computes b) (Built-Rise a) (Built-Rise b) e u v
  Built-Computes (and_built {u = u} {v = v} a b) =
      and_Computes (Built-Computes a) (Built-Computes b) (Built-Rise a) (Built-Rise b) e u v
  Built-Computes (rel_built {u = u} {v = v} o t rel j a b) =
      rel-Computes (Built-Computes a) (Built-Computes b) (Built-Rise a) (Built-Rise b) e u v o t rel
        j
  Built-Computes (comma_built {v = v} a b) =
      comma-Computes (Built-Computes a) (Built-Computes b) (Built-Rise a) (Built-Rise b) v
  Built-Computes (assign_built {u = u} t q a b) =
      assign-Computes (Built-Computes a) (Built-Computes b) (Built-Rise a) (Built-Rise b) t u
  Built-Computes (bin_built o t w j s a b) =
      bin-Computes (Built-Computes a) (Built-Computes b) (Built-Rise a) (Built-Rise b) o t w j s
  Built-Computes (ternary_built {u = u} {v = v} {w = w} t a b d) =
      ternary-Computes (Built-Computes a) (Built-Computes b) (Built-Computes d) (Built-Rise a)
        (Built-Rise d) (Built-Rise b) e t u v w

-- A label leads to its quad if no quad before has it.
goto-append :
    (l : ℕ) (pre rest : List Quad)
    → count l pre ≡ 0
    → goto l (pre ++ (label_quad l ∷ rest)) ≡ label_quad l ∷ rest
unfolding goto count
goto-append l [] rest h = ground arith
goto-append l (q ∷ pre) rest h = by_case (q.label == l) h (λ z. goto-append l pre rest z)
  where
    by_case :
        (b : Bool)
        → (if b then 1 else 0) + count l pre ≡ 0
        → (count l pre ≡ 0 → goto l (pre ++ (label_quad l ∷ rest)) ≡ label_quad l ∷ rest)
        → (if b then q ∷ (pre ++ (label_quad l ∷ rest)) else goto l (pre ++ (label_quad l ∷ rest)))
          ≡ label_quad l ∷ rest
    by_case true h next = absurd (omega arith)
    by_case false h next = next (omega arith)

bit_self : (n : ℕ) → bit n n ≡ 1
unfolding bit
bit_self n = ground arith

pub once-Resolves : (p : List Quad) → ((n : ℕ) → 0 < n → count n p ≤ 1) → Resolves p
once-Resolves p h l rest i (pre, e) =
    let z = ap (count l) e ∙ count-append l pre (label_quad l ∷ rest) in
    ap (goto l) e
    ∙ goto-append l pre rest (omega (arith, h l i, z, count-label l l rest, bit_self l))
