-- ===== src/ThreeAddr/Grows.antt =====
-- The counters never go back, and the value of an expression is in a temporary of its own.
use nnc.Common.{ℕ, ◌+◌, ◌≤◌, ◌<◌, arith, List}
use nnc.Types.{Ty}
use nnc.ThreeAddr.{Quad, Env, M}
use nnc.ThreeAddr.Emit.{Emit, Code}
use nnc.ThreeAddr.Meaning.{Mean}
use nnc.ThreeAddr.Machine.{Machine}
use nnc.ThreeAddr.Built.{
  Built, set_built, then_built, un_built, not_built, or_built, and_built, rel_built, comma_built,
  assign_built, bin_built, ternary_built,
}

-- The result is new, and both counters are at least where they were.
pub record Rise (x : Emit) (c l : ℕ) : Type 0 where
  pub new : c < x.res
  pub counted : x.res ≤ x.cgt
  pub labels : l ≤ x.label

-- How the bounds of a code follow from those of its parts.
module _ {x : Emit} {c l : ℕ} where
  later :
      {q : List Quad}
      → Rise x c l
      → Rise (record { code = q; res = x.cgt + 1; cgt = x.cgt + 1; label = x.label }) c l
  later h = record {
    new = omega (arith, h.new, h.counted);
    counted = omega arith;
    labels = h.labels;
  }

  same :
      {q : List Quad}
      → Rise x c l
      → Rise (record { code = q; res = x.res; cgt = x.cgt; label = x.label }) c l
  same h = record { new = h.new; counted = h.counted; labels = h.labels }

  fewer : Rise x c (l + 2) → Rise x c l
  fewer h = record { new = h.new; counted = h.counted; labels = omega (arith, h.labels) }

  module _ {y : Emit} where
    both : Rise x c l → Rise y x.cgt x.label → Rise y c l
    both h i = record {
      new = omega (arith, h.new, h.counted, i.new);
      counted = i.counted;
      labels = omega (arith, h.labels, i.labels);
    }

    first :
        {q : List Quad}
        → Rise x c l
        → Rise y x.cgt x.label
        → Rise (record { code = q; res = x.res; cgt = y.cgt; label = y.label }) c l
    first h i = record {
      new = h.new;
      counted = omega (arith, h.counted, i.new, i.counted);
      labels = omega (arith, h.labels, i.labels);
    }

chosen :
    {x y z : Emit} {c l : ℕ} {q : List Quad}
    → Rise x c (l + 2)
    → Rise y (x.cgt + 1) x.label
    → Rise z y.cgt y.label
    → Rise (record { code = q; res = x.cgt + 1; cgt = z.cgt; label = z.label }) c l
chosen h i j = record {
  new = omega (arith, h.new, h.counted);
  counted = omega (arith, i.new, i.counted, j.new, j.counted);
  labels = omega (arith, h.labels, i.labels, j.labels);
}

module _ {e : Env} {k : Machine} where
  pub Built-Rise :
      {a : M (Unit {0})} {x : Code} {t : Ty} {f : Mean}
      → Built e k a x t f
      → (c l : ℕ) → Rise (x c l) c l
  Built-Rise (set_built o t a v s) c l = record {
    new = omega arith;
    counted = omega arith;
    labels = omega arith;
  }
  Built-Rise (then_built o t tf v s r b) c l = later (Built-Rise b c l)
  Built-Rise (un_built o t v s b) c l = same (Built-Rise b c l)
  Built-Rise (not_built b) c l = fewer (later (Built-Rise b c (l + 2)))
  Built-Rise (or_built a b) c l = fewer (later (both (Built-Rise a c (l + 2)) (Built-Rise b _ _)))
  Built-Rise (and_built a b) c l = fewer (later (both (Built-Rise a c (l + 2)) (Built-Rise b _ _)))
  Built-Rise (rel_built o t rel j a b) c l =
      fewer (later (both (Built-Rise a c (l + 2)) (Built-Rise b _ _)))
  Built-Rise (comma_built a b) c l = later (both (Built-Rise a c l) (Built-Rise b _ _))
  Built-Rise (assign_built t p a b) c l = later (both (Built-Rise a c l) (Built-Rise b _ _))
  Built-Rise (bin_built o t w s q a b) c l = first (Built-Rise a c l) (Built-Rise b _ _)
  Built-Rise (ternary_built t a b d) c l =
      chosen (Built-Rise a c (l + 2)) (Built-Rise d _ _) (Built-Rise b _ _)
