-- ===== src/ThreeAddr/Computes.antt =====
-- Running the code of Emit: each piece of code, in a program whose labels lead to their quads, computes
-- what it stands for and leaves the temporaries before it as they were.
use nnc.Common.{
  ℕ, ◌+◌, ◌≤◌, ◌<◌, ◌≡◌, ◌∙◌, refl, sym, arith, Bool, true, false, if◌then◌else◌, List, [], ◌∷◌,
  ◌++◌,
}
use mathlib.Core.Path.{subst}
use mathlib.Core.List.{append_assoc}
use nnc.Types.{Ty}
use nnc.ThreeAddr.{Quad, label_quad, Env}
use nnc.ThreeAddr.Emit.{Code, test_code}
use nnc.ThreeAddr.Machine.{Mem, Machine, Conf, conf, put, goto, step, Runs, stop, more}
use nnc.ThreeAddr.Meaning.{Mean}

-- The code `s` is the end of the program `p`.
abbrev pub Suffix : List Quad → List Quad → Type 0
Suffix p s = (pre : List Quad) × (p ≡ pre ++ s)

pub drop_suffix : {p : List Quad} (xs : List Quad) {s : List Quad} → Suffix p (xs ++ s) → Suffix p s
drop_suffix xs (pre, e) = (pre ++ xs, e ∙ sym (append_assoc pre xs _))

-- Every label of the program leads to its quad.
abbrev pub Resolves : List Quad → Type 0
Resolves p =
    (l : ℕ) (rest : List Quad)
    → 0 < l
    → Suffix p (label_quad l ∷ rest)
    → goto l p ≡ label_quad l ∷ rest

-- A run from `qs` to `post` that ends with the memory `m'` and the value `v` in the temporary `r`, and
-- leaves the temporaries up to `c`.
pub record Done (k : Machine) (p qs post : List Quad) (m : Mem) (g : ℕ → ℕ) (c r v : ℕ) (m' : Mem)
    : Type 0 where
  pub cgts : ℕ → ℕ
  pub run : Runs k p (conf qs m g) (conf post m' cgts)
  pub result : cgts r ≡ v
  pub older : (i : ℕ) → i ≤ c → cgts i ≡ g i

abbrev pub Computes : Machine → Code → Mean → Type 0
Computes k x f =
    (p : List Quad)
    → Resolves p
    → (c l : ℕ) (post : List Quad) → Suffix p ((x c l).code ++ post)
    → (m : Mem) (g : ℕ → ℕ) → Done k p ((x c l).code ++ post) post m g c (x c l).res (f m).0 (f m).1

pub run_then :
    {k : Machine} {p : List Quad} {a b c : Conf} → Runs k p a b → Runs k p b c → Runs k p a c
run_then stop s = s
run_then (more h r) s = more h (run_then r s)

pub put_same : (g : ℕ → ℕ) (n v : ℕ) → put g n v n ≡ v
put_same g n v = ground arith

pub put_before : (g : ℕ → ℕ) (n v i : ℕ) → i < n → put g n v i ≡ g i
put_before g n v i h = ground arith

-- A run whose start is written in another way.
pub from_code :
    {k : Machine} {p qs qs' post : List Quad} {m m' : Mem} {g : ℕ → ℕ} {c r v : ℕ}
    → qs ≡ qs'
    → Done k p qs' post m g c r v m'
    → Done k p qs post m g c r v m'
from_code {k = k} {p = p} {post = post} {m = m} {m' = m'} {g = g} {c = c} {r = r} {v = v} e d =
    subst (λ q. Done k p q post m g c r v m') (sym e) d

module _ {k : Machine} {p : List Quad} where
  -- A run, then quads that set a temporary.
  pub set_after :
      {qs rest post : List Quad} {m m' m'' : Mem} {g : ℕ → ℕ} {c r v n w : ℕ}
      (d : Done k p qs rest m g c r v m')
      → Runs k p (conf rest m' d.cgts) (conf post m'' (put d.cgts n w))
      → c < n
      → Done k p qs post m g c n w m''
  set_after {n = n} {w = w} d h i = record {
    cgts = put d.cgts n w;
    run = run_then d.run h;
    result = put_same d.cgts n w;
    older = λ j b. put_before d.cgts n w j (omega arith) ∙ d.older j b;
  }

  -- Two runs with steps between that change nothing, the second with the temporaries of the first.
  pub then-Done :
      {qs rest rest' post : List Quad} {m m' m'' : Mem} {g : ℕ → ℕ} {c c' r v r' v' : ℕ}
      (d : Done k p qs rest m g c r v m')
      → Runs k p (conf rest m' d.cgts) (conf rest' m' d.cgts)
      → Done k p rest' post m' d.cgts c' r' v' m''
      → c ≤ c'
      → Done k p qs post m g c r' v' m''
  then-Done d between d' h = record {
    cgts = d'.cgts;
    run = run_then d.run (run_then between d'.run);
    result = d'.result;
    older = λ j b. d'.older j (omega arith) ∙ d.older j b;
  }

  pub at_label :
      {l : ℕ} {qs : List Quad} {m m' : Mem} {g g' : ℕ → ℕ} {post : List Quad}
      → Resolves p
      → 0 < l
      → Suffix p (label_quad l ∷ qs)
      → Runs k p (conf (label_quad l ∷ qs) m g) (conf post m' g')
      → Runs k p (conf (goto l p) m g) (conf post m' g')
  at_label {m = m} {m' = m'} {g = g} {g' = g'} {post = post} h i s r =
      subst (λ q. Runs k p (conf q m g) (conf post m' g')) (sym (h _ _ i s)) r

  -- The end of a test sets one of two numbers, by whether its label was jumped to.
  pub test_run :
      (e : Env) (t : Ty) (l r n1 n2 : ℕ) (post : List Quad)
      → Resolves p
      → Suffix p (test_code e t l r n1 n2 ++ post)
      → (b : Bool) (m : Mem) (g : ℕ → ℕ)
      → Runs k p
          (conf (if b then goto (l + 1) p else test_code e t l r n1 n2 ++ post) m g)
          (conf post m (put g r (if b then n2 else n1)))
  unfolding step
  test_run e t l r n1 n2 post h s true m g =
      at_label h (omega arith) (drop_suffix (_ ∷ _ ∷ []) s) (more refl (more refl (more refl stop)))
  test_run e t l r n1 n2 post h s false m g =
      more refl
        (more refl (at_label h (omega arith) (drop_suffix (_ ∷ _ ∷ _ ∷ _ ∷ []) s) (more refl stop)))
