-- ===== src/ThreeAddr/Built.antt =====
-- What the translations of src/nnc_3a.c have in common: a generator with its code, the type of its
-- result and its meaning, one constructor for each way of putting them together.
use nnc.Common.{ℕ, ◌≡◌, Bool, true, false, ◌==◌, List, [], some}
use nnc.Types.{Ty, arr_or_ptr_type, leaf_i8}
use nnc.Infer.{static_type}
use nnc.ThreeAddr.{Op, Addr, base, addr_type, Quad, Env, M, ◌>>=◌, ◌>>◌, ret, quads_res, addr_cgt}
use nnc.ThreeAddr.Exprs.{set_cgt, un_op_to_3a, not_to_3a}
use nnc.ThreeAddr.Translate.{
  jump_if_true, jump_if_zero, or_to_3a, and_to_3a, binary_rel_to_3a, comma_to_3a, assign_to_3a,
  scale, bin_op_to_3a, ternary_to_3a,
}
use nnc.ThreeAddr.Emit.{
  Code, set_code, un_op_code, not_code, logic_code, rel_code, comma_code, assign_code, bin_code,
  pointer_arith, scale_code, ternary_code,
}
use nnc.ThreeAddr.Spec.{then_code, Complete}
use nnc.ThreeAddr.Machine.{Mem, Machine, conf, put, addr_value, jump_to, addr_of, exec}
use nnc.ThreeAddr.Meaning.{
  Mean, truth, map_mean, both_mean, or_mean, and_mean, assign_mean, choice_mean, scaled,
}

-- One more temporary, from the result of `a`; its type may come from that of the result.
abbrev pub then_gen : Op → (Addr → Ty) → M (Unit {0}) → M (Unit {0})
then_gen o type_from a = do a; r ← quads_res; set_cgt o (type_from r) r

-- An operation that takes `x` to `v x` and sets its result.
abbrev pub Sets : Machine → Op → Ty → Ty → (Mem → ℕ → ℕ) → Type 0
Sets k o t u v =
    (p : List Quad) (n x y z : ℕ) (qs : List Quad) (m : Mem) (g : ℕ → ℕ)
    → exec k p o (addr_cgt n t) u x y z qs m g ≡ some (conf qs m (put g n (v m x)))

-- The same for an operand with no temporary in it.
abbrev pub SetsFrom : Machine → Op → Ty → Addr → (Mem → ℕ) → Type 0
SetsFrom k o t a v =
    (p : List Quad) (n y : ℕ) (qs : List Quad) (m : Mem) (g : ℕ → ℕ)
    → exec k p o (addr_cgt n t) (addr_type a) (addr_value k a m g) y (addr_of k a) qs m g
      ≡ some (conf qs m (put g n (v m)))

abbrev pub SetsBoth : Machine → Op → Ty → Ty → (ℕ → ℕ → ℕ) → Type 0
SetsBoth k o t u v =
    (p : List Quad) (n x y z : ℕ) (qs : List Quad) (m : Mem) (g : ℕ → ℕ)
    → exec k p o (addr_cgt n t) u x y z qs m g ≡ some (conf qs m (put g n (v x y)))

abbrev pub Jumps : Machine → Op → Ty → (ℕ → ℕ → Bool) → Type 0
Jumps k o u rel =
    (p : List Quad) (r : Addr) (x y z : ℕ) (qs : List Quad) (m : Mem) (g : ℕ → ℕ)
    → exec k p o r u x y z qs m g ≡ jump_to (rel x y) r p qs m g

-- What happens to the second operand of an operation before it.
pub data Scales (e : Env) (k : Machine) (u v : Ty)
    : (Addr → Addr → M (Unit {0})) → (ℕ → List Quad) → (ℕ → ℕ) → Type 0 where
  no_scale : Scales e k u v (λ _ _. ret tt) (λ _. []) (λ b. b)
  not_scaled :
      pointer_arith u v ≡ false → Scales e k u v (scale e) (scale_code e u v) (scaled base e k u v)
  is_scaled :
      pointer_arith u v ≡ true
      → Complete (base u)
      → Scales e k u v (scale e) (scale_code e u v) (scaled base e k u v)

pub data Built (e : Env) (k : Machine) : M (Unit {0}) → Code → Ty → Mean → Type 0 where
  set_built :
      (o : Op) (t : Ty) (a : Addr) (v : Mem → ℕ)
      → SetsFrom k o t a v
      → Built e k (set_cgt o t a) (set_code o t a) t (λ m. (v m, m))
  then_built :
      {a : M (Unit {0})} {x : Code} {f : Mean} {u : Ty} (o : Op) (t : Ty) (type_from : Addr → Ty)
      (v : Mem → ℕ → ℕ)
      → ((n : ℕ) → type_from (addr_cgt n u) ≡ t)
      → Sets k o t u v
      → Built e k a x u f
      → Built e k (then_gen o type_from a) (then_code o t u x) t (λ m. (v (f m).1 (f m).0, (f m).1))
  un_built :
      {a : M (Unit {0})} {x : Code} {f : Mean} {u : Ty} (o : Op) (t : Ty) (v : ℕ → ℕ)
      → Sets k o t u (λ _. v)
      → Built e k a x u f
      → Built e k (un_op_to_3a o a t) (un_op_code o t u x) t (map_mean v f)
  not_built :
      {a : M (Unit {0})} {x : Code} {f : Mean} {u : Ty}
      → Built e k a x u f
      → Built e k
          (not_to_3a e a)
          (not_code e u x)
          (static_type e.statics leaf_i8)
          (map_mean (λ n. truth (n == 0)) f)
  or_built :
      {a b : M (Unit {0})} {x y : Code} {f g : Mean} {u v : Ty}
      → Built e k a x u f
      → Built e k b y v g
      → Built e k
          (or_to_3a e a b)
          (logic_code e (jump_if_true e) 0 1 u v x y)
          (static_type e.statics leaf_i8)
          (or_mean f g)
  and_built :
      {a b : M (Unit {0})} {x y : Code} {f g : Mean} {u v : Ty}
      → Built e k a x u f
      → Built e k b y v g
      → Built e k
          (and_to_3a e a b)
          (logic_code e (jump_if_zero e) 1 0 u v x y)
          (static_type e.statics leaf_i8)
          (and_mean f g)
  rel_built :
      {a b : M (Unit {0})} {x y : Code} {f g : Mean} {u v : Ty} (o : Op) (t : Ty)
      (rel : ℕ → ℕ → Bool)
      → Jumps k o u rel
      → Built e k a x u f
      → Built e k b y v g
      → Built e k
          (binary_rel_to_3a e o a b t)
          (rel_code e o t u v x y)
          t
          (both_mean (λ n p. truth (rel n p)) f g)
  comma_built :
      {a b : M (Unit {0})} {x y : Code} {f g : Mean} {u v : Ty}
      → Built e k a x u f
      → Built e k b y v g
      → Built e k (comma_to_3a a b) (comma_code v x y) v (both_mean (λ n p. p) f g)
  assign_built :
      {a b : M (Unit {0})} {x y : Code} {f g : Mean} {u v : Ty} (t : Ty)
      → arr_or_ptr_type u ≡ true
      → Built e k a x u f
      → Built e k b y v g
      → Built e k (assign_to_3a a b t) (assign_code t u x y) t (assign_mean k (base u) f g)
  bin_built :
      {a b : M (Unit {0})} {x y : Code} {f g : Mean} {u v : Ty}
      {before : Addr → Addr → M (Unit {0})} {quads : ℕ → List Quad} {s : ℕ → ℕ} (o : Op) (t : Ty)
      (w : ℕ → ℕ → ℕ)
      → SetsBoth k o t u w
      → Scales e k u v before quads s
      → Built e k a x u f
      → Built e k b y v g
      → Built e k
          (bin_op_to_3a before o a b t)
          (bin_code quads o t u v x y)
          t
          (both_mean (λ n p. w n (s p)) f g)
  ternary_built :
      {a b d : M (Unit {0})} {x y z : Code} {f g h : Mean} {u v w : Ty} (t : Ty)
      → Built e k a x u f
      → Built e k b y v g
      → Built e k d z w h
      → Built e k (ternary_to_3a e a b d t) (ternary_code e t u v w x y z) t (choice_mean f g h)
