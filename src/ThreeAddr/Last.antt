-- ===== src/ThreeAddr/Last.antt =====
-- The result that `nnc_3a_quads_res` of src/nnc_3a.c finds at the end of a code.
use nnc.Common.{ℕ, ◌+◌, ◌≡◌, refl, arith, List, [], ◌∷◌, ◌++◌, some}
use nnc.Types.{Ty}
use nnc.ThreeAddr.{
  Op, Addr, no_addr, Quad, mkquad1, label_quad, Env, M, last_res, op_copy, addr_cgt,
}
use nnc.ThreeAddr.Emit.{Code, test_code}
use nnc.ThreeAddr.Meaning.{Mean}
use nnc.ThreeAddr.Machine.{Machine}
use nnc.ThreeAddr.Built.{
  Built, set_built, then_built, un_built, not_built, or_built, and_built, rel_built, comma_built,
  assign_built, bin_built, ternary_built,
}

-- The last result of a list is that of its end.
last_cons :
    (q : Quad) (qs : List Quad) {r : Addr} → last_res qs ≡ some r → last_res (q ∷ qs) ≡ some r
unfolding last_res
last_cons q qs h = rw h

pub last_end : (xs ys : List Quad) {r : Addr} → last_res ys ≡ some r → last_res (xs ++ ys) ≡ some r
last_end [] ys h = h
last_end (q ∷ xs) ys h = last_cons q (xs ++ ys) (last_end xs ys h)

last_one :
    (o : Op) (c : ℕ) (t : Ty) (x y : Addr)
    → last_res (mkquad1 o (addr_cgt c t) t x y ∷ []) ≡ some (addr_cgt c t)
unfolding last_res
last_one o c t x y = refl

last_test :
    (e : Env) (t : Ty) (l r n p : ℕ) → last_res (test_code e t l r n p) ≡ some (addr_cgt r t)
unfolding last_res
last_test e t l r n p = ground arith

last_choice :
    (t : Ty) (l r : ℕ) (q : Addr)
    → last_res (mkquad1 op_copy (addr_cgt r t) t q no_addr ∷ label_quad (l + 2) ∷ [])
      ≡ some (addr_cgt r t)
unfolding last_res
last_choice t l r q = ground arith

module _ {e : Env} {k : Machine} where
  -- The last quad of a code that is no label has the code's result.
  pub Built-last :
      {a : M (Unit {0})} {x : Code} {t : Ty} {f : Mean}
      → Built e k a x t f
      → (c l : ℕ) → last_res (x c l).code ≡ some (addr_cgt (x c l).res t)
  Built-last (set_built o t a v s) c l = last_one o _ t a no_addr
  Built-last (then_built o t tf v s r b) c l = last_end _ _ (last_one o _ t _ no_addr)
  Built-last (un_built o t v s b) c l = last_end _ _ (last_one o _ t _ no_addr)
  Built-last (not_built b) c l = last_end _ _ (last_cons _ _ (last_test e _ l _ 0 1))
  Built-last (or_built a b) c l =
      last_end _ _ (last_cons _ _ (last_end _ _ (last_cons _ _ (last_test e _ l _ 0 1))))
  Built-last (and_built a b) c l =
      last_end _ _ (last_cons _ _ (last_end _ _ (last_cons _ _ (last_test e _ l _ 1 0))))
  Built-last (rel_built o t rel j a b) c l =
      last_end _ _ (last_end _ _ (last_cons _ _ (last_test e t l _ 0 1)))
  Built-last (comma_built a b) c l = last_end _ _ (last_end _ _ (last_one op_copy _ _ _ no_addr))
  Built-last (assign_built t p a b) c l =
      last_end _ _ (last_end _ _ (last_cons _ _ (last_one op_copy _ t _ no_addr)))
  Built-last (bin_built {x = x} {y = y} {quads = qs} o t w s q a b) c l =
      let z = y (x c l).cgt (x c l).label in
      last_end (x c l).code _ (last_end z.code _ (last_end (qs z.res) _ (last_one o _ t _ _)))
  Built-last (ternary_built t a b d) c l = last_end _ _ (
      last_cons _ _ (
        last_end _ _
          (last_cons _ _ (last_cons _ _ (last_cons _ _ (last_end _ _ (last_choice t l _ _)))))))
