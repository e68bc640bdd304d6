-- ===== src/Types/Rank.antt =====
-- What `nnc_rank` of src/nnc_typecheck.c counts.
use nnc.Common.{ℕ, suc, ◌+◌, ◌≡◌, refl, false, arith, if◌then◌else◌, Bool-cases, inl, inr}
use nnc.Types.{Ty, leaf, arr_ty, ptr_ty, alias_ty, fn_ty, unalias, arr_or_ptr_type, rank_loop, rank}

-- The arrays and pointers down to the first type that is neither, looking through aliases.
unfoldable pub depth : Ty → ℕ
depth (leaf a k) = 0
depth (fn_ty a ps r) = 0
depth (arr_ty a b) = suc (depth b)
depth (ptr_ty a b) = suc (depth b)
depth (alias_ty a b) = depth b

-- The aliases for arrays and pointers on the same way.
unfoldable pub aliases : Ty → ℕ
unfolding arr_or_ptr_type
aliases (leaf a k) = 0
aliases (fn_ty a ps r) = 0
aliases (arr_ty a b) = aliases b
aliases (ptr_ty a b) = aliases b
aliases (alias_ty a b) = aliases b + (if arr_or_ptr_type b then 1 else 0)

flat_aliases : (t : Ty) → arr_or_ptr_type t ≡ false → (depth t ≡ 0) × (aliases t ≡ 0)
unfolding depth aliases unalias
flat_aliases (leaf a k) h = (refl, refl)
flat_aliases (fn_ty a ps r) h = (refl, refl)
flat_aliases (arr_ty a b) h = cc
flat_aliases (ptr_ty a b) h = cc
flat_aliases (alias_ty a b) h = let t = flat_aliases b h in (t.0, rw h (omega (arith, t.1)))

rank_loop-depth : (t : Ty) → rank_loop t ≡ depth t + aliases t
unfolding rank_loop depth aliases unalias
rank_loop-depth (leaf a k) = refl
rank_loop-depth (fn_ty a ps r) = refl
rank_loop-depth (arr_ty a b) = omega (arith, rank_loop-depth b)
rank_loop-depth (ptr_ty a b) = omega (arith, rank_loop-depth b)
rank_loop-depth (alias_ty a b) = elim (Bool-cases (arr_or_ptr_type b)) [
  | inl deep ↦ rw deep (omega (arith, rank_loop-depth b))
  | inr flat ↦ rw flat (let t = flat_aliases b flat in omega (arith, t.0, t.1))
]

-- `nnc_rank` counts, behind the aliases at the head of the type, every array and pointer, and once
-- more every alias that stands for one; so it is the depth exactly where no such alias is on the way.
pub rank-depth : (t : Ty) → rank t ≡ depth (unalias t) + aliases (unalias t)
unfolding rank
rank-depth t = rank_loop-depth (unalias t)
