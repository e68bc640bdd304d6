-- ===== src/ThreeAddr.antt =====
-- Three-address code of src/nnc_3a.h and its generator in src/nnc_3a.c: quads, addresses, the state
-- that the generator keeps, and the monad in which it runs. `none` stands for nnc_abort and for a
-- failed assert. String and float constants are left out.
pub mod Exprs
pub mod Translate
pub mod Emit
pub mod Grows
pub mod Built
pub mod Builds
pub mod BuiltExprs
pub mod Emits
pub mod Last
pub mod Appends
pub mod Computes
pub mod Unaries
pub mod Binaries
pub mod Choices
pub mod Ternaries
pub mod Labels
pub mod Targets
pub mod Direct
pub mod Correct
pub mod Resolve
mod Tests
pub mod Stmts
pub mod StmtCode
pub mod StmtGrows
pub mod StmtParts
pub mod StmtEmits
mod StmtTests
pub mod Machine
pub mod Spec
pub mod Meaning
use nnc.Common.{
  ℕ, suc, ◌+◌, ◌%◌, ◌^◌, Bool, true, false, if◌then◌else◌, ◌==◌, List, [], ◌∷◌, ◌++◌, Option, none,
  some,
}
use nnc.Types.{Ty, leaf, arr_ty, ptr_ty, alias_ty, fn_ty, leaf_unknown, leaf_u32}
use nnc.Infer.{Statics, static_type}
use nnc.SymTable.{IdentCtx}

-- `nnc_3a_op_kind`
pub data Op : Type 0 where
  op_none : Op
  op_add op_sub op_mul op_div op_mod op_shr op_shl op_sal op_sar op_bw_or op_bw_and op_bw_xor : Op
  op_plus op_minus op_bw_not : Op
  op_ujump op_cjumpt op_cjumpf : Op
  op_cjumplt op_cjumpgt op_cjumplte op_cjumpgte op_cjumpe op_cjumpne : Op
  op_copy op_cast op_arg op_pcall op_fcall op_retp op_retf op_ref op_deref op_deref_copy : Op
  op_hint_decl_call op_hint_decl_local op_hint_decl_global op_hint_decl_string : Op

-- `nnc_3a_addr`: the kind with its value, and the type.
pub data Addr : Type 0 where
  addr_none : Ty → Addr
  addr_name : IdentCtx → List ℕ → Ty → Addr
  addr_iconst : ℕ → Ty → Addr
  addr_cgt : ℕ → Ty → Addr

-- A null pointer to a type, which is the base of a type without one.
abbrev pub null_ty : Ty
null_ty = leaf 0 leaf_unknown

abbrev pub base : Ty → Ty
base (leaf a k) = null_ty
base (arr_ty a b) = b
base (ptr_ty a b) = b
base (alias_ty a b) = b
base (fn_ty a ps r) = null_ty

abbrev pub addr_type : Addr → Ty
addr_type (addr_none t) = t
addr_type (addr_name x n t) = t
addr_type (addr_iconst n t) = t
addr_type (addr_cgt n t) = t

-- `nnc_3a_mkaddr`
abbrev pub mkaddr : Addr → Ty → Addr
mkaddr (addr_none u) t = addr_none t
mkaddr (addr_name x n u) t = addr_name x n t
mkaddr (addr_iconst n u) t = addr_iconst n t
mkaddr (addr_cgt n u) t = addr_cgt n t

abbrev pub no_addr : Addr
no_addr = addr_none null_ty

-- `nnc_3a_quad` without its hint. The label of a quad that is not one is 0.
pub record Quad : Type 0 where
  pub label : ℕ
  pub op : Op
  pub res : Addr
  pub arg1 : Addr
  pub arg2 : Addr

-- `nnc_3a_mkquad`
abbrev pub mkquad : Op → Addr → Addr → Addr → Quad
mkquad o r x y = record { label = 0; op = o; res = r; arg1 = x; arg2 = y }

-- `nnc_3a_mkquad1`
abbrev pub mkquad1 : Op → Addr → Ty → Addr → Addr → Quad
mkquad1 o r t x y = mkquad o (mkaddr r t) x y

abbrev pub label_quad : ℕ → Quad
label_quad l = record { label = l; op = op_none; res = no_addr; arg1 = no_addr; arg2 = no_addr }

-- What the generator reads besides the tree: the addresses of the static types, and the field `size`
-- of a type.
pub record Env : Type 0 where
  pub statics : Statics
  pub size : Ty → ℕ

-- `nnc_3a_mki3`
abbrev pub mki3 : Env → ℕ → Addr
mki3 e n = addr_iconst n (static_type e.statics leaf_u32)

-- `nnc_loop_branches`
pub record LoopBranches : Type 0 where
  pub b_loop_out : ℕ
  pub b_loop_iter_ends : ℕ

-- The file's static variables.
pub record Gen : Type 0 where
  pub quads : List Quad
  pub cgt_cnt : ℕ
  pub label_cnt : ℕ
  pub loop_branches : LoopBranches

abbrev pub M : Type 0 → Type 0
M A = Gen → Option (A × Gen)

infixl 5 ◌>>=◌ ◌>>◌
abbrev pub ◌>>=◌ : {A B : Type 0} → M A → (A → M B) → M B
◌>>=◌ m f s = elim (m s) [ none ↦ none | some (a, s') ↦ f a s' ]

abbrev pub ◌>>◌ : {A B : Type 0} → M A → M B → M B
◌>>◌ m n = m >>= λ _. n

abbrev pub ret : {A : Type 0} → A → M A
ret a s = some (a, s)

abbrev pub assert_that : Bool → M (Unit {0})
assert_that true s = some (tt, s)
assert_that false s = none

-- The counter of the temporaries is an nnc_u64, that of the labels an nnc_u32.
unfoldable pub next_cgt : ℕ → ℕ
next_cgt c = (c + 1) % 2 ^ 64

unfoldable pub next_label : ℕ → ℕ
next_label l = (l + 1) % 2 ^ 32

-- `nnc_3a_mkcgt`; every caller gives the address a type.
unfoldable pub mkcgt : M ℕ
mkcgt s = some (next_cgt s.cgt_cnt, record s { cgt_cnt = next_cgt s.cgt_cnt })

-- `nnc_3a_mklabel`; the label field of a quad has 26 bits.
unfoldable pub label_field : ℕ → ℕ
label_field l = l % 2 ^ 26

unfoldable pub mklabel : M ℕ
mklabel s =
    some (label_field (next_label s.label_cnt), record s { label_cnt = next_label s.label_cnt })

-- `nnc_3a_quads_add`
unfoldable pub quads_add : Quad → M (Unit {0})
quads_add q s = some (tt, record s { quads = s.quads ++ (q ∷ []) })

abbrev pub or_else : {A : Type 0} → Option A → Option A → Option A
or_else none b = b
or_else (some a) b = some a

-- The loop of `nnc_3a_quads_res`: the result of the last quad that is no label.
unfoldable pub last_res : List Quad → Option Addr
last_res [] = none
last_res (q ∷ qs) = or_else (last_res qs) (if q.label == 0 then some q.res else none)

-- `nnc_3a_quads_res`
unfoldable pub quads_res : M Addr
quads_res s = elim (last_res s.quads) [ none ↦ none | some a ↦ some (a, s) ]
