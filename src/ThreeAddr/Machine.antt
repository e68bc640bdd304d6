-- ===== src/ThreeAddr/Machine.antt =====
-- What the quads of src/nnc_3a.h mean: a machine that runs them one by one on a memory and the
-- temporaries. Arithmetic, casts, loads, stores and the addresses of names are the target's.
use nnc.Common.{ℕ, ◌≡◌, Bool, not, if◌then◌else◌, ◌==◌, List, [], ◌∷◌, Option, none, some}
use nnc.Types.{Ty}
use nnc.SymTable.{IdentCtx, ident_function}
use nnc.ThreeAddr.{
  Op, Addr, addr_type, Quad, op_none, op_add, op_sub, op_mul, op_div, op_mod, op_shr, op_shl,
  op_sal, op_sar, op_bw_or, op_bw_and, op_bw_xor, op_plus, op_minus, op_bw_not, op_ujump, op_cjumpt,
  op_cjumpf, op_cjumplt, op_cjumpgt, op_cjumplte, op_cjumpgte, op_cjumpe, op_cjumpne, op_copy,
  op_cast, op_ref, op_deref, op_deref_copy, op_hint_decl_call, op_hint_decl_local,
  op_hint_decl_global, op_hint_decl_string, addr_none, addr_name, addr_iconst, addr_cgt,
}

abbrev pub Mem : Type 0
Mem = ℕ → ℕ

-- What the target gives: values are the numbers that a register holds.
pub record Machine : Type 0 where
  pub bin : Op → Ty → ℕ → ℕ → ℕ
  pub un : Op → Ty → ℕ → ℕ
  pub cast : Ty → Ty → ℕ → ℕ
  pub less : Ty → ℕ → ℕ → Bool
  pub address : IdentCtx → List ℕ → ℕ
  pub load : Ty → ℕ → Mem → ℕ
  pub store : Ty → ℕ → ℕ → Mem → Mem

-- The value of a name is what it holds; that of a function is its address.
abbrev pub name_value : Machine → IdentCtx → List ℕ → Ty → Mem → ℕ
name_value k ident_function n t m = k.address ident_function n
name_value k x n t m = k.load t (k.address x n) m

-- The quads that are left, the memory and the temporaries.
pub data Conf : Type 0 where
  conf : List Quad → Mem → (ℕ → ℕ) → Conf

abbrev pub put : (ℕ → ℕ) → ℕ → ℕ → ℕ → ℕ
put g n v k = if k == n then v else g k

abbrev pub addr_value : Machine → Addr → Mem → (ℕ → ℕ) → ℕ
addr_value k (addr_none t) m g = 0
addr_value k (addr_name x n t) m g = name_value k x n t m
addr_value k (addr_iconst n t) m g = n
addr_value k (addr_cgt n t) m g = g n

abbrev pub write : Machine → Addr → ℕ → List Quad → Mem → (ℕ → ℕ) → Option Conf
write k (addr_none t) v qs m g = none
write k (addr_name x n t) v qs m g = some (conf qs (k.store t (k.address x n) v m) g)
write k (addr_iconst n t) v qs m g = none
write k (addr_cgt n t) v qs m g = some (conf qs m (put g n v))

-- The quads from a label on.
unfoldable pub goto : ℕ → List Quad → List Quad
goto l [] = []
goto l (q ∷ qs) = let further = goto l qs in if q.label == l then q ∷ qs else further

abbrev pub target : Addr → ℕ
target (addr_iconst n t) = n
target _ = 0

abbrev pub jump_to : Bool → Addr → List Quad → List Quad → Mem → (ℕ → ℕ) → Option Conf
jump_to b to p qs m g = some (conf (if b then goto (target to) p else qs) m g)

abbrev pub addr_of : Machine → Addr → ℕ
addr_of k (addr_name x n t) = k.address x n
addr_of k _ = 0

-- One quad with its operands' values `x` and `y`, whose type is
-- `t`; `z` is the address of the first. Calls and returns leave the code.
abbrev pub exec :
    Machine → List Quad → Op → Addr → Ty → ℕ → ℕ → ℕ → List Quad → Mem → (ℕ → ℕ) → Option Conf
exec k p op_none r t x y z qs m g = some (conf qs m g)
exec k p op_add r t x y z qs m g = write k r (k.bin op_add (addr_type r) x y) qs m g
exec k p op_sub r t x y z qs m g = write k r (k.bin op_sub (addr_type r) x y) qs m g
exec k p op_mul r t x y z qs m g = write k r (k.bin op_mul (addr_type r) x y) qs m g
exec k p op_div r t x y z qs m g = write k r (k.bin op_div (addr_type r) x y) qs m g
exec k p op_mod r t x y z qs m g = write k r (k.bin op_mod (addr_type r) x y) qs m g
exec k p op_shr r t x y z qs m g = write k r (k.bin op_shr (addr_type r) x y) qs m g
exec k p op_shl r t x y z qs m g = write k r (k.bin op_shl (addr_type r) x y) qs m g
exec k p op_sal r t x y z qs m g = write k r (k.bin op_sal (addr_type r) x y) qs m g
exec k p op_sar r t x y z qs m g = write k r (k.bin op_sar (addr_type r) x y) qs m g
exec k p op_bw_or r t x y z qs m g = write k r (k.bin op_bw_or (addr_type r) x y) qs m g
exec k p op_bw_and r t x y z qs m g = write k r (k.bin op_bw_and (addr_type r) x y) qs m g
exec k p op_bw_xor r t x y z qs m g = write k r (k.bin op_bw_xor (addr_type r) x y) qs m g
exec k p op_plus r t x y z qs m g = write k r (k.un op_plus (addr_type r) x) qs m g
exec k p op_minus r t x y z qs m g = write k r (k.un op_minus (addr_type r) x) qs m g
exec k p op_bw_not r t x y z qs m g = write k r (k.un op_bw_not (addr_type r) x) qs m g
exec k p op_ujump r t x y z qs m g = some (conf (goto (target r) p) m g)
exec k p op_cjumpt r t x y z qs m g = jump_to (not (x == 0)) r p qs m g
exec k p op_cjumpf r t x y z qs m g = jump_to (x == 0) r p qs m g
exec k p op_cjumplt r t x y z qs m g = jump_to (k.less t x y) r p qs m g
exec k p op_cjumpgt r t x y z qs m g = jump_to (k.less t y x) r p qs m g
exec k p op_cjumplte r t x y z qs m g = jump_to (not (k.less t y x)) r p qs m g
exec k p op_cjumpgte r t x y z qs m g = jump_to (not (k.less t x y)) r p qs m g
exec k p op_cjumpe r t x y z qs m g = jump_to (x == y) r p qs m g
exec k p op_cjumpne r t x y z qs m g = jump_to (not (x == y)) r p qs m g
exec k p op_copy r t x y z qs m g = write k r x qs m g
exec k p op_cast r t x y z qs m g = write k r (k.cast t (addr_type r) x) qs m g
exec k p op_ref r t x y z qs m g = write k r z qs m g
exec k p op_deref r t x y z qs m g = write k r (k.load (addr_type r) x m) qs m g
exec k p op_deref_copy r t x y z qs m g = some (conf qs (k.store t (addr_value k r m g) x m) g)
exec k p op_hint_decl_call r t x y z qs m g = some (conf qs m g)
exec k p op_hint_decl_local r t x y z qs m g = some (conf qs m g)
exec k p op_hint_decl_global r t x y z qs m g = some (conf qs m g)
exec k p op_hint_decl_string r t x y z qs m g = some (conf qs m g)
exec k p _ r t x y z qs m g = none

abbrev pub step_quad : Machine → List Quad → Quad → List Quad → Mem → (ℕ → ℕ) → Option Conf
step_quad k p q qs m g =
    exec k p q.op q.res (addr_type q.arg1) (addr_value k q.arg1 m g) (addr_value k q.arg2 m g)
      (addr_of k q.arg1) qs m g

unfoldable pub step : Machine → List Quad → Conf → Option Conf
unfolding goto
step k p (conf [] m g) = none
step k p (conf (q ∷ qs) m g) = step_quad k p q qs m g

-- Runs of the program `p`, step by step.
pub data Runs (k : Machine) (p : List Quad) : Conf → Conf → Type 0 where
  stop : {a : Conf} → Runs k p a a
  more : {a b c : Conf} → step k p a ≡ some b → Runs k p b c → Runs k p a c
