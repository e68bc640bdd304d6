-- ===== src/ThreeAddr/Stmts.antt =====
-- The translation of statements in src/nnc_3a.c.
use nnc.Common.{ℕ, Bool, true, false, not, if◌then◌else◌, ◌==◌, Option, none, some}
use nnc.ThreeAddr.{
  Addr, addr_type, no_addr, Quad, mkquad, label_quad, Env, mki3, LoopBranches, M, ◌>>=◌, ◌>>◌, ret,
  assert_that, mklabel, quads_add, quads_res, op_ujump, op_cjumpf, op_copy, op_retp, op_retf,
  op_hint_decl_local, addr_none, addr_name,
}
use nnc.ThreeAddr.Exprs.{Ident, Expr}
use nnc.ThreeAddr.Translate.{expr_to_3a}

-- `nnc_statement`. The branches of an `if` after the first are a list that says at its end whether there
-- is an `else`. A block says whether its scope is global or a namespace.
mutual
  pub data Stmt : Type 0 where
    type_stmt empty_stmt break_stmt continue_stmt fn_stmt : Stmt
    do_stmt : Stmt → Expr → Stmt
    while_stmt : Expr → Stmt → Stmt
    if_stmt : Expr → Stmt → Branches → Stmt
    let_stmt : Ident → Option Expr → Stmt
    for_stmt : Stmt → Stmt → Stmt → Stmt → Stmt
    expr_stmt : Expr → Stmt
    return_stmt : Option Expr → Stmt
    compound_stmt : Bool → Stmts → Stmt
    namespace_stmt : Stmt → Stmt

  pub data Stmts : Type 0 where
    no_stmts : Stmts
    stmt_then : Stmt → Stmts → Stmts

  pub data Branches : Type 0 where
    no_branch : Branches
    else_branch : Stmt → Branches
    elif_branch : Expr → Stmt → Branches → Branches

abbrev pub is_empty : Stmt → Bool
is_empty empty_stmt = true
is_empty _ = false

abbrev pub has_branches : Branches → Bool
has_branches no_branch = false
has_branches _ = true

abbrev pub get_loop_branches : M LoopBranches
get_loop_branches s = some (s.loop_branches, s)

-- `nnc_restore_loop_branches`
unfoldable pub restore_loop_branches : LoopBranches → M (Unit {0})
restore_loop_branches b s = some (tt, record s { loop_branches = b })

-- `nnc_set_loop_branches`
unfoldable pub set_loop_branches : ℕ → ℕ → M LoopBranches
set_loop_branches out iter_ends = do
  saved ← get_loop_branches
  assert_that (not (out == 0))
  assert_that (not (iter_ends == 0))
  restore_loop_branches (record { b_loop_out = out; b_loop_iter_ends = iter_ends })
  ret saved

abbrev pub jump_quad : Env → ℕ → Quad
jump_quad e l = mkquad op_ujump (mki3 e l) no_addr no_addr

abbrev pub jump_if_false : Env → ℕ → Addr → Quad
jump_if_false e l a = mkquad op_cjumpf (mki3 e l) a no_addr

-- The condition of a statement, with the jump that leaves on zero.
abbrev pub cond_to_3a : Env → ℕ → M (Unit {0}) → M (Unit {0})
cond_to_3a e l cond = do cond; a ← quads_res; quads_add (jump_if_false e l a)

-- `nnc_do_stmt_to_3a`
unfoldable pub do_stmt_to_3a : Env → M (Unit {0}) → M (Unit {0}) → M (Unit {0})
do_stmt_to_3a e body cond = do
  b_iter ← mklabel
  b_next ← mklabel
  branches ← set_loop_branches b_next b_iter
  quads_add (label_quad b_iter)
  body
  cond_to_3a e b_next cond
  restore_loop_branches branches
  quads_add (jump_quad e b_iter)
  quads_add (label_quad b_next)

-- `nnc_while_stmt_to_3a`
unfoldable pub while_stmt_to_3a : Env → M (Unit {0}) → M (Unit {0}) → M (Unit {0})
while_stmt_to_3a e cond body = do
  b_iter ← mklabel
  b_next ← mklabel
  branches ← set_loop_branches b_next b_iter
  quads_add (label_quad b_iter)
  cond_to_3a e b_next cond
  body
  restore_loop_branches branches
  quads_add (jump_quad e b_iter)
  quads_add (label_quad b_next)

-- `nnc_for_stmt_to_3a`; `always` says that there is no condition.
unfoldable pub for_stmt_to_3a :
    Env → M (Unit {0}) → Bool → M (Unit {0}) → M (Unit {0}) → M (Unit {0}) → M (Unit {0})
for_stmt_to_3a e init always cond step body = do
  b_iter ← mklabel
  b_step ← mklabel
  b_next ← mklabel
  branches ← set_loop_branches b_next b_step
  init
  quads_add (label_quad b_iter)
  if always then cond else cond_to_3a e b_next cond
  body
  quads_add (label_quad b_step)
  step
  restore_loop_branches branches
  quads_add (jump_quad e b_iter)
  quads_add (label_quad b_next)

-- `nnc_if_branch_to_3a`
unfoldable pub if_branch_to_3a : Env → M (Unit {0}) → M (Unit {0}) → ℕ → ℕ → M (Unit {0})
if_branch_to_3a e cond body b_true b_next = do
  cond_to_3a e b_next cond
  body
  if b_true == b_next then ret tt else quads_add (jump_quad e b_true)

-- The label behind a branch: a new one if another branch follows.
abbrev pub next_branch : Branches → ℕ → M ℕ
next_branch more b_true = if has_branches more then mklabel else ret b_true

-- `nnc_let_stmt_to_3a` with `nnc_let_stmt_hint`
unfoldable pub let_stmt_to_3a : Env → Bool → Ident → Option Expr → M (Unit {0})
let_stmt_to_3a e outer i init = if outer then ret tt else (do
  quads_add (mkquad op_hint_decl_local (addr_name i.ictx i.name i.type) no_addr no_addr)
  elim init [
    | none ↦ ret tt
    | some x ↦ (do
      expr_to_3a e x
      resv ← quads_res
      quads_add (mkquad op_copy (addr_name i.ictx i.name i.type) resv no_addr))
  ])

-- A jump to one of the labels of the enclosing loop.
unfoldable pub jump_out : Env → (LoopBranches → ℕ) → M (Unit {0})
jump_out e which = do
  b ← get_loop_branches
  assert_that (not (which b == 0))
  quads_add (jump_quad e (which b))

-- `nnc_break_stmt_to_3a`
abbrev pub break_stmt_to_3a : Env → M (Unit {0})
break_stmt_to_3a e = jump_out e (λ b. b.b_loop_out)

-- `nnc_continue_stmt_to_3a`
abbrev pub continue_stmt_to_3a : Env → M (Unit {0})
continue_stmt_to_3a e = jump_out e (λ b. b.b_loop_iter_ends)

-- `nnc_return_stmt_to_3a`
unfoldable pub return_stmt_to_3a : Env → Option Expr → M (Unit {0})
return_stmt_to_3a e body = elim body [
  | none ↦ quads_add (mkquad op_retp no_addr no_addr no_addr)
  | some x ↦ (do
    expr_to_3a e x
    arg ← quads_res
    quads_add (mkquad op_retf (addr_none (addr_type arg)) arg no_addr))
]

-- `nnc_stmt_to_3a` in a scope that is global or a namespace, or is not, with the loops of
-- `nnc_compound_stmt_to_3a` and `nnc_if_stmt_to_3a`.
unfoldable mutual
  pub stmt_to_3a : Env → Bool → Stmt → M (Unit {0})
  stmt_to_3a e outer type_stmt = ret tt
  stmt_to_3a e outer empty_stmt = ret tt
  stmt_to_3a e outer (do_stmt body cond) =
      do_stmt_to_3a e (stmt_to_3a e outer body) (expr_to_3a e cond)
  stmt_to_3a e outer fn_stmt = assert_that false
  stmt_to_3a e outer (if_stmt cond body more) = do
    b_true ← mklabel
    b_next ← next_branch more b_true
    if_branch_to_3a e (expr_to_3a e cond) (stmt_to_3a e outer body) b_true b_next
    branches_to_3a e outer more b_true b_next
    quads_add (label_quad b_true)
  stmt_to_3a e outer (let_stmt i init) = let_stmt_to_3a e outer i init
  stmt_to_3a e outer (for_stmt init cond step body) =
      for_stmt_to_3a e (stmt_to_3a e outer init) (is_empty cond) (stmt_to_3a e outer cond)
        (stmt_to_3a e outer step) (stmt_to_3a e outer body)
  stmt_to_3a e outer (expr_stmt x) = expr_to_3a e x
  stmt_to_3a e outer (while_stmt cond body) =
      while_stmt_to_3a e (expr_to_3a e cond) (stmt_to_3a e outer body)
  stmt_to_3a e outer break_stmt = break_stmt_to_3a e
  stmt_to_3a e outer (return_stmt body) = return_stmt_to_3a e body
  stmt_to_3a e outer continue_stmt = continue_stmt_to_3a e
  stmt_to_3a e outer (compound_stmt scope ss) = stmts_to_3a e scope ss
  stmt_to_3a e outer (namespace_stmt body) = stmt_to_3a e outer body

  pub stmts_to_3a : Env → Bool → Stmts → M (Unit {0})
  stmts_to_3a e outer no_stmts = ret tt
  stmts_to_3a e outer (stmt_then x ss) = do stmt_to_3a e outer x; stmts_to_3a e outer ss

  -- The branches behind the first.
  pub branches_to_3a : Env → Bool → Branches → ℕ → ℕ → M (Unit {0})
  branches_to_3a e outer no_branch b_true b_next = ret tt
  branches_to_3a e outer (else_branch x) b_true b_next = do
    quads_add (label_quad b_next)
    stmt_to_3a e outer x
  branches_to_3a e outer (elif_branch cond body more) b_true b_next = do
    quads_add (label_quad b_next)
    b_after ← next_branch more b_true
    if_branch_to_3a e (expr_to_3a e cond) (stmt_to_3a e outer body) b_true b_after
    branches_to_3a e outer more b_true b_after
