-- ===== src/ThreeAddr/StmtGrows.antt =====
-- The counters never go back while a statement is translated.
use nnc.Common.{ℕ, ◌+◌, ◌≤◌, arith, Bool, true, false, List, Option, none, some}
use nnc.ThreeAddr.{Quad, Env, LoopBranches}
use nnc.ThreeAddr.Exprs.{Ident, Expr, value}
use nnc.ThreeAddr.Translate.{expr_to_3a}
use nnc.ThreeAddr.Emit.{type_of}
use nnc.ThreeAddr.Spec.{emit, Valid}
use nnc.ThreeAddr.Grows.{Built-Rise}
use nnc.ThreeAddr.Last.{Built-last}
use nnc.ThreeAddr.Emits.{Part}
use nnc.ThreeAddr.Appends.{Built-emits}
use nnc.ThreeAddr.Machine.{Machine}
use nnc.ThreeAddr.BuiltExprs.{expr-Built}
use nnc.ThreeAddr.Stmts.{
  Stmt, type_stmt, empty_stmt, break_stmt, continue_stmt, fn_stmt, do_stmt, while_stmt, if_stmt,
  let_stmt, for_stmt, expr_stmt, return_stmt, compound_stmt, namespace_stmt, Stmts, no_stmts,
  stmt_then, Branches, no_branch, else_branch, elif_branch,
}
use nnc.ThreeAddr.StmtCode.{
  Piece, piece, expr_piece, cond_piece, for_cond_piece, after_branch, branch_label, let_piece,
  return_piece, stmt_piece, stmts_piece, branches_piece, OptionValid, CondValid, StmtValid,
  StmtsValid, BranchesValid,
}

-- The machine is of no account for the code.
no_machine : Machine
no_machine = record {
  bin = λ o t a b. 0;
  un = λ o t a. 0;
  cast = λ t u a. 0;
  less = λ t a b. false;
  address = λ c n. 0;
  load = λ t a m. 0;
  store = λ t a n m. m;
}

pub expr-Part :
    (e : Env) (x : Expr)
    → Valid e value x
    → Part (expr_to_3a e x) (emit e value x) (type_of e value x)
expr-Part e x h =
    let b = expr-Built e no_machine value x h in
    record { emits = Built-emits b; last = Built-last b; rise = Built-Rise b }

-- Both counters are at least where they were.
pub record Grown (p : Piece) (c l : ℕ) : Type 0 where
  pub cgts : c ≤ p.cgt
  pub labels : l ≤ p.label

same-Grown : (qs : List Quad) (c l : ℕ) → Grown (piece qs c l) c l
same-Grown qs c l = record { cgts = omega arith; labels = omega arith }

module _ (e : Env) where
  pub expr-Grown :
      (x : Expr) → Valid e value x → (c l : ℕ) → Grown (expr_piece (emit e value x c l)) c l
  expr-Grown x h c l =
      let r = (expr-Part e x h).rise c l in
      record { cgts = omega (arith, r.new, r.counted); labels = r.labels }

  -- A piece with other quads.
  coded : {qs rs : List Quad} {c l d m : ℕ} → Grown (piece qs d m) c l → Grown (piece rs d m) c l
  coded g = record { cgts = g.cgts; labels = g.labels }

  -- A piece behind another, and labels counted before.
  behind : {p q : Piece} {c l : ℕ} → Grown p c l → Grown q p.cgt p.label → Grown q c l
  behind g h = record {
    cgts = omega (arith, g.cgts, h.cgts);
    labels = omega (arith, g.labels, h.labels);
  }

  fewer : {p : Piece} {c k : ℕ} (l : ℕ) → l ≤ k → Grown p c k → Grown p c l
  fewer l i g = record { cgts = g.cgts; labels = omega (arith, g.labels) }

  pub cond-Grown :
      (out : ℕ) (x : Expr) → Valid e value x → (c l : ℕ) → Grown (cond_piece e out x c l) c l
  cond-Grown out x h c l = coded (expr-Grown x h c l)

  pub for_cond-Grown :
      (out : ℕ) (x : Stmt) → CondValid e x → (c l : ℕ) → Grown (for_cond_piece e out x c l) c l
  for_cond-Grown out empty_stmt h c l = same-Grown _ c l
  for_cond-Grown out (expr_stmt x) h c l = cond-Grown out x h c l
  for_cond-Grown out x h c l = absurd h

  let-Grown :
      (o : Bool) (i : Ident) (x : Option Expr)
      → OptionValid e x
      → (c l : ℕ) → Grown (let_piece e o i x c l) c l
  let-Grown true i x h c l = same-Grown _ c l
  let-Grown false i none h c l = same-Grown _ c l
  let-Grown false i (some x) h c l = coded (expr-Grown x h c l)

  return-Grown : (x : Option Expr) → OptionValid e x → (c l : ℕ) → Grown (return_piece e x c l) c l
  return-Grown none h c l = same-Grown _ c l
  return-Grown (some x) h c l = coded (expr-Grown x h c l)

  pub after_branch-le : (more : Branches) (l : ℕ) → l ≤ after_branch more l
  after_branch-le no_branch l = omega arith
  after_branch-le (else_branch x) l = omega arith
  after_branch-le (elif_branch x y m) l = omega arith

  mutual
    unfolding stmt_piece stmts_piece branches_piece StmtValid StmtsValid BranchesValid

    pub stmt-Grown :
        (loop o : Bool) (b : LoopBranches) (x : Stmt)
        → StmtValid e loop x
        → (c l : ℕ) → Grown (stmt_piece e o b x c l) c l
    stmt-Grown loop o b type_stmt h c l = same-Grown _ c l
    stmt-Grown loop o b empty_stmt h c l = same-Grown _ c l
    stmt-Grown loop o b fn_stmt h c l = same-Grown _ c l
    stmt-Grown loop o b (do_stmt body cond) h c l = coded (
        fewer l (omega arith)
          (behind (stmt-Grown true o _ body h.0 c (l + 2)) (cond-Grown (l + 2) cond h.1 _ _)))
    stmt-Grown loop o b (while_stmt cond body) h c l = coded (
        fewer l (omega arith)
          (behind (cond-Grown (l + 2) cond h.0 c (l + 2)) (stmt-Grown true o _ body h.1 _ _)))
    stmt-Grown loop o b (if_stmt cond body more) h c l = coded (
        fewer l (omega (arith, after_branch-le more (l + 1))) (
          behind
            (behind
              (cond-Grown (branch_label more (l + 1) (l + 1)) cond h.0 c
                (after_branch more (l + 1)))
              (stmt-Grown loop o b body h.1 _ _))
            (branches-Grown loop o b more h.2 (l + 1) _ _ _)))
    stmt-Grown loop o b (let_stmt i init) h c l = let-Grown o i init h c l
    stmt-Grown loop o b (for_stmt init cond step body) h c l = coded (
        fewer l (omega arith) (
          behind
            (behind
              (behind (stmt-Grown true o _ init h.0 c (l + 3))
                (for_cond-Grown (l + 3) cond h.1 _ _))
              (stmt-Grown true o _ body h.3 _ _))
            (stmt-Grown true o _ step h.2 _ _)))
    stmt-Grown loop o b (expr_stmt x) h c l = expr-Grown x h c l
    stmt-Grown loop o b break_stmt h c l = same-Grown _ c l
    stmt-Grown loop o b continue_stmt h c l = same-Grown _ c l
    stmt-Grown loop o b (return_stmt body) h c l = return-Grown body h c l
    stmt-Grown loop o b (compound_stmt scope ss) h c l = stmts-Grown loop scope b ss h c l
    stmt-Grown loop o b (namespace_stmt body) h c l = stmt-Grown loop o b body h c l

    pub stmts-Grown :
        (loop o : Bool) (b : LoopBranches) (x : Stmts)
        → StmtsValid e loop x
        → (c l : ℕ) → Grown (stmts_piece e o b x c l) c l
    stmts-Grown loop o b no_stmts h c l = same-Grown _ c l
    stmts-Grown loop o b (stmt_then x ss) h c l =
        coded (behind (stmt-Grown loop o b x h.0 c l) (stmts-Grown loop o b ss h.1 _ _))

    pub branches-Grown :
        (loop o : Bool) (b : LoopBranches) (x : Branches)
        → BranchesValid e loop x
        → (t n c l : ℕ) → Grown (branches_piece e o b x t n c l) c l
    branches-Grown loop o b no_branch h t n c l = same-Grown _ c l
    branches-Grown loop o b (else_branch x) h t n c l = coded (stmt-Grown loop o b x h c l)
    branches-Grown loop o b (elif_branch cond body more) h t n c l = coded (
        fewer l (after_branch-le more l) (
          behind
            (behind (cond-Grown (branch_label more t l) cond h.0 c (after_branch more l))
              (stmt-Grown loop o b body h.1 _ _))
            (branches-Grown loop o b more h.2 t _ _ _)))
