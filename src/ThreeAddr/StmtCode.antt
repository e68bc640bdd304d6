-- ===== src/ThreeAddr/StmtCode.antt =====
-- The code of every statement as a function of the statement, the counters and the labels of the
-- enclosing loop, and the statements that are translated without an abort or a failed assert.
use nnc.Common.{
  ℕ, ◌+◌, ◌≡◌, Bool, true, if◌then◌else◌, ◌==◌, List, [], ◌∷◌, ◌++◌, Option, none, some,
}
use nnc.ThreeAddr.{
  no_addr, Quad, mkquad, label_quad, Env, LoopBranches, op_copy, op_retp, op_retf,
  op_hint_decl_local, addr_none, addr_name, addr_cgt,
}
use nnc.ThreeAddr.Exprs.{Ident, Expr, value}
use nnc.ThreeAddr.Emit.{Emit, type_of}
use nnc.ThreeAddr.Spec.{emit, Valid}
use nnc.ThreeAddr.Stmts.{
  Stmt, type_stmt, empty_stmt, break_stmt, continue_stmt, fn_stmt, do_stmt, while_stmt, if_stmt,
  let_stmt, for_stmt, expr_stmt, return_stmt, compound_stmt, namespace_stmt, Stmts, no_stmts,
  stmt_then, Branches, no_branch, else_branch, elif_branch, has_branches, jump_quad, jump_if_false,
}

pub record Piece : Type 0 where
  pub code : List Quad
  pub cgt : ℕ
  pub label : ℕ

abbrev pub piece : List Quad → ℕ → ℕ → Piece
piece qs c l = record { code = qs; cgt = c; label = l }

abbrev pub expr_piece : Emit → Piece
expr_piece x = piece x.code x.cgt x.label

-- A condition and the jump that leaves on zero.
abbrev pub cond_piece : Env → ℕ → Expr → ℕ → ℕ → Piece
cond_piece e out x c l =
    let a = emit e value x c l in
    piece (a.code ++ (jump_if_false e out (addr_cgt a.res (type_of e value x)) ∷ [])) a.cgt a.label

-- The condition of a loop, if there is one.
abbrev pub for_cond_piece : Env → ℕ → Stmt → ℕ → ℕ → Piece
for_cond_piece e out (expr_stmt x) c l = cond_piece e out x c l
for_cond_piece e out _ c l = piece [] c l

abbrev pub branch_end : Env → ℕ → ℕ → List Quad
branch_end e b_true b_next = if b_true == b_next then [] else jump_quad e b_true ∷ []

-- The label counter behind the label for what follows a branch.
abbrev pub after_branch : Branches → ℕ → ℕ
after_branch more l = if has_branches more then l + 1 else l

abbrev pub branch_label : Branches → ℕ → ℕ → ℕ
branch_label more b_true l = if has_branches more then l + 1 else b_true

abbrev pub let_piece : Env → Bool → Ident → Option Expr → ℕ → ℕ → Piece
let_piece e outer i init c l =
    let name = addr_name i.ictx i.name i.type in
    let hint = mkquad op_hint_decl_local name no_addr no_addr in
    if outer then piece [] c l else elim init [
      | none ↦ piece (hint ∷ []) c l
      | some x ↦
          (let a = emit e value x c l in
            piece
              (hint
                ∷ (a.code
                    ++ (mkquad op_copy name (addr_cgt a.res (type_of e value x)) no_addr ∷ [])))
              a.cgt a.label)
    ]

abbrev pub return_piece : Env → Option Expr → ℕ → ℕ → Piece
return_piece e body c l = elim body [
  | none ↦ piece (mkquad op_retp no_addr no_addr no_addr ∷ []) c l
  | some x ↦
      (let a = emit e value x c l in
        let t = type_of e value x in
        piece (a.code ++ (mkquad op_retf (addr_none t) (addr_cgt a.res t) no_addr ∷ [])) a.cgt
          a.label)
]

abbrev pub loop_labels : ℕ → ℕ → LoopBranches
loop_labels out iter_ends = record { b_loop_out = out; b_loop_iter_ends = iter_ends }

unfoldable mutual
  pub stmt_piece : Env → Bool → LoopBranches → Stmt → ℕ → ℕ → Piece
  stmt_piece e o b type_stmt c l = piece [] c l
  stmt_piece e o b empty_stmt c l = piece [] c l
  stmt_piece e o b fn_stmt c l = piece [] c l
  stmt_piece e o b (do_stmt body cond) c l =
      let a = stmt_piece e o (loop_labels (l + 2) (l + 1)) body c (l + 2) in
      let d = cond_piece e (l + 2) cond a.cgt a.label in
      piece
        (label_quad (l + 1)
          ∷ (a.code ++ (d.code ++ (jump_quad e (l + 1) ∷ label_quad (l + 2) ∷ []))))
        d.cgt d.label
  stmt_piece e o b (while_stmt cond body) c l =
      let d = cond_piece e (l + 2) cond c (l + 2) in
      let a = stmt_piece e o (loop_labels (l + 2) (l + 1)) body d.cgt d.label in
      piece
        (label_quad (l + 1)
          ∷ (d.code ++ (a.code ++ (jump_quad e (l + 1) ∷ label_quad (l + 2) ∷ []))))
        a.cgt a.label
  stmt_piece e o b (if_stmt cond body more) c l =
      let n = branch_label more (l + 1) (l + 1) in
      let d = cond_piece e n cond c (after_branch more (l + 1)) in
      let a = stmt_piece e o b body d.cgt d.label in
      let r = branches_piece e o b more (l + 1) n a.cgt a.label in
      piece
        (d.code ++ (a.code ++ (branch_end e (l + 1) n ++ (r.code ++ (label_quad (l + 1) ∷ [])))))
        r.cgt r.label
  stmt_piece e o b (let_stmt i init) c l = let_piece e o i init c l
  stmt_piece e o b (for_stmt init cond step body) c l =
      let inner = loop_labels (l + 3) (l + 2) in
      let a = stmt_piece e o inner init c (l + 3) in
      let d = for_cond_piece e (l + 3) cond a.cgt a.label in
      let p = stmt_piece e o inner body d.cgt d.label in
      let q = stmt_piece e o inner step p.cgt p.label in
      piece
        (a.code
          ++ (label_quad (l + 1)
              ∷ (d.code
                  ++ (p.code
                      ++ (label_quad (l + 2)
                          ∷ (q.code ++ (jump_quad e (l + 1) ∷ label_quad (l + 3) ∷ [])))))))
        q.cgt q.label
  stmt_piece e o b (expr_stmt x) c l = expr_piece (emit e value x c l)
  stmt_piece e o b break_stmt c l = piece (jump_quad e b.b_loop_out ∷ []) c l
  stmt_piece e o b continue_stmt c l = piece (jump_quad e b.b_loop_iter_ends ∷ []) c l
  stmt_piece e o b (return_stmt body) c l = return_piece e body c l
  stmt_piece e o b (compound_stmt scope ss) c l = stmts_piece e scope b ss c l
  stmt_piece e o b (namespace_stmt body) c l = stmt_piece e o b body c l

  pub stmts_piece : Env → Bool → LoopBranches → Stmts → ℕ → ℕ → Piece
  stmts_piece e o b no_stmts c l = piece [] c l
  stmts_piece e o b (stmt_then x ss) c l =
      let a = stmt_piece e o b x c l in
      let r = stmts_piece e o b ss a.cgt a.label in piece (a.code ++ r.code) r.cgt r.label

  pub branches_piece : Env → Bool → LoopBranches → Branches → ℕ → ℕ → ℕ → ℕ → Piece
  branches_piece e o b no_branch b_true b_next c l = piece [] c l
  branches_piece e o b (else_branch x) b_true b_next c l =
      let a = stmt_piece e o b x c l in piece (label_quad b_next ∷ a.code) a.cgt a.label
  branches_piece e o b (elif_branch cond body more) b_true b_next c l =
      let n = branch_label more b_true l in
      let d = cond_piece e n cond c (after_branch more l) in
      let a = stmt_piece e o b body d.cgt d.label in
      let r = branches_piece e o b more b_true n a.cgt a.label in
      piece (label_quad b_next ∷ (d.code ++ (a.code ++ (branch_end e b_true n ++ r.code)))) r.cgt
        r.label

abbrev pub OptionValid : Env → Option Expr → Type 0
OptionValid e x = elim x [ none ↦ Unit {0} | some x ↦ Valid e value x ]

abbrev pub CondValid : Env → Stmt → Type 0
CondValid e empty_stmt = Unit {0}
CondValid e (expr_stmt x) = Valid e value x
CondValid e _ = ⊥

-- Expressions are valid, breaks and continues stand in a loop, functions stand in no statement, and the
-- condition of a loop is an expression or nothing.
unfoldable mutual
  pub StmtValid : Env → Bool → Stmt → Type 0
  StmtValid e loop type_stmt = Unit {0}
  StmtValid e loop empty_stmt = Unit {0}
  StmtValid e loop fn_stmt = ⊥
  StmtValid e loop (do_stmt body cond) = StmtValid e true body × Valid e value cond
  StmtValid e loop (while_stmt cond body) = Valid e value cond × StmtValid e true body
  StmtValid e loop (if_stmt cond body more) =
      Valid e value cond × StmtValid e loop body × BranchesValid e loop more
  StmtValid e loop (let_stmt i init) = OptionValid e init
  StmtValid e loop (for_stmt init cond step body) =
      StmtValid e true init × CondValid e cond × StmtValid e true step × StmtValid e true body
  StmtValid e loop (expr_stmt x) = Valid e value x
  StmtValid e loop break_stmt = loop ≡ true
  StmtValid e loop continue_stmt = loop ≡ true
  StmtValid e loop (return_stmt body) = OptionValid e body
  StmtValid e loop (compound_stmt scope ss) = StmtsValid e loop ss
  StmtValid e loop (namespace_stmt body) = StmtValid e loop body

  pub StmtsValid : Env → Bool → Stmts → Type 0
  StmtsValid e loop no_stmts = Unit {0}
  StmtsValid e loop (stmt_then x ss) = StmtValid e loop x × StmtsValid e loop ss

  pub BranchesValid : Env → Bool → Branches → Type 0
  BranchesValid e loop no_branch = Unit {0}
  BranchesValid e loop (else_branch x) = StmtValid e loop x
  BranchesValid e loop (elif_branch cond body more) =
      Valid e value cond × StmtValid e loop body × BranchesValid e loop more
