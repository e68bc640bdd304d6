-- ===== src/ThreeAddr/StmtTests.antt =====
-- Translations of concrete statements by src/nnc_3a.c.
use nnc.Common.{◌^◌, ◌<◌, ◌≡◌, refl, arith, false, [], ◌∷◌, ◌++◌, some}
use nnc.Types.{Ty, leaf, leaf_i32, leaf_i8, arr_or_ptr_type, unalias}
use nnc.Infer.{binary_assign, binary_add, binary_lt, binary_eq}
use nnc.SymTable.{ident_default}
use nnc.ThreeAddr.{Env, Gen}
use nnc.ThreeAddr.Exprs.{Ident, Expr, ident, int_lit, binary}
use nnc.ThreeAddr.Emit.{type_of}
use nnc.ThreeAddr.Spec.{emit, Valid}
use nnc.ThreeAddr.Stmts.{
  Stmt, break_stmt, continue_stmt, if_stmt, let_stmt, for_stmt, expr_stmt, compound_stmt, no_stmts,
  stmt_then, else_branch, elif_branch, stmt_to_3a,
}
use nnc.ThreeAddr.StmtCode.{
  stmt_piece, stmts_piece, branches_piece, StmtValid, StmtsValid, BranchesValid,
}
use nnc.ThreeAddr.StmtParts.{LoopSet}
use nnc.ThreeAddr.StmtEmits.{stmt_to_3a-piece}

abbrev env : Env
env = record { statics = record { addr = λ k. 0 }; size = λ t. 4 }

abbrev i32 : Ty
i32 = leaf 1 leaf_i32

abbrev i : Ident
i = record { ictx = ident_default; name = 105 ∷ []; type = i32; init_const = 0; enum_type = i32 }

abbrev plus_one : Expr
plus_one = binary binary_assign (ident i) (binary binary_add (ident i) (int_lit 1 i32) i32) i32

-- for (let i = 0; i < 9; i = i + 1) { if (i == 3) { continue; } elif (i == 5) { break; } else i; }
abbrev counting : Stmt
counting =
    for_stmt (let_stmt i (some (int_lit 0 i32)))
      (expr_stmt (binary binary_lt (ident i) (int_lit 9 i32) (leaf 0 leaf_i8))) (expr_stmt plus_one)
      (compound_stmt false (
        stmt_then
          (if_stmt (binary binary_eq (ident i) (int_lit 3 i32) (leaf 0 leaf_i8))
            (compound_stmt false (stmt_then continue_stmt no_stmts))
            (elif_branch (binary binary_eq (ident i) (int_lit 5 i32) (leaf 0 leaf_i8))
              (compound_stmt false (stmt_then break_stmt no_stmts))
              (else_branch (expr_stmt (ident i)))))
          no_stmts))

abbrev start : Gen
start = record {
  quads = [];
  cgt_cnt = 0;
  label_cnt = 0;
  loop_branches = record { b_loop_out = 0; b_loop_iter_ends = 0 };
}

counting-StmtValid : StmtValid env false counting
unfolding StmtValid StmtsValid BranchesValid Valid type_of arr_or_ptr_type unalias
counting-StmtValid = (
  tt,
  (tt, tt),
  (refl, tt, (tt, tt, tt)),
  (((tt, tt), (refl, tt), ((tt, tt), (refl, tt), tt)), tt),
)

counting_cgts : (stmt_piece env false start.loop_branches counting 0 0).cgt < 2 ^ 64
unfolding stmt_piece stmts_piece branches_piece emit type_of
counting_cgts = omega arith

counting_labels : (stmt_piece env false start.loop_branches counting 0 0).label < 2 ^ 26
unfolding stmt_piece stmts_piece branches_piece emit type_of
counting_labels = omega arith

outside : LoopSet false start.loop_branches
unfolding LoopSet
outside = tt

stmt_to_3a-piece_example :
    (s : Gen) × (stmt_to_3a env false counting start ≡ some (tt, s))
    × (s.quads ≡ [] ++ (stmt_piece env false start.loop_branches counting 0 0).code)
    × (s.cgt_cnt ≡ (stmt_piece env false start.loop_branches counting 0 0).cgt)
    × (s.label_cnt ≡ (stmt_piece env false start.loop_branches counting 0 0).label)
    × (s.loop_branches ≡ start.loop_branches)
stmt_to_3a-piece_example =
    stmt_to_3a-piece env false false counting start counting-StmtValid outside counting_cgts
      counting_labels
