-- ===== src/ThreeAddr/StmtEmits.antt =====
-- The translation of every valid statement appends the code of StmtCode.
use nnc.Common.{
  ℕ, ◌+◌, ◌^◌, ◌<◌, ◌≡◌, ◌∙◌, refl, sym, arith, Bool, true, if◌then◌else◌, [], ◌∷◌, ◌++◌, some,
}
use mathlib.Core.Path.{subst}
use mathlib.Core.List.{append_assoc, append-nil}
use nnc.ThreeAddr.{label_quad, Env, Gen, quads_add}
use nnc.ThreeAddr.Translate.{expr_to_3a}
use nnc.ThreeAddr.Emits.{two_labels, bind_some}
use nnc.ThreeAddr.Stmts.{
  Stmt, type_stmt, empty_stmt, break_stmt, continue_stmt, fn_stmt, do_stmt, while_stmt, if_stmt,
  let_stmt, for_stmt, expr_stmt, return_stmt, compound_stmt, namespace_stmt, Stmts, no_stmts,
  stmt_then, Branches, no_branch, else_branch, elif_branch, is_empty, restore_loop_branches,
  cond_to_3a, do_stmt_to_3a, while_stmt_to_3a, for_stmt_to_3a, if_branch_to_3a, stmt_to_3a,
  stmts_to_3a, branches_to_3a,
}
use nnc.ThreeAddr.StmtCode.{
  piece, cond_piece, for_cond_piece, branch_end, after_branch, branch_label, loop_labels,
  stmt_piece, stmts_piece, branches_piece, StmtValid, StmtsValid, BranchesValid,
}
use nnc.ThreeAddr.StmtGrows.{
  expr-Part, after_branch-le, cond-Grown, for_cond-Grown, stmt-Grown, stmts-Grown, branches-Grown,
}
use nnc.ThreeAddr.StmtParts.{
  behind, Appends, LoopSet, finish, one_label, set_loop, cond_lem, let_lem, return_lem, jump_lem,
  next_branch_lem, branch_lem, three_labels, for_cond_lem,
}

module _ (e : Env) where
  mutual
    unfolding stmt_to_3a stmts_to_3a branches_to_3a do_stmt_to_3a while_stmt_to_3a for_stmt_to_3a
        quads_add restore_loop_branches stmt_piece stmts_piece branches_piece StmtValid StmtsValid
        BranchesValid LoopSet

    stmt-Appends :
        (loop o : Bool) (x : Stmt)
        → StmtValid e loop x
        → (s : Gen) → LoopSet loop s.loop_branches
        → Appends (stmt_to_3a e o x) (stmt_piece e o s.loop_branches x s.cgt_cnt s.label_cnt) s
    stmt-Appends loop o type_stmt h s k = λ i j. finish s _ _ (sym (append-nil s.quads))
    stmt-Appends loop o empty_stmt h s k = λ i j. finish s _ _ (sym (append-nil s.quads))
    stmt-Appends loop o fn_stmt h s k = absurd h
    stmt-Appends loop o (do_stmt body cond) h s k = λ i j.
        let l = s.label_cnt in
        let s1 = record s {
          quads = s.quads ++ (label_quad (l + 1) ∷ []);
          label_cnt = l + 2;
          loop_branches = loop_labels (l + 2) (l + 1);
        } in
        let a = stmt_piece e o (loop_labels (l + 2) (l + 1)) body s.cgt_cnt (l + 2) in
        let g = stmt-Grown e true o (loop_labels (l + 2) (l + 1)) body h.0 s.cgt_cnt (l + 2) in
        let g' = cond-Grown e (l + 2) cond h.1 a.cgt a.label in
        two_labels _ s (omega (arith, g.labels, g'.labels))
        ∙ set_loop _ (l + 2) (l + 1) _ (omega arith) (omega arith)
        ∙ bind_some (stmt_to_3a e o body) _
            (stmt-Appends true o body h.0 s1 (omega arith, omega arith) (omega (arith, g'.cgts))
              (omega (arith, g'.labels)))
            refl
        ∙ bind_some (cond_to_3a e (l + 2) (expr_to_3a e cond)) _
            (cond_lem e (l + 2) cond h.1 (behind s1 a) i j) refl
        ∙ finish s _ _ (simp (append_assoc))
    stmt-Appends loop o (while_stmt cond body) h s k = λ i j.
        let l = s.label_cnt in
        let b = loop_labels (l + 2) (l + 1) in
        let s1 = record s {
          quads = s.quads ++ (label_quad (l + 1) ∷ []);
          label_cnt = l + 2;
          loop_branches = b;
        } in
        let d = cond_piece e (l + 2) cond s.cgt_cnt (l + 2) in
        let g = cond-Grown e (l + 2) cond h.0 s.cgt_cnt (l + 2) in
        let g' = stmt-Grown e true o b body h.1 d.cgt d.label in
        two_labels _ s (omega (arith, g.labels, g'.labels))
        ∙ set_loop _ (l + 2) (l + 1) _ (omega arith) (omega arith)
        ∙ bind_some (cond_to_3a e (l + 2) (expr_to_3a e cond)) _
            (cond_lem e (l + 2) cond h.0 s1 (omega (arith, g'.cgts)) (omega (arith, g'.labels)))
            refl
        ∙ bind_some (stmt_to_3a e o body) _
            (stmt-Appends true o body h.1 (behind s1 d) (omega arith, omega arith) i j) refl
        ∙ finish s _ _ (simp (append_assoc))
    stmt-Appends loop o (if_stmt cond body more) h s k = λ i j.
        let l = s.label_cnt in
        let m = after_branch more (l + 1) in
        let n = branch_label more (l + 1) (l + 1) in
        let d = cond_piece e n cond s.cgt_cnt m in
        let a = stmt_piece e o s.loop_branches body d.cgt d.label in
        let g = cond-Grown e n cond h.0 s.cgt_cnt m in
        let g' = stmt-Grown e loop o s.loop_branches body h.1 d.cgt d.label in
        let g'' = branches-Grown e loop o s.loop_branches more h.2 (l + 1) n a.cgt a.label in
        let s1 = record s { label_cnt = m } in
        one_label _ s
          (omega (arith, g.labels, g'.labels, g''.labels, after_branch-le e more (l + 1)))
        ∙ next_branch_lem e _ more (l + 1) _ (omega (arith, g.labels, g'.labels, g''.labels))
        ∙ bind_some (if_branch_to_3a e (expr_to_3a e cond) (stmt_to_3a e o body) (l + 1) n) _
            (branch_lem e cond (stmt_to_3a e o body) a (l + 1) n s1 h.0
              (omega (arith, g'.cgts, g''.cgts)) (omega (arith, g'.labels, g''.labels))
              (stmt-Appends loop o body h.1 (behind s1 d) k (omega (arith, g''.cgts))
                (omega (arith, g''.labels))))
            refl
        ∙ bind_some (branches_to_3a e o more (l + 1) n) _
            (branches-Appends loop o more h.2 (l + 1) n
              (behind s1 (piece (d.code ++ (a.code ++ branch_end e (l + 1) n)) a.cgt a.label)) k i
              j)
            refl
        ∙ finish s _ _ (simp (append_assoc))
    stmt-Appends loop o (let_stmt v x) h s k = let_lem e o v x h s
    stmt-Appends loop o (for_stmt init cond step body) h s k = λ i j.
        let l = s.label_cnt in
        let b = loop_labels (l + 3) (l + 2) in
        let s1 = record s { label_cnt = l + 3; loop_branches = b } in
        let a = stmt_piece e o b init s.cgt_cnt (l + 3) in
        let s2 = record (behind s1 a) {
          quads = (s.quads ++ a.code) ++ (label_quad (l + 1) ∷ []);
        } in
        let d = for_cond_piece e (l + 3) cond a.cgt a.label in
        let s3 = behind s2 d in
        let p = stmt_piece e o b body d.cgt d.label in
        let s4 = record (behind s3 p) {
          quads = (s3.quads ++ p.code) ++ (label_quad (l + 2) ∷ []);
        } in
        let g1 = stmt-Grown e true o b init h.0 s.cgt_cnt (l + 3) in
        let g2 = for_cond-Grown e (l + 3) cond h.1 a.cgt a.label in
        let g3 = stmt-Grown e true o b body h.3 d.cgt d.label in
        let g4 = stmt-Grown e true o b step h.2 p.cgt p.label in
        three_labels _ s (omega (arith, g1.labels, g2.labels, g3.labels, g4.labels))
        ∙ set_loop _ (l + 3) (l + 2) _ (omega arith) (omega arith)
        ∙ bind_some (stmt_to_3a e o init) _
            (stmt-Appends true o init h.0 s1 (omega arith, omega arith)
              (omega (arith, g2.cgts, g3.cgts, g4.cgts))
              (omega (arith, g2.labels, g3.labels, g4.labels)))
            refl
        ∙ bind_some
            (if is_empty cond
              then stmt_to_3a e o cond
              else cond_to_3a e (l + 3) (stmt_to_3a e o cond))
            _
            (for_cond_lem e o (l + 3) cond h.1 s2 (omega (arith, g3.cgts, g4.cgts))
              (omega (arith, g3.labels, g4.labels)))
            refl
        ∙ bind_some (stmt_to_3a e o body) _
            (stmt-Appends true o body h.3 s3 (omega arith, omega arith) (omega (arith, g4.cgts))
              (omega (arith, g4.labels)))
            refl
        ∙ bind_some (stmt_to_3a e o step) _
            (stmt-Appends true o step h.2 s4 (omega arith, omega arith) i j) refl
        ∙ finish s _ _ (simp (append_assoc))
    stmt-Appends loop o (expr_stmt x) h s k = (expr-Part e x h).emits s
    stmt-Appends loop o break_stmt h s k =
        λ i j. jump_lem e (λ b. b.b_loop_out) s (subst (λ b. LoopSet b s.loop_branches) h k).0
    stmt-Appends loop o continue_stmt h s k =
        λ i j. jump_lem e (λ b. b.b_loop_iter_ends) s (subst (λ b. LoopSet b s.loop_branches) h k).1
    stmt-Appends loop o (return_stmt x) h s k = return_lem e x h s
    stmt-Appends loop o (compound_stmt scope ss) h s k = stmts-Appends loop scope ss h s k
    stmt-Appends loop o (namespace_stmt body) h s k = stmt-Appends loop o body h s k

    stmts-Appends :
        (loop o : Bool) (x : Stmts)
        → StmtsValid e loop x
        → (s : Gen) → LoopSet loop s.loop_branches
        → Appends (stmts_to_3a e o x) (stmts_piece e o s.loop_branches x s.cgt_cnt s.label_cnt) s
    stmts-Appends loop o no_stmts h s k = λ i j. finish s _ _ (sym (append-nil s.quads))
    stmts-Appends loop o (stmt_then x ss) h s k = λ i j.
        let a = stmt_piece e o s.loop_branches x s.cgt_cnt s.label_cnt in
        let g = stmts-Grown e loop o s.loop_branches ss h.1 a.cgt a.label in
        bind_some (stmt_to_3a e o x) _
          (stmt-Appends loop o x h.0 s k (omega (arith, g.cgts)) (omega (arith, g.labels))) refl
        ∙ stmts-Appends loop o ss h.1 (behind s a) k i j
        ∙ finish s _ _ (append_assoc s.quads _ _)

    branches-Appends :
        (loop o : Bool) (x : Branches)
        → BranchesValid e loop x
        → (t n : ℕ) (s : Gen) → LoopSet loop s.loop_branches
        → Appends
            (branches_to_3a e o x t n)
            (branches_piece e o s.loop_branches x t n s.cgt_cnt s.label_cnt)
            s
    branches-Appends loop o no_branch h t n s k = λ i j. finish s _ _ (sym (append-nil s.quads))
    branches-Appends loop o (else_branch x) h t n s k = λ i j.
        stmt-Appends loop o x h (record s { quads = s.quads ++ (label_quad n ∷ []) }) k i j
        ∙ finish s _ _ (simp (append_assoc))
    branches-Appends loop o (elif_branch cond body more) h t n s k = λ i j.
        let l = s.label_cnt in
        let m = after_branch more l in
        let r = branch_label more t l in
        let d = cond_piece e r cond s.cgt_cnt m in
        let a = stmt_piece e o s.loop_branches body d.cgt d.label in
        let g = cond-Grown e r cond h.0 s.cgt_cnt m in
        let g' = stmt-Grown e loop o s.loop_branches body h.1 d.cgt d.label in
        let g'' = branches-Grown e loop o s.loop_branches more h.2 t r a.cgt a.label in
        let s1 = record s { quads = s.quads ++ (label_quad n ∷ []); label_cnt = m } in
        next_branch_lem e _ more t _ (omega (arith, g.labels, g'.labels, g''.labels))
        ∙ bind_some (if_branch_to_3a e (expr_to_3a e cond) (stmt_to_3a e o body) t r) _
            (branch_lem e cond (stmt_to_3a e o body) a t r s1 h.0 (omega (arith, g'.cgts, g''.cgts))
              (omega (arith, g'.labels, g''.labels))
              (stmt-Appends loop o body h.1 (behind s1 d) k (omega (arith, g''.cgts))
                (omega (arith, g''.labels))))
            refl
        ∙ branches-Appends loop o more h.2 t r
            (behind s1 (piece (d.code ++ (a.code ++ branch_end e t r)) a.cgt a.label)) k i j
        ∙ finish s _ _ (simp (append_assoc))

-- The translation of a valid statement succeeds, in a loop whose labels are set or outside, unless a
-- counter would wrap: it appends exactly the code that `stmt_piece` gives for the statement, the
-- counters and the labels of the enclosing loop, leaves the counters where `stmt_piece` says, and leaves
-- the labels of the enclosing loop as they were.
pub stmt_to_3a-piece :
    (e : Env) (loop outer : Bool) (x : Stmt) (s : Gen)
    → StmtValid e loop x
    → LoopSet loop s.loop_branches
    → (stmt_piece e outer s.loop_branches x s.cgt_cnt s.label_cnt).cgt < 2 ^ 64
    → (stmt_piece e outer s.loop_branches x s.cgt_cnt s.label_cnt).label < 2 ^ 26
    → (s' : Gen) × (stmt_to_3a e outer x s ≡ some (tt, s'))
      × (s'.quads ≡ s.quads ++ (stmt_piece e outer s.loop_branches x s.cgt_cnt s.label_cnt).code)
      × (s'.cgt_cnt ≡ (stmt_piece e outer s.loop_branches x s.cgt_cnt s.label_cnt).cgt)
      × (s'.label_cnt ≡ (stmt_piece e outer s.loop_branches x s.cgt_cnt s.label_cnt).label)
      × (s'.loop_branches ≡ s.loop_branches)
stmt_to_3a-piece e loop outer x s h k i j = (
  behind s (stmt_piece e outer s.loop_branches x s.cgt_cnt s.label_cnt),
  stmt-Appends e loop outer x h s k i j,
  refl,
  refl,
  refl,
  refl,
)
