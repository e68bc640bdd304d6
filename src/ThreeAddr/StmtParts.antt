-- ===== src/ThreeAddr/StmtParts.antt =====
-- The translation of a statement appends the code of StmtCode, and leaves the labels of the enclosing
-- loop as they were.
use nnc.Common.{
  ℕ, ◌+◌, ◌%◌, ◌^◌, ◌<◌, ◌≡◌, ◌∙◌, refl, sym, ap, arith, Bool, true, false, if◌then◌else◌, ◌==◌,
  List, [], ◌∷◌, ◌++◌, Option, none, some,
}
use mathlib.Core.List.{append_assoc, append-nil}
use nnc.ThreeAddr.{
  Quad, Env, LoopBranches, Gen, M, ◌>>=◌, ret, next_label, label_field, mklabel, quads_add,
}
use nnc.ThreeAddr.Exprs.{Ident, Expr, value}
use nnc.ThreeAddr.Translate.{expr_to_3a}
use nnc.ThreeAddr.Spec.{Valid}
use nnc.ThreeAddr.Emits.{two_labels, bind_some, operand, mod_small}
use nnc.ThreeAddr.Stmts.{
  Stmt, empty_stmt, expr_stmt, Branches, no_branch, else_branch, elif_branch, is_empty, jump_quad,
  restore_loop_branches, set_loop_branches, cond_to_3a, if_branch_to_3a, next_branch,
  let_stmt_to_3a, jump_out, return_stmt_to_3a, stmt_to_3a,
}
use nnc.ThreeAddr.StmtCode.{
  Piece, piece, cond_piece, for_cond_piece, branch_end, after_branch, branch_label, let_piece,
  return_piece, loop_labels, OptionValid, CondValid,
}
use nnc.ThreeAddr.StmtGrows.{expr-Part}

abbrev pub behind : Gen → Piece → Gen
behind s p = record s { quads = s.quads ++ p.code; cgt_cnt = p.cgt; label_cnt = p.label }

-- A translation appends a piece, if no counter wraps.
abbrev pub Appends : M (Unit {0}) → Piece → Gen → Type 0
Appends a p s = p.cgt < 2 ^ 64 → p.label < 2 ^ 26 → a s ≡ some (tt, behind s p)

-- The labels of the enclosing loop are set, if there is one.
unfoldable pub LoopSet : Bool → LoopBranches → Type 0
LoopSet true b = (0 < b.b_loop_out) × (0 < b.b_loop_iter_ends)
LoopSet false b = Unit {0}

pub finish :
    (s : Gen) (c l : ℕ) {qs qs' : List Quad}
    → qs ≡ qs'
    → ◌≡◌ {A = Option (Unit {0} × Gen)}
        (some (tt, record s { quads = qs; cgt_cnt = c; label_cnt = l }))
        (some (tt, record s { quads = qs'; cgt_cnt = c; label_cnt = l }))
finish s c l e = ap (λ qs. some (tt, record s { quads = qs; cgt_cnt = c; label_cnt = l })) e

pub one_label :
    (f : ℕ → M (Unit {0})) (s : Gen)
    → s.label_cnt + 1 < 2 ^ 26
    → (mklabel >>= f) s ≡ f (s.label_cnt + 1) (record s { label_cnt = s.label_cnt + 1 })
unfolding mklabel next_label label_field
one_label f s h =
    ap (λ n. f (n % 2 ^ 26) (record s { label_cnt = n }))
      (mod_small (s.label_cnt + 1) (2 ^ 32) (omega arith))
    ∙ ap (λ n. f n (record s { label_cnt = s.label_cnt + 1 }))
        (mod_small (s.label_cnt + 1) (2 ^ 26) h)

pub three_labels :
    (f : ℕ → ℕ → ℕ → M (Unit {0})) (s : Gen)
    → s.label_cnt + 3 < 2 ^ 26
    → (do x ← mklabel; y ← mklabel; z ← mklabel; f x y z) s
      ≡ f
          (s.label_cnt + 1)
          (s.label_cnt + 2)
          (s.label_cnt + 3)
          (record s { label_cnt = s.label_cnt + 3 })
three_labels f s h =
    two_labels (λ x y. mklabel >>= f x y) s (omega arith)
    ∙ one_label (f _ _) _ (omega arith)
    ∙ ap (λ n. f (s.label_cnt + 1) (s.label_cnt + 2) n (record s { label_cnt = n })) (omega arith)

-- A loop's labels replace those of the loop around it.
pub set_loop :
    (f : LoopBranches → M (Unit {0})) (n m : ℕ) (s : Gen)
    → 0 < n
    → 0 < m
    → (set_loop_branches n m >>= f) s
      ≡ f s.loop_branches (record s { loop_branches = loop_labels n m })
unfolding set_loop_branches restore_loop_branches
set_loop f n m s h i = ground arith

module _ (e : Env) where
  pub cond_lem :
      (out : ℕ) (x : Expr)
      → Valid e value x
      → (s : Gen)
      → Appends (cond_to_3a e out (expr_to_3a e x)) (cond_piece e out x s.cgt_cnt s.label_cnt) s
  unfolding quads_add
  cond_lem out x h s i j =
      operand _ s (expr-Part e x h) i j ∙ finish s _ _ (append_assoc s.quads _ _)

  pub let_lem :
      (o : Bool) (v : Ident) (x : Option Expr)
      → OptionValid e x
      → (s : Gen) → Appends (let_stmt_to_3a e o v x) (let_piece e o v x s.cgt_cnt s.label_cnt) s
  unfolding quads_add let_stmt_to_3a
  let_lem true v x h s i j = finish s _ _ (sym (append-nil s.quads))
  let_lem false v none h s i j = refl
  let_lem false v (some x) h s i j =
      operand _ _ (expr-Part e x h) i j ∙ finish s _ _ (simp (append_assoc))

  pub return_lem :
      (x : Option Expr)
      → OptionValid e x
      → (s : Gen) → Appends (return_stmt_to_3a e x) (return_piece e x s.cgt_cnt s.label_cnt) s
  unfolding quads_add return_stmt_to_3a
  return_lem none h s i j = refl
  return_lem (some x) h s i j =
      operand _ _ (expr-Part e x h) i j ∙ finish s _ _ (simp (append_assoc))

  pub jump_lem :
      (which : LoopBranches → ℕ) (s : Gen)
      → 0 < which s.loop_branches
      → jump_out e which s
        ≡ some
            (tt, behind s (piece (jump_quad e (which s.loop_branches) ∷ []) s.cgt_cnt s.label_cnt))
  unfolding quads_add jump_out
  jump_lem which s h = ground arith

  pub next_branch_lem :
      (f : ℕ → M (Unit {0})) (more : Branches) (b : ℕ) (s : Gen)
      → after_branch more s.label_cnt < 2 ^ 26
      → (next_branch more b >>= f) s
        ≡ f
            (branch_label more b s.label_cnt)
            (record s { label_cnt = after_branch more s.label_cnt })
  next_branch_lem f no_branch b s h = refl
  next_branch_lem f (else_branch x) b s h = one_label f s h
  next_branch_lem f (elif_branch x y m) b s h = one_label f s h

  -- A branch whose body appends the piece `p` behind the condition.
  pub branch_lem :
      (x : Expr) (body : M (Unit {0})) (p : Piece) (b_true b_next : ℕ) (s : Gen)
      → Valid e value x
      → (cond_piece e b_next x s.cgt_cnt s.label_cnt).cgt < 2 ^ 64
      → (cond_piece e b_next x s.cgt_cnt s.label_cnt).label < 2 ^ 26
      → body (behind s (cond_piece e b_next x s.cgt_cnt s.label_cnt))
        ≡ some (tt, behind (behind s (cond_piece e b_next x s.cgt_cnt s.label_cnt)) p)
      → if_branch_to_3a e (expr_to_3a e x) body b_true b_next s
        ≡ some (
          tt,
          behind s (
              piece
                ((cond_piece e b_next x s.cgt_cnt s.label_cnt).code
                  ++ (p.code ++ branch_end e b_true b_next))
                p.cgt
                p.label),
        )
  unfolding if_branch_to_3a quads_add
  branch_lem x body p b_true b_next s v i j h =
      let d = cond_piece e b_next x s.cgt_cnt s.label_cnt in
      bind_some (cond_to_3a e b_next (expr_to_3a e x)) _ (cond_lem b_next x v s i j) refl
      ∙ bind_some body _ h refl
      ∙ by_case (b_true == b_next) d
    where
      by_case :
          (b : Bool) (d : Piece)
          → (if b then ret tt else quads_add (jump_quad e b_true)) (behind (behind s d) p)
            ≡ some (
              tt,
              behind s (
                  piece
                    (d.code ++ (p.code ++ (if b then [] else jump_quad e b_true ∷ [])))
                    p.cgt
                    p.label),
            )
      by_case true d = finish s _ _ (simp (append_assoc, append-nil))
      by_case false d = finish s _ _ (simp (append_assoc))

  pub for_cond_lem :
      (o : Bool) (out : ℕ) (x : Stmt)
      → CondValid e x
      → (s : Gen)
      → Appends
          (if is_empty x then stmt_to_3a e o x else cond_to_3a e out (stmt_to_3a e o x))
          (for_cond_piece e out x s.cgt_cnt s.label_cnt)
          s
  unfolding stmt_to_3a
  for_cond_lem o out empty_stmt h s = λ i j. finish s _ _ (sym (append-nil s.quads))
  for_cond_lem o out (expr_stmt x) h s = cond_lem out x h s
  for_cond_lem o out x h s = absurd h
