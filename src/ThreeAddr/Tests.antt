-- ===== src/ThreeAddr/Tests.antt =====
-- Translations of concrete expressions by src/nnc_3a.c.
use nnc.Common.{ℕ, ◌+◌, ◌*◌, ◌%◌, ◌^◌, ◌≤◌, ◌<◌, ◌≡◌, refl, arith, ltb, List, [], ◌∷◌, ◌++◌, some}
use nnc.Types.{Ty, leaf, ptr_ty, leaf_i32, leaf_i8, arr_or_ptr_type, incomplete_type, unalias}
use nnc.Infer.{binary_assign, binary_add, binary_lt, binary_or}
use nnc.SymTable.{ident_default}
use nnc.ThreeAddr.{Op, Env, Gen, op_add, op_mul}
use nnc.ThreeAddr.Exprs.{unary_deref, Expr, ident, int_lit, unary, binary, ternary, value}
use nnc.ThreeAddr.Translate.{to_3a}
use nnc.ThreeAddr.Emit.{type_of}
use nnc.ThreeAddr.Spec.{emit, Valid}
use nnc.ThreeAddr.Machine.{Machine, Mem, put}
use nnc.ThreeAddr.Meaning.{eval_with, eval}
use nnc.ThreeAddr.Direct.{Direct}
use nnc.ThreeAddr.Emits.{after}
use nnc.ThreeAddr.Labels.{count}
use nnc.ThreeAddr.Correct.{Labelled, Evaluates, to_3a-emit, to_3a-Labelled, to_3a-Evaluates}

abbrev env : Env
env = record { statics = record { addr = λ k. 0 }; size = λ t. 4 }

abbrev i32 : Ty
i32 = leaf 1 leaf_i32

-- Words in a memory of numbers, with a name's first character as its address.
abbrev bin_value : Op → ℕ → ℕ → ℕ
bin_value op_add a b = (a + b) % 2 ^ 32
bin_value op_mul a b = (a * b) % 2 ^ 32
bin_value _ a b = 0

abbrev first_char : List ℕ → ℕ
first_char [] = 0
first_char (n ∷ ns) = n

abbrev words : Machine
words = record {
  bin = λ o t a b. bin_value o a b;
  un = λ o t a. a;
  cast = λ t u a. a;
  less = λ t a b. ltb a b;
  address = λ c n. first_char n;
  load = λ t a m. m a;
  store = λ t a n m. put m a n;
}

abbrev variable_of : ℕ → Ty → Expr
variable_of n t =
    ident
      (record { ictx = ident_default; name = n ∷ []; type = t; init_const = 0; enum_type = i32 })

-- x = a < b || c ? a + 1 : *p
abbrev choice : Expr
choice =
    binary binary_assign (variable_of 120 i32)
      (ternary
        (binary binary_or
          (binary binary_lt (variable_of 97 i32) (variable_of 98 i32) (leaf 0 leaf_i8))
          (variable_of 99 i32) (leaf 0 leaf_i8))
        (binary binary_add (variable_of 97 i32) (int_lit 1 i32) i32)
        (unary unary_deref (variable_of 112 (ptr_ty 2 i32)) i32) i32)
      i32

choice-Valid : Valid env value choice
unfolding Valid type_of arr_or_ptr_type incomplete_type unalias
choice-Valid = (refl, tt, (((tt, tt), tt), (tt, tt, tt), tt))

choice-Direct : Direct env value choice
unfolding Direct type_of arr_or_ptr_type unalias
choice-Direct = (refl, tt, tt, ((tt, tt, (tt, tt, tt, tt), tt), (tt, tt, tt, tt), (tt, tt)))

abbrev start : Gen
start = record {
  quads = [];
  cgt_cnt = 0;
  label_cnt = 0;
  loop_branches = record { b_loop_out = 0; b_loop_iter_ends = 0 };
}

-- a = 3, b = 2, c = 0, and p points to the cell 7 that holds 41.
abbrev cells : Mem
cells = put (put (put (put (λ a. 0) 97 3) 98 2) 112 7) 7 41

start-Labelled : Labelled start
unfolding count
start-Labelled = record { once = λ n h. omega arith; counted = λ n h. refl }

choice_cgts : (emit env value choice 0 0).cgt < 2 ^ 64
unfolding emit type_of
choice_cgts = omega arith

choice_labels : (emit env value choice 0 0).label < 2 ^ 26
unfolding emit type_of
choice_labels = omega arith

choice_value : (eval env words value choice cells).0 ≡ 41
unfolding eval_with type_of
choice_value = refl

to_3a-emit_example :
    to_3a env value choice start ≡ some (tt, after start (emit env value choice 0 0))
to_3a-emit_example = to_3a-emit env value choice start choice-Valid choice_cgts choice_labels

to_3a-Labelled_example : (s : Gen) × (to_3a env value choice start ≡ some (tt, s)) × Labelled s
to_3a-Labelled_example =
    to_3a-Labelled env value choice start choice-Valid choice_cgts choice_labels start-Labelled

choice_once : (n : ℕ) → 0 < n → count n ([] ++ ((emit env value choice 0 0).code ++ [])) ≤ 1
unfolding count emit type_of
choice_once n h = ground arith

to_3a-Evaluates_example :
    Evaluates env words value choice start [] cells (λ i. 0) (eval env words value choice)
to_3a-Evaluates_example =
    to_3a-Evaluates env value choice start choice-Valid words [] cells (λ i. 0) choice-Direct
      choice_cgts choice_labels choice_once
