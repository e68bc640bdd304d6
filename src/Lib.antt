-- ===== src/Lib.antt =====
-- A verification of nnc, a compiler that turns its language into x86_64 assembly (C, directory
-- src).
--
-- Parts. Every dynamic block of the compiler comes from one arena; the hash map stands on it and
-- holds keywords, symbols, types and live ranges. Literals are read from lexemes. The type checker
-- decides on types, which the parser and the resolver build. Both report errors as exceptions,
-- which a stack of saved contexts implements. From the checked tree the compiler generates
-- three-address code: quads over names, constants and numbered temporaries, with labels to jump to.
--
-- Files. Common has the shared names. Arena models src/nnc_arena.c: its record has the fields of
-- `nnc_arena` and `entries` gives the pointer in each slot; `alloc`, `dispose`, `push`, `zip`,
-- `grow`, `flush`, `init` and `fini` are the functions of these names behind their prefix. Hash has
-- the two hash functions and the key comparison of src/nnc_map.c, Map its other functions (`put`,
-- `rehash`, `pop`, `get`, `has`, `init`), over a list of chains in place of linked buckets. Types
-- has the kinds and types of src/nnc_type.h with the classification of src/nnc_typecheck.c, Casts
-- the implicit and explicit casts of that file, Casts.Widening describes the arithmetic ones by the
-- widths and signs of numbers, and Infer its inference for binary and ternary
-- operators, each by the function's name behind its prefix. Literal models the character and string
-- literals of src/nnc_literal.c, Literal.Ints the integral ones; Literal.Buffer is about the buffer of
-- a string. TryCatch models
-- src/nnc_try_catch.c and runs blocks of its macros, and TryCatch.Structured says what these mean.
-- Lex models src/nnc_lex.c, each function by its name behind `nnc_lex_`; `nnc_lex_grab_ident` is
-- `grab_word` with `word_kind`, and `init_keywords` the part of `nnc_lex_init_with_fp` that fills
-- the map.
-- SymTable models src/nnc_symtable.c, each function by its name behind `nnc_` or `nnc_st_`,
-- over the maps of Map.
-- ThreeAddr has the quads of src/nnc_3a.h and the state of the generator in src/nnc_3a.c; its Exprs
-- and Translate have the translation of expressions, each function by its name behind `nnc_`, and
-- `to_3a` both `nnc_expr_to_3a` and, in the mode `lvalue`, `nnc_lval_expr_to_3a`. ThreeAddr.Machine
-- runs quads, ThreeAddr.Meaning says what expressions mean, and ThreeAddr.Emit with ThreeAddr.Spec
-- gives the code as a function of the expression and the counters. ThreeAddr.Stmts has the
-- translation of statements, ThreeAddr.StmtCode the code as a function of the statement.
-- The Tests modules apply the theorems at concrete values.
--
-- Types. A type is a tree along `base`, parameters and result, so that the loops along `base` are
-- structural recursion; a cycle of aliases is not modelled. The recursion between
-- `nnc_can_imp_cast_assign` and `nnc_can_imp_cast_fns` is mutual on the type that is cast from. A
-- thrown NNC_SEMANTIC is the result `semantic`.
--
-- Memory. The answers of `malloc`, `calloc` and `realloc` are arguments of the arena's operations. A map
-- that misses a key in `get` ends in a read through NULL or a failed assertion, which are two results.
--
-- Literals. A lexeme is a list of character codes, and the buffer of a string literal has the room that
-- `nnc_str_new` allocates; an abort, the exception NNC_OVERFLOW and an
-- access outside a buffer are results of their own. `strtoll` and `strtoull` are arguments, and
-- what the C library documents of them is the hypothesis IsConversion.
--
-- Lexer. The file is the list of its bytes that are left, and a loop over `fgetc` is structural
-- recursion along it. A character is its 8-bit pattern, so that EOF and the byte 255 are one, as
-- they are for the signed `char` of the source. `ungetc` is taken to succeed, also for a second
-- character in a row. A thrown exception is a result with the state at the throw, which `next`
-- recovers from. The lexeme is what was put since the buffer was cleared; a write behind its 512
-- bytes is a fault. The search for a keyword takes the lexeme by its contents, also where it fills
-- the buffer to the last byte and no terminating zero is left; what is said of a literal's lexeme asks
-- for one that is shorter than the buffer. A keyword's kind is its place in the table.
--
-- Symbol table. The loops along `root` are recursion along the list of scopes, and the search of
-- the branches is recursion on the tree below a table. A symbol and a type are their records.
--
-- Three-address code. The generator's static variables are its state; an abort or a failed assert is
-- `none`. An expression carries its types, as the checker leaves them. The machine's arithmetic,
-- casts, loads, stores and addresses are arguments: what the code generator makes of them is not
-- looked at. A copy keeps the number; only a store may cut it. The meaning of an expression looks
-- through an alias of a pointer type, which the code does not; ThreeAddr.Direct has the condition under
-- which the two agree. The branches of an `if` behind the
-- first are a list that ends with the `else`, if there is one.
--
-- Exceptions. `setjmp` names a context by the number of TRY bodies around it, and `longjmp` returns
-- to the TRY of that name. Blocks are finite, so that their run is structural recursion.
--
-- Fuel. `Map.put` and `Map.rehash` call each other; the fuel bounds the depth. On a valid map of
-- four chains or more a rehash makes only puts that find room, so that 2 is enough. `Lex.next`
-- calls itself behind a comment and behind an error; each time at least one byte has been read, so
-- that more rounds than bytes are left are enough.
--
-- Bounds. Numbers are natural; sums of `uint64_t` are reduced modulo 2 ^ 64. The comparisons of a
-- load with 0.15 and 0.7, made in doubles, are written as comparisons of integers. They agree with the
-- doubles for an arena below 2 ^ 53 slots and a map below 2 ^ 49 chains; beyond these sizes, which some
-- theorems do not exclude, the comparison of integers is what is meant.
--
-- Not modelled. The contents of blocks, the iteration of a map by a callback and the release of its
-- memory, RETHROW and the texts of exceptions, the members of structs and enumerations, the types
-- of literals, names and unary operators, floating literals, which rest on doubles, the opening and
-- closing of files, the texts of messages, and the parser, resolver and code generator. Of the three-address
-- code: names in namespaces, members, indexing, calls, lengthof, string and float literals, what the
-- code of statements computes, and the passes behind the generator.
pub mod Common
pub mod Arena
pub mod Hash
pub mod Map
pub mod Types
pub mod Casts
pub mod Infer
pub mod Literal
pub mod TryCatch
pub mod Lex
pub mod SymTable
pub mod ThreeAddr
