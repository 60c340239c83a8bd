-- ===== src/Lib.antt =====
-- revng-c: the beautification passes over the GHAST, the tree of C-like statements that the
-- restructuring of a function's control-flow graph produces (lib/RestructureCFG), the types and
-- checks of Clift, the dialect for C (lib/mlir/Dialect/Clift/IR); and the parentheses of the expressions
-- that are printed (lib/Canonicalize, lib/Backend).
--
-- A GHAST is built once and then rewritten by a sequence of passes before C is printed from it. Each
-- pass has to leave alone what the program does. This library models the passes, and gives a GHAST a
-- meaning by which they are judged. A Clift module is checked when it is built or read. The checks are
-- judged by rules for what they are to accept, and the text of operations by whether it is read back.
--
-- Files
--   Prelude           names of the libraries, Boolean tests, the conditional, optional results
--   Ghast             the data: Expr (include/revng-c/RestructureCFG/ExprNode.h), Node (ASTNode.h);
--                     Equality (isEqual, ASTNode.cpp); Everywhere (a predicate at every node);
--                     Identity (a node's address); Children (removal of a child)
--   Semantics         what a GHAST does on a machine, by fuel; Congruence: equal parts give equal wholes
--   Beautify/CompareNode        simplifyCompareNode (lib/RestructureCFG/SimplifyCompareNode.cpp)
--   Beautify/EmptyThen          flipEmptyThen (lib/RestructureCFG/ASTNodeUtils.cpp)
--   Beautify/LoopVariable       needsLoopVar (ASTNodeUtils.cpp)
--   Beautify/Sequences          collapseSequences (ASTNodeUtils.cpp)
--   Beautify/AtomicSequence     simplifyAtomicSequence (ASTNodeUtils.cpp)
--   Beautify/Canonical          canonicalize, the three passes EmptyThen, Sequences and
--                               AtomicSequence in a row (ASTNodeUtils.cpp)
--   Beautify/ImplicitStatement  simplifyImplicitContinue and simplifyImplicitReturn
--                               (lib/RestructureCFG/SimplifyImplicitStatement.cpp)
--   Beautify/ShortCircuit       hasSideEffects and the reductions of simplifyShortCircuit
--                               (lib/RestructureCFG/BeautifyGHAST.cpp), a client of Equality; Trivial,
--                               Reduced and Repeated: simplifyTrivialShortCircuit
--   Beautify/MatchSwitch        matchSwitch (BeautifyGHAST.cpp)
--   Beautify/DoWhile            matchDoWhile (lib/RestructureCFG/BeautifyGHAST.cpp)
--   Beautify/While              matchWhile and addComputationToContinue (BeautifyGHAST.cpp)
--   Beautify/Weight             computeCumulativeNodeWeight (BeautifyGHAST.cpp); Points: the sum it is
--                               compared with
--   Beautify/Promotion          promoteNoFallthroughIf (BeautifyGHAST.cpp), a client of FallThrough's
--                               map, of Weight and of Sequences
--   Beautify/CallNoReturn       promoteCallNoReturn (PromoteCallNoReturn.cpp), a client of FallThrough's
--                               map and of Canonical
--   Beautify/DualSwitch         simplifyDualSwitch (SimplifyDualSwitch.cpp)
--   Beautify/SwitchBreaks       SwitchBreaksFixer (BeautifyGHAST.cpp)
--   Beautify/Dispatcher         containsSet and containsContinueOrBreak (InlineDispatcherSwitch.cpp)
--   Beautify/HybridNot          simplifyHybridNot (SimplifyHybridNot.cpp). Branches: the flips in LLVM IR;
--                               Agreed: the consensus; Preserves: the GHAST over its blocks
--   Beautify/FallThrough        computeFallThroughScope (FallThroughScopeAnalysis.cpp)
--   Beautify/DeadCode           removeDeadCode (RemoveDeadCode.cpp), a client of FallThrough's map
--   Clift             the Clift dialect, in include/revng-c/mlir/Dialect/Clift/IR and lib/mlir/Dialect/Clift/IR:
--     Clift/Types       the types (CliftTypes.td, CliftAttributes.td), typedefs and `const`
--                       (CliftTypes.cpp); children: Qualifiers (const), Typedefs (chains of typedefs)
--     Clift/Kinds       the questions on types, such as isObjectType (CliftTypes.cpp)
--     Clift/Signature   printCliftOpTypes and parseCliftOpTypes (CliftOps.cpp)
--     Clift/Calls       CallOp: verify, print and parse (CliftOps.cpp)
--     Clift/Casts       CastOp::verify (CliftOps.cpp), a client of Kinds and of the sizes of types
--     Clift/Classes     structs and unions: storage (CliftStorage.h), sizes and checks
--                       (CliftAttributes.cpp)
--     Clift/Recursion   the search of ModuleValidator for classes that hold themselves (CliftOps.cpp)
--     Clift/Statements  the check of ModuleValidator on break, continue and return (CliftOps.cpp)
--   Precedence        OperatorPrecedenceResolutionPass (lib/Canonicalize): which operands get parentheses.
--                     Printing: the printing of expressions (getInstructionToken and what it calls, in
--                     lib/Backend/DecompileFunction.cpp); Grammar: the expressions of C; Levels and
--                     Operands: the pass's table against the levels of C; Places: where an operand
--                     stands; Starts: how a text starts; Faithful: what is printed is read again;
--                     Misread: what is read as something else
--   Tests             the properties at concrete GHASTs, types, statements and expressions
--
-- How the code is represented. A node of the GHAST is a value that carries a number for its address;
-- the null pointer is `null`. The mutation of a child in place is the construction of a new parent. The
-- vector of a sequence and that of the labelled cases of a switch are list types of their own, since
-- a node holds a list of nodes. A failed assertion and a failed look-up give `none`. Unsigned
-- arithmetic wraps around at 2 ^ 32, written out. Nodes that a pass allocates are numbered by a counter.
--
-- The meaning. `Machine` says what a basic block does to a state, what its terminator reads, and how it
-- ends; these come from LLVM IR, which is not in the repository, and are parameters, as is the part of
-- the revng model that the analysis reads (`Binary`). `exec` runs a GHAST with fuel that bounds the
-- rounds of each loop, where `none` stands for exhausted fuel; the fuel is a variable of every
-- statement about `exec`, so no bound is chosen. For simplifyHybridNot, which changes LLVM IR as well, the
-- machine is laid over the branches (`Ir`) before or after the pass. The passes themselves are structural
-- and take no fuel, but for simplifyTrivialShortCircuit, which visits again what it has reduced: as much
-- fuel as there are nodes is enough. In `exec` a `while` computes its condition before each round. The
-- printed text does so before the loop and at each `continue` with a computation (NK_Continue and NK_Scs in
-- lib/Backend/DecompileFunction.cpp); the computation of a `continue` is not run by `exec` and is followed in
-- While/Carried and While/Computed.
--
-- Clift. A type is a value, since types are unique in a context; a struct, a union or a scalar tuple is
-- an ID, and what it consists of is looked up in a `Context`. Sizes wrap around at 2 ^ 64. The size of
-- a type and the search for recursive classes are not structural and take fuel; a rank of the classes is
-- enough, and there are contexts for which no fuel is. The text of a single type is MLIR's and is one
-- token. A check that emits an error answers `false`; one that runs into an assertion, `none`.
--
-- Expressions. A `Value` is an LLVM instruction as the pass and the printer tell it apart; LLVM's values
-- and the tags of the called functions are its constructors. Identifiers, types and members are numbers,
-- and a text is a list of tokens. Indices in square brackets are part of a suffix, and their text is not
-- followed. Statements, assignments, and the text of numbers and strings are left out.
--
-- Not modelled: in BeautifyGHAST.cpp the visit of simplifyShortCircuit, which goes on with an old inner
-- `if` whose nodes the recursive call has changed, and so the order of the passes; in
-- InlineDispatcherSwitch.cpp the inlining and simplifySwitchBreak, which relate loops and switches by
-- address across the tree; the restructuring itself; the ownership of nodes (ASTTree) and the Graphviz
-- output; of Clift the import from the revng model, the text of composite types, and the checks on labels
-- and on the other expressions; the rest of the repository, which works on LLVM IR or the revng model, or
-- prints C.
pub mod Prelude
pub mod Ghast
pub mod Semantics
pub mod Beautify
pub mod Clift
pub mod Precedence
pub mod Tests
