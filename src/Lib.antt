-- ===== src/Lib.antt =====
-- The factor engine evaluates rule expressions over the values of factors. An expression is bound to a
-- registry of factors, which checks types; the bound expression is evaluated directly, or it is folded
-- and compiled to a program for a stack machine. The parts, and the files of the repository that they
-- model:
--
-- - Outcome: the error codes of factorengine/types.go. A Go call returns a value, returns an error or
--   panics; the text of an error is left out, its code and field are kept.
-- - Operators: the value types of factorengine/types.go, the operators and function names, which the
--   source holds as strings, and the type rules of factorengine/expression_helpers.go.
-- - Value: what an `any` holds here. A `map[string]any` is an association list, into which `insert`
--   puts a key once.
-- - Schema: the schemas and factor definitions of factorengine/types.go, and factorengine/schema.go.
-- - Expr, Accessor: factorengine/expression.go and accessor.go.
-- - Runtime, Evaluator: factorengine/evaluator.go. Runtime has the operations on values
--   (`evalUnaryValue`, `orderedCompare`, `equalityCompare`, `arithmetic` and the built-in functions);
--   Evaluator has the operators on outcomes of their operands, and `EvalExpr`.
-- - Bound, Binder: factorengine/binder.go. Bound has the bound expressions with their `Eval`; Binder has
--   `ExpressionBinder.Bind`. A bound node's `Evaluator` is a name, which `run_binary`, `run_unary` and
--   `run_function` interpret.
-- - Parser: factorengine/expression_parser.go and parser.go. Tokens is `tokenizeExpression`, Grammar the parser by
--   precedences on the tokens that are left, Refs `ParseFactorRef` and `ParseResponsePath`.
-- - Bytecode: factorengine/bytecode.go. Fold is `optimizeBoundExpr`, Emit is `emitExpr` with the tables
--   of constants, accessors and built-ins, Peephole is `optimizeInstructions`, Compile puts them
--   together, and Vm is the machine.
-- - Compiler: factorengine/compiler.go and `BindString`, from the text of a rule to a program.
-- - GoMap, Cache: factorengine/compiler_cache.go. Cache.Memory is `InMemoryProgramCache`, Cache.Lru
--   `LRUProgramCache` with its map and its linked list; Fingerprint is `BuildCompileCacheKey` with what it calls.
-- - Snapshot: factorengine/compiler_snapshot.go.
-- - Persistent: factorengine/persistent_cache.go, over a store and a local cache that are interfaces with laws: what
--   is loaded under a key was saved for it. A local cache may be one that cannot delete.
-- - Validator: factorengine/validator.go, with `ResolveResponsePath` of schema.go, over an IDL that is a parameter.
-- - Observer: factorengine/observer.go.
-- - Engine: factorengine/engine.go, with the caching and the observed compiler. A cache is the interface
--   `ProgramCache`, of operations and the laws that its client uses, which both caches fill.
-- - Service: factorengine/engine_service.go.
-- - Correct: proofs. WellBound says which bound expressions the binder makes; Halting, Layout, Tables,
--   Computes, Branch, Opcodes and Emission build the correctness of emitted code; Folding and
--   FoldingWhole are about constant folding; Dense and Compaction are about the removal of jumps; Program
--   joins them. Termination is about
--   the machine on any program, Binding about the binder, Reading about accessors, Ranges about arithmetic,
--   Agreement about the two evaluators. A context fits a registry when each registered factor has a map
--   as its value, with the member `value` exactly when its schema is the single field of that name.
-- - Correct.Parsing: Printer is a printer for trees with no more parentheses than they need, RoundTrip and Text
--   are about reading what it prints, Fuel about the parser on any text; the others lead there. Compiling is
--   about the way from the text of a rule to a value, Restoring about snapshots.
-- - Correct.Caching: Elements, Index and Eviction are about the map and the list of the LRU cache, Recency
--   compares it with a list of entries by recency, Interfaces fills the interface of caches.
-- - Correct.Serving: Transparent is about engines with a cache, Publishing, Releases, History and Listing about the
--   service.
-- - Correct.Persisting: Calls says what calls set, Records keeps the invariant of the persistent cache over any
--   store, Reliable says what a store that does not fail is and what the cache is then, Refinement proves it, Locals
--   makes the LRU cache its local one.
-- - Correct.Validating: Checks and Entries are about the single checks and the entries of the mappings.
-- - Correct.Counting: the counting observer.
-- - Tests: runs, and the theorems at concrete inputs.
--
-- Integers of Go are kept in the range of 64 bits by an explicit wrap-around, as `int` is on a 64-bit
-- platform. Floating-point numbers are a parameter `D` with the operations of the record `Floats`, and
-- the keys that `fmt.Sprintf` makes of constants and accessors are a parameter `Formatter`; `KeysSound`
-- says that keys tell apart the constants of a class that a program draws on. The answers of
-- `Context.Err()` are a function of the number of the step at which it is asked.
--
-- The machine's loop runs on fuel: one round more than the allowed steps, since every round that does not
-- stop counts one step and the limit is checked in each. `stack_need` is the room on the stack that an
-- expression takes, and a step for each instruction is enough, as emitted jumps only go forward.
--
-- Where the machine and the evaluator differ: behind `&&` and `||` the machine leaves the right operand's
-- value as it is, and the evaluator makes a Boolean of it. The two agree when such an operand has a
-- Boolean value, which the predicate `BoolOperands` asks for.
--
-- The parser's fuel is four calls for each token and four more: between two tokens that are consumed no more than
-- four calls are nested.
--
-- A cache key is the text of the rule, `::` and the fingerprint of the registry. An engine has one registry, so
-- the keys of its rules differ; fingerprints of different registries may be the same, since the names in them
-- are written without quotes.
--
-- The calls of the service, of the caches and of the observer hold a lock or are atomic: each is one step on
-- the state. A compilation of the service runs before it takes the lock.
--
-- Not modelled: the store in files and the IDL reader; of factorengine/bytecode.go the
-- disassembly and the trace, and negative operands of instructions, which the compiler does not make.
pub mod Prelude
pub mod Outcome
pub mod Value
pub mod Operators
pub mod Runtime
pub mod Schema
pub mod Expr
pub mod Accessor
pub mod Evaluator
pub mod Bound
pub mod Binder
pub mod Bytecode
pub mod Correct
pub mod Parser
pub mod GoMap
pub mod Cache
pub mod Compiler
pub mod Snapshot
pub mod Fingerprint
pub mod Observer
pub mod Engine
pub mod Service
pub mod Persistent
pub mod Validator
mod Tests
