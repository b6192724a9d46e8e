-- ===== src/Lib.antt =====
-- hgdb, a debugger for hardware generators, follows a simulation through VPI and stops it at breakpoints of
-- the source that a circuit was generated from. This library models the parts of src/ that decide where it
-- stops, and what is proved of them.
--
-- The debugger's runtime (src/debug.cc) calls the scheduler in each clock cycle: start_breakpoint_evaluation
-- begins it, and next_breakpoints gives the next breakpoints to evaluate, until there are none. A breakpoint
-- holds a condition, an expression of src/eval.cc that is parsed when the breakpoint is added; its symbols
-- are resolved through the symbol table and the simulator's client. A design is split into namespaces, one
-- for each top, and a breakpoint is inserted once in each. The monitor keeps the signals that clients watch.
--
-- Files:
--   Prelude: texts as lists of byte values, the native numbers' tests, integers with the range of int64_t,
--     words, lists, and the standard library's maps as association lists.
--   Util: get_tokens and the number readers of src/util.cc, and join of src/util.hh.
--   Eval: the nodes of an expression and Expr::eval. Eval/Lexer has the rules of the grammar that match
--     bytes, Eval/Parser the parser's stacks and the actions, Eval/Grammar the grammar and DebugExpression's
--     constructor, Eval/Debug the other operations of DebugExpression (src/eval.hh and src/eval.cc).
--     Eval/Laws is about evaluation; Eval/Lengths and Eval/Fuel are about the fuel.
--   Interfaces: the symbol table (src/symbol.hh), its row of a breakpoint (include/schema.hh) and the client
--     (src/rtl.hh), as records of the operations that are called.
--   Namespaces: DebuggerNamespaceManager (src/namespace.cc), with a theorem in Namespaces/Mapping.
--   Scheduler: the state of Scheduler (src/scheduler.hh). Scheduler/Next has the functions next_*, with
--     theorems in the modules below it; Scheduler/Validate has validate_expr,
--     compute_trigger_symbol and get_clock_signals; Scheduler/Edit/Drop has the constructor, removal, reset
--     and order, Scheduler/Edit/Add has add_breakpoint and its callers (src/scheduler.cc), with theorems in
--     Order, Remove and Insert beside them.
--   Symbols: the names in the scope of a breakpoint or of an instance (src/symbol.cc), with theorems in
--     Symbols/Scopes; Symbols/Delayed has the delayed variables, the static values and the mapping of paths.
--   Monitor: Monitor (src/monitor.cc), with theorems in Monitor/Watch, Monitor/Change and
--     Monitor/Delay; its invariant in Monitor/Entries, Monitor/Formed, Monitor/Reads and Monitor/Steps.
--   Simulator: RTLSimulatorClient (src/rtl.cc) with its caches; what the simulator answers is the record Vpi.
--     Simulator/Names has get_path, get_full_name, resolve_rtl_path and match, Simulator/Slices extract_slice
--     and get_slice, Simulator/Handles get_handle, Simulator/Values the values of handles,
--     Simulator/Hierarchy compute_instance_mapping, and Simulator/Callbacks the callbacks, monitor_signals and
--     the search for clocks. The modules below them hold theorems.
--   Runtime: Debugger (src/debug.cc). Runtime/Signals has get_signal_value, set_expr_values and the delayed
--     values, Runtime/Evaluate the evaluation of breakpoints, Runtime/Loop the cycle, Debugger::eval;
--     Runtime/Requests, Runtime/Breakpoints and Runtime/DataBreakpoints have the handlers of requests,
--     Runtime/Hits and Runtime/Names what is sent with a hit, and Runtime/Arguments what the command line
--     and the environment set.
--     The modules below them hold theorems.
--   Vcd: the tokens of tools/vcd/vcd.cc; Vcd/Parser has VCDParser, with theorems in Vcd/Tokens, Vcd/Values and
--     Vcd/Endless.
--   Proto: the requests of src/proto.hh and src/proto.cc. Proto has the members of a document, as the library
--     rapidjson answers them, Proto/Requests parse_request, and Proto/Breakpoints, Proto/Commands, Proto/Values
--     and Proto/Data the payloads; Proto/Symbols the requests to a remote symbol table, and Proto/Rows and
--     Proto/Results its answers. A theorem is in Proto/Trip.
--   The modules Examples hold runs and the theorems at concrete inputs.
--
-- How the code is modelled: a class is a record and an operation a function from the state to the state and
-- a result. `none` as the result of an operation is undefined behaviour or an exception: a null pointer or an
-- empty optional that is followed, an element out of range, signed overflow, a division by zero. A pointer to
-- a breakpoint is its index. A handle of VPI is a number, and a null handle is none. A set or a map without
-- an order is a list in the order of insertion, so that a loop over it goes through in that order. std::sort is
-- insertion sort, which keeps the order of equal breakpoints. A shared value of the monitor is a cell of a store.
--
-- PEGTL does not undo the actions of a rule that fails, so a failure of the grammar's parser carries the
-- parser's state. The parser runs on fuel: 14 for a byte of the text, and 13 for the levels of precedence.
-- Every nesting of calls either consumes a byte or goes down a level, so the fuel is enough. A trace's parser takes fuel
-- for as many tokens as the trace has. The walk through a design takes fuel for the modules that it visits, and
-- the loop of a cycle for as many rounds as there are breakpoints.
--
-- The debugger's two threads of eval_breakpoints take turns in any order, which Reads has, but a thread evaluates
-- a breakpoint to its end: finer interleavings of their reads of the cache are not modelled. What the simulator
-- holds of a client's callbacks is a field of the client. While the simulation is paused the
-- server may do anything to the debugger; that is a function which the cycle takes. The symbol table and the
-- clients of the runtime are the records of Interfaces, which say what they answer and leave out what they keep
-- by themselves when they are asked; and the simulator's answers in a cycle the record Reads.
--
-- What the code calls outside of src/ stands in as an argument: what the client and the symbol table answer, and
-- whether reverse_last_posedge succeeds. Not modelled: mutexes and the log, which change no state here;
-- resolve_rtl_variable, get_assert_info and rewind of the client; of the runtime its sockets, threads and detach, and the
-- requests that only read; what the responses of the protocol write; the database, the tools and
-- the bindings.
pub mod Prelude
pub mod Util
pub mod Eval
pub mod Interfaces
pub mod Namespaces
pub mod Scheduler
pub mod Symbols
pub mod Monitor
pub mod Simulator
pub mod Runtime
pub mod Vcd
pub mod Proto
