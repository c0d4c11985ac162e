-- ===== src/Lib.antt =====
-- The WebAssembly interpreter of this repository: src/interpreter.cpp, src/module_loader.cpp, the
-- headers under include/wasm, and the command-line runner examples/run_wat_module.cpp. A binary is
-- parsed into a module, the module is instantiated against what the host has registered, and an
-- export is invoked: `execute_function` runs the bytes of its body, one opcode a round, and calls
-- itself for a call. The runner parses its command line, registers a host for WASI, and loads and
-- calls an export.
--
-- The files:
--   Base         lists and tests on native numbers, results, actions with state and errors, and the
--                rules by which an action keeps a relation on its state (Effect) or ends with an
--                error of its own (Endings)
--   Types        include/wasm/types.hpp: values and their types
--   Module       include/wasm/module.hpp: the structs of a parsed module
--   Reader       include/wasm/binary_reader.hpp: the cursor, LEB128 and fixed-width reads; Advance,
--                Leb and Total are about where a read ends, what it reads and that it ends
--   Loader       src/module_loader.cpp: Parts, Sections and Parse translate it; Total and Ends are
--                about its termination
--   Numeric      integer (Word), float (Float) and conversion (Convert) operations; Count, Extend and
--                Division are about the integers
--   Memory       MemoryInstance, checked_address, read_value and write_value; Access, Overwrite and
--                Size are about the bytes and the number of pages
--   Stack        OperandStack and the pops
--   Control      block types, immediates and analyze_block; Instruction describes instructions as
--                byte ranges, Extent, Skipped, Nesting and Analysis compare the code with it, and
--                Same, Skip and Block are about the bytes they read and that they end
--   Store        the members of Interpreter::Impl that code changes; Extends is how they may develop
--   Exec         execute_function: Machine is an activation; Flow, Variables, Access, Bulk and
--                Numbers are the cases of the switch; Step is the switch and one round; Run is the
--                loop and the calls. Derivation has the rules of a run without fuel, and
--                Adequacy compares them with it; Typing is about the numeric instructions,
--                Settled and Endings about how a round ends, Hosted about the host's state,
--                Effect, Quiet, Writes and Safety about the store, Fuel and Jump about the fuel
--                and the branches
--   Embed        Registry (the register_host functions), Instantiate (imports to exports), Invoke
--                (load, invoke, memory) and Wasi (register_default_wasi_preview1); Keys, Polite,
--                Written, Calls and Functions are about the maps, the shim, invocations and
--                the functions of an instance
--   Runner       examples/run_wat_module.cpp. World is the operating system and the table of open
--                files; Accessor the access to the memory; Arguments, Descriptors, Paths and
--                Devices the callbacks of WasiPreview1Host, and Host all of them together; Modules
--                the introspector and the check of arguments, Options the command line, Main the
--                program. Table, Kept, Safety, Runs, Confined, Layout, Opening, Signatures and
--                Validated are about them
--   Samples, Tests   a small program, and runs of it
--
-- State. A method that changes an object is a function from the object to a result and the object
-- after; an exception is an error value and drops the object, as the source drops its readers and
-- stacks. What an exception leaves in the store is what the last round left: a case of the switch
-- checks before it writes. The trap message is kept without the numbers that the source appends.
--
-- Numbers. A w-bit integer is its bit pattern, a natural number below 2^w; signed operations go
-- through the signed number that the pattern stands for, and signed overflow, which C++ leaves
-- undefined, is taken to wrap. A float is its IEEE pattern. Tests, minimum, maximum, sign operations
-- and truncation to integers are computed on patterns; what rounds (sums, products, square root,
-- rounding to integral, conversions to floats) is a parameter, FloatUnit. `long double` is taken to
-- hold every 64-bit integer.
--
-- Parameters. A host callback is a number, answered by a Host, a function of the arguments, the
-- host's own state and the store, that may change both. The runner's host takes the operating system
-- as a System: files, clocks, path resolution and random numbers, each a function on a state of its
-- own. The parsers of numbers and the reading of a file are parameters of the runner's program.
-- Allocation is taken to succeed.
--
-- Fuel. A LEB128 loop has one round more than the bits it may read, of 7 bits a round; the loop over
-- a block index has 5; the loops over sections and over the code of a block have one round more than
-- there are bytes. A round of execute_function and a call spend one unit each of a fuel that the
-- caller gives, since a program may run for ever.
--
-- Not modelled: file input (read_file), the forwarding methods of Interpreter, what the runner
-- prints, the exit code that it takes out of the message of a proc_exit, the destructor of
-- WasiPreview1Host and the path that its constructor resolves, the tests, and the vendored wabt.
pub mod Base
pub mod Types
pub mod Module
pub mod Reader
pub mod Loader
pub mod Numeric
pub mod Memory
pub mod Stack
pub mod Control
pub mod Store
pub mod Exec
pub mod Embed
mod Samples
mod Tests
pub mod Runner
