-- ===== src/Lib.antt =====
-- seccompy builds seccomp filters in pure Python: a filter's rules are compiled to a classic BPF
-- program, which the kernel runs on every system call.
--
-- The program's parts and their files here:
-- * src/seccompy/bpf.py, the assembler, is Bpf. Bpf.antt has the opcodes and the instruction
--   classes with the checks of their constructors, Bpf/Pack `struct.pack("<HBBI", …)`,
--   Bpf/Assemble `assemble` and all its helpers. Bpf/Machine has the two interpreters of
--   tests/test_bpf.py, `run_packed` and `run_source`. The other files of Bpf hold the proofs, from
--   the bytes of a record (Encoding) and the sizes (Sizes) to the simulation (Agreement) and the
--   theorems (Correct).
-- * src/seccompy/filter.py is Filter. Filter/Args has `CmpOp`, `ArgCmp` and the coercions,
--   Filter/Labels the labels, Filter/Compile `_compile` and `_emit_cond`. Filter/Spec says what the
--   rules mean, with no program in it, and Filter/Correct that the compiled bytes do just that. The
--   files between follow the emitted code: Cond and Decide one condition, Rules the block of a
--   syscall, Blocks all of them. Filter/Object is the class `Filter` with its methods and its cache,
--   Filter/Checked, Filter/Payload, Filter/Methods and Filter/Invariant what its methods make sure of.
--   A filter has no aliases there: a method takes the filter and returns the changed one.
--   Filter/Entries has the abstract view of a filter, the list of the rules that were asked for,
--   which Filter/History compares with its state. Filter/Load is `load`, Filter/Loaded what a load
--   that succeeds has done, and Filter/Ending where a load ends.
-- * src/seccompy/syscalls.py is Syscalls, with both tables.
-- * src/seccompy/_syscall.py is Kernel. Kernel.antt has the calls, the host that answers them and
--   computations that make calls, Kernel/Structs the ctypes structures, Kernel/Calls every function.
--   The rest are proofs: the loop that makes an interrupted call again (Retry), the calls that a
--   computation makes (Only), its end (Ends), installing (Install) and the bytes of a structure
--   (Bytes).
-- * src/seccompy/notify.py is Notify. Notify.antt has the ioctl requests and the records,
--   Notify/Listener the functions and the methods of `Listener`, Notify/Uses one step of any method.
--   Notify/Opening is about the construction, Lifecycle and Session about the descriptor from there
--   on, Messages about the bytes that `respond` sends, Seen about those that `recv` reads.
-- * src/seccompy/__init__.py is Support and src/seccompy/testing.py is Testing.
-- * src/seccompy/errors.py is Errors: an exception is a value of `Error`, and the code that may
--   raise returns a `Result`.
-- * Base has what the parts share: Python's integers and dicts, Boolean tests, lists and bits.
--
-- How they interact: `load` sets no_new_privs and installs what `_compile` and `assemble` made
-- through Kernel, and makes a `Listener` of the descriptor that it gets. `probe` runs `load` in a
-- child, and the probes of Support ask the kernel through Kernel.
--
-- Numbers are natural numbers where the source has checked them, and integers (`ℤ`) where it checks
-- them. A word of the accumulator stays below 2 ^ 32 because the packet is a list of bytes and
-- every operand passed `_check_u32`. An interpreter's loop runs on fuel: `running` is the outcome of
-- too little. A program of n records ends within n turns, as no jump goes back, so fuel above n is
-- enough; a source program of n instructions likewise. `_resolve_sizes` has its own bound of
-- rounds in the source.
--
-- The kernel is a parameter: a `Host` is the machine's name, whether the system is Linux, and the
-- answer to each call, which may depend on all calls before it. A computation takes the log of calls
-- so far and returns its result with the log afterwards. The loops of `_call`, `ioctl` and
-- `set_no_new_privs` run on fuel, `waiting` is the outcome of too little, and fuel above the number
-- of interruptions in a row is enough.
--
-- A label of `_compile` is an f-string in the source and its parts here. The value of
-- `audit_arch()` is an argument of `compile`, and that of `platform.machine().lower()` an argument
-- of the lookups of syscalls and of the methods. Arguments of another type than the annotated one are
-- not considered. Not modelled: `__repr__`; the caching of libc and the conversions that ctypes makes
-- of the integers of a call; the effects of a call on the process, such as those of an installed
-- filter on later calls, which are the host's.
pub mod Base
pub mod Errors
pub mod Bpf
pub mod Filter
pub mod Syscalls
pub mod Kernel
pub mod Notify
pub mod Support
pub mod Testing
