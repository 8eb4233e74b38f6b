-- ===== src/Lib.antt =====
-- S3K, a separation kernel for RISC-V: a model of the kernel and the theorems about it.
--
-- The kernel runs six processes on four harts. What a process may do is given by its capabilities,
-- two words each. Capabilities are kept in the nodes of doubly linked lists, in which what was
-- derived from a capability stands behind it. Processes are started by the dispatcher of every
-- hart from a table of time slices, and are handed over between harts, supervisors and senders of
-- messages by atomic updates of one state word. System calls work on all of these.
--
-- The parts, and the files that they are modelled from:
--
-- Config      config.h and bsp/virt.h: sizes of arrays, harts, ticks.
-- Cap         api/s3k_cap.h, which is the generated gen/cap.h of the kernel less its assertions (the
--             Makefile removes them): `struct cap` is `Cap`. A module for each type of capability has `mk`,
--             the getters and the setters (`cap_time_get_free` is `Cap.Time.get_free`), Derivation
--             has `cap_can_derive` and `cap_is_child`, and Update has `derive_update_cap` and
--             `revoke_update_cap` of src/syscall.c with the assertions of the accessors. Valid says which capabilities are well-formed.
-- CapNode     inc/cap_node.h: a heap maps addresses to nodes, address 0 is `NULL`; `delete`, `delete2`,
--             `insert` and `move` take the heap and return it with their result. Steps says what they
--             do node by node, Ring what they do to a whole list, Forest what they do to all lists of
--             the kernel at once.
-- ProcState   inc/proc_state.h: functions from the state word to the new word and the result. View
--             has the states that the words stand for, Protocol the accesses of several harts,
--             supervisors and senders as the steps of a relation.
-- Sched       src/sched.c: `schedule` as a function of quantum and hart, with `sched_init`,
--             `sched_update` and `sched_get_proc`. Start has `sched_start`, on a list of the readings
--             of the timer, and `wait_and_set_timeout`.
-- Proc        inc/proc.h: processes and their registers. LoadPmp has `proc_load_pmp` of src/proc.c, up
--             to the stores into the registers of the hart.
-- Exception   src/exception.c.
-- Kernel      the state that the system calls share, the codes of inc/consts.h, and a monad with
--             results, faults, and calls that give up the hart. Sound has the invariant of the whole
--             state.
-- Syscall     src/syscall.c: one function for each call, composed as in the source. Hook has
--             `cap_update_hook` and `interprocess_move`, Basic the calls without capabilities, Caps
--             those on the caller's own capabilities, Supervisor, Ipc and Invoke the invocations.
--             Settled goes through all of them for the invariant.
-- Trap        src/trap.S: `trap_entry` with `syscall_vector`, from the registers of the hart, as an
--             operation of the kernel. Hart has the instructions of src/trap.S and src/macros.S on the
--             registers and the memory, AsmConsts the offsets of gen/asm_consts.c that they use; Saved
--             and Restored are about the entry and the return, Stack about src/stack.S.
-- Boot        src/proc.c: `proc_init` and the functions below it, on memory that is all zero.
-- Runs        the states that the kernel gets to: it boots, harts start processes, and processes enter
--             the kernel.
-- User        api/s3k.h: the wrappers of `ecall` for processes, as functions of what the `ecall` does to the
--             registers; Names has the numbers that they use, Enters says which function of the kernel
--             each gets to, Process what comes back. Dump is `s3k_dump_cap`, on a parameter for the C
--             library's `snprintf`.
-- Atomic      inc/atomic.h: compare-and-swap as a list of rounds, and marked pointers.
-- Lock        inc/lock.h: the ticket lock, with the accesses of several harts as the steps of a relation.
-- Print       src/snprintf.c: `vsnprintf` on lists of bytes. FullText is its reference: the text without
--             a bound on its length.
-- Prelude     numbers, words of 64 bits and the lemmas on their bits.
-- Tests       the theorems at concrete inputs.
--
-- Numbers and bounds. Words are natural numbers; shifts to the left and complements are cut to 64
-- bits, and a store to the schedule to 16 bits. `uint8_t`, `uint16_t` and `uint32_t` fields are cut by
-- the masks of the source.
--
-- Fuel. The loops of CapNode take fuel, one for each round: on a ring each succeeds in its first
-- round, so that one unit for an insertion and two for a deletion or a move are enough, and the
-- calls give two. A revocation has a round for each node of the tables and one more.
-- The loops of the scheduler and of the boot count their rounds down, and `sched_start` has a round
-- for each reading of the timer. The loop of `vsnprintf` takes a byte of the format or more in each
-- round, and has one round more than bytes; a number takes a byte of its local buffer for each digit.
--
-- Failures. A failed `kassert`, which hangs the hart, is `none`, and `fault` in a system call; so is an
-- access beyond `processes` or `receivers`. The accessors of gen/cap.h assert the type of the
-- capability, its setters and constructors the widths of the values too. These assertions are written
-- out in `derive_update_cap`, `revoke_update_cap` and at the constructors of the boot; at all other
-- places the source calls an accessor after its own test of the same type.
--
-- Not modelled: what a timer interrupt inside a system call leaves undone, the wake-up of the
-- harts, the call of proc_load_pmp in the scheduler (MEMORY_PROTECTION is not configured), the
-- serial port, the wrappers of instructions and intrinsics, and the generators of the build.
-- Trap.Hart is not composed with the calls: that the entry and the return agree with the kernel's
-- view of a process's registers is stated of them alone. An entry of the kernel is one
-- uninterrupted run of one hart;
-- only the accesses of the state word and of the lock are interleaved. Where a loop waits for
-- the timer, its readings are a parameter.
pub mod Atomic
pub mod Boot
pub mod Cap
pub mod CapNode
pub mod Config
pub mod Exception
pub mod Kernel
pub mod Lock
pub mod Prelude
pub mod Print
pub mod Proc
pub mod ProcState
pub mod Runs
pub mod Sched
pub mod Syscall
pub mod Tests
pub mod Trap
pub mod User
