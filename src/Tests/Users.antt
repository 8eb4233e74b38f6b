-- ===== src/Tests/Users.antt =====
-- Process 0 of the kernel that has booted uses its library.
use separation_kernel.Prelude.{◌≡◌, refl, some, ◌==◌, if◌then◌else◌, arith}
use separation_kernel.Cap.{Cap}
use separation_kernel.CapNode
use separation_kernel.CapNode.{get_cap}
use separation_kernel.Proc.{Regs, get_cap_node}
use separation_kernel.Proc.Reg
use separation_kernel.Kernel.{Kernel, ok, put_reg, put_state, current_proc}
use separation_kernel.Kernel.ErrorCode
use separation_kernel.Syscall.Basic.{syscall_get_pid}
use separation_kernel.Syscall.Caps.{syscall_delete_cap, syscall_derive_cap}
use separation_kernel.Trap.{syscall_vector}
use separation_kernel.Trap.SysNr
use separation_kernel.User.Names.{ecall_numbers, ecall_numbers-IsKernel}
use separation_kernel.User.{load, s3k_read_cap, s3k_supervisor_read_cap, s3k_supervisor_get_state}
use separation_kernel.User.Enters.{Request, perform, asks, at_ecall, perform-Enters}
use separation_kernel.User.Process.{ecall_in, entered, perform-answered, s3k_read_cap-get_cap}
use separation_kernel.User.Misdirected.{cap_of, state_of, supervisor_wrappers-misdirected}
use separation_kernel.User.Dump.{s3k_dump_cap}
use separation_kernel.User.Description.{description}
use separation_kernel.User.Describe.{text_of, s3k_dump_cap-text}
use separation_kernel.Print.{length}
use separation_kernel.Print.Render.{take}
use separation_kernel.Tests.Library.{small_snprintf, small_snprintf-IsSnprintf}
use separation_kernel.Tests.Runs.{booted_kernel}

abbrev no_regs : Regs
no_regs i = 0

-- A deletion is left over in t0.
abbrev stale_regs : Regs
stale_regs i = if i == Reg.t0 then SysNr.delete_cap else 0

abbrev half_slice : Cap
half_slice = record { word0 = 0x0100000010000003; word1 = 0 }

abbrev derive_half : Request
derive_half = Request.derive_cap 3 10 half_slice

perform-Enters_example :
    (perform ecall_numbers (λ q. q) no_regs derive_half
      ≡ some (at_ecall ecall_numbers no_regs derive_half Reg.a0))
    × (syscall_vector 0 (at_ecall ecall_numbers no_regs derive_half) ≡ asks 0 no_regs derive_half)
perform-Enters_example =
    perform-Enters ecall_numbers (λ q. q) 0 no_regs derive_half ecall_numbers-IsKernel

abbrev asking : Kernel
asking = entered booted_kernel (at_ecall ecall_numbers no_regs Request.get_pid)

has_pid : syscall_get_pid asking ≡ ok 0 asking
unfolding syscall_get_pid entered booted_kernel CapNode.insert put_reg put_state
has_pid = refl

perform-answered_example :
    perform ecall_numbers (ecall_in booted_kernel 0 no_regs) no_regs Request.get_pid ≡ some 0
perform-answered_example =
    perform-answered ecall_numbers booted_kernel asking 0 no_regs no_regs Request.get_pid 0
      ecall_numbers-IsKernel has_pid

s3k_read_cap-get_cap_example :
    s3k_read_cap ecall_numbers (ecall_in booted_kernel 0 no_regs) no_regs 3
    ≡ (ErrorCode.ok, get_cap booted_kernel.heap (get_cap_node (current_proc booted_kernel) 3))
s3k_read_cap-get_cap_example =
    s3k_read_cap-get_cap ecall_numbers booted_kernel 0 no_regs no_regs 3 ecall_numbers-IsKernel

supervisor_wrappers-misdirected_example :
    (q q' q'' : Regs) × (s3k_supervisor_read_cap ecall_numbers (λ i. i) stale_regs 2 1 7
      ≡ cap_of ecall_numbers q)
    × (syscall_vector 0 q ≡ syscall_derive_cap 2 1 5 7)
    × (s3k_supervisor_get_state ecall_numbers (λ i. i) stale_regs 2 1 ≡ state_of ecall_numbers q')
    × (q' Reg.t0 ≡ stale_regs Reg.t0)
    × (s3k_supervisor_get_state ecall_numbers (λ i. i) (load stale_regs Reg.t0 SysNr.delete_cap) 2 1
        ≡ state_of ecall_numbers q'')
    × (syscall_vector 0 q'' ≡ syscall_delete_cap 2)
supervisor_wrappers-misdirected_example =
    supervisor_wrappers-misdirected ecall_numbers (λ i. i) 0 stale_regs 2 1 7 ecall_numbers-IsKernel

s3k_dump_cap-text_example :
    s3k_dump_cap small_snprintf 20 half_slice
    ≡ (take 19 (text_of (description half_slice)), length (text_of (description half_slice)))
s3k_dump_cap-text_example =
    s3k_dump_cap-text small_snprintf small_snprintf-IsSnprintf 20 (omega arith) half_slice
