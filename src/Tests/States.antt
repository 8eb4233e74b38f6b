-- ===== src/Tests/States.antt =====
-- The state word and its protocol.
use separation_kernel.Prelude.{◌+◌, ◌^◌, ◌<◌, ◌≡◌, ◌≢◌, refl, inl, arith}
use separation_kernel.Proc.{Proc}
use separation_kernel.Proc.Reg
use separation_kernel.Exception.{exception_handler, illegal_instruction, mret}
use separation_kernel.Exception.Return.{enter-return, mret_unreachable}
use separation_kernel.ProcState
use separation_kernel.ProcState.Code
use separation_kernel.ProcState.View.{
  State, receiving, receiving_then_suspend, ready, suspended, Fits, encode, Implements, acquired,
  supervised, resumed, suspended_by, waiting_at, receiving_at, released, word-State,
}
use separation_kernel.ProcState.Protocol.{suspended_board, Reach, start, later, hold}
use separation_kernel.ProcState.Protocol.Exclusion.{IsExclusive, Reach-IsExclusive}
use separation_kernel.ProcState.Protocol.Race.{Gap, GapReach, wait_gap}

held-Reach : Reach (record suspended_board { word = Code.suspended_busy; supervisors = 1 })
unfolding ProcState.supervisor_acquire
held-Reach = later start (hold {w = Code.suspended_busy} refl)

Reach-IsExclusive_example :
    IsExclusive (record suspended_board { word = Code.suspended_busy; supervisors = 1 })
Reach-IsExclusive_example = Reach-IsExclusive held-Reach

abbrev five_fits : 5 < 2 ^ 16
five_fits = omega arith

word-State_example :
    Implements ProcState.acquire acquired
    × Implements ProcState.supervisor_acquire supervised
    × Implements ProcState.supervisor_resume resumed
    × Implements ProcState.supervisor_suspend suspended_by
    × Implements (λ w. ProcState.receiver_wait w 5) (waiting_at 5)
    × Implements (λ w. ProcState.sender_acquire w 5) (receiving_at 5)
    × ((s : State) → Fits s → ProcState.release (encode s) ≡ encode (released s))
    × (ProcState.sender_release (encode (receiving 5)) ≡ encode ready)
    × (ProcState.sender_release (encode (receiving_then_suspend 5)) ≡ encode suspended)
word-State_example = word-State 5 five_fits

wait_gap_example : (s : Gap) × GapReach s × (s.board.harts ≡ 2)
wait_gap_example = wait_gap 5 five_fits

abbrev some_proc : Proc
some_proc = record {
  regs = λ r. r + 100;
  pid = 1;
  state = Code.running;
  dest_cidx = 0;
  cap_table = 1;
  client = 0;
}

breakpoint_ne : 3 ≢ illegal_instruction
breakpoint_ne = ground arith

mret_unreachable_example :
    ((exception_handler some_proc 2 0x30200073 0x80).regs Reg.pc ≡ some_proc.regs Reg.tpc)
    × ((exception_handler some_proc 2 0x30200073 0x80).regs Reg.ppc ≡ 0x80)
mret_unreachable_example = mret_unreachable some_proc 2 0x30200073 0x80 (omega arith)

abbrev entered : Proc
entered = exception_handler some_proc 3 0 0x80

abbrev returned : Proc
returned = exception_handler entered illegal_instruction mret 0x200

enter-return_example :
    (entered.regs Reg.pc ≡ some_proc.regs Reg.tpc)
    × (entered.regs Reg.sp ≡ some_proc.regs Reg.tsp)
    × (entered.regs Reg.a0 ≡ 3)
    × (entered.regs Reg.a1 ≡ 0)
    × (returned.regs Reg.pc ≡ 0x80)
    × (returned.regs Reg.sp ≡ some_proc.regs Reg.sp)
    × (returned.regs Reg.a0 ≡ some_proc.regs Reg.a0)
    × (returned.regs Reg.a1 ≡ some_proc.regs Reg.a1)
enter-return_example = enter-return some_proc 3 0 0x80 0x200 (inl breakpoint_ne)
