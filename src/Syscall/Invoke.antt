-- ===== src/Syscall/Invoke.antt =====
-- src/syscall.c: the invocation of a capability, by its type.
use separation_kernel.Prelude.{ℕ, ◌==◌, if◌then◌else◌}
use separation_kernel.Cap.{get_type}
use separation_kernel.Cap.CapType
use separation_kernel.CapNode.{get_cap}
use separation_kernel.Proc.{get_cap_node}
use separation_kernel.Kernel.{M, pure, ◌>>=◌, get, current_proc}
use separation_kernel.Kernel.ErrorCode
use separation_kernel.Syscall.Supervisor.{syscall_invoke_supervisor}
use separation_kernel.Syscall.Ipc.{
  Message, syscall_invoke_receiver, syscall_invoke_sender, syscall_invoke_server,
  syscall_invoke_client,
}

-- The seventh argument is not used by any invocation.
unfoldable pub syscall_invoke_cap : (cidx arg1 arg2 arg3 arg4 arg5 arg6 arg7 : ℕ) → M ℕ
syscall_invoke_cap cidx arg1 arg2 arg3 arg4 arg5 arg6 arg7 = do
  k ← get
  let cap = get_cap k.heap (get_cap_node (current_proc k) cidx)
  let m : Message = record { msg0 = arg1; msg1 = arg2; msg2 = arg3; msg3 = arg4 }
  if get_type cap == CapType.empty
      then pure ErrorCode.empty
      else if get_type cap == CapType.supervisor
      then syscall_invoke_supervisor cap arg1 arg2 arg3 arg4
      else if get_type cap == CapType.receiver
      then syscall_invoke_receiver cap
      else if get_type cap == CapType.sender
      then syscall_invoke_sender cap m arg5
      else if get_type cap == CapType.server
      then syscall_invoke_server cap m arg5 arg6
      else if get_type cap == CapType.client
      then syscall_invoke_client cap m arg5
      else pure ErrorCode.unimplemented
