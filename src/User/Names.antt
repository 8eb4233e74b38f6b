-- ===== src/User/Names.antt =====
-- The numbers that the wrappers of api/s3k.h use. The header names them S3K_SYSNR_... and S3K_OK, which
-- no file declares, so that they are a parameter; api/s3k_consts.h has the kernel's numbers under
-- other names.
use separation_kernel.Prelude.{ℕ, ◌≡◌, refl}
use separation_kernel.Kernel.ErrorCode
use separation_kernel.Kernel.SupCall
use separation_kernel.Trap.SysNr

pub record Numbers : Type 0 where
  pub ok : ℕ
  pub read_cap : ℕ
  pub move_cap : ℕ
  pub delete_cap : ℕ
  pub revoke_cap : ℕ
  pub derive_cap : ℕ
  pub invoke_cap : ℕ
  pub get_pid : ℕ
  pub read_reg : ℕ
  pub write_reg : ℕ
  pub yield : ℕ
  pub supervisor_suspend : ℕ
  pub supervisor_resume : ℕ
  pub supervisor_get_state : ℕ
  pub supervisor_read_reg : ℕ
  pub supervisor_write_reg : ℕ
  pub supervisor_read_cap : ℕ
  pub supervisor_give_cap : ℕ
  pub supervisor_take_cap : ℕ

-- The names stand for the numbers that the kernel dispatches on.
pub record IsKernel (n : Numbers) : Type 0 where
  pub ok : n.ok ≡ ErrorCode.ok
  pub read_cap : n.read_cap ≡ SysNr.read_cap
  pub move_cap : n.move_cap ≡ SysNr.move_cap
  pub delete_cap : n.delete_cap ≡ SysNr.delete_cap
  pub revoke_cap : n.revoke_cap ≡ SysNr.revoke_cap
  pub derive_cap : n.derive_cap ≡ SysNr.derive_cap
  pub invoke_cap : n.invoke_cap ≡ SysNr.invoke_cap
  pub get_pid : n.get_pid ≡ SysNr.get_pid
  pub read_reg : n.read_reg ≡ SysNr.read_reg
  pub write_reg : n.write_reg ≡ SysNr.write_reg
  pub yield : n.yield ≡ SysNr.yield
  pub supervisor_suspend : n.supervisor_suspend ≡ SupCall.suspend
  pub supervisor_resume : n.supervisor_resume ≡ SupCall.resume
  pub supervisor_get_state : n.supervisor_get_state ≡ SupCall.get_state
  pub supervisor_read_reg : n.supervisor_read_reg ≡ SupCall.read_reg
  pub supervisor_write_reg : n.supervisor_write_reg ≡ SupCall.write_reg
  pub supervisor_read_cap : n.supervisor_read_cap ≡ SupCall.read_cap
  pub supervisor_give_cap : n.supervisor_give_cap ≡ SupCall.give_cap
  pub supervisor_take_cap : n.supervisor_take_cap ≡ SupCall.take_cap

-- `enum s3k_error`, `enum s3k_call` and `enum s3k_call_sup` of api/s3k_consts.h.
abbrev pub ecall_numbers : Numbers
ecall_numbers = record {
  ok = 0;
  read_cap = 1;
  move_cap = 2;
  delete_cap = 3;
  revoke_cap = 4;
  derive_cap = 5;
  invoke_cap = 6;
  get_pid = 7;
  read_reg = 8;
  write_reg = 9;
  yield = 10;
  supervisor_suspend = 0;
  supervisor_resume = 1;
  supervisor_get_state = 2;
  supervisor_read_reg = 3;
  supervisor_write_reg = 4;
  supervisor_read_cap = 5;
  supervisor_give_cap = 6;
  supervisor_take_cap = 7;
}

pub ecall_numbers-IsKernel : IsKernel ecall_numbers
ecall_numbers-IsKernel = record {
  ok = refl;
  read_cap = refl;
  move_cap = refl;
  delete_cap = refl;
  revoke_cap = refl;
  derive_cap = refl;
  invoke_cap = refl;
  get_pid = refl;
  read_reg = refl;
  write_reg = refl;
  yield = refl;
  supervisor_suspend = refl;
  supervisor_resume = refl;
  supervisor_get_state = refl;
  supervisor_read_reg = refl;
  supervisor_write_reg = refl;
  supervisor_read_cap = refl;
  supervisor_give_cap = refl;
  supervisor_take_cap = refl;
}
