-- ===== src/Trap/SysNr.antt =====
-- `enum s3k_call` of inc/consts.h: the numbers of the system calls.
use Prim.Native.Nat.{ℕ}

abbrev pub read_cap : ℕ
read_cap = 1

abbrev pub move_cap : ℕ
move_cap = 2

abbrev pub delete_cap : ℕ
delete_cap = 3

abbrev pub revoke_cap : ℕ
revoke_cap = 4

abbrev pub derive_cap : ℕ
derive_cap = 5

abbrev pub invoke_cap : ℕ
invoke_cap = 6

abbrev pub get_pid : ℕ
get_pid = 7

abbrev pub read_reg : ℕ
read_reg = 8

abbrev pub write_reg : ℕ
write_reg = 9

abbrev pub yield : ℕ
yield = 10
