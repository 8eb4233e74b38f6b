-- ===== src/Kernel/SupCall.antt =====
-- `enum s3k_call_sup`, the operations of a supervisor.
use Prim.Native.Nat.{ℕ}

abbrev pub suspend : ℕ
suspend = 0

abbrev pub resume : ℕ
resume = 1

abbrev pub get_state : ℕ
get_state = 2

abbrev pub read_reg : ℕ
read_reg = 3

abbrev pub write_reg : ℕ
write_reg = 4

abbrev pub read_cap : ℕ
read_cap = 5

abbrev pub give_cap : ℕ
give_cap = 6

abbrev pub take_cap : ℕ
take_cap = 7
