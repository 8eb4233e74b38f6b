-- ===== src/Kernel/ErrorCode.antt =====
-- `enum s3k_error`, as the 64-bit words that system calls return.
use Prim.Native.Nat.{ℕ, ◌-◌, ◌^◌}

abbrev pub ok : ℕ
ok = 0

abbrev pub empty : ℕ
empty = 1

abbrev pub failed : ℕ
failed = 2

abbrev pub preempted : ℕ
preempted = 3

abbrev pub interrupted : ℕ
interrupted = 4

abbrev pub collision : ℕ
collision = 5

abbrev pub no_receiver : ℕ
no_receiver = 6

abbrev pub illegal_derivation : ℕ
illegal_derivation = 7

abbrev pub invalid_supervisee : ℕ
invalid_supervisee = 8

abbrev pub supervisee_busy : ℕ
supervisee_busy = 9

abbrev pub unimplemented : ℕ
unimplemented = 2 ^ 64 - 1
