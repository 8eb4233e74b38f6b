-- ===== src/Config.antt =====
-- config.h and bsp/virt.h: the kernel's compile-time constants, as the default build has them.
use Prim.Native.Nat.{ℕ, ◌+◌, ◌-◌, ◌*◌, ◌/◌, ◌^◌}

abbrev pub n_proc : ℕ
n_proc = 6

abbrev pub n_caps : ℕ
n_caps = 64

abbrev pub n_quantum : ℕ
n_quantum = 128

abbrev pub n_channels : ℕ
n_channels = n_proc * (n_proc - 1)

abbrev pub min_hartid : ℕ
min_hartid = 1

abbrev pub max_hartid : ℕ
max_hartid = 4

abbrev pub n_harts : ℕ
n_harts = max_hartid - min_hartid + 1

abbrev pub ticks_per_second : ℕ
ticks_per_second = 10000000

abbrev pub ticks : ℕ
ticks = ticks_per_second / n_quantum / 100

abbrev pub scheduler_ticks : ℕ
scheduler_ticks = 2000

abbrev pub log_stack_size : ℕ
log_stack_size = 10

abbrev pub stack_size : ℕ
stack_size = 2 ^ log_stack_size
