-- ===== src/Cap/CapType.antt =====
-- `enum cap_type`.
use Prim.Native.Nat.{ℕ}

abbrev pub empty : ℕ
empty = 0

abbrev pub memory : ℕ
memory = 1

abbrev pub pmp : ℕ
pmp = 2

abbrev pub time : ℕ
time = 3

abbrev pub channels : ℕ
channels = 4

abbrev pub receiver : ℕ
receiver = 5

abbrev pub sender : ℕ
sender = 6

abbrev pub server : ℕ
server = 7

abbrev pub client : ℕ
client = 8

abbrev pub supervisor : ℕ
supervisor = 9
