-- ===== src/Proc/Reg.antt =====
-- `struct regs` of inc/proc.h as an array of words: the index of each register.
use Prim.Native.Nat.{ℕ}

abbrev pub pc : ℕ
pc = 0

abbrev pub ra : ℕ
ra = 1

abbrev pub sp : ℕ
sp = 2

abbrev pub gp : ℕ
gp = 3

abbrev pub tp : ℕ
tp = 4

abbrev pub t0 : ℕ
t0 = 5

abbrev pub t1 : ℕ
t1 = 6

abbrev pub t2 : ℕ
t2 = 7

abbrev pub s0 : ℕ
s0 = 8

abbrev pub s1 : ℕ
s1 = 9

abbrev pub a0 : ℕ
a0 = 10

abbrev pub a1 : ℕ
a1 = 11

abbrev pub a2 : ℕ
a2 = 12

abbrev pub a3 : ℕ
a3 = 13

abbrev pub a4 : ℕ
a4 = 14

abbrev pub a5 : ℕ
a5 = 15

abbrev pub a6 : ℕ
a6 = 16

abbrev pub a7 : ℕ
a7 = 17

abbrev pub s2 : ℕ
s2 = 18

abbrev pub s3 : ℕ
s3 = 19

abbrev pub s4 : ℕ
s4 = 20

abbrev pub s5 : ℕ
s5 = 21

abbrev pub s6 : ℕ
s6 = 22

abbrev pub s7 : ℕ
s7 = 23

abbrev pub s8 : ℕ
s8 = 24

abbrev pub s9 : ℕ
s9 = 25

abbrev pub s10 : ℕ
s10 = 26

abbrev pub s11 : ℕ
s11 = 27

abbrev pub t3 : ℕ
t3 = 28

abbrev pub t4 : ℕ
t4 = 29

abbrev pub t5 : ℕ
t5 = 30

abbrev pub t6 : ℕ
t6 = 31

abbrev pub pmp : ℕ
pmp = 32

abbrev pub timeout : ℕ
timeout = 33

abbrev pub dest_cidx : ℕ
dest_cidx = 34

abbrev pub tpc : ℕ
tpc = 35

abbrev pub tsp : ℕ
tsp = 36

abbrev pub cause : ℕ
cause = 37

abbrev pub tval : ℕ
tval = 38

abbrev pub ppc : ℕ
ppc = 39

abbrev pub psp : ℕ
psp = 40

abbrev pub pa0 : ℕ
pa0 = 41

abbrev pub pa1 : ℕ
pa1 = 42

-- `N_REGISTERS`.
abbrev pub count : ℕ
count = 43
