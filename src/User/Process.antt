-- ===== src/User/Process.antt =====
-- api/s3k.h on top of src/trap.S and src/syscall.c: what a process gets from its wrappers when the
-- kernel answers the call.
use separation_kernel.Prelude.{
  ℕ, ◌+◌, ◌%◌, ◌^◌, ◌≤◌, ◌<◌, ◌≡◌, refl, ap, ◌∙◌, true, false, some, ltb, ◌==◌, if◌then◌else◌,
  arith,
}
use separation_kernel.Cap.{Cap}
use separation_kernel.Config.{n_caps}
use separation_kernel.CapNode.{get_cap}
use separation_kernel.Proc.{Regs, get_cap_node, set_reg, read_register, write_register}
use separation_kernel.Proc.Reg
use separation_kernel.Kernel.{Kernel, Outcome, ok, fault, yield, current_proc, set_proc, put_reg}
use separation_kernel.Kernel.ErrorCode
use separation_kernel.Kernel.Runs.{bind-ok}
use separation_kernel.Syscall.Basic.{syscall_read_reg, syscall_write_reg}
use separation_kernel.Syscall.Caps.{syscall_read_cap}
use separation_kernel.Trap.{
  Cause, mcause_u_ecall, save_context, syscall_vector, trap_syscall, trap_entry,
}
use separation_kernel.User.Names.{Numbers, IsKernel}
use separation_kernel.User.{Ecall, load, s3k_read_cap, s3k_read_reg, s3k_write_reg}
use separation_kernel.User.Enters.{
  Request, perform, asks, at_ecall, perform-Enters, read_cap-enters,
}

abbrev pub ecall_cause : (timer : ℕ) → Regs → Cause
ecall_cause timer q = record {
  regs = q;
  interrupt = false;
  code = mcause_u_ecall;
  mtval = 0;
  timer = timer;
}

-- The registers that a process goes on with; `later` are those that it is given when it runs again
-- after it gave up the hart.
abbrev pub regs_after : (later : Regs) → Outcome (Unit {0}) → Regs
regs_after later (ok _ k) = (current_proc k).regs
regs_after later fault = later
regs_after later (yield _) = later

-- The `ecall` of the process that runs in state `k`.
unfoldable pub ecall_in : Kernel → (timer : ℕ) → (later : Regs) → Ecall
ecall_in k timer later q = regs_after later (trap_entry (ecall_cause timer q) k)

-- The registers are saved.
abbrev saved : Kernel → Regs → Kernel
saved k q =
    set_proc k k.current
      (record (current_proc k) { regs = λ i. if ltb i 32 then q i else (current_proc k).regs i })

-- The state in which the kernel runs the call: the process is to go on behind its `ecall`.
unfoldable pub entered : Kernel → Regs → Kernel
unfolding set_proc set_reg
entered k q =
    set_proc (saved k q) k.current
      (set_reg ((saved k q).procs k.current) Reg.pc ((q Reg.pc + 4) % 2 ^ 64))

-- The state with the result of the call in a0.
unfoldable pub answered : Kernel → (code : ℕ) → Kernel
unfolding set_proc set_reg
answered k code = set_proc k k.current (set_reg (current_proc k) Reg.a0 code)

-- A call leaves the registers beyond those of the hart, the table and the number of the process.
pub entered-current :
    (k : Kernel) (q : Regs)
    → ((current_proc (entered k q)).pid ≡ (current_proc k).pid)
      × ((current_proc (entered k q)).cap_table ≡ (current_proc k).cap_table)
      × ((i : ℕ) → 32 ≤ i → (current_proc (entered k q)).regs i ≡ (current_proc k).regs i)
unfolding entered
entered-current k q = (ground arith, ground arith, λ i h. ground arith)

module _ (k : Kernel) (timer : ℕ) (q : Regs) {code : ℕ} {k' : Kernel}
    (runs : syscall_vector timer q (entered k q) ≡ ok code k') where
  pub trap_entry-answered : trap_entry (ecall_cause timer q) k ≡ ok tt (answered k' code)
  unfolding trap_entry save_context trap_syscall put_reg entered answered
  trap_entry-answered = bind-ok (syscall_vector timer q) _ runs

  pub ecall_in-answered :
      (later : Regs) (i : ℕ)
      → ecall_in k timer later q i ≡ (if i == Reg.a0 then code else (current_proc k').regs i)
  unfolding ecall_in answered
  ecall_in-answered later i =
      ap (λ (o : Outcome (Unit {0})). regs_after later o i) trap_entry-answered ∙ ground arith

-- A process that makes a request which the kernel answers gets the answer as the result of the
-- wrapper.
pub perform-answered :
    (n : Numbers) (k k' : Kernel) (timer : ℕ) (later r : Regs) (req : Request) (code : ℕ)
    → IsKernel n
    → asks timer r req (entered k (at_ecall n r req)) ≡ ok code k'
    → perform n (ecall_in k timer later) r req ≡ some code
perform-answered n k k' timer later r req code h answer =
    let (made, enters) = perform-Enters n (ecall_in k timer later) timer r req h in
    let q = at_ecall n r req in
    let runs : syscall_vector timer q (entered k q) ≡ ok code k' = rw enters answer in
    made ∙ ap (λ (v : ℕ). some v) (ecall_in-answered k timer q runs later Reg.a0)

entered-cap :
    (k : Kernel) (q : Regs) (cidx : ℕ)
    → get_cap (entered k q).heap (get_cap_node (current_proc (entered k q)) cidx)
      ≡ get_cap k.heap (get_cap_node (current_proc k) cidx)
unfolding entered get_cap_node
entered-cap k q cidx =
    let same = (entered-current k q).1 in
    ap (λ (t : ℕ). get_cap k.heap (t + cidx % n_caps)) (unfold entered in same)

-- The state behind a read of a capability.
abbrev has_read : Kernel → Cap → Kernel
has_read k cap =
    let k1 = set_proc k k.current (set_reg (current_proc k) Reg.a1 cap.word0) in
    set_proc k1 k.current (set_reg (k1.procs k.current) Reg.a2 cap.word1)

syscall_read_cap-has_read :
    (k : Kernel) (cidx : ℕ)
    → let cap = get_cap k.heap (get_cap_node (current_proc k) cidx) in
      (syscall_read_cap cidx k ≡ ok ErrorCode.ok (has_read k cap))
      × ((current_proc (has_read k cap)).regs Reg.a1 ≡ cap.word0)
      × ((current_proc (has_read k cap)).regs Reg.a2 ≡ cap.word1)
unfolding syscall_read_cap put_reg set_proc set_reg
syscall_read_cap-has_read k cidx = (refl, ground arith, ground arith)

-- s3k_read_cap returns ERROR_OK and the capability at the index.
pub s3k_read_cap-get_cap :
    (n : Numbers) (k : Kernel) (timer : ℕ) (later r : Regs) (cidx : ℕ)
    → IsKernel n
    → s3k_read_cap n (ecall_in k timer later) r cidx
      ≡ (ErrorCode.ok, get_cap k.heap (get_cap_node (current_proc k) cidx))
unfolding s3k_read_cap
s3k_read_cap-get_cap n k timer later r cidx h =
    let q = load (load r Reg.a0 cidx) Reg.t0 n.read_cap in
    let cap = get_cap k.heap (get_cap_node (current_proc k) cidx) in
    let (reads, word0, word1) =
      rw (entered-cap k q cidx) at (syscall_read_cap-has_read (entered k q) cidx) in
    let runs : syscall_vector timer q (entered k q) ≡ ok ErrorCode.ok (has_read (entered k q) cap) =
      rw (read_cap-enters n timer r cidx h) reads in
    let got = ecall_in-answered k timer q runs later in
    ground (arith, got Reg.a0, got Reg.a1, got Reg.a2, word0, word1)

-- The state behind a write to a register.
abbrev has_written : Kernel → (regnr val : ℕ) → Kernel
has_written k regnr val = set_proc k k.current (set_reg (current_proc k) regnr val)

syscall_write_reg-has_written :
    (k : Kernel) (regnr val : ℕ)
    → regnr < Reg.count
    → syscall_write_reg regnr val k ≡ ok ((current_proc k).regs regnr) (has_written k regnr val)
unfolding syscall_write_reg write_register
syscall_write_reg-has_written k regnr val small =
    let test : ltb regnr Reg.count ≡ true = ground arith in rw test refl

syscall_read_reg-regs :
    (k : Kernel) (regnr : ℕ)
    → regnr < Reg.count
    → syscall_read_reg regnr k ≡ ok ((current_proc k).regs regnr) k
unfolding syscall_read_reg read_register
syscall_read_reg-regs k regnr small =
    let test : ltb regnr Reg.count ≡ true = ground arith in rw test refl

answered-has_written :
    (k : Kernel) (regnr val code : ℕ)
    → 32 ≤ regnr
    → (current_proc (answered (has_written k regnr val) code)).regs regnr ≡ val
unfolding answered set_proc set_reg
answered-has_written k regnr val code far = ground arith

-- What a process writes with s3k_write_reg to a register that is not one of the hart, it reads with
-- s3k_read_reg in its next call; the write returns what was there.
pub s3k_read_reg-write_reg :
    (n : Numbers) (k : Kernel) (timer timer' : ℕ) (later later' r r' : Regs) (regnr val : ℕ)
    → IsKernel n
    → 32 ≤ regnr
    → regnr < Reg.count
    → (k' : Kernel) × (trap_entry (ecall_cause timer (at_ecall n r (Request.write_reg regnr val))) k
        ≡ ok tt k')
      × (s3k_write_reg n (ecall_in k timer later) r regnr val ≡ some ((current_proc k).regs regnr))
      × (s3k_read_reg n (ecall_in k' timer' later') r' regnr ≡ some val)
s3k_read_reg-write_reg n k timer timer' later later' r r' regnr val h far small =
    let q = at_ecall n r (Request.write_reg regnr val) in
    let k0 = entered k q in
    let old = (current_proc k0).regs regnr in
    let k' = answered (has_written k0 regnr val) old in
    let q' = at_ecall n r' (Request.read_reg regnr) in
    let writes = syscall_write_reg-has_written k0 regnr val small in
    let same : (current_proc (entered k' q')).regs regnr ≡ val =
      (entered-current k' q').2 regnr far ∙ answered-has_written k0 regnr val old far in
    let reads : syscall_read_reg regnr (entered k' q') ≡ ok val (entered k' q') =
      rw same at (syscall_read_reg-regs (entered k' q') regnr small) in
    (
      k',
      trap_entry-answered k timer q (
          rw (perform-Enters n (ecall_in k timer later) timer r (Request.write_reg regnr val) h).1
            writes),
      perform-answered n k _ timer later r (Request.write_reg regnr val) old h writes
          ∙ ap (λ (v : ℕ). some v) ((entered-current k q).2 regnr far),
      perform-answered n k' _ timer' later' r' (Request.read_reg regnr) val h reads,
    )
