-- ===== src/ProcState/View.antt =====
-- The states that the word stands for, and the transitions that the functions make between them.
use separation_kernel.Prelude.{
  ℕ, ◌+◌, ◌*◌, ◌^◌, ◌<◌, ◌≡◌, refl, ap, ◌∙◌, Bool, true, false, ◌==◌, if◌then◌else◌, arith,
}
use separation_kernel.Prelude.Words.{◌&&&◌, ◌|||◌, ◌<<<◌}
use separation_kernel.Prelude.Bits.{bit_and_cut, bit_or_cut, bit_and-zero, bit_or-zero, zero-bit_or}
use separation_kernel.ProcState.Code
use separation_kernel.ProcState

-- What a process does; one that waits or receives does so at a channel.
pub data State : Type 0 where
  ready running suspended running_then_suspend suspended_busy : State
  waiting receiving receiving_then_suspend : ℕ → State

abbrev pub tagged : ℕ → ℕ → ℕ
tagged channel code = channel * 2 ^ 48 + code

abbrev pub encode : State → ℕ
encode ready = Code.ready
encode running = Code.running
encode suspended = Code.suspended
encode running_then_suspend = Code.running_then_suspend
encode suspended_busy = Code.suspended_busy
encode (waiting n) = tagged n Code.waiting
encode (receiving n) = tagged n Code.receiving
encode (receiving_then_suspend n) = tagged n Code.receiving_then_suspend

-- The channel fits the sixteen bits from bit 48 on.
abbrev pub Fits : State → Type 0
Fits (waiting n) = n < 2 ^ 16
Fits (receiving n) = n < 2 ^ 16
Fits (receiving_then_suspend n) = n < 2 ^ 16
Fits _ = Unit {0}

abbrev pub released : State → State
released running = ready
released running_then_suspend = suspended
released s = s

abbrev pub suspended_by : State → State × Bool
suspended_by ready = (suspended, true)
suspended_by running = (running_then_suspend, true)
suspended_by (waiting n) = (suspended, true)
suspended_by (receiving n) = (receiving_then_suspend n, true)
suspended_by s = (s, false)

pub tagged_and :
    (n code mask : ℕ) → code < 2 ^ 48 → mask < 2 ^ 48 → (tagged n code &&& mask) ≡ (code &&& mask)
tagged_and n code mask h m = ground (arith, bit_and_cut 48 n 0 code mask h m, bit_and-zero n)

pub tagged_or :
    (n code mask : ℕ)
    → code < 2 ^ 48
    → mask < 2 ^ 48
    → (tagged n code ||| mask) ≡ tagged n (code ||| mask)
tagged_or n code mask h m = ground (arith, bit_or_cut 48 n 0 code mask h m, bit_or-zero n)

pub tag : (n code : ℕ) → n < 2 ^ 16 → code < 2 ^ 48 → ((n <<< 48) ||| code) ≡ tagged n code
tag n code f h =
    let shift : (n <<< 48) ≡ tagged n 0 = omega arith in
    rw shift (tagged_or n 0 code (omega arith) h ∙ ap (tagged n) (zero-bit_or code))

abbrev pub acquired : State → State × Bool
acquired ready = (running, true)
acquired s = (s, false)

abbrev pub supervised : State → State × Bool
supervised suspended = (suspended_busy, true)
supervised s = (s, false)

abbrev pub resumed : State → State × Bool
resumed suspended = (ready, true)
resumed s = (s, false)

abbrev pub waiting_at : ℕ → State → State × Bool
waiting_at n running = (waiting n, true)
waiting_at n s = (s, false)

abbrev pub receiving_at : ℕ → State → State × Bool
receiving_at n (waiting m) = if m == n then (receiving m, true) else (waiting m, false)
receiving_at n s = (s, false)

-- A function on words does to the encoding of a state what `step` does to the state.
abbrev pub Implements : (ℕ → ℕ × Bool) → (State → State × Bool) → Type 0
Implements f step = (s : State) → Fits s → f (encode s) ≡ (encode (step s).0, (step s).1)

suspend-encode : Implements ProcState.supervisor_suspend suspended_by
unfolding ProcState.supervisor_suspend
suspend-encode (waiting n) f = ground (arith, tagged_and n 2 4, tagged_and n 2 7)
suspend-encode (receiving n) f = ground (arith, tagged_and n 3 4, tagged_and n 3 7, tagged_or n 3 4)
suspend-encode (receiving_then_suspend n) f = ground (arith, tagged_and n 7 4, tagged_or n 7 4)
suspend-encode s f = ground arith

pub release-encode : (s : State) → Fits s → ProcState.release (encode s) ≡ encode (released s)
unfolding ProcState.release
release-encode (waiting n) f = ground (arith, tagged_and n 2 2)
release-encode (receiving n) f = ground (arith, tagged_and n 3 2)
release-encode (receiving_then_suspend n) f = ground (arith, tagged_and n 7 2)
release-encode s f = ground arith

pub sender_release-encode :
    (n : ℕ)
    → (ProcState.sender_release (encode (receiving n)) ≡ encode ready)
      × (ProcState.sender_release (encode (receiving_then_suspend n)) ≡ encode suspended)
unfolding ProcState.sender_release
sender_release-encode n = ground (arith, tagged_and n 3 4, tagged_and n 7 4)

acquire-encode : Implements ProcState.acquire acquired
unfolding ProcState.acquire
acquire-encode ready f = refl
acquire-encode s f = ground arith

supervisor_acquire-encode : Implements ProcState.supervisor_acquire supervised
unfolding ProcState.supervisor_acquire
supervisor_acquire-encode ready f = refl
supervisor_acquire-encode s f = ground arith

supervisor_resume-encode : Implements ProcState.supervisor_resume resumed
unfolding ProcState.supervisor_resume
supervisor_resume-encode ready f = refl
supervisor_resume-encode s f = ground arith

pub receiver_wait-encode :
    (n : ℕ) → n < 2 ^ 16 → Implements (λ w. ProcState.receiver_wait w n) (waiting_at n)
unfolding ProcState.receiver_wait
receiver_wait-encode n h ready f = ground arith
receiver_wait-encode n h s f = ground (arith, tag n 2 h)

pub sender_acquire-encode :
    (n : ℕ) → n < 2 ^ 16 → Implements (λ w. ProcState.sender_acquire w n) (receiving_at n)
unfolding ProcState.sender_acquire
sender_acquire-encode n h (waiting m) f = ground (arith, tag n 2 h, tag n 3 h)
sender_acquire-encode n h s f = ground (arith, tag n 2 h)

-- The functions on the state word make exactly the transitions of the state machine, at every
-- channel below 2 ^ 16, and report success exactly when they take a process over.
pub word-State :
    (n : ℕ)
    → n < 2 ^ 16
    → Implements ProcState.acquire acquired
      × Implements ProcState.supervisor_acquire supervised
      × Implements ProcState.supervisor_resume resumed
      × Implements ProcState.supervisor_suspend suspended_by
      × Implements (λ w. ProcState.receiver_wait w n) (waiting_at n)
      × Implements (λ w. ProcState.sender_acquire w n) (receiving_at n)
      × ((s : State) → Fits s → ProcState.release (encode s) ≡ encode (released s))
      × (ProcState.sender_release (encode (receiving n)) ≡ encode ready)
      × (ProcState.sender_release (encode (receiving_then_suspend n)) ≡ encode suspended)
word-State n h = (
  acquire-encode,
  supervisor_acquire-encode,
  supervisor_resume-encode,
  suspend-encode,
  receiver_wait-encode n h,
  sender_acquire-encode n h,
  release-encode,
  (sender_release-encode n).0,
  (sender_release-encode n).1,
)
