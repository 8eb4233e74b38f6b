-- ===== src/ProcState.antt =====
-- inc/proc_state.h and `enum proc_state` of inc/consts.h: the state word of a process. Each
-- function takes the word and returns it with the result; the low three bits hold the state, and
-- the bits from 48 on the channel of a process that waits.
pub mod Code
pub mod View
pub mod Protocol
use separation_kernel.Prelude.{ℕ, Bool, true, false, not, Option, none, some, ◌==◌, if◌then◌else◌}
use separation_kernel.Prelude.Words.{◌<<<◌, ◌&&&◌, ◌|||◌}
use separation_kernel.ProcState.Code

-- `compare_and_set(&proc->state, expected, desired)`.
unfoldable pub compare_and_set : (state expected desired : ℕ) → ℕ × Bool
compare_and_set state expected desired =
    if state == expected then (desired, true) else (state, false)

unfoldable pub release : ℕ → ℕ
release state = if (state &&& Code.waiting) == 0 then state &&& Code.suspended else state

unfoldable pub acquire : ℕ → ℕ × Bool
unfolding compare_and_set
acquire state = compare_and_set state Code.ready Code.running

unfoldable pub is_suspended : ℕ → Bool
is_suspended state = not ((state &&& Code.suspended) == 0)

unfoldable pub supervisor_acquire : ℕ → ℕ × Bool
unfolding compare_and_set
supervisor_acquire state = compare_and_set state Code.suspended Code.suspended_busy

-- `none` is a failed `kassert`.
unfoldable pub supervisor_release : ℕ → Option ℕ
supervisor_release state = if state == Code.suspended_busy then some Code.suspended else none

unfoldable pub supervisor_resume : ℕ → ℕ × Bool
unfolding supervisor_acquire
supervisor_resume state =
    let (state', done) = supervisor_acquire state in
    if done then (Code.ready, true) else (state', false)

unfoldable pub supervisor_suspend : ℕ → ℕ × Bool
supervisor_suspend state =
    let state' = state ||| Code.suspended in
    if not ((state &&& Code.suspended) == 0)
    then (state', false)
    else if (state &&& 0x7) == Code.waiting
    then (Code.suspended, true)
    else (state', true)

unfoldable pub receiver_wait : (state channel : ℕ) → ℕ × Bool
unfolding compare_and_set
receiver_wait state channel = compare_and_set state Code.running ((channel <<< 48) ||| Code.waiting)

unfoldable pub sender_acquire : (state channel : ℕ) → ℕ × Bool
unfolding compare_and_set
sender_acquire state channel =
    compare_and_set state ((channel <<< 48) ||| Code.waiting) ((channel <<< 48) ||| Code.receiving)

unfoldable pub client_wait : (state channel : ℕ) → ℕ × Bool
unfolding compare_and_set
client_wait state channel =
    compare_and_set state Code.running ((channel <<< 48) ||| Code.waiting ||| (1 <<< 63))

unfoldable pub sender_release : ℕ → ℕ
sender_release state = state &&& Code.suspended

unfoldable pub server_acquire : (state channel : ℕ) → ℕ × Bool
unfolding compare_and_set
server_acquire state channel =
    compare_and_set state ((channel <<< 48) ||| Code.waiting)
      ((channel <<< 48) ||| Code.receiving ||| (1 <<< 63))

unfoldable pub server_release : ℕ → ℕ
server_release state = state &&& Code.suspended
