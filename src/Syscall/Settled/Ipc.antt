-- ===== src/Syscall/Settled/Ipc.antt =====
-- The invocations of receiver, sender, server and client capabilities keep the invariant of the
-- kernel.
use separation_kernel.Prelude.{
  ℕ, ◌≡◌, inl, inr, refl, ◌&&◌, Option, none, some, ◌==◌, if◌then◌else◌, Bool-cases,
}
use separation_kernel.Cap.{Cap, get_type, is_type}
use separation_kernel.Cap.CapType
use separation_kernel.Cap.Receiver
use separation_kernel.Cap.Sender
use separation_kernel.Cap.Server
use separation_kernel.Cap.Client
use separation_kernel.Cap.Valid.Defs.{IsValid}
use separation_kernel.CapNode.{Ptr}
use separation_kernel.CapNode.Forest.{Rings}
use separation_kernel.Proc.Reg
use separation_kernel.Kernel.{Kernel, ok, M, pure, ◌>>=◌, ◌>>◌, put_reg, put_state, get}
use separation_kernel.Kernel.ErrorCode
use separation_kernel.Kernel.Runs.{bind-ok}
use separation_kernel.Kernel.Sound.{IsSound, IsReceiver, Settled}
use separation_kernel.Kernel.Sound.Parts.{set_proc-IsSound, with_tables}
use separation_kernel.Syscall.Basic.{sched_yield}
use separation_kernel.Syscall.Ipc.{
  Message, wait, deliver, release_receiver, subscribe, syscall_invoke_receiver,
  syscall_invoke_sender, syscall_invoke_server, syscall_invoke_client,
}
use separation_kernel.Syscall.Settled.Steps.{bind-Settled, set_reg-IsSound, sched_yield-Settled}
use separation_kernel.Syscall.Settled.Deliver.{
  wait_yield-Settled, release_receiver-IsSound, acquired-Settled, delivered-Settled,
  deliver-Settled,
}

module _ {tables : Ptr} {rs : Rings} {k : Kernel} (sound : IsSound tables rs k) (cap : Cap)
    (valid : IsValid cap) where
  pub syscall_invoke_receiver-Settled :
      get_type cap ≡ CapType.receiver → Settled tables k.heap (syscall_invoke_receiver cap k)
  unfolding syscall_invoke_receiver is_type
  syscall_invoke_receiver-Settled kind =
      rw kind (wait_yield-Settled sound k.heap (Receiver.get_channel cap))

  pub syscall_invoke_sender-Settled :
      get_type cap ≡ CapType.sender
      → (m : Message) (src_cidx : ℕ)
      → Settled tables k.heap (syscall_invoke_sender cap m src_cidx k)
  unfolding syscall_invoke_sender is_type release_receiver put_state
  syscall_invoke_sender-Settled kind m src_cidx =
      rw kind (acquired-Settled sound (Sender.get_channel cap) 0 (valid.sender kind) _ reply)
    where
      reply :
          (got : Option ℕ) (k' : Kernel)
          → IsSound tables rs k'
          → IsReceiver got
          → Settled tables k'.heap (
              (elim got as (λ _. M ℕ) [
                | none ↦ pure ErrorCode.no_receiver
                | some to ↦ (do deliver to m src_cidx; release_receiver to; pure ErrorCode.ok)
              ])
                k')
      reply none k' sound' is_proc = (rs, sound')
      reply (some to) k' sound' is_proc =
          delivered-Settled sound' to m src_cidx is_proc (release_receiver to >> pure ErrorCode.ok)
            (λ k'' rs'' sound''. (rs'', release_receiver-IsSound sound'' to))

  pub syscall_invoke_server-Settled :
      get_type cap ≡ CapType.server
      → (m : Message) (src_cidx do_receive : ℕ)
      → Settled tables k.heap (syscall_invoke_server cap m src_cidx do_receive k)
  unfolding syscall_invoke_server is_type release_receiver put_state
  syscall_invoke_server-Settled kind m src_cidx do_receive =
      rw kind (acquired-Settled sound (Server.get_channel cap) 1 (valid.server kind) _ reply)
    where
      reply :
          (got : Option ℕ) (k' : Kernel)
          → IsSound tables rs k'
          → IsReceiver got
          → Settled {A = ℕ} tables k'.heap (
              ((elim got as (λ _. M (Unit {0})) [
                | none ↦ pure tt
                | some to ↦ (do deliver to m src_cidx; release_receiver to)
              ])
                  >> (wait (Server.get_channel cap) >> sched_yield))
                k')
      reply none k' sound' is_proc = wait_yield-Settled sound' k'.heap (Server.get_channel cap)
      reply (some to) k' sound' is_proc =
          bind-Settled {A = Unit {0}} {B = ℕ} tables k'.heap
            ((deliver to m src_cidx >> release_receiver to) k')
            (λ _. wait (Server.get_channel cap) >> sched_yield)
            (bind-Settled tables k'.heap (deliver to m src_cidx k') (λ _. release_receiver to)
              (deliver-Settled sound' to m src_cidx is_proc)
              (λ _ k'' rs'' e sound''. (rs'', release_receiver-IsSound sound'' to)))
            (λ _ k'' rs'' e sound''. wait_yield-Settled sound'' k'.heap (Server.get_channel cap))

  subscribe-IsSound :
      (k' : Kernel) (rs' : Rings) (channel : ℕ)
      → IsSound tables rs' k'
      → (k'' : Kernel) × (subscribe channel k' ≡ ok tt k'') × IsSound tables rs' k''
  unfolding subscribe
  subscribe-IsSound k' rs' channel sound' = made (k'.receivers channel 1) refl
    where
      made :
          (o : Option ℕ)
          → k'.receivers channel 1 ≡ o
          → (k'' : Kernel) × (subscribe channel k' ≡ ok tt k'') × IsSound tables rs' k''
      made (some to) e = (k', rw e refl, sound')
      made none e =
          let added : ℕ → ℕ → Option ℕ =
            λ c i. if (c == channel) && (i == 1) then some k'.current else k'.receivers c i in
          (
            record k' { receivers = added },
            rw e refl,
            with_tables sound' k'.schedule added sound'.frame (λ c i.
                elim (Bool-cases ((c == channel) && (i == 1))) [
                  | inl same ↦ rw same sound'.current
                  | inr other ↦ rw other (sound'.receivers c i)
                ]),
          )

  pub syscall_invoke_client-Settled :
      get_type cap ≡ CapType.client
      → (m : Message) (src_cidx : ℕ)
      → Settled tables k.heap (syscall_invoke_client cap m src_cidx k)
  unfolding syscall_invoke_client is_type release_receiver put_state put_reg wait
  syscall_invoke_client-Settled kind m src_cidx =
      rw kind (acquired-Settled sound (Client.get_channel cap) 0 (valid.client kind) _ reply)
    where
      reply :
          (got : Option ℕ) (k' : Kernel)
          → IsSound tables rs k'
          → IsReceiver got
          → Settled tables k'.heap (
              (elim got as (λ _. M ℕ) [
                | none ↦ pure ErrorCode.no_receiver
                | some to ↦ (do
                  deliver to m src_cidx
                  subscribe (Client.get_channel cap)
                  wait (Client.get_channel cap)
                  k ← get
                  put_reg k.current Reg.a0 ErrorCode.interrupted
                  release_receiver to
                  sched_yield)
              ])
                k')
      reply none k' sound' is_proc = (rs, sound')
      reply (some to) k' sound' is_proc =
          delivered-Settled sound' to m src_cidx is_proc _ (λ k'' rs'' sound''.
            let (k3, run, sound3) = subscribe-IsSound k'' rs'' (Client.get_channel cap) sound'' in
            rw (bind-ok (subscribe (Client.get_channel cap)) _ {k = k''} run) (
              sched_yield-Settled
                (release_receiver-IsSound
                  (set_reg-IsSound (set_proc-IsSound sound3 k3.current _ refl refl) k3.current
                    Reg.a0 ErrorCode.interrupted)
                  to)
                ℕ k'.heap))
