-- ===== src/Tests/Messages.antt =====
-- Process 0 runs, process 2 waits at channel 3, and messages go from one to the other.
use separation_kernel.Prelude.{ℕ, ◌≡◌, ◌≢◌, refl, none, some, ◌==◌, if◌then◌else◌, arith}
use separation_kernel.Cap.{Cap, get_type, get_type_lem}
use separation_kernel.Cap.Sender
use separation_kernel.Cap.Server
use separation_kernel.Cap.Client
use separation_kernel.Cap.Valid.Defs.{IsValid}
use separation_kernel.CapNode
use separation_kernel.CapNode.{Ptr, is_deleted, get_cap}
use separation_kernel.CapNode.Forest.{Rings}
use separation_kernel.Proc.{get_cap_node}
use separation_kernel.Proc.Reg
use separation_kernel.ProcState.View.{encode, running, waiting}
use separation_kernel.Kernel.{Kernel, ok, yield, set_proc, put_reg, put_state, current_proc}
use separation_kernel.Kernel.ErrorCode
use separation_kernel.Kernel.Sound.{IsSound}
use separation_kernel.Kernel.Sound.Parts.{with_tables, set_proc-IsSound}
use separation_kernel.Runs.{Reach-IsSound}
use separation_kernel.Syscall.Ipc.{
  Message, syscall_invoke_sender, syscall_invoke_server, syscall_invoke_client,
}
use separation_kernel.Syscall.Ipc.Granted.{IsLeft}
use separation_kernel.Syscall.Ipc.Delivered.{IsDelivered, Grants, Sent}
use separation_kernel.Syscall.Ipc.Sent.{syscall_invoke_sender-Sent}
use separation_kernel.Syscall.Ipc.Replied.{syscall_invoke_server-Sent}
use separation_kernel.Syscall.Ipc.Called.{syscall_invoke_client-Called}
use separation_kernel.Tests.Runs.{
  example_layout, example_payload, example_layout-IsLayout, booted_kernel, booted_kernel-Reach,
}

abbrev with_channel : Kernel
with_channel = record booted_kernel { receivers = λ c i. if c == 3 then some 2 else none }

abbrev with_waiting : Kernel
with_waiting =
    set_proc with_channel 2 (record (with_channel.procs 2) { state = encode (waiting 3) })

unfoldable talking : Kernel
unfolding set_proc
talking = set_proc with_waiting 0 (record (with_waiting.procs 0) { state = encode running })

talking-IsSound : (rs : Rings) × IsSound 1000 rs talking
unfolding talking
talking-IsSound =
    let (rs, sound) =
      Reach-IsSound example_layout example_payload example_layout-IsLayout (omega arith)
        booted_kernel booted_kernel-Reach in
    let s1 =
      with_tables sound booted_kernel.schedule with_channel.receivers sound.frame
        (λ c i. ground arith) in
    let s2 =
      set_proc-IsSound s1 2 (record (with_channel.procs 2) { state = encode (waiting 3) }) refl
        refl in
    (rs, set_proc-IsSound s2 0 (record (with_waiting.procs 0) { state = encode running }) refl refl)

talking-IsLeft : IsLeft talking.heap (get_cap_node (current_proc talking) 63)
unfolding talking booted_kernel get_type get_cap is_deleted get_cap_node CapNode.insert put_reg
    put_state
talking-IsLeft e = absurd (ground arith)

talking_facts :
    (talking.receivers 3 0 ≡ some 2)
    × (talking.receivers 3 1 ≡ some 2)
    × ((talking.procs 2).state ≡ encode (waiting 3))
    × ((current_proc talking).state ≡ encode running)
unfolding talking booted_kernel CapNode.insert put_reg put_state
talking_facts = (refl, refl, refl, refl)

abbrev example_message : Message
example_message = record { msg0 = 11; msg1 = 12; msg2 = 13; msg3 = 14 }

abbrev sender_3 : Cap
sender_3 = record { word0 = 0x30006; word1 = 0 }

abbrev server_3 : Cap
server_3 = record { word0 = 0x30007; word1 = 0 }

abbrev client_3 : Cap
client_3 = record { word0 = 0x30008; word1 = 0 }

sender_3-IsValid : IsValid sender_3
unfolding Sender.get_channel
sender_3-IsValid = let kind = get_type_lem sender_3 in ground arith

server_3-IsValid : IsValid server_3
unfolding Server.get_channel
server_3-IsValid = let kind = get_type_lem server_3 in ground arith

client_3-IsValid : IsValid client_3
unfolding Client.get_channel
client_3-IsValid = let kind = get_type_lem client_3 in ground arith

syscall_invoke_sender-Sent_example :
    (k' : Kernel) × (syscall_invoke_sender sender_3 example_message 63 talking ≡ ok ErrorCode.ok k')
    × Sent talking k' 2 63 example_message
unfolding Sender.get_channel get_type
syscall_invoke_sender-Sent_example =
    syscall_invoke_sender-Sent talking-IsSound.1 sender_3 example_message 63 2 sender_3-IsValid refl
      talking_facts.0 talking_facts.2 talking-IsLeft

syscall_invoke_server-Sent_example :
    (k' : Kernel) × (syscall_invoke_server server_3 example_message 63 0 talking ≡ yield k')
    × IsDelivered (talking.procs 2) (k'.procs 2) example_message
    × ((k'.procs talking.current).state ≡ encode (waiting 3))
    × ((i : ℕ) → i ≢ 2 → i ≢ talking.current → k'.procs i ≡ talking.procs i)
    × Grants talking 2 63 k'.heap
unfolding Server.get_channel get_type
syscall_invoke_server-Sent_example =
    syscall_invoke_server-Sent talking-IsSound.1 server_3 example_message 63 0 2 server_3-IsValid
      refl talking_facts.1 talking_facts.2 talking_facts.3 talking-IsLeft

syscall_invoke_client-Called_example :
    (k' : Kernel) × (syscall_invoke_client client_3 example_message 63 talking ≡ yield k')
    × IsDelivered (talking.procs 2) (k'.procs 2) example_message
    × ((k'.procs talking.current).state ≡ encode (waiting 3))
    × ((k'.procs talking.current).regs Reg.a0 ≡ ErrorCode.interrupted)
    × ((i : ℕ) → i ≢ 2 → i ≢ talking.current → k'.procs i ≡ talking.procs i)
    × (k'.receivers 3 1 ≢ none)
    × Grants talking 2 63 k'.heap
unfolding Client.get_channel get_type
syscall_invoke_client-Called_example =
    syscall_invoke_client-Called talking-IsSound.1 client_3 example_message 63 2 client_3-IsValid
      refl talking_facts.0 talking_facts.2 talking_facts.3 talking-IsLeft
