-- ===== src/Tests/Ipc.antt =====
-- Messages between four processes, and two interrupts that are held.
use soi_24z.Base.{◌≡◌, refl, true, ◌==◌, if◌then◌else◌, none, some, ok, [], ◌∷◌, arith, update}
use soi_24z.Kernel.Machine.{Machine}
use soi_24z.Kernel.Proc.{Kernel, any, ppri_task}
use soi_24z.Kernel.Queue.{queue_of}
use soi_24z.Kernel.Ipc.{Status, mini_send}
use soi_24z.Kernel.Ipc.Waiting.{NoDeadlock, InTable}
use soi_24z.Kernel.Ipc.Senders.{Senders}
use soi_24z.Kernel.Ipc.Ends.{Steady, Apart}
use soi_24z.Kernel.Ipc.Send.{verdict, Sent, mini_send-Sent, mini_send-NoDeadlock}
use soi_24z.Kernel.Receive.{mini_rec, unhold}
use soi_24z.Kernel.Receive.First.{Received, mini_rec-Received}
use soi_24z.Kernel.Receive.Unhold.{Drained, unhold-Drained}
use soi_24z.Tests.Sched.{process, no_flags, three, three-IsQueue}

-- Four entries and two more; MM is the entry 1, and clicks have 256 bytes.
abbrev pub machine : Machine
machine = record {
  nr = 6;
  idle = 5;
  hardware = 4;
  mm = 1;
  fs = 2;
  first_server = 0;
  click_shift = 8;
  mess_size = 36;
  allow_gap = true;
  ksig = 4;
}

three-InTable : InTable 6 three
three-InTable i h = absurd (ground arith)

three-NoDeadlock : NoDeadlock three
three-NoDeadlock i = ([], ground arith)

three-Steady : Steady 6 three 0
unfolding queue_of
three-Steady = record {
  entries = 0 ∷ 1 ∷ 2 ∷ [];
  queue = three-IsQueue;
  fits = omega arith;
  guarded = refl;
}

three-Senders : Senders three 1 []
three-Senders = record { chain = refl; distinct = tt }

mini_send-Sent_example :
    (k' : Kernel) × (mini_send machine 0 1 0 three ≡ ok (verdict machine 0 1 0 three [], k'))
    × Sent 0 1 0 [] three (verdict machine 0 1 0 three []) k'
mini_send-Sent_example =
    mini_send-Sent machine 0 1 0 [] [] three three-InTable refl three-Steady (λ h. absurd (cc))
      three-Senders refl (omega arith)

mini_send-NoDeadlock_example :
    (r : Status) × (k' : Kernel) × (mini_send machine 0 1 0 three ≡ ok (r, k'))
    × InTable 6 k'
    × NoDeadlock k'
mini_send-NoDeadlock_example =
    mini_send-NoDeadlock machine 0 1 0 [] three refl (omega arith) three-InTable three-NoDeadlock
      three-Steady (λ h. absurd (cc)) three-Senders refl (omega arith)

-- The process 3 waits to send to 0, and is not ready.
abbrev waiting : Kernel
waiting = record three {
  proc =
      update
        (update three.proc 3
          (record (process 3 0 none) { p_flags = record no_flags { sending = true } }))
        0 (record (process 0 0 (some 1)) { p_callerq = some 3 });
}

waiting-Apart : Apart waiting 3
unfolding queue_of
waiting-Apart = record {
  entries = 0 ∷ 1 ∷ 2 ∷ [];
  queue = record {
    chain = (refl, (refl, (refl, refl)));
    last = refl;
    distinct = (refl, (refl, (refl, tt)));
  };
  outside = refl;
}

mini_rec-Received_example :
    (k' : Kernel) × (mini_rec machine 0 any 100 waiting ≡ ok k')
    × Received 0 3 100 [] waiting-Apart.entries waiting k'
mini_rec-Received_example =
    mini_rec-Received machine 0 any 100 [] 3 [] waiting-Apart.entries waiting refl
      (record { chain = (refl, refl); distinct = (refl, tt) }) tt refl (omega arith)
      waiting-Apart.queue waiting-Apart.outside

-- The interrupts of the tasks 2 and 3 are held; only 2 waits for one.
abbrev held : Kernel
held = record three {
  proc = λ i. record (process i 0 none) {
    p_priority = ppri_task;
    p_int_held = true;
    p_nextheld = if i == 2 then some 3 else none;
    p_flags = record no_flags { receiving = i == 2 };
  };
  held_head = some 2;
  held_tail = some 3;
}

unhold-Drained_example :
    (k' : Kernel) × (unhold machine held ≡ ok k') × Drained machine (2 ∷ 3 ∷ []) [] held k'
unhold-Drained_example =
    unhold-Drained machine 2 (3 ∷ []) [] held refl (refl, (refl, refl)) (refl, (refl, tt))
      (λ a h. refl) (record { chain = refl; last = tt; distinct = tt }) (omega arith)
