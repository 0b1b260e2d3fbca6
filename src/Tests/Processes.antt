-- ===== src/Tests/Processes.antt =====
-- A process that exits, and signals.
use soi_24z.Base.{
  ℕ, ◌≡◌, refl, true, ◌==◌, if◌then◌else◌, none, some, ok, List, [], ◌∷◌, arith, Bool-cases, inl,
  inr,
}
use soi_24z.Kernel.Proc.{Kernel}
use soi_24z.Kernel.Queue.{queue_of}
use soi_24z.Kernel.Ipc.{done}
use soi_24z.Kernel.Ipc.Ends.{Steady}
use soi_24z.Kernel.Processes.{do_xit}
use soi_24z.Kernel.Processes.Left.{Waiting}
use soi_24z.Kernel.Processes.Exit.{Exited, do_xit-Exited}
use soi_24z.Kernel.Signals.{cause_sig, do_endsig}
use soi_24z.Kernel.Signals.Stops.{Stopped, cause_sig-Stopped}
use soi_24z.Kernel.Signals.Resumes.{Resumed, do_endsig-Resumed}
use soi_24z.Tests.Ipc.{machine}
use soi_24z.Tests.Sched.{process, no_flags, three, three-IsQueue}

-- The process 3 waits to send to 0; no process is ready.
abbrev queued : Kernel
queued = record three {
  proc = λ i. record (process i 0 none) {
    p_callerq = if i == 0 then some 3 else none;
    p_flags = record no_flags { sending = i == 3 };
  };
  head_user = none;
  tail_user = none;
}

abbrev queues : ℕ → List ℕ
queues d = if d == 0 then 3 ∷ [] else []

queued-Waiting : Waiting 6 queued queues
queued-Waiting = record {
  senders = λ d. elim (Bool-cases (d == 0)) [
    | inl here ↦ rw here (record { chain = (rw here refl, refl); distinct = (refl, tt) })
    | inr other ↦ rw other (record { chain = rw other refl; distinct = tt })
  ];
  fits = λ d. ground arith;
  once = λ a d e h h'. ground (arith, h, h');
}

queued-Steady : Steady 6 queued 3
unfolding queue_of
queued-Steady = record {
  entries = [];
  queue = record { chain = refl; last = tt; distinct = tt };
  fits = omega arith;
  guarded = refl;
}

do_xit-Exited_example :
    (k' : Kernel) × (do_xit machine 1 3 queued ≡ ok (done, k')) × Exited machine 3 queues k'
do_xit-Exited_example =
    do_xit-Exited machine 1 3 queued queues refl refl queued-Steady queued-Waiting
      (λ never. absurd (cc))

cause_sig-Stopped_example :
    (k' : Kernel) × (cause_sig machine 0 14 three ≡ ok k') × Stopped 0 14 (1 ∷ 2 ∷ []) three k'
unfolding queue_of
cause_sig-Stopped_example =
    cause_sig-Stopped machine 0 14 three [] (1 ∷ 2 ∷ []) refl refl refl refl three-IsQueue
      (omega arith)

-- The process 3 is stopped by one signal.
abbrev stopped : Kernel
stopped = record three {
  proc = λ i.
      if i == 3
      then record (process 3 0 none) {
        p_pendcount = 1;
        p_flags = record no_flags { sig_pending = true };
      }
      else three.proc i;
}

do_endsig-Resumed_example :
    (k' : Kernel) × (do_endsig 3 stopped ≡ ok (done, k')) × Resumed 3 (0 ∷ 1 ∷ 2 ∷ []) stopped k'
unfolding queue_of
do_endsig-Resumed_example =
    do_endsig-Resumed 3 stopped (0 ∷ 1 ∷ 2 ∷ []) refl refl refl
      (record {
        chain = (refl, (refl, (refl, refl)));
        last = refl;
        distinct = (refl, (refl, (refl, tt)));
      })
      refl
