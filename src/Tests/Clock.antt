-- ===== src/Tests/Clock.antt =====
-- The clock and the addresses of a process.
use soi_24z.Base.{some, ◌+◌, ◌*◌, ◌≡◌, ◌≤◌, true, false, none, ok, arith}
use soi_24z.Kernel.Clock.{State, Timing}
use soi_24z.Kernel.Clock.Task.{
  common_setalarm, clock_round, set_time_request, get_time_request, time_reply,
}
use soi_24z.Kernel.Clock.Alarms.{AlarmSet, IsNext, common_setalarm-IsNext}
use soi_24z.Kernel.Clock.Times.{later, set_time-get_time}
use soi_24z.Kernel.Ipc.{done}
use soi_24z.Kernel.Segments.{umap, data_seg, vir_copy, Copy}
use soi_24z.Kernel.Segments.Copies.{InMemory, vir_copy-InMemory}
use soi_24z.Kernel.Segments.Bounds.{umap-Inside}
use soi_24z.Tests.Ipc.{machine}
use soi_24z.Tests.Sched.{process, three}

-- Sixty ticks in a second; the other tasks do nothing.
abbrev timing : Timing
timing = record {
  hz = 60;
  clock_task = 3;
  syn_alrm_task = 4;
  sigalrm = 14;
  long_max = 2147483647;
  watch = λ f s. ok s;
  tty_wakeup = λ now s. ok s;
  pr_restart = λ s. ok s;
}

-- Two minutes and a half after the start, and thirty more ticks.
abbrev two_minutes : State
two_minutes = record {
  clock = record {
    realtime = 9000;
    boot_time = 1000;
    next_alarm = 2147483647;
    watchdog_proc = 0;
    watch_dog = λ i. none;
    syn_al_alive = true;
    syn_table = λ i. false;
    pending_ticks = 30;
    sched_ticks = 6;
    prev_ptr = none;
    lost_ticks = 0;
    tty_timeout = 2147483647;
    quants = λ g. 1;
  };
  kernel = three;
}

common_setalarm-IsNext_example :
    AlarmSet 1 9120 none two_minutes (common_setalarm machine timing 1 120 none two_minutes)
    × IsNext 6 2147483647 (common_setalarm machine timing 1 120 none two_minutes)
common_setalarm-IsNext_example = common_setalarm-IsNext machine timing 1 120 none two_minutes

set_time-get_time_example :
    (s1 : State) × (s2 : State) × (clock_round machine timing 0 (set_time_request 5000) two_minutes
      ≡ ok (time_reply 5000, s1))
    × (clock_round machine timing 0 get_time_request (later 90 s1) ≡ ok (time_reply 5002, s2))
set_time-get_time_example =
    set_time-get_time machine timing 0 0 5000 90 two_minutes (omega arith) (omega arith)

umap-Inside_example :
    let r = umap machine (process 0 0 none) data_seg 300 100 in
    (r + 0 ≡ 25600 + 300) × (25600 ≤ r) × (r + 100 ≤ 110 * 256)
umap-Inside_example = umap-Inside machine (process 0 0 none) 300 100 (record {
  some_bytes = omega arith;
  above = omega arith;
  below = omega arith;
  vir_fits = omega arith;
  phys_fits = omega arith;
})

vir_copy-InMemory_example :
    (copy : Copy) × (vir_copy machine three 0 300 1 600 100 ≡ (done, some copy))
    × (copy.bytes ≡ 100)
    × InMemory machine (three.proc 0).map_d copy.src_phys 100
    × InMemory machine (three.proc 1).map_d copy.dst_phys 100
vir_copy-InMemory_example =
    vir_copy-InMemory machine three 0 300 1 600 100
      (record {
        some_bytes = omega arith;
        above = omega arith;
        below = omega arith;
        vir_fits = omega arith;
        phys_fits = omega arith;
      })
      (record {
        some_bytes = omega arith;
        above = omega arith;
        below = omega arith;
        vir_fits = omega arith;
        phys_fits = omega arith;
      })
      (omega arith) (omega arith)
