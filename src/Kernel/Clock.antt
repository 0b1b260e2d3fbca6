-- ===== src/Kernel/Clock.antt =====
-- The clock task and the clock's interrupt handler, scheduling/src/kernel/clock.c, for CHIP == INTEL.
-- Times are `long`s and what counts down is an `int`, as patterns of 32 bits; where times are
-- compared, alarms set and ticks counted they are taken to stay below LONG_MAX.
pub mod Task
pub mod Alarms
pub mod Times
use soi_24z.Base.{
  ℕ, zero, suc, ◌+◌, ◌-◌, ◌*◌, ◌/◌, ◌^◌, Bool, true, false, ◌&&◌, ◌||◌, not, ltb, leb, ◌==◌,
  if◌then◌else◌, Option, none, some, List, [], ◌∷◌, Ptr, ptr_eq, u32, update, indices_from, Run, ok,
  panic, fault, out_of_fuel, ◌>>=◌,
}
use soi_24z.Kernel.Groups.{Quants}
use soi_24z.Kernel.Ipc.{Status, done}
use soi_24z.Kernel.Machine.{Machine}
use soi_24z.Kernel.Proc.{Priority, ppri_task, Source, from, Proc, Kernel, set_proc}
use soi_24z.Kernel.Receive.{sys_call, interrupt}
use soi_24z.Kernel.Sched.{sched}
use soi_24z.Kernel.Signals.{cause_sig}

-- What `watch_dog` holds besides 0: `cause_alarm`, or a function of another task.
pub data Watchdog : Type 0 where
  cause_alarm_watch : Watchdog
  task_watch : ℕ → Watchdog

-- The static variables of clock.c, and lost_ticks, and tty_timeout of the terminal task.
pub record Clock : Type 0 where
  pub realtime : ℕ
  pub boot_time : ℕ
  pub next_alarm : ℕ
  pub watchdog_proc : ℕ
  pub watch_dog : ℕ → Option Watchdog
  pub syn_al_alive : Bool
  pub syn_table : ℕ → Bool
  pub pending_ticks : ℕ
  pub sched_ticks : ℕ
  pub prev_ptr : Ptr
  pub lost_ticks : ℕ
  pub tty_timeout : ℕ
  pub quants : Quants

-- The clock and the kernel.
pub record State : Type 0 where
  pub clock : Clock
  pub kernel : Kernel

-- What clock.c takes from elsewhere: HZ, the entries of CLOCK and SYN_ALRM_TASK, the numbers SIGALRM
-- and LONG_MAX, the functions of other tasks, and the calls of the terminal and printer tasks.
pub record Timing : Type 0 where
  pub hz : ℕ
  pub clock_task : ℕ
  pub syn_alrm_task : ℕ
  pub sigalrm : ℕ
  pub long_max : ℕ
  pub watch : ℕ → State → Run State
  pub tty_wakeup : ℕ → State → Run State
  pub pr_restart : State → Run State

-- SCHED_RATE, for MILLISEC 100.
abbrev pub sched_rate : Timing → ℕ
sched_rate t = 100 * t.hz / 1000

abbrev pub in_kernel : (Kernel → Run Kernel) → State → Run State
in_kernel f s = do k ← f s.kernel; ok (record s { kernel = k })

abbrev pub set_alarm : (rp ticks : ℕ) → State → State
set_alarm rp ticks s =
    let k = s.kernel in record s { kernel = set_proc rp (record (k.proc rp) { p_alarm = ticks }) k }

abbrev pub set_next_alarm : (ticks : ℕ) → State → State
set_next_alarm ticks s = record s { clock = record (s.clock) { next_alarm = ticks } }

-- `send` of the clock task is a call of sys_call; the message is not set.
unfoldable pub cause_alarm : Machine → Timing → (mess : ℕ) → State → Run State
cause_alarm c t mess s =
    let cl = s.clock in
    let s1 = record s {
      clock = record cl { syn_table = update cl.syn_table cl.watchdog_proc true };
    } in
    if cl.syn_al_alive then ok s1 else (do
      (r, k) ← sys_call c 1 (from t.syn_alrm_task) mess s.kernel
      ok (record s1 { kernel = k }))

-- An alarm goes off.
unfoldable pub go_off : Machine → Timing → (mess rp : ℕ) → State → Run State
unfolding cause_alarm
go_off c t mess rp s = elim (s.clock.watch_dog rp) [
  | none ↦ in_kernel (cause_sig c rp t.sigalrm) s
  | some w ↦
      let s1 = record s { clock = record (s.clock) { watchdog_proc = rp } } in
      elim w [ cause_alarm_watch ↦ cause_alarm c t mess s1 | task_watch f ↦ t.watch f s1 ]
]

-- Is the alarm of `rp` the next one so far?
abbrev pub sooner : (rp : ℕ) → State → State
sooner rp s =
    let alarm = (s.kernel.proc rp).p_alarm in
    if not (alarm == 0) && ltb alarm s.clock.next_alarm then set_next_alarm alarm s else s

unfoldable pub look_at : Machine → Timing → (mess rp : ℕ) → State → Run State
unfolding go_off
look_at c t mess rp s =
    let alarm = (s.kernel.proc rp).p_alarm in
    if alarm == 0
    then ok s
    else if leb alarm s.clock.realtime
    then (do s1 ← go_off c t mess rp s; ok (sooner rp (set_alarm rp 0 s1)))
    else ok (sooner rp s)

unfoldable pub look_at_all : Machine → Timing → (mess : ℕ) → List ℕ → State → Run State
unfolding look_at
look_at_all c t mess [] s = ok s
look_at_all c t mess (rp ∷ rps) s = do s1 ← look_at c t mess rp s; look_at_all c t mess rps s1

-- The quantum of the process that runs.
abbrev pub quantum : Timing → State → ℕ
quantum t s =
    let p = s.kernel.proc s.kernel.proc_ptr in
    if not (p.p_pid == 0) then u32 (sched_rate t * s.clock.quants p.group) else sched_rate t

abbrev pub new_quantum : Timing → State → State
new_quantum t s = record s {
  clock = record (s.clock) { sched_ticks = quantum t s; prev_ptr = some s.kernel.bill_ptr };
}

abbrev pub count_down : State → State
count_down s = record s {
  clock = record (s.clock) { sched_ticks = u32 (s.clock.sched_ticks + 2 ^ 32 - 1) };
}

abbrev pub lock_sched : Machine → Kernel → Run Kernel
lock_sched c k = do
  k' ← sched c.nr c.idle (record k { switching = true })
  ok (record k' { switching = false })

-- The end of `do_clocktick`: another user process after a full quantum.
unfoldable pub end_quantum : Machine → Timing → State → Run State
end_quantum c t s =
    let s1 = count_down s in
    if not (s1.clock.sched_ticks == 0) then ok s1 else do
      s2 ←
          if ptr_eq (some s1.kernel.bill_ptr) s1.clock.prev_ptr
          then in_kernel (lock_sched c) s1
          else ok s1
      ok (new_quantum t s2)

unfoldable pub do_clocktick : Machine → Timing → (mess : ℕ) → State → Run State
unfolding look_at_all end_quantum
do_clocktick c t mess s = do
  s1 ←
      if leb s.clock.next_alarm s.clock.realtime
      then look_at_all c t mess (indices_from 0 c.nr) (set_next_alarm t.long_max s)
      else ok s
  end_quantum c t s1
