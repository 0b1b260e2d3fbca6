-- ===== src/Kernel/Clock/Task.antt =====
-- The requests to the clock task, its times, and the interrupt handler.
use soi_24z.Base.{
  ℕ, ◌+◌, ◌-◌, ◌/◌, ◌^◌, Bool, true, false, ◌&&◌, ◌||◌, not, ltb, leb, ◌==◌, if◌then◌else◌, Option,
  none, some, List, [], ◌∷◌, ptr_eq, u32, update, indices_from, Run, ok, panic, ◌>>=◌,
}
use soi_24z.Kernel.Clock.{
  Watchdog, cause_alarm_watch, task_watch, Clock, State, Timing, set_next_alarm, set_alarm, sooner,
  do_clocktick, count_down, new_quantum,
}
use soi_24z.Kernel.Groups.{ℤ, pos, negsuc}
use soi_24z.Kernel.Machine.{Machine}
use soi_24z.Kernel.Proc.{ppri_task, Proc, Kernel, set_proc}
use soi_24z.Kernel.Receive.{interrupt}

abbrev pub istaskp : Proc → Bool
istaskp p = elim p.p_priority [ ppri_task ↦ true | _ ↦ false ]

unfoldable pub get_uptime : Clock → ℕ
get_uptime cl = u32 (cl.realtime + cl.pending_ticks)

-- The whole seconds of a time that is a `long`: the quotient of the pattern, cut towards 0.
unfoldable pub seconds_of : Timing → (ticks : ℕ) → ℕ
seconds_of t ticks =
    if ltb ticks (2 ^ 31) then ticks / t.hz else u32 (2 ^ 32 - (2 ^ 32 - ticks) / t.hz)

unfoldable pub do_get_time : Timing → Clock → ℕ
do_get_time t cl = u32 (cl.boot_time + seconds_of t cl.realtime)

unfoldable pub do_set_time : Timing → (new_time : ℕ) → Clock → Clock
do_set_time t new_time cl = record cl {
  boot_time = u32 (new_time + 2 ^ 32 - seconds_of t cl.realtime);
}

-- The quotient of a difference, cut towards 0.
abbrev div_diff : (a b d : ℕ) → ℤ
div_diff a b d =
    if leb b a
    then pos ((a - b) / d)
    else if (b - a) / d == 0
    then pos 0
    else negsuc ((b - a) / d - 1)

-- The seconds left until an alarm.
unfoldable pub seconds_left : Timing → (proc_nr : ℕ) → State → ℤ
seconds_left t i s =
    let alarm = (s.kernel.proc i).p_alarm in
    if alarm == 0 then pos 0 else div_diff (alarm + (t.hz - 1)) s.clock.realtime t.hz

-- The loop that finds the next alarm.
unfoldable pub next_of : List ℕ → State → State
next_of [] s = s
next_of (rp ∷ rps) s = next_of rps (sooner rp s)

unfoldable pub common_setalarm :
    Machine → Timing → (proc_nr delta_ticks : ℕ) → Option Watchdog → State → State
unfolding next_of
common_setalarm c t i delta_ticks function s =
    let s1 = set_alarm i (if delta_ticks == 0 then 0 else s.clock.realtime + delta_ticks) s in
    let watch_dog = update s1.clock.watch_dog i function in
    let s2 = record s1 { clock = record (s1.clock) { watch_dog = watch_dog } } in
    next_of (indices_from 0 c.nr) (set_next_alarm t.long_max s2)

unfoldable pub do_setalarm :
    Machine → Timing → (proc_nr delta_ticks : ℕ) → (func_to_call : Option ℕ) → State → ℤ × State
unfolding seconds_left common_setalarm
do_setalarm c t i delta_ticks func_to_call s =
    let asked : Option Watchdog = elim func_to_call [
      | none ↦ none
      | some f ↦ some (task_watch f)
    ] in
    let function = if istaskp (s.kernel.proc i) then asked else none in
    (seconds_left t i s, common_setalarm c t i delta_ticks function s)

unfoldable pub do_setsyn_alrm : Machine → Timing → (proc_nr delta_ticks : ℕ) → State → ℤ × State
unfolding seconds_left common_setalarm
do_setsyn_alrm c t i delta_ticks s =
    (seconds_left t i s, common_setalarm c t i delta_ticks (some cause_alarm_watch) s)

-- The requests, and the field of the reply that a request sets; there is no reply to HARD_INT.
pub data Request : Type 0 where
  hard_int_request get_uptime_request get_time_request : Request
  set_time_request : (new_time : ℕ) → Request
  set_alarm_request : (proc_nr delta_ticks : ℕ) → (func_to_call : Option ℕ) → Request
  set_sync_al_request : (proc_nr delta_ticks : ℕ) → Request
  bad_request : Request

pub data Answer : Type 0 where
  no_reply : Answer
  time_reply : ℕ → Answer
  left_reply : ℤ → Answer

-- The ticks that the handler has seen are added to the time.
unfoldable pub take_ticks : Clock → Clock
take_ticks cl = record cl { realtime = u32 (cl.realtime + cl.pending_ticks); pending_ticks = 0 }

-- A round of the main loop between the receive and the send.
unfoldable pub clock_round : Machine → Timing → (mess : ℕ) → Request → State → Run (Answer × State)
unfolding take_ticks do_clocktick do_get_time do_set_time do_setalarm do_setsyn_alrm
clock_round c t mess req s =
    let s1 = record s { clock = take_ticks s.clock } in
    elim req [
      | hard_int_request ↦ (do s2 ← do_clocktick c t mess s1; ok (no_reply, s2))
      | get_uptime_request ↦ ok (time_reply s1.clock.realtime, s1)
      | get_time_request ↦ ok (time_reply (do_get_time t s1.clock), s1)
      | set_time_request new_time ↦
          ok (time_reply new_time, record s1 { clock = do_set_time t new_time s1.clock })
      | set_alarm_request i delta f ↦
          let (left, s2) = do_setalarm c t i delta f s1 in ok (left_reply left, s2)
      | set_sync_al_request i delta ↦
          let (left, s2) = do_setsyn_alrm c t i delta s1 in ok (left_reply left, s2)
      | bad_request ↦ panic
    ]

-- `ticks` more for the process that runs, and for the one that is billed.
unfoldable pub charge : Machine → (reentered : Bool) → (ticks : ℕ) → Kernel → Kernel
charge c reentered ticks k =
    let rp = if reentered then c.hardware else k.proc_ptr in
    let k1 = set_proc rp (record (k.proc rp) { user_time = (k.proc rp).user_time + ticks }) k in
    let b = k1.bill_ptr in
    if not (rp == b) && not (rp == c.idle)
    then set_proc b (record (k1.proc b) { sys_time = (k1.proc b).sys_time + ticks }) k1
    else k1

-- Is there an alarm, or another user process after a full quantum?
abbrev pub needs_task : (now : ℕ) → State → Bool
needs_task now s =
    let waiting : Bool = elim s.kernel.head_user [ none ↦ false | some h ↦ true ] in
    leb s.clock.next_alarm now
    || ((s.clock.sched_ticks == 1) && (ptr_eq (some s.kernel.bill_ptr) s.clock.prev_ptr && waiting))

-- The end of the handler.
unfoldable pub tick : Machine → Timing → (reentered : Bool) → (now : ℕ) → State → Run State
unfolding interrupt
tick c t reentered now s =
    if needs_task now s
    then (do k ← interrupt c reentered t.clock_task s.kernel; ok (record s { kernel = k }))
    else let s1 = count_down s in ok (if s1.clock.sched_ticks == 0 then new_quantum t s1 else s1)

unfoldable pub clock_handler : Machine → Timing → (reentered : Bool) → State → Run State
unfolding charge tick
clock_handler c t reentered s = do
  let ticks = s.clock.lost_ticks + 1
  let cl = record (s.clock) { lost_ticks = 0; pending_ticks = s.clock.pending_ticks + ticks }
  let s1 : State = record { clock = cl; kernel = charge c reentered ticks s.kernel }
  let now = cl.realtime + cl.pending_ticks
  s2 ← if leb cl.tty_timeout now then t.tty_wakeup now s1 else ok s1
  s3 ← t.pr_restart s2
  tick c t reentered now s3

-- The clock of milli_delay, for a counter of the timer that was read; TIMER_FREQ is 1193182.
pub record MilliState : Type 0 where
  pub prev_count : ℕ
  pub accum_count : ℕ

abbrev pub milli_start : MilliState
milli_start = record { prev_count = 0; accum_count = 0 }

unfoldable pub milli_elapsed : (count : ℕ) → MilliState → ℕ × MilliState
milli_elapsed count ms =
    let more = if leb count ms.prev_count then ms.prev_count - count else 1 in
    let accum = u32 (ms.accum_count + more) in
    (accum / 1193, record { prev_count = count; accum_count = accum })
