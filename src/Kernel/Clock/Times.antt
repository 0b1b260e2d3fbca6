-- ===== src/Kernel/Clock/Times.antt =====
-- The time of day.
use native.Mathlib.Nat.{div-mul-le_self, le-div_iff_mul-le, div-le_self}
use soi_24z.Base.{ℕ, ◌+◌, ◌-◌, ◌/◌, ◌^◌, ◌<◌, ◌≤◌, ◌≡◌, refl, ap, ◌∙◌, u32, ok, arith, ltb, true}
use soi_24z.Kernel.Clock.{State, Timing}
use soi_24z.Kernel.Clock.Task.{
  do_get_time, do_set_time, take_ticks, clock_round, seconds_of, set_time_request, get_time_request,
  time_reply,
}
use soi_24z.Kernel.Machine.{Machine}

-- The handler has seen `ticks` since the last request.
abbrev pub later : (ticks : ℕ) → State → State
later ticks s = record s { clock = record (s.clock) { pending_ticks = ticks } }

div_mono : (a b d : ℕ) → 0 < d → a ≤ b → a / d ≤ b / d
div_mono a b d pos less =
    let low = div-mul-le_self a d in (le-div_iff_mul-le pos).1 (omega (arith, low, less))

seconds_of-low : (t : Timing) (ticks : ℕ) → ticks < 2 ^ 31 → seconds_of t ticks ≡ ticks / t.hz
unfolding seconds_of
seconds_of-low t ticks low = let b : ltb ticks (2 ^ 31) ≡ true = ground arith in rw b refl

-- After SET_TIME the clock task answers GET_TIME, `ticks` later, with the time that was set and the
-- whole seconds that began since, if there are ticks in a second and the ticks since the start are
-- then less than 2^31, that is at most LONG_MAX.
pub set_time-get_time :
    (c : Machine) (t : Timing) (mess mess' new_time ticks : ℕ) (s : State)
    → 0 < t.hz
    → s.clock.realtime + s.clock.pending_ticks + ticks < 2 ^ 31
    → let now = s.clock.realtime + s.clock.pending_ticks in
      (s1 : State) × (s2 : State) × (clock_round c t mess (set_time_request new_time) s
        ≡ ok (time_reply new_time, s1))
      × (clock_round c t mess' get_time_request (later ticks s1)
          ≡ ok (time_reply (u32 (new_time + ((now + ticks) / t.hz - now / t.hz))), s2))
unfolding clock_round do_get_time do_set_time take_ticks
set_time-get_time c t mess mess' new_time ticks s pos low =
    let now = s.clock.realtime + s.clock.pending_ticks in
    let s1 : State = record s { clock = do_set_time t new_time (take_ticks s.clock) } in
    let s2 : State = record s1 { clock = take_ticks (later ticks s1).clock } in
    let grows = div_mono now (now + ticks) t.hz pos (omega arith) in
    let first : u32 now ≡ now = omega (arith, low) in
    let second : u32 (u32 now + ticks) ≡ now + ticks = omega (arith, low) in
    let before : seconds_of t (u32 now) ≡ now / t.hz =
      ap (seconds_of t) first ∙ seconds_of-low t now (omega (arith, low)) in
    let after : seconds_of t (u32 (u32 now + ticks)) ≡ (now + ticks) / t.hz =
      ap (seconds_of t) second ∙ seconds_of-low t (now + ticks) (omega (arith, low)) in
    let less = div-le_self (now + ticks) t.hz in
    (s1, s2, refl, ap (λ n. ok (time_reply n, s2)) (omega (arith, low, less, grows, before, after)))
