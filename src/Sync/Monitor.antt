-- ===== src/Sync/Monitor.antt =====
-- The buffer of synchronization/monitors/buffer.cpp over the monitor of
-- synchronization/utils/monitor.h. Every thread may call any operation again and again. A step is
-- what one thread does between two operations on semaphores; the threads take turns in any order.
pub mod Rights
pub mod Safe
use soi_24z.Base.{
  ℕ, zero, suc, ◌+◌, ◌-◌, ◌≡◌, Bool, true, false, ◌&&◌, Option, none, some, List, [], ◌∷◌, ltb,
  ◌==◌, if◌then◌else◌, update,
}
use soi_24z.Sync.Values.{Op, put_a, put_b, get, Condition, can, needs, change}

-- The semaphore `s` of the monitor, and for each condition its semaphore `w` and its
-- waitingCount.
pub record Buffer : Type 0 where
  pub s : ℕ
  pub w : Condition → ℕ
  pub waiting_count : Condition → ℕ
  pub values : List ℕ

abbrev pub same : Condition → Condition → Bool
same Condition.a Condition.a = true
same Condition.b Condition.b = true
same Condition.c Condition.c = true
same x y = false

abbrev pub assign : Condition → ℕ → (Condition → ℕ) → Condition → ℕ
assign x n f y = if same y x then n else f y

-- Where a thread is: outside; behind enter; in the wait of a condition; before its change of the
-- values; with conditions left to signal; or in the enter of a signal, with those left behind it.
pub data Place : Type 0 where
  idle : Place
  entered : Op → Place
  waits : Op → Place
  ready : Op → Place
  signals : List Condition → Place
  reenters : List Condition → Place

-- What each operation signals, in order, behind its change.
abbrev pub to_signal : Op → List Condition
to_signal (put_a value) = Condition.b ∷ Condition.c ∷ []
to_signal (put_b value) = Condition.a ∷ Condition.c ∷ []
to_signal get = Condition.a ∷ Condition.b ∷ []

-- Monitor::enter; none while the semaphore is 0.
abbrev pub enter : Buffer → Option Buffer
enter m = if ltb 0 m.s then some (record m { s = m.s - 1 }) else none

abbrev pub leave : Buffer → Buffer
leave m = record m { s = m.s + 1 }

-- Monitor::wait up to the wait on the semaphore of the condition.
abbrev pub start_wait : Condition → Buffer → Buffer
start_wait x m =
    leave (record m { waiting_count = assign x (m.waiting_count x + 1) m.waiting_count })

-- Condition::wait; none while the semaphore is 0.
abbrev pub wait : Condition → Buffer → Option Buffer
wait x m = if ltb 0 (m.w x) then some (record m { w = assign x (m.w x - 1) m.w }) else none

-- Condition::signal for a condition on which a thread waits.
abbrev pub wake : Condition → Buffer → Buffer
wake x m = record m {
  waiting_count = assign x (m.waiting_count x - 1) m.waiting_count;
  w = assign x (m.w x + 1) m.w;
}

abbrev pub then_at : Place → Option Buffer → Option (Buffer × Place)
then_at p none = none
then_at p (some m) = some (m, p)

-- One step of a thread at a place, which calls `op` if it is outside; none if it has to wait.
unfoldable pub move : Op → Place → Buffer → Option (Buffer × Place)
move op idle m = then_at (entered op) (enter m)
move op (entered op') m =
    if can (needs op') m.values
    then some (m, ready op')
    else some (start_wait (needs op') m, waits op')
move op (waits op') m = then_at (ready op') (wait (needs op') m)
move op (ready op') m = some (record m { values = change op' m.values }, signals (to_signal op'))
move op (signals []) m = some (leave m, idle)
move op (signals (x ∷ xs)) m =
    if can x m.values && ltb 0 (m.waiting_count x)
    then some (wake x m, reenters xs)
    else some (m, signals xs)
move op (reenters xs) m = then_at (signals xs) (enter m)

pub record System : Type 0 where
  pub buffer : Buffer
  pub place : ℕ → Place

abbrev pub start : System
start = record {
  buffer = record { s = 1; w = λ x. 0; waiting_count = λ x. 0; values = [] };
  place = λ i. idle;
}

-- The thread `i` takes a step.
pub data Step (t : System) : System → Type 0 where
  step :
      (i : ℕ) (op : Op) (m : Buffer) (p : Place)
      → move op (t.place i) t.buffer ≡ some (m, p)
      → Step t (record { buffer = m; place = update t.place i p })

pub data Reach : System → Type 0 where
  here : Reach start
  next : {t u : System} → Reach t → Step t u → Reach u
