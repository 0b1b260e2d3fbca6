-- ===== src/Sync/Semaphores.antt =====
-- The buffer of synchronization/semaphores/buffer.cpp. Every thread may call any operation again
-- and again. A step is what one thread does between two operations on semaphores, or a part of it;
-- the threads take turns in any order.
pub mod Entry
use soi_24z.Base.{
  ℕ, zero, suc, ◌+◌, ◌-◌, ◌≡◌, Bool, true, false, ◌&&◌, Option, none, some, List, [], ◌∷◌, ◌++◌,
  ltb, ◌==◌, if◌then◌else◌, update,
}
use soi_24z.Sync.Values.{Op, put_a, put_b, get, can_a, can_b, change}

-- The two producers, A and B.
pub data Producer : Type 0 where
  a : Producer
  b : Producer

pub record Buffer : Type 0 where
  pub mutex : ℕ
  pub empty : ℕ
  pub stop_a : ℕ
  pub stop_b : ℕ
  pub wait_a : Bool
  pub wait_b : Bool
  pub values : List ℕ

-- canA and canB, waitA and waitB, by the producer.
abbrev pub can_put : Producer → Buffer → Bool
can_put a m = can_a m.values
can_put b m = can_b m.values

abbrev pub is_waiting : Producer → Buffer → Bool
is_waiting a m = m.wait_a
is_waiting b m = m.wait_b

abbrev pub set_waiting : Producer → Bool → Buffer → Buffer
set_waiting a f m = record m { wait_a = f }
set_waiting b f m = record m { wait_b = f }

abbrev pub stop_of : Producer → Buffer → ℕ
stop_of a m = m.stop_a
stop_of b m = m.stop_b

abbrev pub set_stop : Producer → ℕ → Buffer → Buffer
set_stop a n m = record m { stop_a = n }
set_stop b n m = record m { stop_b = n }

abbrev pub other : Producer → Producer
other a = b
other b = a

-- Where a thread is: outside; behind mutex.p in a put; at stopA.p or stopB.p; before push_back;
-- before it wakes the other producer; before mutex.v; in get behind empty.p, behind mutex.p, and
-- behind erase.
pub data Place : Type 0 where
  outside : Place
  checking : Producer → ℕ → Place
  stopped : Producer → ℕ → Place
  writing : Producer → ℕ → Place
  waking : Producer → Place
  unlocking : Place
  wanting : Place
  reading : Place
  handing : Place

-- The operations p and v of `mutex`; none while the semaphore is 0.
abbrev pub lock : Buffer → Option Buffer
lock m = if ltb 0 m.mutex then some (record m { mutex = m.mutex - 1 }) else none

abbrev pub unlock : Buffer → Buffer
unlock m = record m { mutex = m.mutex + 1 }

abbrev pub take_empty : Buffer → Option Buffer
take_empty m = if ltb 0 m.empty then some (record m { empty = m.empty - 1 }) else none

abbrev pub take_stop : Producer → Buffer → Option Buffer
take_stop w m = if ltb 0 (stop_of w m) then some (set_stop w (stop_of w m - 1) m) else none

abbrev pub give_stop : Producer → Buffer → Buffer
give_stop w m = set_stop w (stop_of w m + 1) m

abbrev pub then_at : Place → Option Buffer → Option (Buffer × Place)
then_at p none = none
then_at p (some m) = some (m, p)

-- The producer `w` waits and may put now.
abbrev pub can_wake : Producer → Buffer → Bool
can_wake w m = can_put w m && is_waiting w m

abbrev pub call : Op → Buffer → Option (Buffer × Place)
call (put_a value) m = then_at (checking a value) (lock m)
call (put_b value) m = then_at (checking b value) (lock m)
call get m = then_at wanting (take_empty m)

-- push_back with what stands around it in putA and putB.
abbrev pub write : Producer → ℕ → Buffer → Buffer
write w value m = record (set_waiting w false m) {
  values = m.values ++ value ∷ [];
  empty = m.empty + 1;
}

-- The end of get: the monitor goes to a producer that may put, or is free.
abbrev pub hand_over : Buffer → Buffer
hand_over m =
    if can_wake a m then give_stop a m else if can_wake b m then give_stop b m else unlock m

-- One step of a thread at a place, which calls `op` if it is outside; none if it has to wait.
unfoldable pub move : Op → Place → Buffer → Option (Buffer × Place)
move op outside m = call op m
move op (checking w value) m =
    if can_put w m
    then some (m, writing w value)
    else some (unlock (set_waiting w true m), stopped w value)
move op (stopped w value) m = then_at (writing w value) (take_stop w m)
move op (writing w value) m = some (write w value m, waking w)
move op (waking w) m =
    if can_wake (other w) m then some (give_stop (other w) m, unlocking) else some (m, unlocking)
move op unlocking m = some (unlock m, outside)
move op wanting m = then_at reading (lock m)
move op reading m = some (record m { values = change get m.values }, handing)
move op handing m = some (hand_over m, outside)

pub record System : Type 0 where
  pub buffer : Buffer
  pub place : ℕ → Place

abbrev pub start : System
start = record {
  buffer = record {
    mutex = 1;
    empty = 0;
    stop_a = 0;
    stop_b = 0;
    wait_a = false;
    wait_b = false;
    values = [];
  };
  place = λ i. outside;
}

abbrev pub moved : ℕ → System → Option (Buffer × Place) → System
moved i t none = t
moved i t (some (m, p)) = record { buffer = m; place = update t.place i p }

-- The thread `i` takes its turn.
pub data Step (t : System) : System → Type 0 where
  step :
      (i : ℕ) (op : Op) (m : Buffer) (p : Place)
      → move op (t.place i) t.buffer ≡ some (m, p)
      → Step t (record { buffer = m; place = update t.place i p })

pub data Steps (t : System) : System → Type 0 where
  here : Steps t t
  next : {u v : System} → Steps t u → Step u v → Steps t v

-- The threads take turns in the given order; one that has to wait stays where it is.
unfoldable pub run : List (ℕ × Op) → System → System
unfolding move
run [] t = t
run ((i, op) ∷ turns) t = run turns (moved i t (move op (t.place i) t.buffer))
