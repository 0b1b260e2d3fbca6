-- ===== src/Sync/Semaphores/Entry.antt =====
-- Who may be inside: a producer that wakes the other one lets it in and opens the mutex as well.
use soi_24z.Base.{
  ℕ, ◌+◌, ◌-◌, ◌≡◌, refl, ap, ◌∙◌, Bool, true, false, some, arith, ltb, ◌==◌, update, update_here,
  update_there,
}
use soi_24z.Sync.Semaphores.{
  Producer, a, b, Buffer, System, Place, outside, checking, stopped, writing, waking, unlocking,
  wanting, reading, handing, move, Steps, step, here, next, other, can_wake, give_stop, unlock,
  stop_of, set_stop, take_stop, lock, then_at,
}
use soi_24z.Sync.Values.{get}

-- The thread is between mutex.p and mutex.v, or has been woken to go on there.
abbrev pub inside : Place → Bool
inside outside = false
inside (checking w value) = true
inside (stopped w value) = false
inside (writing w value) = true
inside (waking w) = true
inside unlocking = true
inside wanting = false
inside reading = true
inside handing = true

-- The semaphores after `w` has woken the other producer and opened the mutex, that one has taken
-- its turn, and another thread has entered.
abbrev woken : Producer → Buffer → Buffer
woken w m = unlock (give_stop (other w) m)

abbrev resumed : Producer → Buffer → Buffer
resumed w m = set_stop (other w) (stop_of (other w) (woken w m) - 1) (woken w m)

abbrev entered : Producer → Buffer → Buffer
entered w m = record (resumed w m) { mutex = (resumed w m).mutex - 1 }

stop_open : (w : Producer) (m : Buffer) → take_stop (other w) (woken w m) ≡ some (resumed w m)
stop_open a m = let up : ltb 0 (m.stop_b + 1) ≡ true = ground arith in rw up refl
stop_open b m = let up : ltb 0 (m.stop_a + 1) ≡ true = ground arith in rw up refl

lock_open : (w : Producer) (m : Buffer) → lock (resumed w m) ≡ some (entered w m)
lock_open a m = let up : ltb 0 (m.mutex + 1) ≡ true = ground arith in rw up refl
lock_open b m = let up : ltb 0 (m.mutex + 1) ≡ true = ground arith in rw up refl

-- Wherever one producer is about to wake the other, which waits at its semaphore and may put, while
-- a consumer has passed `empty` in get and is to take `mutex`, the threads can go on to a state in
-- which the woken producer and the consumer are both inside: mutex and stopA or stopB do not keep
-- the threads apart.
pub waking-TwoInside :
    (t : System) (i j k : ℕ) (w : Producer) (value : ℕ)
    → t.place i ≡ waking w
    → t.place j ≡ stopped (other w) value
    → t.place k ≡ wanting
    → (j == i) ≡ false
    → (k == i) ≡ false
    → (k == j) ≡ false
    → can_wake (other w) t.buffer ≡ true
    → (u : System) × Steps t u × (inside (u.place j) ≡ true) × (inside (u.place k) ≡ true)
unfolding move
waking-TwoInside t i j k w value at_i at_j at_k ji ki kj can =
    let m = t.buffer in
    let place1 = update t.place i unlocking in
    let place2 = update place1 i outside in
    let place3 = update place2 j (writing (other w) value) in
    let place4 = update place3 k reading in
    let j_stays : place2 j ≡ stopped (other w) value =
      update_there place1 i outside j ji ∙ (update_there t.place i unlocking j ji ∙ at_j) in
    let k_stays : place3 k ≡ wanting =
      update_there place2 j (writing (other w) value) k kj
      ∙ (update_there place1 i outside k ki ∙ (update_there t.place i unlocking k ki ∙ at_k)) in
    let wakes : move get (t.place i) m ≡ some (give_stop (other w) m, unlocking) =
      rw (at_i, move) (rw can refl) in
    let opens : move get (place1 i) (give_stop (other w) m) ≡ some (woken w m, outside) =
      rw (update_here t.place i unlocking, move) refl in
    let resumes : move get (place2 j) (woken w m) ≡ some (resumed w m, writing (other w) value) =
      rw (j_stays, move) (ap (then_at (writing (other w) value)) (stop_open w m)) in
    let enters : move get (place3 k) (resumed w m) ≡ some (entered w m, reading) =
      rw (k_stays, move) (ap (then_at reading) (lock_open w m)) in
    (
      record { buffer = entered w m; place = place4 },
      next
          (next
            (next (next here (step i get (give_stop (other w) m) unlocking wakes))
              (step i get (woken w m) outside opens))
            (step j get (resumed w m) (writing (other w) value) resumes))
          (step k get (entered w m) reading enters),
      ap inside (
          update_there place3 k reading j (ground (arith, kj))
          ∙ update_here place2 j (writing (other w) value)),
      ap inside (update_here place3 k reading),
    )
