-- ===== src/Tests/Sync.antt =====
-- The buffers of synchronization with a few threads.
use soi_24z.Base.{
  ℕ, ◌≡◌, refl, ◌≤◌, true, false, ◌&&◌, List, [], ◌∷◌, ◌++◌, ◌==◌, if◌then◌else◌, length, update,
}
use soi_24z.Sync.Monitor
use soi_24z.Sync.Monitor.Rights
use soi_24z.Sync.Semaphores
use soi_24z.Sync.Semaphores.{Producer}
use soi_24z.Sync.Semaphores.Entry
use soi_24z.Sync.Semaphores.Entry.{waking-TwoInside}
use soi_24z.Sync.Monitor.Safe.{Reach-IsSafe}
use soi_24z.Sync.Values.{Op, put_a, put_b, get, can, needs}

-- In the monitor: a thread that has entered with putA and may go on.
abbrev entered_a : Monitor.System
entered_a = record {
  buffer = record { s = 0; w = λ x. 0; waiting_count = λ x. 0; values = [] };
  place =
      update (update (λ i. Monitor.Place.idle) 0 (Monitor.Place.entered (put_a 65))) 0
        (Monitor.Place.ready (put_a 65));
}

entered_a-Reach : Monitor.Reach entered_a
unfolding Monitor.move
entered_a-Reach =
    Monitor.Reach.next
      (Monitor.Reach.next Monitor.Reach.here (
        Monitor.Step.step 0 (put_a 65) (record Monitor.start.buffer { s = 0 })
          (Monitor.Place.entered (put_a 65)) refl))
      (Monitor.Step.step 0 (put_a 65) (record Monitor.start.buffer { s = 0 })
        (Monitor.Place.ready (put_a 65)) refl)

Reach-IsSafe_example :
    ((i j : ℕ)
      → Rights.inside (entered_a.place i) ≡ true
      → Rights.inside (entered_a.place j) ≡ true
      → i ≡ j)
    × ((i : ℕ) (op : Op)
        → entered_a.place i ≡ Monitor.Place.ready op
        → can (needs op) entered_a.buffer.values ≡ true)
    × (length entered_a.buffer.values ≤ 9)
Reach-IsSafe_example = Reach-IsSafe entered_a entered_a-Reach

-- With semaphores: A has put the fourth value, B waits for it, and a consumer has passed `empty`.
abbrev four : Semaphores.System
four = record {
  buffer = record {
    mutex = 0;
    empty = 3;
    stop_a = 0;
    stop_b = 0;
    wait_a = false;
    wait_b = true;
    values = 65 ∷ 65 ∷ 65 ∷ 65 ∷ [];
  };
  place = λ i.
      if i == 0
      then Semaphores.Place.waking Producer.a
      else if i == 1
      then Semaphores.Place.stopped Producer.b 66
      else Semaphores.Place.wanting;
}

waking-TwoInside_example :
    (u : Semaphores.System) × Semaphores.Steps four u
    × (Entry.inside (u.place 1) ≡ true)
    × (Entry.inside (u.place 2) ≡ true)
waking-TwoInside_example =
    waking-TwoInside four 0 1 2 Producer.a 66 refl refl refl refl refl refl refl

-- The whole way there from the start: B waits, A puts four values, and a consumer enters.
abbrev one_put : List (ℕ × Op)
one_put = (0, put_a 65) ∷ (0, put_a 65) ∷ (0, put_a 65) ∷ (0, put_a 65) ∷ (0, put_a 65) ∷ []

abbrev turns : List (ℕ × Op)
turns =
    (1, put_b 66)
    ∷ (1, put_b 66)
    ∷ (one_put ++ (one_put ++ (one_put ++ (one_put ++ (1, put_b 66) ∷ (2, get) ∷ (2, get) ∷ []))))

abbrev reached : Semaphores.System
reached = Semaphores.run turns Semaphores.start

two_inside : (Entry.inside (reached.place 1) && Entry.inside (reached.place 2)) ≡ true
unfolding Semaphores.run
two_inside = refl
