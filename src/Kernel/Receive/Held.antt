-- ===== src/Kernel/Receive/Held.antt =====
-- Interrupts: `interrupt` of a task, and `unhold`, which runs the held ones.
use soi_24z.Base.{
  ℕ, ◌≡◌, refl, sym, ap, ◌∙◌, Bool, true, false, not, ◌&&◌, ◌==◌, if◌then◌else◌, List, [], ◌∷◌,
  ◌++◌, Ptr, none, update, subst, has, ok, update_here, update_there, update_cases, Bool-cases, inl,
  inr,
}
use soi_24z.Kernel.Machine.{Machine}
use soi_24z.Kernel.Proc.{Proc, Kernel, Message, task_q, set_proc}
use soi_24z.Kernel.Queue.Links.{IsQueue, enqueue-IsQueue}
use soi_24z.Kernel.Queue.Moved.{Moved, enqueue-Moved}
use soi_24z.Kernel.Ipc.{isrxhardware, stop_receiving}
use soi_24z.Kernel.Ipc.Ends.{set_proc-IsQueue, memory-IsQueue}
use soi_24z.Kernel.Receive.{hard_int, hardware_message, start_task}

-- Does the process wait for a message that may come from the hardware?
unfoldable pub takes_interrupt : Machine → Proc → Bool
takes_interrupt c p = (p.p_flags.receiving && not p.p_flags.sending) && isrxhardware c p.p_getfrom

abbrev pub nextheld : Kernel → ℕ → Ptr
nextheld k i = (k.proc i).p_nextheld

abbrev pub int_blocked : Kernel → ℕ → Bool
int_blocked k i = (k.proc i).p_int_blocked

abbrev pub int_held : Kernel → ℕ → Bool
int_held k i = (k.proc i).p_int_held

-- A process but for its link in a ready queue, and its memory, are as before.
abbrev pub wiped : Proc → Proc
wiped p = record p { p_nextready = none }

abbrev pub Untouched : Kernel → Kernel → ℕ → Type 0
Untouched k k' j = (wiped (k'.proc j) ≡ wiped (k.proc j)) × (k'.memory j ≡ k.memory j)

abbrev pub Untouched-trans :
    (k k' k'' : Kernel) (j : ℕ) → Untouched k k' j → Untouched k' k'' j → Untouched k k'' j
Untouched-trans k k' k'' j a b = (b.0 ∙ a.0, b.1 ∙ a.1)

-- The interrupt came to the process `i`, which waited for it: its buffer has the message of the
-- hardware, and it no longer receives and has no interrupt kept.
pub record Interrupted (c : Machine) (i : ℕ) (k k' : Kernel) : Type 0 where
  pub message :
      k'.memory i (k.proc i).p_messbuf
      ≡ record (k.memory i (k.proc i).p_messbuf) { m_source = c.hardware; m_type = hard_int }
  pub received : (k'.proc i).p_flags.receiving ≡ false
  pub unblocked : int_blocked k' i ≡ false

-- It counts from a state with the same buffer, and up to one that leaves the process alone.
pub Interrupted-from :
    (c : Machine) (i : ℕ) (k k1 k' : Kernel)
    → (k1.proc i).p_messbuf ≡ (k.proc i).p_messbuf
    → k1.memory i ≡ k.memory i
    → Interrupted c i k1 k'
    → Interrupted c i k k'
Interrupted-from c i k k1 k' buffer memory r =
    let told : Message → Message = λ m. record m { m_source = c.hardware; m_type = hard_int } in
    record {
      message =
          subst (λ b. k'.memory i b ≡ told (k.memory i b)) buffer
            (r.message ∙ ap (λ (f : ℕ → Message). told (f (k1.proc i).p_messbuf)) memory);
      received = r.received;
      unblocked = r.unblocked;
    }

pub Interrupted-to :
    (c : Machine) (i : ℕ) (k k1 k' : Kernel)
    → Untouched k1 k' i
    → Interrupted c i k k1
    → Interrupted c i k k'
Interrupted-to c i k k1 k' u r = record {
  message = ap (λ (f : ℕ → Message). f (k.proc i).p_messbuf) u.1 ∙ r.message;
  received = ap (λ (p : Proc). p.p_flags.receiving) u.0 ∙ r.received;
  unblocked = ap (λ (p : Proc). p.p_int_blocked) u.0 ∙ r.unblocked;
}

-- The held interrupts are as before, and all else of interest but for the process `rp`.
pub record HeldSame (c : Machine) (rp : ℕ) (k k' : Kernel) : Type 0 where
  pub links : (j : ℕ) → nextheld k' j ≡ nextheld k j
  pub head : k'.held_head ≡ k.held_head
  pub tail : k'.held_tail ≡ k.held_tail
  pub switch : k'.switching ≡ k.switching
  pub takes :
      (j : ℕ) → (j == rp) ≡ false → takes_interrupt c (k'.proc j) ≡ takes_interrupt c (k.proc j)
  pub blocked : (j : ℕ) → (j == rp) ≡ false → int_blocked k' j ≡ int_blocked k j
  pub held : (j : ℕ) → int_held k' j ≡ int_held k j
  pub others : (j : ℕ) → (j == rp) ≡ false → Untouched k k' j

HeldSame-trans :
    (c : Machine) (rp : ℕ) (k k' k'' : Kernel)
    → HeldSame c rp k k'
    → HeldSame c rp k' k''
    → HeldSame c rp k k''
HeldSame-trans c rp k k' k'' a b = record {
  links = λ j. b.links j ∙ a.links j;
  head = b.head ∙ a.head;
  tail = b.tail ∙ a.tail;
  switch = b.switch ∙ a.switch;
  takes = λ j h. b.takes j h ∙ a.takes j h;
  blocked = λ j h. b.blocked j h ∙ a.blocked j h;
  held = λ j. b.held j ∙ a.held j;
  others = λ j h. Untouched-trans k k' k'' j (a.others j h) (b.others j h);
}

Moved-HeldSame : (c : Machine) (rp : ℕ) (k k' : Kernel) → Moved k k' → HeldSame c rp k k'
unfolding takes_interrupt
Moved-HeldSame c rp k k' m = record {
  links = λ j. ap (λ (p : Proc). p.p_nextheld) (m.procs j);
  head = ap (λ o. o.2) m.rest;
  tail = ap (λ o. o.3) m.rest;
  switch = ap (λ o. o.4) m.rest;
  takes = λ j h. ap (takes_interrupt c) (m.procs j);
  blocked = λ j h. ap (λ (p : Proc). p.p_int_blocked) (m.procs j);
  held = λ j. ap (λ (p : Proc). p.p_int_held) (m.procs j);
  others = λ j h. (ap wiped (m.procs j), ap (λ o. o.1 j) m.rest);
}

set_proc-HeldSame :
    (c : Machine) (rp : ℕ) (v : Proc) (k : Kernel)
    → v.p_nextheld ≡ nextheld k rp
    → v.p_int_held ≡ int_held k rp
    → HeldSame c rp k (set_proc rp v k)
set_proc-HeldSame c rp v k e e' = record {
  links = λ j.
      update_cases (λ (p : Proc). p.p_nextheld ≡ nextheld k j) k.proc rp v j
        (λ same. e ∙ ap (nextheld k) (sym same)) refl;
  head = refl;
  tail = refl;
  switch = refl;
  takes = λ j h. ap (takes_interrupt c) (update_there k.proc rp v j h);
  blocked = λ j h. ap (λ (p : Proc). p.p_int_blocked) (update_there k.proc rp v j h);
  held = λ j.
      update_cases (λ (p : Proc). p.p_int_held ≡ int_held k j) k.proc rp v j
        (λ same. e' ∙ ap (int_held k) (sym same)) refl;
  others = λ j h. (ap wiped (update_there k.proc rp v j h), refl);
}

-- The queue of the tasks after the interrupt of `rp`.
abbrev pub woken : Bool → ℕ → List ℕ → List ℕ
woken b rp xs = if b then xs ++ rp ∷ [] else xs

-- An interrupt that is not held makes its task ready if the task waits for it, and else is kept.
pub start_task-step :
    (c : Machine) (rp : ℕ) (k : Kernel) (xs : List ℕ)
    → IsQueue task_q k xs
    → has rp xs ≡ false
    → (k' : Kernel) × (start_task c rp k ≡ ok k')
      × IsQueue task_q k' (woken (takes_interrupt c (k.proc rp)) rp xs)
      × HeldSame c rp k k'
      × (takes_interrupt c (k.proc rp) ≡ false → int_blocked k' rp ≡ true)
      × (takes_interrupt c (k.proc rp) ≡ true → Interrupted c rp k k')
unfolding start_task takes_interrupt
start_task-step c rp k xs q out =
    elim (Bool-cases ((k.proc rp).p_flags.receiving && not (k.proc rp).p_flags.sending)) [
      | inr busy ↦ rw busy kept
      | inl waits ↦ elim (Bool-cases (isrxhardware c (k.proc rp).p_getfrom)) [
        | inr other ↦ rw waits (rw other kept)
        | inl hard ↦
            let k0 = hardware_message c rp (k.proc rp).p_messbuf k in
            let v1 : Proc = record (k.proc rp) {
              p_flags = record ((k.proc rp).p_flags) { receiving = false };
            } in
            let k1 = stop_receiving rp k0 in
            let v2 : Proc = record (k1.proc rp) { p_int_blocked = false } in
            let k2 = set_proc rp v2 k1 in
            let q2 =
              set_proc-IsQueue task_q rp v2 k1 xs refl (
                set_proc-IsQueue task_q rp v1 k0 xs refl
                  (memory-IsQueue task_q k0.memory k xs q)) in
            let (k3, run, q3) = enqueue-IsQueue k2 rp task_q xs q2 out in
            let m3 = enqueue-Moved task_q rp k2 k3 run in
            let mess : Message = record (k.memory rp (k.proc rp).p_messbuf) {
              m_source = c.hardware;
              m_type = hard_int;
            } in
            let row = update (k.memory rp) (k.proc rp).p_messbuf mess in
            let there =
              update_here k1.proc rp v2
              ∙ ap (λ (p : Proc). record p { p_int_blocked = false }) (update_here k.proc rp v1) in
            let h =
              HeldSame-trans c rp k0 k2 k3
                (HeldSame-trans c rp k0 k1 k2 (set_proc-HeldSame c rp v1 k0 refl refl)
                  (set_proc-HeldSame c rp v2 k1 refl refl))
                (Moved-HeldSame c rp k2 k3 (enqueue-Moved task_q rp k2 k3 run)) in
            rw waits (
              rw hard (
                k3,
                run,
                q3,
                record {
                  links = h.links;
                  head = h.head;
                  tail = h.tail;
                  switch = h.switch;
                  takes = h.takes;
                  blocked = h.blocked;
                  held = h.held;
                  others = λ j o.
                      ((h.others j o).0, (h.others j o).1 ∙ update_there k.memory rp row j o);
                },
                λ never. absurd (cc),
                λ takes. record {
                  message =
                      ap (λ o. o.1 rp (k.proc rp).p_messbuf) m3.rest
                      ∙ ap (λ (f : ℕ → Message). f (k.proc rp).p_messbuf)
                          (update_here k.memory rp row)
                      ∙ update_here (k.memory rp) (k.proc rp).p_messbuf mess;
                  received =
                      ap (λ (p : Proc). p.p_flags.receiving) (m3.procs rp)
                      ∙ ap (λ (p : Proc). p.p_flags.receiving) there;
                  unblocked =
                      ap (λ (p : Proc). p.p_int_blocked) (m3.procs rp)
                      ∙ ap (λ (p : Proc). p.p_int_blocked) (update_here k1.proc rp v2);
                },
              ))
      ]
    ]
  where
    kept :
        (k' : Kernel) × (ok (set_proc rp (record (k.proc rp) { p_int_blocked = true }) k) ≡ ok k')
        × IsQueue task_q k' xs
        × HeldSame c rp k k'
        × (false ≡ false → int_blocked k' rp ≡ true)
        × (false ≡ true → Interrupted c rp k k')
    kept =
        let v : Proc = record (k.proc rp) { p_int_blocked = true } in
        (
          set_proc rp v k,
          refl,
          set_proc-IsQueue task_q rp v k xs refl q,
          set_proc-HeldSame c rp v k refl refl,
          λ _. ap (λ (p : Proc). p.p_int_blocked) (update_here k.proc rp v),
          λ never. absurd (cc),
        )
