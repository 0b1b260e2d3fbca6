-- ===== src/Kernel/Receive/Release.antt =====
-- One round of the loop of `unhold`.
use soi_24z.Base.{
  ℕ, suc, ◌≡◌, refl, sym, ap, ◌∙◌, false, List, none, some, ok, update_cases, update_here,
  update_there, ◌==◌,
}
use soi_24z.Kernel.Machine.{Machine}
use soi_24z.Kernel.Proc.{Proc, Kernel, task_q}
use soi_24z.Kernel.Queue.Links.{IsQueue}
use soi_24z.Kernel.Ipc.Ends.{set_proc-IsQueue}
use soi_24z.Kernel.Receive.{start_task, interrupt, release_head, unhold_loop}
use soi_24z.Kernel.Receive.Held.{takes_interrupt, nextheld, int_held, wiped, Untouched}

module _ (c : Machine) (rp : ℕ) (k : Kernel) where
  pub release_head-links : (j : ℕ) → nextheld (release_head rp k) j ≡ nextheld k j
  unfolding release_head
  release_head-links j =
      update_cases (λ (p : Proc). p.p_nextheld ≡ nextheld k j) k.proc rp
        (record (k.proc rp) { p_int_held = false }) j (λ same. ap (nextheld k) (sym same)) refl

  pub release_head-takes :
      (j : ℕ) → takes_interrupt c ((release_head rp k).proc j) ≡ takes_interrupt c (k.proc j)
  unfolding release_head takes_interrupt
  release_head-takes j =
      update_cases (λ (p : Proc). takes_interrupt c p ≡ takes_interrupt c (k.proc j)) k.proc rp
        (record (k.proc rp) { p_int_held = false }) j
        (λ same. ap (λ i. takes_interrupt c (k.proc i)) (sym same)) refl

  pub release_head-held : int_held (release_head rp k) rp ≡ false
  unfolding release_head
  release_head-held =
      ap (λ (p : Proc). p.p_int_held)
        (update_here k.proc rp (record (k.proc rp) { p_int_held = false }))

  pub release_head-others : (j : ℕ) → (j == rp) ≡ false → Untouched k (release_head rp k) j
  unfolding release_head
  release_head-others j other =
      (ap wiped (update_there k.proc rp (record (k.proc rp) { p_int_held = false }) j other), refl)

  pub release_head-buffer : ((release_head rp k).proc rp).p_messbuf ≡ (k.proc rp).p_messbuf
  unfolding release_head
  release_head-buffer =
      ap (λ (p : Proc). p.p_messbuf)
        (update_here k.proc rp (record (k.proc rp) { p_int_held = false }))

  pub release_head-memory : (release_head rp k).memory rp ≡ k.memory rp
  unfolding release_head
  release_head-memory = refl

  pub release_head-IsQueue :
      (xs : List ℕ) → IsQueue task_q k xs → IsQueue task_q (release_head rp k) xs
  unfolding release_head
  release_head-IsQueue xs q =
      let k1 = record k { held_head = nextheld k rp } in
      let w = set_proc-IsQueue task_q rp (record (k.proc rp) { p_int_held = false }) k1 xs refl q in
      record { chain = w.chain; last = w.last; distinct = w.distinct }

  pub release_head-head : (release_head rp k).held_head ≡ nextheld k rp
  unfolding release_head
  release_head-head = refl

  pub release_head-tail : nextheld k rp ≡ none → (release_head rp k).held_tail ≡ none
  unfolding release_head
  release_head-tail e = rw e refl

  pub release_head-switch : (release_head rp k).switching ≡ k.switching
  unfolding release_head
  release_head-switch = refl

  pub interrupt-start :
      k.switching ≡ false
      → interrupt c false rp (release_head rp k) ≡ start_task c rp (release_head rp k)
  unfolding interrupt
  interrupt-start s = rw (release_head-switch ∙ s) refl

  pub unhold_loop-stop :
      (fuel : ℕ) (k' : Kernel)
      → interrupt c false rp (release_head rp k) ≡ ok k'
      → k'.held_head ≡ none
      → unhold_loop (suc fuel) c rp k ≡ ok k'
  unfolding unhold_loop
  unhold_loop-stop fuel k' run e =
      rw run (ap (λ p. elim p [ none ↦ ok k' | some n ↦ unhold_loop fuel c n k' ]) e)

  pub unhold_loop-more :
      (fuel n : ℕ) (k' : Kernel)
      → interrupt c false rp (release_head rp k) ≡ ok k'
      → k'.held_head ≡ some n
      → unhold_loop (suc fuel) c rp k ≡ unhold_loop fuel c n k'
  unfolding unhold_loop
  unhold_loop-more fuel n k' run e =
      rw run (ap (λ p. elim p [ none ↦ ok k' | some n ↦ unhold_loop fuel c n k' ]) e)
