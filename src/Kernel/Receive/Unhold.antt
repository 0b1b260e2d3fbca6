-- ===== src/Kernel/Receive/Unhold.antt =====
-- `unhold` runs the interrupts that were held.
use soi_24z.Base.{
  has-apart, ℕ, zero, suc, ◌<◌, ◌≤◌, ◌≡◌, refl, sym, ap, ◌∙◌, Bool, true, false, ◌==◌,
  if◌then◌else◌, List, [], ◌∷◌, ◌++◌, none, arith, has, has-append, length, Chain, Chain-frame,
  Distinct, Disjoint, select, ok, subst, Bool-cases, inl, inr, eq_of_==,
}
use mathlib.Core.List.{append_assoc, append-nil}
use soi_24z.Kernel.Machine.{Machine}
use soi_24z.Kernel.Proc.{Proc, Kernel, task_q, deref, deref-some}
use soi_24z.Kernel.Queue.Links.{IsQueue}
use soi_24z.Kernel.Receive.{release_head, unhold_loop, unhold}
use soi_24z.Kernel.Receive.Held.{
  takes_interrupt, nextheld, int_blocked, int_held, Interrupted, Interrupted-from, Interrupted-to,
  Untouched, Untouched-trans, HeldSame, woken, start_task-step,
}
use soi_24z.Kernel.Receive.Release.{
  release_head-links, release_head-takes, release_head-held, release_head-others,
  release_head-buffer, release_head-memory, release_head-IsQueue, release_head-head,
  release_head-tail, release_head-switch, interrupt-start, unhold_loop-stop, unhold_loop-more,
}

-- The interrupts of the processes `hs` were run, and none of them is held: those that wait for one
-- have its message and are behind the ready tasks `xs`, in order, and the others have it kept.
pub record Drained (c : Machine) (hs xs : List ℕ) (k k' : Kernel) : Type 0 where
  pub head : k'.held_head ≡ none
  pub tail : k'.held_tail ≡ none
  pub queue : IsQueue task_q k' (xs ++ select (λ i. takes_interrupt c (k.proc i)) hs)
  pub blocked :
      (i : ℕ) → has i hs ≡ true → takes_interrupt c (k.proc i) ≡ false → int_blocked k' i ≡ true
  pub delivered :
      (i : ℕ) → has i hs ≡ true → takes_interrupt c (k.proc i) ≡ true → Interrupted c i k k'
  pub unheld : (i : ℕ) → has i hs ≡ true → int_held k' i ≡ false
  pub others : (i : ℕ) → has i hs ≡ false → Untouched k k' i

select-same :
    (p q : ℕ → Bool) (xs : List ℕ)
    → ((a : ℕ) → has a xs ≡ true → p a ≡ q a)
    → select p xs ≡ select q xs
select-same p q [] same = refl
select-same p q (x ∷ xs) same = elim (Bool-cases (q x)) [
  | inl hit ↦
      rw (same x (ground arith) ∙ hit) (
        rw hit
          (ap (λ (l : List ℕ). x ∷ l) (select-same p q xs (λ a h. same a (ground (arith, h))))))
  | inr miss ↦
      rw (same x (ground arith) ∙ miss)
        (rw miss (select-same p q xs (λ a h. same a (ground (arith, h)))))
]

-- The tasks that are ready when the interrupts of `rp` and then of `hs` were run.
woken-select :
    (p : ℕ → Bool) (rp : ℕ) (hs xs : List ℕ)
    → woken (p rp) rp xs ++ select p hs ≡ xs ++ select p (rp ∷ hs)
woken-select p rp hs xs = elim (Bool-cases (p rp)) [
  | inl hit ↦ rw hit (append_assoc xs (rp ∷ []) (select p hs))
  | inr miss ↦ rw miss refl
]

-- The processes still held are not among the ready tasks.
woken-Disjoint :
    (b : Bool) (rp : ℕ) (hs xs : List ℕ)
    → has rp hs ≡ false
    → Disjoint (rp ∷ hs) xs
    → Disjoint hs (woken b rp xs)
woken-Disjoint true rp hs xs new off a h =
    ground (arith, has-append a xs (rp ∷ []), off a, has-apart a rp hs h new)
woken-Disjoint false rp hs xs new off a h = off a (ground (arith, h))

-- The interrupt of `rp` was run, then those of `hs`.
module _ (c : Machine) (rp : ℕ) (hs xs : List ℕ) (k k1 k2 k3 : Kernel) where
  Drained-cons :
      has rp hs ≡ false
      → ((j : ℕ) → takes_interrupt c (k1.proc j) ≡ takes_interrupt c (k.proc j))
      → HeldSame c rp k1 k2
      → (takes_interrupt c (k1.proc rp) ≡ false → int_blocked k2 rp ≡ true)
      → (takes_interrupt c (k1.proc rp) ≡ true → Interrupted c rp k1 k2)
      → int_held k1 rp ≡ false
      → ((j : ℕ) → (j == rp) ≡ false → Untouched k k1 j)
      → (k1.proc rp).p_messbuf ≡ (k.proc rp).p_messbuf
      → k1.memory rp ≡ k.memory rp
      → Drained c hs (woken (takes_interrupt c (k1.proc rp)) rp xs) k2 k3
      → Drained c (rp ∷ hs) xs k k3
  Drained-cons new took step kept came let_go apart buffer memory d =
      let p : ℕ → Bool = λ i. takes_interrupt c (k.proc i) in
      let still : (i : ℕ) → has i hs ≡ true → takes_interrupt c (k2.proc i) ≡ p i =
        λ i h. step.takes i (has-apart i rp hs h new) ∙ took i in
      record {
        head = d.head;
        tail = d.tail;
        queue =
            subst (IsQueue task_q k3)
              (ap (λ b. woken b rp xs ++ select (λ i. takes_interrupt c (k2.proc i)) hs) (took rp)
                ∙ ap (λ (l : List ℕ). woken (p rp) rp xs ++ l)
                    (select-same (λ i. takes_interrupt c (k2.proc i)) p hs still)
                ∙ woken-select p rp hs xs)
              d.queue;
        blocked = λ i h t. elim (Bool-cases (i == rp)) [
          | inl same ↦
              let e = eq_of_== i rp same in
              subst (λ a. int_blocked k3 a ≡ true) (sym e)
                (ap (λ (q : Proc). q.p_int_blocked) (d.others rp new).0
                  ∙ kept (took rp ∙ ap p (sym e) ∙ t))
          | inr other ↦
              let later : has i hs ≡ true = ground (arith, h, other) in
              d.blocked i later (still i later ∙ t)
        ];
        delivered = λ i h t. elim (Bool-cases (i == rp)) [
          | inl same ↦
              let e = eq_of_== i rp same in
              subst (λ a. Interrupted c a k k3) (sym e)
                (Interrupted-from c rp k k1 k3 buffer memory (
                  Interrupted-to c rp k1 k2 k3 (d.others rp new)
                    (came (took rp ∙ ap p (sym e) ∙ t))))
          | inr other ↦
              let later : has i hs ≡ true = ground (arith, h, other) in
              let u = Untouched-trans k k1 k2 i (apart i other) (step.others i other) in
              Interrupted-from c i k k2 k3 (ap (λ (q : Proc). q.p_messbuf) u.0) u.1
                (d.delivered i later (still i later ∙ t))
        ];
        unheld = λ i h. elim (Bool-cases (i == rp)) [
          | inl same ↦
              subst (λ a. int_held k3 a ≡ false) (sym (eq_of_== i rp same))
                (ap (λ (q : Proc). q.p_int_held) (d.others rp new).0 ∙ (step.held rp ∙ let_go))
          | inr other ↦ d.unheld i (ground (arith, h, other))
        ];
        others = λ i out.
            let other : (i == rp) ≡ false = ground (arith, out) in
            Untouched-trans k k2 k3 i
              (Untouched-trans k k1 k2 i (apart i other) (step.others i other))
              (d.others i (ground (arith, out)));
      }

Drained-nil :
    (c : Machine) (xs : List ℕ) (k : Kernel)
    → k.held_head ≡ none
    → k.held_tail ≡ none
    → IsQueue task_q k xs
    → Drained c [] xs k k
Drained-nil c xs k h t q = record {
  head = h;
  tail = t;
  queue = subst (IsQueue task_q k) (sym (append-nil xs)) q;
  blocked = λ i h. absurd (cc);
  delivered = λ i h. absurd (cc);
  unheld = λ i h. absurd (cc);
  others = λ i h. (refl, refl);
}

unhold_loop-Drained :
    (c : Machine) (fuel rp : ℕ) (hs xs : List ℕ) (k : Kernel)
    → k.switching ≡ false
    → Chain (nextheld k) (nextheld k rp) hs none
    → Distinct (rp ∷ hs)
    → Disjoint (rp ∷ hs) xs
    → IsQueue task_q k xs
    → length hs < fuel
    → (k' : Kernel) × (unhold_loop fuel c rp k ≡ ok k') × Drained c (rp ∷ hs) xs k k'
unhold_loop-Drained c zero rp hs xs k sw ch d off q few = absurd (omega arith)
unhold_loop-Drained c (suc fuel) rp [] xs k sw ch d off q few =
    let k1 = release_head rp k in
    let (k2, run, q2, step, kept, came) =
      start_task-step c rp k1 xs (release_head-IsQueue c rp k xs q) (off rp (ground arith)) in
    let xs2 = woken (takes_interrupt c (k1.proc rp)) rp xs in
    let empty : k2.held_head ≡ none = step.head ∙ release_head-head c rp k ∙ ch in
    let end = Drained-nil c xs2 k2 empty (step.tail ∙ release_head-tail c rp k ch) q2 in
    (
      k2,
      unhold_loop-stop c rp k fuel k2 (interrupt-start c rp k sw ∙ run) empty,
      Drained-cons c rp [] xs k k1 k2 k2 d.0 (release_head-takes c rp k) step kept came
          (release_head-held c rp k) (release_head-others c rp k) (release_head-buffer c rp k)
          (release_head-memory c rp k) end,
    )
unhold_loop-Drained c (suc fuel) rp (h ∷ hs) xs k sw ch d off q few =
    let k1 = release_head rp k in
    let (k2, run, q2, step, kept, came) =
      start_task-step c rp k1 xs (release_head-IsQueue c rp k xs q) (off rp (ground arith)) in
    let b = takes_interrupt c (k1.proc rp) in
    let chain : Chain (nextheld k2) (nextheld k2 h) hs none =
      subst (λ p. Chain (nextheld k2) p hs none) (sym (step.links h ∙ release_head-links c rp k h))
        (Chain-frame (nextheld k) (nextheld k2) (nextheld k h) hs none
          (λ j in_it. step.links j ∙ release_head-links c rp k j) ch.1) in
    let (k3, run3, rest) =
      unhold_loop-Drained c fuel h hs (woken b rp xs) k2
        (step.switch ∙ release_head-switch c rp k ∙ sw) chain d.1
        (woken-Disjoint b rp (h ∷ hs) xs d.0 off) q2 (omega arith) in
    (
      k3,
      unhold_loop-more c rp k fuel h k2 (interrupt-start c rp k sw ∙ run)
            (step.head ∙ release_head-head c rp k ∙ ch.0)
          ∙ run3,
      Drained-cons c rp (h ∷ hs) xs k k1 k2 k3 d.0 (release_head-takes c rp k) step kept came
          (release_head-held c rp k) (release_head-others c rp k) (release_head-buffer c rp k)
          (release_head-memory c rp k) rest,
    )

-- If the kernel is not switching and the interrupts of the processes `h` and `hs`, at most as many
-- as there are entries, are held in this order, each once and of none of the ready tasks `xs`, then
-- `unhold` ends with no interrupt held and none of these processes marked as held: those that wait
-- for an interrupt have the message of the hardware, no longer receive, and are ready behind `xs`,
-- in this order; the others have theirs kept for their next receive; and the other processes are,
-- but for their links in the ready queue, as before, their memory too.
pub unhold-Drained :
    (c : Machine) (h : ℕ) (hs xs : List ℕ) (k : Kernel)
    → k.switching ≡ false
    → Chain (nextheld k) k.held_head (h ∷ hs) none
    → Distinct (h ∷ hs)
    → Disjoint (h ∷ hs) xs
    → IsQueue task_q k xs
    → length hs ≤ c.nr
    → (k' : Kernel) × (unhold c k ≡ ok k') × Drained c (h ∷ hs) xs k k'
unfolding unhold
unhold-Drained c h hs xs k sw ch d off q few =
    let (k', run, drained) =
      unhold_loop-Drained c (suc c.nr) h hs xs k sw ch.1 d off q (omega (arith, few)) in
    (
      k',
      ap (λ b. if b then ok k else deref k.held_head (λ rp. unhold_loop (suc c.nr) c rp k)) sw
          ∙ deref-some k.held_head h (λ rp. unhold_loop (suc c.nr) c rp k) ch.0
          ∙ run,
      drained,
    )
