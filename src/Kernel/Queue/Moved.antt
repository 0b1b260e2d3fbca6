-- ===== src/Kernel/Queue/Moved.antt =====
-- What `ready` and `unready` leave alone: all but the links and headers of the ready queues, and the
-- choice of the process to run.
use soi_24z.Base.{
  ℕ, zero, suc, ◌≡◌, refl, sym, ap, ◌∙◌, Bool, true, false, ◌==◌, if◌then◌else◌, none, some, Ptr,
  ptr_eq, Run, ok, panic, update_cases, Bool-cases, inl, inr, option_cases, the_result, >>=-ok,
  subst,
}
use soi_24z.Kernel.Proc.{
  Proc, Kernel, Message, Queue, task_q, server_q, user_q, rdy_head, rdy_tail, set_head, set_tail,
  set_nextready, nextready, deref,
}
use soi_24z.Kernel.Queue.{
  pick_proc, run_fresh, enqueue, enqueue_user, ready_in, ready, unready_body, repick, dequeue,
  unready, queue_of, stack_overrun,
}

-- The variables that are no part of the ready queues.
abbrev pub Others : Type 0
Others = ℕ × (ℕ → ℕ → Message) × Ptr × Ptr × Bool

abbrev pub others : Kernel → Others
others k = (k.sig_procs, k.memory, k.held_head, k.held_tail, k.switching)

-- The processes are as before but for their links.
pub record Moved (k k' : Kernel) : Type 0 where
  pub procs : (i : ℕ) → k'.proc i ≡ record (k.proc i) { p_nextready = nextready k' i }
  pub rest : others k' ≡ others k

pub Moved-refl : (k : Kernel) → Moved k k
Moved-refl k = record { procs = λ i. refl; rest = refl }

pub Moved-trans : (k k' k'' : Kernel) → Moved k k' → Moved k' k'' → Moved k k''
Moved-trans k k' k'' a b = record {
  procs =
      λ i. b.procs i ∙ ap (λ (p : Proc). record p { p_nextready = nextready k'' i }) (a.procs i);
  rest = b.rest ∙ a.rest;
}

set_nextready-Moved : (i : ℕ) (p : Ptr) (k : Kernel) → Moved k (set_nextready i p k)
set_nextready-Moved i p k = record {
  procs = λ j.
      update_cases (λ (v : Proc). v ≡ record (k.proc j) { p_nextready = v.p_nextready }) k.proc i
        (record (k.proc i) { p_nextready = p }) j
        (λ same. ap (λ x. record (k.proc x) { p_nextready = p }) (sym same)) refl;
  rest = refl;
}

set_head-Moved : (q : Queue) (p : Ptr) (k : Kernel) → Moved k (set_head q p k)
set_head-Moved task_q p k = record { procs = λ i. refl; rest = refl }
set_head-Moved server_q p k = record { procs = λ i. refl; rest = refl }
set_head-Moved user_q p k = record { procs = λ i. refl; rest = refl }

set_tail-Moved : (q : Queue) (p : Ptr) (k : Kernel) → Moved k (set_tail q p k)
set_tail-Moved task_q p k = record { procs = λ i. refl; rest = refl }
set_tail-Moved server_q p k = record { procs = λ i. refl; rest = refl }
set_tail-Moved user_q p k = record { procs = λ i. refl; rest = refl }

run_fresh-Moved : (q : Queue) (rp : ℕ) (k : Kernel) → Moved k (run_fresh q rp k)
run_fresh-Moved task_q rp k = record { procs = λ i. refl; rest = refl }
run_fresh-Moved server_q rp k = Moved-refl k
run_fresh-Moved user_q rp k = Moved-refl k

pub pick_proc-Moved : (idle : ℕ) (k : Kernel) → Moved k (pick_proc idle k)
unfolding pick_proc
pick_proc-Moved idle k = record { procs = λ i. refl; rest = refl }

deref-ok :
    (p : Ptr) (f : ℕ → Run Kernel) (k : Kernel)
    → deref p f ≡ ok k
    → (i : ℕ) × (p ≡ some i) × (f i ≡ ok k)
deref-ok none f k e = absurd (cc)
deref-ok (some i) f k e = (i, refl, e)

pub enqueue-Moved : (q : Queue) (rp : ℕ) (k k' : Kernel) → enqueue q rp k ≡ ok k' → Moved k k'
unfolding enqueue
enqueue-Moved q rp k k' run =
    let (k1, run1, run2) = >>=-ok _ _ k' run in
    let last = set_nextready rp none (set_tail q (some rp) k1) in
    let end : last ≡ k' = the_result last k' run2 in
    let step : Moved k1 last =
      Moved-trans k1 (set_tail q (some rp) k1) last (set_tail-Moved q (some rp) k1)
        (set_nextready-Moved rp none (set_tail q (some rp) k1)) in
    subst (Moved k) end (Moved-trans k k1 last (first k1 run1) step)
  where
    first :
        (k1 : Kernel)
        → (elim (rdy_head q k) as (λ _. Run Kernel) [
          | some _ ↦ deref (rdy_tail q k) (λ t. ok (set_nextready t (some rp) k))
          | none ↦ ok (run_fresh q rp (set_head q (some rp) k))
        ])
          ≡ ok k1
        → Moved k k1
    first k1 e = elim (option_cases (rdy_head q k)) [
      | inl nobody ↦
          let fresh = run_fresh q rp (set_head q (some rp) k) in
          subst (Moved k) (the_result fresh k1 (rw nobody at e)) (
            Moved-trans k (set_head q (some rp) k) fresh (set_head-Moved q (some rp) k)
              (run_fresh-Moved q rp (set_head q (some rp) k)))
      | inr (x, one) ↦
          let (t, at, linked) = deref-ok (rdy_tail q k) _ k1 (rw one at e) in
          subst (Moved k) (the_result (set_nextready t (some rp) k) k1 linked)
            (set_nextready-Moved t (some rp) k)
    ]

enqueue_user-Moved : (rp : ℕ) (k : Kernel) → Moved k (enqueue_user rp k)
unfolding enqueue_user
enqueue_user-Moved rp k = linked _ (first k.head_user)
  where
    first :
        (p : Ptr)
        → Moved k (elim p as (λ _. Kernel) [ none ↦ record k { tail_user = some rp } | some _ ↦ k ])
    first none = record { procs = λ i. refl; rest = refl }
    first (some x) = Moved-refl k

    linked :
        (k1 : Kernel)
        → Moved k k1
        → Moved k (record (set_nextready rp k1.head_user k1) { head_user = some rp })
    linked k1 m =
        let k2 = set_nextready rp k1.head_user k1 in
        Moved-trans k k2 (record k2 { head_user = some rp })
          (Moved-trans k k1 k2 m (set_nextready-Moved rp k1.head_user k1))
          (set_head-Moved user_q (some rp) k2)

ready_in-Moved : (q : Queue) (rp : ℕ) (k k' : Kernel) → ready_in q rp k ≡ ok k' → Moved k k'
unfolding ready_in
ready_in-Moved task_q rp k k' run = enqueue-Moved task_q rp k k' run
ready_in-Moved server_q rp k k' run = enqueue-Moved server_q rp k k' run
ready_in-Moved user_q rp k k' run =
    subst (Moved k) (the_result (enqueue_user rp k) k' run) (enqueue_user-Moved rp k)

pub ready-Moved : (rp : ℕ) (k k' : Kernel) → ready rp k ≡ ok k' → Moved k k'
unfolding ready
ready-Moved rp k k' run = ready_in-Moved (queue_of (k.proc rp).p_priority) rp k k' run

unready_body-Moved :
    (fuel : ℕ) (q : Queue) (rp xp : ℕ) (k k' : Kernel)
    → unready_body fuel q rp xp k ≡ ok k'
    → Moved k k'
unfolding unready_body
unready_body-Moved zero q rp xp k k' run = absurd (cc)
unready_body-Moved (suc fuel) q rp xp k k' run =
    elim (Bool-cases (ptr_eq (nextready k xp) (some rp))) [
      | inl hit ↦
          let found = set_nextready xp (nextready k rp) k in
          let done =
            mend (ptr_eq (rdy_tail q found) (some rp)) found
              (set_nextready-Moved xp (nextready k rp) k) in
          subst (Moved k) (the_result _ k' (rw hit at run)) done
      | inr miss ↦
          go (nextready k xp) (λ next e. unready_body-Moved fuel q rp next k k' e) (rw miss at run)
    ]
  where
    mend : (b : Bool) (c : Kernel) → Moved k c → Moved k (if b then set_tail q (some xp) c else c)
    mend true c m = Moved-trans k c (set_tail q (some xp) c) m (set_tail-Moved q (some xp) c)
    mend false c m = m

    go :
        (p : Ptr)
        → ((next : ℕ) → unready_body fuel q rp next k ≡ ok k' → Moved k k')
        → (elim p as (λ _. Run Kernel) [ none ↦ ok k | some next ↦ unready_body fuel q rp next k ])
          ≡ ok k'
        → Moved k k'
    go none later e = subst (Moved k) (the_result k k' e) (Moved-refl k)
    go (some next) later e = later next e

repick-Moved : (idle : ℕ) (q : Queue) (rp : ℕ) (k : Kernel) → Moved k (repick idle q rp k)
repick-Moved idle task_q rp k = elim (Bool-cases (rp == k.proc_ptr)) [
  | inl same ↦ rw same (pick_proc-Moved idle k)
  | inr other ↦ rw other (Moved-refl k)
]
repick-Moved idle server_q rp k = pick_proc-Moved idle k
repick-Moved idle user_q rp k = pick_proc-Moved idle k

dequeue-Moved :
    (nr idle : ℕ) (q : Queue) (rp : ℕ) (k k' : Kernel) → dequeue nr idle q rp k ≡ ok k' → Moved k k'
unfolding dequeue
dequeue-Moved nr idle q rp k k' run = go (rdy_head q k) run
  where
    beheaded : (xp : ℕ) → Moved k (repick idle q rp (set_head q (nextready k xp) k))
    beheaded xp =
        let k1 = set_head q (nextready k xp) k in
        Moved-trans k k1 (repick idle q rp k1) (set_head-Moved q (nextready k xp) k)
          (repick-Moved idle q rp k1)

    go :
        (p : Ptr)
        → (elim p as (λ _. Run Kernel) [
          | none ↦ ok k
          | some xp ↦
              if xp == rp
              then ok (repick idle q rp (set_head q (nextready k xp) k))
              else unready_body (suc nr) q rp xp k
        ])
          ≡ ok k'
        → Moved k k'
    go none e = subst (Moved k) (the_result k k' e) (Moved-refl k)
    go (some xp) e = elim (Bool-cases (xp == rp)) [
      | inl same ↦ subst (Moved k) (the_result _ k' (rw same at e)) (beheaded xp)
      | inr other ↦ unready_body-Moved (suc nr) q rp xp k k' (rw other at e)
    ]

pub unready-Moved : (nr idle rp : ℕ) (k k' : Kernel) → unready nr idle rp k ≡ ok k' → Moved k k'
unfolding unready
unready-Moved nr idle rp k k' run =
    elim (Bool-cases (stack_overrun (queue_of (k.proc rp).p_priority) rp k)) [
      | inl bad ↦ let never : panic ≡ ok k' = rw bad at run in absurd (cc)
      | inr fine ↦ dequeue-Moved nr idle (queue_of (k.proc rp).p_priority) rp k k' (rw fine at run)
    ]
