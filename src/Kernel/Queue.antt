-- ===== src/Kernel/Queue.antt =====
-- The ready queues of scheduling/src/kernel/proc.c: ready, unready and pick_proc, for
-- CHIP == INTEL. `nr` is the number of entries of the process table, `idle` the index of IDLE.
pub mod Links
pub mod Remove
pub mod Moved
use soi_24z.Base.{
  ℕ, zero, suc, ◌+◌, ◌%◌, Bool, true, false, ◌&&◌, ◌==◌, if◌then◌else◌, none, some, Ptr, ptr_eq,
  Run, ok, panic, fault, out_of_fuel, ◌>>=◌,
}
use soi_24z.Kernel.Proc.{
  Priority, ppri_none, ppri_task, ppri_server, ppri_user, ppri_idle, Queue, task_q, server_q,
  user_q, Proc, Kernel, rdy_head, rdy_tail, set_head, set_tail, set_proc, set_nextready, nextready,
  deref,
}

-- The process that `pick_proc` runs, by the priorities of the three queues.
pub next_proc : (idle : ℕ) → Kernel → ℕ
next_proc idle k = elim k.head_task [
  | some rp ↦ rp
  | none ↦ elim k.head_server [
    | some rp ↦ rp
    | none ↦ elim k.head_user [ some rp ↦ rp | none ↦ idle ]
  ]
]

-- The process to bill, which a task or a server leaves as it was.
pub next_bill : (idle : ℕ) → Kernel → ℕ
next_bill idle k = elim k.head_task [
  | some rp ↦ k.bill_ptr
  | none ↦ elim k.head_server [
    | some rp ↦ k.bill_ptr
    | none ↦ elim k.head_user [ some rp ↦ rp | none ↦ idle ]
  ]
]

unfoldable pub pick_proc : (idle : ℕ) → Kernel → Kernel
unfolding next_proc next_bill
pick_proc idle k = record k { proc_ptr = next_proc idle k; bill_ptr = next_bill idle k }

-- Which queue a process stands in: istaskp, isservp, or else.
unfoldable pub queue_of : Priority → Queue
queue_of ppri_task = task_q
queue_of ppri_server = server_q
queue_of _ = user_q

-- An empty task queue makes a fresh task the next to run.
abbrev pub run_fresh : Queue → ℕ → Kernel → Kernel
run_fresh task_q rp k = record k { proc_ptr = rp }
run_fresh server_q rp k = k
run_fresh user_q rp k = k

-- The branches of `ready` for tasks and servers.
pub enqueue : Queue → ℕ → Kernel → Run Kernel
enqueue q rp k = do
  k' ← elim (rdy_head q k) [
    | some _ ↦ deref (rdy_tail q k) (λ t. ok (set_nextready t (some rp) k))
    | none ↦ ok (run_fresh q rp (set_head q (some rp) k))
  ]
  ok (set_nextready rp none (set_tail q (some rp) k'))

-- The branch of `ready` for user processes, which go to the front.
pub enqueue_user : ℕ → Kernel → Kernel
enqueue_user rp k =
    let k1 : Kernel = elim k.head_user [ none ↦ record k { tail_user = some rp } | some _ ↦ k ] in
    let k2 = set_nextready rp k1.head_user k1 in record k2 { head_user = some rp }

unfoldable pub ready_in : Queue → ℕ → Kernel → Run Kernel
ready_in task_q rp k = enqueue task_q rp k
ready_in server_q rp k = enqueue server_q rp k
ready_in user_q rp k = ok (enqueue_user rp k)

unfoldable pub ready : ℕ → Kernel → Run Kernel
unfolding ready_in queue_of
ready rp k = ready_in (queue_of (k.proc rp).p_priority) rp k

-- The search of `unready` through the body of a queue, from the entry `xp` on.
unfoldable pub unready_body : (fuel : ℕ) → Queue → (rp xp : ℕ) → Kernel → Run Kernel
unready_body zero q rp xp k = out_of_fuel
unready_body (suc fuel) q rp xp k =
    let found = set_nextready xp (nextready k rp) k in
    let rest : Run Kernel = elim (nextready k xp) [
      | none ↦ ok k
      | some next ↦ unready_body fuel q rp next k
    ] in
    if ptr_eq (nextready k xp) (some rp)
    then ok (if ptr_eq (rdy_tail q found) (some rp) then set_tail q (some xp) found else found)
    else rest

-- Taking the head off a queue runs another process, for tasks only if the head was running.
abbrev repick : (idle : ℕ) → Queue → ℕ → Kernel → Kernel
repick idle task_q rp k = if rp == k.proc_ptr then pick_proc idle k else k
repick idle server_q rp k = pick_proc idle k
repick idle user_q rp k = pick_proc idle k

-- `unready` behind the check of the task's stack.
unfoldable pub dequeue : (nr idle : ℕ) → Queue → ℕ → Kernel → Run Kernel
unfolding pick_proc
dequeue nr idle q rp k = elim (rdy_head q k) [
  | none ↦ ok k
  | some xp ↦
      if xp == rp
      then ok (repick idle q rp (set_head q (nextready k xp) k))
      else unready_body (suc nr) q rp xp k
]

abbrev pub stack_overrun : Queue → ℕ → Kernel → Bool
stack_overrun task_q rp k = if (k.proc rp).stack_ok then false else true
stack_overrun server_q rp k = false
stack_overrun user_q rp k = false

unfoldable pub unready : (nr idle : ℕ) → ℕ → Kernel → Run Kernel
unfolding queue_of
unready nr idle rp k =
    let q = queue_of (k.proc rp).p_priority in
    if stack_overrun q rp k then panic else dequeue nr idle q rp k
