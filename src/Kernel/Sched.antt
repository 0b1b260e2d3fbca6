-- ===== src/Kernel/Sched.antt =====
-- `sched` of scheduling/src/kernel/proc.c: round robin over the users' queue and over the three
-- groups of processes.
pub mod Order
pub mod Steps
pub mod Promote
pub mod Rounds
pub mod Fair
use soi_24z.Base.{
  ℕ, zero, suc, ◌+◌, ◌%◌, Bool, true, false, ◌==◌, if◌then◌else◌, none, some, Ptr, ptr_eq, Run, ok,
  out_of_fuel, ◌>>=◌,
}
use soi_24z.Kernel.Proc.{Kernel, user_q, set_nextready, nextready, deref}
use soi_24z.Kernel.Queue.{pick_proc}

-- The head `h` of the queue becomes its tail.
pub rotate : ℕ → Kernel → Run Kernel
rotate h k = do
  k1 ← deref k.tail_user (λ t. ok (set_nextready t (some h) k))
  let k2 = record k1 { tail_user = some h }
  let k3 = record k2 { head_user = nextready k2 h }
  ok (set_nextready h none k3)

-- The inner `while`: the entry before the first one of the group, from `prev_node` on, or the
-- last entry.
pub find_prev : (fuel group prev_node : ℕ) → Kernel → Run ℕ
find_prev zero group prev_node k = out_of_fuel
find_prev (suc fuel) group prev_node k = elim (nextready k prev_node) [
  | none ↦ ok prev_node
  | some n ↦ elim ((k.proc n).group == group) [
    | true ↦ ok prev_node
    | false ↦ find_prev fuel group n k
  ]
]

-- The entry behind `prev_node` moves to the front of the queue.
pub to_front : ℕ → Kernel → Run Kernel
to_front prev_node k = elim (nextready k prev_node) [
  | none ↦ ok k
  | some node ↦
      let k1 = set_nextready prev_node (nextready k node) k in
      let tail = if ptr_eq k1.tail_user (some node) then some prev_node else k1.tail_user in
      let k2 = record k1 { tail_user = tail } in
      let k3 = set_nextready node k2.head_user k2 in ok (record k3 { head_user = some node })
]

-- One round of the `do` loop, for `group`.
pub promote : (nr group : ℕ) → Kernel → Run Kernel
unfolding find_prev to_front
promote nr group k = deref k.head_user (λ h.
    if (k.proc h).group == group
    then ok k
    else do prev_node ← find_prev (suc nr) group h k; to_front prev_node k)

-- The `do` loop: up to the first group that stands at the head of the queue.
pub rounds : (fuel nr group : ℕ) → Kernel → Run Kernel
rounds zero nr group k = out_of_fuel
rounds (suc fuel) nr group k = do
  let g = (group + 1) % 3
  k' ← promote nr g k
  deref k'.head_user
      (λ h. elim ((k'.proc h).group == g) [ true ↦ ok k' | false ↦ rounds fuel nr g k' ])

-- Three rounds are enough, as the head of the queue is of one of the three groups.
pub sched : (nr idle : ℕ) → Kernel → Run Kernel
unfolding rotate rounds
sched nr idle k = elim k.head_user [
  | none ↦ ok k
  | some h ↦ do k1 ← rotate h k; k2 ← rounds 3 nr (k.proc h).group k1; ok (pick_proc idle k2)
]
