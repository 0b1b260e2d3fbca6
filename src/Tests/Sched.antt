-- ===== src/Tests/Sched.antt =====
-- The ready queues with three user processes, 0, 1 and 2, of the groups 0, 0 and 2.
use mathlib.Core.List.{Perm}
use soi_24z.Base.{
  ◌<◌, ℕ, ◌≡◌, refl, true, false, ◌==◌, if◌then◌else◌, none, some, Ptr, ok, List, [], ◌∷◌, arith,
}
use soi_24z.Kernel.Groups.{pos, do_get_group, do_set_group}
use soi_24z.Kernel.Groups.Settings.{Grouped, do_set_group-get}
use soi_24z.Kernel.Proc.{
  Queue, set_proc, Kernel, Proc, Flags, ppri_user, user_q, MemMap, any, words,
}
use soi_24z.Kernel.Queue.{ready, unready, queue_of}
use soi_24z.Kernel.Queue.Links.{IsQueue, ready-IsQueue}
use soi_24z.Kernel.Queue.Remove.{unready-IsQueue}
use soi_24z.Kernel.Sched.{sched}
use soi_24z.Kernel.Sched.Fair.{Turn, sched-Turn}
use soi_24z.Kernel.Sched.Steps.{Steps}
use soi_24z.Kernel.Sched.Order.{sched_order}
use soi_24z.Kernel.Sched.Rounds.{groups, sched-sched_order}

abbrev pub no_flags : Flags
no_flags = record {
  no_map = false;
  sending = false;
  receiving = false;
  pending = false;
  sig_pending = false;
  p_stop = false;
}

abbrev segment : MemMap
segment = record { mem_vir = 0; mem_phys = 100; mem_len = 10 }

abbrev pub process : (nr group : ℕ) → Ptr → Proc
process nr group next = record {
  p_nr = nr;
  stack_ok = true;
  p_int_blocked = false;
  p_int_held = false;
  p_nextheld = none;
  map_t = segment;
  map_d = segment;
  map_s = segment;
  p_reg = record { pc = 0; sp = 0; fp = 0; retreg = 0 };
  p_messbuf = 0;
  p_getfrom = any;
  p_sendto = 0;
  p_pending = λ s. false;
  p_name = [];
  p_flags = no_flags;
  p_pid = nr;
  p_priority = ppri_user;
  user_time = 0;
  sys_time = 0;
  child_utime = 0;
  child_stime = 0;
  p_alarm = 0;
  p_callerq = none;
  p_sendlink = none;
  p_nextready = next;
  p_pendcount = 0;
  group = group;
}

abbrev processes : ℕ → Proc
processes i =
    if i == 0
    then process 0 0 (some 1)
    else if i == 1
    then process 1 0 (some 2)
    else process i 2 none

abbrev pub three : Kernel
three = record {
  proc = processes;
  head_task = none;
  head_server = none;
  head_user = some 0;
  tail_task = none;
  tail_server = none;
  tail_user = some 2;
  proc_ptr = 0;
  bill_ptr = 0;
  held_head = none;
  held_tail = none;
  switching = false;
  sig_procs = 0;
  memory = λ i a. record { m_source = 0; m_type = 0; body = words [] };
}

pub three-IsQueue : IsQueue user_q three (0 ∷ 1 ∷ 2 ∷ [])
three-IsQueue = record {
  chain = (refl, (refl, (refl, refl)));
  last = refl;
  distinct = (refl, (refl, (refl, tt)));
}

ready-IsQueue_example :
    (k' : Kernel) × (ready 3 three ≡ ok k') × IsQueue user_q k' (3 ∷ 0 ∷ 1 ∷ 2 ∷ [])
unfolding queue_of
ready-IsQueue_example = ready-IsQueue 3 three (0 ∷ 1 ∷ 2 ∷ []) three-IsQueue refl

unready-IsQueue_example :
    (k' : Kernel) × (unready 4 9 1 three ≡ ok k') × IsQueue user_q k' (0 ∷ 2 ∷ [])
unfolding queue_of
unready-IsQueue_example =
    unready-IsQueue 4 9 1 three (0 ∷ []) (2 ∷ []) refl three-IsQueue (omega arith)

sched-sched_order_example :
    Steps three (sched 4 9 three) (sched_order (groups three) 0 (1 ∷ 2 ∷ 0 ∷ []))
sched-sched_order_example =
    sched-sched_order 4 9 three 0 (1 ∷ 2 ∷ []) three-IsQueue (omega arith) (omega arith)

sched-Turn_example :
    (k' : Kernel) × (a : ℕ) × (ys : List ℕ) × (sched 4 9 three ≡ ok k')
    × IsQueue user_q k' (a ∷ ys)
    × Turn (groups three) 0 (1 ∷ 2 ∷ 0 ∷ []) a
    × Perm (a ∷ ys) (0 ∷ 1 ∷ 2 ∷ [])
sched-Turn_example = sched-Turn 4 9 three 0 (1 ∷ 2 ∷ []) three-IsQueue (omega arith) (omega arith)

-- Process 1 is moved to group 2.
abbrev moved : Kernel
moved = set_proc 1 (record (processes 1) { group = 2 }) three

do_set_group_1 : do_set_group 4 three (pos 1) (pos 2) ≡ some moved
unfolding do_set_group
do_set_group_1 = refl

three-Grouped : Grouped three
three-Grouped i = ground arith

do_set_group-get_example :
    (g : ℕ) × (pos 2 ≡ pos g)
    × (g < 3)
    × (do_get_group 4 moved (pos 1) ≡ some g)
    × Grouped moved
    × ((q : Queue) (xs : List ℕ) → IsQueue q three xs → IsQueue q moved xs)
do_set_group-get_example =
    do_set_group-get 4 three moved (pos 1) (pos 2) three-Grouped do_set_group_1
