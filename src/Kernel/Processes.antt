-- ===== src/Kernel/Processes.antt =====
-- The system task's calls for processes: do_fork, do_newmap, do_exec, do_xit, do_getsp, do_times and
-- do_findproc of scheduling/src/kernel/system.c. The fields of the message are arguments, and
-- what phys_copy brings from the memory of the caller is one. An `assert` that fails is a panic.
pub mod Left
pub mod Queues
pub mod Exit
use soi_24z.Base.{
  ℕ, zero, suc, ◌+◌, ◌-◌, Bool, true, false, ◌&&◌, not, ltb, leb, ◌==◌, if◌then◌else◌, none, some,
  List, [], ◌∷◌, Ptr, indices_from, Run, ok, out_of_fuel, ◌>>=◌,
}
use soi_24z.Kernel.Clock.{Clock}
use soi_24z.Kernel.Clock.Task.{get_uptime, istaskp}
use soi_24z.Kernel.Ipc.{
  Status, done, e_bad_proc, esrch, isuserp, isemptyp, stop_receiving, set_sendlink, set_callerq,
}
use soi_24z.Kernel.Machine.{Machine}
use soi_24z.Kernel.Proc.{ppri_none, ppri_server, Flags, runnable, MemMap, Proc, Kernel, set_proc}
use soi_24z.Kernel.Receive.{lock_ready, lock_unready}
use soi_24z.Kernel.Segments.{umap, data_seg, numap}
use soi_24z.Kernel.Signals.{cause_sig, assert, lock_ready_if, lock_unready_if}

-- The entry of a child, from that of its parent.
abbrev pub child_of : Proc → (proc_nr pid : ℕ) → Proc
child_of p proc_nr pid = record p {
  p_nr = proc_nr;
  p_flags = record (p.p_flags) {
    no_map = true;
    pending = false;
    sig_pending = false;
    p_stop = false;
  };
  p_pending = λ s. false;
  p_pendcount = 0;
  p_pid = pid;
  p_reg = record (p.p_reg) { retreg = 0 };
  user_time = 0;
  sys_time = 0;
  child_utime = 0;
  child_stime = 0;
  group = 0;
}

unfoldable pub do_fork : (proc1 proc2 pid : ℕ) → Kernel → Run (Status × Kernel)
do_fork proc1 proc2 pid k = assert (isuserp (k.proc proc1)) (
    assert (isemptyp (k.proc proc2))
      (ok (done, set_proc proc2 (child_of (k.proc proc1) proc2 pid) k)))

-- The segments T, D and S of a map.
pub record Map : Type 0 where
  pub text : MemMap
  pub data_part : MemMap
  pub stack : MemMap

abbrev pub install : (rp : ℕ) → Map → Kernel → Kernel
install rp map k =
    set_proc rp (record (k.proc rp) { map_t = map.text; map_d = map.data_part; map_s = map.stack })
      k

abbrev pub drop_no_map : (rp : ℕ) → Kernel → Kernel
drop_no_map rp k =
    set_proc rp (record (k.proc rp) { p_flags = record ((k.proc rp).p_flags) { no_map = false } }) k

-- `map` is what the memory of the caller holds at `map_ptr`; a map has `map_size` bytes.
unfoldable pub do_newmap :
    Machine → (map_size caller rp map_ptr : ℕ) → Map → Kernel → Run (Status × Kernel)
unfolding umap lock_ready
do_newmap c map_size caller rp map_ptr map k =
    if not (ltb rp c.nr)
    then ok (e_bad_proc, k)
    else assert (not (umap c (k.proc caller) data_seg map_ptr map_size == 0)) (do
      let k1 = install rp map k
      let old = (k1.proc rp).p_flags
      let k2 = drop_no_map rp k1
      k3 ← lock_ready_if (not (runnable old) && runnable (k2.proc rp).p_flags) rp k2
      ok (done, k3))

-- The characters in front of the first one that is less than a blank.
unfoldable pub printable : List ℕ → List ℕ
printable [] = []
printable (x ∷ xs) = let rest = printable xs in if leb 32 x then x ∷ rest else []

abbrev pub set_registers : (rp sp pc : ℕ) → Kernel → Kernel
set_registers rp sp pc k =
    set_proc rp (record (k.proc rp) { p_reg = record ((k.proc rp).p_reg) { sp = sp; pc = pc } }) k

abbrev pub set_name : (rp : ℕ) → List ℕ → Kernel → Kernel
set_name rp name k = set_proc rp (record (k.proc rp) { p_name = name }) k

-- `name` is what the memory of `source` holds at `name_ptr`; a name has `nlen` bytes.
unfoldable pub do_exec :
    Machine
    → (sigtrap nlen source proc1 : ℕ) (traced : Bool) (stack_ptr ip_ptr name_ptr : ℕ)
    → (name : List ℕ) → Kernel
    → Run (Status × Kernel)
unfolding cause_sig umap lock_ready printable
do_exec c sigtrap nlen source rp traced stack_ptr ip_ptr name_ptr name k =
    assert (isuserp (k.proc rp)) (do
      k1 ← if traced then cause_sig c rp sigtrap k else ok k
      let k2 = stop_receiving rp (set_registers rp stack_ptr ip_ptr k1)
      k3 ← lock_ready_if (runnable (k2.proc rp).p_flags) rp k2
      let unnamed = numap c k3 source name_ptr nlen == 0
      ok (done, if unnamed then k3 else set_name rp (printable name) k3))

-- The inner loop of `do_xit`: the process leaves the queue of senders behind `np`.
unfoldable pub leave_behind : (fuel np rc : ℕ) → Kernel → Run Kernel
leave_behind zero np rc k = out_of_fuel
leave_behind (suc fuel) np rc k = elim (k.proc np).p_sendlink [
  | none ↦ ok k
  | some xp ↦
      let rest = leave_behind fuel xp rc k in
      if xp == rc then ok (set_sendlink np (k.proc xp).p_sendlink k) else rest
]

-- The outer loop, over the entries of a list.
unfoldable pub leave_queues : (nr rc : ℕ) → List ℕ → Kernel → Run Kernel
unfolding leave_behind
leave_queues nr rc [] k = ok k
leave_queues nr rc (rp ∷ rps) k = elim (k.proc rp).p_callerq [
  | none ↦ leave_queues nr rc rps k
  | some first ↦
      if first == rc
      then ok (set_callerq rp (k.proc rc).p_sendlink k)
      else (do k1 ← leave_behind (suc nr) first rc k; leave_queues nr rc rps k1)
]

-- "<noname>"
abbrev pub no_name : List ℕ
no_name = 60 ∷ 110 ∷ 111 ∷ 110 ∷ 97 ∷ 109 ∷ 101 ∷ 62 ∷ []

abbrev pub cleared_flags : Flags
cleared_flags = record {
  no_map = false;
  sending = false;
  receiving = false;
  pending = false;
  sig_pending = false;
  p_stop = false;
}

-- The parent gets the times of the process and of its children.
abbrev pub add_times : (rp rc : ℕ) → Kernel → Kernel
add_times rp rc k =
    let p = k.proc rp in
    let q = k.proc rc in
    set_proc rp
      (record p {
        child_utime = p.child_utime + (q.user_time + q.child_utime);
        child_stime = p.child_stime + (q.sys_time + q.child_stime);
      })
      k

-- The end of `do_xit`: the entry is free.
abbrev pub clear_entry : (rc : ℕ) → Kernel → Kernel
clear_entry rc k =
    let q = k.proc rc in
    let sig_procs = if q.p_flags.pending then k.sig_procs - 1 else k.sig_procs in
    record (set_proc rc
      (record q {
        p_pending = λ s. false;
        p_pendcount = 0;
        p_flags = cleared_flags;
        p_priority = ppri_none;
      })
      k) { sig_procs = sig_procs }

unfoldable pub do_xit : Machine → (proc1 proc2 : ℕ) → Kernel → Run (Status × Kernel)
unfolding lock_unready leave_queues
do_xit c parent rc k = assert (isuserp (k.proc parent)) (
    assert (isuserp (k.proc rc)) (do
      let k1 = add_times parent rc k
      let k2 = set_proc rc (record (k1.proc rc) { p_alarm = 0 }) k1
      k3 ← lock_unready_if (runnable (k2.proc rc).p_flags) c rc k2
      let k4 = set_name rc no_name k3
      k5 ←
          if (k4.proc rc).p_flags.sending
          then leave_queues c.nr rc (indices_from 0 c.nr) k4
          else ok k4
      ok (done, clear_entry rc k5)))

abbrev pub do_getsp : (proc1 : ℕ) → Kernel → Run (Status × ℕ)
do_getsp rp k = assert (isuserp (k.proc rp)) (ok (done, (k.proc rp).p_reg.sp))

pub record Times : Type 0 where
  pub user_ticks : ℕ
  pub system_ticks : ℕ
  pub child_user : ℕ
  pub child_system : ℕ
  pub boot_ticks : ℕ

abbrev pub do_times : Clock → (proc1 : ℕ) → Kernel → Status × Times
do_times cl rp k = (
  done,
  record {
    user_ticks = (k.proc rp).user_time;
    system_ticks = (k.proc rp).sys_time;
    child_user = (k.proc rp).child_utime;
    child_system = (k.proc rp).child_stime;
    boot_ticks = get_uptime cl;
  },
)

-- `strncmp(a, b, n) == 0`, for the characters in front of the NUL, or all of an array without one.
unfoldable pub same_name : (n : ℕ) → (a b : List ℕ) → Bool
same_name zero a b = true
same_name (suc n) [] [] = true
same_name (suc n) [] (y ∷ b) = false
same_name (suc n) (x ∷ a) [] = false
same_name (suc n) (x ∷ a) (y ∷ b) = (x == y) && same_name n a b

abbrev pub isservp : Proc → Bool
isservp p = elim p.p_priority [ ppri_server ↦ true | _ ↦ false ]

-- The loop of `do_findproc`, over the entries of a list; `m3_string` is M3_STRING.
unfoldable pub find_task : (m3_string : ℕ) → (name : List ℕ) → List ℕ → Kernel → Ptr
unfolding same_name
find_task m3_string name [] k = none
find_task m3_string name (pp ∷ pps) k =
    let rest = find_task m3_string name pps k in
    if not (istaskp (k.proc pp)) && not (isservp (k.proc pp))
    then rest
    else if same_name m3_string (k.proc pp).p_name name
    then some pp
    else rest

unfoldable pub do_findproc : Machine → (m3_string : ℕ) → (name : List ℕ) → Kernel → Status × Ptr
unfolding find_task
do_findproc c m3_string name k = elim (find_task m3_string name (indices_from 0 c.nr) k) [
  | none ↦ (esrch, none)
  | some pp ↦ (done, some pp)
]
