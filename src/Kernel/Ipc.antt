-- ===== src/Kernel/Ipc.antt =====
-- Message passing in scheduling/src/kernel/proc.c: sys_call, mini_send, mini_rec, interrupt, unhold
-- and the lock_ gateways, for CHIP == INTEL.
pub mod Waiting
pub mod Blocked
pub mod Senders
pub mod Ends
pub mod Unlink
pub mod Parts
pub mod Send
use soi_24z.Base.{
  ℕ, zero, suc, ◌+◌, ◌-◌, ◌/◌, ◌^◌, Bool, true, false, ◌&&◌, ◌||◌, not, ltb, leb, ◌==◌,
  if◌then◌else◌, Option, none, some, Ptr, ptr_eq, update, u32, Run, ok, panic, fault, out_of_fuel,
  ◌>>=◌,
}
use soi_24z.Kernel.Machine.{Machine}
use soi_24z.Kernel.Proc.{
  Priority, ppri_none, ppri_task, ppri_server, ppri_user, ppri_idle, Flags, runnable, MemMap,
  Source, any, from, Message, Proc, Kernel, set_proc, set_nextready, deref, task_q,
}
use soi_24z.Kernel.Queue.{pick_proc, enqueue, ready, unready}

-- What a call returns.
pub data Status : Type 0 where
  done e_bad_src e_no_perm e_bad_dest efault elocked e_bad_proc esrch : Status

abbrev pub failed : Status → Bool
failed done = false
failed _ = true

abbrev pub isuserp : Proc → Bool
isuserp p = elim p.p_priority [ ppri_user ↦ true | _ ↦ false ]

abbrev pub isemptyp : Proc → Bool
isemptyp p = elim p.p_priority [ ppri_none ↦ true | _ ↦ false ]

abbrev pub issysentn : Machine → ℕ → Bool
issysentn c n = (n == c.fs) || (n == c.mm)

-- Is `nr` an acceptable source for one that waits for `src`?
abbrev pub accepts : Source → ℕ → Bool
accepts any nr = true
accepts (from n) nr = n == nr

abbrev pub isrxhardware : Machine → Source → Bool
isrxhardware c src = accepts src c.hardware

abbrev pub set_flags : ℕ → Flags → Kernel → Kernel
set_flags i f k = set_proc i (record (k.proc i) { p_flags = f }) k

abbrev pub stop_receiving : ℕ → Kernel → Kernel
stop_receiving i k = set_flags i (record ((k.proc i).p_flags) { receiving = false }) k

abbrev pub stop_sending : ℕ → Kernel → Kernel
stop_sending i k = set_flags i (record ((k.proc i).p_flags) { sending = false }) k

abbrev pub start_sending : ℕ → Kernel → Kernel
start_sending i k = set_flags i (record ((k.proc i).p_flags) { sending = true }) k

abbrev pub start_receiving : ℕ → Kernel → Kernel
start_receiving i k = set_flags i (record ((k.proc i).p_flags) { receiving = true }) k

-- Do the clicks of the message at `m_ptr` lie in the memory of the caller?
unfoldable pub in_memory : Machine → Proc → (m_ptr : ℕ) → Bool
in_memory c p m_ptr =
    let vlo = m_ptr / 2 ^ c.click_shift in
    let vhi = u32 (m_ptr + c.mess_size - 1) / 2 ^ c.click_shift in
    if c.allow_gap
    then leb p.map_d.mem_vir vlo
      && (leb vlo vhi && ltb vhi (u32 (p.map_s.mem_vir + p.map_s.mem_len)))
    else leb vlo vhi && ltb (u32 (vhi + 2 ^ 32 - p.map_d.mem_vir)) p.map_d.mem_len

-- CopyMess: the message in the memory of `src` to the memory of `dst`, with its source put in.
abbrev pub copy_mess : (src src_m dst dst_m : ℕ) → Kernel → Kernel
copy_mess src src_m dst dst_m k =
    let mess : Message = record (k.memory src src_m) { m_source = src } in
    record k { memory = update k.memory dst (update (k.memory dst) dst_m mess) }

-- The loop that follows the receivers that senders wait for: does it meet the caller?
unfoldable pub would_lock : (fuel caller next_ptr : ℕ) → Kernel → Run Bool
would_lock zero caller next_ptr k = out_of_fuel
would_lock (suc fuel) caller next_ptr k =
    let rest = would_lock fuel caller (k.proc next_ptr).p_sendto k in
    if next_ptr == caller
    then ok true
    else if (k.proc next_ptr).p_flags.sending
    then rest
    else ok false

-- The check for deadlock.
unfoldable pub deadlock : (nr caller dest : ℕ) → Kernel → Run Bool
unfolding would_lock
deadlock nr caller dest k =
    if (k.proc dest).p_flags.sending
    then would_lock (suc nr) caller (k.proc dest).p_sendto k
    else ok false

-- Is `dest` blocked waiting for a message of the caller?
abbrev pub waits_for : Proc → ℕ → Bool
waits_for p caller = (p.p_flags.receiving && not p.p_flags.sending) && accepts p.p_getfrom caller

-- The walk to the last entry of a queue of senders.
unfoldable pub last_sender : (fuel next_ptr : ℕ) → Kernel → Run ℕ
last_sender zero next_ptr k = out_of_fuel
last_sender (suc fuel) next_ptr k = elim (k.proc next_ptr).p_sendlink [
  | none ↦ ok next_ptr
  | some n ↦ last_sender fuel n k
]

abbrev pub set_sendlink : ℕ → Ptr → Kernel → Kernel
set_sendlink i p k = set_proc i (record (k.proc i) { p_sendlink = p }) k

abbrev pub set_callerq : ℕ → Ptr → Kernel → Kernel
set_callerq i p k = set_proc i (record (k.proc i) { p_callerq = p }) k

-- The caller behind the other senders to `dest`.
unfoldable pub queue_sender : (nr caller dest : ℕ) → Kernel → Run Kernel
unfolding last_sender
queue_sender nr caller dest k = do
  k1 ← elim (k.proc dest).p_callerq [
    | none ↦ ok (set_callerq dest (some caller) k)
    | some first ↦ (do last ← last_sender (suc nr) first k; ok (set_sendlink last (some caller) k))
  ]
  ok (set_sendlink caller none k1)

abbrev pub ready_if : Bool → ℕ → Kernel → Run Kernel
ready_if b rp k = if b then ready rp k else ok k

abbrev pub unready_if : Bool → Machine → ℕ → Kernel → Run Kernel
unready_if b c rp k = if b then unready c.nr c.idle rp k else ok k

-- The caller's message goes to `dest`, which waits for it.
unfoldable pub deliver : (caller dest m_ptr : ℕ) → Kernel → Run Kernel
deliver caller dest m_ptr k =
    let k1 = copy_mess caller m_ptr dest (k.proc dest).p_messbuf k in
    let k2 = stop_receiving dest k1 in ready_if (runnable (k2.proc dest).p_flags) dest k2

-- The caller is blocked, and waits behind the other senders to `dest`.
unfoldable pub block_sender : Machine → (caller dest m_ptr : ℕ) → Kernel → Run Kernel
unfolding queue_sender
block_sender c caller dest m_ptr k = do
  let k1 = set_proc caller (record (k.proc caller) { p_messbuf = m_ptr }) k
  k2 ← unready_if (runnable (k1.proc caller).p_flags) c caller k1
  let k3 = start_sending caller k2
  let k4 = set_proc caller (record (k3.proc caller) { p_sendto = dest }) k3
  queue_sender c.nr caller dest k4

-- Is `dest` a destination that the caller may send to?
abbrev pub bad_dest : Machine → (caller dest : ℕ) → Kernel → Bool
bad_dest c caller dest k =
    (isuserp (k.proc caller) && not (issysentn c dest)) || isemptyp (k.proc dest)

unfoldable pub mini_send : Machine → (caller dest m_ptr : ℕ) → Kernel → Run (Status × Kernel)
unfolding in_memory deadlock deliver block_sender
mini_send c caller dest m_ptr k =
    if bad_dest c caller dest k
    then ok (e_bad_dest, k)
    else if not (in_memory c (k.proc caller) m_ptr)
    then ok (efault, k)
    else do
      locked ← deadlock c.nr caller dest k
      if locked then ok (elocked, k) else do
        k' ←
            if waits_for (k.proc dest) caller
            then deliver caller dest m_ptr k
            else block_sender c caller dest m_ptr k
        ok (done, k')
