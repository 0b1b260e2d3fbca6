-- ===== src/Kernel/Receive.antt =====
-- Receiving in scheduling/src/kernel/proc.c: mini_rec, interrupt, unhold, sys_call and the lock_
-- gateways, and `inform` of system.c, which mini_rec calls.
pub mod First
pub mod Held
pub mod Release
pub mod Unhold
use soi_24z.Base.{
  ℕ, zero, suc, ◌+◌, ◌-◌, ◌%◌, Bool, true, false, ◌&&◌, ◌||◌, not, ltb, ◌==◌, if◌then◌else◌, Option,
  none, some, List, [], ◌∷◌, Ptr, ptr_eq, update, indices_from, Run, ok, panic, fault, out_of_fuel,
  ◌>>=◌,
}
use soi_24z.Kernel.Ipc.{
  Status, done, e_bad_src, e_no_perm, e_bad_dest, efault, elocked, isuserp, accepts, isrxhardware,
  stop_receiving, stop_sending, start_receiving, copy_mess, ready_if, unready_if, set_sendlink,
  set_callerq, issysentn, failed, mini_send,
}
use soi_24z.Kernel.Machine.{Machine}
use soi_24z.Kernel.Proc.{
  Flags, runnable, Source, any, from, Message, signals, Proc, Kernel, set_proc, deref, task_q,
}
use soi_24z.Kernel.Queue.{pick_proc, enqueue, ready, unready}

-- HARD_INT of com.h.
abbrev pub hard_int : ℕ
hard_int = 2

-- The gateways set `switching` around the call.
abbrev pub lock_mini_send : Machine → (caller dest m_ptr : ℕ) → Kernel → Run (Status × Kernel)
lock_mini_send c caller dest m_ptr k = do
  (r, k') ← mini_send c caller dest m_ptr (record k { switching = true })
  ok (r, record k' { switching = false })

unfoldable pub lock_pick_proc : Machine → Kernel → Kernel
lock_pick_proc c k = record (pick_proc c.idle (record k { switching = true })) { switching = false }

unfoldable pub lock_ready : ℕ → Kernel → Run Kernel
lock_ready rp k = do
  k' ← ready rp (record k { switching = true })
  ok (record k' { switching = false })

unfoldable pub lock_unready : Machine → ℕ → Kernel → Run Kernel
lock_unready c rp k = do
  k' ← unready c.nr c.idle rp (record k { switching = true })
  ok (record k' { switching = false })

-- The first process of a list with pending signals.
unfoldable pub first_pending : Kernel → List ℕ → Ptr
first_pending k [] = none
first_pending k (i ∷ is) =
    let rest = first_pending k is in if (k.proc i).p_flags.pending then some i else rest

-- The KSIG message for `rp`, at address 0 of the kernel.
abbrev pub write_ksig : Machine → ℕ → Kernel → Kernel
write_ksig c rp k =
    let m : Message = record {
      m_source = (k.memory c.hardware 0).m_source;
      m_type = c.ksig;
      body = signals rp (k.proc rp).p_pending;
    } in
    record k {
      memory = update k.memory c.hardware (update (k.memory c.hardware) 0 m);
      sig_procs = k.sig_procs - 1;
    }

-- The signals of `rp` are now with MM.
abbrev pub clear_pending : ℕ → Kernel → Kernel
clear_pending rp k =
    set_proc rp
      (record (k.proc rp) {
        p_pending = λ s. false;
        p_flags = record ((k.proc rp).p_flags) { pending = false };
      })
      k

unfoldable pub inform : Machine → Kernel → Run Kernel
unfolding first_pending lock_pick_proc
inform c k = elim (first_pending k (indices_from c.first_server (c.nr - c.first_server))) [
  | none ↦ ok k
  | some rp ↦ do
    (r, k1) ← lock_mini_send c c.hardware c.mm 0 (write_ksig c rp k)
    elim r [ done ↦ ok (lock_pick_proc c (clear_pending rp k1)) | _ ↦ panic ]
]

-- The loop of `mini_rec`: the first sender of the queue that is accepted, with the one before it.
unfoldable pub find_sender :
    (fuel : ℕ) → Source → (previous_ptr sender_ptr : Ptr) → Kernel → Run (Option (Ptr × ℕ))
find_sender zero src previous_ptr sender_ptr k = out_of_fuel
find_sender (suc fuel) src previous_ptr none k = ok none
find_sender (suc fuel) src previous_ptr (some s) k =
    let rest = find_sender fuel src (some s) (k.proc s).p_sendlink k in
    if accepts src s then ok (some (previous_ptr, s)) else rest

-- The sender leaves the queue of the receiver.
unfoldable pub unlink_sender : (caller : ℕ) (previous_ptr : Ptr) (sender : ℕ) → Kernel → Run Kernel
unlink_sender caller previous_ptr sender k =
    if ptr_eq (some sender) (k.proc caller).p_callerq
    then ok (set_callerq caller (k.proc sender).p_sendlink k)
    else deref previous_ptr (λ p. ok (set_sendlink p (k.proc sender).p_sendlink k))

-- The message of a waiting sender is taken, and the sender goes on.
unfoldable pub take_message :
    (caller : ℕ) (previous_ptr : Ptr) (sender m_ptr : ℕ) → Kernel → Run Kernel
unfolding unlink_sender
take_message caller previous_ptr sender m_ptr k = do
  k1 ←
      unlink_sender caller previous_ptr sender
        (copy_mess sender (k.proc sender).p_messbuf caller m_ptr k)
  let k2 = stop_sending sender k1
  ready_if (runnable (k2.proc sender).p_flags) sender k2

-- A message from the hardware, at `m_ptr` in the memory of `i`.
abbrev pub hardware_message : Machine → (i m_ptr : ℕ) → Kernel → Kernel
hardware_message c i m_ptr k =
    let m : Message = record (k.memory i m_ptr) { m_source = c.hardware; m_type = hard_int } in
    record k { memory = update k.memory i (update (k.memory i) m_ptr m) }

abbrev pub is_any : Source → Bool
is_any any = true
is_any (from n) = false

-- The caller is blocked until a message comes; MM may then be told of signals.
unfoldable pub block_receiver : Machine → (caller : ℕ) → Source → (m_ptr : ℕ) → Kernel → Run Kernel
unfolding inform
block_receiver c caller src m_ptr k = do
  let k1 = set_proc caller (record (k.proc caller) { p_getfrom = src; p_messbuf = m_ptr }) k
  k2 ← unready_if (runnable (k1.proc caller).p_flags) c caller k1
  let k3 = start_receiving caller k2
  let tell = ltb 0 k3.sig_procs && ((caller == c.mm) && is_any src)
  if tell then inform c k3 else ok k3

-- What `mini_rec` does when no sender is accepted.
unfoldable pub receive_other : Machine → (caller : ℕ) → Source → (m_ptr : ℕ) → Kernel → Run Kernel
unfolding block_receiver
receive_other c caller src m_ptr k =
    if (k.proc caller).p_int_blocked && isrxhardware c src
    then (do
      let k1 = hardware_message c caller m_ptr k
      ok (set_proc caller (record (k1.proc caller) { p_int_blocked = false }) k1))
    else block_receiver c caller src m_ptr k

unfoldable pub mini_rec : Machine → (caller : ℕ) → Source → (m_ptr : ℕ) → Kernel → Run Kernel
unfolding find_sender take_message receive_other block_receiver
mini_rec c caller src m_ptr k =
    if (k.proc caller).p_flags.sending then block_receiver c caller src m_ptr k else do
      found ← find_sender (suc c.nr) src none (k.proc caller).p_callerq k
      elim found [
        | some (previous_ptr, sender) ↦ take_message caller previous_ptr sender m_ptr k
        | none ↦ receive_other c caller src m_ptr k
      ]

-- `!isoksrc_dest(src_dest)`
abbrev pub bad_source : Machine → Source → Bool
bad_source c any = false
bad_source c (from n) = not (ltb n c.nr)

-- `sys_call`; the destination ANY of a process that is no user's is behind the process table.
unfoldable pub sys_call :
    Machine → (function : ℕ) → Source → (m_ptr : ℕ) → Kernel → Run (Status × Kernel)
unfolding mini_rec
sys_call c function src_dest m_ptr k =
    let caller = k.proc_ptr in
    if bad_source c src_dest
    then ok (e_bad_src, k)
    else if isuserp (k.proc caller) && not (function == 3)
    then ok (e_no_perm, k)
    else do
      (n, k1) ←
          if function % 2 == 1
          then elim src_dest [
            | from dest ↦ mini_send c caller dest m_ptr k
            | any ↦ if isuserp (k.proc caller) then ok (e_bad_dest, k) else fault
          ]
          else ok (done, k)
      if function % 2 == 1 && ((function == 1) || failed n)
          then ok (n, k1)
          else do k2 ← mini_rec c caller src_dest m_ptr k1; ok (done, k2)

-- `interrupt` behind the test whether the interrupt is to be held.
unfoldable pub start_task : Machine → (rp : ℕ) → Kernel → Run Kernel
start_task c rp k =
    let p = k.proc rp in
    if not (p.p_flags.receiving && not p.p_flags.sending) || not (isrxhardware c p.p_getfrom)
    then ok (set_proc rp (record p { p_int_blocked = true }) k)
    else (do
      let k1 = stop_receiving rp (hardware_message c rp p.p_messbuf k)
      enqueue task_q rp (set_proc rp (record (k1.proc rp) { p_int_blocked = false }) k1))

-- The interrupt is put behind the held ones, unless it is held already.
unfoldable pub hold : (rp : ℕ) → Kernel → Run Kernel
hold rp k = if (k.proc rp).p_int_held then ok k else do
  let k1 = set_proc rp (record (k.proc rp) { p_int_held = true }) k
  k2 ← elim k1.held_head [
    | some h ↦
        deref k1.held_tail (λ t. ok (set_proc t (record (k1.proc t) { p_nextheld = some rp }) k1))
    | none ↦ ok (record k1 { held_head = some rp })
  ]
  let k3 = record k2 { held_tail = some rp }
  ok (set_proc rp (record (k3.proc rp) { p_nextheld = none }) k3)

-- `reentered` says that `k_reenter` is not 0.
unfoldable pub interrupt : Machine → (reentered : Bool) (task : ℕ) → Kernel → Run Kernel
unfolding start_task hold
interrupt c reentered task k = if reentered || k.switching then hold task k else start_task c task k

-- The held process `rp` leaves the list of those whose interrupts are held.
unfoldable pub release_head : (rp : ℕ) → Kernel → Kernel
release_head rp k =
    let next = (k.proc rp).p_nextheld in
    let tail : Ptr = elim next [ none ↦ none | some n ↦ k.held_tail ] in
    let k1 = record k { held_head = next; held_tail = tail } in
    set_proc rp (record (k1.proc rp) { p_int_held = false }) k1

-- The loop of `unhold`, from the held process `rp` on.
unfoldable pub unhold_loop : (fuel : ℕ) → Machine → (rp : ℕ) → Kernel → Run Kernel
unfolding interrupt release_head
unhold_loop zero c rp k = out_of_fuel
unhold_loop (suc fuel) c rp k = do
  k' ← interrupt c false rp (release_head rp k)
  elim k'.held_head [ none ↦ ok k' | some n ↦ unhold_loop fuel c n k' ]

unfoldable pub unhold : Machine → Kernel → Run Kernel
unfolding unhold_loop
unhold c k = if k.switching then ok k else deref k.held_head (λ rp. unhold_loop (suc c.nr) c rp k)
