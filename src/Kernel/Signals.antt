-- ===== src/Kernel/Signals.antt =====
-- Signals: cause_sig, do_kill and do_endsig of scheduling/src/kernel/system.c; `inform` is in
-- Receive. An `assert` that fails is a panic.
pub mod Stops
pub mod Resumes
use soi_24z.Base.{
  ℕ, ◌+◌, ◌-◌, Bool, true, false, ◌||◌, not, ◌==◌, if◌then◌else◌, update, Run, ok, panic, ◌>>=◌,
}
use soi_24z.Kernel.Ipc.{Status, done, e_bad_proc, isuserp, isemptyp}
use soi_24z.Kernel.Machine.{Machine}
use soi_24z.Kernel.Proc.{Flags, runnable, Kernel, set_proc}
use soi_24z.Kernel.Receive.{is_any, inform, lock_ready, lock_unready}

-- `if (rp->p_flags == 0) lock_ready(rp)`, and the same for lock_unready.
abbrev pub lock_ready_if : Bool → (rp : ℕ) → Kernel → Run Kernel
lock_ready_if b rp k = if b then lock_ready rp k else ok k

abbrev pub lock_unready_if : Bool → Machine → (rp : ℕ) → Kernel → Run Kernel
lock_unready_if b c rp k = if b then lock_unready c rp k else ok k

-- `assert` in front of what follows.
abbrev pub assert {ℓ} : {A : Type ℓ} → Bool → Run A → Run A
assert b rest = if b then rest else panic

-- The signal is added to the pending ones.
abbrev pub add_signal : (rp sig_nr : ℕ) → Kernel → Kernel
add_signal rp sig_nr k =
    let p = k.proc rp in
    set_proc rp
      (record p { p_pending = update p.p_pending sig_nr true; p_pendcount = p.p_pendcount + 1 }) k

abbrev pub block_for_signal : (rp : ℕ) → Kernel → Kernel
block_for_signal rp k =
    let p = k.proc rp in
    record (set_proc rp
      (record p { p_flags = record (p.p_flags) { pending = true; sig_pending = true } }) k) {
        sig_procs = k.sig_procs + 1;
      }

-- MM is told at once if it waits for any message.
unfoldable pub tell : Machine → Kernel → Run Kernel
unfolding inform
tell c k =
    let mmp = k.proc c.mm in
    if not mmp.p_flags.receiving || not (is_any mmp.p_getfrom) then ok k else inform c k

-- The first signal for `rp`, which is pending already, blocks it.
unfoldable pub stop_for_signal : Machine → (rp : ℕ) → Kernel → Run Kernel
unfolding lock_unready tell
stop_for_signal c rp k = do
  k' ← lock_unready_if (runnable (k.proc rp).p_flags) c rp k
  tell c (block_for_signal rp k')

unfoldable pub cause_sig : Machine → (proc_nr sig_nr : ℕ) → Kernel → Run Kernel
unfolding stop_for_signal
cause_sig c rp sig_nr k =
    if (k.proc rp).p_pending sig_nr
    then ok k
    else if (k.proc rp).p_flags.pending
    then ok (add_signal rp sig_nr k)
    else stop_for_signal c rp (add_signal rp sig_nr k)

unfoldable pub do_kill : Machine → (proc_nr sig_nr : ℕ) → Kernel → Run (Status × Kernel)
unfolding cause_sig
do_kill c proc_nr sig_nr k =
    assert (isuserp (k.proc proc_nr)) (do k' ← cause_sig c proc_nr sig_nr k; ok (done, k'))

-- MM has finished one signal, of those that are counted.
unfoldable pub end_one : (rp : ℕ) → Kernel → Run Kernel
unfolding lock_ready
end_one rp k =
    let p = k.proc rp in
    let k1 = set_proc rp (record p { p_pendcount = p.p_pendcount - 1 }) k in
    let flags : Flags = record (p.p_flags) { sig_pending = false } in
    let k2 = set_proc rp (record (k1.proc rp) { p_flags = flags }) k1 in
    if p.p_pendcount == 0
    then ok k
    else if p.p_pendcount == 1
    then lock_ready_if (runnable flags) rp k2
    else ok k1

unfoldable pub do_endsig : (proc_nr : ℕ) → Kernel → Run (Status × Kernel)
unfolding end_one
do_endsig rp k =
    if isemptyp (k.proc rp)
    then ok (e_bad_proc, k)
    else assert (isuserp (k.proc rp)) (do k' ← end_one rp k; ok (done, k'))
