-- ===== src/Kernel/Signals/Stops.antt =====
-- A signal stops a process until MM has finished it.
use soi_24z.Base.{
  ℕ, suc, ◌+◌, ◌<◌, ◌≡◌, refl, sym, ap, ◌∙◌, Bool, true, false, not, ◌||◌, if◌then◌else◌, List, ◌∷◌,
  ◌++◌, arith, length, ok, ◌>>=◌, update, update_here, update_cases, subst,
}
use soi_24z.Kernel.Machine.{Machine}
use soi_24z.Kernel.Proc.{
  Flags, runnable, Proc, Kernel, Queue, task_q, server_q, user_q, set_proc, nextready,
}
use soi_24z.Kernel.Queue.{queue_of, stack_overrun}
use soi_24z.Kernel.Queue.Links.{IsQueue}
use soi_24z.Kernel.Queue.Moved.{unready-Moved}
use soi_24z.Kernel.Queue.Remove.{unready-IsQueue}
use soi_24z.Kernel.Ipc.Ends.{
  set_proc-IsQueue, switching-IsQueue, switching-guarded, sig_procs-IsQueue,
}
use soi_24z.Kernel.Receive.{is_any, inform, lock_unready}
use soi_24z.Kernel.Signals.{
  lock_unready_if, add_signal, block_for_signal, tell, stop_for_signal, cause_sig,
}

-- The entries are as before but for their links to the next ready one.
abbrev pub SameEntries : Kernel → Kernel → Type 0
SameEntries k k' = (i : ℕ) → k'.proc i ≡ record (k.proc i) { p_nextready = nextready k' i }

lock_unready-IsQueue :
    (b : Bool) (c : Machine) (rp : ℕ) (k : Kernel) (pre suf : List ℕ)
    → b ≡ true
    → stack_overrun (queue_of (k.proc rp).p_priority) rp k ≡ false
    → IsQueue (queue_of (k.proc rp).p_priority) k (pre ++ rp ∷ suf)
    → length (pre ++ rp ∷ suf) < suc (suc c.nr)
    → (k' : Kernel) × (lock_unready_if b c rp k ≡ ok k')
      × IsQueue (queue_of (k.proc rp).p_priority) k' (pre ++ suf)
      × SameEntries k k'
      × (k'.sig_procs ≡ k.sig_procs)
unfolding lock_unready
lock_unready-IsQueue false c rp k pre suf on guarded v few = absurd (cc)
lock_unready-IsQueue true c rp k pre suf on guarded v few =
    let q = queue_of (k.proc rp).p_priority in
    let k0 = record k { switching = true } in
    let (k1, run, w) =
      unready-IsQueue c.nr c.idle rp k0 pre suf (switching-guarded q k true rp ∙ guarded)
        (switching-IsQueue q k true (pre ++ rp ∷ suf) v) few in
    let m = unready-Moved c.nr c.idle rp k0 k1 run in
    (
      record k1 { switching = false },
      rw run refl,
      switching-IsQueue q k1 false (pre ++ suf) w,
      m.procs,
      ap (λ o. o.0) m.rest,
    )

-- What is true after a signal for `rp` while MM is busy.
pub record Stopped (rp sig_nr : ℕ) (xs : List ℕ) (k k' : Kernel) : Type 0 where
  pub queue : IsQueue (queue_of (k.proc rp).p_priority) k' xs
  pub flags :
      (k'.proc rp).p_flags ≡ record ((k.proc rp).p_flags) { pending = true; sig_pending = true }
  pub signal : (k'.proc rp).p_pending sig_nr ≡ true
  pub count : (k'.proc rp).p_pendcount ≡ (k.proc rp).p_pendcount + 1
  pub waiting : k'.sig_procs ≡ k.sig_procs + 1

guard_kept :
    (q : Queue) (i : ℕ) (v : Proc) (k : Kernel)
    → v.stack_ok ≡ (k.proc i).stack_ok
    → stack_overrun q i k ≡ false
    → stack_overrun q i (set_proc i v k) ≡ false
guard_kept task_q i v k e g =
    ap (λ (p : Proc). if p.stack_ok then false else true) (update_here k.proc i v)
    ∙ ap (λ b. if b then false else true) e
    ∙ g
guard_kept server_q i v k e g = refl
guard_kept user_q i v k e g = refl

module _ (c : Machine) (rp sig_nr : ℕ) (k k2 : Kernel) where
  tell-busy : (k.proc c.mm).p_flags.receiving ≡ false → tell c k ≡ ok k
  unfolding tell
  tell-busy busy =
      ap (λ b. if not b || not (is_any (k.proc c.mm).p_getfrom) then ok k else inform c k) busy

  stop_for_signal-run :
      lock_unready_if (runnable (k.proc rp).p_flags) c rp k ≡ ok k2
      → tell c (block_for_signal rp k2) ≡ ok (block_for_signal rp k2)
      → stop_for_signal c rp k ≡ ok (block_for_signal rp k2)
  unfolding stop_for_signal
  stop_for_signal-run run told = ap (λ r. r >>= λ k'. tell c (block_for_signal rp k')) run ∙ told

  cause_sig-run :
      (k.proc rp).p_pending sig_nr ≡ false
      → (k.proc rp).p_flags.pending ≡ false
      → cause_sig c rp sig_nr k ≡ stop_for_signal c rp (add_signal rp sig_nr k)
  unfolding cause_sig
  cause_sig-run fresh quiet =
      let stop = stop_for_signal c rp (add_signal rp sig_nr k) in
      ap
        (λ b.
          if b
          then ok k
          else if (k.proc rp).p_flags.pending
          then ok (add_signal rp sig_nr k)
          else stop)
        fresh
      ∙ ap (λ b. if b then ok (add_signal rp sig_nr k) else stop) quiet

-- A signal that is not pending, for a runnable process of a sound ready queue with an intact stack
-- guard, while MM is not receiving: cause_sig ends, the process has left its ready queue, in which
-- the others keep their order, the signal is pending and counted, and the process is counted among
-- those with signals for MM.
pub cause_sig-Stopped :
    (c : Machine) (rp sig_nr : ℕ) (k : Kernel) (pre suf : List ℕ)
    → (k.proc rp).p_pending sig_nr ≡ false
    → runnable (k.proc rp).p_flags ≡ true
    → (k.proc c.mm).p_flags.receiving ≡ false
    → stack_overrun (queue_of (k.proc rp).p_priority) rp k ≡ false
    → IsQueue (queue_of (k.proc rp).p_priority) k (pre ++ rp ∷ suf)
    → length (pre ++ rp ∷ suf) < suc (suc c.nr)
    → (k' : Kernel) × (cause_sig c rp sig_nr k ≡ ok k') × Stopped rp sig_nr (pre ++ suf) k k'
cause_sig-Stopped c rp sig_nr k pre suf fresh on busy guarded v few =
    let p = k.proc rp in
    let q = queue_of p.p_priority in
    let all = pre ++ rp ∷ suf in
    let v1 : Proc = record p {
      p_pending = update p.p_pending sig_nr true;
      p_pendcount = p.p_pendcount + 1;
    } in
    let k1 = add_signal rp sig_nr k in
    let there1 : k1.proc rp ≡ v1 = update_here k.proc rp v1 in
    let prio : queue_of (k1.proc rp).p_priority ≡ q =
      ap (λ (x : Proc). queue_of x.p_priority) there1 in
    let (k2, run, q2, same, sp) =
      lock_unready-IsQueue (runnable (k1.proc rp).p_flags) c rp k1 pre suf
        (ap (λ (x : Proc). runnable x.p_flags) there1 ∙ on)
        (ap (λ x. stack_overrun x rp k1) prio ∙ guard_kept q rp v1 k refl guarded)
        (subst (λ x. IsQueue x k1 all) (sym prio) (set_proc-IsQueue q rp v1 k all refl v)) few in
    let v3 : Proc = record (k2.proc rp) {
      p_flags = record ((k2.proc rp).p_flags) { pending = true; sig_pending = true };
    } in
    let k3 = block_for_signal rp k2 in
    let there3 : k3.proc rp ≡ v3 = update_here k2.proc rp v3 in
    let quiet : (k.proc rp).p_flags.pending ≡ false = not_pending p.p_flags on in
    let still : (k3.proc c.mm).p_flags.receiving ≡ false =
      update_cases (λ (x : Proc). x.p_flags.receiving ≡ (k2.proc c.mm).p_flags.receiving) k2.proc rp
        v3 c.mm (λ e. ap (λ i. (k2.proc i).p_flags.receiving) (sym e)) refl
      ∙ ap (λ (x : Proc). x.p_flags.receiving) (same c.mm)
      ∙ update_cases (λ (x : Proc). x.p_flags.receiving ≡ (k.proc c.mm).p_flags.receiving) k.proc rp
          v1 c.mm (λ e. ap (λ i. (k.proc i).p_flags.receiving) (sym e)) refl
      ∙ busy in
    (
      k3,
      cause_sig-run c rp sig_nr k k2 fresh quiet
          ∙ stop_for_signal-run c rp sig_nr k1 k2 run (tell-busy c rp sig_nr k3 k2 still),
      record {
        queue = sig_procs-IsQueue q (set_proc rp v3 k2) (k2.sig_procs + 1) (pre ++ suf) (
            set_proc-IsQueue q rp v3 k2 (pre ++ suf) refl
              (subst (λ x. IsQueue x k2 (pre ++ suf)) prio q2));
        flags =
            ap (λ (x : Proc). x.p_flags) there3
            ∙ ap (λ (x : Proc). record (x.p_flags) { pending = true; sig_pending = true }) (same rp)
            ∙ ap (λ (x : Proc). record (x.p_flags) { pending = true; sig_pending = true }) there1;
        signal =
            ap (λ (x : Proc). x.p_pending sig_nr) there3
            ∙ ap (λ (x : Proc). x.p_pending sig_nr) (same rp)
            ∙ ap (λ (x : Proc). x.p_pending sig_nr) there1
            ∙ update_here p.p_pending sig_nr true;
        count =
            ap (λ (x : Proc). x.p_pendcount) there3
            ∙ ap (λ (x : Proc). x.p_pendcount) (same rp)
            ∙ ap (λ (x : Proc). x.p_pendcount) there1;
        waiting = ap (λ n. n + 1) sp;
      },
    )
  where
    not_pending : (f : Flags) → runnable f ≡ true → f.pending ≡ false
    not_pending f h = ground arith
