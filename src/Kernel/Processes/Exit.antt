-- ===== src/Kernel/Processes/Exit.antt =====
-- The end of a process.
use soi_24z.Base.{
  ℕ, ◌+◌, ◌<◌, ◌≡◌, refl, sym, ap, ◌∙◌, Bool, true, false, if◌then◌else◌, List, arith, has,
  select-absent, indices_from, indices_from-Distinct, has-indices_from, ok, update_here, subst,
}
use soi_24z.Kernel.Machine.{Machine}
use soi_24z.Kernel.Proc.{Proc, Kernel, ppri_none, runnable, set_proc}
use soi_24z.Kernel.Queue.Moved.{unready-Moved}
use soi_24z.Kernel.Receive.{lock_unready}
use soi_24z.Kernel.Signals.{lock_unready_if}
use soi_24z.Kernel.Ipc.{done, isuserp}
use soi_24z.Kernel.Ipc.Waiting.{sending}
use soi_24z.Kernel.Ipc.Blocked.{SameWaits, SameWaits-trans, Moved-SameWaits, set_proc-SameWaits}
use soi_24z.Kernel.Ipc.Senders.{
  Senders, Senders-same, SameLinks, SameLinks-trans, Moved-SameLinks, set_proc-SameLinks,
}
use soi_24z.Kernel.Ipc.Ends.{Steady, unready-ends, set_proc-Steady, switching-Steady}
use soi_24z.Kernel.Processes.{
  leave_queues, add_times, clear_entry, set_name, no_name, cleared_flags, do_xit,
}
use soi_24z.Kernel.Processes.Left.{Waiting, without}
use soi_24z.Kernel.Processes.Queues.{leave_queues-Left}

lock_unready_if-ends :
    (b : Bool) (c : Machine) (i : ℕ) (k : Kernel)
    → Steady c.nr k i
    → (k' : Kernel) × (lock_unready_if b c i k ≡ ok k') × SameLinks k k' × SameWaits k k'
unfolding lock_unready
lock_unready_if-ends false c i k st = (
  k,
  refl,
  record { links = λ j. refl; starts = λ j. refl },
  record { who = λ j. refl; whom = λ j. refl },
)
lock_unready_if-ends true c i k st =
    let k0 = record k { switching = true } in
    let (k1, run) = unready-ends c.nr c.idle i k0 (switching-Steady c.nr k true i st) in
    let m = unready-Moved c.nr c.idle i k0 k1 run in
    let l = Moved-SameLinks k0 k1 m in
    let w = Moved-SameWaits k0 k1 m in
    (
      record k1 { switching = false },
      rw run refl,
      record { links = l.links; starts = l.starts },
      record { who = w.who; whom = w.whom },
    )

-- What is true after `rc` has exited.
pub record Exited (c : Machine) (rc : ℕ) (qs : ℕ → List ℕ) (k' : Kernel) : Type 0 where
  pub senders : (d : ℕ) → d < c.nr → Senders k' d (without rc (qs d))
  pub empty : (k'.proc rc).p_priority ≡ ppri_none
  pub idle : sending k' rc ≡ false

-- When a user process exits whose ready queue is sound and whose parent is a user process, if each
-- process that waits to send stands in one queue that fits the table, and only as long as it is
-- sending, then do_xit ends: the process is in none of the queues of the processes of the table, the
-- others wait in the same order, and the entry is free.
pub do_xit-Exited :
    (c : Machine) (parent rc : ℕ) (k : Kernel) (qs : ℕ → List ℕ)
    → isuserp (k.proc parent) ≡ true
    → isuserp (k.proc rc) ≡ true
    → Steady c.nr k rc
    → Waiting c.nr k qs
    → (sending k rc ≡ false → (d : ℕ) → has rc (qs d) ≡ false)
    → (k' : Kernel) × (do_xit c parent rc k ≡ ok (done, k')) × Exited c rc qs k'
unfolding do_xit
do_xit-Exited c parent rc k qs up ur st w alone =
    let p = k.proc parent in
    let q = k.proc rc in
    let v1 : Proc = record p {
      child_utime = p.child_utime + (q.user_time + q.child_utime);
      child_stime = p.child_stime + (q.sys_time + q.child_stime);
    } in
    let k1 = add_times parent rc k in
    let v2 : Proc = record (k1.proc rc) { p_alarm = 0 } in
    let k2 = set_proc rc v2 k1 in
    let st2 : Steady c.nr k2 rc =
      set_proc-Steady c.nr k1 rc v2 rc refl refl refl
        (set_proc-Steady c.nr k parent v1 rc refl refl refl st) in
    let b = runnable (k2.proc rc).p_flags in
    let (k3, run3, links3, waits3) = lock_unready_if-ends b c rc k2 st2 in
    let v4 : Proc = record (k3.proc rc) { p_name = no_name } in
    let k4 = set_name rc no_name k3 in
    let links : SameLinks k k4 =
      SameLinks-trans k k1 k4 (set_proc-SameLinks parent v1 k refl refl) (
        SameLinks-trans k1 k2 k4 (set_proc-SameLinks rc v2 k1 refl refl)
          (SameLinks-trans k2 k3 k4 links3 (set_proc-SameLinks rc v4 k3 refl refl))) in
    let waits : SameWaits k k4 =
      SameWaits-trans k k1 k4 (set_proc-SameWaits parent v1 k refl refl) (
        SameWaits-trans k1 k2 k4 (set_proc-SameWaits rc v2 k1 refl refl)
          (SameWaits-trans k2 k3 k4 waits3 (set_proc-SameWaits rc v4 k3 refl refl))) in
    let w4 : Waiting c.nr k4 qs = record {
      senders = λ d. Senders-same k k4 d (qs d) links (w.senders d);
      fits = w.fits;
      once = w.once;
    } in
    let (k5, run5, left) =
      leave_if (sending k4 rc) k4 w4 (λ out. alone (sym (waits.who rc) ∙ out)) in
    (clear_entry rc k5, rw up (rw ur (rw run3 (rw run5 refl))), cleared k5 left)
  where
    leave_if :
        (b : Bool) (k4 : Kernel)
        → Waiting c.nr k4 qs
        → (b ≡ false → (d : ℕ) → has rc (qs d) ≡ false)
        → (k5 : Kernel) × ((if b then leave_queues c.nr rc (indices_from 0 c.nr) k4 else ok k4)
            ≡ ok k5)
          × ((d : ℕ) → d < c.nr → Senders k5 d (without rc (qs d)))
    leave_if true k4 w4 out =
        let (k5, run, l) =
          leave_queues-Left c.nr rc (indices_from 0 c.nr) k4 qs w4 (indices_from-Distinct 0 c.nr) in
        (k5, run, λ d low. l.inside d (has-indices_from d 0 c.nr ∙ ground (arith, low)))
    leave_if false k4 w4 out = (
      k4,
      refl,
      λ d low. subst (Senders k4 d) (sym (select-absent rc (qs d) (out refl d))) (w4.senders d),
    )

    cleared :
        (k5 : Kernel)
        → ((d : ℕ) → d < c.nr → Senders k5 d (without rc (qs d)))
        → Exited c rc qs (clear_entry rc k5)
    cleared k5 left =
        let v : Proc = record (k5.proc rc) {
          p_pending = λ s. false;
          p_pendcount = 0;
          p_flags = cleared_flags;
          p_priority = ppri_none;
        } in
        let k6 = set_proc rc v k5 in
        let l = set_proc-SameLinks rc v k5 refl refl in
        record {
          senders = λ d low.
              Senders-same k5 (clear_entry rc k5) d (without rc (qs d))
                (record { links = l.links; starts = l.starts }) (left d low);
          empty = ap (λ (p : Proc). p.p_priority) (update_here k5.proc rc v);
          idle = ap (λ (p : Proc). p.p_flags.sending) (update_here k5.proc rc v);
        }
