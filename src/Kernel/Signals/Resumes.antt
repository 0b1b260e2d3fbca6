-- ===== src/Kernel/Signals/Resumes.antt =====
-- A process goes on when MM has finished its last signal.
use soi_24z.Base.{
  ℕ, ◌-◌, ◌≡◌, refl, sym, ap, ◌∙◌, Bool, true, false, ◌==◌, if◌then◌else◌, List, has, Run, ok,
  ◌>>=◌, update_here, subst,
}
use soi_24z.Kernel.Proc.{
  Priority, ppri_none, ppri_task, ppri_server, ppri_user, ppri_idle, Flags, runnable, Proc, Kernel,
  set_proc,
}
use soi_24z.Kernel.Queue.{queue_of}
use soi_24z.Kernel.Queue.Links.{IsQueue, arrive, ready-IsQueue}
use soi_24z.Kernel.Queue.Moved.{ready-Moved}
use soi_24z.Kernel.Ipc.{Status, done, e_bad_proc, isuserp, isemptyp}
use soi_24z.Kernel.Ipc.Ends.{set_proc-IsQueue, switching-IsQueue}
use soi_24z.Kernel.Receive.{lock_ready}
use soi_24z.Kernel.Signals.{assert, lock_ready_if, end_one, do_endsig}
use soi_24z.Kernel.Signals.Stops.{SameEntries}

lock_ready-IsQueue :
    (b : Bool) (rp : ℕ) (k : Kernel) (xs : List ℕ)
    → b ≡ true
    → IsQueue (queue_of (k.proc rp).p_priority) k xs
    → has rp xs ≡ false
    → (k' : Kernel) × (lock_ready_if b rp k ≡ ok k')
      × IsQueue
          (queue_of (k.proc rp).p_priority)
          k'
          (arrive (queue_of (k.proc rp).p_priority) rp xs)
      × SameEntries k k'
unfolding lock_ready
lock_ready-IsQueue false rp k xs on v out = absurd (cc)
lock_ready-IsQueue true rp k xs on v out =
    let q = queue_of (k.proc rp).p_priority in
    let k0 = record k { switching = true } in
    let (k1, run, w) = ready-IsQueue rp k0 xs (switching-IsQueue q k true xs v) out in
    let m = ready-Moved rp k0 k1 run in
    (
      record k1 { switching = false },
      rw run refl,
      switching-IsQueue q k1 false (arrive q rp xs) w,
      m.procs,
    )

-- What is true after the last signal of `rp` was finished.
pub record Resumed (rp : ℕ) (xs : List ℕ) (k k' : Kernel) : Type 0 where
  pub queue :
      IsQueue (queue_of (k.proc rp).p_priority) k' (arrive (queue_of (k.proc rp).p_priority) rp xs)
  pub flags : runnable (k'.proc rp).p_flags ≡ true
  pub count : (k'.proc rp).p_pendcount ≡ 0

not_empty : (p : Proc) → isuserp p ≡ true → isemptyp p ≡ false
not_empty p h = by_priority p.p_priority h
  where
    by_priority :
        (q : Priority)
        → (elim q as (λ _. Bool) [ ppri_user ↦ true | _ ↦ false ]) ≡ true
        → (elim q as (λ _. Bool) [ ppri_none ↦ true | _ ↦ false ]) ≡ false
    by_priority ppri_none h = absurd (cc)
    by_priority ppri_task h = refl
    by_priority ppri_server h = refl
    by_priority ppri_user h = refl
    by_priority ppri_idle h = refl

module _ (rp : ℕ) (k : Kernel) where
  -- The entry with one signal less.
  less : Proc
  less = record (k.proc rp) { p_pendcount = (k.proc rp).p_pendcount - 1 }

  freed : Flags
  freed = record ((k.proc rp).p_flags) { sig_pending = false }

  end_last : Kernel
  unfolding less freed
  end_last = let k1 = set_proc rp less k in set_proc rp (record (k1.proc rp) { p_flags = freed }) k1

  end_one-last :
      (k.proc rp).p_pendcount ≡ 1 → end_one rp k ≡ lock_ready_if (runnable freed) rp end_last
  unfolding end_one less freed end_last
  end_one-last e =
      let rest : Bool → Run Kernel =
        λ b. if b then lock_ready_if (runnable freed) rp end_last else ok (set_proc rp less k) in
      ap (λ n. if n == 0 then ok k else rest (n == 1)) e

  do_endsig-user :
      isuserp (k.proc rp) ≡ true → do_endsig rp k ≡ (end_one rp k >>= λ k'. ok (done, k'))
  unfolding do_endsig
  do_endsig-user user =
      let go : Run (Status × Kernel) = end_one rp k >>= λ k'. ok (done, k') in
      ap (λ b. if b then ok (e_bad_proc, k) else assert (isuserp (k.proc rp)) go)
        (not_empty (k.proc rp) user)
      ∙ ap (λ b. assert b go) user

  -- When MM has finished the one signal that is counted for a user process, which nothing else
  -- stops and which is in no ready queue, that of its priority being sound, do_endsig ends, and
  -- the process is runnable and in its ready queue, with no signal counted.
  pub do_endsig-Resumed :
      (xs : List ℕ)
      → isuserp (k.proc rp) ≡ true
      → (k.proc rp).p_pendcount ≡ 1
      → runnable (record ((k.proc rp).p_flags) { sig_pending = false }) ≡ true
      → IsQueue (queue_of (k.proc rp).p_priority) k xs
      → has rp xs ≡ false
      → (k' : Kernel) × (do_endsig rp k ≡ ok (done, k')) × Resumed rp xs k k'
  unfolding less freed end_last
  do_endsig-Resumed xs user one on v out =
      let q = queue_of (k.proc rp).p_priority in
      let k1 = set_proc rp less k in
      let there1 : k1.proc rp ≡ less = update_here k.proc rp less in
      let v2 : Proc = record (k1.proc rp) { p_flags = freed } in
      let there2 : end_last.proc rp ≡ v2 = update_here k1.proc rp v2 in
      let prio : queue_of (end_last.proc rp).p_priority ≡ q =
        ap (λ (x : Proc). queue_of x.p_priority) there2
        ∙ ap (λ (x : Proc). queue_of x.p_priority) there1 in
      let w = set_proc-IsQueue q rp v2 k1 xs refl (set_proc-IsQueue q rp less k xs refl v) in
      let (k3, run, r, same) =
        lock_ready-IsQueue (runnable freed) rp end_last xs on
          (subst (λ x. IsQueue x end_last xs) (sym prio) w) out in
      (
        k3,
        do_endsig-user user ∙ ap (λ x. x >>= λ k'. ok (done, k')) (end_one-last one ∙ run),
        record {
          queue = subst (λ x. IsQueue x k3 (arrive x rp xs)) prio r;
          flags =
              ap (λ (x : Proc). runnable x.p_flags) (same rp)
              ∙ ap (λ (x : Proc). runnable x.p_flags) there2
              ∙ on;
          count =
              ap (λ (x : Proc). x.p_pendcount) (same rp)
              ∙ ap (λ (x : Proc). x.p_pendcount) there2
              ∙ ap (λ (x : Proc). x.p_pendcount) there1
              ∙ ap (λ n. n - 1) one;
        },
      )
