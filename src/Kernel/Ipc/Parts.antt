-- ===== src/Kernel/Ipc/Parts.antt =====
-- The two ways that `mini_send` goes on: the message is delivered, or the caller waits.
use soi_24z.Base.{
  ℕ, ◌≤◌, ◌≡◌, refl, ap, ◌∙◌, Bool, true, false, List, [], ◌∷◌, ◌++◌, has, length, ok, update,
  update_here, update_there, subst, the_result,
}
use soi_24z.Kernel.Machine.{Machine}
use soi_24z.Kernel.Proc.{Proc, Kernel, Message, set_proc, runnable}
use soi_24z.Kernel.Queue.Links.{ready-IsQueue}
use soi_24z.Kernel.Queue.Moved.{Moved, Moved-refl, ready-Moved, unready-Moved}
use soi_24z.Kernel.Ipc.{
  deliver, block_sender, copy_mess, stop_receiving, start_sending, ready_if, unready_if,
}
use soi_24z.Kernel.Ipc.Blocked.{
  SameWaits, SameWaits-trans, Moved-SameWaits, set_proc-SameWaits, Redirected,
}
use soi_24z.Kernel.Ipc.Senders.{
  Senders, SameLinks, SameLinks-trans, Moved-SameLinks, set_proc-SameLinks, Senders-same,
  queue_sender-Senders,
}
use soi_24z.Kernel.Ipc.Ends.{
  Steady, unready_if-ends, Apart, set_proc-Apart, memory-Apart, set_proc-Steady,
}

pub ready_if-ends :
    (b : Bool) (i : ℕ) (k : Kernel)
    → Apart k i
    → (k' : Kernel) × (ready_if b i k ≡ ok k') × Moved k k'
ready_if-ends true i k a =
    let (k', run, w) = ready-IsQueue i k a.entries a.queue a.outside in
    (k', run, ready-Moved i k k' run)
ready_if-ends false i k a = (k, refl, Moved-refl k)

unready_if-Moved :
    (b : Bool) (c : Machine) (i : ℕ) (k k' : Kernel) → unready_if b c i k ≡ ok k' → Moved k k'
unready_if-Moved true c i k k' run = unready-Moved c.nr c.idle i k k' run
unready_if-Moved false c i k k' run = subst (Moved k) (the_result k k' run) (Moved-refl k)

-- What is true after the message went to `dest`.
pub record Delivered (caller dest m_ptr : ℕ) (k k' : Kernel) : Type 0 where
  pub message :
      k'.memory dest (k.proc dest).p_messbuf ≡ record (k.memory caller m_ptr) { m_source = caller }
  pub received : (k'.proc dest).p_flags.receiving ≡ false
  pub waits : SameWaits k k'

pub deliver-Delivered :
    (caller dest m_ptr : ℕ) (k : Kernel)
    → Apart k dest
    → (k' : Kernel) × (deliver caller dest m_ptr k ≡ ok k') × Delivered caller dest m_ptr k k'
unfolding deliver
deliver-Delivered caller dest m_ptr k a =
    let k1 = copy_mess caller m_ptr dest (k.proc dest).p_messbuf k in
    let k2 = stop_receiving dest k1 in
    let v : Proc = record (k.proc dest) {
      p_flags = record ((k.proc dest).p_flags) { receiving = false };
    } in
    let there : k2.proc dest ≡ v = update_here k.proc dest v in
    let apart = set_proc-Apart dest v k1 dest refl refl (memory-Apart k1.memory k dest a) in
    let (k', run, m) = ready_if-ends (runnable (k2.proc dest).p_flags) dest k2 apart in
    let mess : Message = record (k.memory caller m_ptr) { m_source = caller } in
    (
      k',
      run,
      record {
        message =
            ap (λ o. o.1 dest (k.proc dest).p_messbuf) m.rest
            ∙ ap (λ f. f (k.proc dest).p_messbuf)
                (update_here k.memory dest (update (k.memory dest) (k.proc dest).p_messbuf mess))
            ∙ update_here (k.memory dest) (k.proc dest).p_messbuf mess;
        received =
            ap (λ (p : Proc). p.p_flags.receiving) (m.procs dest)
            ∙ ap (λ (p : Proc). p.p_flags.receiving) there;
        waits =
            let w = set_proc-SameWaits dest v k1 refl refl in
            SameWaits-trans k k2 k' (record { who = w.who; whom = w.whom })
              (Moved-SameWaits k2 k' m);
      },
    )

-- What is true after the caller was made to wait behind the senders `ss`.
pub record Queued (caller dest : ℕ) (ss : List ℕ) (k k' : Kernel) : Type 0 where
  pub redirected : Redirected caller dest k k'
  pub senders : Senders k' dest (ss ++ caller ∷ [])

pub block_sender-Queued :
    (c : Machine) (caller dest m_ptr : ℕ) (ss : List ℕ) (k : Kernel)
    → Steady c.nr k caller
    → Senders k dest ss
    → has caller ss ≡ false
    → length ss ≤ c.nr
    → (k' : Kernel) × (block_sender c caller dest m_ptr k ≡ ok k') × Queued caller dest ss k k'
unfolding block_sender
block_sender-Queued c caller dest m_ptr ss k st s out few =
    let v1 : Proc = record (k.proc caller) { p_messbuf = m_ptr } in
    let k1 = set_proc caller v1 k in
    let b = runnable (k1.proc caller).p_flags in
    let (k2, run) =
      (unready_if-ends b c caller k1 (set_proc-Steady c.nr k caller v1 caller refl refl refl st)) in
    let m = unready_if-Moved b c caller k1 k2 run in
    let v3 : Proc = record (k2.proc caller) {
      p_flags = record ((k2.proc caller).p_flags) { sending = true };
    } in
    let k3 = start_sending caller k2 in
    let v4 : Proc = record (k3.proc caller) { p_sendto = dest } in
    let k4 = set_proc caller v4 k3 in
    let links : SameLinks k k4 =
      SameLinks-trans k k1 k4 (set_proc-SameLinks caller v1 k refl refl) (
        SameLinks-trans k1 k2 k4 (Moved-SameLinks k1 k2 m) (
          SameLinks-trans k2 k3 k4 (set_proc-SameLinks caller v3 k2 refl refl)
            (set_proc-SameLinks caller v4 k3 refl refl))) in
    let (k5, run5, queue, same) =
      queue_sender-Senders c.nr caller dest k4 ss (Senders-same k k4 dest ss links s) out few in
    let before : SameWaits k k2 =
      SameWaits-trans k k1 k2 (set_proc-SameWaits caller v1 k refl refl)
        (Moved-SameWaits k1 k2 m) in
    let there3 = update_here k2.proc caller v3 in
    let there4 = update_here k3.proc caller v4 in
    (
      k5,
      rw run run5,
      record {
        redirected = record {
          here =
              same.who caller
              ∙ ap (λ (p : Proc). p.p_flags.sending) there4
              ∙ ap (λ (p : Proc). p.p_flags.sending) there3;
          goal = same.whom caller ∙ ap (λ (p : Proc). p.p_sendto) there4;
          who = λ i other.
              same.who i
              ∙ ap (λ (p : Proc). p.p_flags.sending)
                  (update_there k3.proc caller v4 i other ∙ update_there k2.proc caller v3 i other)
              ∙ before.who i;
          whom = λ i other.
              same.whom i
              ∙ ap (λ (p : Proc). p.p_sendto)
                  (update_there k3.proc caller v4 i other ∙ update_there k2.proc caller v3 i other)
              ∙ before.whom i;
        };
        senders = queue;
      },
    )
