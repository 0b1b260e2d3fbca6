-- ===== src/Kernel/Ipc/Send.antt =====
-- What `mini_send` does, on every branch.
use soi_24z.Base.{
  ℕ, ◌<◌, ◌≤◌, ◌≡◌, refl, Bool, true, false, not, ◌==◌, if◌then◌else◌, List, ◌∷◌, arith, has,
  length, ok, Bool-cases, inl, inr,
}
use soi_24z.Kernel.Machine.{Machine}
use soi_24z.Kernel.Proc.{Kernel}
use soi_24z.Kernel.Ipc.{
  Status, done, e_bad_dest, efault, elocked, failed, bad_dest, in_memory, waits_for, mini_send,
}
use soi_24z.Kernel.Ipc.Waiting.{SendPath, NoDeadlock, InTable, deadlock-has}
use soi_24z.Kernel.Ipc.Blocked.{
  SameWaits-NoDeadlock, SameWaits-InTable, Redirected-NoDeadlock, Redirected-InTable,
}
use soi_24z.Kernel.Ipc.Senders.{Senders}
use soi_24z.Kernel.Ipc.Ends.{Steady, Apart}
use soi_24z.Kernel.Ipc.Parts.{Delivered, Queued, deliver-Delivered, block_sender-Queued}

-- The answer to a send, where `ds` is the way of those that `dest` waits for.
unfoldable pub verdict : Machine → (caller dest m_ptr : ℕ) → Kernel → (ds : List ℕ) → Status
verdict c caller dest m_ptr k ds =
    if bad_dest c caller dest k
    then e_bad_dest
    else if not (in_memory c (k.proc caller) m_ptr)
    then efault
    else if has caller ds
    then elocked
    else done

-- A refused send changes nothing; else the message is delivered, or the caller waits behind `ss`.
pub data Sent (caller dest m_ptr : ℕ) (ss : List ℕ) (k : Kernel) : Status → Kernel → Type 0 where
  refused : (r : Status) → failed r ≡ true → Sent caller dest m_ptr ss k r k
  delivered :
      (k' : Kernel)
      → waits_for (k.proc dest) caller ≡ true
      → Delivered caller dest m_ptr k k'
      → Sent caller dest m_ptr ss k done k'
  queued :
      (k' : Kernel)
      → waits_for (k.proc dest) caller ≡ false
      → Queued caller dest ss k k'
      → Sent caller dest m_ptr ss k done k'

module _ (c : Machine) (caller dest m_ptr : ℕ) (ss ds : List ℕ) (k : Kernel) where
  -- A send ends if the senders wait in a way `ds` without a circle for processes of the table, the
  -- ready queue of the caller is sound, and so is that of the destination, which stands outside of
  -- it, if it waits for the message, and the caller is not among the `ss` that wait to send to the
  -- destination. It then gives the answer of `verdict`: a bad destination, a buffer outside of the
  -- caller's memory, a circle of senders, or that it is done. It changes nothing if it is refused,
  -- delivers the message if the destination waits for it, and else puts the caller last among the
  -- senders.
  pub mini_send-Sent :
      InTable c.nr k
      → SendPath k dest ds
      → Steady c.nr k caller
      → (waits_for (k.proc dest) caller ≡ true → Apart k dest)
      → Senders k dest ss
      → has caller ss ≡ false
      → length ss ≤ c.nr
      → (k' : Kernel) × (mini_send c caller dest m_ptr k
          ≡ ok (verdict c caller dest m_ptr k ds, k'))
        × Sent caller dest m_ptr ss k (verdict c caller dest m_ptr k ds) k'
  unfolding mini_send verdict
  mini_send-Sent t way st ap_dest s out few = elim (Bool-cases (bad_dest c caller dest k)) [
    | inl bad ↦ rw bad (k, refl, refused e_bad_dest refl)
    | inr fine ↦ rw fine (elim (Bool-cases (in_memory c (k.proc caller) m_ptr)) [
      | inr off ↦ rw off (k, refl, refused efault refl)
      | inl on ↦ rw on (
          rw (deadlock-has c.nr caller dest k ds t way) (elim (Bool-cases (has caller ds)) [
            | inl circle ↦ rw circle (k, refl, refused elocked refl)
            | inr straight ↦ rw straight (elim (Bool-cases (waits_for (k.proc dest) caller)) [
              | inl waits ↦
                  let (k', run, d) = deliver-Delivered caller dest m_ptr k (ap_dest waits) in
                  rw waits (rw run (k', refl, delivered k' waits d))
              | inr busy ↦
                  let (k', run, q) = block_sender-Queued c caller dest m_ptr ss k st s out few in
                  rw busy (rw run (k', refl, queued k' busy q))
            ])
          ]))
    ])
  ]

  verdict-open : failed (verdict c caller dest m_ptr k ds) ≡ false → has caller ds ≡ false
  unfolding verdict
  verdict-open passed = elim (Bool-cases (has caller ds)) [
    | inr out ↦ out
    | inl circle ↦ absurd (
        closed (bad_dest c caller dest k) (in_memory c (k.proc caller) m_ptr) (rw circle at passed))
  ]
    where
      closed :
          (a b : Bool)
          → failed (if a then e_bad_dest else if not b then efault else elocked) ≡ false
          → ⊥
      closed true b h = absurd (cc)
      closed false true h = absurd (cc)
      closed false false h = absurd (cc)

  Sent-NoDeadlock :
      (r : Status) (k' : Kernel)
      → Sent caller dest m_ptr ss k r k'
      → (failed r ≡ false → has caller (dest ∷ ds) ≡ false)
      → SendPath k dest ds
      → dest < c.nr
      → InTable c.nr k
      → NoDeadlock k
      → InTable c.nr k' × NoDeadlock k'
  Sent-NoDeadlock r k' (refused _ bad) out way low t free = (t, free)
  Sent-NoDeadlock r k' (delivered _ waits d) out way low t free =
      (SameWaits-InTable c.nr k k' d.waits t, SameWaits-NoDeadlock k k' d.waits free)
  Sent-NoDeadlock r k' (queued _ busy q) out way low t free = (
    Redirected-InTable caller dest k k' q.redirected c.nr low t,
    Redirected-NoDeadlock caller dest k k' q.redirected ds (out refl) way free,
  )

-- No circle of senders comes up: under the conditions of a send to another process of the table,
-- the send ends, and if the senders waited in ways without a circle for processes of the table,
-- they do so afterwards.
pub mini_send-NoDeadlock :
    (c : Machine) (caller dest m_ptr : ℕ) (ss : List ℕ) (k : Kernel)
    → (caller == dest) ≡ false
    → dest < c.nr
    → InTable c.nr k
    → NoDeadlock k
    → Steady c.nr k caller
    → (waits_for (k.proc dest) caller ≡ true → Apart k dest)
    → Senders k dest ss
    → has caller ss ≡ false
    → length ss ≤ c.nr
    → (r : Status) × (k' : Kernel) × (mini_send c caller dest m_ptr k ≡ ok (r, k'))
      × InTable c.nr k'
      × NoDeadlock k'
mini_send-NoDeadlock c caller dest m_ptr ss k apart low t free st ap_dest s out few =
    let (ds, way) = free dest in
    let r = verdict c caller dest m_ptr k ds in
    let (k', run, sent) = mini_send-Sent c caller dest m_ptr ss ds k t way st ap_dest s out few in
    let (t', free') =
      Sent-NoDeadlock c caller dest m_ptr ss ds k r k' sent
        (λ passed. ground (arith, apart, verdict-open c caller dest m_ptr ss ds k passed)) way low t
        free in
    (r, k', run, t', free')
