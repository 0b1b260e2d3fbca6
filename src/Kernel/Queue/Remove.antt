-- ===== src/Kernel/Queue/Remove.antt =====
-- What `unready` makes of a ready queue.
use mathlib.Core.List.{append_assoc}
use soi_24z.Base.{
  ℕ, zero, suc, ◌<◌, ◌≡◌, sym, ap, ◌∙◌, Bool, true, false, if◌then◌else◌, none, some, Ptr, ptr_eq,
  ok, panic, List, [], ◌∷◌, ◌++◌, arith, length, length-append, has, ◌==◌, Distinct-append, Chain,
  View, drop_head, View-skip, last_of, snoc_of, subst,
}
use soi_24z.Kernel.Proc.{
  Kernel, ppri_task, Queue, task_q, server_q, user_q, rdy_head, rdy_tail, set_head, set_tail,
  set_nextready, nextready,
}
use soi_24z.Kernel.Queue.{
  unready_body, dequeue, repick, pick_proc, unready, queue_of, stack_overrun,
}
use soi_24z.Kernel.Queue.Links.{IsQueue, set_nextready-Relinked}

-- The writes of the search when it has found `rp` behind `l`.
cut : Queue → (l rp : ℕ) → Kernel → Kernel
cut q l rp k =
    let found = set_nextready l (nextready k rp) k in
    if ptr_eq (rdy_tail q found) (some rp) then set_tail q (some l) found else found

module _ (q : Queue) (rp : ℕ) (k : Kernel) where
  unready_body-found :
      (fuel xp : ℕ) (pre suf : List ℕ)
      → Chain (nextready k) (nextready k xp) (pre ++ rp ∷ suf) none
      → has rp pre ≡ false
      → length pre < fuel
      → unready_body fuel q rp xp k ≡ ok (cut q (last_of xp pre) rp k)
  unfolding unready_body cut
  unready_body-found zero xp pre suf c out few = absurd (omega arith)
  unready_body-found (suc f) xp [] suf c out few =
      let hit : ptr_eq (nextready k xp) (some rp) ≡ true = rw (c.0) (ground arith) in rw hit
  unready_body-found (suc f) xp (x ∷ pre) suf c out few =
      let miss : (x == rp) ≡ false = ground arith in
      rw (c.0, unready_body)
        (rw miss (unready_body-found f x pre suf c.1 (ground arith) (omega arith)))

  unready_body-absent :
      (fuel xp : ℕ) (xs : List ℕ)
      → Chain (nextready k) (nextready k xp) xs none
      → has rp xs ≡ false
      → length xs < fuel
      → unready_body fuel q rp xp k ≡ ok k
  unfolding unready_body
  unready_body-absent zero xp xs c out few = absurd (omega arith)
  unready_body-absent (suc f) xp [] c out few = rw (c, unready_body)
  unready_body-absent (suc f) xp (x ∷ xs) c out few =
      let miss : (x == rp) ≡ false = ground arith in
      rw (c.0, unready_body) (rw miss (unready_body-absent f x xs c.1 (ground arith) (omega arith)))

-- A tail that is mended or not.
mended :
    (q : Queue) (b : Bool) (l : ℕ) (k : Kernel) (xs : List ℕ)
    → View (nextready k) (rdy_head q k) (if b then some l else rdy_tail q k) xs
    → IsQueue q (if b then set_tail q (some l) k else k) xs
mended task_q true l k xs w = w
mended task_q false l k xs w = w
mended server_q true l k xs w = w
mended server_q false l k xs w = w
mended user_q true l k xs w = w
mended user_q false l k xs w = w

module _ (k : Kernel) (front : List ℕ) (l rp : ℕ) (suf : List ℕ) where
  skipped :
      (head tail : Ptr)
      → View (nextready k) head tail (front ++ l ∷ rp ∷ suf)
      → View
          (nextready (set_nextready l (nextready k rp) k))
          head
          (if ptr_eq tail (some rp) then some l else tail)
          (front ++ l ∷ suf)
  skipped head tail v =
      View-skip (nextready k) (nextready (set_nextready l (nextready k rp) k)) head tail front l rp
        suf v (set_nextready-Relinked k l (nextready k rp))

  -- Cutting leaves a queue without `rp`.
  cut-IsQueue :
      (q : Queue)
      → IsQueue q k (front ++ l ∷ rp ∷ suf)
      → IsQueue q (cut q l rp k) (front ++ l ∷ suf)
  unfolding cut
  cut-IsQueue task_q v =
      mended task_q _ l (set_nextready l (nextready k rp) k) _ (skipped k.head_task k.tail_task v)
  cut-IsQueue server_q v =
      mended server_q _ l (set_nextready l (nextready k rp) k) _
        (skipped k.head_server k.tail_server v)
  cut-IsQueue user_q v =
      mended user_q _ l (set_nextready l (nextready k rp) k) _ (skipped k.head_user k.tail_user v)

without_head :
    (next : ℕ → Ptr) (head tail : Ptr) (rp : ℕ) (suf : List ℕ)
    → View next head tail (rp ∷ suf)
    → View next (next rp) tail suf
without_head next head tail rp [] v = record { chain = v.chain.1; last = tt; distinct = tt }
without_head next head tail rp (y ∷ ys) v = drop_head next head tail rp y ys v

pick_proc-View :
    (idle : ℕ) (k : Kernel) (head tail : Ptr) (xs : List ℕ)
    → View (nextready k) head tail xs
    → View (nextready (pick_proc idle k)) head tail xs
unfolding pick_proc
pick_proc-View idle k head tail xs v = v

-- The head taken off a queue, and another process to run.
headless :
    (idle : ℕ) (q : Queue) (rp : ℕ) (k : Kernel) (suf : List ℕ)
    → IsQueue q k (rp ∷ suf)
    → IsQueue q (repick idle q rp (set_head q (nextready k rp) k)) suf
unfolding pick_proc
headless idle task_q rp k suf v =
    picked (rp == k.proc_ptr) (without_head (nextready k) k.head_task k.tail_task rp suf v)
  where
    picked :
        (b : Bool)
        → View (nextready k) (nextready k rp) k.tail_task suf
        → IsQueue task_q
            (if b
              then pick_proc idle (set_head task_q (nextready k rp) k)
              else set_head task_q (nextready k rp) k)
            suf
    picked true w =
        pick_proc-View idle (set_head task_q (nextready k rp) k) (nextready k rp) k.tail_task suf w
    picked false w = w
headless idle server_q rp k suf v =
    pick_proc-View idle (set_head server_q (nextready k rp) k) (nextready k rp) k.tail_server suf
      (without_head (nextready k) k.head_server k.tail_server rp suf v)
headless idle user_q rp k suf v =
    pick_proc-View idle (set_head user_q (nextready k rp) k) (nextready k rp) k.tail_user suf
      (without_head (nextready k) k.head_user k.tail_user rp suf v)

module _ (nr idle : ℕ) (q : Queue) (k : Kernel) where
  dequeue-head :
      (rp : ℕ)
      → rdy_head q k ≡ some rp
      → dequeue nr idle q rp k ≡ ok (repick idle q rp (set_head q (nextready k rp) k))
  unfolding dequeue
  dequeue-head rp e = let same : (rp == rp) ≡ true = ground arith in rw (e, dequeue) (rw same)

  dequeue-body :
      (rp xp : ℕ)
      → rdy_head q k ≡ some xp
      → (xp == rp) ≡ false
      → dequeue nr idle q rp k ≡ unready_body (suc nr) q rp xp k
  unfolding dequeue
  dequeue-body rp xp e miss = rw (e, dequeue) (rw miss)

  -- `unready` takes the process out of its queue, wherever in it the process stands.
  pub dequeue-IsQueue :
      (rp : ℕ) (pre suf : List ℕ)
      → IsQueue q k (pre ++ rp ∷ suf)
      → length (pre ++ rp ∷ suf) < suc (suc nr)
      → (k' : Kernel) × (dequeue nr idle q rp k ≡ ok k') × IsQueue q k' (pre ++ suf)
  dequeue-IsQueue rp [] suf v few = (
    repick idle q rp (set_head q (nextready k rp) k),
    dequeue-head rp v.chain.0,
    headless idle q rp k suf v,
  )
  dequeue-IsQueue rp (x ∷ pre) suf v few =
      let (front, ef) = snoc_of x pre in
      let whole : x ∷ pre ++ rp ∷ suf ≡ front ++ last_of x pre ∷ rp ∷ suf =
        ap (λ (c : List ℕ). c ++ rp ∷ suf) ef
        ∙ append_assoc front (last_of x pre ∷ []) (rp ∷ suf) in
      let short : front ++ last_of x pre ∷ suf ≡ x ∷ pre ++ suf =
        sym (ap (λ (c : List ℕ). c ++ suf) ef ∙ append_assoc front (last_of x pre ∷ []) suf) in
      let (dp, ds, off) = Distinct-append (x ∷ pre) (rp ∷ suf) v.distinct in
      let out : has rp (x ∷ pre) ≡ false = ground (arith, off rp) in
      (
        cut q (last_of x pre) rp k,
        dequeue-body rp x v.chain.0 (ground (arith, out))
            ∙ unready_body-found q rp k (suc nr) x pre suf v.chain.1 (ground (arith, out))
                (omega (arith, length-append pre (rp ∷ suf))),
        subst (IsQueue q (cut q (last_of x pre) rp k)) short
            (cut-IsQueue k front (last_of x pre) rp suf q (subst (IsQueue q k) whole v)),
      )

  -- `unready` of a process that stands in no queue changes nothing.
  pub dequeue-absent :
      (rp : ℕ) (xs : List ℕ)
      → IsQueue q k xs
      → has rp xs ≡ false
      → length xs < suc (suc nr)
      → dequeue nr idle q rp k ≡ ok k
  unfolding dequeue
  dequeue-absent rp [] v out few = rw (v.chain, dequeue)
  dequeue-absent rp (x ∷ xs) v out few =
      dequeue-body rp x v.chain.0 (ground (arith, out))
      ∙ unready_body-absent q rp k (suc nr) x xs v.chain.1 (ground (arith, out)) (omega arith)

-- In a queue that fits the process table, `unready` of a process whose stack guard is intact takes
-- it out of the queue of its priority, wherever in it the process stands, and keeps the order of
-- the others.
pub unready-IsQueue :
    (nr idle rp : ℕ) (k : Kernel) (pre suf : List ℕ)
    → stack_overrun (queue_of (k.proc rp).p_priority) rp k ≡ false
    → IsQueue (queue_of (k.proc rp).p_priority) k (pre ++ rp ∷ suf)
    → length (pre ++ rp ∷ suf) < suc (suc nr)
    → (k' : Kernel) × (unready nr idle rp k ≡ ok k')
      × IsQueue (queue_of (k.proc rp).p_priority) k' (pre ++ suf)
unfolding unready
unready-IsQueue nr idle rp k pre suf guarded v few =
    rw guarded (dequeue-IsQueue nr idle (queue_of (k.proc rp).p_priority) k rp pre suf v few)

-- `unready` of a process that stands in no queue, its stack guard intact, changes nothing.
pub unready-absent :
    (nr idle rp : ℕ) (k : Kernel) (xs : List ℕ)
    → stack_overrun (queue_of (k.proc rp).p_priority) rp k ≡ false
    → IsQueue (queue_of (k.proc rp).p_priority) k xs
    → has rp xs ≡ false
    → length xs < suc (suc nr)
    → unready nr idle rp k ≡ ok k
unfolding unready
unready-absent nr idle rp k xs guarded v out few =
    rw guarded (dequeue-absent nr idle (queue_of (k.proc rp).p_priority) k rp xs v out few)

-- `unready` of a task that has written over its stack guard panics.
pub unready-overrun :
    (nr idle rp : ℕ) (k : Kernel)
    → (k.proc rp).p_priority ≡ ppri_task
    → (k.proc rp).stack_ok ≡ false
    → unready nr idle rp k ≡ panic
unfolding unready queue_of
unready-overrun nr idle rp k e bad = rw (e, unready, queue_of) (rw bad)
