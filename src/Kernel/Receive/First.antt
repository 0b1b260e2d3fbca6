-- ===== src/Kernel/Receive/First.antt =====
-- `mini_rec` takes the first acceptable sender out of the queue.
use soi_24z.Base.{
  Bool, sym, subst, has, if◌then◌else◌, update_cases, ℕ, zero, suc, ◌<◌, ◌≤◌, ◌≡◌, refl, ap, ◌∙◌,
  true, false, ◌==◌, List, [], ◌∷◌, ◌++◌, none, some, Ptr, ptr_eq, arith, length, All, Chain,
  last_ptr, last_of, Distinct-append, ok, update, update_here,
}
use soi_24z.Kernel.Machine.{Machine}
use soi_24z.Kernel.Proc.{
  set_proc, Flags, Queue, Proc, Kernel, Message, Source, runnable, deref-some,
}
use soi_24z.Kernel.Ipc.{accepts, copy_mess, stop_sending, ready_if, set_sendlink, set_callerq}
use soi_24z.Kernel.Ipc.Unlink.{drop_first-Senders, skip_next-Senders}
use soi_24z.Kernel.Ipc.Waiting.{sending}
use soi_24z.Kernel.Ipc.Senders.{
  Senders, Senders-same, sendlink, callerq, Moved-SameLinks, set_proc-SameLinks, SameLinks-trans,
}
use soi_24z.Kernel.Ipc.Ends.{set_proc-IsQueue, memory-IsQueue}
use soi_24z.Kernel.Queue.{queue_of}
use soi_24z.Kernel.Queue.Links.{IsQueue, arrive, ready-IsQueue}
use soi_24z.Kernel.Queue.Moved.{Moved, Moved-refl, ready-Moved}
use soi_24z.Kernel.Receive.{find_sender, unlink_sender, take_message, mini_rec}

module _ (src : Source) (k : Kernel) where
  find_sender-found :
      (fuel : ℕ) (prev p : Ptr) (pre : List ℕ) (a : ℕ) (suf : List ℕ)
      → Chain (sendlink k) p (pre ++ a ∷ suf) none
      → All (λ x. accepts src x ≡ false) pre
      → accepts src a ≡ true
      → length pre < fuel
      → find_sender fuel src prev p k ≡ ok (some (last_ptr prev pre, a))
  unfolding find_sender
  find_sender-found zero prev p pre a suf c miss hit few = absurd (omega arith)
  find_sender-found (suc f) prev p [] a suf c miss hit few = rw (c.0, find_sender) (rw hit refl)
  find_sender-found (suc f) prev p (x ∷ pre) a suf c miss hit few =
      rw (c.0, find_sender)
        (rw (miss.0)
          (find_sender-found f (some x) (sendlink k x) pre a suf c.1 miss.1 hit (omega arith)))

  -- No sender is acceptable.
  pub find_sender-none :
      (fuel : ℕ) (prev p : Ptr) (xs : List ℕ)
      → Chain (sendlink k) p xs none
      → All (λ x. accepts src x ≡ false) xs
      → length xs < fuel
      → find_sender fuel src prev p k ≡ ok none
  unfolding find_sender
  find_sender-none zero prev p xs c miss few = absurd (omega arith)
  find_sender-none (suc f) prev p [] c miss few = rw (c, find_sender)
  find_sender-none (suc f) prev p (x ∷ xs) c miss few =
      rw (c.0, find_sender)
        (rw (miss.0) (find_sender-none f (some x) (sendlink k x) xs c.1 miss.1 (omega arith)))

last_ptr-last_of : (x : ℕ) (xs : List ℕ) → last_ptr (some x) xs ≡ some (last_of x xs)
last_ptr-last_of x [] = refl
last_ptr-last_of x (y ∷ ys) = last_ptr-last_of y ys

-- The flags and the priority of a process.
abbrev SameCore : Proc → Proc → Type 0
SameCore p p' = (p'.p_flags ≡ p.p_flags) × (p'.p_priority ≡ p.p_priority)

set_proc-SameCore :
    (i : ℕ) (v : Proc) (k : Kernel) (j : ℕ)
    → SameCore (k.proc i) v
    → SameCore (k.proc j) ((set_proc i v k).proc j)
set_proc-SameCore i v k j same =
    update_cases (SameCore (k.proc j)) k.proc i v j
      (λ e. subst (λ n. SameCore (k.proc n) v) (sym e) same) (refl, refl)

-- `ready` where the process is to run.
ready_if-IsQueue :
    (b : Bool) (q : Queue) (i : ℕ) (k : Kernel) (xs : List ℕ)
    → queue_of (k.proc i).p_priority ≡ q
    → IsQueue q k xs
    → has i xs ≡ false
    → (k' : Kernel) × (ready_if b i k ≡ ok k')
      × Moved k k'
      × IsQueue q k' (if b then arrive q i xs else xs)
ready_if-IsQueue false q i k xs e w out = (k, refl, Moved-refl k, w)
ready_if-IsQueue true q i k xs e w out =
    let (k', run, w') = ready-IsQueue i k xs (subst (λ x. IsQueue x k xs) (sym e) w) out in
    (k', run, ready-Moved i k k' run, subst (λ x. IsQueue x k' (arrive x i xs)) e w')

module _ (caller a : ℕ) (k : Kernel) where
  -- The sender leaves the queue, wherever in it it stands.
  pub unlink_sender-Senders :
      (pre suf : List ℕ)
      → Senders k caller (pre ++ a ∷ suf)
      → (k' : Kernel) × (unlink_sender caller (last_ptr none pre) a k ≡ ok k')
        × Senders k' caller (pre ++ suf)
        × (k'.memory ≡ k.memory)
        × ((q : Queue) (xs : List ℕ) → IsQueue q k xs → IsQueue q k' xs)
        × ((j : ℕ) → SameCore (k.proc j) (k'.proc j))
  unfolding unlink_sender
  unlink_sender-Senders [] suf s =
      let v : Proc = record (k.proc caller) { p_callerq = sendlink k a } in
      let here : ptr_eq (some a) (callerq k caller) ≡ true = rw (s.chain.0) (ground arith) in
      (
        set_callerq caller (sendlink k a) k,
        rw here refl,
        drop_first-Senders caller a k suf s,
        refl,
        λ q xs w. set_proc-IsQueue q caller v k xs refl w,
        λ j. set_proc-SameCore caller v k j (refl, refl),
      )
  unlink_sender-Senders (x ∷ pre) suf s =
      let l = last_of x pre in
      let (dp, ds, off) = Distinct-append (x ∷ pre) (a ∷ suf) s.distinct in
      let apart : (a == x) ≡ false = ground (arith, off x) in
      let there : ptr_eq (some a) (callerq k caller) ≡ false = rw (s.chain.0) apart in
      let v : Proc = record (k.proc l) { p_sendlink = sendlink k a } in
      (
        set_sendlink l (sendlink k a) k,
        rw there (deref-some (last_ptr (some x) pre) l _ (last_ptr-last_of x pre)),
        skip_next-Senders caller a k x pre suf s,
        refl,
        λ q xs w. set_proc-IsQueue q l v k xs refl w,
        λ j. set_proc-SameCore l v k j (refl, refl),
      )

-- The flags of a process that no longer waits to send.
abbrev pub freed : Flags → Flags
freed f = record f { sending = false }

-- What is true after the message of the sender `a` was taken: where nothing else stops it, `a` is
-- put into its ready queue, which had the entries `xs`.
pub record Received (caller a m_ptr : ℕ) (rest xs : List ℕ) (k k' : Kernel) : Type 0 where
  pub message : k'.memory caller m_ptr ≡ record (k.memory a (k.proc a).p_messbuf) { m_source = a }
  pub senders : Senders k' caller rest
  pub flags : (k'.proc a).p_flags ≡ freed (k.proc a).p_flags
  pub queue :
      let q = queue_of (k.proc a).p_priority in
      IsQueue q k' (if runnable (freed (k.proc a).p_flags) then arrive q a xs else xs)

take_message-Received :
    (caller a m_ptr : ℕ) (pre suf xs : List ℕ) (k : Kernel)
    → Senders k caller (pre ++ a ∷ suf)
    → IsQueue (queue_of (k.proc a).p_priority) k xs
    → has a xs ≡ false
    → (k' : Kernel) × (take_message caller (last_ptr none pre) a m_ptr k ≡ ok k')
      × Received caller a m_ptr (pre ++ suf) xs k k'
unfolding take_message
take_message-Received caller a m_ptr pre suf xs k s w out =
    let k0 = copy_mess a (k.proc a).p_messbuf caller m_ptr k in
    let s0 : Senders k0 caller (pre ++ a ∷ suf) = record {
      chain = s.chain;
      distinct = s.distinct;
    } in
    let (k1, run, rest, mem, queues, same) = unlink_sender-Senders caller a k0 pre suf s0 in
    let q = queue_of (k.proc a).p_priority in
    let v : Proc = record (k1.proc a) { p_flags = freed (k1.proc a).p_flags } in
    let k2 = stop_sending a k1 in
    let there : k2.proc a ≡ v = update_here k1.proc a v in
    let flags : (k2.proc a).p_flags ≡ freed (k.proc a).p_flags =
      ap (λ (p : Proc). p.p_flags) there ∙ ap freed (same a).0 in
    let prio : queue_of (k2.proc a).p_priority ≡ q =
      ap (λ (p : Proc). queue_of p.p_priority) there ∙ ap queue_of (same a).1 in
    let w2 = set_proc-IsQueue q a v k1 xs refl (queues q xs (memory-IsQueue q k0.memory k xs w)) in
    let (k3, run3, m, w3) = ready_if-IsQueue (runnable (k2.proc a).p_flags) q a k2 xs prio w2 out in
    let mess : Message = record (k.memory a (k.proc a).p_messbuf) { m_source = a } in
    let links =
      SameLinks-trans k1 k2 k3 (set_proc-SameLinks a v k1 refl refl) (Moved-SameLinks k2 k3 m) in
    (
      k3,
      rw run run3,
      record {
        message =
            ap (λ o. o.1 caller m_ptr) m.rest
            ∙ ap (λ f. f caller m_ptr) mem
            ∙ ap (λ f. f m_ptr) (update_here k.memory caller (update (k.memory caller) m_ptr mess))
            ∙ update_here (k.memory caller) m_ptr mess;
        senders = Senders-same k1 k3 caller (pre ++ suf) links rest;
        flags = ap (λ (p : Proc). p.p_flags) (m.procs a) ∙ flags;
        queue = subst (λ f. IsQueue q k3 (if runnable f then arrive q a xs else xs)) flags w3;
      },
    )

-- A process that is not waiting to send, and that other processes wait to send to, receives from
-- the first of them, `a`, that is an acceptable source, if `a` stands outside of a sound ready queue:
-- the call ends, the message of `a` is in the buffer with its source, `a` no longer waits to send,
-- and the others wait in the same order. Where nothing else stops `a`, it is put into its ready
-- queue: a task or a server behind the others, a user process in front; else the queue is as before.
pub mini_rec-Received :
    (c : Machine) (caller : ℕ) (src : Source) (m_ptr : ℕ) (pre : List ℕ) (a : ℕ) (suf xs : List ℕ)
    (k : Kernel)
    → sending k caller ≡ false
    → Senders k caller (pre ++ a ∷ suf)
    → All (λ x. accepts src x ≡ false) pre
    → accepts src a ≡ true
    → length pre ≤ c.nr
    → IsQueue (queue_of (k.proc a).p_priority) k xs
    → has a xs ≡ false
    → (k' : Kernel) × (mini_rec c caller src m_ptr k ≡ ok k')
      × Received caller a m_ptr (pre ++ suf) xs k k'
unfolding mini_rec
mini_rec-Received c caller src m_ptr pre a suf xs k idle s miss hit few w out =
    let (k', run, r) = take_message-Received caller a m_ptr pre suf xs k s w out in
    (
      k',
      rw idle (
          rw
            (find_sender-found src k (suc c.nr) none (callerq k caller) pre a suf s.chain miss hit
              (omega arith))
            run),
      r,
    )
