-- ===== src/Kernel/Ipc/Ends.antt =====
-- The parts of sending end.
use soi_24z.Base.{
  has-split, ℕ, suc, ◌<◌, ◌≡◌, refl, sym, ap, ◌∙◌, Bool, true, false, if◌then◌else◌, List, none,
  Ptr, arith, has, length, Chain-frame, View, ok, update, update_cases, subst, inl, inr, Bool-cases,
}
use soi_24z.Kernel.Machine.{Machine}
use soi_24z.Kernel.Proc.{
  Proc, Kernel, Queue, task_q, server_q, user_q, set_proc, nextready, Message,
}
use soi_24z.Kernel.Queue.{unready, queue_of, stack_overrun}
use soi_24z.Kernel.Queue.Links.{IsQueue}
use soi_24z.Kernel.Queue.Remove.{unready-IsQueue, unready-absent}
use soi_24z.Kernel.Ipc.{unready_if}

-- The process `i` has a sound ready queue and an intact stack guard.
pub record Steady (nr : ℕ) (k : Kernel) (i : ℕ) : Type 0 where
  pub entries : List ℕ
  pub queue : IsQueue (queue_of (k.proc i).p_priority) k entries
  pub fits : length entries < suc (suc nr)
  pub guarded : stack_overrun (queue_of (k.proc i).p_priority) i k ≡ false

pub unready-ends :
    (nr idle i : ℕ) (k : Kernel) → Steady nr k i → (k' : Kernel) × (unready nr idle i k ≡ ok k')
unready-ends nr idle i k s = elim (Bool-cases (has i s.entries)) [
  | inl in_it ↦
      let q = queue_of (k.proc i).p_priority in
      let (pre, suf, e) = has-split i s.entries in_it in
      let (k', run, v) =
        unready-IsQueue nr idle i k pre suf s.guarded (subst (IsQueue q k) e s.queue)
          (omega (arith, s.fits, ap (length {0}) e)) in
      (k', run)
  | inr out ↦ (k, unready-absent nr idle i k s.entries s.guarded s.queue out s.fits)
]

pub unready_if-ends :
    (b : Bool) (c : Machine) (i : ℕ) (k : Kernel)
    → Steady c.nr k i
    → (k' : Kernel) × (unready_if b c i k ≡ ok k')
unready_if-ends true c i k s = unready-ends c.nr c.idle i k s
unready_if-ends false c i k s = (k, refl)

-- A write to an entry that leaves its link to the next ready one as it is.
pub set_proc-IsQueue :
    (q : Queue) (i : ℕ) (v : Proc) (k : Kernel) (xs : List ℕ)
    → v.p_nextready ≡ nextready k i
    → IsQueue q k xs
    → IsQueue q (set_proc i v k) xs
set_proc-IsQueue q i v k xs e w = go q w
  where
    kept :
        (head tail : Ptr)
        → View (nextready k) head tail xs
        → View (nextready (set_proc i v k)) head tail xs
    kept head tail w = record {
      chain =
          Chain-frame (nextready k) (nextready (set_proc i v k)) head xs none
            (λ j h.
              update_cases (λ (p : Proc). p.p_nextready ≡ nextready k j) k.proc i v j
                (λ same. e ∙ ap (nextready k) (sym same)) refl)
            w.chain;
      last = w.last;
      distinct = w.distinct;
    }

    go : (q : Queue) → IsQueue q k xs → IsQueue q (set_proc i v k) xs
    go task_q w = kept k.head_task k.tail_task w
    go server_q w = kept k.head_server k.tail_server w
    go user_q w = kept k.head_user k.tail_user w

-- A write to the memory.
pub memory-IsQueue :
    (q : Queue) (m : ℕ → ℕ → Message) (k : Kernel) (xs : List ℕ)
    → IsQueue q k xs
    → IsQueue q (record k { memory = m }) xs
memory-IsQueue task_q m k xs w = w
memory-IsQueue server_q m k xs w = w
memory-IsQueue user_q m k xs w = w

-- The process `i` stands in no ready queue, and that of its priority is sound.
pub record Apart (k : Kernel) (i : ℕ) : Type 0 where
  pub entries : List ℕ
  pub queue : IsQueue (queue_of (k.proc i).p_priority) k entries
  pub outside : has i entries ≡ false

pub set_proc-Apart :
    (i : ℕ) (v : Proc) (k : Kernel) (j : ℕ)
    → v.p_nextready ≡ nextready k i
    → v.p_priority ≡ (k.proc i).p_priority
    → Apart k j
    → Apart (set_proc i v k) j
set_proc-Apart i v k j next prio a =
    let same : (update k.proc i v j).p_priority ≡ (k.proc j).p_priority =
      update_cases (λ (p : Proc). p.p_priority ≡ (k.proc j).p_priority) k.proc i v j
        (λ e. prio ∙ ap (λ n. (k.proc n).p_priority) (sym e)) refl in
    record {
      entries = a.entries;
      queue =
          subst (λ p. IsQueue (queue_of p) (set_proc i v k) a.entries) (sym same)
            (set_proc-IsQueue (queue_of (k.proc j).p_priority) i v k a.entries next a.queue);
      outside = a.outside;
    }

pub memory-Apart :
    (m : ℕ → ℕ → Message) (k : Kernel) (j : ℕ) → Apart k j → Apart (record k { memory = m }) j
memory-Apart m k j a = record {
  entries = a.entries;
  queue = memory-IsQueue (queue_of (k.proc j).p_priority) m k a.entries a.queue;
  outside = a.outside;
}

-- A write to the entry `i` that keeps what the ready queue of `j` rests on.
pub set_proc-Steady :
    (nr : ℕ) (k : Kernel) (i : ℕ) (v : Proc) (j : ℕ)
    → v.p_nextready ≡ nextready k i
    → v.p_priority ≡ (k.proc i).p_priority
    → v.stack_ok ≡ (k.proc i).stack_ok
    → Steady nr k j
    → Steady nr (set_proc i v k) j
set_proc-Steady nr k i v j next prio guard s =
    let same_prio : (update k.proc i v j).p_priority ≡ (k.proc j).p_priority =
      update_cases (λ (p : Proc). p.p_priority ≡ (k.proc j).p_priority) k.proc i v j
        (λ e. prio ∙ ap (λ n. (k.proc n).p_priority) (sym e)) refl in
    let same_guard : (update k.proc i v j).stack_ok ≡ (k.proc j).stack_ok =
      update_cases (λ (p : Proc). p.stack_ok ≡ (k.proc j).stack_ok) k.proc i v j
        (λ e. guard ∙ ap (λ n. (k.proc n).stack_ok) (sym e)) refl in
    record {
      entries = s.entries;
      queue =
          subst (λ p. IsQueue (queue_of p) (set_proc i v k) s.entries) (sym same_prio)
            (set_proc-IsQueue (queue_of (k.proc j).p_priority) i v k s.entries next s.queue);
      fits = s.fits;
      guarded =
          ap (λ p. stack_overrun (queue_of p) j (set_proc i v k)) same_prio
          ∙ guard_same (queue_of (k.proc j).p_priority) same_guard
          ∙ s.guarded;
    }
  where
    guard_same :
        (q : Queue)
        → (update k.proc i v j).stack_ok ≡ (k.proc j).stack_ok
        → stack_overrun q j (set_proc i v k) ≡ stack_overrun q j k
    guard_same task_q e = ap (λ b. if b then false else true) e
    guard_same server_q e = refl
    guard_same user_q e = refl

-- A write to `switching`, and one to `sig_procs`.
pub switching-IsQueue :
    (q : Queue) (k : Kernel) (b : Bool) (xs : List ℕ)
    → IsQueue q k xs
    → IsQueue q (record k { switching = b }) xs
switching-IsQueue task_q k b xs w = w
switching-IsQueue server_q k b xs w = w
switching-IsQueue user_q k b xs w = w

pub sig_procs-IsQueue :
    (q : Queue) (k : Kernel) (n : ℕ) (xs : List ℕ)
    → IsQueue q k xs
    → IsQueue q (record k { sig_procs = n }) xs
sig_procs-IsQueue task_q k n xs w = w
sig_procs-IsQueue server_q k n xs w = w
sig_procs-IsQueue user_q k n xs w = w

pub switching-guarded :
    (q : Queue) (k : Kernel) (b : Bool) (i : ℕ)
    → stack_overrun q i (record k { switching = b }) ≡ stack_overrun q i k
switching-guarded task_q k b i = refl
switching-guarded server_q k b i = refl
switching-guarded user_q k b i = refl

pub switching-Steady :
    (nr : ℕ) (k : Kernel) (b : Bool) (i : ℕ)
    → Steady nr k i
    → Steady nr (record k { switching = b }) i
switching-Steady nr k b i s = record {
  entries = s.entries;
  queue = switching-IsQueue (queue_of (k.proc i).p_priority) k b s.entries s.queue;
  fits = s.fits;
  guarded = switching-guarded (queue_of (k.proc i).p_priority) k b i ∙ s.guarded;
}
