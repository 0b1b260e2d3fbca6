-- ===== src/Kernel/Ipc/Senders.antt =====
-- The queue of the processes that wait to send to another one.
use soi_24z.Base.{
  ℕ, zero, suc, ◌<◌, ◌≤◌, ◌≡◌, refl, sym, ap, ◌∙◌, false, List, [], ◌∷◌, ◌++◌, none, some, Ptr,
  arith, has, length, length-append, Distinct, Chain, Chain-frame, Relinked, last_entry, push_back,
  TailAt-snoc, ok, update_cases, subst, inl, inr,
}
use soi_24z.Kernel.Proc.{Proc, Kernel, set_proc}
use soi_24z.Kernel.Queue.Links.{some_head}
use soi_24z.Kernel.Queue.Moved.{Moved}
use soi_24z.Kernel.Ipc.Blocked.{SameWaits, SameWaits-trans, set_proc-SameWaits}
use soi_24z.Kernel.Ipc.{queue_sender, last_sender, set_sendlink, set_callerq}

abbrev pub sendlink : Kernel → ℕ → Ptr
sendlink k i = (k.proc i).p_sendlink

abbrev pub callerq : Kernel → ℕ → Ptr
callerq k i = (k.proc i).p_callerq

-- The processes `ss` wait to send to `dest`, in this order.
pub record Senders (k : Kernel) (dest : ℕ) (ss : List ℕ) : Type 0 where
  pub chain : Chain (sendlink k) (callerq k dest) ss none
  pub distinct : Distinct ss

pub set_sendlink-Relinked :
    (k : Kernel) (a : ℕ) (p : Ptr) → Relinked (sendlink k) (sendlink (set_sendlink a p k)) a p
set_sendlink-Relinked k a p = record { here = ground arith; there = λ b h. ground arith }

pub set_sendlink-callerq :
    (k : Kernel) (a : ℕ) (p : Ptr) (j : ℕ) → callerq (set_sendlink a p k) j ≡ callerq k j
set_sendlink-callerq k a p j =
    update_cases (λ (v : Proc). v.p_callerq ≡ callerq k j) k.proc a
      (record (k.proc a) { p_sendlink = p }) j (λ same. ap (callerq k) (sym same)) refl

pub set_callerq-sendlink :
    (k : Kernel) (a : ℕ) (p : Ptr) (j : ℕ) → sendlink (set_callerq a p k) j ≡ sendlink k j
set_callerq-sendlink k a p j =
    update_cases (λ (v : Proc). v.p_sendlink ≡ sendlink k j) k.proc a
      (record (k.proc a) { p_callerq = p }) j (λ same. ap (sendlink k) (sym same)) refl

-- The links of the queues of senders are as before.
pub record SameLinks (k k' : Kernel) : Type 0 where
  pub links : (i : ℕ) → sendlink k' i ≡ sendlink k i
  pub starts : (i : ℕ) → callerq k' i ≡ callerq k i

pub SameLinks-trans : (k k' k'' : Kernel) → SameLinks k k' → SameLinks k' k'' → SameLinks k k''
SameLinks-trans k k' k'' a b = record {
  links = λ i. b.links i ∙ a.links i;
  starts = λ i. b.starts i ∙ a.starts i;
}

pub Moved-SameLinks : (k k' : Kernel) → Moved k k' → SameLinks k k'
Moved-SameLinks k k' m = record {
  links = λ i. ap (λ (p : Proc). p.p_sendlink) (m.procs i);
  starts = λ i. ap (λ (p : Proc). p.p_callerq) (m.procs i);
}

-- A write to an entry that keeps both links.
pub set_proc-SameLinks :
    (i : ℕ) (v : Proc) (k : Kernel)
    → v.p_sendlink ≡ sendlink k i
    → v.p_callerq ≡ callerq k i
    → SameLinks k (set_proc i v k)
set_proc-SameLinks i v k s t = record {
  links = λ j.
      update_cases (λ (p : Proc). p.p_sendlink ≡ sendlink k j) k.proc i v j
        (λ same. s ∙ ap (sendlink k) (sym same)) refl;
  starts = λ j.
      update_cases (λ (p : Proc). p.p_callerq ≡ callerq k j) k.proc i v j
        (λ same. t ∙ ap (callerq k) (sym same)) refl;
}

pub Senders-same :
    (k k' : Kernel) (dest : ℕ) (ss : List ℕ)
    → SameLinks k k'
    → Senders k dest ss
    → Senders k' dest ss
Senders-same k k' dest ss same s = record {
  chain =
      subst (λ p. Chain (sendlink k') p ss none) (sym (same.starts dest))
        (Chain-frame (sendlink k) (sendlink k') (callerq k dest) ss none (λ a h. same.links a)
          s.chain);
  distinct = s.distinct;
}

-- The walk finds the last sender.
last_sender-last :
    (fuel x l : ℕ) (k : Kernel) (front : List ℕ)
    → Chain (sendlink k) (some x) (front ++ l ∷ []) none
    → length front < fuel
    → last_sender fuel x k ≡ ok l
unfolding last_sender
last_sender-last zero x l k front c few = absurd (omega arith)
last_sender-last (suc fuel) x l k [] c few =
    let same : x ≡ l = ground (arith, c.0) in
    subst (λ a. last_sender (suc fuel) a k ≡ ok l) (sym same) (rw (c.1, last_sender))
last_sender-last (suc fuel) x l k (y ∷ []) c few =
    let same : x ≡ y = ground (arith, c.0) in
    subst (λ a. last_sender (suc fuel) a k ≡ ok l) (sym same)
      (rw (c.1.0, last_sender) (last_sender-last fuel l l k [] (refl, c.1.1) (omega arith)))
last_sender-last (suc fuel) x l k (y ∷ (z ∷ front)) c few =
    let same : x ≡ y = ground (arith, c.0) in
    subst (λ a. last_sender (suc fuel) a k ≡ ok l) (sym same)
      (rw (c.1.0, last_sender)
        (last_sender-last fuel z l k (z ∷ front) (refl, c.1.1) (omega arith)))

module _ (nr caller dest : ℕ) (k : Kernel) where
  queue_sender-first :
      callerq k dest ≡ none
      → queue_sender nr caller dest k
        ≡ ok (set_sendlink caller none (set_callerq dest (some caller) k))
  unfolding queue_sender
  queue_sender-first e = rw e

  queue_sender-next :
      (x l : ℕ)
      → callerq k dest ≡ some x
      → last_sender (suc nr) x k ≡ ok l
      → queue_sender nr caller dest k
        ≡ ok (set_sendlink caller none (set_sendlink l (some caller) k))
  unfolding queue_sender
  queue_sender-next x l e last = rw (e, queue_sender) (rw last)

  alone : Senders (set_sendlink caller none (set_callerq dest (some caller) k)) dest (caller ∷ [])
  alone =
      let k1 = set_callerq dest (some caller) k in
      record {
        chain = (
          set_sendlink-callerq k1 caller none dest ∙ ground arith,
          (set_sendlink-Relinked k1 caller none).here,
        );
        distinct = (refl, tt);
      }

  behind :
      (front : List ℕ) (l : ℕ)
      → Senders k dest (front ++ l ∷ [])
      → has caller (front ++ l ∷ []) ≡ false
      → Senders
          (set_sendlink caller none (set_sendlink l (some caller) k))
          dest
          ((front ++ l ∷ []) ++ caller ∷ [])
  behind front l s out =
      let k1 = set_sendlink l (some caller) k in
      let k2 = set_sendlink caller none k1 in
      let start : callerq k2 dest ≡ callerq k dest =
        set_sendlink-callerq k1 caller none dest ∙ set_sendlink-callerq k l (some caller) dest in
      let v =
        push_back (sendlink k) (sendlink k1) (sendlink k2) (callerq k dest) (some l) front l caller
          (record { chain = s.chain; last = TailAt-snoc front l; distinct = s.distinct })
          (set_sendlink-Relinked k l (some caller)) (set_sendlink-Relinked k1 caller none) out in
      record {
        chain =
            subst (λ p. Chain (sendlink k2) p ((front ++ l ∷ []) ++ caller ∷ []) none) (sym start)
              v.chain;
        distinct = v.distinct;
      }

  -- A new sender goes behind the others.
  pub queue_sender-Senders :
      (ss : List ℕ)
      → Senders k dest ss
      → has caller ss ≡ false
      → length ss ≤ nr
      → (k' : Kernel) × (queue_sender nr caller dest k ≡ ok k')
        × Senders k' dest (ss ++ caller ∷ [])
        × SameWaits k k'
  queue_sender-Senders ss s out few = elim (last_entry none ss) [
    | inl e ↦
        let start : callerq k dest ≡ none =
          subst (λ l. Chain (sendlink k) (callerq k dest) l none) e s.chain in
        let k2 = set_callerq dest (some caller) k in
        let k1 = set_sendlink caller none k2 in
        (
          k1,
          queue_sender-first start,
          subst (λ (l : List ℕ). Senders k1 dest (l ++ caller ∷ [])) (sym e) alone,
          SameWaits-trans k k2 k1
              (set_proc-SameWaits dest (record (k.proc dest) { p_callerq = some caller }) k refl
                refl)
              (set_proc-SameWaits caller (record (k2.proc caller) { p_sendlink = none }) k2 refl
                refl),
        )
    | inr (front, l, e, _) ↦
        let s' = subst (Senders k dest) e s in
        let (x, at) = some_head (sendlink k) (callerq k dest) front l s'.chain in
        let k2 = set_sendlink l (some caller) k in
        let k1 = set_sendlink caller none k2 in
        (
          k1,
          queue_sender-next x l at (
              last_sender-last (suc nr) x l k front
                (subst (λ p. Chain (sendlink k) p (front ++ l ∷ []) none) at s'.chain)
                (omega (arith, few, ap (length {0}) e, length-append front (l ∷ [])))),
          subst (λ (l : List ℕ). Senders k1 dest (l ++ caller ∷ [])) (sym e)
              (behind front l s' (rw e at out)),
          SameWaits-trans k k2 k1
              (set_proc-SameWaits l (record (k.proc l) { p_sendlink = some caller }) k refl refl)
              (set_proc-SameWaits caller (record (k2.proc caller) { p_sendlink = none }) k2 refl
                refl),
        )
  ]
