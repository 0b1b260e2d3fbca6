-- ===== src/Kernel/Ipc/Blocked.antt =====
-- What sending does to the processes that wait to send.
use soi_24z.Base.{
  ℕ, ◌<◌, ◌≡◌, refl, sym, ap, ◌∙◌, true, false, ◌==◌, List, [], ◌∷◌, arith, has, Bool-cases, inl,
  inr, eq_of_==, update_cases, subst,
}
use soi_24z.Kernel.Proc.{Proc, Kernel, set_proc}
use soi_24z.Kernel.Queue.Moved.{Moved}
use soi_24z.Kernel.Ipc.Waiting.{sending, sendto, SendPath, NoDeadlock, InTable}

-- Who waits to send, and to whom, is as before.
pub record SameWaits (k k' : Kernel) : Type 0 where
  pub who : (i : ℕ) → sending k' i ≡ sending k i
  pub whom : (i : ℕ) → sendto k' i ≡ sendto k i

SameWaits-refl : (k : Kernel) → SameWaits k k
SameWaits-refl k = record { who = λ i. refl; whom = λ i. refl }

pub SameWaits-trans : (k k' k'' : Kernel) → SameWaits k k' → SameWaits k' k'' → SameWaits k k''
SameWaits-trans k k' k'' a b = record {
  who = λ i. b.who i ∙ a.who i;
  whom = λ i. b.whom i ∙ a.whom i;
}

pub Moved-SameWaits : (k k' : Kernel) → Moved k k' → SameWaits k k'
Moved-SameWaits k k' m = record {
  who = λ i. ap (λ (p : Proc). p.p_flags.sending) (m.procs i);
  whom = λ i. ap (λ (p : Proc). p.p_sendto) (m.procs i);
}

-- A write to an entry that leaves these two as they are.
pub set_proc-SameWaits :
    (i : ℕ) (v : Proc) (k : Kernel)
    → v.p_flags.sending ≡ sending k i
    → v.p_sendto ≡ sendto k i
    → SameWaits k (set_proc i v k)
set_proc-SameWaits i v k s t = record {
  who = λ j.
      update_cases (λ (p : Proc). p.p_flags.sending ≡ sending k j) k.proc i v j
        (λ same. s ∙ ap (sending k) (sym same)) refl;
  whom = λ j.
      update_cases (λ (p : Proc). p.p_sendto ≡ sendto k j) k.proc i v j
        (λ same. t ∙ ap (sendto k) (sym same)) refl;
}

-- Only `caller` waits in a new way: to send to `dest`.
pub record Redirected (caller dest : ℕ) (k k' : Kernel) : Type 0 where
  pub here : sending k' caller ≡ true
  pub goal : sendto k' caller ≡ dest
  pub who : (i : ℕ) → (i == caller) ≡ false → sending k' i ≡ sending k i
  pub whom : (i : ℕ) → (i == caller) ≡ false → sendto k' i ≡ sendto k i

module _ (caller dest : ℕ) (k k' : Kernel) (r : Redirected caller dest k k') where
  SendPath-away :
      (i : ℕ) (xs : List ℕ) → has caller (i ∷ xs) ≡ false → SendPath k i xs → SendPath k' i xs
  SendPath-away i [] out p = r.who i (ground arith) ∙ p
  SendPath-away i (x ∷ xs) out p = (
    r.who i (ground (arith, out)) ∙ p.0,
    r.whom i (ground (arith, out)) ∙ p.1,
    SendPath-away x xs (ground (arith, out)) p.2,
  )

  module _ (ds : List ℕ) (out : has caller (dest ∷ ds) ≡ false) (way : SendPath k dest ds) where
    from_caller : (i : ℕ) → (i == caller) ≡ true → (ys : List ℕ) × SendPath k' i ys
    from_caller i same =
        subst (λ a. (ys : List ℕ) × SendPath k' a ys) (sym (eq_of_== i caller same))
          (dest ∷ ds, (r.here, r.goal, SendPath-away dest ds out way))

    redirect : (i : ℕ) (xs : List ℕ) → SendPath k i xs → (ys : List ℕ) × SendPath k' i ys
    redirect i [] p = elim (Bool-cases (i == caller)) [
      | inl same ↦ from_caller i same
      | inr other ↦ ([], r.who i other ∙ p)
    ]
    redirect i (x ∷ xs) p = elim (Bool-cases (i == caller)) [
      | inl same ↦ from_caller i same
      | inr other ↦
          let (ys, w) = redirect x xs p.2 in
          (x ∷ ys, (r.who i other ∙ p.0, r.whom i other ∙ p.1, w))
    ]

    -- A new sender to one that does not wait for it closes no circle.
    pub Redirected-NoDeadlock : NoDeadlock k → NoDeadlock k'
    Redirected-NoDeadlock free i = let (xs, p) = free i in redirect i xs p

  pub Redirected-InTable : (nr : ℕ) → dest < nr → InTable nr k → InTable nr k'
  Redirected-InTable nr low t i s = elim (Bool-cases (i == caller)) [
    | inl same ↦ subst (λ a. a < nr) (sym (ap (sendto k') (eq_of_== i caller same) ∙ r.goal)) low
    | inr other ↦ subst (λ a. a < nr) (sym (r.whom i other)) (t i (sym (r.who i other) ∙ s))
  ]

SendPath-same :
    (k k' : Kernel) (i : ℕ) (xs : List ℕ) → SameWaits k k' → SendPath k i xs → SendPath k' i xs
SendPath-same k k' i [] s p = s.who i ∙ p
SendPath-same k k' i (x ∷ xs) s p = (s.who i ∙ p.0, s.whom i ∙ p.1, SendPath-same k k' x xs s p.2)

pub SameWaits-NoDeadlock : (k k' : Kernel) → SameWaits k k' → NoDeadlock k → NoDeadlock k'
SameWaits-NoDeadlock k k' s free i = let (xs, p) = free i in (xs, SendPath-same k k' i xs s p)

pub SameWaits-InTable : (nr : ℕ) (k k' : Kernel) → SameWaits k k' → InTable nr k → InTable nr k'
SameWaits-InTable nr k k' s t i h = subst (λ a. a < nr) (sym (s.whom i)) (t i (sym (s.who i) ∙ h))
