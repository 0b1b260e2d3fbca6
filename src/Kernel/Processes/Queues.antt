-- ===== src/Kernel/Processes/Queues.antt =====
-- The loop of do_xit over the queues of senders.
use soi_24z.Base.{
  ℕ, suc, ◌≡◌, refl, sym, ap, ◌∙◌, true, false, ◌==◌, List, [], ◌∷◌, none, some, arith, has,
  Distinct, select-absent, ok, subst, Bool-cases, inl, inr, eq_of_==,
}
use soi_24z.Kernel.Proc.{Kernel}
use soi_24z.Kernel.Ipc.{set_callerq}
use soi_24z.Kernel.Ipc.Unlink.{drop_first-Senders, set_callerq-Senders}
use soi_24z.Kernel.Ipc.Senders.{Senders, sendlink, callerq}
use soi_24z.Kernel.Processes.{leave_behind, leave_queues}
use soi_24z.Kernel.Processes.Left.{Waiting, without, without-split, walk, not_there}

module _ (nr rc rp : ℕ) (rps : List ℕ) (k : Kernel) where
  leave_queues-skip :
      callerq k rp ≡ none → leave_queues nr rc (rp ∷ rps) k ≡ leave_queues nr rc rps k
  unfolding leave_queues
  leave_queues-skip e = rw (e, leave_queues) refl

  leave_queues-first :
      (x : ℕ)
      → callerq k rp ≡ some x
      → (x == rc) ≡ true
      → leave_queues nr rc (rp ∷ rps) k ≡ ok (set_callerq rp (sendlink k rc) k)
  unfolding leave_queues
  leave_queues-first x e same = rw (e, leave_queues) (rw same refl)

  leave_queues-walk :
      (x : ℕ) (k1 : Kernel)
      → callerq k rp ≡ some x
      → (x == rc) ≡ false
      → leave_behind (suc nr) x rc k ≡ ok k1
      → leave_queues nr rc (rp ∷ rps) k ≡ leave_queues nr rc rps k1
  unfolding leave_queues
  leave_queues-walk x k1 e off run = rw (e, leave_queues) (rw off (rw run refl))

-- The queues of the processes `rps` are without `rc`, and the others are as before.
pub record Left (rc : ℕ) (rps : List ℕ) (qs : ℕ → List ℕ) (k' : Kernel) : Type 0 where
  pub inside : (d : ℕ) → has d rps ≡ true → Senders k' d (without rc (qs d))
  pub outside : (d : ℕ) → has d rps ≡ false → Senders k' d (qs d)

-- One more queue that is without `rc`.
Left-cons :
    (rc rp : ℕ) (rps : List ℕ) (qs qs1 : ℕ → List ℕ) (k' : Kernel)
    → has rp rps ≡ false
    → qs1 rp ≡ without rc (qs rp)
    → ((d : ℕ) → (d == rp) ≡ false → qs1 d ≡ qs d)
    → Left rc rps qs1 k'
    → Left rc (rp ∷ rps) qs k'
Left-cons rc rp rps qs qs1 k' new here there l = record {
  inside = λ d h. elim (Bool-cases (d == rp)) [
    | inl same ↦
        subst (λ b. Senders k' b (without rc (qs b))) (sym (eq_of_== d rp same))
          (subst (Senders k' rp) here (l.outside rp new))
    | inr off ↦
        subst (λ ys. Senders k' d (without rc ys)) (there d off)
          (l.inside d (ground (arith, h, off)))
  ];
  outside =
      λ d h. subst (Senders k' d) (there d (ground (arith, h))) (l.outside d (ground (arith, h)));
}

pub leave_queues-Left :
    (nr rc : ℕ) (rps : List ℕ) (k : Kernel) (qs : ℕ → List ℕ)
    → Waiting nr k qs
    → Distinct rps
    → (k' : Kernel) × (leave_queues nr rc rps k ≡ ok k') × Left rc rps qs k'
unfolding leave_queues
leave_queues-Left nr rc [] k qs w d =
    (k, refl, record { inside = λ e h. absurd (cc); outside = λ e h. w.senders e })
leave_queues-Left nr rc (rp ∷ rps) k qs w d =
    go (qs rp) refl (λ k1 qs1 w1. leave_queues-Left nr rc rps k1 qs1 w1 d.1)
  where
    go :
        (xs : List ℕ)
        → qs rp ≡ xs
        → ((k1 : Kernel) (qs1 : ℕ → List ℕ)
            → Waiting nr k1 qs1
            → (k' : Kernel) × (leave_queues nr rc rps k1 ≡ ok k') × Left rc rps qs1 k')
        → (k' : Kernel) × (leave_queues nr rc (rp ∷ rps) k ≡ ok k') × Left rc (rp ∷ rps) qs k'
    go [] e later =
        let s0 : Senders k rp [] = subst (Senders k rp) e (w.senders rp) in
        let (k', run, l) = later k qs w in
        (
          k',
          leave_queues-skip nr rc rp rps k s0.chain ∙ run,
          Left-cons rc rp rps qs qs k' d.0 (e ∙ sym (ap (without rc) e)) (λ b h. refl) l,
        )
    go (x ∷ t) e later = elim (Bool-cases (x == rc)) [
      | inl same ↦
          let at = eq_of_== x rc same in
          let e' : qs rp ≡ rc ∷ t = e ∙ ap (λ a. a ∷ t) at in
          let s0 : Senders k rp (rc ∷ t) = subst (Senders k rp) e' (w.senders rp) in
          let rc_there : has rc (qs rp) ≡ true = ap (has rc) e' ∙ ground arith in
          let k1 = set_callerq rp (sendlink k rc) k in
          let others : (b : ℕ) → (b == rp) ≡ false → Senders k1 b (qs b) =
            λ b off. set_callerq-Senders k rp (sendlink k rc) b (qs b) off (w.senders b) in
          (
            k1,
            leave_queues-first nr rc rp rps k rc s0.chain.0 (ground arith),
            record {
              inside = λ b h. elim (Bool-cases (b == rp)) [
                | inl here ↦
                    subst (λ a. Senders k1 a (without rc (qs a))) (sym (eq_of_== b rp here))
                      (subst (Senders k1 rp)
                        (sym (ap (without rc) e' ∙ without-split rc [] t refl s0.distinct.0))
                        (drop_first-Senders rp rc k t s0))
                | inr off ↦
                    subst (Senders k1 b)
                      (sym (select-absent rc (qs b) (not_there nr k qs w rp rc b rc_there off)))
                      (others b off)
              ];
              outside = λ b h. others b (ground (arith, h));
            },
          )
      | inr off ↦
          let s0 : Senders k rp (x ∷ t) = subst (Senders k rp) e (w.senders rp) in
          let (k1, qs1, behind, w1, here, there) = walk nr rc k qs w rp x t e off in
          let (k', run, l) = later k1 qs1 w1 in
          (
            k',
            leave_queues-walk nr rc rp rps k x k1 s0.chain.0 off behind ∙ run,
            Left-cons rc rp rps qs qs1 k' d.0 here there l,
          )
    ]
