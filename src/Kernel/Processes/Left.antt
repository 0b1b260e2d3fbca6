-- ===== src/Kernel/Processes/Left.antt =====
-- A process that exits leaves the queues of senders.
use soi_24z.Base.{
  ℕ, zero, suc, ◌<◌, ◌≤◌, ◌≡◌, refl, sym, ap, ◌∙◌, Bool, true, false, ◌||◌, ◌==◌, List, [], ◌∷◌,
  ◌++◌, none, arith, has, has-append, has-split, length, length-append, select, other_than,
  select-absent, Disjoint, Distinct-append, Chain, last_of, ok, update, update_here, update_there,
  subst, Bool-cases, inl, inr, eq_of_==,
}
use soi_24z.Kernel.Proc.{Kernel}
use soi_24z.Kernel.Ipc.{set_sendlink}
use soi_24z.Kernel.Ipc.Senders.{Senders, sendlink}
use soi_24z.Kernel.Ipc.Unlink.{skip_next-Senders, set_sendlink-Senders}
use soi_24z.Kernel.Processes.{leave_behind}

-- A queue without the process `rc`.
abbrev pub without : ℕ → List ℕ → List ℕ
without rc xs = select (other_than rc) xs

pub without-split :
    (rc : ℕ) (pre suf : List ℕ)
    → has rc pre ≡ false
    → has rc suf ≡ false
    → without rc (pre ++ rc ∷ suf) ≡ pre ++ suf
without-split rc [] suf a b =
    let same : (rc == rc) ≡ true = ground arith in rw same (select-absent rc suf b)
without-split rc (x ∷ pre) suf a b =
    let off : (x == rc) ≡ false = ground arith in
    rw off (ap (λ (l : List ℕ). x ∷ l) (without-split rc pre suf (ground arith) b))

module _ (rc : ℕ) (k : Kernel) where
  leave_behind-cut :
      (fuel np : ℕ) (pre suf : List ℕ)
      → Chain (sendlink k) (sendlink k np) (pre ++ rc ∷ suf) none
      → has rc pre ≡ false
      → length pre < fuel
      → leave_behind fuel np rc k ≡ ok (set_sendlink (last_of np pre) (sendlink k rc) k)
  unfolding leave_behind
  leave_behind-cut zero np pre suf c out few = absurd (omega arith)
  leave_behind-cut (suc f) np [] suf c out few =
      let hit : (rc == rc) ≡ true = ground arith in rw (c.0, leave_behind) (rw hit)
  leave_behind-cut (suc f) np (x ∷ pre) suf c out few =
      let miss : (x == rc) ≡ false = ground arith in
      rw (c.0, leave_behind)
        (rw miss (leave_behind-cut f x pre suf c.1 (ground arith) (omega arith)))

  leave_behind-absent :
      (fuel np : ℕ) (xs : List ℕ)
      → Chain (sendlink k) (sendlink k np) xs none
      → has rc xs ≡ false
      → length xs < fuel
      → leave_behind fuel np rc k ≡ ok k
  unfolding leave_behind
  leave_behind-absent zero np xs c out few = absurd (omega arith)
  leave_behind-absent (suc f) np [] c out few = rw (c, leave_behind)
  leave_behind-absent (suc f) np (x ∷ xs) c out few =
      let miss : (x == rc) ≡ false = ground arith in
      rw (c.0, leave_behind) (rw miss (leave_behind-absent f x xs c.1 (ground arith) (omega arith)))

has-last_of : (x : ℕ) (xs : List ℕ) → has (last_of x xs) (x ∷ xs) ≡ true
has-last_of x [] = ground arith
has-last_of x (y ∷ ys) = let h = has-last_of y ys in ground (arith, h)

not_front : (rc : ℕ) (xs suf : List ℕ) → Disjoint xs (rc ∷ suf) → has rc xs ≡ false
not_front rc xs suf apart = elim (Bool-cases (has rc xs)) [
  | inr out ↦ out
  | inl h ↦ absurd (ground (arith, apart rc h))
]

-- The processes that wait to send to each process: each waits in one queue, and a queue fits the
-- table.
pub record Waiting (nr : ℕ) (k : Kernel) (qs : ℕ → List ℕ) : Type 0 where
  pub senders : (d : ℕ) → Senders k d (qs d)
  pub fits : (d : ℕ) → length (qs d) ≤ nr
  pub once : (a d e : ℕ) → has a (qs d) ≡ true → has a (qs e) ≡ true → d ≡ e

module _ (nr : ℕ) (k : Kernel) (qs : ℕ → List ℕ) (w : Waiting nr k qs) (d0 : ℕ) where
  pub not_there : (a d : ℕ) → has a (qs d0) ≡ true → (d == d0) ≡ false → has a (qs d) ≡ false
  not_there a d h off = elim (Bool-cases (has a (qs d))) [
    | inr out ↦ out
    | inl h' ↦ absurd (ground (arith, off, w.once a d d0 h' h))
  ]

-- The walk behind the first one, `x`, of a queue.
module _ (nr rc : ℕ) (k : Kernel) (qs : ℕ → List ℕ) (w : Waiting nr k qs) (d0 x : ℕ) where
  -- The queues after the walk has found `rc` behind `pre`.
  module _ (pre suf : List ℕ) (e : qs d0 ≡ x ∷ pre ++ rc ∷ suf) where
    shorter : ℕ → List ℕ
    shorter = update qs d0 (x ∷ pre ++ suf)

    shorter-has : (a d : ℕ) → has a (shorter d) ≡ true → has a (qs d) ≡ true
    unfolding shorter
    shorter-has a d = elim (Bool-cases (d == d0)) [
      | inr other ↦ rw other (λ h. h)
      | inl same ↦ rw same (λ h.
          ap (λ i. has a (qs i)) (eq_of_== d d0 same)
          ∙ ap (has a) e
          ∙ grow (x ∷ pre) (has a suf) (has-append a (x ∷ pre) suf)
              (has-append a (x ∷ pre) (rc ∷ suf)) h)
    ]
      where
        grow :
            (ys : List ℕ) (b : Bool)
            → has a (ys ++ suf) ≡ (has a ys || b)
            → has a (ys ++ rc ∷ suf) ≡ (has a ys || ((a == rc) || b))
            → has a (ys ++ suf) ≡ true
            → has a (ys ++ rc ∷ suf) ≡ true
        grow ys b p q h = ground (arith, p, q, h)

    shorter-Waiting : Waiting nr (set_sendlink (last_of x pre) (sendlink k rc) k) shorter
    unfolding shorter
    shorter-Waiting =
        let l = last_of x pre in
        let k1 = set_sendlink l (sendlink k rc) k in
        let s0 : Senders k d0 (x ∷ pre ++ rc ∷ suf) = subst (Senders k d0) e (w.senders d0) in
        let l_there : has l (qs d0) ≡ true =
          ap (has l) e ∙ has-append l (x ∷ pre) (rc ∷ suf) ∙ ground (arith, has-last_of x pre) in
        record {
          senders = λ d. elim (Bool-cases (d == d0)) [
            | inl same ↦ rw same (
                subst (λ b. Senders k1 b (x ∷ pre ++ suf)) (sym (eq_of_== d d0 same))
                  (skip_next-Senders d0 rc k x pre suf s0))
            | inr other ↦ rw other (
                set_sendlink-Senders k l (sendlink k rc) d (qs d)
                  (not_there nr k qs w d0 l d l_there other) (w.senders d))
          ];
          fits = λ d. elim (Bool-cases (d == d0)) [
            | inl same ↦ rw same (
                omega (
                  arith,
                  w.fits d0,
                  ap (length {0}) e,
                  length-append pre suf,
                  length-append pre (rc ∷ suf),
                ))
            | inr other ↦ rw other (w.fits d)
          ];
          once = λ a d d' h h'. w.once a d d' (shorter-has a d h) (shorter-has a d' h');
        }

  pub walk :
      (t : List ℕ)
      → qs d0 ≡ x ∷ t
      → (x == rc) ≡ false
      → (k1 : Kernel) × (qs1 : ℕ → List ℕ) × (leave_behind (suc nr) x rc k ≡ ok k1)
        × Waiting nr k1 qs1
        × (qs1 d0 ≡ without rc (qs d0))
        × ((d : ℕ) → (d == d0) ≡ false → qs1 d ≡ qs d)
  unfolding shorter
  walk t e off =
      let s0 : Senders k d0 (x ∷ t) = subst (Senders k d0) e (w.senders d0) in
      let few : length (x ∷ t) ≤ nr = subst (λ ys. length ys ≤ nr) e (w.fits d0) in
      elim (Bool-cases (has rc t)) [
        | inr out ↦ (
          k,
          qs,
          leave_behind-absent rc k (suc nr) x t s0.chain.1 out (omega (arith, few)),
          w,
          sym (select-absent rc (qs d0) (ap (has rc) e ∙ ground (arith, out))),
          λ d h. refl,
        )
        | inl in_it ↦
            let (pre, suf, et) = has-split rc t in_it in
            let e' : qs d0 ≡ x ∷ pre ++ rc ∷ suf = e ∙ ap (λ (l : List ℕ). x ∷ l) et in
            let s1 : Senders k d0 (x ∷ pre ++ rc ∷ suf) = subst (Senders k d0) e' (w.senders d0) in
            let (dp, ds, apart) = Distinct-append (x ∷ pre) (rc ∷ suf) s1.distinct in
            let front : has rc (x ∷ pre) ≡ false = not_front rc (x ∷ pre) suf apart in
            (
              set_sendlink (last_of x pre) (sendlink k rc) k,
              shorter pre suf e',
              leave_behind-cut rc k (suc nr) x pre suf s1.chain.1 (ground (arith, front))
                  (omega (arith, few, ap (length {0}) et, length-append pre (rc ∷ suf))),
              shorter-Waiting pre suf e',
              update_here qs d0 (x ∷ pre ++ suf)
                  ∙ sym (ap (without rc) e' ∙ without-split rc (x ∷ pre) suf front ds.0),
              λ d h. update_there qs d0 (x ∷ pre ++ suf) d h,
            )
      ]
