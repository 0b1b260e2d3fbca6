-- ===== src/Kernel/Sched/Fair.antt =====
-- What the order of `sched` means: no process is lost, and the groups take turns.
use mathlib.Core.List.{Perm, perm_middle, perm_append_singleton}
use mathlib.Core.List.Perm
use soi_24z.Base.{
  ℕ, suc, ◌+◌, ◌%◌, ◌<◌, ◌≡◌, ◌≢◌, true, false, ◌==◌, none, ok, List, [], ◌∷◌, ◌++◌, arith, length,
  All, subst, Bool-cases, inl, inr, eq_of_==,
}
use soi_24z.Kernel.Proc.{Kernel, user_q}
use soi_24z.Kernel.Queue.Links.{IsQueue}
use soi_24z.Kernel.Sched.{sched}
use soi_24z.Kernel.Sched.Order.{in_group, pull, sched_order, pulled, found, absent}
use soi_24z.Kernel.Sched.Rounds.{groups, pull-mem, sched-sched_order}

-- None of the processes is of the group.
abbrev pub NoneOf : (ℕ → ℕ) → ℕ → List ℕ → Type 0
NoneOf group g xs = All (λ a. (group a == g) ≡ false) xs

-- Whose turn it is after group `g`: the next group that has a process, and its first process.
pub data Turn (group : ℕ → ℕ) (g : ℕ) (xs : List ℕ) (a : ℕ) : Type 0 where
  turn :
      (d : ℕ) (pre suf : List ℕ)
      → d < 3
      → ((e : ℕ) → e < d → NoneOf group ((g + 1 + e) % 3) xs)
      → xs ≡ pre ++ a ∷ suf
      → NoneOf group ((g + 1 + d) % 3) pre
      → group a ≡ (g + 1 + d) % 3
      → Turn group g xs a

abbrev pub Led : (ℕ → ℕ) → ℕ → List ℕ → List ℕ → Type 0
Led group g xs ys = (a : ℕ) × (r : List ℕ) × (ys ≡ a ∷ r) × Turn group g xs a × Perm ys xs

Led-by :
    (group : ℕ → ℕ) (g d : ℕ) (xs pre : List ℕ) (a : ℕ) (suf ys : List ℕ)
    → d < 3
    → ((e : ℕ) → e < d → NoneOf group ((g + 1 + e) % 3) xs)
    → xs ≡ pre ++ a ∷ suf
    → NoneOf group ((g + 1 + d) % 3) pre
    → (group a == (g + 1 + d) % 3) ≡ true
    → ys ≡ a ∷ pre ++ suf
    → Led group g xs ys
Led-by group g d xs pre a suf ys small before split all hit e = (
  a,
  pre ++ suf,
  e,
  turn d pre suf small before split all (eq_of_== (group a) ((g + 1 + d) % 3) hit),
  rw (e, split) (Perm.symm (perm_middle pre suf)),
)

NoneOf-at :
    (group : ℕ → ℕ) (c c' : ℕ) (xs : List ℕ) → c ≡ c' → NoneOf group c xs → NoneOf group c' xs
NoneOf-at group c c' xs e all = subst (λ n. NoneOf group n xs) e all

hit_at : (group : ℕ → ℕ) (c c' a : ℕ) → c ≡ c' → (group a == c) ≡ true → (group a == c') ≡ true
hit_at group c c' a e hit = rw (← e) hit

sched_order-Led :
    (group : ℕ → ℕ) (g : ℕ) (xs : List ℕ)
    → g < 3
    → pull (in_group group g) xs ≢ none
    → Led group g xs (sched_order group g xs)
unfolding sched_order
sched_order-Led group g xs small some_g = elim (pulled (in_group group ((g + 1) % 3)) xs) [
  | found pre a suf split all hit e ↦
      let at : (g + 1) % 3 ≡ (g + 1 + 0) % 3 = omega arith in
      Led-by group g 0 xs pre a suf _ (omega arith) (λ e h. absurd (omega arith)) split
        (NoneOf-at group _ _ pre at all) (hit_at group _ _ a at hit) (rw e)
  | absent none1 e1 ↦ elim (pulled (in_group group ((g + 2) % 3)) xs) [
    | found pre a suf split all hit e ↦
        let at : (g + 2) % 3 ≡ (g + 1 + 1) % 3 = omega arith in
        Led-by group g 1 xs pre a suf _ (omega arith)
          (λ e h. NoneOf-at group _ _ xs (omega arith) none1) split (NoneOf-at group _ _ pre at all)
          (hit_at group _ _ a at hit) (rw (e1, e))
    | absent none2 e2 ↦ elim (pulled (in_group group g) xs) [
      | found pre a suf split all hit e ↦
          let at : g ≡ (g + 1 + 2) % 3 = omega arith in
          Led-by group g 2 xs pre a suf _ (omega arith)
            (λ e h. elim (Bool-cases (e == 0)) [
              | inl first ↦ NoneOf-at group _ _ xs (ground arith) none1
              | inr later ↦ NoneOf-at group _ _ xs (ground arith) none2
            ])
            split (NoneOf-at group _ _ pre at all) (hit_at group _ _ a at hit) (rw (e1, e2, e))
      | absent none3 e3 ↦ absurd (some_g e3)
    ]
  ]
]

-- If the users' queue is not empty, fits the process table and starts with a process of one of the
-- three groups, `sched` loses no process, and gives the head of the queue to the next group that
-- has a process in it, in the cyclic order of the three groups behind the group of the old head,
-- and there to the process that has waited longest in front.
pub sched-Turn :
    (nr idle : ℕ) (k : Kernel) (h : ℕ) (xs : List ℕ)
    → IsQueue user_q k (h ∷ xs)
    → length (h ∷ xs) < suc nr
    → (k.proc h).group < 3
    → (k' : Kernel) × (a : ℕ) × (ys : List ℕ) × (sched nr idle k ≡ ok k')
      × IsQueue user_q k' (a ∷ ys)
      × Turn (groups k) (k.proc h).group (xs ++ h ∷ []) a
      × Perm (a ∷ ys) (h ∷ xs)
sched-Turn nr idle k h xs v few small =
    let g = (k.proc h).group in
    let (k', run, w, kept) = sched-sched_order nr idle k h xs v few small in
    let (a, ys, e, t, p) =
      sched_order-Led (groups k) g (xs ++ h ∷ []) small
        (pull-mem (in_group (groups k) g) xs h (ground arith)) in
    (
      k',
      a,
      ys,
      run,
      subst (IsQueue user_q k') e w,
      t,
      Perm.trans (subst (λ l. Perm l (xs ++ h ∷ [])) e p) (perm_append_singleton h xs),
    )
