-- ===== src/Kernel/Sched/Rounds.antt =====
-- The rounds of `sched`, and `sched` as a whole.
use mathlib.Core.Path.{fun_ext}
use soi_24z.Base.{
  ℕ, suc, ◌+◌, ◌%◌, ◌<◌, ◌≡◌, ◌≢◌, sym, ap, ◌∙◌, Bool, true, false, ◌==◌, none, some, ok, List, [],
  ◌∷◌, ◌++◌, arith, length, length-append, subst, Bool-cases, inl, inr,
}
use soi_24z.Kernel.Proc.{Kernel, deref-some, user_q}
use soi_24z.Kernel.Queue.{pick_proc}
use soi_24z.Kernel.Queue.Links.{IsQueue}
use soi_24z.Kernel.Sched.{promote, rotate, rounds, sched}
use soi_24z.Kernel.Sched.Order.{in_group, pull, lead, sched_order, pulled, found, absent}
use soi_24z.Kernel.Sched.Promote.{of_group, promote-Steps}
use soi_24z.Kernel.Sched.Steps.{Kept, Kept-trans, Steps, rotate-Steps}

-- One pass through the `do` loop.
data Round (nr g fuel : ℕ) (k : Kernel) (xs : List ℕ) : Type 0 where
  done :
      (a : ℕ) (r : List ℕ)
      → pull (of_group k ((g + 1) % 3)) xs ≡ some (a, r)
      → Steps k (rounds (suc fuel) nr g k) (a ∷ r)
      → Round nr g fuel k xs
  again :
      (k' : Kernel)
      → pull (of_group k ((g + 1) % 3)) xs ≡ none
      → rounds (suc fuel) nr g k ≡ rounds fuel nr ((g + 1) % 3) k'
      → IsQueue user_q k' xs
      → Kept k k'
      → Round nr g fuel k xs

module _ (nr g fuel : ℕ) (k k' : Kernel) (run : promote nr ((g + 1) % 3) k ≡ ok k') (h : ℕ)
    (head : k'.head_user ≡ some h) where
  rounds-done : ((k'.proc h).group == (g + 1) % 3) ≡ true → rounds (suc fuel) nr g k ≡ ok k'
  unfolding rounds
  rounds-done hit = rw run (deref-some k'.head_user h _ head ∙ rw hit)

  rounds-again :
      ((k'.proc h).group == (g + 1) % 3) ≡ false
      → rounds (suc fuel) nr g k ≡ rounds fuel nr ((g + 1) % 3) k'
  unfolding rounds
  rounds-again miss = rw run (deref-some k'.head_user h _ head ∙ rw miss)

round :
    (nr g fuel : ℕ) (k : Kernel) (h : ℕ) (xs : List ℕ)
    → IsQueue user_q k (h ∷ xs)
    → length xs < suc nr
    → Round nr g fuel k (h ∷ xs)
round nr g fuel k h xs v few =
    let g' = (g + 1) % 3 in
    let (k', run, v', kept) = promote-Steps nr g' k h xs v few in
    elim (pulled (of_group k g') (h ∷ xs)) [
      | found pre a suf split all hit e ↦
          let w : IsQueue user_q k' (a ∷ pre ++ suf) =
            subst (λ o. IsQueue user_q k' (lead o (h ∷ xs))) e v' in
          let at = ap (λ (n : ℕ). n == g') (kept.groups a) ∙ hit in
          done a (pre ++ suf) e (k', rounds-done nr g fuel k k' run a w.chain.0 at, w, kept)
      | absent all e ↦
          let w : IsQueue user_q k' (h ∷ xs) =
            subst (λ o. IsQueue user_q k' (lead o (h ∷ xs))) e v' in
          let at = ap (λ (n : ℕ). n == g') (kept.groups h) ∙ all.0 in
          again k' e (rounds-again nr g fuel k k' run h w.chain.0 at) w kept
    ]

abbrev pub groups : Kernel → ℕ → ℕ
groups k a = (k.proc a).group

pull-Kept :
    (k k' : Kernel) (g g' : ℕ) (xs : List ℕ)
    → Kept k k'
    → g ≡ g'
    → pull (of_group k' g) xs ≡ pull (of_group k g') xs
pull-Kept k k' g g' xs kept e =
    ap (λ (f : ℕ → ℕ). pull (in_group f g) xs) (fun_ext kept.groups)
    ∙ ap (λ (c : ℕ). pull (in_group (groups k) c) xs) e

-- After at most three rounds the queue has its new order: the group of the old head is met in the
-- third at the latest.
pub rounds-Steps :
    (nr g : ℕ) (k : Kernel) (h : ℕ) (xs : List ℕ)
    → IsQueue user_q k (h ∷ xs)
    → length xs < suc nr
    → g < 3
    → pull (of_group k g) (h ∷ xs) ≢ none
    → Steps k (rounds 3 nr g k) (sched_order (groups k) g (h ∷ xs))
unfolding sched_order
rounds-Steps nr g k h xs v few small some_g = elim (round nr g 2 k h xs v few) [
  | done a r e out ↦ rw e out
  | again k1 e run v1 kept1 ↦
      let g1 = (g + 1) % 3 in
      let two : (g1 + 1) % 3 ≡ (g + 2) % 3 = omega arith in
      let at2 = pull-Kept k k1 ((g1 + 1) % 3) ((g + 2) % 3) (h ∷ xs) kept1 two in
      elim (round nr g1 1 k1 h xs v1 few) [
        | done a r e2 (k2, run2, v2, kept2) ↦
            rw (e, sym at2 ∙ e2) (k2, run ∙ run2, v2, Kept-trans k k1 k2 kept1 kept2)
        | again k2 e2 run2 v2 kept2 ↦
            let g2 = (g1 + 1) % 3 in
            let three : (g2 + 1) % 3 ≡ g = omega arith in
            let kept = Kept-trans k k1 k2 kept1 kept2 in
            let at3 = pull-Kept k k2 ((g2 + 1) % 3) g (h ∷ xs) kept three in
            elim (round nr g2 0 k2 h xs v2 few) [
              | done a r e3 (k3, run3, v3, kept3) ↦
                  rw (e, sym at2 ∙ e2, sym at3 ∙ e3)
                    (k3, run ∙ run2 ∙ run3, v3, Kept-trans k k2 k3 kept kept3)
              | again k3 e3 run3 v3 kept3 ↦ absurd (some_g (sym at3 ∙ e3))
            ]
      ]
]

pub pull-mem : (p : ℕ → Bool) (xs : List ℕ) (h : ℕ) → p h ≡ true → pull p (xs ++ h ∷ []) ≢ none
unfolding pull
pull-mem p [] h hit e = absurd (ground (arith, hit, e))
pull-mem p (x ∷ xs) h hit e = elim (Bool-cases (p x)) [
  | inl first ↦ absurd (ground (arith, first, e))
  | inr later ↦ elim (pulled p (xs ++ h ∷ [])) [
    | found pre a suf split all yes_a e' ↦ absurd (ground (arith, later, e', e))
    | absent all e' ↦ pull-mem p xs h hit e'
  ]
]

sched-run :
    (nr idle : ℕ) (k k1 k2 : Kernel) (h : ℕ)
    → k.head_user ≡ some h
    → rotate h k ≡ ok k1
    → rounds 3 nr (k.proc h).group k1 ≡ ok k2
    → sched nr idle k ≡ ok (pick_proc idle k2)
unfolding sched
sched-run nr idle k k1 k2 h e r1 r2 = rw (e, sched) (rw (r1, r2))

rounds-snoc :
    (nr g : ℕ) (k : Kernel) (xs : List ℕ) (h : ℕ)
    → IsQueue user_q k (xs ++ h ∷ [])
    → length xs < nr
    → g < 3
    → of_group k g h ≡ true
    → Steps k (rounds 3 nr g k) (sched_order (groups k) g (xs ++ h ∷ []))
rounds-snoc nr g k [] h v few small hit =
    rounds-Steps nr g k h [] v (omega arith) small (pull-mem (of_group k g) [] h hit)
rounds-snoc nr g k (x ∷ xs) h v few small hit =
    rounds-Steps nr g k x (xs ++ h ∷ []) v (omega (arith, length-append {0} xs (h ∷ []))) small
      (pull-mem (of_group k g) (x ∷ xs) h hit)

-- If the users' queue is not empty, fits the process table and starts with a process of one of the
-- three groups, `sched` brings the users' queue into the order `sched_order`, within its three
-- rounds and with no read through a nil pointer, and leaves the groups, the heads and tails of
-- the other two queues, the held interrupts' list ends, the memory, the count of signals and the
-- flag `switching` as they were.
pub sched-sched_order :
    (nr idle : ℕ) (k : Kernel) (h : ℕ) (xs : List ℕ)
    → IsQueue user_q k (h ∷ xs)
    → length (h ∷ xs) < suc nr
    → (k.proc h).group < 3
    → Steps k (sched nr idle k) (sched_order (groups k) (k.proc h).group (xs ++ h ∷ []))
unfolding pick_proc
sched-sched_order nr idle k h xs v few small =
    let (k1, run1, v1, kept1) = rotate-Steps k h xs v in
    let g = (k.proc h).group in
    let same : ((k1.proc h).group == g) ≡ true = ground (arith, kept1.groups h) in
    let (k2, run2, v2, kept2) = rounds-snoc nr g k1 xs h v1 (omega arith) small same in
    let order : sched_order (groups k1) g (xs ++ h ∷ []) ≡ sched_order (groups k) g (xs ++ h ∷ []) =
      ap (λ (f : ℕ → ℕ). sched_order f g (xs ++ h ∷ [])) (fun_ext kept1.groups) in
    let w : IsQueue user_q k2 (sched_order (groups k) g (xs ++ h ∷ [])) =
      subst (IsQueue user_q k2) order v2 in
    let kept = Kept-trans k k1 k2 kept1 kept2 in
    (
      pick_proc idle k2,
      sched-run nr idle k k1 k2 h v.chain.0 run1 run2,
      record { chain = w.chain; last = w.last; distinct = w.distinct },
      record {
        groups = kept.groups;
        tasks = kept.tasks;
        servers = kept.servers;
        ends = kept.ends;
        rest = kept.rest;
      },
    )
