-- ===== src/Mm/Chains/Ends.antt =====
-- The search for the longest chain ends.
use soi_24z.Base.{
  ℕ, zero, suc, ◌+◌, ◌*◌, ◌<◌, ◌≤◌, ◌≡◌, refl, ap, ◌∙◌, Bool, true, false, ◌&&◌, ◌||◌, not, leb,
  ◌==◌, if◌then◌else◌, Option, none, List, [], ◌∷◌, arith, ok, All, has, has-indices_from, length,
  indices_from, update, Bool-cases, inl, inr, eq_of_==,
}
use soi_24z.Mm.Family.{Procs, Best}
use soi_24z.Mm.Chains.{
  Stack, is_child, push_children, Search, search_round, search_loop, visit, deeper_than,
  proc_has_children, rounds_enough, determine_path_to_childless, remember, chain_loop,
  longest_childless_chain,
}

-- How many processes of a list are not visited.
unvisited : (ℕ → Bool) → List ℕ → ℕ
unvisited seen [] = 0
unvisited seen (x ∷ xs) = (if seen x then 0 else 1) + unvisited seen xs

-- The stack holds processes of the table, and no more than there are.
abbrev Sound : ℕ → Stack → Type 0
Sound nr stack = (length stack ≤ nr) × All (λ e. e.0 < nr) stack

unvisited-update :
    (seen : ℕ → Bool) (p : ℕ) (xs : List ℕ) → unvisited (update seen p true) xs ≤ unvisited seen xs
unfolding unvisited
unvisited-update seen p [] = omega arith
unvisited-update seen p (x ∷ xs) = ground (arith, unvisited-update seen p xs)

unvisited-less :
    (seen : ℕ → Bool) (p : ℕ) (xs : List ℕ)
    → has p xs ≡ true
    → seen p ≡ false
    → unvisited (update seen p true) xs < unvisited seen xs
unfolding unvisited
unvisited-less seen p [] h f = absurd (ground arith)
unvisited-less seen p (x ∷ xs) h f = elim (Bool-cases (x == p)) [
  | inl same ↦
      let fresh : seen x ≡ false = ap seen (eq_of_== x p same) ∙ f in
      rw (same, fresh) (omega (arith, unvisited-update seen p xs))
  | inr other ↦ rw other (omega (arith, unvisited-less seen p xs (ground arith) f))
]

push_children-Sound :
    (nr : ℕ) (m : Procs) (p d excluded : ℕ) (is : List ℕ) (st : Stack)
    → ((i : ℕ) → has i is ≡ true → i < nr)
    → Sound nr st
    → Sound nr (push_children nr m p d excluded is st)
unfolding push_children
push_children-Sound nr m p d excluded [] st low v = v
push_children-Sound nr m p d excluded (i ∷ is) st low v =
    elim (Bool-cases (is_child m p i && not ((m i).mp_pid == excluded))) [
      | inr skip ↦
          rw skip (push_children-Sound nr m p d excluded is st (λ j h. low j (ground (arith, h))) v)
      | inl child ↦ elim (Bool-cases (leb nr (length st))) [
        | inl full ↦
            rw (child, full)
              (push_children-Sound nr m p d excluded is st (λ j h. low j (ground (arith, h))) v)
        | inr room ↦
            rw (child, room)
              (push_children-Sound nr m p d excluded is ((i, suc d) ∷ st)
                (λ j h. low j (ground (arith, h))) (ground arith, (low i (ground arith), v.1)))
      ]
    ]

fewer_left : (n a b l l' : ℕ) → a < b → l' ≤ n → l' + suc n * a ≤ l + suc n * b
fewer_left n a b l l' fewer short = grind arith

abbrev left : ℕ → Search → ℕ
left nr s = length s.stack + suc nr * unvisited s.visited (indices_from 0 nr)

-- A round keeps the stack sound, and does not add to what is left.
abbrev Round : ℕ → Search → Search → Type 0
Round nr s s' = Sound nr s'.stack × (left nr s' ≤ left nr s)

visit-Round :
    (nr : ℕ) (m : Procs) (excluded p d : ℕ) (s : Search)
    → p < nr
    → s.visited p ≡ false
    → Sound nr s.stack
    → Round nr s (visit nr m excluded p d s)
visit-Round nr m excluded p d s low new v =
    let fewer =
      unvisited-less s.visited p (indices_from 0 nr) (ground (arith, has-indices_from p 0 nr))
        new in
    let pushed =
      push_children-Sound nr m p d excluded (indices_from 0 nr) s.stack
        (λ i h. ground (arith, h, has-indices_from i 0 nr)) v in
    elim (Bool-cases (proc_has_children m p (indices_from 0 nr))) [
      | inl parent ↦ rw parent (pushed, fewer_left nr _ _ _ _ fewer (pushed.0))
      | inr childless ↦ elim (Bool-cases (deeper_than d s.max_depth)) [
        | inl more ↦ rw (childless, more) (v, fewer_left nr _ _ _ _ fewer (v.0))
        | inr less ↦ rw (childless, less) (v, fewer_left nr _ _ _ _ fewer (v.0))
      ]
    ]

search_round-Round :
    (nr : ℕ) (m : Procs) (excluded p d : ℕ) (s : Search)
    → p < nr
    → Sound nr s.stack
    → Round nr s (search_round nr m excluded p d s)
unfolding search_round
search_round-Round nr m excluded p d s low v =
    elim (Bool-cases (((m p).mp_pid == excluded) || not (m p).in_use)) [
      | inl skip ↦ rw skip (v, omega arith)
      | inr taken ↦ elim (Bool-cases (s.visited p)) [
        | inl again ↦ rw (taken, again) (v, omega arith)
        | inr new ↦ rw (taken, new) (visit-Round nr m excluded p d s low new v)
      ]
    ]

search_loop-ends :
    (fuel nr : ℕ) (m : Procs) (excluded : ℕ) (st : Stack) (s : Search)
    → Sound nr st
    → length st + suc nr * unvisited s.visited (indices_from 0 nr) < fuel
    → (d : Option ℕ) × (search_loop fuel nr m excluded st s ≡ ok d)
unfolding search_loop
search_loop-ends zero nr m excluded st s v few = absurd (omega arith)
search_loop-ends (suc fuel) nr m excluded [] s v few = (s.max_depth, refl)
search_loop-ends (suc fuel) nr m excluded ((p, d) ∷ rest) s v few =
    let s1 : Search = record s { stack = rest } in
    let (w, less) = search_round-Round nr m excluded p d s1 v.1.0 (omega (arith, v.0), v.1.1) in
    search_loop-ends fuel nr m excluded (search_round nr m excluded p d s1).stack
      (search_round nr m excluded p d s1) w (omega arith)

unvisited-indices_from : (seen : ℕ → Bool) (i n : ℕ) → unvisited seen (indices_from i n) ≤ n
unfolding unvisited
unvisited-indices_from seen i zero = omega arith
unvisited-indices_from seen i (suc n) = ground (arith, unvisited-indices_from seen (suc i) n)

enough : (nr u : ℕ) → u ≤ nr → 0 < nr → 1 + suc nr * u < rounds_enough nr
enough nr u few some_room = grind arith

-- `determinePathToChildless` ends for each process of the table, whatever the parents are.
determine_path_to_childless-ends :
    (nr : ℕ) (m : Procs) (start excluded : ℕ)
    → start < nr
    → (d : Option ℕ) × (determine_path_to_childless nr m start excluded ≡ ok d)
unfolding determine_path_to_childless
determine_path_to_childless-ends nr m start excluded low =
    let room : leb nr 0 ≡ false = ground arith in
    let s : Search = record { stack = (start, 1) ∷ []; visited = λ i. false; max_depth = none } in
    rw room (
      search_loop-ends (rounds_enough nr) nr m excluded ((start, 1) ∷ []) s (omega arith, (low, tt))
        (enough nr _ (unvisited-indices_from (λ i. false) 0 nr) (omega arith)))

chain_loop-ends :
    (nr : ℕ) (m : Procs) (excluded : ℕ) (is : List ℕ) (best : Best)
    → ((i : ℕ) → has i is ≡ true → i < nr)
    → (best' : Best) × (chain_loop nr m excluded is best ≡ ok best')
unfolding chain_loop
chain_loop-ends nr m excluded [] best low = (best, refl)
chain_loop-ends nr m excluded (i ∷ is) best low =
    let later : (j : ℕ) → has j is ≡ true → j < nr = λ j h. low j (ground (arith, h)) in
    elim (Bool-cases (not (m i).in_use || ((m i).mp_pid == excluded))) [
      | inl out ↦ rw out (chain_loop-ends nr m excluded is best later)
      | inr in_it ↦
          let (d, run) = determine_path_to_childless-ends nr m i excluded (low i (ground arith)) in
          let (best', run') = chain_loop-ends nr m excluded is (remember m i d best) later in
          rw in_it (best', rw run run')
    ]

-- `longestChildlessChain` ends with a result, for every table of processes, also one where the
-- chains of parents run in circles.
pub longest_childless_chain-ends :
    (nr : ℕ) (m : Procs) (excluded : ℕ)
    → (best : Best) × (longest_childless_chain nr m excluded ≡ ok best)
unfolding longest_childless_chain
longest_childless_chain-ends nr m excluded =
    chain_loop-ends nr m excluded (indices_from 0 nr) none
      (λ i h. ground (arith, h, has-indices_from i 0 nr))
