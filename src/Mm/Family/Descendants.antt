-- ===== src/Mm/Family/Descendants.antt =====
-- What `countAllDescendants` counts.
use mathlib.Core.List.{append-nil, append_assoc}
use soi_24z.Base.{
  append-Distinct, ℕ, zero, suc, ◌+◌, ◌<◌, ◌≤◌, ◌≡◌, ◌↔◌, refl, sym, ap, ◌∙◌, Bool, true, false,
  ◌&&◌, ltb, ◌==◌, List, [], ◌∷◌, ◌++◌, arith, ok, has, has-append, length, length-append, Distinct,
  Distinct-append, Disjoint, indices_from, has-select, has-indices_from, indices_from-Distinct,
  select-Distinct, length-Distinct, subst, Bool-cases, eq_of_==, inl, inr,
}
use soi_24z.Mm.Family.{Procs, descends, found_by, append_all, count_loop, count_all_descendants}

-- The processes in use whose chain of parents leads to `root`, which itself is none of them.
pub data Descendant (nr : ℕ) (m : Procs) (root : ℕ) : ℕ → Type 0 where
  child :
      (i : ℕ)
      → i < nr
      → (m i).in_use ≡ true
      → (root == i) ≡ false
      → (m i).mp_parent ≡ root
      → Descendant nr m root i
  deeper :
      (i : ℕ)
      → i < nr
      → (m i).in_use ≡ true
      → (root == i) ≡ false
      → Descendant nr m root ((m i).mp_parent)
      → Descendant nr m root i

append_all-ok :
    (nr used : ℕ) (is queue : List ℕ)
    → used + length is ≤ nr
    → append_all nr used is queue ≡ ok (queue ++ is)
unfolding append_all
append_all-ok nr used [] queue few = rw (append-nil queue)
append_all-ok nr used (i ∷ is) queue few =
    let room : ltb used nr ≡ true = ground arith in
    rw room (
      append_all-ok nr (suc used) is (queue ++ i ∷ []) (omega arith)
      ∙ ap ok (append_assoc queue (i ∷ []) is))

module _ (nr : ℕ) (m : Procs) (root : ℕ) (small : root < nr) where
  -- The loop has worked off `done`, and `queue` is left of the entries `root ∷ ds`.
  record Counting (done queue ds : List ℕ) : Type 0 where
    entries : done ++ queue ≡ root ∷ ds
    distinct : Distinct (root ∷ ds)
    below : (a : ℕ) → has a (root ∷ ds) ≡ true → a < nr
    sound : (a : ℕ) → has a ds ≡ true → Descendant nr m root a
    parents : (a : ℕ) → has a ds ≡ true → has ((m a).mp_parent) done ≡ true
    closed : (c i : ℕ) → has c done ≡ true → has i (found_by nr m root c) ≡ true → has i ds ≡ true

  has-found_by : (c i : ℕ) → has i (found_by nr m root c) ≡ (descends m root c i && ltb i nr)
  unfolding found_by
  has-found_by c i =
      has-select (descends m root c) i (indices_from 0 nr)
      ∙ ap (λ (b : Bool). descends m root c i && b) (has-indices_from i 0 nr ∙ ground arith)

  -- A process that the loop over the table finds.
  record Kid (c i : ℕ) : Type 0 where
    low : i < nr
    used : (m i).in_use ≡ true
    other : (root == i) ≡ false
    parent : (m i).mp_parent ≡ c

  kid : (c i : ℕ) → has i (found_by nr m root c) ≡ true → Kid c i
  kid c i h =
      let all : (descends m root c i && ltb i nr) ≡ true = sym (has-found_by c i) ∙ h in
      record {
        low = ground arith;
        used = ground arith;
        other = ground arith;
        parent = eq_of_== ((m i).mp_parent) c (ground arith);
      }

  kid_found :
      (i : ℕ)
      → i < nr
      → (m i).in_use ≡ true
      → (root == i) ≡ false
      → has i (found_by nr m root ((m i).mp_parent)) ≡ true
  kid_found i low used other = has-found_by ((m i).mp_parent) i ∙ ground arith

  -- The entry to be worked off.
  module _ (done : List ℕ) (c : ℕ) (queue ds : List ℕ) (v : Counting done (c ∷ queue) ds) where
    current_new : has c done ≡ false
    current_new =
        let (dd, dq, off) = Distinct-append done (c ∷ queue) (rw (v.entries) (v.distinct)) in
        ground (arith, off c)

    current_known : has c (root ∷ ds) ≡ true
    current_known =
        let at : has c (done ++ c ∷ queue) ≡ has c (root ∷ ds) = ap (has c) (v.entries) in
        ground (arith, at, has-append c done (c ∷ queue))

    kids_new : Disjoint ds (found_by nr m root c)
    kids_new a h = elim (Bool-cases (has a (found_by nr m root c))) [
      | inl found ↦
          let again : has c done ≡ true =
            subst (λ x. has x done ≡ true) ((kid c a found).parent) (v.parents a h) in
          absurd (ground (arith, again, current_new))
      | inr not_found ↦ not_found
    ]

    kid_Descendant : (a : ℕ) → has a (found_by nr m root c) ≡ true → Descendant nr m root a
    kid_Descendant a h =
        let k = kid c a h in
        elim (Bool-cases (c == root)) [
          | inl start ↦ child a k.low k.used k.other (k.parent ∙ eq_of_== c root start)
          | inr other ↦ deeper a k.low k.used k.other (
              subst (Descendant nr m root) (sym k.parent)
                (v.sound c (ground (arith, current_known))))
        ]

    root_new : has root (found_by nr m root c) ≡ false
    root_new = elim (Bool-cases (has root (found_by nr m root c))) [
      | inl found ↦ absurd (ground (arith, (kid c root found).other))
      | inr not_found ↦ not_found
    ]

    -- One round.
    Counting-step :
        Counting (done ++ c ∷ []) (queue ++ found_by nr m root c) (ds ++ found_by nr m root c)
    unfolding found_by
    Counting-step =
        let kids = found_by nr m root c in
        record {
          entries =
              append_assoc done (c ∷ []) (queue ++ kids)
              ∙ sym (append_assoc done (c ∷ queue) kids)
              ∙ ap (λ (l : List ℕ). l ++ kids) (v.entries);
          distinct = (
            ground (arith, has-append root ds kids, root_new, v.distinct.0),
            append-Distinct ds kids v.distinct.1
                (select-Distinct (descends m root c) (indices_from 0 nr)
                  (indices_from-Distinct 0 nr))
                kids_new,
          );
          below = λ a h. elim (Bool-cases (has a kids)) [
            | inl found ↦ (kid c a found).low
            | inr old ↦ v.below a (ground (arith, h, old, has-append a ds kids))
          ];
          sound = λ a h. elim (Bool-cases (has a kids)) [
            | inl found ↦ kid_Descendant a found
            | inr old ↦ v.sound a (ground (arith, h, old, has-append a ds kids))
          ];
          parents = λ a h. elim (Bool-cases (has a kids)) [
            | inl found ↦
                subst (λ x. has x (done ++ c ∷ []) ≡ true) (sym (kid c a found).parent)
                  (ground (arith, has-append c done (c ∷ [])))
            | inr old ↦
                let known = v.parents a (ground (arith, h, old, has-append a ds kids)) in
                ground (arith, known, has-append ((m a).mp_parent) done (c ∷ []))
          ];
          closed = λ b i h f. elim (Bool-cases (b == c)) [
            | inl same ↦
                let now : has i kids ≡ true =
                  subst (λ x. has i (found_by nr m root x) ≡ true) (eq_of_== b c same) f in
                ground (arith, now, has-append i ds kids)
            | inr other ↦
                let known = v.closed b i (ground (arith, h, other, has-append b done (c ∷ []))) f in
                ground (arith, known, has-append i ds kids)
          ];
        }

  entries_few : (done queue ds : List ℕ) → Counting done queue ds → suc (length ds) ≤ nr
  entries_few done queue ds v = length-Distinct nr (root ∷ ds) v.distinct v.below

  -- The loop ends with all descendants in the array.
  count_loop-Counting :
      (fuel used descendants : ℕ) (done queue ds : List ℕ)
      → Counting done queue ds
      → fuel + length done ≡ suc nr
      → used ≡ suc (length ds)
      → descendants ≡ length ds
      → (ds' : List ℕ) × (done' : List ℕ) × (count_loop fuel nr m root used queue descendants
          ≡ ok (length ds'))
        × Counting done' [] ds'
  unfolding count_loop
  count_loop-Counting zero used descendants done queue ds v e u d = absurd (
      omega
        (arith, entries_few done queue ds v, length-append done queue, ap (length {0}) v.entries))
  count_loop-Counting (suc fuel) used descendants done [] ds v e u d = (ds, done, ap ok d, v)
  count_loop-Counting (suc fuel) used descendants done (c ∷ queue) ds v e u d =
      let kids = found_by nr m root c in
      let w = Counting-step done c queue ds v in
      let grown = length-append ds kids in
      let few = entries_few _ _ _ w in
      let (ds', done', run, out) =
        count_loop-Counting fuel (used + length kids) (descendants + length kids) (done ++ c ∷ [])
          (queue ++ kids) (ds ++ kids) w (omega (arith, length-append done (c ∷ []))) (omega arith)
          (omega arith) in
      (ds', done', rw (append_all-ok nr used kids queue (omega arith)) run, out)

  Counting-start : Counting [] (root ∷ []) []
  Counting-start = record {
    entries = refl;
    distinct = (refl, tt);
    below = λ a h. ground arith;
    sound = λ a h. absurd (ground arith);
    parents = λ a h. absurd (ground arith);
    closed = λ c i h f. absurd (ground arith);
  }

  worked_off :
      (done ds : List ℕ)
      → Counting done [] ds
      → (b : ℕ) → has b (root ∷ ds) ≡ true
      → has b done ≡ true
  worked_off done ds v b h =
      let same : has b (done ++ []) ≡ has b (root ∷ ds) = ap (has b) (v.entries) in
      ground (arith, same, h, has-append b done [])

  complete :
      (done ds : List ℕ) → Counting done [] ds → (a : ℕ) → Descendant nr m root a → has a ds ≡ true
  complete done ds v a (child i low used other parent) =
      v.closed ((m a).mp_parent) a (worked_off done ds v ((m a).mp_parent) (ground (arith, parent)))
        (kid_found a low used other)
  complete done ds v a (deeper i low used other up) =
      let above = complete done ds v ((m a).mp_parent) up in
      v.closed ((m a).mp_parent) a (worked_off done ds v ((m a).mp_parent) (ground (arith, above)))
        (kid_found a low used other)

count_all_descendants-run :
    (nr : ℕ) (m : Procs) (root : ℕ)
    → root < nr
    → count_all_descendants nr m root ≡ count_loop (suc nr) nr m root 1 (root ∷ []) 0
unfolding count_all_descendants append_all
count_all_descendants-run nr m root small = let room : ltb 0 nr ≡ true = ground arith in rw room

-- For a process of the table `countAllDescendants` ends, writes only inside its array, and returns
-- how many processes descend from `root`, each counted once.
pub count_all_descendants-Descendant :
    (nr : ℕ) (m : Procs) (root : ℕ)
    → root < nr
    → (ds : List ℕ) × (count_all_descendants nr m root ≡ ok (length ds))
      × Distinct ds
      × ((a : ℕ) → (has a ds ≡ true) ↔ Descendant nr m root a)
count_all_descendants-Descendant nr m root small =
    let (ds, done, run, v) =
      count_loop-Counting nr m root small (suc nr) 1 0 [] (root ∷ []) []
        (Counting-start nr m root small) (omega arith) refl refl in
    (
      ds,
      count_all_descendants-run nr m root small ∙ run,
      v.distinct.1,
      λ a. (v.sound a, complete nr m root small done ds v a),
    )
