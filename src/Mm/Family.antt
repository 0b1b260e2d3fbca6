-- ===== src/Mm/Family.antt =====
-- The calls that search the family tree of processes: the queue searches and the
-- recursive one of syscalls/dummy/misc_dummy.c.
-- A process is its index in mproc[]; `nr` is NR_PROCS. A depth or a maximum that the code starts
-- at -1 is an option.
pub mod Descendants
pub mod Greatest
pub mod Levels
use soi_24z.Base.{
  ℕ, zero, suc, ◌+◌, Bool, true, false, ◌&&◌, not, ltb, leb, ◌==◌, if◌then◌else◌, Option, none,
  some, List, [], ◌∷◌, ◌++◌, Run, ok, fault, out_of_fuel, ◌>>=◌, length, indices_from, select,
}

-- The fields of `struct mproc` that the searches read.
pub record Mproc : Type 0 where
  pub mp_pid : ℕ
  pub mp_parent : ℕ
  pub in_use : Bool

abbrev pub Procs : Type 0
Procs = ℕ → Mproc

-- The test in the loops of the queue searches.
abbrev pub descends : (m : Procs) (proc_nr current i : ℕ) → Bool
descends m proc_nr current i = (m i).in_use && (not (proc_nr == i) && ((m i).mp_parent == current))

unfoldable pub found_by : (nr : ℕ) (m : Procs) (proc_nr current : ℕ) → List ℕ
found_by nr m proc_nr current = select (descends m proc_nr current) (indices_from 0 nr)

-- `queue[queue_end++] = i` for each of `is`, with `used` entries of the array in use: writing
-- behind its end is a fault.
unfoldable pub append_all : (nr used : ℕ) (is queue : List ℕ) → Run (List ℕ)
append_all nr used [] queue = ok queue
append_all nr used (i ∷ is) queue =
    let rest = append_all nr (suc used) is (queue ++ i ∷ []) in if ltb used nr then rest else fault

-- The `while` of `countAllDescendants`: `queue` are the entries from queue_start on, `used` is
-- queue_end.
unfoldable pub count_loop :
    (fuel nr : ℕ) (m : Procs) (proc_nr used : ℕ) (queue : List ℕ) (descendants : ℕ) → Run ℕ
unfolding append_all found_by
count_loop zero nr m proc_nr used queue descendants = out_of_fuel
count_loop (suc fuel) nr m proc_nr used [] descendants = ok descendants
count_loop (suc fuel) nr m proc_nr used (current ∷ queue) descendants =
    let kids = found_by nr m proc_nr current in
    do
      queue' ← append_all nr used kids queue
      count_loop fuel nr m proc_nr (used + length kids) queue' (descendants + length kids)

-- `countAllDescendants`; `nr` rounds are enough, one for each entry of the array.
unfoldable pub count_all_descendants : (nr : ℕ) (m : Procs) (proc_nr : ℕ) → Run ℕ
unfolding count_loop append_all
count_all_descendants nr m proc_nr = do
  queue ← append_all nr 0 (proc_nr ∷ []) []
  count_loop (suc nr) nr m proc_nr 1 queue 0

-- What a search over all processes has found so far: the greatest value, with the pid of the
-- process it belongs to.
abbrev pub Best : Type 0
Best = Option (ℕ × ℕ)

-- `descendants > max_desc_found`, where nothing found is -1.
abbrev pub beats : ℕ → Best → Bool
beats d none = true
beats d (some (d', pid)) = ltb d' d

-- The body of the loops over all processes: `value` is computed for those that take part, and
-- `admits` is the rest of the test.
abbrev pub consider :
    (m : Procs) (joins : ℕ → Bool) (value : ℕ → Run ℕ) (admits : ℕ → Bool) (i : ℕ) → Best → Run Best
consider m joins value admits i best =
    if joins i
    then (do d ← value i; ok (if beats d best && admits d then some (d, (m i).mp_pid) else best))
    else ok best

-- The loops themselves.
unfoldable pub search_all :
    (m : Procs) (joins : ℕ → Bool) (value : ℕ → Run ℕ) (admits : ℕ → Bool)
    → List ℕ
    → Best
    → Run Best
search_all m joins value admits [] best = ok best
search_all m joins value admits (i ∷ is) best = do
  best' ← consider m joins value admits i best
  search_all m joins value admits is best'

-- `A <= descendants <= B` in C: the outcome of the first comparison, 0 or 1, is compared with B.
-- The bounds are taken to be no less than 0.
abbrev pub in_bounds : (a b descendants : ℕ) → Bool
in_bounds a b descendants = leb (if leb a descendants then 1 else 0) b

unfoldable pub max_descendants_in_bounds : (nr : ℕ) (m : Procs) (a b : ℕ) → Run Best
unfolding search_all
max_descendants_in_bounds nr m a b =
    search_all m (λ i. (m i).in_use) (count_all_descendants nr m) (in_bounds a b)
      (indices_from 0 nr) none

-- The sum of `descendants += ...` and `++descendants` over the processes of a list.
unfoldable pub add_up : (ℕ → Run ℕ) → List ℕ → Run ℕ
add_up f [] = ok 0
add_up f (i ∷ is) = do below ← f i; rest ← add_up f is; ok (suc below + rest)

-- `countDescendantsRecursive`; the depth grows up to `n`, so that `n` calls in one another are
-- enough.
unfoldable pub count_recursive : (fuel nr : ℕ) (m : Procs) (proc_nr curr_depth n : ℕ) → Run ℕ
unfolding add_up found_by
count_recursive zero nr m proc_nr curr_depth n = out_of_fuel
count_recursive (suc fuel) nr m proc_nr curr_depth n =
    add_up
      (λ i. elim (ltb curr_depth n) [
        | true ↦ count_recursive fuel nr m i (suc curr_depth) n
        | false ↦ ok 0
      ])
      (found_by nr m proc_nr proc_nr)

unfoldable pub max_n_descendants : (nr : ℕ) (m : Procs) (n : ℕ) → Run Best
unfolding search_all count_recursive
max_n_descendants nr m n =
    search_all m (λ i. (m i).in_use) (λ i. count_recursive (suc n) nr m i 1 n) (λ d. true)
      (indices_from 0 nr) none
