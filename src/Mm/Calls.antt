-- ===== src/Mm/Calls.antt =====
-- The system calls of syscalls/minix/src/mm/misc.c and syscalls/dummy/misc_dummy.c that ask for a
-- greatest value or for the process that has it. The parameters of the calls, the fields of
-- `mm_in`, are arguments; an answer of -1 is `none`.
use soi_24z.Base.{
  ℕ, zero, suc, ◌+◌, ltb, if◌then◌else◌, Option, none, some, List, [], ◌∷◌, ◌++◌, Run, ok, fault,
  out_of_fuel, ◌>>=◌, length,
}
use soi_24z.Mm.Chains.{longest_childless_chain}
use soi_24z.Mm.Family.{Procs, Best, found_by, max_descendants_in_bounds, max_n_descendants}

-- The first of the two results of a search.
abbrev pub value_of : Best → Option ℕ
value_of none = none
value_of (some (d, pid)) = some d

-- The second one.
abbrev pub pid_of : Best → Option ℕ
pid_of none = none
pid_of (some (d, pid)) = some pid

abbrev pub answer : (Best → Option ℕ) → Run Best → Run (Option ℕ)
answer f r = do best ← r; ok (f best)

unfoldable pub do_who_longest_childless_chain : (nr : ℕ) (m : Procs) (excluded : ℕ) → Run (Option ℕ)
do_who_longest_childless_chain nr m excluded = answer pid_of (longest_childless_chain nr m excluded)

unfoldable pub do_max_descendants_in_bounds : (nr : ℕ) (m : Procs) (a b : ℕ) → Run (Option ℕ)
do_max_descendants_in_bounds nr m a b = answer value_of (max_descendants_in_bounds nr m a b)

unfoldable pub do_who_max_descendants_in_bounds : (nr : ℕ) (m : Procs) (a b : ℕ) → Run (Option ℕ)
do_who_max_descendants_in_bounds nr m a b = answer pid_of (max_descendants_in_bounds nr m a b)

unfoldable pub do_max_n_descendants : (nr : ℕ) (m : Procs) (n : ℕ) → Run (Option ℕ)
do_max_n_descendants nr m n = answer value_of (max_n_descendants nr m n)

unfoldable pub do_who_max_n_descendants : (nr : ℕ) (m : Procs) (n : ℕ) → Run (Option ℕ)
do_who_max_n_descendants nr m n = answer pid_of (max_n_descendants nr m n)

-- `queue[queue_end] = i; depth[queue_end] = ...` for each of `is`, with `used` entries of the
-- arrays in use: writing behind their end is a fault.
unfoldable pub append_level : (nr used next_depth : ℕ) → List ℕ → List (ℕ × ℕ) → Run (List (ℕ × ℕ))
append_level nr used next_depth [] queue = ok queue
append_level nr used next_depth (i ∷ is) queue =
    let rest = append_level nr (suc used) next_depth is (queue ++ (i, next_depth) ∷ []) in
    if ltb used nr then rest else fault

-- The `while` of `countDescendants`: `queue` are the entries of the two arrays from queue_start
-- on, `used` is queue_end.
unfoldable pub level_loop :
    (fuel nr : ℕ) (m : Procs) (proc_nr n used : ℕ) (queue : List (ℕ × ℕ)) (descendants : ℕ) → Run ℕ
unfolding append_level found_by
level_loop zero nr m proc_nr n used queue descendants = out_of_fuel
level_loop (suc fuel) nr m proc_nr n used [] descendants = ok descendants
level_loop (suc fuel) nr m proc_nr n used ((current, depth) ∷ queue) descendants =
    let kids = found_by nr m proc_nr current in
    let pushed : List ℕ = if ltb depth n then kids else [] in
    do
      queue' ← append_level nr used (suc depth) pushed queue
      level_loop fuel nr m proc_nr n (used + length pushed) queue' (descendants + length kids)

-- `countDescendants`
unfoldable pub count_descendants : (nr : ℕ) (m : Procs) (proc_nr n : ℕ) → Run ℕ
unfolding level_loop append_level
count_descendants nr m proc_nr n = do
  queue ← append_level nr 0 1 (proc_nr ∷ []) []
  level_loop (suc nr) nr m proc_nr n 1 queue 0
