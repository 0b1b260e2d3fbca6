-- ===== src/Mm/Chains.antt =====
-- The search for the longest chain of descendants, syscalls/minix/src/mm/misc.c.
-- The stack of process numbers and the one of their depths are one list of pairs, its top in
-- front. `excluded` is the pid to leave out, `nr` is NR_PROCS.
pub mod Ends
use soi_24z.Base.{
  ℕ, zero, suc, ◌+◌, ◌*◌, Bool, true, false, ◌&&◌, ◌||◌, not, ltb, leb, ◌==◌, if◌then◌else◌, Option,
  none, some, List, [], ◌∷◌, Run, ok, out_of_fuel, ◌>>=◌, length, indices_from, update,
}
use soi_24z.Mm.Family.{Mproc, Procs, Best, beats}

abbrev pub Stack : Type 0
Stack = List (ℕ × ℕ)

-- A push to a full stack has no effect.
abbrev pub push_to_stack : (nr proc_nr proc_depth : ℕ) → Stack → Stack
push_to_stack nr proc_nr proc_depth stack =
    if leb nr (length stack) then stack else (proc_nr, proc_depth) ∷ stack

abbrev pub is_child : (m : Procs) (parent_proc candidate : ℕ) → Bool
is_child m parent_proc candidate = (m candidate).in_use && ((m candidate).mp_parent == parent_proc)

-- `procHasChildren`, over the processes of a list.
unfoldable pub proc_has_children : (m : Procs) (current_proc : ℕ) → List ℕ → Bool
proc_has_children m current_proc [] = false
proc_has_children m current_proc (i ∷ is) =
    is_child m current_proc i || proc_has_children m current_proc is

-- `pushChildrenToStack`, over the processes of a list.
unfoldable pub push_children :
    (nr : ℕ) (m : Procs) (current_proc proc_depth excluded : ℕ) → List ℕ → Stack → Stack
push_children nr m current_proc proc_depth excluded [] stack = stack
push_children nr m current_proc proc_depth excluded (i ∷ is) stack =
    push_children nr m current_proc proc_depth excluded is (
      if is_child m current_proc i && not ((m i).mp_pid == excluded)
      then push_to_stack nr i (suc proc_depth) stack
      else stack)

-- The local variables of `determinePathToChildless`; a `max_depth` of -1 is `none`.
pub record Search : Type 0 where
  pub stack : Stack
  pub visited : ℕ → Bool
  pub max_depth : Option ℕ

abbrev pub deeper_than : (current_depth : ℕ) → Option ℕ → Bool
deeper_than current_depth none = true
deeper_than current_depth (some d) = ltb d current_depth

-- A round of the loop for the process popped from the stack, a first visit to it.
abbrev pub visit : (nr : ℕ) (m : Procs) (excluded current_proc current_depth : ℕ) → Search → Search
visit nr m excluded current_proc current_depth s =
    let seen = record s { visited = update s.visited current_proc true } in
    if proc_has_children m current_proc (indices_from 0 nr)
    then record seen {
      stack = push_children nr m current_proc current_depth excluded (indices_from 0 nr) s.stack;
    }
    else (if deeper_than current_depth s.max_depth
        then record seen { max_depth = some current_depth }
        else seen)

-- A round of the loop: what `continue` skips is not visited.
unfoldable pub search_round :
    (nr : ℕ) (m : Procs) (excluded current_proc current_depth : ℕ) → Search → Search
unfolding proc_has_children push_children
search_round nr m excluded current_proc current_depth s =
    if ((m current_proc).mp_pid == excluded) || not (m current_proc).in_use
    then s
    else if s.visited current_proc
    then s
    else visit nr m excluded current_proc current_depth s

unfoldable pub search_loop :
    (fuel nr : ℕ) (m : Procs) (excluded : ℕ) → Stack → Search → Run (Option ℕ)
unfolding search_round
search_loop zero nr m excluded stack s = out_of_fuel
search_loop (suc fuel) nr m excluded [] s = ok s.max_depth
search_loop (suc fuel) nr m excluded ((current_proc, current_depth) ∷ rest) s =
    let s' = search_round nr m excluded current_proc current_depth (record s { stack = rest }) in
    search_loop fuel nr m excluded s'.stack s'

-- The rounds that are enough: each shortens the stack or visits a process.
abbrev pub rounds_enough : ℕ → ℕ
rounds_enough nr = suc (suc nr + suc nr * nr)

unfoldable pub determine_path_to_childless :
    (nr : ℕ) (m : Procs) (start_proc excluded : ℕ) → Run (Option ℕ)
unfolding search_loop
determine_path_to_childless nr m start_proc excluded =
    let stack = push_to_stack nr start_proc 1 [] in
    search_loop (rounds_enough nr) nr m excluded stack
      (record { stack = stack; visited = λ i. false; max_depth = none })

-- `currentDepth > maxPath`, where -1 is `none`, and what the search then remembers.
abbrev pub remember : (m : Procs) (proc_nr : ℕ) → Option ℕ → Best → Best
remember m proc_nr none best = best
remember m proc_nr (some d) best = if beats d best then some (d, (m proc_nr).mp_pid) else best

-- `longestChildlessChain`, over the processes of a list.
unfoldable pub chain_loop : (nr : ℕ) (m : Procs) (excluded : ℕ) → List ℕ → Best → Run Best
unfolding determine_path_to_childless
chain_loop nr m excluded [] best = ok best
chain_loop nr m excluded (i ∷ is) best = do
  best' ←
      if not (m i).in_use || ((m i).mp_pid == excluded)
      then ok best
      else (do d ← determine_path_to_childless nr m i excluded; ok (remember m i d best))
  chain_loop nr m excluded is best'

unfoldable pub longest_childless_chain : (nr : ℕ) (m : Procs) (excluded : ℕ) → Run Best
unfolding chain_loop
longest_childless_chain nr m excluded = chain_loop nr m excluded (indices_from 0 nr) none
