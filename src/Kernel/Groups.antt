-- ===== src/Kernel/Groups.antt =====
-- The calls of scheduling/src/kernel/system.c for the groups of processes and their quanta. The
-- fields m1_i1 and m1_i2 of the message are arguments; `none` is EFAULT, and `some` is OK with what
-- the call changes: the answer in m1_i1, the process table or the quanta. `nr` is the number of
-- entries of the process table.
pub mod Settings
use soi_24z.Base.{
  ℕ, zero, suc, Bool, true, false, ◌&&◌, ◌||◌, not, ltb, leb, ◌==◌, if◌then◌else◌, Option, none,
  some, List, [], ◌∷◌, Ptr, update, indices_from,
}
use soi_24z.Kernel.Proc.{Proc, Kernel, set_proc}

-- A C `int`.
pub data ℤ : Type 0 where
  pos negsuc : ℕ → ℤ

-- `rp->p_pid != 0 && rp->p_pid == pid`
abbrev pub has_pid : Kernel → ℤ → ℕ → Bool
has_pid k (pos pid) i = not ((k.proc i).p_pid == 0) && ((k.proc i).p_pid == pid)
has_pid k (negsuc n) i = false

-- The loop of `findProcDescriptor`, over the entries of a list.
unfoldable pub find_in : Kernel → ℤ → List ℕ → Ptr
find_in k pid [] = none
find_in k pid (i ∷ is) = let rest = find_in k pid is in if has_pid k pid i then some i else rest

unfoldable pub find_proc_descriptor : (nr : ℕ) → Kernel → ℤ → Ptr
unfolding find_in
find_proc_descriptor nr k pid = find_in k pid (indices_from 0 nr)

unfoldable pub do_get_group : (nr : ℕ) → Kernel → (pid : ℤ) → Option ℕ
unfolding find_proc_descriptor
do_get_group nr k pid = elim (find_proc_descriptor nr k pid) [
  | none ↦ none
  | some rp ↦ some (k.proc rp).group
]

-- The value of an `int` from `lo` to `hi`.
abbrev pub in_range : (lo hi : ℕ) → ℤ → Option ℕ
in_range lo hi (pos n) = if ltb n lo || ltb hi n then none else some n
in_range lo hi (negsuc n) = none

unfoldable pub do_set_group : (nr : ℕ) → Kernel → (pid group : ℤ) → Option Kernel
unfolding find_proc_descriptor
do_set_group nr k pid group = elim (in_range 0 2 group) [
  | none ↦ none
  | some g ↦ elim (find_proc_descriptor nr k pid) [
    | none ↦ none
    | some rp ↦ some (set_proc rp (record (k.proc rp) { group = g }) k)
  ]
]

abbrev pub Quants : Type 0
Quants = ℕ → ℕ

unfoldable pub do_get_quants : Quants → (group : ℤ) → Option ℕ
do_get_quants quants group = elim (in_range 0 2 group) [ none ↦ none | some g ↦ some (quants g) ]

unfoldable pub do_set_quants : Quants → (group quant : ℤ) → Option Quants
do_set_quants quants group quant = elim (in_range 0 2 group) [
  | none ↦ none
  | some g ↦ elim (in_range 1 100 quant) [ none ↦ none | some n ↦ some (update quants g n) ]
]
