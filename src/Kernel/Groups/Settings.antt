-- ===== src/Kernel/Groups/Settings.antt =====
-- What the calls for groups and quanta set.
use mathlib.Core.Path.{fun_ext}
use soi_24z.Base.{
  option_cases, the_value, ℕ, ◌<◌, ◌≤◌, ◌≡◌, refl, sym, ap, ◌∙◌, false, ◌&&◌, ◌||◌, not, ltb, ◌==◌,
  none, some, List, [], ◌∷◌, arith, update, indices_from, Bool-cases, inl, inr, View, subst,
}
use soi_24z.Kernel.Proc.{Kernel, Queue, task_q, server_q, user_q, set_proc, nextready}
use soi_24z.Kernel.Queue.Links.{IsQueue}
use soi_24z.Kernel.Groups.{
  ℤ, pos, negsuc, has_pid, find_in, find_proc_descriptor, do_get_group, in_range, do_set_group,
  Quants, do_get_quants, do_set_quants,
}

-- The groups of all processes are among the three.
abbrev pub Grouped : Kernel → Type 0
Grouped k = (i : ℕ) → (k.proc i).group < 3

abbrev regroup : ℕ → ℕ → Kernel → Kernel
regroup rp g k = set_proc rp (record (k.proc rp) { group = g }) k

-- A change of a group is seen by no search for a process.
find_in-regroup :
    (rp g : ℕ) (k : Kernel) (pid : ℤ) (is : List ℕ)
    → find_in (regroup rp g k) pid is ≡ find_in k pid is
unfolding find_in
find_in-regroup rp g k pid [] = refl
find_in-regroup rp g k pid (i ∷ is) =
    let pids : ((regroup rp g k).proc i).p_pid ≡ (k.proc i).p_pid = ground arith in
    rw (same pid pids, find_in-regroup rp g k pid is) refl
  where
    same :
        (pid : ℤ)
        → ((regroup rp g k).proc i).p_pid ≡ (k.proc i).p_pid
        → has_pid (regroup rp g k) pid i ≡ has_pid k pid i
    same (pos n) e = ap (λ (p : ℕ). not (p == 0) && (p == n)) e
    same (negsuc n) e = refl

regroup-IsQueue :
    (rp g : ℕ) (k : Kernel) (q : Queue) (xs : List ℕ)
    → IsQueue q k xs
    → IsQueue q (regroup rp g k) xs
regroup-IsQueue rp g k q xs v = placed q v
  where
    links : nextready (regroup rp g k) ≡ nextready k
    links = fun_ext (λ i. ground arith)

    placed : (q : Queue) → IsQueue q k xs → IsQueue q (regroup rp g k) xs
    placed task_q w = subst (λ f. View f k.head_task k.tail_task xs) (sym links) w
    placed server_q w = subst (λ f. View f k.head_server k.tail_server xs) (sym links) w
    placed user_q w = subst (λ f. View f k.head_user k.tail_user xs) (sym links) w

in_range_pos :
    (lo hi : ℕ) (z : ℤ) (n : ℕ) → in_range lo hi z ≡ some n → (z ≡ pos n) × (lo ≤ n) × (n ≤ hi)
in_range_pos lo hi (negsuc m) n e = absurd (cc)
in_range_pos lo hi (pos m) n e = elim (Bool-cases (ltb m lo || ltb hi m)) [
  | inl out ↦ let never : none ≡ some n = rw out at e in absurd (cc)
  | inr fits ↦
      let same : m ≡ n = the_value m n (rw fits at e) in
      (ap pos same, ground (arith, same), ground (arith, same))
]

find_proc_descriptor-regroup :
    (nr rp g : ℕ) (k : Kernel) (pid : ℤ)
    → find_proc_descriptor nr (regroup rp g k) pid ≡ find_proc_descriptor nr k pid
unfolding find_proc_descriptor
find_proc_descriptor-regroup nr rp g k pid = find_in-regroup rp g k pid (indices_from 0 nr)

regroup-get :
    (nr rp g : ℕ) (k : Kernel) (pid : ℤ)
    → find_proc_descriptor nr k pid ≡ some rp
    → do_get_group nr (regroup rp g k) pid ≡ some g
unfolding do_get_group
regroup-get nr rp g k pid e =
    let again = find_proc_descriptor-regroup nr rp g k pid ∙ e in
    rw (again, do_get_group) (ap some (ground arith))

-- With all groups among the three, a successful `do_setGroup` is given one of the three; the group
-- that `do_getGroup` then reads is that one, all groups stay among the three, and the ready queues
-- are as before.
pub do_set_group-get :
    (nr : ℕ) (k k' : Kernel) (pid group : ℤ)
    → Grouped k
    → do_set_group nr k pid group ≡ some k'
    → (g : ℕ) × (group ≡ pos g)
      × (g < 3)
      × (do_get_group nr k' pid ≡ some g)
      × Grouped k'
      × ((q : Queue) (xs : List ℕ) → IsQueue q k xs → IsQueue q k' xs)
unfolding do_set_group
do_set_group-get nr k k' pid group v run = elim (option_cases (in_range 0 2 group)) [
  | inl e ↦ let never : none ≡ some k' = rw (e, do_set_group) at run in absurd (cc)
  | inr (g, e) ↦ elim (option_cases (find_proc_descriptor nr k pid)) [
    | inl e' ↦ let never : none ≡ some k' = rw e' at (rw (e, do_set_group) at run) in absurd (cc)
    | inr (rp, e') ↦
        let done : some (regroup rp g k) ≡ some k' = rw e' at (rw (e, do_set_group) at run) in
        let set : regroup rp g k ≡ k' = the_value (regroup rp g k) k' done in
        let (at, lo, hi) = in_range_pos 0 2 group g e in
        (
          g,
          at,
          omega arith,
          subst (λ c. do_get_group nr c pid ≡ some g) set (regroup-get nr rp g k pid e'),
          subst Grouped set (λ i. ground (arith, v i)),
          λ q xs w. subst (λ c. IsQueue q c xs) set (regroup-IsQueue rp g k q xs w),
        )
  ]
]

-- A successful `do_setQuants` is given one of the three groups and a quantum from 1 to 100, which
-- `do_getQuants` then reads; the quanta of the other groups are as before.
pub do_set_quants-get :
    (quants quants' : Quants) (group quant : ℤ)
    → do_set_quants quants group quant ≡ some quants'
    → (g n : ℕ) × (group ≡ pos g)
      × (quant ≡ pos n)
      × (g < 3)
      × (1 ≤ n)
      × (n ≤ 100)
      × (do_get_quants quants' group ≡ some n)
      × ((a : ℕ) → (a == g) ≡ false → quants' a ≡ quants a)
unfolding do_set_quants do_get_quants
do_set_quants-get quants quants' group quant run = elim (option_cases (in_range 0 2 group)) [
  | inl e ↦ let never : none ≡ some quants' = rw (e, do_set_quants) at run in absurd (cc)
  | inr (g, e) ↦ elim (option_cases (in_range 1 100 quant)) [
    | inl e' ↦
        let never : none ≡ some quants' = rw e' at (rw (e, do_set_quants) at run) in absurd (cc)
    | inr (n, e') ↦
        let done : some (update quants g n) ≡ some quants' =
          rw e' at (rw (e, do_set_quants) at run) in
        let set : update quants g n ≡ quants' = the_value (update quants g n) quants' done in
        let (at, lo, hi) = in_range_pos 0 2 group g e in
        let (at', lo', hi') = in_range_pos 1 100 quant n e' in
        (
          g,
          n,
          at,
          at',
          omega arith,
          lo',
          hi',
          rw (e, do_get_quants)
              (subst (λ (f : Quants). some (f g) ≡ some n) set (ap some (ground arith))),
          λ a other. subst (λ (f : Quants). f a ≡ quants a) set (ground arith),
        )
  ]
]
