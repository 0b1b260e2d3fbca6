-- ===== src/Tests/Family.antt =====
-- The searches of the family tree with four processes: 1 and 2 are children of 0, 3 is one of 1.
use soi_24z.Base.{
  some, ℕ, suc, ◌-◌, ◌≡◌, ◌↔◌, refl, true, ◌==◌, if◌then◌else◌, List, arith, ok, has, length,
  Distinct, indices_from,
}
use soi_24z.Mm.Calls.{count_descendants, do_who_max_descendants_in_bounds}
use soi_24z.Mm.Chains.{longest_childless_chain}
use soi_24z.Mm.Chains.Ends.{longest_childless_chain-ends}
use soi_24z.Mm.Family.{
  count_recursive, Procs, Best, count_all_descendants, max_descendants_in_bounds, in_bounds,
  max_n_descendants,
}
use soi_24z.Mm.Family.Levels.{level_sum, max_n_descendants-Greatest}
use soi_24z.Mm.Family.Descendants.{Descendant, count_all_descendants-Descendant}
use soi_24z.Mm.Family.Greatest.{
  Greatest, max_descendants_in_bounds-Greatest, max_descendants_in_bounds-unbounded,
}

abbrev parent_of : ℕ → ℕ
parent_of i = if i == 3 then 1 else 0

abbrev family : Procs
family i = record { mp_pid = i; mp_parent = parent_of i; in_use = true }

counted : count_all_descendants 4 family 0 ≡ ok 3
unfolding count_all_descendants
counted = refl

count_all_descendants-Descendant_example :
    (ds : List ℕ) × (count_all_descendants 4 family 0 ≡ ok (length ds))
    × Distinct ds
    × ((a : ℕ) → (has a ds ≡ true) ↔ Descendant 4 family 0 a)
count_all_descendants-Descendant_example = count_all_descendants-Descendant 4 family 0 (omega arith)

max_descendants_in_bounds-Greatest_example :
    (best : Best) × (max_descendants_in_bounds 4 family 2 5 ≡ ok best)
    × Greatest family
        (λ i. (family i).in_use)
        (count_all_descendants 4 family)
        (in_bounds 2 5)
        (indices_from 0 4)
        best
max_descendants_in_bounds-Greatest_example = max_descendants_in_bounds-Greatest 4 family 2 5

-- Three descendants are not between 1 and 2.
max_descendants_in_bounds-unbounded_example :
    max_descendants_in_bounds 4 family 1 2 ≡ max_descendants_in_bounds 4 family 0 9
max_descendants_in_bounds-unbounded_example =
    max_descendants_in_bounds-unbounded 4 family 1 2 0 9 (omega arith) (omega arith)

max_n_descendants-Greatest_example :
    (best : Best) × (max_n_descendants 4 family 2 ≡ ok best)
    × Greatest family
        (λ i. (family i).in_use)
        (λ i. ok (level_sum 4 family (suc (2 - 1)) i))
        (λ d. true)
        (indices_from 0 4)
        best
max_n_descendants-Greatest_example = max_n_descendants-Greatest 4 family 2

-- 3 is excluded.
longest : longest_childless_chain 4 family 3 ≡ ok (some (2, 0))
unfolding longest_childless_chain
longest = refl

longest_childless_chain-ends_example :
    (best : Best) × (longest_childless_chain 4 family 3 ≡ ok best)
longest_childless_chain-ends_example = longest_childless_chain-ends 4 family 3

-- The two ways to count agree here, for one generation and for two.
levels_1 : count_descendants 4 family 0 1 ≡ ok 2
unfolding count_descendants
levels_1 = refl

levels_2 : count_descendants 4 family 0 2 ≡ ok 3
unfolding count_descendants
levels_2 = refl

recursive_2 : count_recursive 3 4 family 0 1 2 ≡ ok 3
unfolding count_recursive
recursive_2 = refl

who : do_who_max_descendants_in_bounds 4 family 0 9 ≡ ok (some 0)
unfolding do_who_max_descendants_in_bounds max_descendants_in_bounds count_all_descendants
who = refl
