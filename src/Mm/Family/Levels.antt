-- ===== src/Mm/Family/Levels.antt =====
-- What `countDescendantsRecursive` counts.
use mathlib.Core.Path.{fun_ext}
use soi_24z.Base.{
  ℕ, zero, suc, ◌+◌, ◌-◌, ◌≤◌, ◌≡◌, refl, sym, ap, ◌∙◌, true, false, ltb, List, [], ◌∷◌, ◌++◌,
  arith, Run, ok, length, length-append, indices_from, Bool-cases, inl, inr, none,
}
use soi_24z.Mm.Family.{
  Procs, Best, found_by, add_up, count_recursive, max_n_descendants, search_all,
}
use soi_24z.Mm.Family.Greatest.{Greatest, search_all-Greatest, nothing}

concat_map : (ℕ → List ℕ) → List ℕ → List ℕ
concat_map f [] = []
concat_map f (x ∷ xs) = f x ++ concat_map f xs

-- The descendants `d` generations below a process, as often as they are met.
generation : (nr : ℕ) (m : Procs) (d : ℕ) → ℕ → List ℕ
unfolding concat_map found_by
generation nr m zero p = p ∷ []
generation nr m (suc d) p = concat_map (generation nr m d) (found_by nr m p p)

-- How many there are in the first `k` generations below a process.
pub level_sum : (nr : ℕ) (m : Procs) (k : ℕ) → ℕ → ℕ
unfolding generation
level_sum nr m zero p = 0
level_sum nr m (suc k) p = level_sum nr m k p + length (generation nr m (suc k) p)

sum : (ℕ → ℕ) → List ℕ → ℕ
sum f [] = 0
sum f (x ∷ xs) = f x + sum f xs

sum-plus : (f g : ℕ → ℕ) (xs : List ℕ) → sum (λ x. f x + g x) xs ≡ sum f xs + sum g xs
unfolding sum
sum-plus f g [] = omega arith
sum-plus f g (x ∷ xs) = omega (arith, sum-plus f g xs)

sum-cong : (f g : ℕ → ℕ) → ((i : ℕ) → f i ≡ g i) → (xs : List ℕ) → sum f xs ≡ sum g xs
unfolding sum
sum-cong f g e [] = refl
sum-cong f g e (x ∷ xs) = omega (arith, e x, sum-cong f g e xs)

length-concat_map :
    (f : ℕ → List ℕ) (xs : List ℕ) → length (concat_map f xs) ≡ sum (λ x. length (f x)) xs
unfolding sum concat_map
length-concat_map f [] = refl
length-concat_map f (x ∷ xs) =
    omega (arith, length-append (f x) (concat_map f xs), length-concat_map f xs)

module _ (nr : ℕ) (m : Procs) where
  -- The first generations of a process are its children and the first ones of these.
  level_sum-suc :
      (k p : ℕ) → level_sum nr m (suc k) p ≡ sum (λ i. suc (level_sum nr m k i)) (found_by nr m p p)
  unfolding level_sum generation
  level_sum-suc zero p = omega (arith, length-concat_map (generation nr m zero) (found_by nr m p p))
  level_sum-suc (suc k) p = omega (
    arith,
    sum-cong (λ i. suc (level_sum nr m (suc k) i))
        (λ i. suc (level_sum nr m k i) + length (generation nr m (suc k) i)) (λ i. omega arith)
        (found_by nr m p p),
    level_sum-suc k p,
    length-concat_map (generation nr m (suc k)) (found_by nr m p p),
    sum-plus (λ i. suc (level_sum nr m k i)) (λ i. length (generation nr m (suc k) i))
        (found_by nr m p p),
  )

  level_sum-zero : (i : ℕ) → level_sum nr m 0 i ≡ 0
  unfolding level_sum
  level_sum-zero i = refl

  add_up-sum :
      (f : ℕ → Run ℕ) (g : ℕ → ℕ) (xs : List ℕ)
      → ((i : ℕ) → f i ≡ ok (g i))
      → add_up f xs ≡ ok (sum (λ i. suc (g i)) xs)
  unfolding add_up sum
  add_up-sum f g [] e = refl
  add_up-sum f g (x ∷ xs) e = rw (e x, add_up-sum f g xs e) refl

  -- At the last depth only the children count.
  count_recursive-last :
      (fuel p depth n : ℕ)
      → ltb depth n ≡ false
      → count_recursive (suc fuel) nr m p depth n ≡ ok (level_sum nr m (suc (n - depth)) p)
  unfolding count_recursive
  count_recursive-last fuel p depth n last =
      let none_left : n - depth ≡ 0 = ground arith in
      add_up-sum _ (λ i. level_sum nr m (n - depth) i) (found_by nr m p p)
        (λ i. rw (last, none_left) (first_zero i))
      ∙ ap ok (sym (level_sum-suc (n - depth) p))
    where
      first_zero : (i : ℕ) → ok 0 ≡ ok (level_sum nr m 0 i)
      first_zero i = ap ok (sym (level_sum-zero i))

  -- `countDescendantsRecursive` ends, and returns how many descendants there are in the first
  -- generations below the process: as many generations as the depth leaves, but at least one.
  pub count_recursive-level_sum :
      (fuel p depth n : ℕ)
      → n ≤ depth + fuel
      → count_recursive (suc fuel) nr m p depth n ≡ ok (level_sum nr m (suc (n - depth)) p)
  unfolding count_recursive
  count_recursive-level_sum zero p depth n few = count_recursive-last zero p depth n (ground arith)
  count_recursive-level_sum (suc fuel) p depth n few = elim (Bool-cases (ltb depth n)) [
    | inl more ↦
        let next : suc (n - suc depth) ≡ n - depth = ground arith in
        add_up-sum _ (λ i. level_sum nr m (n - depth) i) (found_by nr m p p)
          (λ i. rw more (
            count_recursive-level_sum fuel i (suc depth) n (omega arith)
            ∙ ap (λ (k : ℕ). ok (level_sum nr m k i)) next))
        ∙ ap ok (sym (level_sum-suc (n - depth) p))
    | inr last ↦ count_recursive-last (suc fuel) p depth n last
  ]

-- `maxNDescendants` ends, and finds the greatest number of descendants in the first `n`
-- generations (the first one for n = 0) below a process in use, with the pid of a process that has
-- as many.
pub max_n_descendants-Greatest :
    (nr : ℕ) (m : Procs) (n : ℕ)
    → (best : Best) × (max_n_descendants nr m n ≡ ok best)
      × Greatest m
          (λ i. (m i).in_use)
          (λ i. ok (level_sum nr m (suc (n - 1)) i))
          (λ d. true)
          (indices_from 0 nr)
          best
unfolding max_n_descendants
max_n_descendants-Greatest nr m n =
    let value : (λ i. count_recursive (suc n) nr m i 1 n)
        ≡ (λ i. ok (level_sum nr m (suc (n - 1)) i)) =
      fun_ext (λ i. count_recursive-level_sum nr m n i 1 n (omega arith)) in
    let found =
      search_all-Greatest m (λ i. (m i).in_use) (λ i. ok (level_sum nr m (suc (n - 1)) i))
        (λ d. true) (indices_from 0 nr) [] none (λ i h. (level_sum nr m (suc (n - 1)) i, refl))
        (nothing (λ j d h. absurd (ground arith))) in
    (
      found.0,
      ap
            (λ (v : ℕ → Run ℕ).
              search_all m (λ i. (m i).in_use) v (λ d. true) (indices_from 0 nr) none)
            value
          ∙ found.1,
      found.2,
    )
