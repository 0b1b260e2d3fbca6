-- ===== src/Kernel/Sched/Order.antt =====
-- The order that `sched` brings the users' queue into, as a function on lists.
use soi_24z.Base.{
  ℕ, ◌+◌, ◌%◌, ◌≡◌, refl, ap, Bool, true, false, ◌==◌, if◌then◌else◌, Option, none, some, List, [],
  ◌∷◌, ◌++◌, All, inl, inr, Bool-cases,
}

-- A list with one more entry in front, next to the entry that was pulled out of it.
abbrev pub keep : ℕ → Option (ℕ × List ℕ) → Option (ℕ × List ℕ)
keep x none = none
keep x (some (a, r)) = some (a, x ∷ r)

-- The first entry that passes the test, and the others.
unfoldable pub pull : (ℕ → Bool) → List ℕ → Option (ℕ × List ℕ)
pull p [] = none
pull p (x ∷ xs) = let rest = keep x (pull p xs) in if p x then some (x, xs) else rest

-- The first entry that passes the test goes to the front.
abbrev pub lead : Option (ℕ × List ℕ) → List ℕ → List ℕ
lead none xs = xs
lead (some (a, r)) xs = a ∷ r

abbrev pub in_group : (ℕ → ℕ) → ℕ → ℕ → Bool
in_group group g a = group a == g

abbrev pub or_else : Option (ℕ × List ℕ) → List ℕ → List ℕ
or_else none ys = ys
or_else (some (a, r)) ys = a ∷ r

-- The order after `sched`, from the queue with its old head at the end and the old head's group.
unfoldable pub sched_order : (ℕ → ℕ) → ℕ → List ℕ → List ℕ
unfolding pull
sched_order group g xs =
    or_else (pull (in_group group ((g + 1) % 3)) xs)
      (or_else (pull (in_group group ((g + 2) % 3)) xs) (lead (pull (in_group group g) xs) xs))

-- What `pull` finds: the first entry that passes the test, or that there is none.
pub data Pulled (p : ℕ → Bool) (xs : List ℕ) : Type 0 where
  found :
      (pre : List ℕ) (a : ℕ) (suf : List ℕ)
      → xs ≡ pre ++ a ∷ suf
      → All (λ x. p x ≡ false) pre
      → p a ≡ true
      → pull p xs ≡ some (a, pre ++ suf)
      → Pulled p xs
  absent : All (λ x. p x ≡ false) xs → pull p xs ≡ none → Pulled p xs

pub pulled : (p : ℕ → Bool) (xs : List ℕ) → Pulled p xs
unfolding pull
pulled p [] = absent tt refl
pulled p (x ∷ xs) = elim (Bool-cases (p x)) [
  | inl hit ↦ found [] x xs refl tt hit (rw hit)
  | inr miss ↦ elim (pulled p xs) [
    | found pre a suf split all h e ↦
        found (x ∷ pre) a suf (ap (λ (l : List ℕ). x ∷ l) split) (miss, all) h (rw (miss, e))
    | absent all e ↦ absent (miss, all) (rw (miss, e))
  ]
]
