-- ===== src/Base/Select.antt =====
-- The entries of a list that pass a test, the indices below a bound, and how many distinct numbers
-- there are below it.
use mathlib.Core.Path.{◌≡◌, refl, ap, ◌∙◌, subst, sym}
use mathlib.Core.Logic.{inl, inr}
use mathlib.Core.Bool.{Bool, true, false, ◌&&◌, not}
use mathlib.Core.List.{List, [], ◌∷◌, ◌++◌}
use native.Mathlib.Omega.{arith}
use Prim.Native.Nat.{ℕ, zero, suc, ◌+◌, ◌<◌, ◌≤◌}
use soi_24z.Base.Tests.{◌==◌, if◌then◌else◌, Bool-cases, ltb, leb, eq_of_==}
use soi_24z.Base.Lists.{length, has, has-append, Disjoint, Distinct}

-- The indices from i to i + n - 1, in order.
abbrev pub indices_from : ℕ → ℕ → List ℕ
indices_from i zero = []
indices_from i (suc n) = i ∷ indices_from (suc i) n

abbrev pub select : (ℕ → Bool) → List ℕ → List ℕ
select p [] = []
select p (x ∷ xs) = let rest = select p xs in if p x then x ∷ rest else rest

pub has-indices_from : (a i n : ℕ) → has a (indices_from i n) ≡ (leb i a && ltb a (i + n))
has-indices_from a i zero = ground arith
has-indices_from a i (suc n) = ground (arith, has-indices_from a (suc i) n)

pub indices_from-Distinct : (i n : ℕ) → Distinct (indices_from i n)
indices_from-Distinct i zero = tt
indices_from-Distinct i (suc n) =
    (ground (arith, has-indices_from i (suc i) n), indices_from-Distinct (suc i) n)

module _ (p : ℕ → Bool) where
  pub has-select : (a : ℕ) (xs : List ℕ) → has a (select p xs) ≡ (p a && has a xs)
  has-select a [] = ground arith
  has-select a (x ∷ xs) = elim (Bool-cases (p x)) [
    | inl hit ↦ elim (Bool-cases (a == x)) [
      | inl same ↦ rw hit (rw same (rw (ap p (eq_of_== a x same) ∙ hit) refl))
      | inr other ↦ rw hit (rw other (has-select a xs))
    ]
    | inr miss ↦ elim (Bool-cases (a == x)) [
      | inl same ↦ rw miss (rw same (has-select a xs ∙ rw (ap p (eq_of_== a x same) ∙ miss) refl))
      | inr other ↦ rw miss (rw other (has-select a xs))
    ]
  ]

  pub select-Distinct : (xs : List ℕ) → Distinct xs → Distinct (select p xs)
  select-Distinct [] d = tt
  select-Distinct (x ∷ xs) (out, d) = elim (Bool-cases (p x)) [
    | inl hit ↦ rw hit (ground (arith, has-select x xs), select-Distinct xs d)
    | inr miss ↦ rw miss (select-Distinct xs d)
  ]

abbrev pub other_than : ℕ → ℕ → Bool
other_than n a = not (a == n)

pub select-absent : (n : ℕ) (xs : List ℕ) → has n xs ≡ false → select (other_than n) xs ≡ xs
select-absent n [] h = refl
select-absent n (x ∷ xs) h =
    let miss : (x == n) ≡ false = ground arith in
    rw miss (ap (λ (l : List ℕ). x ∷ l) (select-absent n xs (ground arith)))

length-select :
    (n : ℕ) (xs : List ℕ) → Distinct xs → length xs ≤ suc (length (select (other_than n) xs))
length-select n [] d = omega arith
length-select n (x ∷ xs) (out, d) = elim (Bool-cases (x == n)) [
  | inl same ↦ rw same (
      omega (
        arith,
        ap (length {0})
            (select-absent n xs (subst (λ c. has c xs ≡ false) (eq_of_== x n same) out)),
      ))
  | inr other ↦ rw other (omega (arith, length-select n xs d))
]

-- Distinct numbers below `n` are at most `n`.
pub length-Distinct :
    (n : ℕ) (xs : List ℕ) → Distinct xs → ((a : ℕ) → has a xs ≡ true → a < n) → length xs ≤ n
length-Distinct zero [] d below = omega arith
length-Distinct zero (x ∷ xs) d below = absurd (omega (arith, below x (ground arith)))
length-Distinct (suc n) xs d below =
    let ys = select (other_than n) xs in
    let few =
      length-Distinct n ys (select-Distinct (other_than n) xs d)
        (λ a h. ground (arith, below a, has-select (other_than n) a xs)) in
    omega (arith, length-select n xs d)

pub append-Distinct :
    (xs ys : List ℕ) → Distinct xs → Distinct ys → Disjoint xs ys → Distinct (xs ++ ys)
append-Distinct [] ys dx dy off = dy
append-Distinct (x ∷ xs) ys (out, dx) dy off = (
  ground (arith, has-append x xs ys, off x, out),
  append-Distinct xs ys dx dy (λ a h. off a (ground arith)),
)

pub has-split :
    (a : ℕ) (xs : List ℕ)
    → has a xs ≡ true
    → (pre : List ℕ) × (suf : List ℕ) × (xs ≡ pre ++ a ∷ suf)
has-split a [] h = absurd (ground arith)
has-split a (x ∷ xs) h = elim (Bool-cases (a == x)) [
  | inl same ↦ ([], xs, ap (λ b. b ∷ xs) (sym (eq_of_== a x same)))
  | inr other ↦
      let (pre, suf, e) = has-split a xs (ground (arith, h, other)) in
      (x ∷ pre, suf, ap (λ (l : List ℕ). x ∷ l) e)
]

pub has-apart : (a b : ℕ) (hs : List ℕ) → has a hs ≡ true → has b hs ≡ false → (a == b) ≡ false
has-apart a b [] h n = absurd (ground arith)
has-apart a b (x ∷ hs) h n = elim (Bool-cases (a == x)) [
  | inl same ↦ ground (arith, same, n)
  | inr diff ↦ has-apart a b hs (ground (arith, h, diff)) (ground (arith, n))
]
