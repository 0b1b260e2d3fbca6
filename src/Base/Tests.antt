-- ===== src/Base/Tests.antt =====
-- Boolean tests on numbers and on table pointers, and tables as functions that are updated.
use Prim.Native.Nat.{ℕ, ◌%◌, ◌^◌, ◌<◌, ◌≤◌, compare, Ordering}
use mathlib.Core.Path.{◌≡◌, refl}
use mathlib.Core.Logic.{◌⊎◌, inl, inr}
use mathlib.Core.Bool.{Bool, true, false}
use mathlib.Core.Option.{Option, none, some}
use native.Mathlib.Omega.{arith}

abbrev pub ltb : ℕ → ℕ → Bool
ltb a b = elim (compare a b) [ Ordering.lt ↦ true | _ ↦ false ]

abbrev pub leb : ℕ → ℕ → Bool
leb a b = elim (compare a b) [ Ordering.gt ↦ false | _ ↦ true ]

infix 50 ◌==◌
abbrev pub ◌==◌ : ℕ → ℕ → Bool
a == b = elim (compare a b) [ Ordering.eq ↦ true | _ ↦ false ]

infix 1 if◌then◌else◌
abbrev pub if◌then◌else◌ {ℓ} : {A : Type ℓ} → Bool → A → A → A
if true then x else y = x
if false then x else y = y

-- A C `int` or `unsigned` of 32 bits as a bit pattern.
abbrev pub u32 : ℕ → ℕ
u32 n = n % 2 ^ 32

-- A pointer into a static table is the index of its entry; `none` is the nil pointer.
abbrev pub Ptr : Type 0
Ptr = Option ℕ

abbrev pub ptr_eq : Ptr → Ptr → Bool
ptr_eq none none = true
ptr_eq none (some b) = false
ptr_eq (some a) none = false
ptr_eq (some a) (some b) = a == b

-- A static table; an assignment to one entry.
abbrev pub update {ℓ} : {A : Type ℓ} → (ℕ → A) → ℕ → A → ℕ → A
update f i v j = if j == i then v else f j

pub Bool-cases : (b : Bool) → (b ≡ true) ⊎ (b ≡ false)
Bool-cases true = inl refl
Bool-cases false = inr refl

pub eq_of_== : (a b : ℕ) → (a == b) ≡ true → a ≡ b
eq_of_== a b h = ground arith

pub ltb→lt : (a b : ℕ) → ltb a b ≡ true → a < b
ltb→lt a b h = ground arith

pub ltb→le : (a b : ℕ) → ltb a b ≡ false → b ≤ a
ltb→le a b h = ground arith

module _ {ℓ} {A : Type ℓ} (f : ℕ → A) (i : ℕ) (v : A) where
  pub update_here : update f i v i ≡ v
  update_here = let same : (i == i) ≡ true = ground arith in rw same refl

  pub update_there : (j : ℕ) → (j == i) ≡ false → update f i v j ≡ f j
  update_there j other = rw other refl

-- What holds of the new entry and of the others holds of every entry after an assignment.
pub update_cases {ℓ κ} :
    {A : Type ℓ} (P : A → Type κ) (f : ℕ → A) (i : ℕ) (v : A) (j : ℕ)
    → (j ≡ i → P v)
    → P (f j)
    → P (update f i v j)
update_cases P f i v j here there = elim (Bool-cases (j == i)) [
  | inl same ↦ rw same (here (eq_of_== j i same))
  | inr other ↦ rw other there
]
