-- ===== src/Base/Links.antt =====
-- Linked chains through a table: `next` gives the successor of each entry.
use mathlib.Core.Path.{◌≡◌, refl, sym, ◌∙◌, ap}
use mathlib.Core.Logic.{◌⊎◌, inl, inr}
use mathlib.Core.Bool.{true, false, ◌||◌}
use mathlib.Core.Option.{some}
use mathlib.Core.List.{List, [], ◌∷◌, ◌++◌}
use native.Mathlib.Omega.{arith}
use Prim.Native.Nat.{ℕ}
use soi_24z.Base.Tests.{Ptr, ◌==◌}
use soi_24z.Base.Lists.{has, has-append, Distinct, Disjoint}

-- From `p` the links lead through `xs` to `q`.
abbrev pub Chain : (ℕ → Ptr) → Ptr → List ℕ → Ptr → Type 0
Chain next p [] q = p ≡ q
Chain next p (x ∷ xs) q = (p ≡ some x) × Chain next (next x) xs q

-- The last entry of a chain, or `q`.
abbrev pub last_ptr : Ptr → List ℕ → Ptr
last_ptr q [] = q
last_ptr q (x ∷ xs) = last_ptr (some x) xs

-- A chain depends on the links of its own entries alone.
pub Chain-frame :
    (next next' : ℕ → Ptr) (p : Ptr) (xs : List ℕ) (q : Ptr)
    → ((a : ℕ) → has a xs ≡ true → next' a ≡ next a)
    → Chain next p xs q
    → Chain next' p xs q
Chain-frame next next' p [] q same c = c
Chain-frame next next' p (x ∷ xs) q same (e, c) = (
  e,
  rw (same x (ground arith))
      (Chain-frame next next' (next x) xs q (λ a h. same a (ground (arith, h))) c),
)

pub Chain-append :
    (next : ℕ → Ptr) (p : Ptr) (xs : List ℕ) (q : Ptr) (ys : List ℕ) (r : Ptr)
    → Chain next p xs q
    → Chain next q ys r
    → Chain next p (xs ++ ys) r
Chain-append next p [] q ys r c d = rw c d
Chain-append next p (x ∷ xs) q ys r (e, c) d = (e, Chain-append next (next x) xs q ys r c d)

pub Chain-split :
    (next : ℕ → Ptr) (p : Ptr) (xs ys : List ℕ) (r : Ptr)
    → Chain next p (xs ++ ys) r
    → (q : Ptr) × Chain next p xs q × Chain next q ys r
Chain-split next p [] ys r c = (p, refl, c)
Chain-split next p (x ∷ xs) ys r (e, c) =
    let (q, a, b) = Chain-split next (next x) xs ys r c in (q, (e, a), b)

-- A chain is empty, or it has a last entry.
pub last_entry :
    (q : Ptr) (xs : List ℕ)
    → (xs ≡ []) ⊎ ((front : List ℕ) × (t : ℕ) × (xs ≡ front ++ t ∷ []) × (last_ptr q xs ≡ some t))
last_entry q [] = inl refl
last_entry q (x ∷ xs) = elim (last_entry (some x) xs) [
  | inl e ↦ inr ([], x, ap (λ (l : List ℕ). x ∷ l) e, rw e)
  | inr (front, t, e, l) ↦ inr (x ∷ front, t, ap (λ (l : List ℕ). x ∷ l) e, l)
]

pub last_ptr-append : (q : Ptr) (xs : List ℕ) (i : ℕ) → last_ptr q (xs ++ i ∷ []) ≡ some i
last_ptr-append q [] i = refl
last_ptr-append q (x ∷ xs) i = last_ptr-append (some x) xs i

pub Distinct-append :
    (xs ys : List ℕ) → Distinct (xs ++ ys) → Distinct xs × Distinct ys × Disjoint xs ys
Distinct-append [] ys d = (tt, d, λ a. cc)
Distinct-append (x ∷ xs) ys (out, d) =
    let (dx, dy, apart) = Distinct-append xs ys d in
    let outs : (has x xs || has x ys) ≡ false = sym (has-append x xs ys) ∙ out in
    ((ground arith, dx), dy, λ a h. ground (arith, apart a))

-- A link written at `a` leads to `q`, and the others are as before.
pub record Relinked (next next' : ℕ → Ptr) (a : ℕ) (q : Ptr) : Type 0 where
  pub here : next' a ≡ q
  pub there : (b : ℕ) → (b == a) ≡ false → next' b ≡ next b

module _ (next next' : ℕ → Ptr) (a : ℕ) (q : Ptr) (re : Relinked next next' a q) where
  pub Chain-outside :
      (p : Ptr) (xs : List ℕ) (r : Ptr) → has a xs ≡ false → Chain next p xs r → Chain next' p xs r
  Chain-outside p xs r out = Chain-frame next next' p xs r (λ b h. re.there b (apart b xs h out))
    where
      apart : (b : ℕ) (xs : List ℕ) → has b xs ≡ true → has a xs ≡ false → (b == a) ≡ false
      apart b [] h o = ground arith
      apart b (x ∷ xs) h o = ground (arith, apart b xs)

  -- The chain up to `a`, led on to `q`.
  pub Chain-cut :
      (p : Ptr) (front back : List ℕ) (r : Ptr)
      → has a front ≡ false
      → Chain next p (front ++ a ∷ back) r
      → Chain next' p (front ++ a ∷ []) q
  Chain-cut p front back r out c =
      let (m, u, (e, v)) = Chain-split next p front (a ∷ back) r c in
      Chain-append next' p front m (a ∷ []) q (Chain-outside p front m out u) (e, re.here)
