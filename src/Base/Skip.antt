-- ===== src/Base/Skip.antt =====
-- Taking an entry that is not the first out of a linked queue.
use mathlib.Core.Path.{◌≡◌, refl, sym, ap, subst}
use mathlib.Core.Bool.{false}
use mathlib.Core.Option.{some}
use mathlib.Core.List.{List, [], ◌∷◌, ◌++◌, append_assoc}
use native.Mathlib.Omega.{arith}
use Prim.Native.Nat.{ℕ}
use soi_24z.Base.Tests.{Ptr, ptr_eq, if◌then◌else◌}
use soi_24z.Base.Lists.{Distinct}
use soi_24z.Base.Links.{Relinked}
use soi_24z.Base.Views.{View, TailAt, unlink_behind, unlink_last, tail_not}

-- The last entry of a list that starts with `x`.
abbrev pub last_of : ℕ → List ℕ → ℕ
last_of x [] = x
last_of x (y ∷ ys) = last_of y ys

pub snoc_of : (x : ℕ) (xs : List ℕ) → (front : List ℕ) × (x ∷ xs ≡ front ++ last_of x xs ∷ [])
snoc_of x [] = ([], refl)
snoc_of x (y ∷ ys) = let (front, e) = snoc_of y ys in (x ∷ front, ap (λ (l : List ℕ). x ∷ l) e)

end_tail : (t : Ptr) (front : List ℕ) (l n : ℕ) → TailAt t (front ++ l ∷ n ∷ []) → t ≡ some n
end_tail t [] l n h = h
end_tail t (x ∷ []) l n h = h
end_tail t (x ∷ (y ∷ ys)) l n h = end_tail t (y ∷ ys) l n h

-- The link of `l` is led past `n`, and the tail is mended if it led to `n`.
pub View-skip :
    (next next' : ℕ → Ptr) (head tail : Ptr) (front : List ℕ) (l n : ℕ) (suf : List ℕ)
    → View next head tail (front ++ l ∷ n ∷ suf)
    → Relinked next next' l (next n)
    → View next' head (if ptr_eq tail (some n) then some l else tail) (front ++ l ∷ suf)
View-skip next next' head tail front l n [] v re =
    let at : tail ≡ some n = end_tail tail front l n v.last in
    let mended : some l ≡ (if ptr_eq tail (some n) then some l else tail) = rw at (ground arith) in
    subst (λ t. View next' head t (front ++ l ∷ [])) mended
      (unlink_last next next' head tail front l n v re)
View-skip next next' head tail front l n (c ∷ suf) v re =
    let assoc = append_assoc front (l ∷ []) (n ∷ c ∷ suf) in
    let far : ptr_eq tail (some n) ≡ false =
      tail_not tail (front ++ l ∷ []) n c suf (subst (TailAt tail) (sym assoc) v.last)
        (subst Distinct (sym assoc) v.distinct) in
    let kept : tail ≡ (if ptr_eq tail (some n) then some l else tail) = rw far refl in
    subst (λ t. View next' head t (front ++ l ∷ c ∷ suf)) kept
      (unlink_behind next next' head tail front l n c suf v re)
