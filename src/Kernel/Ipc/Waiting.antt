-- ===== src/Kernel/Ipc/Waiting.antt =====
-- The check for deadlock: the receivers that senders wait for, one behind the other.
use soi_24z.Base.{
  ℕ, zero, suc, ◌<◌, ◌≤◌, ◌≡◌, refl, sym, ap, ◌∙◌, Bool, true, false, ◌==◌, List, [], ◌∷◌, arith,
  length, has, Distinct, length-Distinct, ok, Bool-cases, inl, inr, eq_of_==, subst,
}
use soi_24z.Kernel.Ipc.{would_lock, deadlock}
use soi_24z.Kernel.Proc.{Kernel}

-- What a process waits for as a sender: is it sending, and to whom?
abbrev pub sending : Kernel → ℕ → Bool
sending k i = (k.proc i).p_flags.sending

abbrev pub sendto : Kernel → ℕ → ℕ
sendto k i = (k.proc i).p_sendto

-- From `i` on, each waits to send to the next of `xs`, and the last one is not sending.
abbrev pub SendPath : Kernel → ℕ → List ℕ → Type 0
SendPath k i [] = sending k i ≡ false
SendPath k i (x ∷ xs) = (sending k i ≡ true) × (sendto k i ≡ x) × SendPath k x xs

-- Whoever waits to send waits, in the end, for a process that is not waiting to send.
abbrev pub NoDeadlock : Kernel → Type 0
NoDeadlock k = (i : ℕ) → (xs : List ℕ) × SendPath k i xs

-- Senders wait for processes of the table.
abbrev pub InTable : ℕ → Kernel → Type 0
InTable nr k = (i : ℕ) → sending k i ≡ true → sendto k i < nr

SendPath-unique :
    (k : Kernel) (i : ℕ) (xs ys : List ℕ)
    → SendPath k i xs
    → SendPath k i ys
    → length xs ≡ length ys
SendPath-unique k i [] [] p q = refl
SendPath-unique k i [] (y ∷ ys) p q = absurd (ground (arith, p, q.0))
SendPath-unique k i (x ∷ xs) [] p q = absurd (ground (arith, p.0, q))
SendPath-unique k i (x ∷ xs) (y ∷ ys) p q =
    let same : y ≡ x = sym q.1 ∙ p.1 in
    ap suc (SendPath-unique k x xs ys p.2 (subst (λ a. SendPath k a ys) same q.2))

-- A process that is met on the way has a shorter way.
SendPath-met :
    (k : Kernel) (i a : ℕ) (xs : List ℕ)
    → SendPath k i xs
    → has a xs ≡ true
    → (ys : List ℕ) × SendPath k a ys × (length ys < length xs)
SendPath-met k i a [] p h = absurd (ground arith)
SendPath-met k i a (x ∷ xs) p h = elim (Bool-cases (a == x)) [
  | inl same ↦ (xs, subst (λ b. SendPath k b xs) (sym (eq_of_== a x same)) p.2, omega arith)
  | inr other ↦
      let (ys, q, less) = SendPath-met k x a xs p.2 (ground (arith, h, other)) in
      (ys, q, omega arith)
]

-- No process is met twice.
SendPath-new : (k : Kernel) (i : ℕ) (xs : List ℕ) → SendPath k i xs → has i xs ≡ false
SendPath-new k i xs p = elim (Bool-cases (has i xs)) [
  | inr out ↦ out
  | inl again ↦
      let (ys, q, less) = SendPath-met k i i xs p again in
      absurd (omega (arith, SendPath-unique k i xs ys p q))
]

SendPath-Distinct : (k : Kernel) (i : ℕ) (xs : List ℕ) → SendPath k i xs → Distinct xs
SendPath-Distinct k i [] p = tt
SendPath-Distinct k i (x ∷ xs) p = (SendPath-new k x xs p.2, SendPath-Distinct k x xs p.2)

SendPath-below :
    (nr : ℕ) (k : Kernel) (i : ℕ) (xs : List ℕ)
    → InTable nr k
    → SendPath k i xs
    → (a : ℕ) → has a xs ≡ true
    → a < nr
SendPath-below nr k i [] t p a h = absurd (ground arith)
SendPath-below nr k i (x ∷ xs) t p a h = elim (Bool-cases (a == x)) [
  | inl same ↦ let low = t i p.0 in omega (arith, low, p.1, eq_of_== a x same)
  | inr other ↦ SendPath-below nr k x xs t p.2 a (ground (arith, h, other))
]

-- A way is no longer than the table.
pub SendPath-short :
    (nr : ℕ) (k : Kernel) (i : ℕ) (xs : List ℕ) → InTable nr k → SendPath k i xs → length xs ≤ nr
SendPath-short nr k i xs t p =
    length-Distinct nr xs (SendPath-Distinct k i xs p) (SendPath-below nr k i xs t p)

-- The loop meets the caller exactly if it stands on the way, and then it ends.
pub would_lock-has :
    (fuel caller next : ℕ) (k : Kernel) (xs : List ℕ)
    → SendPath k next xs
    → length xs < fuel
    → would_lock fuel caller next k ≡ ok (has caller (next ∷ xs))
unfolding would_lock
would_lock-has zero caller next k xs p few = absurd (omega arith)
would_lock-has (suc fuel) caller next k [] p few = elim (Bool-cases (next == caller)) [
  | inl met ↦ rw met (ap ok (ground arith))
  | inr other ↦ rw other (rw p (ap ok (ground arith)))
]
would_lock-has (suc fuel) caller next k (x ∷ xs) p few = elim (Bool-cases (next == caller)) [
  | inl met ↦ rw met (ap ok (ground arith))
  | inr other ↦ rw other (
      rw (p.0) (
        ap (λ a. would_lock fuel caller a k) p.1
        ∙ would_lock-has fuel caller x k xs p.2 (omega arith)
        ∙ ap ok (ground arith)))
]

-- The check for deadlock ends, and finds whether the caller is on the way of `dest`.
pub deadlock-has :
    (nr caller dest : ℕ) (k : Kernel) (xs : List ℕ)
    → InTable nr k
    → SendPath k dest xs
    → deadlock nr caller dest k ≡ ok (has caller xs)
unfolding deadlock
deadlock-has nr caller dest k [] t p = rw p refl
deadlock-has nr caller dest k (x ∷ xs) t p =
    let short = SendPath-short nr k dest (x ∷ xs) t p in
    rw (p.0) (
      ap (λ a. would_lock (suc nr) caller a k) p.1
      ∙ would_lock-has (suc nr) caller x k xs p.2 (omega (arith, short)))
