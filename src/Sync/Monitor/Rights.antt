-- ===== src/Sync/Monitor/Rights.antt =====
-- Who may be inside the monitor: a right to enter that is free, given, or held by one thread.
use soi_24z.Base.{
  ℕ, suc, ◌+◌, ◌-◌, ◌<◌, ◌≡◌, sym, ◌∙◌, inl, inr, Bool, true, false, arith, ◌==◌, Bool-cases,
  eq_of_==, update, update_here, update_there,
}
use soi_24z.Sync.Monitor.{
  Buffer, Place, idle, entered, waits, ready, signals, reenters, assign, wake,
}
use soi_24z.Sync.Values.{Condition}

-- The thread holds the monitor.
abbrev pub inside : Place → Bool
inside idle = false
inside (entered op) = true
inside (waits op) = false
inside (ready op) = true
inside (signals xs) = true
inside (reenters xs) = false

-- The right to enter the monitor, whoever it waits for.
abbrev pub free_rights : Buffer → ℕ
free_rights m = m.s + m.w Condition.a + m.w Condition.b + m.w Condition.c

-- The monitor is free, or given to one thread, or one thread is inside.
pub data Held (rights : ℕ) (place : ℕ → Place) : Type 0 where
  nobody : rights ≡ 1 → ((j : ℕ) → inside (place j) ≡ false) → Held rights place
  by :
      (i : ℕ)
      → rights ≡ 0
      → inside (place i) ≡ true
      → ((j : ℕ) → (j == i) ≡ false → inside (place j) ≡ false)
      → Held rights place

module _ (place : ℕ → Place) (i : ℕ) (p : Place) (n : ℕ) where
  pub Held-acquire :
      (k : ℕ) → n ≡ suc k → inside p ≡ true → Held n place → Held k (update place i p)
  Held-acquire k e ins (nobody one out) =
      by i (omega arith) (rw (update_here place i p) ins)
        (λ j o. rw (update_there place i p j o) (out j))
  Held-acquire k e ins (by j zero' at out) = absurd (omega arith)

  pub Held-release :
      inside (place i) ≡ true → inside p ≡ false → Held n place → Held (suc n) (update place i p)
  Held-release ins outs (nobody one out) = absurd (cc (out i))
  Held-release ins outs (by j none' at out) = nobody (omega arith) (λ k.
      elim (Bool-cases (k == i)) [
        | inl at_i ↦ rw at_i outs
        | inr other ↦ rw other (elim (Bool-cases (k == j)) [
          | inl at_j ↦ elim (Bool-cases (i == j)) [
            | inl same_ij ↦ absurd (ground (arith, other, at_j, same_ij))
            | inr apart ↦ absurd (cc (out i apart))
          ]
          | inr far ↦ out k far
        ])
      ])

  pub Held-stay :
      inside (place i) ≡ true → inside p ≡ true → Held n place → Held n (update place i p)
  Held-stay ins ins' (nobody one out) = absurd (cc (out i))
  Held-stay ins ins' (by j none' at out) = by i none' (rw (update_here place i p) ins') (λ k o.
      rw o (elim (Bool-cases (k == j)) [
        | inl at_j ↦ elim (Bool-cases (i == j)) [
          | inl same_ij ↦ absurd (ground (arith, o, at_j, same_ij))
          | inr apart ↦ absurd (cc (out i apart))
        ]
        | inr far ↦ out k far
      ]))

pub Held-zero : (place : ℕ → Place) (i n : ℕ) → Held n place → inside (place i) ≡ true → n ≡ 0
Held-zero place i n (nobody one out) ins = absurd (cc (out i))
Held-zero place i n (by j z at out) ins = z

pub Held-alone :
    (place : ℕ → Place) (i j n : ℕ)
    → Held n place
    → inside (place i) ≡ true
    → inside (place j) ≡ true
    → i ≡ j
Held-alone place i j n (nobody one out) ins ins' = absurd (cc (out i))
Held-alone place i j n (by k z at out) ins ins' = elim (Bool-cases (i == k)) [
  | inr far ↦ absurd (cc (out i far))
  | inl at_i ↦ elim (Bool-cases (j == k)) [
    | inr far ↦ absurd (cc (out j far))
    | inl at_j ↦ eq_of_== i k at_i ∙ sym (eq_of_== j k at_j)
  ]
]

pub rights_wait :
    (x : Condition) (m : Buffer)
    → 0 < m.w x
    → free_rights m ≡ suc (free_rights (record m { w = assign x (m.w x - 1) m.w }))
rights_wait Condition.a m h = omega arith
rights_wait Condition.b m h = omega arith
rights_wait Condition.c m h = omega arith

pub rights_wake : (x : Condition) (m : Buffer) → free_rights (wake x m) ≡ suc (free_rights m)
rights_wake Condition.a m = omega arith
rights_wake Condition.b m = omega arith
rights_wake Condition.c m = omega arith

-- A count that is above 0 after a decrease was so before.
pub assign_less : (x y : Condition) (f : Condition → ℕ) → 0 < assign x (f x - 1) f y → 0 < f y
assign_less Condition.a Condition.a f h = omega arith
assign_less Condition.b Condition.b f h = omega arith
assign_less Condition.c Condition.c f h = omega arith
assign_less Condition.a Condition.b f h = h
assign_less Condition.a Condition.c f h = h
assign_less Condition.b Condition.a f h = h
assign_less Condition.b Condition.c f h = h
assign_less Condition.c Condition.a f h = h
assign_less Condition.c Condition.b f h = h

-- A count that was raised is that of the condition, or was above 0 before.
pub assign_more :
    (x y : Condition) (f : Condition → ℕ) (P : Condition → Type 0)
    → P x
    → (0 < f y → P y)
    → 0 < assign x (f x + 1) f y
    → P y
assign_more Condition.a Condition.a f P p q h = p
assign_more Condition.b Condition.b f P p q h = p
assign_more Condition.c Condition.c f P p q h = p
assign_more Condition.a Condition.b f P p q h = q h
assign_more Condition.a Condition.c f P p q h = q h
assign_more Condition.b Condition.a f P p q h = q h
assign_more Condition.b Condition.c f P p q h = q h
assign_more Condition.c Condition.a f P p q h = q h
assign_more Condition.c Condition.b f P p q h = q h

pub w_zero : (x : Condition) (m : Buffer) → free_rights m ≡ 0 → 0 < m.w x → ⊥
w_zero Condition.a m z h = omega arith
w_zero Condition.b m z h = omega arith
w_zero Condition.c m z h = omega arith
