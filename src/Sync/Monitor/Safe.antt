-- ===== src/Sync/Monitor/Safe.antt =====
-- One thread at a time is inside the monitor, and finds the values as it needs them.
use soi_24z.Base.{
  ℕ, suc, ◌-◌, ◌<◌, ◌≤◌, ◌≡◌, refl, sym, subst, inl, inr, true, false, ◌&&◌, Option, none, some,
  List, [], ◌∷◌, arith, ltb, ◌==◌, Bool-cases, update, length, length-append, ltb→lt,
}
use soi_24z.Sync.Monitor.{
  Buffer, Place, idle, entered, waits, ready, signals, reenters, move, System, start, step, Reach,
  here, next, assign, to_signal, leave, start_wait, wake,
}
use soi_24z.Sync.Values.{Op, put_a, put_b, get, Condition, can, needs, change}
use soi_24z.Sync.Monitor.Rights.{
  inside, free_rights, Held, nobody, Held-acquire, Held-release, Held-stay, Held-zero, Held-alone,
  rights_wait, rights_wake, assign_less, assign_more, w_zero,
}

pub record Inv (m : Buffer) (place : ℕ → Place) : Type 0 where
  pub held : Held (free_rights m) place
  -- A condition whose waiters were woken still holds, and so does that of a thread that goes on.
  pub woken : (x : Condition) → 0 < m.w x → can x m.values ≡ true
  pub acting : (i : ℕ) (op : Op) → place i ≡ ready op → can (needs op) m.values ≡ true
  pub few : length m.values ≤ 9

abbrev After : (place : ℕ → Place) (i : ℕ) → Option (Buffer × Place) → Type 0
After place i none = Unit
After place i (some (m, p)) = Inv m (update place i p)

change_few :
    (op : Op) (values : List ℕ)
    → can (needs op) values ≡ true
    → length values ≤ 9
    → length (change op values) ≤ 9
change_few (put_a v) values h few = ground (arith, length-append {0} values (v ∷ []))
change_few (put_b v) values h few = ground (arith, length-append {0} values (v ∷ []))
change_few get [] h few = omega arith
change_few get (v ∷ values) h few = omega arith

acting_needs :
    (op : Op) (values : List ℕ)
    → can (needs op) values ≡ true
    → (o : Op) → ready op ≡ ready o
    → can (needs o) values ≡ true
acting_needs op values good o e =
    let same_op : op ≡ o = cc in subst (λ q. can (needs q) values ≡ true) same_op good

module _ (place : ℕ → Place) (i : ℕ) where
  -- The threads that are ready after thread `i` came to `p`.
  ready_after :
      (p : Place) (values : List ℕ)
      → ((op : Op) → p ≡ ready op → can (needs op) values ≡ true)
      → ((j : ℕ) (op : Op) → (j == i) ≡ false → place j ≡ ready op → can (needs op) values ≡ true)
      → (j : ℕ) (op : Op) → update place i p j ≡ ready op
      → can (needs op) values ≡ true
  ready_after p values here' there j op = elim (Bool-cases (j == i)) [
    | inl same_j ↦ rw same_j (here' op)
    | inr other ↦ rw other (there j op other)
  ]

  module _ (m : Buffer) (inv : Inv m place) where
    acquired :
        (m' : Buffer) (p : Place)
        → free_rights m ≡ suc (free_rights m')
        → inside p ≡ true
        → m'.values ≡ m.values
        → ((x : Condition) → 0 < m'.w x → 0 < m.w x)
        → ((op : Op) → p ≡ ready op → can (needs op) m.values ≡ true)
        → Inv m' (update place i p)
    acquired m' p e ins ev less rdy = record {
      held = Held-acquire place i p (free_rights m) (free_rights m') e ins inv.held;
      woken = λ x h. subst (λ vs. can x vs ≡ true) (sym ev) (inv.woken x (less x h));
      acting = λ j op at.
          subst (λ vs. can (needs op) vs ≡ true) (sym ev)
            (ready_after p m.values rdy (λ k op' o. inv.acting k op') j op at);
      few = subst (λ vs. length vs ≤ 9) (sym ev) inv.few;
    }

    released :
        (m' : Buffer) (p : Place)
        → inside (place i) ≡ true
        → free_rights m' ≡ suc (free_rights m)
        → inside p ≡ false
        → m'.values ≡ m.values
        → ((x : Condition) → 0 < m'.w x → can x m.values ≡ true)
        → ((op : Op) → p ≡ ready op → can (needs op) m.values ≡ true)
        → Inv m' (update place i p)
    released m' p ins e outs ev ok' rdy = record {
      held =
          subst (λ n. Held n (update place i p)) (sym e)
            (Held-release place i p (free_rights m) ins outs inv.held);
      woken = λ x h. subst (λ vs. can x vs ≡ true) (sym ev) (ok' x h);
      acting = λ j op at.
          subst (λ vs. can (needs op) vs ≡ true) (sym ev)
            (ready_after p m.values rdy (λ k op' o. inv.acting k op') j op at);
      few = subst (λ vs. length vs ≤ 9) (sym ev) inv.few;
    }

    -- Inside the monitor the values may change.
    stayed :
        (values : List ℕ) (p : Place)
        → inside (place i) ≡ true
        → inside p ≡ true
        → ((op : Op) → p ≡ ready op → can (needs op) values ≡ true)
        → length values ≤ 9
        → Inv (record m { values = values }) (update place i p)
    stayed values p ins ins' rdy small = record {
      held = Held-stay place i p (free_rights m) ins ins' inv.held;
      woken = λ x h. absurd (w_zero x m (Held-zero place i (free_rights m) inv.held ins) h);
      acting = ready_after p values rdy (λ j op o at.
          let e : i ≡ j = Held-alone place i j (free_rights m) inv.held ins (rw at refl) in
          absurd (ground (arith, e, o)));
      few = small;
    }

    move-After : (op : Op) (p : Place) → place i ≡ p → After place i (move op p m)
    unfolding move
    move-After op idle at = elim (Bool-cases (ltb 0 m.s)) [
      | inr shut ↦ rw (shut) tt
      | inl free ↦ rw free (
          acquired (record m { s = m.s - 1 }) (entered op) (ground (arith, free)) refl refl
            (λ x h. h) (λ op' e. absurd (cc)))
    ]
    move-After op (entered op') at = elim (Bool-cases (can (needs op') m.values)) [
      | inl good ↦
          rw good
            (stayed m.values (ready op') (rw at refl) refl (acting_needs op' m.values good) inv.few)
      | inr bad ↦ rw bad (
          released (start_wait (needs op') m) (waits op') (rw at refl) (omega arith) refl refl
            inv.woken (λ o e. absurd (cc)))
    ]
    move-After op (waits op') at = elim (Bool-cases (ltb 0 (m.w (needs op')))) [
      | inr shut ↦ rw (shut) tt
      | inl free ↦ rw free (
          let x = needs op' in
          acquired (record m { w = assign x (m.w x - 1) m.w }) (ready op')
            (rights_wait x m (ltb→lt 0 (m.w x) free)) refl refl (λ y h. assign_less x y m.w h)
            (acting_needs op' m.values (inv.woken x (ltb→lt 0 (m.w x) free))))
    ]
    move-After op (ready op') at =
        let can_go = inv.acting i op' at in
        stayed (change op' m.values) (signals (to_signal op')) (rw at refl) refl
          (λ o e. absurd (cc)) (change_few op' m.values can_go inv.few)
    move-After op (signals []) at =
        released (leave m) idle (rw at refl) (omega arith) refl refl inv.woken (λ o e. absurd (cc))
    move-After op (signals (x ∷ xs)) at =
        elim (Bool-cases (can x m.values && ltb 0 (m.waiting_count x))) [
          | inl wakes ↦ rw wakes (
              released (wake x m) (reenters xs) (rw at refl) (rights_wake x m) refl refl
                (λ y h.
                  assign_more x y m.w (λ z. can z m.values ≡ true) (ground (arith, wakes))
                    (inv.woken y) h)
                (λ o e. absurd (cc)))
          | inr quiet ↦
              rw quiet (stayed m.values (signals xs) (rw at refl) refl (λ o e. absurd (cc)) inv.few)
        ]
    move-After op (reenters xs) at = elim (Bool-cases (ltb 0 m.s)) [
      | inr shut ↦ rw (shut) tt
      | inl free ↦ rw free (
          acquired (record m { s = m.s - 1 }) (signals xs) (ground (arith, free)) refl refl
            (λ x h. h) (λ o e. absurd (cc)))
    ]

start-Inv : Inv start.buffer start.place
start-Inv = record {
  held = nobody refl (λ j. refl);
  woken = λ x h. absurd (omega arith);
  acting = λ i op e. absurd (cc);
  few = omega arith;
}

Reach-Inv : {t : System} → Reach t → Inv t.buffer t.place
Reach-Inv here = start-Inv
Reach-Inv (next {t} r (step i op m p e)) =
    subst (After t.place i) e (move-After t.place i t.buffer (Reach-Inv r) op (t.place i) refl)

-- In every state that the threads can reach, however they take turns: no two of them are inside
-- the monitor; one that is about to change the values has its condition, so that A puts into
-- less than 5 values, B into more than 3 and less than 9, and no value is taken from none; and
-- the buffer never holds more than 9.
pub Reach-IsSafe :
    (t : System)
    → Reach t
    → ((i j : ℕ) → inside (t.place i) ≡ true → inside (t.place j) ≡ true → i ≡ j)
      × ((i : ℕ) (op : Op) → t.place i ≡ ready op → can (needs op) t.buffer.values ≡ true)
      × (length t.buffer.values ≤ 9)
Reach-IsSafe t r =
    let inv = Reach-Inv r in
    (λ i j. Held-alone t.place i j (free_rights t.buffer) inv.held, inv.acting, inv.few)
