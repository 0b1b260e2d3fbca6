-- ===== src/Kernel/Clock/Alarms.antt =====
-- The next alarm, and the time of day.
use soi_24z.Base.{
  ℕ, ◌+◌, ◌<◌, ◌≤◌, ◌≡◌, ◌≢◌, ◌⊎◌, refl, sym, ap, ◌∙◌, subst, true, false, not, ◌&&◌, ltb, ◌==◌,
  if◌then◌else◌, Option, List, [], ◌∷◌, update, update_here, update_there, indices_from, has,
  has-indices_from, arith, Bool-cases, inl, inr, eq_of_==,
}
use soi_24z.Kernel.Clock.{Watchdog, State, Timing, set_next_alarm, set_alarm, sooner}
use soi_24z.Kernel.Clock.Task.{next_of, common_setalarm}
use soi_24z.Kernel.Machine.{Machine}
use soi_24z.Kernel.Proc.{Proc, Kernel}

abbrev pub alarm : State → ℕ → ℕ
alarm s i = (s.kernel.proc i).p_alarm

abbrev pub next : State → ℕ
next s = s.clock.next_alarm

-- What the loop over `rps` makes of `s`: the least of its next alarm and the alarms of `rps`.
record Least (rps : List ℕ) (s s' : State) : Type 0 where
  kernel : s'.kernel ≡ s.kernel
  dogs : s'.clock.watch_dog ≡ s.clock.watch_dog
  less : next s' ≤ next s
  low : (i : ℕ) → has i rps ≡ true → alarm s i ≢ 0 → next s' ≤ alarm s i
  hit :
      (next s' ≡ next s) ⊎ ((i : ℕ) × (has i rps ≡ true) × (alarm s i ≢ 0) × (next s' ≡ alarm s i))

not_sooner : (a n : ℕ) → (not (a == 0) && ltb a n) ≡ false → a ≢ 0 → n ≤ a
not_sooner a n h set = ground (arith, h, set)

-- One entry.
sooner-Least : (rp : ℕ) (s : State) → Least (rp ∷ []) s (sooner rp s)
sooner-Least rp s = elim (Bool-cases (not (alarm s rp == 0) && ltb (alarm s rp) (next s))) [
  | inl yes_it ↦
      let at : ltb (alarm s rp) (next s) ≡ true = ground (arith, yes_it) in
      rw yes_it (record {
        kernel = refl;
        dogs = refl;
        less = ground (arith, at);
        low = λ i h set. same i h (λ j. alarm s rp ≤ alarm s j) (omega arith);
        hit = inr (rp, ground arith, ground (arith, yes_it), refl);
      })
  | inr keeps ↦ rw keeps (record {
    kernel = refl;
    dogs = refl;
    less = omega arith;
    low = λ i h.
        same i h (λ j. alarm s j ≢ 0 → next s ≤ alarm s j) (not_sooner (alarm s rp) (next s) keeps);
    hit = inl refl;
  })
]
  where
    same : (i : ℕ) → has i (rp ∷ []) ≡ true → (P : ℕ → Type 0) → P rp → P i
    same i h P p = subst P (sym (eq_of_== i rp (ground (arith, h)))) p

-- The loop over the entries behind `rp`, after `rp`.
Least-cons :
    (rp : ℕ) (rps : List ℕ) (s s1 s' : State)
    → Least (rp ∷ []) s s1
    → Least rps s1 s'
    → Least (rp ∷ rps) s s'
Least-cons rp rps s s1 s' a b =
    let same : (i : ℕ) → alarm s1 i ≡ alarm s i =
      λ i. ap (λ (k : Kernel). (k.proc i).p_alarm) a.kernel in
    let first : (i : ℕ) → has i (rp ∷ []) ≡ true → has i (rp ∷ rps) ≡ true =
      λ i h. ground (arith, h) in
    let later : (i : ℕ) → has i rps ≡ true → has i (rp ∷ rps) ≡ true = λ i h. ground (arith, h) in
    record {
      kernel = b.kernel ∙ a.kernel;
      dogs = b.dogs ∙ a.dogs;
      less = omega (arith, a.less, b.less);
      low = λ i h set. elim (Bool-cases (i == rp)) [
        | inl at ↦ let l = a.low i (ground (arith, at)) set in omega (arith, l, b.less)
        | inr off ↦
            subst (λ n. next s' ≤ n) (same i)
              (b.low i (ground (arith, h, off)) (λ z. set (sym (same i) ∙ z)))
      ];
      hit = elim (b.hit) [
        | inr (i, h, set, e) ↦ inr (i, later i h, (λ z. set (same i ∙ z)), e ∙ same i)
        | inl e ↦ elim (a.hit) [
          | inl e' ↦ inl (e ∙ e')
          | inr (i, h, set, e') ↦ inr (i, first i h, set, e ∙ e')
        ]
      ];
    }

next_of-Least : (rps : List ℕ) (s : State) → Least rps s (next_of rps s)
unfolding next_of
next_of-Least [] s = record {
  kernel = refl;
  dogs = refl;
  less = omega arith;
  low = λ i h. absurd (cc);
  hit = inl refl;
}
next_of-Least (rp ∷ rps) s =
    Least-cons rp rps s (sooner rp s) (next_of rps (sooner rp s)) (sooner-Least rp s)
      (next_of-Least rps (sooner rp s))

-- The next alarm is the least one of the processes of the table, or LONG_MAX if that is less.
pub record IsNext (nr long_max : ℕ) (s : State) : Type 0 where
  pub low : (i : ℕ) → i < nr → alarm s i ≢ 0 → next s ≤ alarm s i
  pub hit : (next s ≡ long_max) ⊎ ((i : ℕ) × (i < nr) × (alarm s i ≢ 0) × (next s ≡ alarm s i))
  pub top : next s ≤ long_max

-- The alarm and the watchdog of a process are set, and those of the others are as before.
pub record AlarmSet (i ticks : ℕ) (function : Option Watchdog) (s s' : State) : Type 0 where
  pub here : alarm s' i ≡ ticks
  pub there : (j : ℕ) → (j == i) ≡ false → alarm s' j ≡ alarm s j
  pub dog : s'.clock.watch_dog i ≡ function
  pub dogs : (j : ℕ) → (j == i) ≡ false → s'.clock.watch_dog j ≡ s.clock.watch_dog j

-- common_setalarm sets the alarm of the process to the time after `delta_ticks`, or to none for 0,
-- sets its watchdog, leaves those of the others as they were, and finds the next alarm of all the
-- processes of the table.
pub common_setalarm-IsNext :
    (c : Machine) (t : Timing) (i delta_ticks : ℕ) (function : Option Watchdog) (s : State)
    → AlarmSet i
        (if delta_ticks == 0 then 0 else s.clock.realtime + delta_ticks)
        function
        s
        (common_setalarm c t i delta_ticks function s)
      × IsNext c.nr t.long_max (common_setalarm c t i delta_ticks function s)
unfolding common_setalarm
common_setalarm-IsNext c t i delta_ticks function s =
    let ticks = if delta_ticks == 0 then 0 else s.clock.realtime + delta_ticks in
    let s1 = set_alarm i ticks s in
    let watch_dog = update s1.clock.watch_dog i function in
    let s2 : State = record s1 { clock = record (s1.clock) { watch_dog = watch_dog } } in
    let s3 = set_next_alarm t.long_max s2 in
    let all = indices_from 0 c.nr in
    let l = next_of-Least all s3 in
    let v : Proc = record (s.kernel.proc i) { p_alarm = ticks } in
    let same : (j : ℕ) → alarm (next_of all s3) j ≡ alarm s3 j =
      λ j. ap (λ (k : Kernel). (k.proc j).p_alarm) l.kernel in
    let in_all : (j : ℕ) → j < c.nr → has j all ≡ true =
      λ j h. has-indices_from j 0 c.nr ∙ ground (arith, h) in
    let of_all : (j : ℕ) → has j all ≡ true → j < c.nr =
      λ j h. let e = sym (has-indices_from j 0 c.nr) ∙ h in ground (arith, e) in
    (
      record {
        here = same i ∙ ap (λ (p : Proc). p.p_alarm) (update_here s.kernel.proc i v);
        there =
            λ j off. same j ∙ ap (λ (p : Proc). p.p_alarm) (update_there s.kernel.proc i v j off);
        dog = ap (λ f. f i) l.dogs ∙ update_here s.clock.watch_dog i function;
        dogs = λ j off. ap (λ f. f j) l.dogs ∙ update_there s.clock.watch_dog i function j off;
      },
      record {
        low = λ j h set.
            subst (λ n. next (next_of all s3) ≤ n) (sym (same j))
              (l.low j (in_all j h) (λ z. set (same j ∙ z)));
        hit = elim (l.hit) [
          | inl e ↦ inl e
          | inr (j, h, set, e) ↦
              inr (j, of_all j h, (λ z. set (sym (same j) ∙ z)), e ∙ sym (same j))
        ];
        top = l.less;
      },
    )
