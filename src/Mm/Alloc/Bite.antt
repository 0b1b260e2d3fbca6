-- ===== src/Mm/Alloc/Bite.antt =====
-- Biting a piece off a hole anywhere in the list.
use mathlib.Core.List.{append_assoc}
use soi_24z.Base.{
  last_ptr, ℕ, ◌+◌, ◌-◌, ◌^◌, ◌≤◌, ◌<◌, ◌≡◌, refl, ap, ◌∙◌, ◌⊎◌, inl, inr, true, false, some, List,
  [], ◌∷◌, ◌++◌, arith, ◌==◌, if◌then◌else◌, Bool-cases, Ptr, Run, ok, length, length-append, u32,
}
use soi_24z.Mm.Alloc.{bite, sub32}
use soi_24z.Mm.Holes.{Hole, HoleTable, put, del_slot}
use soi_24z.Mm.Holes.Blocks.{Block}
use soi_24z.Mm.Holes.Chain.{Cells, slots, Seg-at}
use soi_24z.Mm.Holes.Merge.{blocks, blocks-append, Holds, put-IsHoles}
use soi_24z.Mm.Holes.Slots.{IsHoles, Outcome, del_slot-head, del_slot-behind}

-- The passed part is empty, or it has a last entry.
last_cell :
    (q : Ptr) (pre : Cells)
    → (pre ≡ [])
      ⊎ ((front : Cells) × (p : ℕ) × (b : ℕ) × (n : ℕ) × (pre ≡ front ++ (p, b, n) ∷ [])
          × (last_ptr q (slots pre) ≡ some p))
last_cell q [] = inl refl
last_cell q ((i, b, n) ∷ pre) = elim (last_cell (some i) pre) [
  | inl e ↦ inr ([], i, b, n, ap (λ (l : Cells). (i, b, n) ∷ l) e, rw e)
  | inr (front, p, b', n', e, l) ↦
      inr ((i, b, n) ∷ front, p, b', n', ap (λ (l : Cells). (i, b, n) ∷ l) e, l)
]

pub del_slot-Outcome :
    (t : HoleTable) (pre : Cells) (i b n : ℕ) (suf : Cells) (is : List ℕ) (q : Ptr)
    → IsHoles t (pre ++ (i, b, n) ∷ suf) is
    → Outcome (del_slot (last_ptr q (slots pre)) i t) (pre ++ suf) (i ∷ is)
del_slot-Outcome t pre i b n suf is q h = elim (last_cell q pre) [
  | inl e ↦ rw (ap (λ (l : Cells). l ++ suf) e) (
      del_slot-head t i b n suf is (last_ptr q (slots pre))
        (rw (ap (λ (l : Cells). l ++ (i, b, n) ∷ suf) e) at h))
  | inr (front, p, bp, np, e, l) ↦
      let assoc : (cs : Cells) → pre ++ cs ≡ front ++ (p, bp, np) ∷ cs =
        λ cs. ap (λ (l : Cells). l ++ cs) e ∙ append_assoc front ((p, bp, np) ∷ []) cs in
      rw (l, assoc suf)
        (del_slot-behind t i b n suf is front p bp np (rw (assoc ((i, b, n) ∷ suf)) at h))
]

-- What is left of a hole of `n` clicks from `b`, and those behind it.
abbrev pub shrink : (b n clicks : ℕ) → List Block → List Block
shrink b n clicks bs = if n == clicks then bs else (b + clicks, n - clicks) ∷ bs

abbrev pub Bitten : ℕ → Run (ℕ × HoleTable) → ℕ → List Block → Type 0
Bitten nr_holes r b bs = (t : HoleTable) × (r ≡ ok (b, t)) × Holds nr_holes t bs

pub bite-Bitten :
    (nr_holes : ℕ) (t : HoleTable) (pre : Cells) (i b n : ℕ) (suf : Cells) (is : List ℕ) (q : Ptr)
    (clicks : ℕ)
    → IsHoles t (pre ++ (i, b, n) ∷ suf) is
    → length (pre ++ (i, b, n) ∷ suf) + length is ≡ nr_holes
    → clicks ≤ n
    → 0 < n
    → b + n < 2 ^ 32
    → Bitten nr_holes
        (bite clicks (last_ptr q (slots pre)) i t)
        b
        (blocks pre ++ shrink b n clicks (blocks suf))
unfolding bite
bite-Bitten nr t pre i b n suf is q clicks h count le pos fits =
    let (eb, en, back) = Seg-at t.hole t.hole_head pre i b n suf h.holes in
    let left : Hole = record (t.hole i) {
      h_base = u32 ((t.hole i).h_base + clicks);
      h_len = sub32 (t.hole i).h_len clicks;
    } in
    let h' : IsHoles (put i left t) (pre ++ (i, b + clicks, n - clicks) ∷ suf) is =
      put-IsHoles t pre i b n suf is left (b + clicks) (n - clicks) refl (omega (arith, eb))
        (omega (arith, en)) h in
    elim (Bool-cases (n == clicks)) [
      | inl whole ↦
          let used : (left.h_len == 0) ≡ true = ground (arith, en) in
          let (t', run, out) =
            del_slot-Outcome (put i left t) pre i (b + clicks) (n - clicks) suf is q h' in
          (
            t',
            rw (used, run) (ap (λ c. ok (c, t')) eb),
            record {
              cells = pre ++ suf;
              free = i ∷ is;
              is_holes = out;
              view = rw whole (blocks-append pre suf);
              all_slots =
                  omega (arith, length-append {0} pre suf, length-append {0} pre ((i, b, n) ∷ suf));
            },
          )
      | inr part ↦
          let some_left : (left.h_len == 0) ≡ false = ground (arith, en) in
          (
            put i left t,
            rw some_left (ap (λ c. ok (c, put i left t)) eb),
            record {
              cells = pre ++ (i, b + clicks, n - clicks) ∷ suf;
              free = is;
              is_holes = h';
              view = rw part (blocks-append pre ((i, b + clicks, n - clicks) ∷ suf));
              all_slots = omega (
                arith,
                length-append {0} pre ((i, b + clicks, n - clicks) ∷ suf),
                length-append {0} pre ((i, b, n) ∷ suf),
              );
            },
          )
    ]
