-- ===== src/Mm/Holes/Merge.antt =====
-- `merge`: absorbing the one or two entries behind a hole that it touches.
use soi_24z.Base.{
  ℕ, ◌+◌, ◌≡◌, refl, List, [], ◌∷◌, ◌++◌, arith, ◌==◌, length, length-append, Bool-cases, eq_of_==,
  inl, inr, Distinct, ok, Run, u32, ◌<◌, ◌^◌,
}
use mathlib.Core.List.{append_assoc}
use soi_24z.Mm.Holes.{Hole, HoleTable, put, touches, absorb, merge_last, merge}
use soi_24z.Mm.Holes.Blocks.{Block, Sorted, join, join_twice}
use soi_24z.Mm.Holes.Chain.{Cells, slots, slots-append, Unused-update, Seg-at, Seg-replace}
use soi_24z.Mm.Holes.Slots.{IsHoles, Outcome, apart, del_slot-behind}

-- A write to the block of one hole.
pub put-IsHoles :
    (t : HoleTable) (pre : Cells) (i b n : ℕ) (suf : Cells) (is : List ℕ) (new : Hole) (b' n' : ℕ)
    → new.h_next ≡ (t.hole i).h_next
    → new.h_base ≡ b'
    → new.h_len ≡ n'
    → IsHoles t (pre ++ (i, b, n) ∷ suf) is
    → IsHoles (put i new t) (pre ++ (i, b', n') ∷ suf) is
put-IsHoles t pre i b n suf is new b' n' link eb' en' h =
    let ns : Distinct ((slots pre ++ i ∷ slots suf) ++ is) = rw slots-append at h.distinct in
    let a = apart (slots pre) (slots suf) is i ns in
    let (eb, en, back) = Seg-at t.hole t.hole_head pre i b n suf h.holes in
    record {
      holes =
          Seg-replace t.hole t.hole_head pre i b n suf suf new b' n' a.not_before a.not_behind
            h.holes eb' en' (rw link back);
      unused = Unused-update t.hole t.free_slots is i new a.not_unused h.unused;
      distinct = rw slots-append ns;
    }

pub absorb-Outcome :
    (t : HoleTable) (pre : Cells) (p bp np i b n : ℕ) (suf : Cells) (is : List ℕ)
    → np + n < 2 ^ 32
    → IsHoles t (pre ++ (p, bp, np) ∷ (i, b, n) ∷ suf) is
    → Outcome (absorb p i t) (pre ++ (p, bp, np + n) ∷ suf) (i ∷ is)
unfolding absorb
absorb-Outcome t pre p bp np i b n suf is fits h =
    let (ebp, enp, (link, eb, en, back)) =
      Seg-at t.hole t.hole_head pre p bp np ((i, b, n) ∷ suf) h.holes in
    let grown : Hole = record (t.hole p) { h_len = u32 ((t.hole p).h_len + (t.hole i).h_len) } in
    let len : grown.h_len ≡ np + n = omega (arith, enp, en) in
    del_slot-behind (put p grown t) i b n suf is pre p bp (np + n)
      (put-IsHoles t pre p bp np ((i, b, n) ∷ suf) is grown bp (np + n) refl ebp len h)

-- Base and length of the holes of a chain, in order.
abbrev pub blocks : Cells → List Block
blocks [] = []
blocks ((i, b, n) ∷ cs) = (b, n) ∷ blocks cs

pub blocks-append : (cs ds : Cells) → blocks (cs ++ ds) ≡ blocks cs ++ blocks ds
blocks-append [] ds = refl
blocks-append ((i, b, n) ∷ cs) ds = rw (blocks-append cs ds)

-- The table holds the holes `bs`, and all its `nr_holes` entries are on one of the two lists.
pub record Holds (nr_holes : ℕ) (t : HoleTable) (bs : List Block) : Type 0 where
  pub cells : Cells
  pub free : List ℕ
  pub is_holes : IsHoles t cells free
  pub view : blocks cells ≡ bs
  pub all_slots : length cells + length free ≡ nr_holes

abbrev pub Yields : ℕ → Run HoleTable → List Block → Type 0
Yields nr_holes r bs = (t : HoleTable) × (r ≡ ok t) × Holds nr_holes t bs

touches-eq :
    (t : HoleTable) (p bp np i b : ℕ)
    → (t.hole p).h_base ≡ bp
    → (t.hole p).h_len ≡ np
    → (t.hole i).h_base ≡ b
    → bp + np < 2 ^ 32
    → touches p i t ≡ (bp + np == b)
touches-eq t p bp np i b ebp enp eb fits = ground arith

module _ (t : HoleTable) (pre : Cells) (p bp np : ℕ) (is : List ℕ) where
  merge_last-Yields :
      (suf : Cells)
      → Sorted 0 ((bp, np) ∷ blocks suf)
      → IsHoles t (pre ++ (p, bp, np) ∷ suf) is
      → Yields
          (length (pre ++ (p, bp, np) ∷ suf) + length is)
          (merge_last p t)
          (blocks pre ++ join (bp, np) (blocks suf))
  unfolding merge_last join
  merge_last-Yields [] so h =
      let (ebp, enp, link) = Seg-at t.hole t.hole_head pre p bp np [] h.holes in
      (
        t,
        rw (link, merge_last),
        record {
          cells = pre ++ (p, bp, np) ∷ [];
          free = is;
          is_holes = h;
          view = blocks-append pre ((p, bp, np) ∷ []);
          all_slots = refl;
        },
      )
  merge_last-Yields ((i, b, n) ∷ suf) so h =
      let (ebp, enp, (link, eb, en, back)) =
        Seg-at t.hole t.hole_head pre p bp np ((i, b, n) ∷ suf) h.holes in
      let same = touches-eq t p bp np i b ebp enp eb so.1 in
      elim (Bool-cases (bp + np == b)) [
        | inl near ↦
            let (t', run, h') = absorb-Outcome t pre p bp np i b n suf is (omega arith) h in
            (
              t',
              rw (link, merge_last) (rw (same, near) run),
              record {
                cells = pre ++ (p, bp, np + n) ∷ suf;
                free = i ∷ is;
                is_holes = h';
                view = rw near (blocks-append pre ((p, bp, np + n) ∷ suf));
                all_slots = omega (
                  arith,
                  length-append {0} pre ((p, bp, np + n) ∷ suf),
                  length-append {0} pre ((p, bp, np) ∷ (i, b, n) ∷ suf),
                );
              },
            )
        | inr far ↦ (
          t,
          rw (link, merge_last) (rw (same, far)),
          record {
            cells = pre ++ (p, bp, np) ∷ (i, b, n) ∷ suf;
            free = is;
            is_holes = h;
            view = rw far (blocks-append pre ((p, bp, np) ∷ (i, b, n) ∷ suf));
            all_slots = refl;
          },
        )
      ]

pub Holds_at :
    {n m : ℕ} {r : Run HoleTable} {bs cs : List Block}
    → n ≡ m
    → bs ≡ cs
    → Yields n r bs
    → Yields m r cs
Holds_at e e' y = rw (← e, ← e') y

-- `merge` on a hole in the middle of the list.
pub merge-Yields :
    (nr_holes : ℕ) (t : HoleTable) (pre : Cells) (p bp np : ℕ) (is : List ℕ) (suf : Cells)
    → Sorted 0 ((bp, np) ∷ blocks suf)
    → length (pre ++ (p, bp, np) ∷ suf) + length is ≡ nr_holes
    → IsHoles t (pre ++ (p, bp, np) ∷ suf) is
    → Yields nr_holes (merge p t) (blocks pre ++ join_twice (bp, np) (blocks suf))
unfolding merge join_twice
merge-Yields nr t pre p bp np is [] so count h =
    let (ebp, enp, link) = Seg-at t.hole t.hole_head pre p bp np [] h.holes in
    (
      t,
      rw (link, merge),
      record {
        cells = pre ++ (p, bp, np) ∷ [];
        free = is;
        is_holes = h;
        view = blocks-append pre ((p, bp, np) ∷ []);
        all_slots = count;
      },
    )
merge-Yields nr t pre p bp np is ((i, b, n) ∷ suf) so count h =
    let (ebp, enp, (link, eb, en, back)) =
      Seg-at t.hole t.hole_head pre p bp np ((i, b, n) ∷ suf) h.holes in
    let same = touches-eq t p bp np i b ebp enp eb so.1 in
    elim (Bool-cases (bp + np == b)) [
      | inl near ↦
          let end : bp + (np + n) ≡ b + n = omega (arith, eq_of_== (bp + np) b near) in
          let (t', run, h') = absorb-Outcome t pre p bp np i b n suf is (omega arith) h in
          let (t'', run', out) =
            merge_last-Yields t' pre p bp (np + n) (i ∷ is) suf
              (omega arith, omega arith, rw end so.2.2) h' in
          Holds_at
            (omega (
              arith,
              length-append {0} pre ((p, bp, np + n) ∷ suf),
              length-append {0} pre ((p, bp, np) ∷ (i, b, n) ∷ suf),
            ))
            (rw near) (t'', rw (link, merge) (rw (same, near) (rw run run')), out)
      | inr far ↦
          let c : Cells = (p, bp, np) ∷ [] in
          let h' : IsHoles t ((pre ++ c) ++ (i, b, n) ∷ suf) is =
            rw (append_assoc pre c ((i, b, n) ∷ suf)) h in
          let (t'', run', out) =
            merge_last-Yields t (pre ++ c) i b n is suf (omega arith, so.2.1, so.2.2) h' in
          Holds_at (rw (append_assoc pre c ((i, b, n) ∷ suf)) count)
            (rw (far, blocks-append, append_assoc))
            (t'', rw (link, merge) (rw (same, far) run'), out)
    ]
