-- ===== src/Mm/Holes/Free.antt =====
-- `free_mem` does what `free_blocks` promises.
use soi_24z.Base.{
  ℕ, suc, ◌+◌, ◌^◌, ◌<◌, ◌≡◌, refl, ap, ◌∙◌, has, true, false, none, some, List, [], ◌∷◌, ◌++◌,
  arith, ◌==◌, ltb, leb, Bool-cases, inl, inr, Ptr, ok, panic, length, length-append,
}
use soi_24z.Mm.Holes.{
  HoleTable, walk, free_mem, take_slot, link_in, goes_front, insert_front, insert_behind,
}
use soi_24z.Mm.Holes.Chain.{Cells, slots, Seg-update, Unused}
use soi_24z.Mm.Holes.Slots.{IsHoles, apart}
use soi_24z.Mm.Holes.Walk.{walk-step, walk-Place}
use soi_24z.Mm.Holes.Insert.{
  Distinct-back, link_front, link_behind, link_front-IsHoles, link_behind-IsHoles,
}
use soi_24z.Mm.Holes.Merge.{blocks, blocks-append, Holds, Yields, merge-Yields, Holds_at}
use soi_24z.Mm.Holes.Blocks.{
  Block, Sorted, Gapped, Clear, AllBelow, From, free_blocks, Gapped-Sorted, Gapped-mono,
  free_blocks-front, free_blocks-middle,
}

Sorted-behind :
    (lo b n : ℕ) (bs : List Block) → Gapped lo bs → Clear b n bs → From b bs → Sorted (b + n) bs
Sorted-behind lo b n [] g c from = tt
Sorted-behind lo b n ((b', n') ∷ bs) g (c, cs) from = (
  ground (arith, c, g.1),
  g.2,
  Gapped-Sorted (b' + n') bs (Gapped-mono (suc (b' + n')) (b' + n') bs (omega arith) g.3),
)

Sorted-middle :
    (lo b n : ℕ) (pre : List Block) (p np : ℕ) (bs : List Block)
    → Gapped lo (pre ++ (p, np) ∷ bs)
    → Clear b n (pre ++ (p, np) ∷ bs)
    → 0 < n
    → b + n < 2 ^ 32
    → p < b
    → From b bs
    → Sorted 0 ((p, np) ∷ (b, n) ∷ bs)
Sorted-middle lo b n [] p np bs g c pos fits low from = (
  omega arith,
  g.2,
  (ground (arith, c.0, g.1, pos), fits, Sorted-behind (suc (p + np)) b n bs g.3 c.1 from),
)
Sorted-middle lo b n ((b0, n0) ∷ pre) p np bs g c pos fits low from =
    Sorted-middle (suc (b0 + n0)) b n pre p np bs g.3 c.1 pos fits low from

pub blocks-length : (cs : Cells) → length (blocks cs) ≡ length cs
blocks-length [] = refl
blocks-length ((i, b, n) ∷ cs) = omega (arith, blocks-length cs)

module _ (nr : ℕ) (t : HoleTable) (base clicks new : ℕ) (is : List ℕ) (pos : 0 < clicks)
    (fits : base + clicks < 2 ^ 32) where
  front-Yields :
      (cs : Cells)
      → IsHoles t cs (new ∷ is)
      → length cs + suc (length is) ≡ nr
      → Gapped 0 (blocks cs)
      → Clear base clicks (blocks cs)
      → From base (blocks cs)
      → Yields nr
          (insert_front new (take_slot new base clicks t))
          (free_blocks base clicks (blocks cs))
  unfolding insert_front
  front-Yields cs h count g c from =
      Holds_at refl (free_blocks-front base clicks 0 (blocks cs) g from) (
        merge-Yields nr (link_front new (take_slot new base clicks t)) [] new base clicks is cs
          (omega arith, fits, Sorted-behind 0 base clicks (blocks cs) g c from) (omega arith)
          (link_front-IsHoles t new base clicks is cs h))

  behind-Yields :
      (cs pre : Cells) (p b n : ℕ) (suf : Cells)
      → cs ≡ pre ++ (p, b, n) ∷ suf
      → IsHoles t cs (new ∷ is)
      → length cs + suc (length is) ≡ nr
      → Gapped 0 (blocks cs)
      → Clear base clicks (blocks cs)
      → AllBelow base (blocks pre)
      → b < base
      → From base (blocks suf)
      → Yields nr
          (insert_behind new (some p) (take_slot new base clicks t))
          (free_blocks base clicks (blocks cs))
  unfolding insert_behind
  behind-Yields cs pre p b n suf split h count g c below low from =
      let view : blocks cs ≡ blocks pre ++ (b, n) ∷ blocks suf =
        ap blocks split ∙ blocks-append pre ((p, b, n) ∷ suf) in
      let g' : Gapped 0 (blocks pre ++ (b, n) ∷ blocks suf) = rw view at g in
      let c' : Clear base clicks (blocks pre ++ (b, n) ∷ blocks suf) = rw view at c in
      rw view (
        Holds_at refl
          (free_blocks-middle base clicks 0 (blocks pre) b n (blocks suf) g' below low from)
          (merge-Yields nr (link_behind new p (take_slot new base clicks t)) pre p b n is
            ((new, base, clicks) ∷ suf)
            (Sorted-middle 0 base clicks (blocks pre) b n (blocks suf) g' c' pos fits low from)
            (omega (
              arith,
              length-append {0} pre ((p, b, n) ∷ (new, base, clicks) ∷ suf),
              length-append {0} pre ((p, b, n) ∷ suf),
              count,
              ap (length {0}) split,
            ))
            (link_behind-IsHoles t new base clicks is pre p b n suf (rw split at h))))

link_in-front :
    (nr base new : ℕ) (t : HoleTable)
    → goes_front base t.hole_head t ≡ true
    → link_in nr base new t ≡ insert_front new t
unfolding link_in
link_in-front nr base new t h = rw h

link_in-behind :
    (nr base new : ℕ) (t : HoleTable) (q : Ptr)
    → goes_front base t.hole_head t ≡ false
    → walk (suc nr) base none t.hole_head t ≡ ok q
    → link_in nr base new t ≡ insert_behind new q t
unfolding link_in
link_in-behind nr base new t q h w = rw (h, w)

link_in-Yields :
    (nr : ℕ) (t : HoleTable) (base clicks new : ℕ) (is : List ℕ)
    → 0 < clicks
    → base + clicks < 2 ^ 32
    → (cs : Cells) → IsHoles t cs (new ∷ is)
    → length cs + suc (length is) ≡ nr
    → Gapped 0 (blocks cs)
    → Clear base clicks (blocks cs)
    → Yields nr
        (link_in nr base new (take_slot new base clicks t))
        (free_blocks base clicks (blocks cs))
unfolding goes_front
link_in-Yields nr t base clicks new is pos fits [] h count g c =
    let t1 = take_slot new base clicks t in
    rw (link_in-front nr base new t1 (rw (h.holes, goes_front)))
      (front-Yields nr t base clicks new is pos fits [] h count g c tt)
link_in-Yields nr t base clicks new is pos fits ((i, b, n) ∷ cs) h count g c =
    let t1 = take_slot new base clicks t in
    let out : has new (i ∷ slots cs) ≡ false =
      (apart [] (i ∷ slots cs) is new
        (Distinct-back [] (i ∷ slots cs) is new h.distinct)).not_behind in
    let (e, eb, en, s) = h.holes in
    let same : t1.hole i ≡ t.hole i = ground arith in
    elim (Bool-cases (leb base b)) [
      | inl front ↦ rw (link_in-front nr base new t1 (rw (e, goes_front) (rw (same, eb) front))) (
          front-Yields nr t base clicks new is pos fits ((i, b, n) ∷ cs) h count g c (ground arith))
      | inr back ↦
          let low : ltb b base ≡ true = ground arith in
          let r =
            walk-Place t1 base nr i b n (t1.hole i).h_next cs
              (rw same (Seg-update t.hole (t.hole i).h_next cs none new _ (ground arith) s))
              (omega arith) (ground arith) in
          rw
            (link_in-behind nr base new t1 (some r.p) (rw (e, goes_front) (rw (same, eb) back))
              (walk-step t1 base nr i b none t.hole_head e (rw same eb) low ∙ r.found))
            (behind-Yields nr t base clicks new is pos fits ((i, b, n) ∷ cs) r.pre r.p r.b r.n r.suf
              r.split h count g c r.below r.last r.from)
    ]

no-Unused :
    (t : HoleTable) (is : List ℕ)
    → Unused t.hole t.free_slots is
    → length is ≡ 0
    → t.free_slots ≡ none
no-Unused t [] u e = u
no-Unused t (i ∷ is) u e = absurd (omega arith)

free_mem-cells :
    (nr : ℕ) (t : HoleTable) (base clicks : ℕ)
    → 0 < clicks
    → base + clicks < 2 ^ 32
    → (cs : Cells) (is : List ℕ) → IsHoles t cs is
    → length cs + length is ≡ nr
    → Gapped 0 (blocks cs)
    → Clear base clicks (blocks cs)
    → length cs < nr
    → Yields nr (free_mem nr base clicks t) (free_blocks base clicks (blocks cs))
unfolding free_mem
free_mem-cells nr t base clicks pos fits cs [] h count g c room = absurd (omega arith)
free_mem-cells nr t base clicks pos fits cs (new ∷ is) h count g c room =
    let some_clicks : (clicks == 0) ≡ false = ground arith in
    rw (some_clicks, h.unused.0, free_mem)
      (link_in-Yields nr t base clicks new is pos fits cs h count g c)

-- Given a place in a well-formed table, its holes in order and apart, a block that is not empty,
-- shares no address with a hole and ends below 2 ^ 32 is added to the holes,
-- in one piece with those that it touches.
pub free_mem-free_blocks :
    (nr_holes : ℕ) (t : HoleTable) (bs : List Block) (base clicks : ℕ)
    → Holds nr_holes t bs
    → Gapped 0 bs
    → Clear base clicks bs
    → 0 < clicks
    → base + clicks < 2 ^ 32
    → length bs < nr_holes
    → Yields nr_holes (free_mem nr_holes base clicks t) (free_blocks base clicks bs)
free_mem-free_blocks nr t bs base clicks h g c pos fits room = rw (← h.view) (
    free_mem-cells nr t base clicks pos fits h.cells h.free h.is_holes h.all_slots (rw h.view g)
      (rw h.view c) (omega (arith, blocks-length h.cells, ap (length {0}) h.view)))

-- With every entry of the table in use, `free_mem` panics.
pub free_mem-full :
    (nr_holes : ℕ) (t : HoleTable) (bs : List Block) (base clicks : ℕ)
    → Holds nr_holes t bs
    → 0 < clicks
    → length bs ≡ nr_holes
    → free_mem nr_holes base clicks t ≡ panic
unfolding free_mem
free_mem-full nr t bs base clicks h pos full =
    let some_clicks : (clicks == 0) ≡ false = ground arith in
    let none_left : t.free_slots ≡ none =
      no-Unused t h.free h.is_holes.unused
        (omega (arith, h.all_slots, blocks-length h.cells, ap (length {0}) h.view)) in
    rw (some_clicks, none_left, free_mem)
