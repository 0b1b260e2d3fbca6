-- ===== src/Mm/Report/Shown.antt =====
-- What do_hole_map reports of the holes.
use soi_24z.Base.{
  ℕ, zero, suc, ◌+◌, ◌*◌, ◌/◌, ◌<◌, ◌≤◌, ◌≡◌, refl, ap, ◌∙◌, subst, true, false, ltb, ◌==◌,
  if◌then◌else◌, List, [], ◌∷◌, none, Ptr, update, update_here, update_there, Run, ok, length,
  arith, Bool-cases, inl, inr,
}
use soi_24z.Mm.Holes.{HoleTable}
use soi_24z.Mm.Holes.Blocks.{Block}
use soi_24z.Mm.Holes.Chain.{Cells, Seg}
use soi_24z.Mm.Holes.Merge.{Holds, blocks}
use soi_24z.Mm.Report.{store, hole_map_loop, do_hole_map}

-- At most `m` blocks, up to the first one in the swap area.
unfoldable pub report : (swap_base m : ℕ) → List Block → List Block
report swap_base zero bs = []
report swap_base (suc m) [] = []
report swap_base (suc m) ((b, n) ∷ bs) =
    let rest = report swap_base m bs in if ltb b swap_base then (b, n) ∷ rest else []

-- From the pair `i` on the buffer holds the lengths and bases of the blocks.
abbrev pub Shows : (ℕ → ℕ) → ℕ → List Block → Type 0
Shows buffer i [] = Unit
Shows buffer i ((b, n) ∷ bs) =
    (buffer (i * 2) ≡ n) × (buffer (i * 2 + 1) ≡ b) × Shows buffer (suc i) bs

store-ok :
    (nr i v : ℕ) (buffer : ℕ → ℕ) → i < nr * 2 + 1 → store nr i v buffer ≡ ok (update buffer i v)
store-ok nr i v buffer low =
    let fits : ltb i (nr * 2 + 1) ≡ true = ground (arith, low) in rw fits refl

-- What the loop returns from the pair `count` on.
record Looped (count : ℕ) (bs : List Block) (buffer : ℕ → ℕ) (r : Run (ℕ × (ℕ → ℕ))) : Type 0 where
  after : ℕ → ℕ
  run : r ≡ ok (count + length bs, after)
  shows : Shows after count bs
  kept : (j : ℕ) → j < count * 2 → after j ≡ buffer j

stopped : (count : ℕ) (buffer : ℕ → ℕ) → Looped count [] buffer (ok (count, buffer))
stopped count buffer = record {
  after = buffer;
  run = ap (λ n. ok (n, buffer)) (omega arith);
  shows = tt;
  kept = λ j h. refl;
}

looped :
    (fuel nr sb max m : ℕ) (p : Ptr) (cs : Cells) (count : ℕ) (buffer : ℕ → ℕ) (t : HoleTable)
    → Seg t.hole p cs none
    → length cs + count ≤ nr
    → length cs < fuel
    → max ≡ count + m
    → Looped count (report sb m (blocks cs)) buffer (hole_map_loop fuel nr sb max p count buffer t)
unfolding hole_map_loop report
looped zero nr sb max m p cs count buffer t s room few e = absurd (omega arith)
looped (suc fuel) nr sb max zero p [] count buffer t s room few e =
    rw (s, hole_map_loop) (stopped count buffer)
looped (suc fuel) nr sb max (suc m) p [] count buffer t s room few e =
    rw (s, hole_map_loop) (stopped count buffer)
looped (suc fuel) nr sb max zero p ((i, b, n) ∷ cs) count buffer t (at, eb, en, s) room few e =
    let full : ltb count max ≡ false = ground (arith, e) in
    rw (at, hole_map_loop) (rw full (stopped count buffer))
looped (suc fuel) nr sb max (suc m) p ((i, b, n) ∷ cs) count buffer t (at, eb, en, s) room few e =
    let free : ltb count max ≡ true = ground (arith, e) in
    elim (Bool-cases (ltb b sb)) [
      | inr swap ↦
          let swap' : ltb (t.hole i).h_base sb ≡ false = ap (λ x. ltb x sb) eb ∙ swap in
          rw (at, hole_map_loop) (rw free (rw swap' (rw swap (stopped count buffer))))
      | inl low ↦
          let low' : ltb (t.hole i).h_base sb ≡ true = ap (λ x. ltb x sb) eb ∙ low in
          let b1 = update buffer (count * 2) (t.hole i).h_len in
          let b2 = update b1 (count * 2 + 1) (t.hole i).h_base in
          let first = store-ok nr (count * 2) (t.hole i).h_len buffer (omega (arith, room)) in
          let second = store-ok nr (count * 2 + 1) (t.hole i).h_base b1 (omega (arith, room)) in
          let l =
            looped fuel nr sb max m (t.hole i).h_next cs (suc count) b2 t s (omega (arith, room))
              (omega (arith, few)) (omega (arith, e)) in
          let odd : (count * 2 == count * 2 + 1) ≡ false = ground arith in
          rw (at, hole_map_loop)
            (rw free (
              rw low' (
                rw low (
                  rw first (
                    rw second (record {
                      after = l.after;
                      run = l.run ∙ ap (λ x. ok (x, l.after)) (omega arith);
                      shows = (
                        l.kept (count * 2) (omega arith)
                            ∙ update_there b1 (count * 2 + 1) (t.hole i).h_base (count * 2) odd
                            ∙ update_here buffer (count * 2) (t.hole i).h_len
                            ∙ en,
                        l.kept (count * 2 + 1) (omega arith)
                            ∙ update_here b1 (count * 2 + 1) (t.hole i).h_base
                            ∙ eb,
                        l.shows,
                      );
                      kept = λ j h.
                          l.kept j (omega (arith, h))
                          ∙ update_there b1 (count * 2 + 1) (t.hole i).h_base j (ground (arith, h))
                          ∙ update_there buffer (count * 2) (t.hole i).h_len j (ground (arith, h));
                    }))))))
    ]

length-report : (sb m : ℕ) (cs : Cells) → length (report sb m (blocks cs)) ≤ length cs
unfolding report
length-report sb zero cs = omega arith
length-report sb (suc m) [] = omega arith
length-report sb (suc m) ((i, b, n) ∷ cs) = elim (Bool-cases (ltb b sb)) [
  | inl low ↦ rw low (omega (arith, length-report sb m cs))
  | inr swap ↦ rw swap (omega arith)
]

Shows-kept :
    (b b' : ℕ → ℕ) (i : ℕ) (bs : List Block)
    → ((j : ℕ) → j < (i + length bs) * 2 → b' j ≡ b j)
    → Shows b i bs
    → Shows b' i bs
Shows-kept b b' i [] kept s = tt
Shows-kept b b' i ((x, n) ∷ bs) kept (p, q, s) = (
  kept (i * 2) (omega arith) ∙ p,
  kept (i * 2 + 1) (omega arith) ∙ q,
  Shows-kept b b' (suc i) bs (λ j h. kept j (omega (arith, h))) s,
)

-- The answer for the blocks `shown`.
abbrev Answer :
    (nr_holes swap_base nbytes : ℕ) (buffer : ℕ → ℕ) (t : HoleTable) → List Block → Type 0
Answer nr sb nbytes buffer t shown =
    (b : ℕ → ℕ) × (do_hole_map nr sb nbytes buffer t ≡ ok (length shown, b))
    × Shows b 0 shown
    × (length shown < nbytes / 8 → b (length shown * 2) ≡ 0)

-- In a well-formed table do_hole_map never writes behind the end of its buffer. Its answer is the
-- number of holes that it reports: those below the swap area, from the start of the list on, up to
-- the number that the caller has room for. The buffer holds their lengths and bases in order, and
-- a 0 behind them if there is room for one more.
pub do_hole_map-Shows :
    (nr_holes swap_base nbytes : ℕ) (buffer : ℕ → ℕ) (t : HoleTable) (bs : List Block)
    → Holds nr_holes t bs
    → let shown = report swap_base (nbytes / 8) bs in
      (b : ℕ → ℕ) × (do_hole_map nr_holes swap_base nbytes buffer t ≡ ok (length shown, b))
      × Shows b 0 shown
      × (length shown < nbytes / 8 → b (length shown * 2) ≡ 0)
unfolding do_hole_map
do_hole_map-Shows nr sb nbytes buffer t bs h =
    let m = nbytes / 8 in
    let l =
      looped (suc nr) nr sb m m t.hole_head h.cells 0 buffer t h.is_holes.holes
        (omega (arith, h.all_slots)) (omega (arith, h.all_slots)) (omega arith) in
    let shown = report sb m (blocks h.cells) in
    let n = length shown in
    let few : n < suc nr = omega (arith, length-report sb m h.cells, h.all_slots) in
    let run : hole_map_loop (suc nr) nr sb m t.hole_head 0 buffer t ≡ ok (n, l.after) =
      l.run ∙ ap (λ x. ok (x, l.after)) (omega arith) in
    let answer : Answer nr sb nbytes buffer t shown = elim (Bool-cases (ltb n m)) [
      | inl more ↦ (
        update l.after (n * 2) 0,
        rw run (rw more (rw (store-ok nr (n * 2) 0 l.after (omega (arith, few))) refl)),
        Shows-kept l.after (update l.after (n * 2) 0) 0 shown
            (λ j low. update_there l.after (n * 2) 0 j (ground (arith, low))) l.shows,
        λ low. update_here l.after (n * 2) 0,
      )
      | inr full ↦
          (l.after, rw run (rw full refl), l.shows, λ low. absurd (ground (arith, low, full)))
    ] in
    subst (λ xs. Answer nr sb nbytes buffer t (report sb m xs)) h.view answer
