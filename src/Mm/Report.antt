-- ===== src/Mm/Report.antt =====
-- The calls do_hole_map and do_worst_fit of memory-management/src/mm/alloc.c. The array `buffer` of
-- do_hole_map is a function from indices, and a write behind its end a fault; what is copied to the
-- caller is the first `nbytes` bytes of it.
pub mod Shown
use soi_24z.Base.{
  ℕ, zero, suc, ◌+◌, ◌*◌, ◌/◌, Bool, true, false, ltb, ◌==◌, if◌then◌else◌, none, some, Ptr, update,
  Run, ok, panic, fault, out_of_fuel, ◌>>=◌,
}
use soi_24z.Mm.Holes.{HoleTable}

-- `buffer[i] = v`, for an array of NR_HOLES * 2 + 1 numbers.
abbrev pub store : (nr_holes i v : ℕ) → (ℕ → ℕ) → Run (ℕ → ℕ)
store nr_holes i v buffer = if ltb i (nr_holes * 2 + 1) then ok (update buffer i v) else fault

-- The loop of `do_hole_map`: the holes below the swap area, as far as there is room.
unfoldable pub hole_map_loop :
    (fuel nr_holes swap_base max_pairs : ℕ) (hp : Ptr) (count : ℕ)
    → (ℕ → ℕ)
    → HoleTable
    → Run (ℕ × (ℕ → ℕ))
hole_map_loop zero nr_holes swap_base max_pairs hp count buffer t = out_of_fuel
hole_map_loop (suc fuel) nr_holes swap_base max_pairs none count buffer t = ok (count, buffer)
hole_map_loop (suc fuel) nr_holes swap_base max_pairs (some hp) count buffer t =
    let h = t.hole hp in
    let write : Run (ℕ → ℕ) = (do
      b1 ← store nr_holes (count * 2) h.h_len buffer
      store nr_holes (count * 2 + 1) h.h_base b1) in
    let rest =
      λ (b : ℕ → ℕ). hole_map_loop fuel nr_holes swap_base max_pairs h.h_next (suc count) b t in
    if ltb count max_pairs
    then (if ltb h.h_base swap_base then (do b ← write; rest b) else ok (count, buffer))
    else ok (count, buffer)

-- The answer is the number of holes, with what the buffer holds.
unfoldable pub do_hole_map :
    (nr_holes swap_base nbytes : ℕ) (buffer : ℕ → ℕ) → HoleTable → Run (ℕ × (ℕ → ℕ))
unfolding hole_map_loop
do_hole_map nr_holes swap_base nbytes buffer t = do
  let max_pairs = nbytes / 8
  (count, b) ← hole_map_loop (suc nr_holes) nr_holes swap_base max_pairs t.hole_head 0 buffer t
  b' ← if ltb count max_pairs then store nr_holes (count * 2) 0 b else ok b
  ok (count, b')

-- The variable isWorstFit after the call.
abbrev pub do_worst_fit : (w : ℕ) (is_worst_fit : Bool) → Bool
do_worst_fit w is_worst_fit = if w == 0 then false else if w == 1 then true else is_worst_fit
