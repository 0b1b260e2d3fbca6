-- ===== src/Mm/Alloc.antt =====
-- The searches of memory-management/src/mm/alloc.c through the hole list, and the piece that is
-- taken from the hole found.
pub mod Search
pub mod Biggest
pub mod Bite
pub mod Fit
pub mod Back
pub mod Memory
use soi_24z.Base.{
  ℕ, zero, suc, ◌+◌, ◌-◌, ◌%◌, ◌^◌, Bool, true, false, not, ◌&&◌, ◌||◌, Option, none, some, ltb,
  leb, ◌==◌, if◌then◌else◌, u32, Ptr, Run, ok, out_of_fuel, ◌>>=◌,
}
use soi_24z.Mm.Holes.{Hole, HoleTable, put, del_slot}

-- a - b on 32 bits
abbrev pub sub32 : ℕ → ℕ → ℕ
sub32 a b = (a + 2 ^ 32 - b) % 2 ^ 32

-- What a search returns: the entry found, with the one before it.
abbrev pub Found : Type 0
Found = Option (Ptr × ℕ)

-- The inner loop of the first-fit branch of `alloc_mem`.
unfoldable pub first_fit : (fuel swap_base clicks : ℕ) → (prev_ptr hp : Ptr) → HoleTable → Run Found
first_fit zero swap_base clicks prev_ptr hp t = out_of_fuel
first_fit (suc fuel) swap_base clicks prev_ptr none t = ok none
first_fit (suc fuel) swap_base clicks prev_ptr (some hp) t =
    let rest = first_fit fuel swap_base clicks (some hp) (t.hole hp).h_next t in
    if ltb (t.hole hp).h_base swap_base
    then (if leb clicks (t.hole hp).h_len then ok (some (prev_ptr, hp)) else rest)
    else ok none

-- Is `hp` big enough, and bigger than the biggest hole so far?
better : (clicks : ℕ) → Found → ℕ → HoleTable → Bool
better clicks none hp t = leb clicks (t.hole hp).h_len
better clicks (some (_, biggest)) hp t =
    leb clicks (t.hole hp).h_len && ltb (t.hole biggest).h_len (t.hole hp).h_len

-- `findBiggestHole`; `best` is the biggest hole so far with the one before it.
unfoldable pub find_biggest_hole :
    (fuel swap_base clicks : ℕ) → (prev_ptr hp : Ptr) → (best : Found) → HoleTable → Run Found
unfolding better
find_biggest_hole zero swap_base clicks prev_ptr hp best t = out_of_fuel
find_biggest_hole (suc fuel) swap_base clicks prev_ptr none best t = ok best
find_biggest_hole (suc fuel) swap_base clicks prev_ptr (some hp) best t =
    let best' : Found = if better clicks best hp t then some (prev_ptr, hp) else best in
    let rest = find_biggest_hole fuel swap_base clicks (some hp) (t.hole hp).h_next best' t in
    if ltb (t.hole hp).h_base swap_base then rest else ok best

-- The search of `swap_out` for room in the swap area.
unfoldable pub find_swap : (fuel swap_base size : ℕ) → (prev_ptr hp : Ptr) → HoleTable → Run Found
find_swap zero swap_base size prev_ptr hp t = out_of_fuel
find_swap (suc fuel) swap_base size prev_ptr none t = ok none
find_swap (suc fuel) swap_base size prev_ptr (some hp) t =
    let rest = find_swap fuel swap_base size (some hp) (t.hole hp).h_next t in
    if leb swap_base (t.hole hp).h_base && leb size (t.hole hp).h_len
    then ok (some (prev_ptr, hp))
    else rest

-- Bite a piece off the hole `hp`, and delete the hole if it is used up.
unfoldable pub bite : (clicks : ℕ) (prev_ptr : Ptr) (hp : ℕ) → HoleTable → Run (ℕ × HoleTable)
unfolding del_slot
bite clicks prev_ptr hp t =
    let old_base = (t.hole hp).h_base in
    let left : Hole = record (t.hole hp) {
      h_base = u32 ((t.hole hp).h_base + clicks);
      h_len = sub32 (t.hole hp).h_len clicks;
    } in
    let t' = put hp left t in
    if left.h_len == 0
    then (do t'' ← del_slot prev_ptr hp t'; ok (old_base, t''))
    else ok (old_base, t')

-- One round of the loop of `alloc_mem`: search by the chosen strategy.
unfoldable pub search_hole :
    (nr_holes swap_base clicks : ℕ) (is_worst_fit : Bool) → HoleTable → Run Found
unfolding first_fit find_biggest_hole
search_hole nr_holes swap_base clicks is_worst_fit t =
    if is_worst_fit
    then find_biggest_hole (suc nr_holes) swap_base clicks none t.hole_head none t
    else first_fit (suc nr_holes) swap_base clicks none t.hole_head t

-- One round of the loop of `alloc_mem`; `none` is a search that found no hole.
unfoldable pub try_alloc :
    (nr_holes swap_base clicks : ℕ) (is_worst_fit : Bool) → HoleTable → Run (Option (ℕ × HoleTable))
unfolding search_hole bite
try_alloc nr_holes swap_base clicks is_worst_fit t = do
  found ← search_hole nr_holes swap_base clicks is_worst_fit t
  elim found [
    | none ↦ ok none
    | some (prev_ptr, hp) ↦ do taken ← bite clicks prev_ptr hp t; ok (some taken)
  ]
