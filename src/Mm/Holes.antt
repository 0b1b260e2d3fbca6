-- ===== src/Mm/Holes.antt =====
-- The hole table of memory-management/src/mm/alloc.c and the routines that link and unlink its
-- entries.
pub mod Chain
pub mod Slots
pub mod Walk
pub mod Free
pub mod Blocks
pub mod Insert
pub mod Merge
use soi_24z.Base.{
  ℕ, zero, suc, ◌+◌, ◌-◌, Bool, true, false, ◌&&◌, ◌||◌, Option, none, some, List, [], ◌∷◌, not,
  ltb, leb, ◌==◌, if◌then◌else◌, u32, Ptr, ptr_eq, update, Run, ok, panic, fault, out_of_fuel,
  ◌>>=◌,
}

-- One entry; `h_next` links it into the hole list or into the list of unused entries.
pub record Hole : Type 0 where
  pub h_next : Ptr
  pub h_base : ℕ
  pub h_len : ℕ

-- The static variables of the hole table.
pub record HoleTable : Type 0 where
  pub hole : ℕ → Hole
  pub hole_head : Ptr
  pub free_slots : Ptr

abbrev pub put : ℕ → Hole → HoleTable → HoleTable
put i h t = record t { hole = update t.hole i h }

abbrev pub set_next : ℕ → Ptr → HoleTable → HoleTable
set_next i q t = put i (record (t.hole i) { h_next = q }) t

-- The write that takes `hp` out of the hole list.
abbrev pub unlink : Ptr → ℕ → HoleTable → Run HoleTable
unlink prev_ptr hp t =
    if ptr_eq (some hp) t.hole_head
    then ok (record t { hole_head = (t.hole hp).h_next })
    else elim prev_ptr [ none ↦ fault | some p ↦ ok (set_next p (t.hole hp).h_next t) ]

abbrev pub release : ℕ → HoleTable → HoleTable
release hp t = record (set_next hp t.free_slots t) { free_slots = some hp }

unfoldable pub del_slot : Ptr → ℕ → HoleTable → Run HoleTable
del_slot prev_ptr hp t = do t' ← unlink prev_ptr hp t; ok (release hp t')

-- Does the block of `hp` end where the block of `next_ptr` starts?
abbrev pub touches : ℕ → ℕ → HoleTable → Bool
touches hp next_ptr t = u32 ((t.hole hp).h_base + (t.hole hp).h_len) == (t.hole next_ptr).h_base

unfoldable pub absorb : ℕ → ℕ → HoleTable → Run HoleTable
unfolding del_slot
absorb hp next_ptr t =
    let grown = record (t.hole hp) { h_len = u32 ((t.hole hp).h_len + (t.hole next_ptr).h_len) } in
    del_slot (some hp) next_ptr (put hp grown t)

-- The second half of `merge`: `hp` and its successor.
unfoldable pub merge_last : ℕ → HoleTable → Run HoleTable
unfolding absorb
merge_last hp t = elim ((t.hole hp).h_next) [
  | none ↦ ok t
  | some next_ptr ↦ if touches hp next_ptr t then absorb hp next_ptr t else ok t
]

unfoldable pub merge : ℕ → HoleTable → Run HoleTable
unfolding absorb merge_last
merge hp t = elim ((t.hole hp).h_next) [
  | none ↦ ok t
  | some next_ptr ↦
      if touches hp next_ptr t
      then (do t' ← absorb hp next_ptr t; merge_last hp t')
      else merge_last next_ptr t
]

-- The `while` of `free_mem`: the last entry below `base`, given the one before `hp`.
unfoldable pub walk : ℕ → ℕ → Ptr → Ptr → HoleTable → Run Ptr
walk zero base prev_ptr hp t = out_of_fuel
walk (suc fuel) base prev_ptr none t = ok prev_ptr
walk (suc fuel) base prev_ptr (some hp) t =
    let rest = walk fuel base (some hp) (t.hole hp).h_next t in
    if ltb (t.hole hp).h_base base then rest else ok prev_ptr

-- The entry `new_ptr` in front of the list.
insert_front : ℕ → HoleTable → Run HoleTable
unfolding merge
insert_front new_ptr t =
    merge new_ptr (record (set_next new_ptr t.hole_head t) { hole_head = some new_ptr })

-- The entry `new_ptr` behind `prev_ptr`.
insert_behind : ℕ → Ptr → HoleTable → Run HoleTable
unfolding merge
insert_behind new_ptr none t = fault
insert_behind new_ptr (some p) t =
    merge p (set_next p (some new_ptr) (set_next new_ptr (t.hole p).h_next t))

goes_front : ℕ → Ptr → HoleTable → Bool
goes_front base none t = true
goes_front base (some hp) t = leb base (t.hole hp).h_base

-- `nr_holes` rounds are enough for a loop over the hole list.
unfoldable pub link_in : (nr_holes base new_ptr : ℕ) → HoleTable → Run HoleTable
unfolding goes_front insert_front insert_behind walk
link_in nr_holes base new_ptr t =
    if goes_front base t.hole_head t
    then insert_front new_ptr t
    else do prev_ptr ← walk (suc nr_holes) base none t.hole_head t; insert_behind new_ptr prev_ptr t

-- The first unused entry, taken off its list and filled.
abbrev pub take_slot : (new_ptr base clicks : ℕ) → HoleTable → HoleTable
take_slot new_ptr base clicks t =
    let next = (t.hole new_ptr).h_next in
    let block : Hole = record { h_next = next; h_base = base; h_len = clicks } in
    record (put new_ptr block t) { free_slots = next }

unfoldable pub free_mem : (nr_holes base clicks : ℕ) → HoleTable → Run HoleTable
unfolding link_in
free_mem nr_holes base clicks t = if clicks == 0 then ok t else elim t.free_slots [
  | none ↦ panic
  | some new_ptr ↦ link_in nr_holes base new_ptr (take_slot new_ptr base clicks t)
]
