-- ===== src/Mm/Holes/Slots.antt =====
-- `del_slot`: taking an entry out of the hole list.
use soi_24z.Base.{
  Distinct-append, ℕ, ◌≡◌, refl, true, false, none, some, List, [], ◌∷◌, ◌++◌, arith, Ptr, ptr_eq,
  update, has, has-append, Distinct, ok, Run,
}
use mathlib.Core.List.{append_assoc}
use soi_24z.Mm.Holes.{Hole, HoleTable, set_next, release, del_slot}
use soi_24z.Mm.Holes.Chain.{
  Cells, slots, Seg, Unused, slots-append, Seg-update, Unused-update, Seg-at, Seg-replace,
}

-- The table holds the chain `cs` of holes and the chain `is` of unused entries.
pub record IsHoles (t : HoleTable) (cs : Cells) (is : List ℕ) : Type 0 where
  pub holes : Seg t.hole t.hole_head cs none
  pub unused : Unused t.hole t.free_slots is
  pub distinct : Distinct (slots cs ++ is)

abbrev pub Outcome : Run HoleTable → Cells → List ℕ → Type 0
Outcome r cs is = (t : HoleTable) × (r ≡ ok t) × IsHoles t cs is

-- The entry `i` in the middle of the distinct entries: nothing else goes by its slot.
pub record Apart (pre suf is : List ℕ) (i : ℕ) : Type 0 where
  pub not_before : has i pre ≡ false
  pub not_behind : has i suf ≡ false
  pub not_unused : has i is ≡ false

pub apart : (pre suf is : List ℕ) (i : ℕ) → Distinct ((pre ++ i ∷ suf) ++ is) → Apart pre suf is i
apart pre suf is i d =
    let (dx, dy, off) = Distinct-append (pre ++ i ∷ suf) is d in
    let (dp, ds, sep) = Distinct-append pre (i ∷ suf) dx in
    record {
      not_before = ground (arith, sep i);
      not_behind = ds.0;
      not_unused = ground (arith, off i, has-append i pre (i ∷ suf));
    }

pub Apart-next :
    (pre suf is : List ℕ) (p i : ℕ)
    → Distinct ((pre ++ p ∷ i ∷ suf) ++ is)
    → Apart (pre ++ p ∷ []) suf is i
Apart-next pre suf is p i d =
    apart (pre ++ p ∷ []) suf is i (rw (append_assoc pre (p ∷ []) (i ∷ suf)) d)

pub Distinct-move :
    (pre suf is : List ℕ) (i : ℕ)
    → Distinct ((pre ++ i ∷ suf) ++ is)
    → Distinct ((pre ++ suf) ++ i ∷ is)
Distinct-move [] [] is i d = d
Distinct-move [] (x ∷ suf) is i (out, (outx, d)) = (
  ground (arith, has-append x suf is, has-append x suf (i ∷ is)),
  Distinct-move [] suf is i (ground arith, d),
)
Distinct-move (x ∷ pre) suf is i (out, d) = (
  ground (
    arith,
    has-append x (pre ++ i ∷ suf) is,
    has-append x pre (i ∷ suf),
    has-append x (pre ++ suf) (i ∷ is),
    has-append x pre suf,
  ),
  Distinct-move pre suf is i d,
)

Distinct-move_next :
    (pre suf is : List ℕ) (p i : ℕ)
    → Distinct ((pre ++ p ∷ i ∷ suf) ++ is)
    → Distinct ((pre ++ p ∷ suf) ++ i ∷ is)
Distinct-move_next pre suf is p i d =
    let moved : Distinct (((pre ++ p ∷ []) ++ suf) ++ i ∷ is) =
      Distinct-move (pre ++ p ∷ []) suf is i (rw (append_assoc pre (p ∷ []) (i ∷ suf)) d) in
    rw (append_assoc pre (p ∷ []) suf) at moved

release-Unused :
    (t : HoleTable) (is : List ℕ) (i : ℕ)
    → has i is ≡ false
    → Unused t.hole t.free_slots is
    → Unused (release i t).hole (some i) (i ∷ is)
release-Unused t is i out u =
    let freed : Hole = record (t.hole i) { h_next = t.free_slots } in
    let same : update t.hole i freed i ≡ freed = ground arith in
    (refl, rw same (Unused-update t.hole t.free_slots is i freed out u))

-- The head of a chain is not an entry that stands further down.
not_first :
    (t : ℕ → Hole) (p : Ptr) (pre : Cells) (c : ℕ × ℕ × ℕ) (suf : Cells) (i : ℕ)
    → has i (slots (pre ++ c ∷ [])) ≡ false
    → Seg t p (pre ++ c ∷ suf) none
    → ptr_eq (some i) p ≡ false
not_first t p [] (j, b, n) suf i out (e, _, _, s) = rw e (ground arith)
not_first t p ((j, b, n) ∷ pre) c suf i out (e, _, _, s) = rw e (ground arith)

module _ (t : HoleTable) (i b n : ℕ) (suf : Cells) (is : List ℕ) where
  pub del_slot-head :
      (prev_ptr : Ptr)
      → IsHoles t ((i, b, n) ∷ suf) is
      → Outcome (del_slot prev_ptr i t) suf (i ∷ is)
  unfolding del_slot
  del_slot-head prev_ptr h =
      let a = apart [] (slots suf) is i h.distinct in
      let at : ptr_eq (some i) t.hole_head ≡ true = ground (arith, h.holes.0) in
      (
        release i (record t { hole_head = (t.hole i).h_next }),
        rw at,
        record {
          holes = Seg-update t.hole (t.hole i).h_next suf none i _ a.not_behind h.holes.3;
          unused =
              release-Unused (record t { hole_head = (t.hole i).h_next }) is i a.not_unused
                h.unused;
          distinct = Distinct-move [] (slots suf) is i h.distinct;
        },
      )

  pub del_slot-behind :
      (pre : Cells) (p bp np : ℕ)
      → IsHoles t (pre ++ (p, bp, np) ∷ (i, b, n) ∷ suf) is
      → Outcome (del_slot (some p) i t) (pre ++ (p, bp, np) ∷ suf) (i ∷ is)
  unfolding del_slot
  del_slot-behind pre p bp np h =
      let ns : Distinct ((slots pre ++ p ∷ i ∷ slots suf) ++ is) = rw slots-append at h.distinct in
      let a = apart (slots pre) (i ∷ slots suf) is p ns in
      let ai = Apart-next (slots pre) (slots suf) is p i ns in
      let (ebp, enp, (link, eb, en, back)) = Seg-at t.hole t.hole_head pre p bp np _ h.holes in
      let far : ptr_eq (some i) t.hole_head ≡ false =
        not_first t.hole t.hole_head pre (p, bp, np) ((i, b, n) ∷ suf) i
          (rw slots-append ai.not_before) h.holes in
      let u = set_next p (t.hole i).h_next t in
      let chain =
        Seg-replace t.hole t.hole_head pre p bp np ((i, b, n) ∷ suf) suf
          (record (t.hole p) { h_next = (t.hole i).h_next }) bp np a.not_before
          (ground (arith, a.not_behind)) h.holes ebp enp back in
      (
        release i u,
        rw far,
        record {
          holes =
              Seg-update u.hole t.hole_head (pre ++ (p, bp, np) ∷ suf) none i _
                (rw slots-append (
                  ground (
                    arith,
                    ai.not_before,
                    ai.not_behind,
                    has-append i (slots pre) (p ∷ []),
                    has-append i (slots pre) (p ∷ slots suf),
                  )))
                chain;
          unused =
              release-Unused u is i ai.not_unused
                (Unused-update t.hole t.free_slots is p _ a.not_unused h.unused);
          distinct = rw slots-append (Distinct-move_next (slots pre) (slots suf) is p i ns);
        },
      )
