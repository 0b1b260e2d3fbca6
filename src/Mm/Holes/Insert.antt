-- ===== src/Mm/Holes/Insert.antt =====
-- Linking a new entry into the hole list, in front or behind an entry.
use mathlib.Core.List.{append_assoc}
use soi_24z.Base.{
  ℕ, ◌≡◌, refl, false, none, some, List, [], ◌∷◌, ◌++◌, arith, has, has-append, Distinct, ap, subst,
}
use soi_24z.Mm.Holes.{Hole, HoleTable, set_next, take_slot}
use soi_24z.Mm.Holes.Chain.{
  Cells, slots, Seg, slots-append, Seg-update, Unused-update, Seg-at, Seg-replace,
}
use soi_24z.Mm.Holes.Slots.{IsHoles, apart}

pub Distinct-back :
    (pre suf is : List ℕ) (i : ℕ)
    → Distinct ((pre ++ suf) ++ i ∷ is)
    → Distinct ((pre ++ i ∷ suf) ++ is)
Distinct-back [] [] is i d = d
Distinct-back [] (x ∷ suf) is i (out, d) =
    let (out', d') = Distinct-back [] suf is i d in
    (
      ground (arith, has-append x suf (i ∷ is), has-append i (x ∷ suf) is),
      (ground (arith, has-append x suf (i ∷ is), has-append x suf is), d'),
    )
Distinct-back (x ∷ pre) suf is i (out, d) = (
  ground (
    arith,
    has-append x (pre ++ i ∷ suf) is,
    has-append x pre (i ∷ suf),
    has-append x (pre ++ suf) (i ∷ is),
    has-append x pre suf,
  ),
  Distinct-back pre suf is i d,
)

abbrev pub link_front : ℕ → HoleTable → HoleTable
link_front new t = record (set_next new t.hole_head t) { hole_head = some new }

abbrev pub link_behind : ℕ → ℕ → HoleTable → HoleTable
link_behind new p t = set_next p (some new) (set_next new (t.hole p).h_next t)

module _ (t : HoleTable) (new b n : ℕ) (is : List ℕ) where
  pub link_front-IsHoles :
      (cs : Cells)
      → IsHoles t cs (new ∷ is)
      → IsHoles (link_front new (take_slot new b n t)) ((new, b, n) ∷ cs) is
  link_front-IsHoles cs h =
      let d = Distinct-back [] (slots cs) is new h.distinct in
      let a = apart [] (slots cs) is new d in
      let f = (take_slot new b n t).hole in
      let g = (link_front new (take_slot new b n t)).hole in
      let same : g new ≡ record { h_next = t.hole_head; h_base = b; h_len = n } = ground arith in
      record {
        holes = (
          refl,
          rw same,
          rw same,
          rw same (
              Seg-update f t.hole_head cs none new _ a.not_behind
                (Seg-update t.hole t.hole_head cs none new _ a.not_behind h.holes)),
        );
        unused =
            Unused-update f (t.hole new).h_next is new _ a.not_unused
              (Unused-update t.hole (t.hole new).h_next is new _ a.not_unused h.unused.1);
        distinct = d;
      }

  pub link_behind-IsHoles :
      (pre : Cells) (p bp np : ℕ) (suf : Cells)
      → IsHoles t (pre ++ (p, bp, np) ∷ suf) (new ∷ is)
      → IsHoles
          (link_behind new p (take_slot new b n t))
          (pre ++ (p, bp, np) ∷ (new, b, n) ∷ suf)
          is
  link_behind-IsHoles pre p bp np suf h =
      let ns : Distinct ((slots pre ++ p ∷ slots suf) ++ new ∷ is) =
        rw slots-append at h.distinct in
      let a = apart (slots pre) (slots suf) (new ∷ is) p ns in
      let d : Distinct (((slots pre ++ p ∷ []) ++ new ∷ slots suf) ++ is) =
        Distinct-back (slots pre ++ p ∷ []) (slots suf) is new
          (rw (append_assoc (slots pre) (p ∷ []) (slots suf)) ns) in
      let an = apart (slots pre ++ p ∷ []) (slots suf) is new d in
      let t1 = take_slot new b n t in
      let t2 = set_next new (t1.hole p).h_next t1 in
      let off : has new (slots pre ++ p ∷ slots suf) ≡ false = ground (
        arith,
        an.not_before,
        an.not_behind,
        has-append new (slots pre) (p ∷ []),
        has-append new (slots pre) (p ∷ slots suf),
      ) in
      let out : has new (slots (pre ++ (p, bp, np) ∷ suf)) ≡ false = rw slots-append off in
      let chain : Seg t2.hole t.hole_head (pre ++ (p, bp, np) ∷ suf) none =
        Seg-update t1.hole t.hole_head _ none new _ out
          (Seg-update t.hole t.hole_head _ none new _ out h.holes) in
      let (ebp, enp, back) = Seg-at t2.hole t.hole_head pre p bp np suf chain in
      let same : t2.hole new ≡ record { h_next = (t1.hole p).h_next; h_base = b; h_len = n } =
        ground arith in
      let same_p : t2.hole p ≡ t1.hole p =
        ground (arith, off, has-append new (slots pre) (p ∷ slots suf)) in
      let tail : Seg t2.hole (t1.hole p).h_next suf none =
        subst (λ c. Seg t2.hole c suf none) (ap (λ (c : Hole). c.h_next) same_p) back in
      record {
        holes =
            Seg-replace t2.hole t.hole_head pre p bp np suf ((new, b, n) ∷ suf)
              (record (t2.hole p) { h_next = some new }) bp np a.not_before
              (ground (arith, off, has-append new (slots pre) (p ∷ slots suf), a.not_behind)) chain
              ebp enp (refl, rw same, rw same, rw same tail);
        unused = Unused-update t2.hole (t.hole new).h_next is p _ (ground (arith, a.not_unused)) (
            Unused-update t1.hole (t.hole new).h_next is new _ an.not_unused
              (Unused-update t.hole (t.hole new).h_next is new _ an.not_unused h.unused.1));
        distinct = rw slots-append (rw (append_assoc (slots pre) (p ∷ []) (new ∷ slots suf)) at d);
      }
