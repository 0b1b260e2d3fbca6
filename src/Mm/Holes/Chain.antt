-- ===== src/Mm/Holes/Chain.antt =====
-- What a chain of table entries stands for: the entries in order, each with its block.
use soi_24z.Base.{ℕ, ◌≡◌, refl, false, none, some, List, [], ◌∷◌, ◌++◌, arith, Ptr, update, has}
use soi_24z.Mm.Holes.{Hole}

-- Slot, base and length of each hole.
abbrev pub Cells : Type 0
Cells = List (ℕ × ℕ × ℕ)

abbrev pub slots : Cells → List ℕ
slots [] = []
slots ((i, b, n) ∷ cs) = i ∷ slots cs

-- From `p` the links lead through the entries of `cs`, which hold their blocks, to `q`.
abbrev pub Seg : (ℕ → Hole) → Ptr → Cells → Ptr → Type 0
Seg t p [] q = p ≡ q
Seg t p ((i, b, n) ∷ cs) q =
    (p ≡ some i) × ((t i).h_base ≡ b) × ((t i).h_len ≡ n) × Seg t (t i).h_next cs q

-- The list of unused entries.
abbrev pub Unused : (ℕ → Hole) → Ptr → List ℕ → Type 0
Unused t p [] = p ≡ none
Unused t p (i ∷ is) = (p ≡ some i) × Unused t (t i).h_next is

pub slots-append : (cs ds : Cells) → slots (cs ++ ds) ≡ slots cs ++ slots ds
slots-append [] ds = refl
slots-append ((i, b, n) ∷ cs) ds = rw (slots-append cs ds)

-- A write to an entry outside the segment leaves it as it is.
pub Seg-update :
    (t : ℕ → Hole) (p : Ptr) (cs : Cells) (q : Ptr) (a : ℕ) (h : Hole)
    → has a (slots cs) ≡ false
    → Seg t p cs q
    → Seg (update t a h) p cs q
Seg-update t p [] q a h out s = s
Seg-update t p ((i, b, n) ∷ cs) q a h out (e, eb, en, s) =
    let same : update t a h i ≡ t i = ground arith in
    rw same (e, eb, en, Seg-update t (t i).h_next cs q a h (ground arith) s)

pub Unused-update :
    (t : ℕ → Hole) (p : Ptr) (is : List ℕ) (a : ℕ) (h : Hole)
    → has a is ≡ false
    → Unused t p is
    → Unused (update t a h) p is
Unused-update t p [] a h out s = s
Unused-update t p (i ∷ is) a h out (e, s) =
    let same : update t a h i ≡ t i = ground arith in
    rw same (e, Unused-update t (t i).h_next is a h (ground arith) s)

pub Seg-append :
    (t : ℕ → Hole) (p : Ptr) (cs : Cells) (q : Ptr) (ds : Cells) (r : Ptr)
    → Seg t p cs q
    → Seg t q ds r
    → Seg t p (cs ++ ds) r
Seg-append t p [] q ds r s u = rw s u
Seg-append t p ((i, b, n) ∷ cs) q ds r (e, eb, en, s) u =
    (e, eb, en, Seg-append t (t i).h_next cs q ds r s u)

pub Seg-split :
    (t : ℕ → Hole) (p : Ptr) (cs ds : Cells) (r : Ptr)
    → Seg t p (cs ++ ds) r
    → (q : Ptr) × Seg t p cs q × Seg t q ds r
Seg-split t p [] ds r s = (p, refl, s)
Seg-split t p ((i, b, n) ∷ cs) ds r (e, eb, en, s) =
    let (q, u, v) = Seg-split t (t i).h_next cs ds r s in (q, (e, eb, en, u), v)

-- New contents for the entry `i` of a chain, with a new chain behind it.
pub Seg-replace :
    (t : ℕ → Hole) (p : Ptr) (pre : Cells) (i b n : ℕ) (rest ds : Cells) (h : Hole) (b' n' : ℕ)
    → has i (slots pre) ≡ false
    → has i (slots ds) ≡ false
    → Seg t p (pre ++ (i, b, n) ∷ rest) none
    → h.h_base ≡ b'
    → h.h_len ≡ n'
    → Seg t h.h_next ds none
    → Seg (update t i h) p (pre ++ (i, b', n') ∷ ds) none
Seg-replace t p pre i b n rest ds h b' n' out outs s eb en u =
    let (q, front, back) = Seg-split t p pre ((i, b, n) ∷ rest) none s in
    let same : update t i h i ≡ h = ground arith in
    let behind : Seg (update t i h) (update t i h i).h_next ds none =
      rw same (Seg-update t h.h_next ds none i h outs u) in
    Seg-append (update t i h) p pre q ((i, b', n') ∷ ds) none (Seg-update t p pre q i h out front)
      (back.0, rw same eb, rw same en, behind)

-- What an entry in the middle of a chain holds.
pub Seg-at :
    (t : ℕ → Hole) (p : Ptr) (pre : Cells) (i b n : ℕ) (ds : Cells)
    → Seg t p (pre ++ (i, b, n) ∷ ds) none
    → ((t i).h_base ≡ b) × ((t i).h_len ≡ n) × Seg t (t i).h_next ds none
Seg-at t p pre i b n ds s =
    let (q, front, (e, eb, en, back)) = Seg-split t p pre ((i, b, n) ∷ ds) none s in (eb, en, back)
