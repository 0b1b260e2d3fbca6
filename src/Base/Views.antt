-- ===== src/Base/Views.antt =====
-- A linked queue with a head and a tail pointer, as a list, and the writes that its users make.
use mathlib.Core.Path.{◌≡◌, refl, sym, ◌∙◌}
use mathlib.Core.Bool.{false}
use mathlib.Core.Option.{none, some}
use mathlib.Core.List.{List, [], ◌∷◌, ◌++◌}
use native.Mathlib.Omega.{arith}
use Prim.Native.Nat.{ℕ}
use soi_24z.Base.Tests.{Ptr, ptr_eq}
use soi_24z.Base.Lists.{has, has-append, Distinct}
use soi_24z.Base.Links.{
  Chain, last_ptr, last_ptr-append, Distinct-append, Relinked, Chain-outside, Chain-cut,
  Chain-append, Chain-split,
}

-- The tail pointer of a queue that is not empty leads to its last entry.
abbrev pub TailAt : Ptr → List ℕ → Type 0
TailAt p [] = Unit
TailAt p (x ∷ xs) = p ≡ last_ptr (some x) xs

-- The queue holds the entries `xs`, in order, each once.
pub record View (next : ℕ → Ptr) (head tail : Ptr) (xs : List ℕ) : Type 0 where
  pub chain : Chain next head xs none
  pub last : TailAt tail xs
  pub distinct : Distinct xs

Distinct-snoc : (xs : List ℕ) (a : ℕ) → has a xs ≡ false → Distinct xs → Distinct (xs ++ a ∷ [])
Distinct-snoc [] a h d = (refl, tt)
Distinct-snoc (x ∷ xs) a h (out, d) =
    (ground (arith, has-append x xs (a ∷ [])), Distinct-snoc xs a (ground arith) d)

Distinct-drop :
    (front : List ℕ) (a b : ℕ) (back : List ℕ)
    → Distinct (front ++ a ∷ b ∷ back)
    → Distinct (front ++ a ∷ back)
Distinct-drop [] a b back (out, (_, d)) = (ground arith, d)
Distinct-drop (x ∷ front) a b back (out, d) = (
  ground (arith, has-append x front (a ∷ b ∷ back), has-append x front (a ∷ back)),
  Distinct-drop front a b back d,
)

pub TailAt-snoc : (xs : List ℕ) (a : ℕ) → TailAt (some a) (xs ++ a ∷ [])
TailAt-snoc [] a = refl
TailAt-snoc (x ∷ xs) a = sym (last_ptr-append (some x) xs a)

-- The tail after the entry `b` was taken out behind `a`.
TailAt-drop :
    (front : List ℕ) (a b c : ℕ) (back : List ℕ) (t : Ptr)
    → TailAt t (front ++ a ∷ b ∷ c ∷ back)
    → TailAt t (front ++ a ∷ c ∷ back)
TailAt-drop [] a b c back t h = h
TailAt-drop (x ∷ front) a b c back t h = h ∙ same (some x) front
  where
    same :
        (q : Ptr) (xs : List ℕ)
        → last_ptr q (xs ++ a ∷ b ∷ c ∷ back) ≡ last_ptr q (xs ++ a ∷ c ∷ back)
    same q [] = refl
    same q (y ∷ ys) = same (some y) ys

module _ (next next' : ℕ → Ptr) (head tail : Ptr) where
  pub push_front :
      (xs : List ℕ) (a : ℕ)
      → View next head tail xs
      → TailAt tail (a ∷ xs)
      → Relinked next next' a head
      → has a xs ≡ false
      → View next' (some a) tail (a ∷ xs)
  push_front xs a v last re out = record {
    chain = (refl, rw (re.here) (Chain-outside next next' a head re head xs none out v.chain));
    last = last;
    distinct = (out, v.distinct);
  }

  -- The link of the entry `a` is led past the entry `b` behind it.
  pub unlink_behind :
      (front : List ℕ) (a b c : ℕ) (back : List ℕ)
      → View next head tail (front ++ a ∷ b ∷ c ∷ back)
      → Relinked next next' a (next b)
      → View next' head tail (front ++ a ∷ c ∷ back)
  unlink_behind front a b c back v re =
      let (df, da, off) = Distinct-append front (a ∷ b ∷ c ∷ back) v.distinct in
      let (m, u, (e, (eb, w))) = Chain-split next head front (a ∷ b ∷ c ∷ back) none v.chain in
      record {
        chain =
            Chain-append next' head front m (a ∷ c ∷ back) none
              (Chain-outside next next' a (next b) re head front m (ground (arith, off a)) u)
              (
                e,
                rw (re.here) (
                    Chain-outside next next' a (next b) re (next b) (c ∷ back) none
                      (ground (arith, da.0)) w),
              );
        last = TailAt-drop front a b c back tail v.last;
        distinct = Distinct-drop front a b (c ∷ back) v.distinct;
      }

  -- The same for the last entry, which takes the tail along.
  pub unlink_last :
      (front : List ℕ) (a b : ℕ)
      → View next head tail (front ++ a ∷ b ∷ [])
      → Relinked next next' a (next b)
      → View next' head (some a) (front ++ a ∷ [])
  unlink_last front a b v re =
      let (df, da, off) = Distinct-append front (a ∷ b ∷ []) v.distinct in
      let (m, u, (e, (eb, w))) = Chain-split next head front (a ∷ b ∷ []) none v.chain in
      record {
        chain =
            Chain-append next' head front m (a ∷ []) none
              (Chain-outside next next' a (next b) re head front m (ground (arith, off a)) u)
              (e, re.here ∙ w);
        last = TailAt-snoc front a;
        distinct = Distinct-drop front a b [] v.distinct;
      }

-- A new entry behind the last one, `l`.
pub push_back :
    (next next' next'' : ℕ → Ptr) (head tail : Ptr) (front : List ℕ) (l a : ℕ)
    → View next head tail (front ++ l ∷ [])
    → Relinked next next' l (some a)
    → Relinked next' next'' a none
    → has a (front ++ l ∷ []) ≡ false
    → View next'' head (some a) ((front ++ l ∷ []) ++ a ∷ [])
push_back next next' next'' head tail front l a v re re' out =
    let (df, dl, off) = Distinct-append front (l ∷ []) v.distinct in
    let cut : Chain next' head (front ++ l ∷ []) (some a) =
      Chain-cut next next' l (some a) re head front [] none (ground (arith, off l)) v.chain in
    record {
      chain =
          Chain-append next'' head (front ++ l ∷ []) (some a) (a ∷ []) none
            (Chain-outside next' next'' a none re' head (front ++ l ∷ []) (some a) out cut)
            (refl, re'.here);
      last = TailAt-snoc (front ++ l ∷ []) a;
      distinct = Distinct-snoc (front ++ l ∷ []) a out v.distinct;
    }

pub drop_head :
    (next : ℕ → Ptr) (head tail : Ptr) (x : ℕ) (y : ℕ) (xs : List ℕ)
    → View next head tail (x ∷ y ∷ xs)
    → View next (next x) tail (y ∷ xs)
drop_head next head tail x y xs v = record {
  chain = v.chain.1;
  last = v.last;
  distinct = v.distinct.1;
}

-- The tail pointer of a queue leads to none of the entries in front of its last one.
pub tail_not :
    (t : Ptr) (front : List ℕ) (a c : ℕ) (back : List ℕ)
    → TailAt t (front ++ a ∷ c ∷ back)
    → Distinct (front ++ a ∷ c ∷ back)
    → ptr_eq t (some a) ≡ false
tail_not t [] a c back h d = h_last (some c) c back h d.0
  where
    h_last :
        (q : Ptr) (c : ℕ) (xs : List ℕ)
        → t ≡ last_ptr (some c) xs
        → has a (c ∷ xs) ≡ false
        → ptr_eq t (some a) ≡ false
    h_last q c [] e o = rw e (ground arith)
    h_last q c (y ∷ ys) e o = h_last q y ys e (ground arith)
tail_not t (x ∷ []) a c back h d = tail_not t [] a c back h d.1
tail_not t (x ∷ (y ∷ front)) a c back h d = tail_not t (y ∷ front) a c back h d.1

pub TailAt-cons :
    (t : Ptr) (a : ℕ) (front : List ℕ) (l : ℕ) (back : List ℕ)
    → TailAt t (front ++ l ∷ back)
    → TailAt t (a ∷ front ++ l ∷ back)
TailAt-cons t a [] l back h = h
TailAt-cons t a (x ∷ front) l back h = h

pub TailAt-of_cons :
    (t : Ptr) (a : ℕ) (front : List ℕ) (l : ℕ) (back : List ℕ)
    → TailAt t ((a ∷ front) ++ l ∷ back)
    → TailAt t (front ++ l ∷ back)
TailAt-of_cons t a [] l back h = h
TailAt-of_cons t a (x ∷ front) l back h = h
