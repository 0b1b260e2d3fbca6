-- ===== src/Mm/Holes/Walk.antt =====
-- The loop of `free_mem`: the place of a block in the hole list.
use soi_24z.Base.{
  ℕ, zero, suc, ◌<◌, ◌≡◌, refl, ap, true, none, some, [], ◌∷◌, ◌++◌, arith, ltb, Bool-cases, inl,
  inr, Ptr, Run, ok, length, ltb→lt, ltb→le,
}
use soi_24z.Mm.Holes.{HoleTable, walk}
use soi_24z.Mm.Holes.Chain.{Cells, Seg}
use soi_24z.Mm.Holes.Merge.{blocks}
use soi_24z.Mm.Holes.Blocks.{AllBelow, From}

-- The place of a block in the list: behind `p`.
pub record Place (base : ℕ) (cs : Cells) (r : Run Ptr) : Type 0 where
  pub pre : Cells
  pub p : ℕ
  pub b : ℕ
  pub n : ℕ
  pub suf : Cells
  pub split : cs ≡ pre ++ (p, b, n) ∷ suf
  pub below : AllBelow base (blocks pre)
  pub last : b < base
  pub from : From base (blocks suf)
  pub found : r ≡ ok (some p)

pub walk-step :
    (t : HoleTable) (base fuel i b : ℕ) (prev_ptr hp : Ptr)
    → hp ≡ some i
    → (t.hole i).h_base ≡ b
    → ltb b base ≡ true
    → walk (suc fuel) base prev_ptr hp t ≡ walk fuel base (some i) (t.hole i).h_next t
unfolding walk
walk-step t base fuel i b prev_ptr hp e eb low = rw (e, walk) (rw (eb, low))

pub walk-Place :
    (t : HoleTable) (base fuel p b n : ℕ) (hp : Ptr) (cs : Cells)
    → Seg t.hole hp cs none
    → length cs < fuel
    → b < base
    → Place base ((p, b, n) ∷ cs) (walk fuel base (some p) hp t)
unfolding walk
walk-Place t base zero p b n hp cs s fuel h = absurd (omega arith)
walk-Place t base (suc k) p b n hp [] s fuel h = record {
  pre = [];
  p = p;
  b = b;
  n = n;
  suf = [];
  split = refl;
  below = tt;
  last = h;
  from = tt;
  found = rw (s, walk);
}
walk-Place t base (suc k) p b n hp ((i, b', n') ∷ cs) (e, eb, en, s) fuel h =
    elim (Bool-cases (ltb b' base)) [
      | inl low ↦
          let r =
            walk-Place t base k i b' n' (t.hole i).h_next cs s (omega arith) (ltb→lt b' base low) in
          record {
            pre = (p, b, n) ∷ r.pre;
            p = r.p;
            b = r.b;
            n = r.n;
            suf = r.suf;
            split = ap (λ (l : Cells). (p, b, n) ∷ l) r.split;
            below = (h, r.below);
            last = r.last;
            from = r.from;
            found = rw (e, walk) (rw (eb, low) r.found);
          }
      | inr high ↦ record {
        pre = [];
        p = p;
        b = b;
        n = n;
        suf = (i, b', n') ∷ cs;
        split = refl;
        below = tt;
        last = h;
        from = ltb→le b' base high;
        found = rw (e, walk) (rw (eb, high));
      }
    ]
