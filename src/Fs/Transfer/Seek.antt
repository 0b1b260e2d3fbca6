-- ===== src/Fs/Transfer/Seek.antt =====
-- The way through a chain to the block with an offset.
use soi_24z.Base.{
  ℕ, zero, suc, ◌+◌, ◌-◌, ◌*◌, ◌<◌, ◌≤◌, ◌≡◌, refl, ap, ◌∙◌, false, some, inl, inr, List, [], ◌∷◌,
  arith, leb, Bool-cases, ok, length, Distinct, has,
}
use soi_24z.Fs.{FileSystem, BlockNr, free_block, end_of_chain, block}
use soi_24z.Fs.Blocks.{ChainOf}
use soi_24z.Fs.Transfer.{seek, seek_write}

-- The rest of the chain `bs` from the block of `offset` on, and the offset in that block.
pub record Sought (fuel offset : ℕ) (b : BlockNr) (bs : List ℕ) (fs : FileSystem) : Type 0 where
  pub at : ℕ
  pub rest : List ℕ
  pub within : ℕ
  pub reads : seek fuel offset b fs ≡ ok (block at, within)
  pub writes : seek_write fuel offset b fs ≡ ok (some (block at, within))
  pub small : within < 32
  pub chain : ChainOf fs.fat (fs.fat at) rest
  pub distinct : Distinct (at ∷ rest)
  pub room : offset + 32 * suc (length rest) ≡ within + 32 * length bs
  pub part : (n : ℕ) → has n bs ≡ false → has n (at ∷ rest) ≡ false

pub seek-Sought :
    (fuel offset : ℕ) (b : BlockNr) (bs : List ℕ) (fs : FileSystem)
    → ChainOf fs.fat b bs
    → Distinct bs
    → offset < 32 * length bs
    → offset < fuel
    → Sought fuel offset b bs fs
unfolding seek seek_write
seek-Sought zero offset b bs fs c d lt enough = absurd (omega arith)
seek-Sought (suc fuel) offset b [] fs c d lt enough = absurd (omega arith)
seek-Sought (suc fuel) offset b (n ∷ []) fs (e, c) d lt enough =
    let near : leb 32 offset ≡ false = ground arith in
    record {
      at = n;
      rest = [];
      within = offset;
      reads = rw (near, seek) (ap (λ x. ok (x, offset)) e);
      writes = rw (near, seek_write) (ap (λ x. ok (some (x, offset))) e);
      small = omega arith;
      chain = c;
      distinct = d;
      room = refl;
      part = λ m h. h;
    }
seek-Sought (suc fuel) offset b (n ∷ m ∷ bs) fs (e, (e', c)) d lt enough =
    elim (Bool-cases (leb 32 offset)) [
      | inr near ↦ record {
        at = n;
        rest = m ∷ bs;
        within = offset;
        reads = rw (near, seek) (ap (λ x. ok (x, offset)) e);
        writes = rw (near, seek_write) (ap (λ x. ok (some (x, offset))) e);
        small = ground (arith, near);
        chain = (e', c);
        distinct = d;
        room = refl;
        part = λ k h. h;
      }
      | inl far ↦
          let ge : 32 ≤ offset = ground (arith, far) in
          let s =
            seek-Sought fuel (offset - 32) (block m) (m ∷ bs) fs (refl, c) d.1 (omega arith)
              (omega arith) in
          record {
            at = s.at;
            rest = s.rest;
            within = s.within;
            reads = rw (far, seek, e, e') s.reads;
            writes = rw (far, seek_write, e, e') s.writes;
            small = s.small;
            chain = s.chain;
            distinct = s.distinct;
            room = omega (arith, s.room);
            part = λ k h. s.part k (ground (arith, h));
          }
    ]

-- The way depends on the table of blocks alone.
pub seek-same :
    (fuel offset : ℕ) (b : BlockNr) (fs fs' : FileSystem)
    → fs'.fat ≡ fs.fat
    → seek fuel offset b fs' ≡ seek fuel offset b fs
unfolding seek
seek-same zero offset b fs fs' e = refl
seek-same (suc fuel) offset free_block fs fs' e = ground arith
seek-same (suc fuel) offset end_of_chain fs fs' e = ground arith
seek-same (suc fuel) offset (block n) fs fs' e = elim (Bool-cases (leb 32 offset)) [
  | inr near ↦ rw (near, seek) refl
  | inl far ↦
      let next : fs'.fat n ≡ fs.fat n = ap (λ (f : ℕ → BlockNr). f n) e in
      rw (far, seek)
        (ap (λ b. seek fuel (offset - 32) b fs') next
          ∙ seek-same fuel (offset - 32) (fs.fat n) fs fs' e)
]
