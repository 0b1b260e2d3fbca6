-- ===== src/Fs/WellFormed.antt =====
-- The invariant of the virtual disk: each block belongs to one file at most, or is free.
use soi_24z.Base.{
  ℕ, zero, suc, ◌+◌, ◌*◌, ◌<◌, ◌≤◌, ◌≡◌, refl, ap, sym, ◌∙◌, subst, inl, inr, Bool, true, false,
  some, List, [], ◌∷◌, arith, ◌==◌, Bool-cases, eq_of_==, update, update_here, update_there, ok,
  length, Distinct, has,
}
use soi_24z.Fs.{FileSystem, FileDescriptor, BlockNr, is_free, name_eq, any_index, duplicate_name}
use soi_24z.Fs.Blocks.{ChainOf, ChainOf-same}
use soi_24z.Fs.Create.{Made, refused, made, create-Creation, first_blocks}
use soi_24z.Fs.Files.{FileCreateStatus, create, created}
use soi_24z.Fs.Grow.Links.{chain_used}
use soi_24z.Fs.Repair.{start_empty}

-- Each file has a chain of its own blocks, long enough for its size, and a name of its own; a block
-- of no file is free.
pub record IsWellFormed (fs : FileSystem) : Type 0 where
  pub blocks : ℕ → List ℕ
  pub chain : (i : ℕ) → i < fs.file_count → ChainOf fs.fat (fs.fd_table i).starting_block (blocks i)
  pub distinct : (i : ℕ) → i < fs.file_count → Distinct (blocks i)
  pub small : (i n : ℕ) → i < fs.file_count → has n (blocks i) ≡ true → n < 64
  pub apart :
      (i j n : ℕ)
      → i < fs.file_count
      → j < fs.file_count
      → (i == j) ≡ false
      → has n (blocks i) ≡ true
      → has n (blocks j) ≡ false
  pub unowned :
      (n : ℕ)
      → n < 64
      → ((i : ℕ) → i < fs.file_count → has n (blocks i) ≡ false)
      → is_free (fs.fat n) ≡ true
  pub covered :
      (i k : ℕ) → i < fs.file_count → (fs.fd_table i).size ≡ some k → k ≤ 32 * length (blocks i)
  pub names :
      (i j : ℕ)
      → i < fs.file_count
      → j < fs.file_count
      → (i == j) ≡ false
      → name_eq (fs.fd_table i).name (fs.fd_table j).name ≡ false

name_eq-sym : (xs ys : List ℕ) → name_eq xs ys ≡ name_eq ys xs
name_eq-sym [] [] = refl
name_eq-sym [] (y ∷ ys) = refl
name_eq-sym (x ∷ xs) [] = refl
name_eq-sym (x ∷ xs) (y ∷ ys) =
    let heads : (x == y) ≡ (y == x) = elim (Bool-cases (x == y)) [
      | inl same ↦ same ∙ sym (ground (arith, same))
      | inr other ↦ other ∙ sym (ground (arith, other))
    ] in
    rw (heads, name_eq-sym xs ys) refl

-- A search that fails has tried every index.
any_index-false :
    (left i : ℕ) (p : ℕ → Bool)
    → any_index left i p ≡ false
    → (j : ℕ) → i ≤ j
    → j < i + left
    → p j ≡ false
unfolding any_index
any_index-false zero i p h j ge lt = absurd (omega arith)
any_index-false (suc left) i p h j ge lt = elim (Bool-cases (j == i)) [
  | inl here ↦ rw (eq_of_== j i here) (ground (arith, h))
  | inr later ↦
      any_index-false left (suc i) p (ground (arith, h)) j (ground (arith, later)) (omega arith)
]

not_duplicate :
    (name : List ℕ) (fs : FileSystem)
    → duplicate_name name fs ≡ false
    → (j : ℕ) → j < 16
    → name_eq (fs.fd_table j).name name ≡ false
unfolding duplicate_name
not_duplicate name fs h j lt =
    any_index-false 16 0 (λ i. name_eq (fs.fd_table i).name name) h j (omega arith) (omega arith)

chain_in_use :
    (fat : ℕ → BlockNr) (b : BlockNr) (bs : List ℕ) (k : ℕ)
    → ChainOf fat b bs
    → has k bs ≡ true
    → is_free (fat k) ≡ false
chain_in_use fat b [] k c h = absurd (cc)
chain_in_use fat b (n ∷ bs) k (e, c) h = chain_used fat n bs k c h

first_blocks-covers : (size : ℕ) → size ≤ 32 * first_blocks size
first_blocks-covers zero = omega arith
first_blocks-covers (suc size) =
    let some_bytes : (suc size == 0) ≡ false = ground arith in rw some_bytes (omega arith)

module _ (name : List ℕ) (size : ℕ) (fs fs' : FileSystem) (w : IsWellFormed fs)
    (m : Made name size fs fs') where
  -- The blocks of each file, the new one included.
  abbrev owned : ℕ → List ℕ
  owned = update w.blocks fs.file_count m.blocks

  owned_old : (i : ℕ) → i < fs.file_count → owned i ≡ w.blocks i
  owned_old i lt = update_there w.blocks fs.file_count m.blocks i (ground (arith, lt))

  -- What holds of the new file and of the old ones holds of all.
  all_files :
      (P : ℕ → FileDescriptor → List ℕ → Type 0)
      → P fs.file_count (fs'.fd_table fs.file_count) m.blocks
      → ((i : ℕ) → i < fs.file_count → P i (fs.fd_table i) (w.blocks i))
      → (i : ℕ) → i < fs'.file_count
      → P i (fs'.fd_table i) (owned i)
  all_files P new old i lt = elim (Bool-cases (i == fs.file_count)) [
    | inl here ↦
        subst (λ j. P j (fs'.fd_table j) (owned j)) (sym (eq_of_== i fs.file_count here))
          (subst (P fs.file_count (fs'.fd_table fs.file_count))
            (sym (update_here w.blocks fs.file_count m.blocks)) new)
    | inr there ↦
        let below : i < fs.file_count = ground (arith, lt, m.count, there) in
        subst (λ f. P i f (owned i)) (sym (m.files i there))
          (subst (P i (fs.fd_table i)) (sym (owned_old i below)) (old i below))
  ]

  -- The blocks of the new file are none of an old one.
  new_apart : (i n : ℕ) → i < fs.file_count → has n m.blocks ≡ true → has n (w.blocks i) ≡ false
  new_apart i n lt new = elim (Bool-cases (has n (w.blocks i))) [
    | inr out ↦ out
    | inl old ↦
        let used =
          chain_in_use fs.fat (fs.fd_table i).starting_block (w.blocks i) n (w.chain i lt) old in
        let free = (m.were_free n new).0 in absurd (cc)
  ]

  old_apart : (i n : ℕ) → i < fs.file_count → has n (w.blocks i) ≡ true → has n m.blocks ≡ false
  old_apart i n lt old = elim (Bool-cases (has n m.blocks)) [
    | inr out ↦ out
    | inl new ↦ let out = new_apart i n lt new in absurd (cc)
  ]

  Made-IsWellFormed : fs.file_count < 16 → duplicate_name name fs ≡ false → IsWellFormed fs'
  Made-IsWellFormed room once =
      let fresh : (i : ℕ) → i < fs.file_count → name_eq (fs.fd_table i).name name ≡ false =
        λ i lt. not_duplicate name fs once i (omega (arith, room, lt)) in
      record {
        blocks = owned;
        chain =
            all_files (λ i f bs. ChainOf fs'.fat f.starting_block bs) m.chain
              (λ i lt.
                ChainOf-same fs.fat fs'.fat (fs.fd_table i).starting_block (w.blocks i)
                  (λ n old. m.others n (old_apart i n lt old)) (w.chain i lt));
        distinct = all_files (λ i f bs. Distinct bs) m.distinct w.distinct;
        small = λ i n lt.
            all_files (λ i f bs. has n bs ≡ true → n < 64) (λ new. (m.were_free n new).1)
              (λ i lt. w.small i n lt) i lt;
        apart = λ i j n lt lt'.
            all_files (λ i f bs. (i == j) ≡ false → has n bs ≡ true → has n (owned j) ≡ false)
              (λ off new.
                all_files (λ j f bs. (fs.file_count == j) ≡ false → has n bs ≡ false)
                  (λ off. absurd (ground (arith, off))) (λ j below off. new_apart j n below new) j
                  lt' off)
              (λ i below off old.
                all_files (λ j f bs. (i == j) ≡ false → has n bs ≡ false)
                  (λ off. old_apart i n below old)
                  (λ j below' off. w.apart i j n below below' off old) j lt' off)
              i lt;
        unowned = λ n lt no_file.
            let new : has n m.blocks ≡ false =
              subst (λ bs. has n bs ≡ false) (update_here w.blocks fs.file_count m.blocks)
                (no_file fs.file_count (omega (arith, m.count))) in
            subst (λ b. is_free b ≡ true) (sym (m.others n new))
              (w.unowned n lt (λ i below.
                subst (λ bs. has n bs ≡ false) (owned_old i below)
                  (no_file i (omega (arith, m.count, below)))));
        covered = λ i k lt.
            all_files (λ i f bs. f.size ≡ some k → k ≤ 32 * length bs)
              (λ e.
                let same : size ≡ k = ground (arith, sym m.sized ∙ e) in
                omega (arith, same, first_blocks-covers size, m.many))
              (λ i below. w.covered i k below) i lt;
        names = λ i j lt lt'.
            all_files (λ i f bs. (i == j) ≡ false → name_eq f.name (fs'.fd_table j).name ≡ false)
              (λ off.
                all_files
                  (λ j f bs.
                    (fs.file_count == j) ≡ false
                    → name_eq (fs'.fd_table fs.file_count).name f.name ≡ false)
                  (λ off. absurd (ground (arith, off)))
                  (λ j below off.
                    ap (λ s. name_eq s (fs.fd_table j).name) m.named
                    ∙ (name_eq-sym name (fs.fd_table j).name ∙ fresh j below))
                  j lt' off)
              (λ i below off.
                all_files (λ j f bs. (i == j) ≡ false → name_eq (fs.fd_table i).name f.name ≡ false)
                  (λ off. ap (name_eq (fs.fd_table i).name) m.named ∙ fresh i below)
                  (λ j below' off. w.names i j below below' off) j lt' off)
              i lt;
      }

-- `create` always ends, and a disk on which each file has a chain of blocks of its own, long enough
-- for its size, and a name of its own, and each other block is free, is still one afterwards.
pub create-IsWellFormed :
    (name : List ℕ) (size : ℕ) (fs : FileSystem)
    → IsWellFormed fs
    → (st : FileCreateStatus) × (fs' : FileSystem) × (create name size fs ≡ ok (st, fs'))
      × IsWellFormed fs'
create-IsWellFormed name size fs w = elim (create-Creation name size fs) [
  | refused st why run ↦ (st, fs, run, w)
  | made fs' room good once run m ↦
      (created, fs', run, Made-IsWellFormed name size fs fs' w m room once)
]

-- An empty disk is well formed.
pub start_empty-IsWellFormed : (fs : FileSystem) → IsWellFormed (start_empty fs)
start_empty-IsWellFormed fs = record {
  blocks = λ i. [];
  chain = λ i lt. absurd (omega (arith, lt));
  distinct = λ i lt. absurd (omega (arith, lt));
  small = λ i n lt h. absurd (omega (arith, lt));
  apart = λ i j n lt lt' off h. absurd (omega (arith, lt));
  unowned = λ n lt no_file. refl;
  covered = λ i k lt e. absurd (omega (arith, lt));
  names = λ i j lt lt' off. absurd (omega (arith, lt));
}
