-- ===== src/Fs/Deleted/First.antt =====
-- The invariant of the virtual disk when delete_ takes its first file.
use soi_24z.Base.{
  ℕ, zero, suc, ◌<◌, ◌≤◌, ◌≡◌, refl, ap, sym, ◌∙◌, subst, inl, inr, true, false, some, List, arith,
  Bool-cases, ok, has, length-Distinct,
}
use soi_24z.Fs.{FileSystem, FileDescriptor, free_block, is_free, find_file_index_by_name, name_eq}
use soi_24z.Fs.Blocks.{ChainOf, ChainOf-same}
use soi_24z.Fs.Deleted.{Deleted, delete_file-Deleted, found_below}
use soi_24z.Fs.Files.{delete_file, deleted}
use soi_24z.Fs.WellFormed.{IsWellFormed}

Deleted-IsWellFormed :
    (fs fs' : FileSystem) (w : IsWellFormed fs)
    → 0 < fs.file_count
    → Deleted 0 (w.blocks 0) fs fs'
    → IsWellFormed fs'
Deleted-IsWellFormed fs fs' w pos del =
    let behind : (i : ℕ) → i < fs'.file_count → suc i < fs.file_count =
      λ i lt. omega (arith, del.count, lt) in
    let file : (i : ℕ) → i < fs'.file_count → fs'.fd_table i ≡ fs.fd_table (suc i) =
      λ i lt. del.moved i (behind i lt) in
    let kept : (n : ℕ) → has n (w.blocks 0) ≡ false → fs'.fat n ≡ fs.fat n =
      λ n out. del.freed n ∙ rw out refl in
    let first_apart : (i n : ℕ)
        → i < fs'.file_count
        → has n (w.blocks (suc i)) ≡ true
        → has n (w.blocks 0) ≡ false =
      λ i n lt h. w.apart (suc i) 0 n (behind i lt) pos (ground arith) h in
    record {
      blocks = λ i. w.blocks (suc i);
      chain = λ i lt.
          subst (λ (f : FileDescriptor). ChainOf fs'.fat f.starting_block (w.blocks (suc i)))
            (sym (file i lt))
            (ChainOf-same fs.fat fs'.fat (fs.fd_table (suc i)).starting_block (w.blocks (suc i))
              (λ n h. kept n (first_apart i n lt h)) (w.chain (suc i) (behind i lt)));
      distinct = λ i lt. w.distinct (suc i) (behind i lt);
      small = λ i n lt h. w.small (suc i) n (behind i lt) h;
      apart = λ i j n lt lt' off h.
          w.apart (suc i) (suc j) n (behind i lt) (behind j lt') (ground (arith, off)) h;
      unowned = λ n lt no_file. elim (Bool-cases (has n (w.blocks 0))) [
        | inl old ↦
            let freed : fs'.fat n ≡ free_block = del.freed n ∙ rw old refl in ap is_free freed
        | inr out ↦
            ap is_free (kept n out)
            ∙ w.unowned n lt (λ i. elim i as (λ i. i < fs.file_count → has n (w.blocks i) ≡ false) [
              | zero ↦ λ below. out
              | suc j ↦ λ below. no_file j (omega (arith, del.count, below))
            ])
      ];
      covered = λ i k lt e.
          w.covered (suc i) k (behind i lt)
            (ap (λ (f : FileDescriptor). f.size) (sym (file i lt)) ∙ e);
      names = λ i j lt lt' off.
          ap (λ (f : FileDescriptor). name_eq f.name (fs'.fd_table j).name) (file i lt)
          ∙ (ap (λ (f : FileDescriptor). name_eq (fs.fd_table (suc i)).name f.name) (file j lt')
              ∙ w.names (suc i) (suc j) (behind i lt) (behind j lt') (ground (arith, off)));
    }

-- On a disk on which each file has a chain of blocks of its own, long enough for its size, and a
-- name of its own, and each other block is free, with room for one more file and no more open files
-- than there are slots, `delete_` of the first file ends with that file gone, and the disk is still
-- such a one.
pub delete_file-IsWellFormed :
    (name : List ℕ) (fs : FileSystem) (w : IsWellFormed fs)
    → find_file_index_by_name name fs ≡ some 0
    → fs.file_count < 16
    → fs.opened_file_count ≤ 8
    → (fs' : FileSystem) × (delete_file name fs ≡ ok (deleted, fs'))
      × Deleted 0 (w.blocks 0) fs fs'
      × IsWellFormed fs'
delete_file-IsWellFormed name fs w found room slots =
    let pos = found_below name fs 0 found in
    let few = length-Distinct 64 (w.blocks 0) (w.distinct 0 pos) (λ n h. w.small 0 n pos h) in
    let (fs', run, del) =
      delete_file-Deleted name fs 0 (w.blocks 0) found (w.chain 0 pos) (w.distinct 0 pos)
        (omega (arith, few)) room slots in
    (fs', run, del, Deleted-IsWellFormed fs fs' w pos del)
