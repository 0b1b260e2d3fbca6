-- ===== src/Tests/Files.antt =====
-- The invariant of the virtual disk, a break-down, and a deletion, on a disk with one file.
use soi_24z.Base.{
  ℕ, zero, suc, ◌*◌, ◌<◌, ◌≤◌, ◌≡◌, refl, false, true, some, List, [], ◌∷◌, arith, ◌==◌,
  if◌then◌else◌, ok, has, length,
}
use soi_24z.Fs.{
  FileDescriptor, block, free_block, end_of_chain, empty_file_descriptor, FileSystem, first_index,
  find_file_index_by_name, is_free, count_free,
}
use soi_24z.Fs.Deleted.{Deleted, delete_file-Deleted}
use soi_24z.Fs.Deleted.First.{delete_file-IsWellFormed}
use soi_24z.Fs.Files.{FileCreateStatus, create, delete_file, deleted}
use soi_24z.Fs.Grow.{terminated, no_space}
use soi_24z.Fs.Grow.Undone.{Undone}
use soi_24z.Fs.Transfer.Full.{write_file-Undone}
use soi_24z.Fs.Recovery.{Broken, Recovered, write_file-Recovered}
use soi_24z.Fs.Repair.{start_up, start_empty}
use soi_24z.Fs.Transfer.{write_file}
use soi_24z.Fs.Transfer.Back.{IsOpen}
use soi_24z.Fs.WellFormed.{IsWellFormed, create-IsWellFormed, start_empty-IsWellFormed}
use soi_24z.Tests.Disk.{disk, disk-IsOpen}

abbrev broken_disk : FileSystem
broken_disk = record disk { malfunction_flag = true }

broken_disk-IsOpen : IsOpen (97 ∷ []) broken_disk 0 0 40 30 (0 ∷ 1 ∷ [])
unfolding find_file_index_by_name first_index
broken_disk-IsOpen = record {
  found = refl;
  in_table = omega arith;
  idx = refl;
  at = refl;
  has_size = refl;
  chain = (refl, (refl, refl));
  distinct = (refl, (refl, tt));
  covered = omega arith;
}

-- 40 bytes from offset 30 on need a third block.
abbrev forty : List ℕ
forty =
    1 ∷ 2 ∷ 3 ∷ 4 ∷ 5 ∷ 6 ∷ 7 ∷ 8 ∷ 9 ∷ 10 ∷ 1 ∷ 2 ∷ 3 ∷ 4 ∷ 5 ∷ 6 ∷ 7 ∷ 8 ∷ 9 ∷ 10 ∷ 1 ∷ 2 ∷ 3 ∷ 4
    ∷ 5 ∷ 6 ∷ 7 ∷ 8 ∷ 9 ∷ 10 ∷ 1 ∷ 2 ∷ 3 ∷ 4 ∷ 5 ∷ 6 ∷ 7 ∷ 8 ∷ 9 ∷ 10 ∷ []

write_file-Recovered_example :
    (crashed : FileSystem) × (fs' : FileSystem) × (write_file (97 ∷ []) forty broken_disk
      ≡ ok (terminated, crashed))
    × Broken broken_disk 0 (1 ∷ []) crashed
    × (start_up (record disk { disk = crashed.disk }) ≡ ok fs')
    × Recovered broken_disk 0 0 fs'
unfolding count_free
write_file-Recovered_example =
    write_file-Recovered (97 ∷ []) broken_disk 0 40 30 0 (1 ∷ []) forty disk broken_disk-IsOpen
      (record { fat = refl; fd_table = refl; memory = refl; file_count = refl }) refl (omega arith)
      (omega arith) (omega arith)

-- A file of one block, and one more that is free.
abbrev crowded_files : ℕ → FileDescriptor
crowded_files i =
    if i == 0
    then record { name = 97 ∷ []; starting_block = block 0; size = some 32 }
    else empty_file_descriptor

abbrev crowded : FileSystem
crowded = record disk {
  fat = λ i. if i == 1 then free_block else end_of_chain;
  fd_table = crowded_files;
}

crowded-IsOpen : IsOpen (97 ∷ []) crowded 0 0 32 30 (0 ∷ [])
unfolding find_file_index_by_name first_index
crowded-IsOpen = record {
  found = refl;
  in_table = omega arith;
  idx = refl;
  at = refl;
  has_size = refl;
  chain = (refl, refl);
  distinct = (refl, tt);
  covered = omega arith;
}

write_file-Undone_example :
    (fs' : FileSystem) × (write_file (97 ∷ []) forty crowded ≡ ok (no_space, fs'))
    × Undone crowded.fat crowded.fd_table crowded.memory crowded.file_count 0 0 fs'
unfolding count_free
write_file-Undone_example =
    write_file-Undone (97 ∷ []) crowded 0 32 30 0 forty crowded-IsOpen (omega arith) refl
      (omega arith)

delete_file-Deleted_example :
    (fs' : FileSystem) × (delete_file (97 ∷ []) disk ≡ ok (deleted, fs'))
    × Deleted 0 (0 ∷ 1 ∷ []) disk fs'
delete_file-Deleted_example =
    delete_file-Deleted (97 ∷ []) disk 0 (0 ∷ 1 ∷ []) disk-IsOpen.found disk-IsOpen.chain
      disk-IsOpen.distinct (omega arith) (omega arith) (omega arith)

abbrev disk_blocks : ℕ → List ℕ
disk_blocks i = if i == 0 then 0 ∷ 1 ∷ [] else []

only_first : (i : ℕ) → i < 1 → i ≡ 0
only_first i lt = omega (arith, lt)

disk_small : (i n : ℕ) → i < 1 → has n (disk_blocks i) ≡ true → n < 64
disk_small zero n lt h = ground (arith, h)
disk_small (suc i) n lt h = absurd (omega (arith, lt))

disk_covered : (i k : ℕ) → i < 1 → (disk.fd_table i).size ≡ some k → k ≤ 32 * length (disk_blocks i)
disk_covered zero k lt e = ground (arith, e)
disk_covered (suc i) k lt e = absurd (omega (arith, lt))

disk_unowned : (n : ℕ) → has n (0 ∷ 1 ∷ []) ≡ false → is_free (disk.fat n) ≡ true
disk_unowned n out =
    let not_0 : (n == 0) ≡ false = ground (arith, out) in
    let not_1 : (n == 1) ≡ false = ground (arith, out) in rw (not_0, not_1) refl

disk-IsWellFormed : IsWellFormed disk
disk-IsWellFormed = record {
  blocks = disk_blocks;
  chain = λ i lt. rw (only_first i lt) (refl, (refl, refl));
  distinct = λ i lt. rw (only_first i lt) (refl, (refl, tt));
  small = disk_small;
  apart = λ i j n lt lt' off h. absurd (ground (arith, only_first i lt, only_first j lt', off));
  unowned = λ n lt no_file. disk_unowned n (no_file 0 (omega arith));
  covered = disk_covered;
  names = λ i j lt lt' off. absurd (ground (arith, only_first i lt, only_first j lt', off));
}

create-IsWellFormed_example :
    (st : FileCreateStatus) × (fs' : FileSystem) × (create (98 ∷ []) 70 disk ≡ ok (st, fs'))
    × IsWellFormed fs'
create-IsWellFormed_example = create-IsWellFormed (98 ∷ []) 70 disk disk-IsWellFormed

delete_file-IsWellFormed_example :
    (fs' : FileSystem) × (delete_file (97 ∷ []) disk ≡ ok (deleted, fs'))
    × Deleted 0 (disk-IsWellFormed.blocks 0) disk fs'
    × IsWellFormed fs'
delete_file-IsWellFormed_example =
    delete_file-IsWellFormed (97 ∷ []) disk disk-IsWellFormed disk-IsOpen.found (omega arith)
      (omega arith)

-- The first file on an empty disk.
abbrev empty_disk : FileSystem
empty_disk = start_empty disk

first_file :
    (st : FileCreateStatus) × (fs' : FileSystem) × (create (99 ∷ []) 0 empty_disk ≡ ok (st, fs'))
    × IsWellFormed fs'
first_file = create-IsWellFormed (99 ∷ []) 0 empty_disk (start_empty-IsWellFormed disk)
