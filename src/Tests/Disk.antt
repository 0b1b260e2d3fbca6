-- ===== src/Tests/Disk.antt =====
-- The virtual disk with one file of two blocks, open in the slot of its index.
use soi_24z.Base.{
  ℕ, ◌/◌, ◌≡◌, refl, false, none, some, [], ◌∷◌, arith, ◌==◌, if◌then◌else◌, ok, fault, has,
}
use soi_24z.Fs.{
  FileSystem, FileDescriptor, TransactionLog, BlockNr, free_block, end_of_chain, block,
  empty_file_descriptor, not_opened, first_index, find_file_index_by_name,
  find_open_file_index_by_name,
}
use soi_24z.Fs.Create.{Creation, create-Creation}
use soi_24z.Fs.Files.{create, close_file}
use soi_24z.Fs.Grow.{FileWriteStatus}
use soi_24z.Fs.Transfer.{write_file, read_file, advance, FileReadStatus}
use soi_24z.Fs.Transfer.Back.{IsOpen, reopened, write_file-read_file}

abbrev pub idle_log : TransactionLog
idle_log = record {
  in_progress = false;
  file_idx = none;
  new_size = none;
  last_valid_block = free_block;
  first_new_block = free_block;
}

abbrev file_a : FileDescriptor
file_a = record { name = 97 ∷ []; starting_block = block 0; size = some 40 }

abbrev files : ℕ → FileDescriptor
files i = if i == 0 then file_a else empty_file_descriptor

abbrev pub with_table : (ℕ → BlockNr) → FileSystem
with_table fat = record {
  memory = λ i. 0;
  fat = fat;
  fd_table = files;
  file_count = 1;
  open_file_fd_table = λ i. if i == 0 then record { idx = some 0; offset = 30 } else not_opened;
  opened_file_count = 1;
  transaction_log = idle_log;
  malfunction_flag = false;
  disk = record {
    memory = λ i. 0;
    fat = fat;
    fd_table = files;
    transaction_log = idle_log;
    file_count = 1;
  };
}

abbrev two_blocks : ℕ → BlockNr
two_blocks i = if i == 0 then block 1 else if i == 1 then end_of_chain else free_block

abbrev pub disk : FileSystem
disk = with_table two_blocks

create-Creation_example : Creation (98 ∷ []) 70 disk (create (98 ∷ []) 70 disk)
create-Creation_example = create-Creation (98 ∷ []) 70 disk

pub disk-IsOpen : IsOpen (97 ∷ []) disk 0 0 40 30 (0 ∷ 1 ∷ [])
unfolding find_file_index_by_name first_index
disk-IsOpen = record {
  found = refl;
  in_table = omega arith;
  idx = refl;
  at = refl;
  has_size = refl;
  chain = (refl, (refl, refl));
  distinct = (refl, (refl, tt));
  covered = omega arith;
}

-- Three bytes over the end of the first block.
write_file-read_file_example :
    (fs' : FileSystem) × (write_file (97 ∷ []) (1 ∷ 2 ∷ 3 ∷ []) disk
      ≡ ok (FileWriteStatus.written, fs'))
    × (fs'.fat ≡ disk.fat)
    × (fs'.fd_table ≡ disk.fd_table)
    × ((a : ℕ) → has (a / 32) (0 ∷ 1 ∷ []) ≡ false → fs'.memory a ≡ disk.memory a)
    × (fs'.disk.memory ≡ fs'.memory)
    × (read_file (97 ∷ []) 3 (reopened 0 0 30 fs')
        ≡ ok (FileReadStatus.was_read, 1 ∷ 2 ∷ 3 ∷ [], advance 0 3 (reopened 0 0 30 fs')))
write_file-read_file_example =
    write_file-read_file (97 ∷ []) disk 0 0 40 30 (0 ∷ 1 ∷ []) (1 ∷ 2 ∷ 3 ∷ []) disk-IsOpen
      (omega arith) (omega arith)

-- To close a file that is not open reads behind the table of open files.
close_unopened : close_file (98 ∷ []) disk ≡ fault
unfolding close_file find_open_file_index_by_name
close_unopened = refl
