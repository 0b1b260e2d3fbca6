-- ===== src/Fs/Files.antt =====
-- create, open, close and delete_ of file-system/fs.cpp. The size of a new file is no less than 0.
use soi_24z.Base.{
  ℕ, zero, suc, ◌+◌, ◌-◌, Bool, true, false, ◌||◌, none, some, List, ltb, leb, ◌==◌, if◌then◌else◌,
  update, length, Ptr, ptr_eq, Run, ok, fault, out_of_fuel, ◌>>=◌,
}
use soi_24z.Fs.{
  FileSystem, FileDescriptor, OpenedFile, BlockNr, free_block, end_of_chain, block, num_blocks,
  num_files, num_opened_files, link, empty_file_descriptor, not_opened, duplicate_name,
  count_free_blocks, first_free_block, set_fat, mark_block_as_used, find_file_index_by_name,
  find_open_file_index_by_name, find_open_file_free_slot, save_to_disk, set_log, set_in_progress,
  blocks_needed,
}

-- The answers of `create`; the code never gives FILE_CREATE_INVALID_SIZE.
pub data FileCreateStatus : Type 0 where
  created : FileCreateStatus
  invalid_name : FileCreateStatus
  too_many_files : FileCreateStatus
  duplicate_file : FileCreateStatus
  no_space : FileCreateStatus

-- A block is taken, and is the last valid one of the log.
abbrev pub take_block : ℕ → FileSystem → FileSystem
take_block current fs =
    let marked = mark_block_as_used current fs in
    set_log (record marked.transaction_log { last_valid_block = block current }) marked

-- The loop of `create`, with `left` blocks still needed.
unfoldable pub take_blocks : (left : ℕ) → Ptr → FileSystem → Run FileSystem
take_blocks zero current fs = ok fs
take_blocks (suc left) none fs = fault
take_blocks (suc left) (some current) fs =
    let taken = take_block current fs in
    let next_block = first_free_block taken.fat in
    let entry = if left == 0 then end_of_chain else link next_block in
    take_blocks left next_block (set_fat current entry taken)

-- The log of a transaction that creates a file, and its first block if it is empty.
abbrev pub start_create : FileSystem → FileSystem
start_create fs =
    set_log
      (record fs.transaction_log {
        in_progress = true;
        file_idx = some fs.file_count;
        last_valid_block = free_block;
      })
      fs

abbrev pub begin_create : (size starting_block : ℕ) → FileSystem → FileSystem
begin_create size starting_block fs =
    if size == 0 then take_block starting_block (start_create fs) else start_create fs

-- The new descriptor, and the end of the transaction.
abbrev pub add_file : List ℕ → (size starting_block : ℕ) → FileSystem → FileSystem
add_file name size starting_block fs =
    let file : FileDescriptor = record {
      name = name;
      starting_block = block starting_block;
      size = some size;
    } in
    let added = record fs {
      fd_table = update fs.fd_table fs.file_count file;
      file_count = fs.file_count + 1;
    } in
    save_to_disk (set_in_progress false added)

-- The part of `create` behind its checks.
unfoldable pub create_at : List ℕ → (size starting_block : ℕ) → FileSystem → Run FileSystem
create_at name size starting_block fs = do
  taken ←
      take_blocks (blocks_needed size) (some starting_block) (begin_create size starting_block fs)
  ok (add_file name size starting_block taken)

unfoldable pub bad_name : List ℕ → Bool
bad_name name = ltb 10 (length name) || ltb (length name) 1

unfoldable pub create : List ℕ → (size : ℕ) → FileSystem → Run (FileCreateStatus × FileSystem)
create name size fs =
    if leb num_files fs.file_count
    then ok (too_many_files, fs)
    else if bad_name name
    then ok (invalid_name, fs)
    else if duplicate_name name fs
    then ok (duplicate_file, fs)
    else if ltb (count_free_blocks fs) (blocks_needed size)
    then ok (no_space, fs)
    else elim (first_free_block fs.fat) [
      | none ↦ ok (no_space, fs)
      | some starting_block ↦ do fs' ← create_at name size starting_block fs; ok (created, fs')
    ]

pub data FileOpenStatus : Type 0 where
  opened : FileOpenStatus
  too_many_files_opened : FileOpenStatus
  doesnt_exist : FileOpenStatus
  no_space_for_open_files : FileOpenStatus

abbrev pub set_slot : ℕ → OpenedFile → FileSystem → FileSystem
set_slot i f fs = record fs { open_file_fd_table = update fs.open_file_fd_table i f }

unfoldable pub open_file : List ℕ → FileSystem → Run (FileOpenStatus × FileSystem)
unfolding find_file_index_by_name find_open_file_free_slot
open_file name fs =
    if leb num_files fs.opened_file_count
    then ok (too_many_files_opened, fs)
    else elim (find_file_index_by_name name fs) [
      | none ↦ ok (doesnt_exist, fs)
      | some file_idx ↦ (do
        free_slot ← find_open_file_free_slot fs
        elim free_slot [
          | none ↦ ok (no_space_for_open_files, fs)
          | some slot ↦ ok (
            opened,
            record (set_slot slot (record { idx = some file_idx; offset = 0 }) fs) {
              opened_file_count = fs.opened_file_count + 1;
            },
          )
        ])
    ]

-- The answers of `close`; a slot that the search finds is in use, so that
-- FILE_CLOSE_NOT_OPENED is never given.
pub data FileCloseStatus : Type 0 where
  closed : FileCloseStatus
  invalid_index : FileCloseStatus

unfoldable pub close_file : List ℕ → FileSystem → Run (FileCloseStatus × FileSystem)
unfolding find_open_file_index_by_name
close_file name fs = do
  file_index ← find_open_file_index_by_name name fs
  elim file_index [
    | none ↦ ok (invalid_index, fs)
    | some i ↦
        ok (
          closed,
          record (set_slot i not_opened fs) { opened_file_count = fs.opened_file_count - 1 },
        )
  ]

pub data FileDeleteStatus : Type 0 where
  deleted : FileDeleteStatus
  no_such_file : FileDeleteStatus

-- The loop of `delete_` over the blocks of the file; fat[-1] is out of bounds.
unfoldable pub free_chain : (fuel : ℕ) → BlockNr → FileSystem → Run FileSystem
free_chain zero start_block fs = out_of_fuel
free_chain (suc fuel) free_block fs = fault
free_chain (suc fuel) end_of_chain fs = ok fs
free_chain (suc fuel) (block n) fs = free_chain fuel (fs.fat n) (set_fat n free_block fs)

-- The loop that moves the descriptors down, from the first one on; it reads the one behind the
-- last, which is out of bounds in a full table.
abbrev pub shift_files : FileSystem → Run FileSystem
shift_files fs =
    if ltb fs.file_count num_files
    then ok (record fs {
      fd_table = λ i. if ltb i fs.file_count then fs.fd_table (suc i) else fs.fd_table i;
    })
    else fault

-- The loop over the open files: the number of rounds falls with every file that is closed.
unfoldable pub close_opened : (fuel i file_idx : ℕ) → FileSystem → Run FileSystem
close_opened zero i file_idx fs = out_of_fuel
close_opened (suc fuel) i file_idx fs =
    let shut = record (set_slot i not_opened fs) { opened_file_count = fs.opened_file_count - 1 } in
    let rest =
      close_opened fuel (suc i) file_idx
        (if ptr_eq (fs.open_file_fd_table i).idx (some file_idx) then shut else fs) in
    if ltb i fs.opened_file_count then (if ltb i num_opened_files then rest else fault) else ok fs

unfoldable pub delete_file : List ℕ → FileSystem → Run (FileDeleteStatus × FileSystem)
unfolding free_chain close_opened find_file_index_by_name
delete_file name fs = elim (find_file_index_by_name name fs) [
  | none ↦ ok (no_such_file, fs)
  | some file_idx ↦ (do
    let file = fs.fd_table file_idx
    let logged =
        set_log
          (record fs.transaction_log {
            in_progress = true;
            file_idx = some file_idx;
            last_valid_block = file.starting_block;
          })
          fs
    freed ← free_chain (suc (suc num_blocks)) file.starting_block logged
    moved ← shift_files freed
    let fewer = record moved {
      fd_table = update moved.fd_table (moved.file_count - 1) empty_file_descriptor;
      file_count = moved.file_count - 1;
    }
    shut ← close_opened (suc num_files) 0 file_idx fewer
    ok (deleted, save_to_disk (set_in_progress false shut)))
]
