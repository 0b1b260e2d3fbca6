-- ===== src/Fs.antt =====
-- The virtual disk of file-system: its state, with the searches of misc.cpp. Behind the end of an
-- array a read or a write is a fault.
pub mod Files
pub mod Repair
pub mod Grow
pub mod Transfer
pub mod Blocks
pub mod Create
pub mod Recovery
pub mod Deleted
pub mod WellFormed
use soi_24z.Base.{
  ℕ, zero, suc, ◌+◌, ◌-◌, ◌/◌, Bool, true, false, ◌&&◌, ◌||◌, Option, none, some, List, [], ◌∷◌,
  ltb, leb, ◌==◌, if◌then◌else◌, update, Ptr, ptr_eq, Run, ok, fault,
}

abbrev pub block_size : ℕ
block_size = 32

abbrev pub num_blocks : ℕ
num_blocks = 64

abbrev pub num_files : ℕ
num_files = 16

abbrev pub num_opened_files : ℕ
num_opened_files = 8

-- The number of a block, FREE_BLOCK for -1, or END_OF_CHAIN for -2.
pub data BlockNr : Type 0 where
  free_block : BlockNr
  end_of_chain : BlockNr
  block : ℕ → BlockNr

abbrev pub is_free : BlockNr → Bool
is_free free_block = true
is_free end_of_chain = false
is_free (block n) = false

-- The result of firstFreeBlock, written into a table.
abbrev pub link : Ptr → BlockNr
link none = free_block
link (some n) = block n

-- A size of none is -1.
pub record FileDescriptor : Type 0 where
  pub name : List ℕ
  pub starting_block : BlockNr
  pub size : Option ℕ

-- An index of none is NO_OPENED_FILE.
pub record OpenedFile : Type 0 where
  pub idx : Ptr
  pub offset : ℕ

pub record TransactionLog : Type 0 where
  pub in_progress : Bool
  pub file_idx : Ptr
  pub new_size : Option ℕ
  pub last_valid_block : BlockNr
  pub first_new_block : BlockNr

-- What the files in `data` hold.
pub record Disk : Type 0 where
  pub memory : ℕ → ℕ
  pub fat : ℕ → BlockNr
  pub fd_table : ℕ → FileDescriptor
  pub transaction_log : TransactionLog
  pub file_count : ℕ

pub record FileSystem : Type 0 where
  pub memory : ℕ → ℕ
  pub fat : ℕ → BlockNr
  pub fd_table : ℕ → FileDescriptor
  pub file_count : ℕ
  pub open_file_fd_table : ℕ → OpenedFile
  pub opened_file_count : ℕ
  pub transaction_log : TransactionLog
  pub malfunction_flag : Bool
  pub disk : Disk

abbrev pub empty_file_descriptor : FileDescriptor
empty_file_descriptor = record { name = []; starting_block = free_block; size = none }

abbrev pub not_opened : OpenedFile
not_opened = record { idx = none; offset = 0 }

abbrev pub name_eq : List ℕ → List ℕ → Bool
name_eq [] [] = true
name_eq [] (y ∷ ys) = false
name_eq (x ∷ xs) [] = false
name_eq (x ∷ xs) (y ∷ ys) = (x == y) && name_eq xs ys

-- The first of the `left` indices from `i` on that passes the test.
unfoldable pub first_index : (left i : ℕ) → (ℕ → Bool) → Ptr
first_index zero i p = none
first_index (suc left) i p = let rest = first_index left (suc i) p in if p i then some i else rest

-- The same, where the array ends at `bound`.
unfoldable pub first_within : (left i bound : ℕ) → (ℕ → Bool) → Run Ptr
first_within zero i bound p = ok none
first_within (suc left) i bound p =
    let rest = first_within left (suc i) bound p in
    if ltb i bound then (if p i then ok (some i) else rest) else fault

unfoldable pub any_index : (left i : ℕ) → (ℕ → Bool) → Bool
any_index zero i p = false
any_index (suc left) i p = p i || any_index left (suc i) p

unfoldable pub duplicate_name : List ℕ → FileSystem → Bool
duplicate_name name fs = any_index num_files 0 (λ i. name_eq (fs.fd_table i).name name)

unfoldable pub count_free : (n : ℕ) → (ℕ → BlockNr) → ℕ
count_free zero fat = 0
count_free (suc n) fat = count_free n fat + (if is_free (fat n) then 1 else 0)

unfoldable pub count_free_blocks : FileSystem → ℕ
count_free_blocks fs = count_free num_blocks fs.fat

unfoldable pub first_free_block : (ℕ → BlockNr) → Ptr
first_free_block fat = first_index num_blocks 0 (λ i. is_free (fat i))

abbrev pub set_fat : ℕ → BlockNr → FileSystem → FileSystem
set_fat i b fs = record fs { fat = update fs.fat i b }

abbrev pub mark_block_as_used : ℕ → FileSystem → FileSystem
mark_block_as_used i fs = set_fat i end_of_chain fs

unfoldable pub find_file_index_by_name : List ℕ → FileSystem → Ptr
find_file_index_by_name name fs =
    first_index fs.file_count 0 (λ i. name_eq (fs.fd_table i).name name)

-- Does the slot hold an open file of this name?
holds_name : List ℕ → FileSystem → ℕ → Bool
holds_name name fs i = elim ((fs.open_file_fd_table i).idx) [
  | none ↦ false
  | some file_index ↦ ltb file_index fs.file_count && name_eq (fs.fd_table file_index).name name
]

-- Both searches go through NUM_FILES slots of a table with NUM_OPENED_FILES of them.
unfoldable pub find_open_file_index_by_name : List ℕ → FileSystem → Run Ptr
unfolding first_within holds_name
find_open_file_index_by_name name fs =
    first_within num_files 0 num_opened_files (holds_name name fs)

unfoldable pub find_open_file_free_slot : FileSystem → Run Ptr
unfolding first_within
find_open_file_free_slot fs =
    first_within num_files 0 num_opened_files (λ i. ptr_eq (fs.open_file_fd_table i).idx none)

-- The files in `data`: all of them, or the one with the transaction log.
abbrev pub save_to_disk : FileSystem → FileSystem
save_to_disk fs = record fs {
  disk = record {
    memory = fs.memory;
    fat = fs.fat;
    fd_table = fs.fd_table;
    transaction_log = fs.transaction_log;
    file_count = fs.file_count;
  };
}

abbrev pub save_transaction_logs : FileSystem → FileSystem
save_transaction_logs fs = record fs {
  disk = record fs.disk { transaction_log = fs.transaction_log };
}

-- What was saved, with the rest as it is.
abbrev pub restore_from_disk : FileSystem → FileSystem
restore_from_disk fs = record fs {
  memory = fs.disk.memory;
  fat = fs.disk.fat;
  fd_table = fs.disk.fd_table;
  transaction_log = fs.disk.transaction_log;
  file_count = fs.disk.file_count;
}

abbrev pub set_log : TransactionLog → FileSystem → FileSystem
set_log log fs = record fs { transaction_log = log }

abbrev pub set_in_progress : Bool → FileSystem → FileSystem
set_in_progress b fs = set_log (record fs.transaction_log { in_progress = b }) fs

abbrev pub blocks_needed : ℕ → ℕ
blocks_needed size = (size + (block_size - 1)) / block_size
