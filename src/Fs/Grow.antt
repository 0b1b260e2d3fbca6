-- ===== src/Fs/Grow.antt =====
-- How write of file-system/fs.cpp lets a file grow.
pub mod Links
pub mod Steps
pub mod Undone
use soi_24z.Base.{
  ℕ, zero, suc, ◌+◌, ◌-◌, ◌/◌, Bool, true, false, Option, none, some, List, [], ◌∷◌, ltb, leb, ◌==◌,
  if◌then◌else◌, update, Ptr, Run, ok, fault, out_of_fuel, ◌>>=◌,
}
use soi_24z.Fs.{
  FileSystem, BlockNr, free_block, end_of_chain, block, num_blocks, first_free_block, set_fat,
  save_transaction_logs, set_log, set_in_progress, blocks_needed,
}
use soi_24z.Fs.Repair.{transaction_rollback, resize}

-- FILE_WRITE_ERROR is never given; `terminated` is the end of the program by the malfunction.
pub data FileWriteStatus : Type 0 where
  written : FileWriteStatus
  invalid_index : FileWriteStatus
  not_opened : FileWriteStatus
  exceeds_file_size : FileWriteStatus
  no_space : FileWriteStatus
  terminated : FileWriteStatus

-- The last block of a chain.
unfoldable pub last_block : (fuel : ℕ) → BlockNr → FileSystem → Run ℕ
last_block zero b fs = out_of_fuel
last_block (suc fuel) free_block fs = fault
last_block (suc fuel) end_of_chain fs = fault
last_block (suc fuel) (block n) fs = elim (fs.fat n) [
  | end_of_chain ↦ ok n
  | free_block ↦ fault
  | block next ↦ last_block fuel (block next) fs
]

-- The first new block is written into the log, and the log to the disk.
abbrev pub log_first : (first_new_block : BlockNr) → ℕ → FileSystem → FileSystem
log_first free_block new_block fs =
    save_transaction_logs
      (set_log (record fs.transaction_log { first_new_block = block new_block }) fs)
log_first end_of_chain new_block fs = fs
log_first (block n) new_block fs = fs

-- The chain that ends with `last` goes on with the new block.
abbrev pub link_new : (last new_block : ℕ) → FileSystem → FileSystem
link_new last new_block fs =
    set_fat last (block new_block) (log_first fs.transaction_log.first_new_block new_block fs)

-- The loop that adds `left` blocks to the chain from `start`.
unfoldable pub extend : (left : ℕ) → BlockNr → FileSystem → Run (FileWriteStatus × FileSystem)
extend zero start fs = ok (written, fs)
extend (suc left) start fs = elim (first_free_block fs.fat) [
  | none ↦ (do undone ← transaction_rollback fs; ok (no_space, undone))
  | some new_block ↦ (do
    last ← last_block (suc num_blocks) start fs
    let linked = link_new last new_block fs
    elim (fs.malfunction_flag) [
      | true ↦ ok (terminated, linked)
      | false ↦ extend left start (set_fat new_block end_of_chain linked)
    ])
]

-- The number of blocks for a size that may be -1.
abbrev pub blocks_of : Option ℕ → ℕ
blocks_of none = 0
blocks_of (some size) = blocks_needed size

-- What `write` does where the file has to grow to `new_size`.
unfoldable pub grow :
    (file_idx fd_index new_size : ℕ)
    → (file_size : Option ℕ) → FileSystem
    → Run (FileWriteStatus × FileSystem)
grow file_idx fd_index new_size file_size fs =
    let start = (fs.fd_table fd_index).starting_block in
    do
      let logged = save_transaction_logs (
          set_log
            (record {
              in_progress = true;
              file_idx = some file_idx;
              new_size = some new_size;
              last_valid_block = start;
              first_new_block = free_block;
            })
            fs)
      r ← extend (blocks_needed new_size - blocks_of file_size) start logged
      elim (r.0) [
        | written ↦ ok (written, set_in_progress false (resize fd_index new_size r.1))
        | other ↦ ok (other, r.1)
      ]
