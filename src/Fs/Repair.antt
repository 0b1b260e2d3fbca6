-- ===== src/Fs/Repair.antt =====
-- file-system/repair.cpp: what is undone of a transaction that was not finished.
use soi_24z.Base.{
  ℕ, zero, suc, ◌+◌, ◌*◌, Bool, true, false, none, some, Ptr, update, Run, ok, fault, out_of_fuel,
  ◌>>=◌,
}
use soi_24z.Fs.{
  FileSystem, BlockNr, free_block, end_of_chain, block, block_size, num_blocks, set_fat, set_log,
  restore_from_disk, not_opened, save_to_disk, empty_file_descriptor, TransactionLog,
}

-- The loop of clearNewAllocatedBlocks.
unfoldable pub clear_chain : (fuel : ℕ) → BlockNr → FileSystem → Run FileSystem
clear_chain zero block_idx fs = out_of_fuel
clear_chain (suc fuel) free_block fs = ok fs
clear_chain (suc fuel) end_of_chain fs = ok fs
clear_chain (suc fuel) (block n) fs = clear_chain fuel (fs.fat n) (set_fat n free_block fs)

abbrev pub resize : ℕ → ℕ → FileSystem → FileSystem
resize i size fs = record fs {
  fd_table = update fs.fd_table i (record (fs.fd_table i) { size = some size });
}

-- restoreOriginalFileSize: the size is computed from the number of the block. END_OF_CHAIN as the
-- last valid block ends the rollback in a fault below.
abbrev pub restore_original_file_size : Ptr → (last_valid_block : BlockNr) → FileSystem → FileSystem
restore_original_file_size none b fs = fs
restore_original_file_size (some i) free_block fs = fs
restore_original_file_size (some i) end_of_chain fs = fs
restore_original_file_size (some i) (block n) fs = resize i ((n + 1) * block_size) fs

abbrev pub clear_transaction_log : FileSystem → FileSystem
clear_transaction_log fs =
    set_log
      (record {
        in_progress = false;
        file_idx = none;
        new_size = some 0;
        last_valid_block = free_block;
        first_new_block = free_block;
      })
      fs

abbrev pub end_last_valid : BlockNr → FileSystem → Run FileSystem
end_last_valid free_block fs = ok fs
end_last_valid end_of_chain fs = fault
end_last_valid (block n) fs = ok (set_fat n end_of_chain fs)

-- The rollback, with what the log holds. A chain frees each block once, and ends at one that it
-- has freed.
unfoldable pub roll_back :
    (in_progress : Bool)
    → Ptr
    → (first_new_block last_valid_block : BlockNr) → FileSystem
    → Run FileSystem
unfolding clear_chain
roll_back false file_idx first_new last_valid fs = ok fs
roll_back true file_idx first_new last_valid fs = do
  cleared ←
      clear_chain (suc (suc num_blocks)) first_new
        (restore_original_file_size file_idx last_valid fs)
  ended ← end_last_valid last_valid cleared
  ok (clear_transaction_log ended)

unfoldable pub transaction_rollback : FileSystem → Run FileSystem
transaction_rollback fs =
    let log = fs.transaction_log in
    roll_back log.in_progress log.file_idx log.first_new_block log.last_valid_block fs

-- The end of the constructor of FileSystem: no file is open, and no transaction is in progress.
abbrev pub end_start : FileSystem → FileSystem
end_start fs =
    let log : TransactionLog = record {
      in_progress = false;
      file_idx = none;
      new_size = none;
      last_valid_block = free_block;
      first_new_block = free_block;
    } in
    save_to_disk
      (record (set_log log fs) { open_file_fd_table = λ i. not_opened; opened_file_count = 0 })

-- The constructor on files that can be read.
unfoldable pub start_up : FileSystem → Run FileSystem
unfolding transaction_rollback roll_back
start_up fs = do repaired ← transaction_rollback (restore_from_disk fs); ok (end_start repaired)

-- The default values, where a file cannot be read.
abbrev pub defaults : FileSystem → FileSystem
defaults fs = record fs {
  memory = λ i. 0;
  fat = λ i. free_block;
  fd_table = λ i. empty_file_descriptor;
  file_count = 0;
}

abbrev pub start_empty : FileSystem → FileSystem
start_empty fs = end_start (defaults fs)
