-- ===== src/Fs/Transfer.antt =====
-- read and write of file-system/fs.cpp. The size of a read is no less than 0; a write is given as
-- many bytes as its buffer holds. What a read copies is a list, in the order of the buffer.
pub mod Seek
pub mod Copy
pub mod Back
pub mod Full
use soi_24z.Base.{
  ℕ, zero, suc, ◌+◌, ◌-◌, ◌*◌, ◌/◌, Bool, true, false, Option, none, some, List, [], ◌∷◌, ◌++◌, ltb,
  leb, ◌==◌, if◌then◌else◌, update, length, Ptr, Run, ok, fault, out_of_fuel, ◌>>=◌,
}
use soi_24z.Fs.{
  FileSystem, FileDescriptor, OpenedFile, BlockNr, free_block, end_of_chain, block, block_size,
  num_blocks, num_opened_files, first_free_block, set_fat, find_file_index_by_name, save_to_disk,
  save_transaction_logs, set_log, set_in_progress, blocks_needed,
}
use soi_24z.Fs.Files.{set_slot}
use soi_24z.Fs.Grow.{
  FileWriteStatus, written, not_opened, exceeds_file_size, no_space, terminated, grow,
}

abbrev pub min : ℕ → ℕ → ℕ
min a b = if ltb b a then b else a

module _ {ℓ} {A : Type ℓ} where
  abbrev pub take : List A → ℕ → List A
  take [] n = []
  take (x ∷ xs) zero = []
  take (x ∷ xs) (suc n) = x ∷ take xs n

  abbrev pub drop : List A → ℕ → List A
  drop [] n = []
  drop (x ∷ xs) zero = x ∷ xs
  drop (x ∷ xs) (suc n) = drop xs n

-- memcpy out of the memory, and into it.
unfoldable pub slice : (ℕ → ℕ) → (from n : ℕ) → List ℕ
slice memory from zero = []
slice memory from (suc n) = memory from ∷ slice memory (suc from) n

unfoldable pub store : (at : ℕ) → List ℕ → (ℕ → ℕ) → ℕ → ℕ
store at [] memory = memory
store at (x ∷ xs) memory = store (suc at) xs (update memory at x)

-- The next block of a chain; an index below 0 is out of bounds.
abbrev pub next_block : BlockNr → FileSystem → Run BlockNr
next_block free_block fs = fault
next_block end_of_chain fs = fault
next_block (block n) fs = ok (fs.fat n)

-- The loop of `read` to the block with the offset.
unfoldable pub seek : (fuel offset : ℕ) → BlockNr → FileSystem → Run (BlockNr × ℕ)
seek zero offset block_idx fs = out_of_fuel
seek (suc fuel) offset block_idx fs = elim (leb block_size offset) [
  | false ↦ ok (block_idx, offset)
  | true ↦ (do b ← next_block block_idx fs; seek fuel (offset - block_size) b fs)
]

-- The same of `write`; none if the chain ends before.
unfoldable pub seek_write : (fuel offset : ℕ) → BlockNr → FileSystem → Run (Option (BlockNr × ℕ))
seek_write zero offset block_idx fs = out_of_fuel
seek_write (suc fuel) offset block_idx fs = elim (leb block_size offset) [
  | false ↦ ok (some (block_idx, offset))
  | true ↦ (do
    b ← next_block block_idx fs
    elim b [
      | end_of_chain ↦ ok none
      | free_block ↦ seek_write fuel (offset - block_size) free_block fs
      | block n ↦ seek_write fuel (offset - block_size) (block n) fs
    ])
]

-- The loop of `read` that copies.
unfoldable pub read_bytes :
    (fuel left : ℕ) → BlockNr → (block_offset : ℕ) → FileSystem → Run (List ℕ)
unfolding slice
read_bytes zero left block_idx block_offset fs = out_of_fuel
read_bytes (suc fuel) zero block_idx block_offset fs = ok []
read_bytes (suc fuel) (suc left) free_block block_offset fs = fault
read_bytes (suc fuel) (suc left) end_of_chain block_offset fs = fault
read_bytes (suc fuel) (suc left) (block n) block_offset fs =
    let bytes = min (block_size - block_offset) (suc left) in
    let chunk = slice fs.memory (n * block_size + block_offset) bytes in
    elim (suc left - bytes) [
      | zero ↦ ok chunk
      | suc more ↦ elim (fs.fat n) [
        | end_of_chain ↦ ok chunk
        | free_block ↦ fault
        | block b ↦ (do rest ← read_bytes fuel (suc more) (block b) 0 fs; ok (chunk ++ rest))
      ]
    ]

-- The loop of `write` that copies.
unfoldable pub write_bytes :
    (fuel : ℕ) → List ℕ → BlockNr → (block_offset : ℕ) → FileSystem → Run FileSystem
unfolding store
write_bytes zero buffer block_idx block_offset fs = out_of_fuel
write_bytes (suc fuel) [] block_idx block_offset fs = ok fs
write_bytes (suc fuel) (x ∷ xs) free_block block_offset fs = fault
write_bytes (suc fuel) (x ∷ xs) end_of_chain block_offset fs = fault
write_bytes (suc fuel) (x ∷ xs) (block n) block_offset fs =
    let bytes = min (block_size - block_offset) (length (x ∷ xs)) in
    let chunk = take (x ∷ xs) bytes in
    let stored = record fs { memory = store (n * block_size + block_offset) chunk fs.memory } in
    elim (drop (x ∷ xs) bytes) [
      | [] ↦ ok stored
      | y ∷ ys ↦ elim (fs.fat n) [
        | end_of_chain ↦ ok stored
        | free_block ↦ fault
        | block b ↦ write_bytes fuel (y ∷ ys) (block b) 0 stored
      ]
    ]

pub data FileReadStatus : Type 0 where
  was_read : FileReadStatus
  invalid_index : FileReadStatus
  not_open : FileReadStatus
  at_end : FileReadStatus

abbrev pub advance : (file_idx size : ℕ) → FileSystem → FileSystem
advance file_idx size fs =
    let slot = fs.open_file_fd_table file_idx in
    set_slot file_idx (record slot { offset = slot.offset + size }) fs

-- `read` of the open file with the descriptor `file`, which has `file_size` bytes.
unfoldable pub read_open :
    (file_idx size : ℕ)
    → FileDescriptor
    → (file_size offset : ℕ) → FileSystem
    → Run (FileReadStatus × List ℕ × FileSystem)
unfolding seek read_bytes
read_open file_idx size file file_size offset fs =
    if ltb file_size offset then ok (at_end, [], fs) else (do
      let bytes = if ltb file_size (offset + size) then file_size - offset else size
      at ← seek (suc offset) offset file.starting_block fs
      buffer ← read_bytes (suc bytes) bytes at.0 at.1 fs
      ok (was_read, buffer, advance file_idx bytes fs))

-- A size that is -1 is below every offset.
unfoldable pub read_sized :
    (file_idx size : ℕ)
    → FileDescriptor
    → (file_size : Option ℕ) → (offset : ℕ) → FileSystem
    → Run (FileReadStatus × List ℕ × FileSystem)
read_sized file_idx size file none offset fs = ok (at_end, [], fs)
read_sized file_idx size file (some file_size) offset fs =
    read_open file_idx size file file_size offset fs

-- The table of open files is asked at the index of the descriptor, not at that of a slot.
unfoldable pub read_file :
    List ℕ → (size : ℕ) → FileSystem → Run (FileReadStatus × List ℕ × FileSystem)
read_file name size fs = elim (find_file_index_by_name name fs) [
  | none ↦ ok (invalid_index, [], fs)
  | some file_idx ↦
      let slot = fs.open_file_fd_table file_idx in
      if ltb file_idx num_opened_files
      then elim (slot.idx) [
        | none ↦ ok (not_open, [], fs)
        | some fd_index ↦
            let file = fs.fd_table fd_index in
            read_sized file_idx size file file.size slot.offset fs
      ]
      else fault
]

-- Is `n` above a size that may be -1?
abbrev pub exceeds : ℕ → Option ℕ → Bool
exceeds n none = true
exceeds n (some size) = ltb size n

-- What `write` does once the file is long enough.
unfoldable pub put_bytes :
    (file_idx : ℕ)
    → List ℕ
    → BlockNr
    → (offset : ℕ) → FileSystem
    → Run (FileWriteStatus × FileSystem)
unfolding seek_write write_bytes
put_bytes file_idx buffer start offset fs = do
  at ← seek_write (suc offset) offset start fs
  elim at [
    | none ↦ ok (exceeds_file_size, fs)
    | some (b, block_offset) ↦ (do
      stored ← write_bytes (suc (length buffer)) buffer b block_offset fs
      ok (written, save_to_disk (advance file_idx (length buffer) stored)))
  ]

unfoldable pub write_open :
    (file_idx fd_index : ℕ)
    → List ℕ
    → (file_size : Option ℕ) → (offset : ℕ) → FileSystem
    → Run (FileWriteStatus × FileSystem)
write_open file_idx fd_index buffer file_size offset fs =
    let start = (fs.fd_table fd_index).starting_block in
    if exceeds (offset + length buffer) file_size
    then (do
      r ← grow file_idx fd_index (offset + length buffer) file_size fs
      elim (r.0) [ written ↦ put_bytes file_idx buffer start offset r.1 | other ↦ ok (other, r.1) ])
    else put_bytes file_idx buffer start offset fs

unfoldable pub write_file : List ℕ → List ℕ → FileSystem → Run (FileWriteStatus × FileSystem)
write_file name buffer fs = elim (find_file_index_by_name name fs) [
  | none ↦ ok (FileWriteStatus.invalid_index, fs)
  | some file_idx ↦
      let slot = fs.open_file_fd_table file_idx in
      if ltb file_idx num_opened_files
      then elim (slot.idx) [
        | none ↦ ok (not_opened, fs)
        | some fd_index ↦
            write_open file_idx fd_index buffer (fs.fd_table fd_index).size slot.offset fs
      ]
      else fault
]
