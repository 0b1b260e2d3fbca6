-- ===== src/Fs/Transfer/Back.antt =====
-- What is written to a file inside its size is read back.
use soi_24z.Base.{
  ℕ, suc, ◌+◌, ◌*◌, ◌/◌, ◌<◌, ◌≤◌, ◌≡◌, refl, ap, ◌∙◌, true, false, some, List, arith, ltb,
  update_here, ok, length, Distinct, has,
}
use soi_24z.Fs.{FileSystem, save_to_disk, find_file_index_by_name, OpenedFile}
use soi_24z.Fs.Blocks.{ChainOf}
use soi_24z.Fs.Files.{set_slot}
use soi_24z.Fs.Transfer.{
  advance, exceeds, put_bytes, write_open, write_file, read_open, read_sized, read_file,
  FileReadStatus,
}
use soi_24z.Fs.Grow.{FileWriteStatus}
use soi_24z.Fs.Transfer.Copy.{Wrote, write_bytes-Wrote}
use soi_24z.Fs.Transfer.Seek.{Sought, seek-Sought, seek-same}

-- The file of this name has the descriptor `d`, is open in the slot of its index `i`, and its
-- blocks `bs` are enough for its size.
pub record IsOpen (name : List ℕ) (fs : FileSystem) (i d size offset : ℕ) (bs : List ℕ)
    : Type 0 where
  pub found : find_file_index_by_name name fs ≡ some i
  pub in_table : i < 8
  pub idx : (fs.open_file_fd_table i).idx ≡ some d
  pub at : (fs.open_file_fd_table i).offset ≡ offset
  pub has_size : (fs.fd_table d).size ≡ some size
  pub chain : ChainOf fs.fat (fs.fd_table d).starting_block bs
  pub distinct : Distinct bs
  pub covered : size ≤ 32 * length bs

-- The slot is set back to the offset, as a close and an open do for the offset 0.
abbrev pub reopened : (i d offset : ℕ) → FileSystem → FileSystem
reopened i d offset fs = set_slot i (record { idx = some d; offset = offset }) fs

module _ (name : List ℕ) (fs : FileSystem) (i d size offset : ℕ) (bs : List ℕ) (buffer : List ℕ)
    (o : IsOpen name fs i d size offset bs) (some_bytes : 0 < length buffer)
    (fits : offset + length buffer ≤ size) where
  abbrev sought : Sought (suc offset) offset (fs.fd_table d).starting_block bs fs
  sought =
      seek-Sought (suc offset) offset (fs.fd_table d).starting_block bs fs o.chain o.distinct
        (omega (arith, o.covered, some_bytes, fits)) (omega arith)

  wrote : Wrote (suc (length buffer)) buffer sought.at sought.rest sought.within fs
  wrote =
      write_bytes-Wrote (suc (length buffer)) buffer sought.at sought.rest sought.within fs
        sought.chain sought.distinct sought.small (omega (arith, sought.room, o.covered, fits))
        (omega arith)

  abbrev after : FileSystem
  after = save_to_disk (advance i (length buffer) (record fs { memory = wrote.memory }))

  not_past : exceeds (offset + length buffer) (fs.fd_table d).size ≡ false
  not_past = rw (o.has_size) (ground (arith, fits))

  slot_there : ltb i 8 ≡ true
  slot_there = ground (arith, o.in_table)

  put_after :
      put_bytes i buffer (fs.fd_table d).starting_block offset fs
      ≡ ok (FileWriteStatus.written, after)
  unfolding put_bytes
  put_after = rw (sought.writes, wrote.run) refl

  open_after :
      write_open i d buffer (fs.fd_table d).size offset fs ≡ ok (FileWriteStatus.written, after)
  unfolding write_open
  open_after = rw not_past put_after

  write_step : write_file name buffer fs ≡ write_open i d buffer (fs.fd_table d).size offset fs
  unfolding write_file
  write_step = rw (o.found, write_file, slot_there, o.idx, o.at) refl

  abbrev again : FileSystem
  again = reopened i d offset after

  read_open_after :
      read_open i (length buffer) (fs.fd_table d) size offset again
      ≡ ok (FileReadStatus.was_read, buffer, advance i (length buffer) again)
  unfolding read_open
  read_open_after =
      let inside : ltb size offset ≡ false = ground (arith, fits) in
      let whole : ltb size (offset + length buffer) ≡ false = ground (arith, fits) in
      let way =
        seek-same (suc offset) offset (fs.fd_table d).starting_block fs again refl ∙ sought.reads in
      let bytes = wrote.reads (suc (length buffer)) again (omega arith) refl refl in
      rw (inside, whole, way, bytes) refl

  found_again : find_file_index_by_name name again ≡ some i
  unfolding find_file_index_by_name
  found_again = o.found

  read_step :
      read_file name (length buffer) again
      ≡ read_open i (length buffer) (fs.fd_table d) size offset again
  unfolding read_file read_sized
  read_step =
      let slot : OpenedFile = record { idx = some d; offset = offset } in
      let here = update_here after.open_file_fd_table i slot in
      let idx : (again.open_file_fd_table i).idx ≡ some d = ap (λ (f : OpenedFile). f.idx) here in
      let at : (again.open_file_fd_table i).offset ≡ offset =
        ap (λ (f : OpenedFile). f.offset) here in
      let sized : read_file name (length buffer) again
          ≡ read_sized i (length buffer) (fs.fd_table d) (fs.fd_table d).size offset again =
        rw (found_again, read_file, slot_there, idx, at) refl in
      sized ∙ ap (λ n. read_sized i (length buffer) (fs.fd_table d) n offset again) o.has_size

-- For an open file whose blocks are enough for its size: `write` of some bytes inside the size ends
-- with them written, the table of blocks and the descriptors as they were, and no byte outside of
-- the blocks of the file changed; and a `read` of as many bytes from the same offset gives them.
pub write_file-read_file :
    (name : List ℕ) (fs : FileSystem) (i d size offset : ℕ) (bs buffer : List ℕ)
    → IsOpen name fs i d size offset bs
    → 0 < length buffer
    → offset + length buffer ≤ size
    → (fs' : FileSystem) × (write_file name buffer fs ≡ ok (FileWriteStatus.written, fs'))
      × (fs'.fat ≡ fs.fat)
      × (fs'.fd_table ≡ fs.fd_table)
      × ((a : ℕ) → has (a / 32) bs ≡ false → fs'.memory a ≡ fs.memory a)
      × (fs'.disk.memory ≡ fs'.memory)
      × (read_file name (length buffer) (reopened i d offset fs')
          ≡ ok (
            FileReadStatus.was_read,
            buffer,
            advance i (length buffer) (reopened i d offset fs'),
          ))
write_file-read_file name fs i d size offset bs buffer o some_bytes fits =
    let w = wrote name fs i d size offset bs buffer o some_bytes fits in
    let s = sought name fs i d size offset bs buffer o some_bytes fits in
    (
      after name fs i d size offset bs buffer o some_bytes fits,
      write_step name fs i d size offset bs buffer o some_bytes fits
          ∙ open_after name fs i d size offset bs buffer o some_bytes fits,
      refl,
      refl,
      λ a out. w.others a (s.part (a / 32) out),
      refl,
      read_step name fs i d size offset bs buffer o some_bytes fits
          ∙ read_open_after name fs i d size offset bs buffer o some_bytes fits,
    )
