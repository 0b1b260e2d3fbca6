-- ===== src/Fs/Transfer/Full.antt =====
-- A write that finds too few free blocks.
use soi_24z.Base.{ℕ, ◌+◌, ◌-◌, ◌<◌, ◌≡◌, refl, true, false, List, [], ◌∷◌, arith, ltb, ok, length}
use soi_24z.Fs.{FileSystem, blocks_needed, count_free}
use soi_24z.Fs.Grow.{no_space, blocks_of}
use soi_24z.Fs.Grow.Undone.{Undone, grow-Undone}
use soi_24z.Fs.Transfer.{exceeds, write_open, write_file}
use soi_24z.Fs.Transfer.Back.{IsOpen}

-- A write to a file of one block, open in the slot of its index, that needs more blocks than are
-- free, while the program is not told to break down: `write` answers that there is no space, and the
-- table of blocks, the memory, the number of files, the other descriptors are as
-- before, whatever blocks were linked on the way, and no transaction is in progress. The size of the
-- file does not stay: it becomes 32 times the number of the block and one.
pub write_file-Undone :
    (name : List ℕ) (fs : FileSystem) (i size offset s : ℕ) (buffer : List ℕ)
    → IsOpen name fs i i size offset (s ∷ [])
    → s < 64
    → fs.malfunction_flag ≡ false
    → count_free 64 fs.fat < blocks_needed (offset + length buffer) - blocks_needed size
    → (fs' : FileSystem) × (write_file name buffer fs ≡ ok (no_space, fs'))
      × Undone fs.fat fs.fd_table fs.memory fs.file_count s i fs'
unfolding write_file write_open
write_file-Undone name fs i size offset s buffer o lt calm lack =
    let new_size = offset + length buffer in
    let few : count_free 64 fs.fat < blocks_needed new_size - blocks_of (fs.fd_table i).size =
      rw (o.has_size) lack in
    let (fs', run, u) =
      grow-Undone fs i i s new_size (fs.fd_table i).size o.chain.0 o.chain.1 lt calm few in
    let there : ltb i 8 ≡ true = ground (arith, o.in_table) in
    let more : size < new_size = omega (arith, lack) in
    let past : exceeds new_size (fs.fd_table i).size ≡ true =
      rw (o.has_size) (ground (arith, more)) in
    (fs', rw (o.found, write_file, there, o.idx, o.at, past, run) refl, u)
