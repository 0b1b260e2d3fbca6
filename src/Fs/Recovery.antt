-- ===== src/Fs/Recovery.antt =====
-- What the constructor of file-system/fs.cpp finds after a break-down in the middle of a write.
use soi_24z.Base.{
  ℕ, zero, suc, ◌+◌, ◌-◌, ◌*◌, ◌<◌, ◌≡◌, refl, ap, sym, ◌∙◌, true, false, some, inl, inr, List, ◌∷◌,
  arith, ◌==◌, ltb, Bool-cases, eq_of_==, update, ok, length, last_of, Run, update_here,
  update_there, subst,
}
use soi_24z.Fs.{
  FileSystem, FileDescriptor, BlockNr, free_block, end_of_chain, block, is_free, count_free,
  first_free_block, set_fat, set_log, save_transaction_logs, blocks_needed, not_opened,
  restore_from_disk,
}
use soi_24z.Fs.Blocks.{free_of, first_free}
use soi_24z.Fs.Grow.{link_new, extend, last_block, grow, FileWriteStatus, terminated, blocks_of}
use soi_24z.Fs.Grow.Links.{last_block-last}
use soi_24z.Fs.Repair.{
  clear_chain, roll_back, transaction_rollback, start_up, end_start, resize, clear_transaction_log,
}
use soi_24z.Fs.Transfer.{exceeds, write_open, write_file}
use soi_24z.Fs.Transfer.Back.{IsOpen}

-- The data files hold the state.
pub record IsSaved (fs : FileSystem) : Type 0 where
  pub fat : fs.disk.fat ≡ fs.fat
  pub fd_table : fs.disk.fd_table ≡ fs.fd_table
  pub memory : fs.disk.memory ≡ fs.memory
  pub file_count : fs.disk.file_count ≡ fs.file_count

-- The state `crashed` of the break-down: the first free block of `fs` is linked behind the last of
-- the blocks `s` and `bs`, and is the first new block of the log on the disk.
pub record Broken (fs : FileSystem) (s : ℕ) (bs : List ℕ) (crashed : FileSystem) : Type 0 where
  pub new : ℕ
  pub first : first_free_block fs.fat ≡ some new
  pub was_free : is_free (fs.fat new) ≡ true
  pub linked : crashed.fat ≡ update fs.fat (last_of s bs) (block new)
  pub logged : crashed.disk.transaction_log.first_new_block ≡ block new

-- The state `fs'` after the repair of `fs`, in which the file `i` was to grow behind its block `s`.
pub record Recovered (fs : FileSystem) (i s : ℕ) (fs' : FileSystem) : Type 0 where
  pub cut : fs'.fat s ≡ end_of_chain
  pub blocks : (n : ℕ) → (n == s) ≡ false → fs'.fat n ≡ fs.fat n
  pub resized :
      fs'.fd_table ≡ update fs.fd_table i (record (fs.fd_table i) { size = some ((s + 1) * 32) })
  pub same_memory : fs'.memory ≡ fs.memory
  pub same_count : fs'.file_count ≡ fs.file_count
  pub none_open : (n : ℕ) → fs'.open_file_fd_table n ≡ not_opened
  pub none_counted : fs'.opened_file_count ≡ 0
  pub saved : IsSaved fs'
  pub finished : fs'.disk.transaction_log.in_progress ≡ false

-- The rollback frees a block that is free, and ends the chain at the block `s`.
abbrev rolled : (i b s : ℕ) → FileSystem → FileSystem
rolled i b s fs =
    clear_transaction_log
      (set_fat s end_of_chain (set_fat b free_block (resize i ((s + 1) * 32) fs)))

clear_chain-free :
    (fs : FileSystem) (b : ℕ)
    → fs.fat b ≡ free_block
    → clear_chain 66 (block b) fs ≡ ok (set_fat b free_block fs)
unfolding clear_chain
clear_chain-free fs b free = ap (λ x. clear_chain 65 x (set_fat b free_block fs)) free

roll_back-rolled :
    (fs : FileSystem) (i b s : ℕ)
    → fs.fat b ≡ free_block
    → roll_back true (some i) (block b) (block s) fs ≡ ok (rolled i b s fs)
unfolding roll_back
roll_back-rolled fs i b s free = rw (clear_chain-free (resize i ((s + 1) * 32) fs) b free) refl

-- The state when the program breaks down: a block `b` is linked behind the block `last`.
abbrev logged : (i new_size : ℕ) → BlockNr → FileSystem → FileSystem
logged i new_size start fs = save_transaction_logs (
    set_log
      (record {
        in_progress = true;
        file_idx = some i;
        new_size = some new_size;
        last_valid_block = start;
        first_new_block = free_block;
      })
      fs)

extend-terminated :
    (left s b last : ℕ) (fs : FileSystem)
    → 0 < left
    → first_free_block fs.fat ≡ some b
    → last_block 65 (block s) fs ≡ ok last
    → fs.malfunction_flag ≡ true
    → extend left (block s) fs ≡ ok (terminated, link_new last b fs)
unfolding extend
extend-terminated zero s b last fs pos hit ends broken = absurd (omega arith)
extend-terminated (suc left) s b last fs pos hit ends broken =
    let linked = link_new last b fs in
    let stops =
      ap
        (λ f. elim f as (λ _. Run (FileWriteStatus × FileSystem)) [
          | true ↦ ok (terminated, linked)
          | false ↦ extend left (block s) (set_fat b end_of_chain linked)
        ])
        broken in
    rw (hit, extend, ends) stops

module _ (name : List ℕ) (fs : FileSystem) (i d size offset s : ℕ) (bs buffer : List ℕ)
    (o : IsOpen name fs i d size offset (s ∷ bs)) (saved : IsSaved fs)
    (broken : fs.malfunction_flag ≡ true)
    (longer : blocks_needed size < blocks_needed (offset + length buffer)) (short : length bs < 64)
    (b : ℕ) (hit : first_free_block fs.fat ≡ some b) (free : is_free (fs.fat b) ≡ true)
    (started : FileSystem) where
  abbrev new_size : ℕ
  new_size = offset + length buffer

  -- The state that the break-down leaves, and the one that the data files hold.
  abbrev broken_down : FileSystem
  broken_down = link_new (last_of s bs) b (logged i new_size (fs.fd_table d).starting_block fs)

  grow-terminated : grow i d new_size (fs.fd_table d).size fs ≡ ok (terminated, broken_down)
  unfolding grow
  grow-terminated =
      let before = logged i new_size (fs.fd_table d).starting_block fs in
      let more : 0 < blocks_needed new_size - blocks_of (fs.fd_table d).size =
        rw (o.has_size) (omega (arith, longer)) in
      let ends = last_block-last 65 s bs before o.chain.1 (omega (arith, short)) in
      let run =
        extend-terminated (blocks_needed new_size - blocks_of (fs.fd_table d).size) s b
          (last_of s bs) before more hit ends broken in
      let from =
        ap (λ x. extend (blocks_needed new_size - blocks_of (fs.fd_table d).size) x before)
          o.chain.0
        ∙ run in
      rw from refl

  write_file-terminated : write_file name buffer fs ≡ ok (terminated, broken_down)
  unfolding write_file write_open
  write_file-terminated =
      let there : ltb i 8 ≡ true = ground (arith, o.in_table) in
      let more : size < new_size = omega (arith, longer) in
      let past : exceeds new_size (fs.fd_table d).size ≡ true =
        rw (o.has_size) (ground (arith, more)) in
      rw (o.found, write_file, there, o.idx, o.at, past, grow-terminated) refl

  -- The program that starts again finds the data files, and in its memory whatever `started` has.
  abbrev restart : FileSystem
  restart = record started { disk = broken_down.disk }

  restarted :
      transaction_rollback (restore_from_disk restart)
      ≡ ok (rolled i b s (restore_from_disk restart))
  unfolding transaction_rollback
  restarted =
      let again = restore_from_disk restart in
      let same = ap (λ (f : ℕ → BlockNr). f b) saved.fat in
      ap (λ x. roll_back true (some i) (block b) x again) o.chain.0
      ∙ roll_back-rolled again i b s (same ∙ free_of (fs.fat b) free)

  -- The state after the constructor.
  abbrev recovered : FileSystem
  recovered = end_start (rolled i b s (restore_from_disk restart))

  start_up-recovered : start_up restart ≡ ok recovered
  unfolding start_up
  start_up-recovered = rw restarted refl

  recovered_blocks : (n : ℕ) → (n == s) ≡ false → recovered.fat n ≡ fs.fat n
  recovered_blocks n other =
      let disk : fs.disk.fat n ≡ fs.fat n = ap (λ (f : ℕ → BlockNr). f n) saved.fat in
      update_there (update fs.disk.fat b free_block) s end_of_chain n other
      ∙ elim (Bool-cases (n == b)) [
        | inl same ↦ rw same (
            sym (
              subst (λ k. fs.fat k ≡ free_block) (sym (eq_of_== n b same))
                (free_of (fs.fat b) free)))
        | inr else_ ↦ update_there fs.disk.fat b free_block n else_ ∙ disk
      ]

  recovered-Recovered : Recovered fs i s recovered
  recovered-Recovered = record {
    cut = update_here (update fs.disk.fat b free_block) s end_of_chain;
    blocks = recovered_blocks;
    resized =
        ap (λ (t : ℕ → FileDescriptor). update t i (record (t i) { size = some ((s + 1) * 32) }))
          saved.fd_table;
    same_memory = saved.memory;
    same_count = saved.file_count;
    none_open = λ n. refl;
    none_counted = refl;
    saved = record { fat = refl; fd_table = refl; memory = refl; file_count = refl };
    finished = refl;
  }

-- Where the data files hold the state, some block is free, and a write to a file that is open in the
-- slot of its index needs more blocks than the file has: if the program is told to break down, it
-- does so with the first free block linked behind the last one of the file and named in the log on
-- the disk; and the constructor that then runs, whatever the memory of the program holds, ends with
-- the memory, the number of files, every other descriptor and every entry of the table of blocks as
-- before the write, but for two: the first block of the file is the end of its chain, which is what
-- it was if the file has one block, and the size of the file is 32 times the number of that block
-- and one. No file is open, no transaction is in progress, and the data files hold the state.
pub write_file-Recovered :
    (name : List ℕ) (fs : FileSystem) (i size offset s : ℕ) (bs buffer : List ℕ)
    (started : FileSystem)
    → IsOpen name fs i i size offset (s ∷ bs)
    → IsSaved fs
    → fs.malfunction_flag ≡ true
    → blocks_needed size < blocks_needed (offset + length buffer)
    → length bs < 64
    → 0 < count_free 64 fs.fat
    → (crashed : FileSystem) × (fs' : FileSystem) × (write_file name buffer fs
        ≡ ok (terminated, crashed))
      × Broken fs s bs crashed
      × (start_up (record started { disk = crashed.disk }) ≡ ok fs')
      × Recovered fs i s fs'
write_file-Recovered name fs i size offset s bs buffer started o saved broken longer short
      some_free =
    let (b, hit, free, lt) = first_free fs.fat some_free in
    (
      broken_down name fs i i size offset s bs buffer o saved broken longer short b hit free
          started,
      recovered name fs i i size offset s bs buffer o saved broken longer short b hit free started,
      write_file-terminated name fs i i size offset s bs buffer o saved broken longer short b hit
          free started,
      record { new = b; first = hit; was_free = free; linked = refl; logged = refl },
      start_up-recovered name fs i i size offset s bs buffer o saved broken longer short b hit free
          started,
      recovered-Recovered name fs i i size offset s bs buffer o saved broken longer short b hit free
          started,
    )
