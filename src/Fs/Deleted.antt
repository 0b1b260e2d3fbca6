-- ===== src/Fs/Deleted.antt =====
-- What delete_ of file-system/fs.cpp does to the files.
pub mod First
use soi_24z.Base.{
  ℕ, zero, suc, ◌+◌, ◌-◌, ◌<◌, ◌≤◌, ◌≡◌, refl, ap, sym, ◌∙◌, subst, ◌⊎◌, inl, inr, Bool, true,
  false, none, some, Option, List, [], ◌∷◌, arith, ◌==◌, ltb, leb, if◌then◌else◌, Bool-cases,
  eq_of_==, update, update_here, update_there, Ptr, ptr_eq, ok, length, Distinct, has, has-apart,
}
use soi_24z.Fs.{
  FileSystem, FileDescriptor, OpenedFile, BlockNr, free_block, empty_file_descriptor, not_opened,
  set_fat, set_log, save_to_disk, set_in_progress, find_file_index_by_name, first_index, name_eq,
}
use soi_24z.Fs.Blocks.{ChainOf, ChainOf-same, first_index-some}
use soi_24z.Fs.Files.{
  set_slot, free_chain, shift_files, close_opened, delete_file, FileDeleteStatus, deleted,
}
use soi_24z.Fs.Grow.Links.{clear_chain-Cleared}
use soi_24z.Fs.Recovery.{IsSaved}
use soi_24z.Fs.Repair.{clear_chain}

-- The file with the index `i` and the blocks `bs` has gone from `fs`.
pub record Deleted (i : ℕ) (bs : List ℕ) (fs fs' : FileSystem) : Type 0 where
  pub freed : (n : ℕ) → fs'.fat n ≡ (if has n bs then free_block else fs.fat n)
  pub moved : (j : ℕ) → suc j < fs.file_count → fs'.fd_table j ≡ fs.fd_table (suc j)
  pub emptied : (j : ℕ) → suc j ≡ fs.file_count → fs'.fd_table j ≡ empty_file_descriptor
  pub unused : (j : ℕ) → fs.file_count ≤ j → fs'.fd_table j ≡ fs.fd_table j
  pub count : suc fs'.file_count ≡ fs.file_count
  pub same_memory : fs'.memory ≡ fs.memory
  pub slots :
      (j : ℕ)
      → (fs'.open_file_fd_table j ≡ fs.open_file_fd_table j)
        ⊎ ((fs'.open_file_fd_table j ≡ not_opened) × ((fs.open_file_fd_table j).idx ≡ some i))
  pub saved : IsSaved fs'
  pub finished : fs'.disk.transaction_log.in_progress ≡ false

-- On a chain that ends the two loops that free blocks do the same.
free_chain-clear_chain :
    (fuel : ℕ) (b : BlockNr) (bs : List ℕ) (fs : FileSystem)
    → ChainOf fs.fat b bs
    → Distinct bs
    → free_chain fuel b fs ≡ clear_chain fuel b fs
unfolding free_chain clear_chain
free_chain-clear_chain zero b bs fs c d = refl
free_chain-clear_chain (suc fuel) b [] fs e d = rw (e, free_chain, clear_chain) refl
free_chain-clear_chain (suc fuel) b (m ∷ bs) fs (e, c) (out, d) =
    let freed = set_fat m free_block fs in
    let rest =
      free_chain-clear_chain fuel (fs.fat m) bs freed
        (ChainOf-same fs.fat freed.fat (fs.fat m) bs
          (λ n h. update_there fs.fat m free_block n (has-apart n m bs h out)) c)
        d in
    rw (e, free_chain, clear_chain) rest

-- What became of the open files.
abbrev Shut : (file_idx : ℕ) → (slots slots' : ℕ → OpenedFile) → Type 0
Shut file_idx slots slots' =
    (j : ℕ) → (slots' j ≡ slots j) ⊎ ((slots' j ≡ not_opened) × ((slots j).idx ≡ some file_idx))

Shut-more :
    (i file_idx : ℕ) (slots slots' : ℕ → OpenedFile)
    → (slots i).idx ≡ some file_idx
    → Shut file_idx (update slots i not_opened) slots'
    → Shut file_idx slots slots'
Shut-more i file_idx slots slots' at s j = elim (Bool-cases (j == i)) [
  | inl same ↦
      let e : j ≡ i = eq_of_== j i same in
      let there : update slots i not_opened j ≡ not_opened = rw same refl in
      inr (elim (s j) [ inl kept ↦ kept ∙ there | inr (gone, open_) ↦ gone ], rw e at)
  | inr other ↦
      let there = update_there slots i not_opened j other in
      elim (s j) [
        | inl kept ↦ inl (kept ∙ there)
        | inr (gone, open_) ↦
            inr (gone, subst (λ (f : OpenedFile). f.idx ≡ some file_idx) there open_)
      ]
]

ptr_eq-some : (p : Ptr) (n : ℕ) → ptr_eq p (some n) ≡ true → p ≡ some n
ptr_eq-some none n h = absurd (cc)
ptr_eq-some (some m) n h = ap some (eq_of_== m n h)

-- The loop over the open files ends, and closes only the deleted one.
close_opened-Shut :
    (fuel i file_idx : ℕ) (fs : FileSystem)
    → fs.opened_file_count ≤ 8
    → fs.opened_file_count < i + fuel
    → 0 < fuel
    → (slots : ℕ → OpenedFile) × (n : ℕ) × (close_opened fuel i file_idx fs
        ≡ ok (record fs { open_file_fd_table = slots; opened_file_count = n }))
      × Shut file_idx fs.open_file_fd_table slots
unfolding close_opened
close_opened-Shut zero i file_idx fs few enough pos = absurd (omega arith)
close_opened-Shut (suc fuel) i file_idx fs few enough pos =
    elim (Bool-cases (ltb i fs.opened_file_count)) [
      | inr past ↦
          (fs.open_file_fd_table, fs.opened_file_count, rw (past, close_opened) refl, λ j. inl refl)
      | inl more ↦
          let there : ltb i 8 ≡ true = ground (arith, more, few) in
          let lt : i < fs.opened_file_count = ground (arith, more) in
          elim (Bool-cases (ptr_eq (fs.open_file_fd_table i).idx (some file_idx))) [
            | inl hit ↦
                let shut = record (set_slot i not_opened fs) {
                  opened_file_count = fs.opened_file_count - 1;
                } in
                let (slots, n, run, s) =
                  close_opened-Shut fuel (suc i) file_idx shut (omega (arith, few))
                    (omega (arith, lt, enough)) (omega (arith, lt, enough)) in
                (
                  slots,
                  n,
                  rw (more, there, close_opened, hit) run,
                  Shut-more i file_idx fs.open_file_fd_table slots
                      (ptr_eq-some (fs.open_file_fd_table i).idx file_idx hit) s,
                )
            | inr miss ↦
                let (slots, n, run, s) =
                  close_opened-Shut fuel (suc i) file_idx fs few (omega (arith, enough))
                    (omega (arith, lt, enough)) in
                (slots, n, rw (more, there, close_opened, miss) run, s)
          ]
    ]

pub found_below :
    (name : List ℕ) (fs : FileSystem) (i : ℕ)
    → find_file_index_by_name name fs ≡ some i
    → i < fs.file_count
unfolding find_file_index_by_name
found_below name fs i hit =
    let (good, ge, lt) =
      first_index-some fs.file_count 0 (λ j. name_eq (fs.fd_table j).name name) i hit in
    omega (arith, lt)

-- The descriptors behind the first one, each one place in front, and an empty one.
abbrev shifted : FileSystem → ℕ → FileDescriptor
shifted fs =
    update (λ j. if ltb j fs.file_count then fs.fd_table (suc j) else fs.fd_table j)
      (fs.file_count - 1) empty_file_descriptor

shifted_moved :
    (fs : FileSystem) (j : ℕ) → suc j < fs.file_count → shifted fs j ≡ fs.fd_table (suc j)
shifted_moved fs j lt =
    let other : (j == (fs.file_count - 1)) ≡ false = ground arith in
    let inside : ltb j fs.file_count ≡ true = ground arith in rw (other, inside) refl

shifted_emptied :
    (fs : FileSystem) (j : ℕ) → suc j ≡ fs.file_count → shifted fs j ≡ empty_file_descriptor
shifted_emptied fs j last =
    let here : (j == (fs.file_count - 1)) ≡ true = ground arith in rw here refl

shifted_unused :
    (fs : FileSystem) (j : ℕ) → 0 < fs.file_count → fs.file_count ≤ j → shifted fs j ≡ fs.fd_table j
shifted_unused fs j pos ge =
    let other : (j == (fs.file_count - 1)) ≡ false = ground arith in
    let outside : ltb j fs.file_count ≡ false = ground arith in rw (other, outside) refl

-- For a file whose blocks are a chain without repetition, in a table that is not full, with no more
-- open files than there are slots: `delete_` ends, frees exactly the blocks of the file, moves each
-- descriptor behind the first one place to the front, whichever file is deleted, empties the last
-- one, counts one file less, leaves each slot as it was or closes it, and then it held the deleted
-- file, and keeps the memory; all is saved, with no transaction in progress.
pub delete_file-Deleted :
    (name : List ℕ) (fs : FileSystem) (i : ℕ) (bs : List ℕ)
    → find_file_index_by_name name fs ≡ some i
    → ChainOf fs.fat (fs.fd_table i).starting_block bs
    → Distinct bs
    → length bs ≤ 64
    → fs.file_count < 16
    → fs.opened_file_count ≤ 8
    → (fs' : FileSystem) × (delete_file name fs ≡ ok (deleted, fs')) × Deleted i bs fs fs'
unfolding delete_file
delete_file-Deleted name fs i bs found chain distinct few room slots =
    let logged =
      set_log
        (record fs.transaction_log {
          in_progress = true;
          file_idx = some i;
          last_valid_block = (fs.fd_table i).starting_block;
        })
        fs in
    let (fat, run, now) =
      clear_chain-Cleared 66 (fs.fd_table i).starting_block bs logged chain distinct
        (omega (arith, few)) in
    let free =
      free_chain-clear_chain 66 (fs.fd_table i).starting_block bs logged chain distinct ∙ run in
    let fewer = record logged {
      fat = fat;
      fd_table = shifted fs;
      file_count = fs.file_count - 1;
    } in
    let (open_files, n, closed, s) =
      close_opened-Shut 17 0 i fewer slots (omega (arith, slots)) (omega arith) in
    let done = record fewer { open_file_fd_table = open_files; opened_file_count = n } in
    let in_table : ltb fs.file_count 16 ≡ true = ground (arith, room) in
    let pos = found_below name fs i found in
    (
      save_to_disk (set_in_progress false done),
      rw (found, delete_file, free, in_table, closed) refl,
      record {
        freed = now;
        moved = shifted_moved fs;
        emptied = shifted_emptied fs;
        unused = λ j ge. shifted_unused fs j (omega (arith, pos)) ge;
        count = omega (arith, pos);
        same_memory = refl;
        slots = s;
        saved = record { fat = refl; fd_table = refl; memory = refl; file_count = refl };
        finished = refl;
      },
    )
