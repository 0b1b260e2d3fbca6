-- ===== src/Fs/Grow/Undone.antt =====
-- A file of one block that cannot grow: the table of blocks is as before.
use soi_24z.Base.{
  ℕ, zero, suc, ◌+◌, ◌-◌, ◌*◌, ◌<◌, ◌≡◌, refl, ap, sym, ◌∙◌, subst, ◌⊎◌, true, false, Option, some,
  inl, inr, List, [], ◌∷◌, ◌++◌, arith, ◌==◌, if◌then◌else◌, Bool-cases, eq_of_==, update, ok, Run,
  length, Distinct, has, last_of, length-Distinct, option_cases,
}
use soi_24z.Fs.{
  FileSystem, FileDescriptor, BlockNr, free_block, end_of_chain, block, is_free, count_free,
  first_free_block, set_fat, set_log, save_transaction_logs, blocks_needed,
}
use soi_24z.Fs.Blocks.{ChainOf, first_index-some, free_of}
use soi_24z.Fs.Grow.{link_new, extend, FileWriteStatus, no_space, terminated, grow, blocks_of}
use soi_24z.Fs.Repair.{clear_chain, transaction_rollback, roll_back, resize, clear_transaction_log}
use soi_24z.Fs.Grow.Links.{last_block-last, clear_chain-Cleared}
use soi_24z.Fs.Grow.Steps.{head_of, Grown, longer, longer-Grown, longer_count}

module _ (fat0 : ℕ → BlockNr) (files : ℕ → FileDescriptor) (memory : ℕ → ℕ) (count s i : ℕ) where
  -- The table of blocks as it was, and the size that the rollback gives to the file.
  pub record Undone (fs : FileSystem) : Type 0 where
    pub blocks : (n : ℕ) → fs.fat n ≡ fat0 n
    pub resized : fs.fd_table ≡ update files i (record (files i) { size = some ((s + 1) * 32) })
    pub same_memory : fs.memory ≡ memory
    pub same_count : fs.file_count ≡ count
    pub finished : fs.transaction_log.in_progress ≡ false

  first_chain :
      (fat : ℕ → BlockNr) (new : List ℕ)
      → ChainOf fat (fat s) new
      → (new ≡ []) ⊎ ChainOf fat (head_of new) new
  first_chain fat [] c = inl refl
  first_chain fat (n ∷ new) (e, c) = inr (refl, c)

  -- The blocks of the transaction are freed.
  cleared :
      (new : List ℕ) (fs : FileSystem)
      → ChainOf fs.fat (fs.fat s) new
      → Distinct new
      → length new < 66
      → (fat : ℕ → BlockNr) × (clear_chain 66 (head_of new) fs ≡ ok (record fs { fat = fat }))
        × ((n : ℕ) → fat n ≡ (if has n new then free_block else fs.fat n))
  unfolding clear_chain
  cleared [] fs c d few = (fs.fat, refl, λ n. refl)
  cleared (n ∷ new) fs (e, c) d few = clear_chain-Cleared 66 (block n) (n ∷ new) fs (refl, c) d few

  as_before :
      (new : List ℕ) (fs : FileSystem)
      → Grown fat0 files memory count s i new fs
      → fat0 s ≡ end_of_chain
      → (fat : ℕ → BlockNr) → ((n : ℕ) → fat n ≡ (if has n new then free_block else fs.fat n))
      → (n : ℕ) → ((n == s) ≡ true) ⊎ ((n == s) ≡ false)
      → (has n new ≡ true) ⊎ (has n new ≡ false)
      → update fat s end_of_chain n ≡ fat0 n
  as_before new fs g end fat now n (inl at) u =
      rw at (sym (subst (λ k. fat0 k ≡ end_of_chain) (sym (eq_of_== n s at)) end))
  as_before new fs g end fat now n (inr other) (inl added) =
      let freed : fat n ≡ free_block = now n ∙ rw added refl in
      rw other (freed ∙ sym (free_of (fat0 n) (g.were_free n added)))
  as_before new fs g end fat now n (inr other) (inr old) =
      let kept : fat n ≡ fs.fat n = now n ∙ rw old refl in
      rw other (kept ∙ g.others n (ground (arith, other, old)))

  rollback-Undone :
      (new : List ℕ) (fs : FileSystem)
      → Grown fat0 files memory count s i new fs
      → fat0 s ≡ end_of_chain
      → (fs' : FileSystem) × (transaction_rollback fs ≡ ok fs') × Undone fs'
  unfolding transaction_rollback roll_back
  rollback-Undone new fs g end =
      let sized = resize i ((s + 1) * 32) fs in
      let few = length-Distinct 64 (s ∷ new) g.distinct g.small in
      let (fat, run, now) = cleared new sized g.chain g.distinct.1 (omega (arith, few)) in
      let fs' = clear_transaction_log (set_fat s end_of_chain (record sized { fat = fat })) in
      let log = fs.transaction_log in
      let read : roll_back log.in_progress log.file_idx log.first_new_block log.last_valid_block fs
          ≡ roll_back true (some i) (head_of new) (block s) fs =
        ap (λ x. roll_back x log.file_idx log.first_new_block log.last_valid_block fs) g.running
        ∙ (ap (λ x. roll_back true x log.first_new_block log.last_valid_block fs) g.file
            ∙ (ap (λ x. roll_back true (some i) x log.last_valid_block fs) g.first
                ∙ ap (λ x. roll_back true (some i) (head_of new) x fs) g.valid)) in
      (
        fs',
        read ∙ rw run refl,
        record {
          blocks =
              λ n. as_before new fs g end fat now n (Bool-cases (n == s)) (Bool-cases (has n new));
          resized =
              ap
                (λ (t : ℕ → FileDescriptor).
                  update t i (record (t i) { size = some ((s + 1) * 32) }))
                g.same_files;
          same_memory = g.same_memory;
          same_count = g.same_count;
          finished = refl;
        },
      )

  found :
      (fat : ℕ → BlockNr) (b : ℕ)
      → first_free_block fat ≡ some b
      → (is_free (fat b) ≡ true) × (b < 64)
  unfolding first_free_block
  found fat b hit =
      let (good, ge, lt) = first_index-some 64 0 (λ j. is_free (fat j)) b hit in (good, lt)

  extend-Undone :
      (left : ℕ) (new : List ℕ) (fs : FileSystem)
      → Grown fat0 files memory count s i new fs
      → fat0 s ≡ end_of_chain
      → count_free 64 fs.fat < left
      → (fs' : FileSystem) × (extend left (block s) fs ≡ ok (no_space, fs')) × Undone fs'
  unfolding extend
  extend-Undone zero new fs g end lack = absurd (omega arith)
  extend-Undone (suc left) new fs g end lack = elim (option_cases (first_free_block fs.fat)) [
    | inl full ↦
        let (fs', run, u) = rollback-Undone new fs g end in (fs', rw (full, extend, run) refl, u)
    | inr (b, hit) ↦
        let (free, lt) = found fs.fat b hit in
        let few = length-Distinct 64 (s ∷ new) g.distinct g.small in
        let last = last_block-last 65 s new fs g.chain (omega (arith, few)) in
        let fewer = longer_count fat0 files memory count s i new b fs g free lt in
        let (fs', run, u) =
          extend-Undone left (new ++ b ∷ []) (longer fat0 files memory count s i new b fs)
            (longer-Grown fat0 files memory count s i new b fs g free lt) end
            (omega (arith, fewer, lack)) in
        let linked = link_new (last_of s new) b fs in
        let calm : Run (FileWriteStatus × FileSystem) =
          extend left (block s) (set_fat b end_of_chain linked) in
        let goes_on =
          ap
            (λ f. elim f as (λ _. Run (FileWriteStatus × FileSystem)) [
              | true ↦ ok (terminated, linked)
              | false ↦ calm
            ])
            g.calm in
        (fs', rw (hit, extend, last) (goes_on ∙ run), u)
  ]

-- A file of one block that is to grow by more blocks than are free, while the program is not told
-- to break down: the write answers that there is no space, and the table of blocks, the memory and
-- the other descriptors are as before, whatever blocks were linked on the way. The size of the
-- file does not stay: it becomes 32 times the number of the block and one.
pub grow-Undone :
    (fs : FileSystem) (i d s new_size : ℕ) (file_size : Option ℕ)
    → (fs.fd_table d).starting_block ≡ block s
    → fs.fat s ≡ end_of_chain
    → s < 64
    → fs.malfunction_flag ≡ false
    → count_free 64 fs.fat < blocks_needed new_size - blocks_of file_size
    → (fs' : FileSystem) × (grow i d new_size file_size fs ≡ ok (no_space, fs'))
      × Undone fs.fat fs.fd_table fs.memory fs.file_count s i fs'
unfolding grow
grow-Undone fs i d s new_size file_size start end lt calm lack =
    let logged = save_transaction_logs (
      set_log
        (record {
          in_progress = true;
          file_idx = some i;
          new_size = some new_size;
          last_valid_block = (fs.fd_table d).starting_block;
          first_new_block = free_block;
        })
        fs) in
    let g : Grown fs.fat fs.fd_table fs.memory fs.file_count s i [] logged = record {
      chain = end;
      distinct = (refl, tt);
      small = λ n h. subst (λ k. k < 64) (sym (eq_of_== n s (ground (arith, h)))) lt;
      were_free = λ n h. absurd (cc);
      others = λ n out. refl;
      first = refl;
      running = refl;
      file = refl;
      valid = start;
      calm = calm;
      same_files = refl;
      same_memory = refl;
      same_count = refl;
    } in
    let (fs', run, u) =
      extend-Undone fs.fat fs.fd_table fs.memory fs.file_count s i
        (blocks_needed new_size - blocks_of file_size) [] logged g end lack in
    let from : extend (blocks_needed new_size - blocks_of file_size) (fs.fd_table d).starting_block
          logged
        ≡ ok (no_space, fs') =
      ap (λ b. extend (blocks_needed new_size - blocks_of file_size) b logged) start ∙ run in
    (fs', rw from refl, u)
