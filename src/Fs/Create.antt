-- ===== src/Fs/Create.antt =====
-- create: the blocks of a new file were free, and nothing of the other files changes.
mod Loop
use Loop.{Took, take_blocks-Took}
use soi_24z.Base.{
  ℕ, zero, suc, ◌+◌, ◌-◌, ◌/◌, ◌<◌, ◌≤◌, ◌≡◌, refl, ap, sym, ◌∙◌, subst, ◌⊎◌, Bool, true, false,
  none, some, inl, inr, List, [], ◌∷◌, arith, ltb, leb, ◌==◌, if◌then◌else◌, Bool-cases, eq_of_==,
  ltb→lt, ltb→le, update, update_here, update_there, Ptr, ok, Run, ◌>>=◌, length, Distinct, has,
  option_cases, has-apart,
}
use soi_24z.Fs.{
  FileSystem, FileDescriptor, BlockNr, end_of_chain, block, is_free, link, count_free,
  count_free_blocks, first_index, first_free_block, blocks_needed, duplicate_name, set_fat,
}
use soi_24z.Fs.Blocks.{
  ChainOf, ChainOf-same, first_index-same, first_index-some, first_free, count_free-same,
  count_free-taken,
}
use soi_24z.Fs.Files.{
  FileCreateStatus, created, invalid_name, too_many_files, duplicate_file, no_space, take_block,
  take_blocks, create_at, add_file, start_create, bad_name, create,
}

-- Which block a new file starts with, and how many it takes.
abbrev pub first_blocks : ℕ → ℕ
first_blocks size = if size == 0 then 1 else blocks_needed size

-- A new file: its descriptor behind the others, and blocks that were free.
pub record Made (name : List ℕ) (size : ℕ) (fs fs' : FileSystem) : Type 0 where
  pub blocks : List ℕ
  pub many : length blocks ≡ first_blocks size
  pub chain : ChainOf fs'.fat (fs'.fd_table fs.file_count).starting_block blocks
  pub distinct : Distinct blocks
  pub were_free : (n : ℕ) → has n blocks ≡ true → (is_free (fs.fat n) ≡ true) × (n < 64)
  pub others : (n : ℕ) → has n blocks ≡ false → fs'.fat n ≡ fs.fat n
  pub named : (fs'.fd_table fs.file_count).name ≡ name
  pub sized : (fs'.fd_table fs.file_count).size ≡ some size
  pub files : (j : ℕ) → (j == fs.file_count) ≡ false → fs'.fd_table j ≡ fs.fd_table j
  pub count : fs'.file_count ≡ fs.file_count + 1
  pub memory : fs'.memory ≡ fs.memory
  pub finished : fs'.transaction_log.in_progress ≡ false
  pub saved :
      (fs'.disk.memory ≡ fs'.memory)
      × (fs'.disk.fat ≡ fs'.fat)
      × (fs'.disk.fd_table ≡ fs'.fd_table)
      × (fs'.disk.transaction_log ≡ fs'.transaction_log)
      × (fs'.disk.file_count ≡ fs'.file_count)

-- Why a file was not created: a test that fails, behind the tests that come before it.
abbrev pub Reason : List ℕ → ℕ → FileSystem → FileCreateStatus → Type 0
Reason name size fs created = ⊥
Reason name size fs too_many_files = 16 ≤ fs.file_count
Reason name size fs invalid_name = (fs.file_count < 16) × (bad_name name ≡ true)
Reason name size fs duplicate_file =
    (fs.file_count < 16) × (bad_name name ≡ false) × (duplicate_name name fs ≡ true)
Reason name size fs no_space =
    (fs.file_count < 16)
    × (bad_name name ≡ false)
    × (duplicate_name name fs ≡ false)
    × ((count_free 64 fs.fat < blocks_needed size) ⊎ (count_free 64 fs.fat ≡ 0))

pub data Creation (name : List ℕ) (size : ℕ) (fs : FileSystem)
    (r : Run (FileCreateStatus × FileSystem)) : Type 0 where
  refused :
      (st : FileCreateStatus) → Reason name size fs st → r ≡ ok (st, fs) → Creation name size fs r
  made :
      (fs' : FileSystem)
      → fs.file_count < 16
      → bad_name name ≡ false
      → duplicate_name name fs ≡ false
      → r ≡ ok (created, fs')
      → Made name size fs fs'
      → Creation name size fs r

add_file-Made :
    (name : List ℕ) (size start : ℕ) (fs taken : FileSystem)
    → 0 < first_blocks size
    → Took (first_blocks size) (some start) fs taken
    → Made name size fs (add_file name size start taken)
add_file-Made name size start fs taken pos t =
    let file : FileDescriptor = record {
      name = name;
      starting_block = block start;
      size = some size;
    } in
    let here : update taken.fd_table taken.file_count file fs.file_count ≡ file =
      ap (update taken.fd_table taken.file_count file) (sym t.count)
      ∙ update_here taken.fd_table taken.file_count file in
    record {
      blocks = t.blocks;
      many = t.many;
      chain =
          subst (λ (f : FileDescriptor). ChainOf taken.fat f.starting_block t.blocks) (sym here)
            (t.chain pos);
      distinct = t.distinct;
      were_free = t.were_free;
      others = t.others;
      named = ap (λ (f : FileDescriptor). f.name) here;
      sized = ap (λ (f : FileDescriptor). f.size) here;
      files = λ j other.
          update_there taken.fd_table taken.file_count file j (ap (λ n. j == n) t.count ∙ other)
          ∙ ap (λ (f : ℕ → FileDescriptor). f j) t.files;
      count = ap (λ n. n + 1) t.count;
      memory = t.memory;
      finished = refl;
      saved = (refl, refl, refl, refl, refl);
    }

-- The one block of an empty file.
Took-one :
    (start : ℕ) (fs : FileSystem)
    → is_free (fs.fat start) ≡ true
    → start < 64
    → Took 1 (some start) fs (take_block start (start_create fs))
Took-one start fs was lt = record {
  blocks = start ∷ [];
  many = refl;
  chain = λ pos. (refl, update_here fs.fat start end_of_chain);
  distinct = (refl, tt);
  were_free = λ n h.
      let e : start ≡ n = sym (eq_of_== n start (ground (arith, h))) in
      (subst (λ k. is_free (fs.fat k) ≡ true) e was, subst (λ k. k < 64) e lt);
  others = λ n h. update_there fs.fat start end_of_chain n (ground (arith, h));
  files = refl;
  count = refl;
  memory = refl;
}

nothing_to_take : (p : Ptr) (fs : FileSystem) → take_blocks 0 p fs ≡ ok fs
unfolding take_blocks
nothing_to_take p fs = refl

-- With no free block the search finds none.
none_free : (fat : ℕ → BlockNr) → count_free 64 fat ≡ 0 → first_free_block fat ≡ none
unfolding first_free_block
none_free fat full = elim (option_cases (first_index 64 0 (λ i. is_free (fat i)))) [
  | inl miss ↦ miss
  | inr (c, hit) ↦
      let (good, ge, lt) = first_index-some 64 0 (λ i. is_free (fat i)) c hit in
      absurd (omega (arith, full, count_free-taken 64 c fat end_of_chain lt good refl))
]

create_at-Made :
    (name : List ℕ) (size start : ℕ) (fs : FileSystem)
    → first_free_block fs.fat ≡ some start
    → blocks_needed size ≤ count_free 64 fs.fat
    → is_free (fs.fat start) ≡ true
    → start < 64
    → (fs' : FileSystem) × (create_at name size start fs ≡ ok fs') × Made name size fs fs'
unfolding create_at
create_at-Made name size start fs first enough was lt = elim (Bool-cases (size == 0)) [
  | inl empty ↦
      let none_needed : blocks_needed size ≡ 0 = ground (arith, empty) in
      let one : first_blocks size ≡ 1 = rw empty refl in
      let taken = take_block start (start_create fs) in
      let run : take_blocks 0 (some start) taken ≡ ok taken = nothing_to_take (some start) taken in
      (
        add_file name size start taken,
        rw (none_needed, empty, run) refl,
        add_file-Made name size start fs taken (omega (arith, one))
            (subst (λ k. Took k (some start) fs taken) (sym one) (Took-one start fs was lt)),
      )
  | inr some_bytes ↦
      let all : first_blocks size ≡ blocks_needed size = rw some_bytes refl in
      let (taken, run, t) =
        take_blocks-Took (blocks_needed size) (some start) (start_create fs) first enough in
      (
        add_file name size start taken,
        rw (some_bytes, run) refl,
        add_file-Made name size start fs taken (ground (arith, all, some_bytes)) (
            subst (λ k. Took k (some start) fs taken) (sym all)
              (record {
                blocks = t.blocks;
                many = t.many;
                chain = t.chain;
                distinct = t.distinct;
                were_free = t.were_free;
                others = t.others;
                files = t.files;
                count = t.count;
                memory = t.memory;
              })),
      )
]

-- `create` refuses a new file and changes nothing, with the first reason in the order: there are 16
-- files, the name has not 1 to 10 characters, the name is in use, the free blocks are fewer than the
-- size needs or there is none. Or none of these holds, and the file is made: its descriptor stands
-- behind those of the others, its blocks were free and are a chain from its starting block, as many
-- as its size needs and at least one, also for the size 0; every other block and descriptor and the
-- memory are as they were; and the memory, the table of blocks, the descriptors, the log and the
-- number of files are saved.
pub create-Creation :
    (name : List ℕ) (size : ℕ) (fs : FileSystem) → Creation name size fs (create name size fs)
unfolding create count_free_blocks
create-Creation name size fs = elim (Bool-cases (leb 16 fs.file_count)) [
  | inl many ↦ refused too_many_files (ground (arith, many)) (rw (many, create) refl)
  | inr room ↦ elim (Bool-cases (bad_name name)) [
    | inl bad ↦ refused invalid_name (ground (arith, room), bad) (rw (room, create, bad) refl)
    | inr good ↦ elim (Bool-cases (duplicate_name name fs)) [
      | inl twice ↦
          refused duplicate_file (ground (arith, room), good, twice)
            (rw (room, create, good, twice) refl)
      | inr once ↦ elim (Bool-cases (ltb (count_free 64 fs.fat) (blocks_needed size))) [
        | inl few ↦
            refused no_space
              (
                ground (arith, room),
                good,
                once,
                inl (ltb→lt (count_free 64 fs.fat) (blocks_needed size) few),
              )
              (rw (room, create, good, once, few) refl)
        | inr enough ↦ elim (Bool-cases (ltb 0 (count_free 64 fs.fat))) [
          | inr full ↦
              let zero' : count_free 64 fs.fat ≡ 0 = ground (arith, full) in
              refused no_space (ground (arith, room), good, once, inr zero')
                (rw (room, create, good, once, enough, none_free fs.fat zero') refl)
          | inl free ↦
              let (c, hit, was, lt) = first_free fs.fat (ltb→lt 0 (count_free 64 fs.fat) free) in
              let (fs', run, out) =
                create_at-Made name size c fs hit
                  (ltb→le (count_free 64 fs.fat) (blocks_needed size) enough) was lt in
              made fs' (ground (arith, room)) good once
                (rw (room, create, good, once, enough, hit, run) refl) out
        ]
      ]
    ]
  ]
]
