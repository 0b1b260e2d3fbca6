-- ===== src/Fs/Grow/Steps.antt =====
-- A transaction that lets a file grow, with the blocks that it has linked so far.
use soi_24z.Base.{
  ℕ, suc, ◌<◌, ◌≡◌, refl, ap, sym, ◌∙◌, subst, ◌⊎◌, true, false, some, inl, inr, List, [], ◌∷◌,
  ◌++◌, arith, ◌==◌, Bool-cases, eq_of_==, update, update_there, Distinct, has, has-append, last_of,
  append-Distinct, has-apart,
}
use soi_24z.Fs.{
  FileSystem, FileDescriptor, BlockNr, free_block, end_of_chain, block, is_free, count_free,
  set_fat,
}
use soi_24z.Fs.Blocks.{ChainOf, count_free-taken, count_free-same}
use soi_24z.Fs.Grow.{log_first, link_new}
use soi_24z.Fs.Grow.Links.{ChainOf-snoc, has-last_of, sym_apart, chain_used}

abbrev pub head_of : List ℕ → BlockNr
head_of [] = free_block
head_of (n ∷ bs) = block n

-- A transaction that lets the file `i` grow: its block `s`, and behind it the blocks `new` that
-- were free in the table `fat0`. The descriptors, the memory and the number of files are given.
pub record Grown (fat0 : ℕ → BlockNr) (files : ℕ → FileDescriptor) (memory : ℕ → ℕ) (count s i : ℕ)
    (new : List ℕ) (fs : FileSystem) : Type 0 where
  pub chain : ChainOf fs.fat (fs.fat s) new
  pub distinct : Distinct (s ∷ new)
  pub small : (n : ℕ) → has n (s ∷ new) ≡ true → n < 64
  pub were_free : (n : ℕ) → has n new ≡ true → is_free (fat0 n) ≡ true
  pub others : (n : ℕ) → has n (s ∷ new) ≡ false → fs.fat n ≡ fat0 n
  pub first : fs.transaction_log.first_new_block ≡ head_of new
  pub running : fs.transaction_log.in_progress ≡ true
  pub file : fs.transaction_log.file_idx ≡ some i
  pub valid : fs.transaction_log.last_valid_block ≡ block s
  pub calm : fs.malfunction_flag ≡ false
  pub same_files : fs.fd_table ≡ files
  pub same_memory : fs.memory ≡ memory
  pub same_count : fs.file_count ≡ count

-- What the log has to do with a new block.
record Logged (v : BlockNr) (b : ℕ) (fs : FileSystem) : Type 0 where
  fat : (log_first v b fs).fat ≡ fs.fat
  running : (log_first v b fs).transaction_log.in_progress ≡ fs.transaction_log.in_progress
  file : (log_first v b fs).transaction_log.file_idx ≡ fs.transaction_log.file_idx
  valid : (log_first v b fs).transaction_log.last_valid_block ≡ fs.transaction_log.last_valid_block
  calm : (log_first v b fs).malfunction_flag ≡ fs.malfunction_flag
  files : (log_first v b fs).fd_table ≡ fs.fd_table
  memory : (log_first v b fs).memory ≡ fs.memory
  count : (log_first v b fs).file_count ≡ fs.file_count

log_first-Logged : (v : BlockNr) (b : ℕ) (fs : FileSystem) → Logged v b fs
log_first-Logged free_block b fs = record {
  fat = refl;
  running = refl;
  file = refl;
  valid = refl;
  calm = refl;
  files = refl;
  memory = refl;
  count = refl;
}
log_first-Logged end_of_chain b fs = record {
  fat = refl;
  running = refl;
  file = refl;
  valid = refl;
  calm = refl;
  files = refl;
  memory = refl;
  count = refl;
}
log_first-Logged (block n) b fs = record {
  fat = refl;
  running = refl;
  file = refl;
  valid = refl;
  calm = refl;
  files = refl;
  memory = refl;
  count = refl;
}

logged_first :
    (v : BlockNr) (b : ℕ) (new : List ℕ) (fs : FileSystem)
    → v ≡ head_of new
    → fs.transaction_log.first_new_block ≡ v
    → (log_first v b fs).transaction_log.first_new_block ≡ head_of (new ++ b ∷ [])
logged_first free_block b [] fs e at = refl
logged_first free_block b (n ∷ new) fs e at = absurd (cc)
logged_first end_of_chain b [] fs e at = absurd (cc)
logged_first end_of_chain b (n ∷ new) fs e at = absurd (cc)
logged_first (block m) b [] fs e at = absurd (cc)
logged_first (block m) b (n ∷ new) fs e at = at ∙ e

Distinct-last :
    (n : ℕ) (bs : List ℕ) (b : ℕ)
    → Distinct (n ∷ bs)
    → has b (n ∷ bs) ≡ false
    → Distinct (n ∷ bs ++ b ∷ [])
Distinct-last n bs b d out =
    append-Distinct (n ∷ bs) (b ∷ []) d (refl, tt)
      (λ a h. ground (arith, has-apart a b (n ∷ bs) h out))

module _ (fat0 : ℕ → BlockNr) (files : ℕ → FileDescriptor) (memory : ℕ → ℕ) (count s i : ℕ) where
  -- The state after one more block.
  abbrev pub longer : List ℕ → ℕ → FileSystem → FileSystem
  longer new b fs = set_fat b end_of_chain (link_new (last_of s new) b fs)

  module _ (new : List ℕ) (b : ℕ) (fs : FileSystem) (g : Grown fat0 files memory count s i new fs)
      (free : is_free (fs.fat b) ≡ true) (lt : b < 64) where
    abbrev logs : Logged fs.transaction_log.first_new_block b fs
    logs = log_first-Logged fs.transaction_log.first_new_block b fs

    fresh : has b (s ∷ new) ≡ false
    fresh = elim (Bool-cases (has b (s ∷ new))) [
      | inr absent ↦ absent
      | inl present ↦ absurd (cc (chain_used fs.fat s new b g.chain present, free))
    ]

    -- The table after the round.
    longer_fat :
        (longer new b fs).fat ≡ update (update fs.fat (last_of s new) (block b)) b end_of_chain
    longer_fat =
        ap (λ (f : ℕ → BlockNr). update (update f (last_of s new) (block b)) b end_of_chain)
          logs.fat

    longer_others : (n : ℕ) → has n (s ∷ new ++ b ∷ []) ≡ false → (longer new b fs).fat n ≡ fs.fat n
    longer_others n out =
        let parts = has-append n (s ∷ new) (b ∷ []) in
        let far : has n (s ∷ new) ≡ false = ground (arith, parts, out) in
        let other : (n == b) ≡ false = ground (arith, parts, out) in
        let off : (n == last_of s new) ≡ false =
          sym_apart (last_of s new) n
            (has-apart (last_of s new) n (s ∷ new) (has-last_of s new) far) in
        ap (λ (f : ℕ → BlockNr). f n) longer_fat
        ∙ (update_there (update fs.fat (last_of s new) (block b)) b end_of_chain n other
            ∙ update_there fs.fat (last_of s new) (block b) n off)

    pub longer_count : suc (count_free 64 (longer new b fs).fat) ≡ count_free 64 fs.fat
    longer_count =
        let l = last_of s new in
        let mid = update fs.fat l (block b) in
        let last_used = chain_used fs.fat s new l g.chain (has-last_of s new) in
        let same = count_free-same 64 fs.fat mid λ n lt'. elim (Bool-cases (n == l)) [
          | inl at ↦
              rw at
                (sym (subst (λ j. is_free (fs.fat j) ≡ false) (sym (eq_of_== n l at)) last_used))
          | inr other ↦ rw other refl
        ] in
        let off : (b == l) ≡ false =
          sym_apart l b (has-apart l b (s ∷ new) (has-last_of s new) fresh) in
        let mid_free : is_free (mid b) ≡ true = rw off free in
        let taken = count_free-taken 64 b mid end_of_chain lt mid_free refl in
        rw longer_fat (omega (arith, same, taken))

    in_new : (n : ℕ) (bs : List ℕ) → has n (bs ++ b ∷ []) ≡ true → (n ≡ b) ⊎ (has n bs ≡ true)
    in_new n bs h = elim (Bool-cases (n == b)) [
      | inl same ↦ inl (eq_of_== n b same)
      | inr other ↦ inr (ground (arith, h, other, has-append n bs (b ∷ [])))
    ]

    pub longer-Grown : Grown fat0 files memory count s i (new ++ b ∷ []) (longer new b fs)
    longer-Grown = record {
      chain =
          subst (λ (f : ℕ → BlockNr). ChainOf f (f s) (new ++ b ∷ [])) (sym longer_fat)
            (ChainOf-snoc fs.fat s new b g.chain g.distinct fresh);
      distinct = Distinct-last s new b g.distinct fresh;
      small = λ n h. elim (in_new n (s ∷ new) h) [
        | inl at ↦ subst (λ k. k < 64) (sym at) lt
        | inr old ↦ g.small n old
      ];
      were_free = λ n h. elim (in_new n new h) [
        | inl at ↦
            subst (λ k. is_free (fat0 k) ≡ true) (sym at)
              (sym (ap is_free (g.others b fresh)) ∙ free)
        | inr old ↦ g.were_free n old
      ];
      others = λ n out.
          longer_others n out ∙ g.others n (ground (arith, has-append n (s ∷ new) (b ∷ []), out));
      first = logged_first fs.transaction_log.first_new_block b new fs g.first refl;
      running = logs.running ∙ g.running;
      file = logs.file ∙ g.file;
      valid = logs.valid ∙ g.valid;
      calm = logs.calm ∙ g.calm;
      same_files = logs.files ∙ g.same_files;
      same_memory = logs.memory ∙ g.same_memory;
      same_count = logs.count ∙ g.same_count;
    }
