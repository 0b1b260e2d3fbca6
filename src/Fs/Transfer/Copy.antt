-- ===== src/Fs/Transfer/Copy.antt =====
-- What is copied into the blocks of a chain is read out of them.
use mathlib.Core.List.{append-nil}
use soi_24z.Base.{
  ℕ, zero, suc, ◌+◌, ◌-◌, ◌*◌, ◌/◌, ◌<◌, ◌≤◌, ◌≡◌, refl, sym, ap, ◌∙◌, ◌⊎◌, true, false, inl, inr,
  List, [], ◌∷◌, ◌++◌, arith, ltb, ◌==◌, Bool-cases, ok, length, Distinct, has, update, subst,
}
use soi_24z.Fs.{FileSystem, BlockNr, block}
use soi_24z.Fs.Blocks.{ChainOf}
use soi_24z.Fs.Transfer.{min, take, drop, slice, store, read_bytes, write_bytes}

store-out :
    (at : ℕ) (xs : List ℕ) (memory : ℕ → ℕ) (a : ℕ)
    → (a < at) ⊎ (at + length xs ≤ a)
    → store at xs memory a ≡ memory a
unfolding store
store-out at [] memory a off = refl
store-out at (x ∷ xs) memory a off =
    let other : (a == at) ≡ false = ground (arith, off) in
    store-out (suc at) xs (update memory at x) a (ground (arith, off)) ∙ rw other refl

slice-same :
    (m m' : ℕ → ℕ) (from n : ℕ)
    → ((a : ℕ) → from ≤ a → a < from + n → m' a ≡ m a)
    → slice m' from n ≡ slice m from n
unfolding slice
slice-same m m' from zero same = refl
slice-same m m' from (suc n) same =
    rw
      (
        same from (omega arith) (omega arith),
        slice-same m m' (suc from) n (λ a ge lt. same a (omega arith) (omega arith)),
      )
      refl

slice-store :
    (at : ℕ) (xs : List ℕ) (memory : ℕ → ℕ) → slice (store at xs memory) at (length xs) ≡ xs
unfolding slice store
slice-store at [] memory = refl
slice-store at (x ∷ xs) memory =
    let here : (at == at) ≡ true = ground arith in
    let first : store (suc at) xs (update memory at x) at ≡ x =
      store-out (suc at) xs (update memory at x) at (inl (omega arith)) ∙ rw here refl in
    rw (first, slice-store (suc at) xs (update memory at x)) refl

length-take : (xs : List ℕ) (n : ℕ) → length (take xs n) ≡ min n (length xs)
length-take [] n = ground arith
length-take (x ∷ xs) zero = ground arith
length-take (x ∷ xs) (suc n) = ground (arith, length-take xs n)

length-drop : (xs : List ℕ) (n : ℕ) → length (drop xs n) ≡ length xs - n
length-drop [] n = omega arith
length-drop (x ∷ xs) zero = omega arith
length-drop (x ∷ xs) (suc n) = omega (arith, length-drop xs n)

take-append-drop : (xs : List ℕ) (n : ℕ) → take xs n ++ drop xs n ≡ xs
take-append-drop [] n = refl
take-append-drop (x ∷ xs) zero = refl
take-append-drop (x ∷ xs) (suc n) = rw (take-append-drop xs n) refl

nothing_left : (xs : List ℕ) → length xs ≡ 0 → xs ≡ []
nothing_left [] h = refl
nothing_left (x ∷ xs) h = absurd (omega arith)

some_left : (xs : List ℕ) → 0 < length xs → (y : ℕ) × (ys : List ℕ) × (xs ≡ y ∷ ys)
some_left [] h = absurd (omega arith)
some_left (y ∷ ys) h = (y, ys, refl)

-- The bytes are in the memory, and stay there as long as no one writes to the blocks.
pub record Wrote (fuel : ℕ) (xs : List ℕ) (n : ℕ) (bs : List ℕ) (off : ℕ) (fs : FileSystem)
    : Type 0 where
  pub memory : ℕ → ℕ
  pub run : write_bytes fuel xs (block n) off fs ≡ ok (record fs { memory = memory })
  pub others : (a : ℕ) → has (a / 32) (n ∷ bs) ≡ false → memory a ≡ fs.memory a
  pub reads :
      (fuel' : ℕ) (fs' : FileSystem)
      → length xs < fuel'
      → fs'.memory ≡ memory
      → fs'.fat ≡ fs.fat
      → read_bytes fuel' (length xs) (block n) off fs' ≡ ok xs

module _ (fuel x : ℕ) (xs : List ℕ) (n off : ℕ) (fs : FileSystem) (small : off < 32) where
  abbrev bytes : ℕ
  bytes = min (32 - off) (length (x ∷ xs))

  abbrev chunk : List ℕ
  chunk = take (x ∷ xs) bytes

  abbrev stored : ℕ → ℕ
  stored = store (n * 32 + off) chunk fs.memory

  bytes-le : (bytes ≤ 32 - off) × (length chunk ≡ bytes)
  bytes-le = (ground arith, length-take (x ∷ xs) bytes ∙ ground arith)

  stored_others : (a : ℕ) → (a / 32 == n) ≡ false → stored a ≡ fs.memory a
  stored_others a other =
      let (le, len) = bytes-le in
      store-out (n * 32 + off) chunk fs.memory a (away (ground (arith, other)) le len)
    where
      away :
          (a / 32 < n) ⊎ (n < a / 32)
          → bytes ≤ 32 - off
          → length chunk ≡ bytes
          → (a < n * 32 + off) ⊎ (n * 32 + off + length chunk ≤ a)
      away (inl h) le len = inl (omega arith)
      away (inr h) le len = inr (omega arith)

  -- The chunk is read out of a memory that has it.
  stored_reads :
      (m : ℕ → ℕ)
      → ((a : ℕ) → n * 32 + off ≤ a → a < n * 32 + off + bytes → m a ≡ stored a)
      → slice m (n * 32 + off) bytes ≡ chunk
  stored_reads m same =
      let (le, len) = bytes-le in
      slice-same stored m (n * 32 + off) bytes same
      ∙ (ap (slice stored (n * 32 + off)) (sym len) ∙ slice-store (n * 32 + off) chunk fs.memory)

  module _ (fs' : FileSystem) where
    -- The first round of a read.
    read_last :
        (fuel' : ℕ)
        → length (x ∷ xs) ≤ 32 - off
        → length (x ∷ xs) < fuel'
        → fs'.memory ≡ stored
        → read_bytes fuel' (length (x ∷ xs)) (block n) off fs' ≡ ok (x ∷ xs)
    unfolding read_bytes
    read_last zero le enough em = absurd (omega arith)
    read_last (suc fuel') le enough em =
        let all : suc (length xs) - bytes ≡ 0 = ground arith in
        let empty : drop (x ∷ xs) bytes ≡ [] =
          nothing_left (drop (x ∷ xs) bytes) (length-drop (x ∷ xs) bytes ∙ all) in
        let whole : chunk ≡ x ∷ xs =
          sym (append-nil chunk)
          ∙ (ap (λ (l : List ℕ). chunk ++ l) (sym empty) ∙ take-append-drop (x ∷ xs) bytes) in
        rw (all, read_bytes)
          (ap (λ (l : List ℕ). ok l)
            (stored_reads fs'.memory (λ a ge lt. ap (λ (m : ℕ → ℕ). m a) em) ∙ whole))

    read_more :
        (fuel' y : ℕ) (ys : List ℕ) (m : ℕ)
        → drop (x ∷ xs) bytes ≡ y ∷ ys
        → fs'.fat n ≡ block m
        → ((a : ℕ) → n * 32 + off ≤ a → a < n * 32 + off + bytes → fs'.memory a ≡ stored a)
        → length (x ∷ xs) < fuel'
        → ((f : ℕ)
            → length (y ∷ ys) < f
            → read_bytes f (length (y ∷ ys)) (block m) 0 fs' ≡ ok (y ∷ ys))
        → read_bytes fuel' (length (x ∷ xs)) (block n) off fs' ≡ ok (x ∷ xs)
    unfolding read_bytes
    read_more zero y ys m more link same enough rest = absurd (omega arith)
    read_more (suc fuel') y ys m more link same enough rest =
        let left : suc (length xs) - bytes ≡ suc (length ys) =
          sym (length-drop (x ∷ xs) bytes) ∙ ap (length {0}) more in
        let pos : 0 < bytes = ground (arith, small) in
        rw (left, read_bytes, link, rest fuel' (omega (arith, left, pos)))
          (ap (λ (l : List ℕ). ok (l ++ y ∷ ys)) (stored_reads fs'.memory same)
            ∙ ap (λ (l : List ℕ). ok l)
                (ap (λ (l : List ℕ). chunk ++ l) (sym more) ∙ take-append-drop (x ∷ xs) bytes))

  Wrote-all : (bs : List ℕ) → length (x ∷ xs) ≤ 32 - off → Wrote (suc fuel) (x ∷ xs) n bs off fs
  unfolding write_bytes
  Wrote-all bs le =
      let all : suc (length xs) - bytes ≡ 0 = ground arith in
      let empty : drop (x ∷ xs) bytes ≡ [] =
        nothing_left (drop (x ∷ xs) bytes) (length-drop (x ∷ xs) bytes ∙ all) in
      record {
        memory = stored;
        run = rw (empty, write_bytes) refl;
        others = λ a out. stored_others a (ground (arith, out));
        reads = λ fuel' fs' enough em ef. read_last fs' fuel' le enough em;
      }

  Wrote-more :
      (y : ℕ) (ys : List ℕ) (m : ℕ) (bs : List ℕ)
      → drop (x ∷ xs) bytes ≡ y ∷ ys
      → fs.fat n ≡ block m
      → has n (m ∷ bs) ≡ false
      → Wrote fuel (y ∷ ys) m bs 0 (record fs { memory = stored })
      → Wrote (suc fuel) (x ∷ xs) n (m ∷ bs) off fs
  unfolding write_bytes
  Wrote-more y ys m bs more link apart w = record {
    memory = w.memory;
    run = rw (more, write_bytes, link) w.run;
    others = λ a out. w.others a (ground (arith, out)) ∙ stored_others a (ground (arith, out));
    reads = λ fuel' fs' enough em ef.
        read_more fs' fuel' y ys m more (ap (λ (f : ℕ → BlockNr). f n) ef ∙ link)
          (λ a ge lt.
            let (le, len) = bytes-le in
            let at : a / 32 ≡ n = omega arith in
            ap (λ (m : ℕ → ℕ). m a) em
            ∙ w.others a (subst (λ k. has k (m ∷ bs) ≡ false) (sym at) apart))
          enough (λ f enough'. w.reads f fs' enough' em ef);
  }

-- A write into a chain that is long enough.
pub write_bytes-Wrote :
    (fuel : ℕ) (xs : List ℕ) (n : ℕ) (bs : List ℕ) (off : ℕ) (fs : FileSystem)
    → ChainOf fs.fat (fs.fat n) bs
    → Distinct (n ∷ bs)
    → off < 32
    → off + length xs ≤ 32 * suc (length bs)
    → length xs < fuel
    → Wrote fuel xs n bs off fs
unfolding write_bytes read_bytes
write_bytes-Wrote zero xs n bs off fs c d small room enough = absurd (omega arith)
write_bytes-Wrote (suc fuel) [] n bs off fs c d small room enough = record {
  memory = fs.memory;
  run = refl;
  others = λ a out. refl;
  reads = λ fuel' fs' enough' em ef. read_none fuel' fs' enough';
}
  where
    read_none :
        (fuel' : ℕ) (fs' : FileSystem) → 0 < fuel' → read_bytes fuel' 0 (block n) off fs' ≡ ok []
    read_none zero fs' h = absurd (omega arith)
    read_none (suc fuel') fs' h = refl
write_bytes-Wrote (suc fuel) (x ∷ xs) n [] off fs c d small room enough =
    Wrote-all fuel x xs n off fs small [] (omega arith)
write_bytes-Wrote (suc fuel) (x ∷ xs) n (m ∷ bs) off fs (link, c) (out, d) small room enough =
    elim (Bool-cases (ltb (32 - off) (length (x ∷ xs)))) [
      | inr fits ↦ Wrote-all fuel x xs n off fs small (m ∷ bs) (ground (arith, fits))
      | inl longer ↦
          let many = bytes fuel x xs n off fs small in
          let gone = length-drop (x ∷ xs) many in
          let (y, ys, more) = some_left (drop (x ∷ xs) many) (ground (arith, gone, longer)) in
          let left : suc (length ys) ≡ length (x ∷ xs) - many = sym (ap (length {0}) more) ∙ gone in
          let whole : many ≡ 32 - off = ground (arith, longer) in
          Wrote-more fuel x xs n off fs small y ys m bs more link out (
            write_bytes-Wrote fuel (y ∷ ys) m bs 0
              (record fs { memory = stored fuel x xs n off fs small }) c d (omega arith)
              (omega (arith, left, whole)) (omega (arith, left, whole)))
    ]
