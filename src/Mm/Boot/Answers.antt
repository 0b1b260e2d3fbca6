-- ===== src/Mm/Boot/Answers.antt =====
-- The calls of do_mem name each chunk once, and mem_init takes them all.
use soi_24z.Base.{
  ℕ, zero, suc, ◌+◌, ◌^◌, ◌<◌, ◌≡◌, refl, sym, ap, ◌∙◌, true, false, ◌==◌, if◌then◌else◌, Option,
  some, List, [], ◌∷◌, Run, ok, panic, fault, out_of_fuel, ◌>>=◌, length, arith, Bool-cases, inl,
  inr,
}
use soi_24z.Mm.Boot.{Mems, do_mem, answers}
use soi_24z.Mm.Holes.Blocks.{Block, Gapped, covers}
use soi_24z.Mm.Holes.Merge.{Holds}
use soi_24z.Mm.Setup.{Reply, Memory, chunk_loop, add_chunk, link_all, make_separate, mem_init}
use soi_24z.Mm.Setup.Ready.{given, Chunks, in_chunks, mem_init-Chunks}

-- The chunks that are not empty, as answers.
unfoldable pub named : (tot_mem_size : ℕ) → Mems → List Reply
named tot [] = []
named tot ((b, n) ∷ mems) =
    let rest = named tot mems in
    if n == 0 then rest else record { base = b; size = n; all_memory = tot } ∷ rest

-- What one call does: it names the first chunk that is not empty and empties it, or answers 0.
data Asked (tot : ℕ) (mems : Mems) (r : Reply) (mems' : Mems) : Type 0 where
  one_more : (r.size == 0) ≡ false → named tot mems ≡ r ∷ named tot mems' → Asked tot mems r mems'
  no_more : named tot mems ≡ [] → (r.size == 0) ≡ true → Asked tot mems r mems'

named-empty :
    (tot b n : ℕ) (mems : Mems) → (n == 0) ≡ true → named tot ((b, n) ∷ mems) ≡ named tot mems
unfolding named
named-empty tot b n mems e = rw e refl

named-some :
    (tot b n : ℕ) (mems : Mems)
    → (n == 0) ≡ false
    → named tot ((b, n) ∷ mems) ≡ record { base = b; size = n; all_memory = tot } ∷ named tot mems
unfolding named
named-some tot b n mems e = rw e refl

Asked-skip :
    (tot b n : ℕ) (mems : Mems) (r : Reply) (mems' : Mems)
    → (n == 0) ≡ true
    → Asked tot mems r mems'
    → Asked tot ((b, n) ∷ mems) r ((b, 0) ∷ mems')
Asked-skip tot b n mems r mems' e (one_more some_size same) = one_more some_size (
    named-empty tot b n mems e
    ∙ same
    ∙ ap (λ (l : List Reply). r ∷ l) (sym (named-empty tot b 0 mems' refl)))
Asked-skip tot b n mems r mems' e (no_more same no_size) =
    no_more (named-empty tot b n mems e ∙ same) no_size

do_mem-Asked :
    (tot : ℕ) (m : Reply) (mems : Mems)
    → (length mems ≡ 0 → (m.size == 0) ≡ true)
    → let a = do_mem tot m mems in Asked tot mems a.0 a.1
unfolding do_mem named
do_mem-Asked tot m [] empty = no_more refl (empty refl)
do_mem-Asked tot m ((b, n) ∷ mems) empty =
    let r : Reply = record { base = b; size = n; all_memory = tot } in
    elim (Bool-cases (n == 0)) [
      | inl none_here ↦
          let a = do_mem tot r mems in
          rw none_here (
            Asked-skip tot b n mems a.0 a.1 none_here (do_mem-Asked tot r mems (λ same. none_here)))
      | inr some_here ↦ rw some_here (
          one_more some_here (
            named-some tot b n mems some_here
            ∙ ap (λ (l : List Reply). r ∷ l) (sym (named-empty tot b 0 mems refl))))
    ]

length-do_mem : (tot : ℕ) (m : Reply) (mems : Mems) → length ((do_mem tot m mems).1) ≡ length mems
unfolding do_mem
length-do_mem tot m [] = refl
length-do_mem tot m ((b, n) ∷ mems) = elim (Bool-cases (n == 0)) [
  | inl e ↦ rw e (ap suc (length-do_mem tot (record { base = b; size = n; all_memory = tot }) mems))
  | inr e ↦ rw e refl
]

>>=-same :
    (r : Run Memory) (f g : Memory → Run Memory)
    → ((a : Memory) → f a ≡ g a)
    → (r >>= f) ≡ (r >>= g)
>>=-same (ok a) f g same = same a
>>=-same panic f g same = refl
>>=-same fault f g same = refl
>>=-same out_of_fuel f g same = refl

module _ (nr : ℕ) (r : Reply) (rs : List (Option Reply)) (mem : Memory) where
  chunk_loop-more :
      (r.size == 0) ≡ false
      → chunk_loop nr (some r ∷ rs) mem ≡ (add_chunk nr r mem >>= λ mem'. chunk_loop nr rs mem')
  unfolding chunk_loop
  chunk_loop-more e = rw (e, chunk_loop) refl

  chunk_loop-end :
      (r.size == 0) ≡ true → chunk_loop nr (some r ∷ rs) mem ≡ chunk_loop nr (given []) mem
  unfolding chunk_loop
  chunk_loop-end e = rw (e, chunk_loop) refl

answers-suc :
    (calls tot : ℕ) (m : Reply) (mems : Mems)
    → let a = do_mem tot m mems in
      answers (suc calls) tot m mems ≡ some a.0 ∷ answers calls tot a.0 a.1
unfolding answers
answers-suc calls tot m mems = refl

-- The loop of mem_init takes the answers up to the one that names no chunk.
chunk_loop-answers :
    (nr calls tot : ℕ) (m : Reply) (mems : Mems) (mem : Memory)
    → 0 < length mems
    → length (named tot mems) < calls
    → chunk_loop nr (answers calls tot m mems) mem ≡ chunk_loop nr (given (named tot mems)) mem
chunk_loop-answers nr zero tot m mems mem some_mem few = absurd (omega arith)
chunk_loop-answers nr (suc calls) tot m mems mem some_mem few =
    let r = (do_mem tot m mems).0 in
    let mems' = (do_mem tot m mems).1 in
    let same_length = length-do_mem tot m mems in
    ap (λ l. chunk_loop nr l mem) (answers-suc calls tot m mems)
    ∙ go r mems' (do_mem-Asked tot m mems (λ e. absurd (omega (arith, e, some_mem)))) (λ mem1 fewer.
      chunk_loop-answers nr calls tot r mems' mem1 (omega (arith, same_length, some_mem)) fewer)
  where
    go :
        (r : Reply) (mems' : Mems)
        → Asked tot mems r mems'
        → ((mem1 : Memory)
            → length (named tot mems') < calls
            → chunk_loop nr (answers calls tot r mems') mem1
              ≡ chunk_loop nr (given (named tot mems')) mem1)
        → chunk_loop nr (some r ∷ answers calls tot r mems') mem
          ≡ chunk_loop nr (given (named tot mems)) mem
    go r mems' (one_more some_size same) later =
        let fewer : length (named tot mems') < calls = omega (arith, few, ap (length {0}) same) in
        chunk_loop-more nr r (answers calls tot r mems') mem some_size
        ∙ >>=-same (add_chunk nr r mem) _ _ (λ mem1. later mem1 fewer)
        ∙ sym (chunk_loop-more nr r (given (named tot mems')) mem some_size)
        ∙ ap (λ (l : List Reply). chunk_loop nr (given l) mem) (sym same)
    go r mems' (no_more same no_size) later =
        chunk_loop-end nr r (answers calls tot r mems') mem no_size
        ∙ ap (λ (l : List Reply). chunk_loop nr (given l) mem) (sym same)

-- If the kernel has chunks of memory, mem_init asks for as many as are not empty and once more. If
-- there is an entry in the table, the swap area started low enough, and the chunks that are not
-- empty are as `Chunks` says, it then ends with exactly their addresses as unused memory, in holes
-- in order that do not touch.
pub mem_init-do_mem :
    (nr_holes tot_mem_size : ℕ) (m : Reply) (mems : Mems) (mem : Memory)
    → 0 < nr_holes
    → mem.swap_base + 1 < 2 ^ 32
    → 0 < length mems
    → Chunks nr_holes [] (named tot_mem_size mems)
    → let calls = suc (length (named tot_mem_size mems)) in
      (mem' : Memory) × (bs : List Block) × (mem_init nr_holes
          (answers calls tot_mem_size m mems)
          mem
        ≡ ok mem')
      × Holds nr_holes mem'.table bs
      × Gapped 0 bs
      × ((a : ℕ) → covers a bs ≡ in_chunks a (named tot_mem_size mems))
unfolding mem_init
mem_init-do_mem nr tot m mems mem some_room low some_mem c =
    let calls = suc (length (named tot mems)) in
    let start : Memory = record mem { table = link_all nr mem.table.hole; free = 0 } in
    let (mem', bs, run, holds, gapped, all, _, _) =
      mem_init-Chunks nr (named tot mems) mem some_room low c in
    (
      mem',
      bs,
      ap (λ r. r >>= λ x. ok (make_separate x))
            (chunk_loop-answers nr calls tot m mems start some_mem (omega arith))
          ∙ run,
      holds,
      gapped,
      all,
    )
