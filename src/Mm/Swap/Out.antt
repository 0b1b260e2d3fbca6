-- ===== src/Mm/Swap/Out.antt =====
-- swap_out: a process goes to the swap area, and no address is used twice.
use soi_24z.Base.{
  ℕ, zero, suc, ◌+◌, ◌-◌, ◌*◌, ◌<◌, ◌≤◌, ◌^◌, ◌≡◌, refl, sym, ◌∙◌, ap, subst, eq_of_==, ◌⊎◌, inl,
  inr, Bool, true, false, Option, none, some, arith, ◌==◌, ltb, if◌then◌else◌, Bool-cases, Run, ok,
  panic, update, update_here, update_there, u32, length, Ptr, last_ptr,
}
use soi_24z.Mm.Alloc.{bite}
use soi_24z.Mm.Holes.Chain.{slots}
use soi_24z.Mm.Holes.{HoleTable, free_mem}
use soi_24z.Mm.Swap.{
  Mproc, Memory, swap_size, move_segments, blocked, can_leave, put_table, call, write_out, swap_one,
  swap_loop, swap_out, next_candidate, lseek, rw_seg, sys_newmap, file_offset,
}
use soi_24z.Mm.Swap.Place.{SwapFit, find_swap-SwapFit}
use soi_24z.Mm.Swap.Sound.{Layout, Reserved, bite-Reserved, relocate}

-- Where the memory of a process starts, and how many clicks it has.
abbrev pub base_of : Memory → ℕ → ℕ
base_of m i = (m.mproc i).d_phys

abbrev pub size_of : Memory → ℕ → ℕ
size_of m i = swap_size (m.mproc i)

module _ (nr_holes click_shift low nr : ℕ) (live : ℕ → Bool) where
  -- A layout of the memory in which every process that may be swapped out takes part.
  pub record IsSound (m : Memory) : Type 0 where
    pub layout : Layout nr_holes live m.table (base_of m) (size_of m)
    pub blocked_live : (i : ℕ) → low ≤ i → i < nr → blocked (m.mproc i) ≡ true → live i ≡ true
    pub start : low ≤ m.outswap
    pub below : m.outswap < nr

  -- The process `i` has left for the address `b`, and nothing else of mproc[] was changed.
  pub record Gone (m m' : Memory) (i b : ℕ) : Type 0 where
    pub candidate : can_leave (m.mproc i) ≡ true
    pub in_swap : m.swap_base ≤ b
    pub here : m'.mproc i ≡ record (move_segments b (m.mproc i)) { onswap = true }
    pub there : (j : ℕ) → (j == i) ≡ false → m'.mproc j ≡ m.mproc j
    pub queue : m'.in_queue ≡ m.in_queue
    pub bound : m'.swap_base ≡ m.swap_base

  -- Why `swap_out` panics in the state `m`: the process `i` was to leave, the piece of its size was
  -- bitten off a hole of the swap area, and its own block could not be freed, since every entry of
  -- the table `table` that this left is a hole of the list.
  pub record Crowded (m : Memory) : Type 0 where
    pub leaving : ℕ
    pub candidate : can_leave (m.mproc leaving) ≡ true
    pub prev : Ptr
    pub hole : ℕ
    pub address : ℕ
    pub table : HoleTable
    pub bitten : bite (size_of m leaving) prev hole m.table ≡ ok (address, table)
    pub in_swap : m.swap_base ≤ address
    pub layout : Layout nr_holes live table (base_of m) (size_of m)
    pub all_used : length layout.holes ≡ nr_holes
    pub stuck : free_mem nr_holes (base_of m leaving) (size_of m leaving) table ≡ panic

  pub data SwapOutcome (m : Memory) (r : Run (Option Memory)) : Type 0 where
    full : Crowded m → r ≡ panic → SwapOutcome m r
    stays : r ≡ ok none → SwapOutcome m r
    leaves :
        (i b : ℕ) (m' : Memory)
        → low ≤ i
        → i < nr
        → r ≡ ok (some m')
        → IsSound m'
        → Gone m m' i b
        → SwapOutcome m r

  SwapOutcome-of :
      (m : Memory) (r r' : Run (Option Memory)) → r' ≡ r → SwapOutcome m r → SwapOutcome m r'
  SwapOutcome-of m r r' e o = subst (SwapOutcome m) (sym e) o

  module _ (m : Memory) (s : IsSound m) (i : ℕ) (ge : low ≤ i) (lt : i < nr) where
    write_out-Moved :
        (t : HoleTable) (b : ℕ)
        → live i ≡ true
        → can_leave (m.mproc i) ≡ true
        → m.swap_base ≤ b
        → (r : Reserved nr_holes live t (base_of m) (size_of m) b (size_of m i))
        → ((write_out nr_holes click_shift i (size_of m i) b (put_table t m) ≡ panic)
            × (length r.layout.holes ≡ nr_holes)
            × (free_mem nr_holes (base_of m i) (size_of m i) t ≡ panic))
          ⊎ ((m' : Memory) × (write_out nr_holes click_shift i (size_of m i) b (put_table t m)
                ≡ ok m')
              × IsSound (record m' { outswap = i })
              × Gone m m' i b)
    unfolding write_out
    write_out-Moved t b on can high r =
        let moved = record (move_segments b (m.mproc i)) { onswap = true } in
        let gone = move_segments b (m.mproc i) in
        let mid = update m.mproc i gone in
        let procs = update mid i moved in
        let here : procs i ≡ moved = update_here mid i moved in
        let there : (j : ℕ) → (j == i) ≡ false → procs j ≡ m.mproc j =
          λ j o. update_there mid i moved j o ∙ update_there m.mproc i gone j o in
        elim (relocate nr_holes live t (base_of m) (size_of m) i b (λ j. (procs j).d_phys)
          (λ j. swap_size (procs j)) on r (ap (λ (q : Mproc). q.d_phys) here) (ap swap_size here)
          (λ j o. (ap (λ (q : Mproc). q.d_phys) (there j o), ap swap_size (there j o)))) [
            | inl (p, all) ↦ inl (rw p refl, all, p)
            | inr (t', run, l) ↦ inr (
              record (call (sys_newmap i b (move_segments b (m.mproc i)).s_phys) (
                  call (rw_seg true i (u32 (size_of m i * 2 ^ click_shift)))
                    (call (lseek (file_offset click_shift b m)) m))) { table = t'; mproc = procs },
              rw run refl,
              record {
                layout = l;
                blocked_live = λ j gj lj bl. elim (Bool-cases (j == i)) [
                  | inl same ↦ subst (λ k. live k ≡ true) (sym (eq_of_== j i same)) on
                  | inr other ↦
                      s.blocked_live j gj lj
                        (subst (λ (q : Mproc). blocked q ≡ true) (there j other) bl)
                ];
                start = ge;
                below = lt;
              },
              record {
                candidate = can;
                in_swap = high;
                here = here;
                there = there;
                queue = refl;
                bound = refl;
              },
            )
          ]

  swap_one-Outcome :
      (m : Memory) (s : IsSound m) (i : ℕ)
      → low ≤ i
      → i < nr
      → SwapOutcome m (swap_one nr_holes click_shift i m)
  unfolding swap_one
  swap_one-Outcome m s i ge lt = elim (Bool-cases (can_leave (m.mproc i))) [
    | inr cannot ↦ stays (rw (cannot, swap_one) refl)
    | inl can ↦
        let on : live i ≡ true = s.blocked_live i ge lt (ground arith) in
        elim (find_swap-SwapFit m.table m.swap_base (size_of m i) (suc nr_holes) none
          m.table.hole_head s.layout.holds.cells s.layout.holds.is_holes.holes
          (omega (arith, s.layout.holds.all_slots))) [
            | SwapFit.none_fits found ↦ stays (rw (can, swap_one, found) refl)
            | SwapFit.fits pre h b n suf split high le found ↦
                let (t', run, r) =
                  bite-Reserved nr_holes live m.table (base_of m) (size_of m) s.layout pre h b n suf
                    (size_of m i) split le in
                elim (write_out-Moved m s i ge lt t' b on can high r) [
                  | inl (p, all, stuck) ↦
                      full
                        (record {
                          leaving = i;
                          candidate = can;
                          prev = last_ptr none (slots pre);
                          hole = h;
                          address = b;
                          table = t';
                          bitten = run;
                          in_swap = high;
                          layout = r.layout;
                          all_used = all;
                          stuck = stuck;
                        })
                        (rw (can, swap_one, found, run, p) refl)
                  | inr (m', e, s', g) ↦
                      leaves i b (record m' { outswap = i }) ge lt
                        (rw (can, swap_one, found, run, e) refl) s'
                        (record {
                          candidate = g.candidate;
                          in_swap = g.in_swap;
                          here = g.here;
                          there = g.there;
                          queue = g.queue;
                          bound = g.bound;
                        })
                ]
          ]
  ]

  -- How many rounds are left from `rmp` until the loop comes back to `o`.
  abbrev distance : ℕ → ℕ → ℕ
  distance rmp o = if ltb rmp o then o - rmp else (nr - rmp) + (o - low)

  swap_loop-Outcome :
      (fuel rmp : ℕ) (m : Memory) (s : IsSound m)
      → low ≤ rmp
      → rmp < nr
      → distance rmp m.outswap ≤ fuel
      → SwapOutcome m (swap_loop nr_holes click_shift low nr fuel rmp m)
  unfolding swap_loop
  swap_loop-Outcome zero rmp m s ge lt enough = absurd (ground (arith, s.start, s.below))
  swap_loop-Outcome (suc fuel) rmp m s ge lt enough =
      let i = next_candidate low nr rmp in
      let ge' : low ≤ i = ground arith in
      let lt' : i < nr = ground arith in
      elim (swap_one-Outcome m s i ge' lt') [
        | full crowd p ↦ full crowd (rw p refl)
        | leaves j b m' gj lj e s' g ↦ leaves j b m' gj lj (rw e refl) s' g
        | stays e ↦ elim (Bool-cases (i == m.outswap)) [
          | inl back ↦ stays (rw (e, back) refl)
          | inr on ↦
              SwapOutcome-of m (swap_loop nr_holes click_shift low nr fuel i m) _ (rw (e, on) refl)
                (swap_loop-Outcome fuel i m s ge' lt' (ground (arith, on, s.start, s.below)))
        ]
      ]

  pub swap_out-Outcome :
      (m : Memory) → IsSound m → SwapOutcome m (swap_out nr_holes click_shift low nr m)
  unfolding swap_out
  swap_out-Outcome m s =
      swap_loop-Outcome nr m.outswap m s s.start s.below (ground (arith, s.start, s.below))
