-- ===== src/Kernel/Segments/Bounds.antt =====
-- Where the physical addresses of `umap` lie.
use native.Mathlib.Nat.{div-lt_iff_lt-mul, mul-le-mul_left, one-le-pow, add-mul}
use soi_24z.Base.{
  ℕ, ◌+◌, ◌-◌, ◌*◌, ◌/◌, ◌^◌, ◌<◌, ◌≤◌, ◌≡◌, sym, subst, true, false, ltb, leb, ◌==◌, u32, arith,
}
use soi_24z.Kernel.Machine.{Machine}
use soi_24z.Kernel.Proc.{MemMap, Proc}
use soi_24z.Kernel.Segments.{umap, data_seg, segment_for, mem_end}

-- An address inside of a segment, in clicks, and in the other memory.
module _ (p dv dl : ℕ) (pos : 0 < p) (fits : (dv + dl) * p < 2 ^ 32) where
  end_u32 : u32 (dv + dl) ≡ dv + dl
  end_u32 =
      let low : (dv + dl) * 1 ≤ (dv + dl) * p = mul-le-mul_left (dv + dl) pos in
      omega (arith, fits, low)

  click_below : (x : ℕ) → x < (dv + dl) * p → x / p < u32 (dv + dl)
  click_below x h = subst (λ e. x / p < e) (sym end_u32) ((div-lt_iff_lt-mul pos).1 h)

  translated :
      (dp v b : ℕ)
      → dv * p ≤ v
      → v + b ≤ (dv + dl) * p
      → (dp + dl) * p < 2 ^ 32
      → let r = u32 (u32 (dp * p) + (v + 2 ^ 32 - u32 (dv * p))) in
        (r + dv * p ≡ dp * p + v) × (dp * p ≤ r) × (r + b ≤ (dp + dl) * p)
  translated dp v b above below there =
      let ev = add-mul dv dl p in
      let ep = add-mul dp dl p in
      (omega (arith, fits, ev, ep), omega (arith, fits, ev, ep), omega (arith, fits, ev, ep))

lt→ltb : (a b : ℕ) → a < b → ltb a b ≡ true
lt→ltb a b h = ground (arith, h)

lt→leb : (a b : ℕ) → b < a → leb a b ≡ false
lt→leb a b h = ground (arith, h)

-- The bytes from `vir_addr` on lie in the segment, whose end stays below 2^32 both in the memory of
-- the process and in the physical one.
pub record Inside (c : Machine) (map : MemMap) (vir_addr bytes : ℕ) : Type 0 where
  pub some_bytes : 0 < bytes
  pub above : map.mem_vir * 2 ^ c.click_shift ≤ vir_addr
  pub below : vir_addr + bytes ≤ (map.mem_vir + map.mem_len) * 2 ^ c.click_shift
  pub vir_fits : (map.mem_vir + map.mem_len) * 2 ^ c.click_shift < 2 ^ 32
  pub phys_fits : (map.mem_phys + map.mem_len) * 2 ^ c.click_shift < 2 ^ 32

-- For bytes inside the data segment `umap` gives the physical address that is as far from the start
-- of the segment, and all the bytes from there on lie in the memory of the segment.
pub umap-Inside :
    (c : Machine) (rp : Proc) (vir_addr bytes : ℕ)
    → Inside c rp.map_d vir_addr bytes
    → let r = umap c rp data_seg vir_addr bytes in
      let start = rp.map_d.mem_phys * 2 ^ c.click_shift in
      (r + rp.map_d.mem_vir * 2 ^ c.click_shift ≡ start + vir_addr)
      × (start ≤ r)
      × (r + bytes ≤ (rp.map_d.mem_phys + rp.map_d.mem_len) * 2 ^ c.click_shift)
unfolding umap segment_for
umap-Inside c rp vir_addr bytes h =
    let map = rp.map_d in
    let p = 2 ^ c.click_shift in
    let pos : 0 < p = one-le-pow c.click_shift 2 (omega arith) in
    let last : ltb (u32 (vir_addr + bytes - 1) / p) (mem_end map) ≡ true = lt→ltb _ _ (
      click_below p map.mem_vir map.mem_len pos h.vir_fits (u32 (vir_addr + bytes - 1))
        (omega (arith, h.some_bytes, h.below, h.vir_fits))) in
    let first : leb (mem_end map) (vir_addr / p) ≡ false = lt→leb _ _ (
      click_below p map.mem_vir map.mem_len pos h.vir_fits vir_addr
        (omega (arith, h.some_bytes, h.below))) in
    let some : (bytes == 0) ≡ false = ground (arith, h.some_bytes) in
    rw some (
      rw last (
        rw first (
          translated p map.mem_vir map.mem_len pos h.vir_fits map.mem_phys vir_addr bytes h.above
            h.below h.phys_fits)))
