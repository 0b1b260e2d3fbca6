-- ===== src/Kernel/Segments/Copies.antt =====
-- Copies between processes stay in their memories.
use soi_24z.Base.{ℕ, ◌+◌, ◌*◌, ◌^◌, ◌<◌, ◌≤◌, ◌≡◌, refl, false, ◌||◌, ◌==◌, some, arith}
use soi_24z.Kernel.Ipc.{done}
use soi_24z.Kernel.Machine.{Machine}
use soi_24z.Kernel.Proc.{MemMap, Kernel}
use soi_24z.Kernel.Segments.{umap, data_seg, vir_copy, Copy, checked_copy}
use soi_24z.Kernel.Segments.Bounds.{Inside, umap-Inside}

-- The physical addresses lie in the memory of the segment.
abbrev pub InMemory : Machine → MemMap → (addr bytes : ℕ) → Type 0
InMemory c map addr bytes =
    (map.mem_phys * 2 ^ c.click_shift ≤ addr)
    × (addr + bytes ≤ (map.mem_phys + map.mem_len) * 2 ^ c.click_shift)

checked_copy-ok :
    (src dst bytes : ℕ)
    → 0 < src
    → 0 < dst
    → checked_copy src dst bytes
      ≡ (done, some (record { src_phys = src; dst_phys = dst; bytes = bytes }))
checked_copy-ok src dst bytes a b =
    let valid : ((src == 0) || (dst == 0)) ≡ false = ground (arith, a, b) in rw valid refl

-- For bytes inside the data segments of both processes, neither of which starts at the physical
-- address 0, vir_copy copies that many bytes from the memory of the one segment to that of the other.
pub vir_copy-InMemory :
    (c : Machine) (k : Kernel) (src src_vir dst dst_vir bytes : ℕ)
    → Inside c (k.proc src).map_d src_vir bytes
    → Inside c (k.proc dst).map_d dst_vir bytes
    → 0 < (k.proc src).map_d.mem_phys * 2 ^ c.click_shift
    → 0 < (k.proc dst).map_d.mem_phys * 2 ^ c.click_shift
    → (copy : Copy) × (vir_copy c k src src_vir dst dst_vir bytes ≡ (done, some copy))
      × (copy.bytes ≡ bytes)
      × InMemory c (k.proc src).map_d copy.src_phys bytes
      × InMemory c (k.proc dst).map_d copy.dst_phys bytes
unfolding vir_copy
vir_copy-InMemory c k src src_vir dst dst_vir bytes from_it to_it s d =
    let r = umap c (k.proc src) data_seg src_vir bytes in
    let w = umap c (k.proc dst) data_seg dst_vir bytes in
    let (_, r_low, r_high) = umap-Inside c (k.proc src) src_vir bytes from_it in
    let (_, w_low, w_high) = umap-Inside c (k.proc dst) dst_vir bytes to_it in
    (
      record { src_phys = r; dst_phys = w; bytes = bytes },
      checked_copy-ok r w bytes (omega (arith, r_low, s)) (omega (arith, w_low, d)),
      refl,
      (r_low, r_high),
      (w_low, w_high),
    )
