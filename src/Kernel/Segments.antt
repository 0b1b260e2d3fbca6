-- ===== src/Kernel/Segments.antt =====
-- Addresses of processes: umap, numap, do_umap, vir_copy and do_copy of
-- scheduling/src/kernel/system.c, for CHIP == INTEL. An address has 32 bits; the answer 0 says that
-- an address is not valid. A copy by phys_copy is the value of the model's type Copy.
pub mod Bounds
pub mod Copies
use soi_24z.Base.{
  ℕ, ◌+◌, ◌-◌, ◌*◌, ◌/◌, ◌^◌, Bool, true, false, ◌||◌, ltb, leb, ◌==◌, if◌then◌else◌, Option, none,
  some, u32,
}
use soi_24z.Kernel.Ipc.{Status, done, efault}
use soi_24z.Kernel.Machine.{Machine}
use soi_24z.Kernel.Proc.{MemMap, Proc, Kernel}

-- T, D and S.
pub data Segment : Type 0 where
  text_seg data_seg stack_seg : Segment

abbrev pub mem_end : MemMap → ℕ
mem_end map = u32 (map.mem_vir + map.mem_len)

-- The segment for an address whose last click is `vc`: D could really be S and vice versa.
unfoldable pub segment_for : Proc → Segment → (vc : ℕ) → MemMap
segment_for rp text_seg vc = rp.map_t
segment_for rp _ vc = if ltb vc (mem_end rp.map_d) then rp.map_d else rp.map_s

unfoldable pub umap : Machine → Proc → Segment → (vir_addr bytes : ℕ) → ℕ
unfolding segment_for
umap c rp seg vir_addr bytes =
    let vc = u32 (vir_addr + bytes - 1) / 2 ^ c.click_shift in
    let map = segment_for rp seg vc in
    let seg_base = u32 (map.mem_phys * 2 ^ c.click_shift) in
    if bytes == 0
    then 0
    else if leb (mem_end map) (vir_addr / 2 ^ c.click_shift)
    then 0
    else u32 (seg_base + (vir_addr + 2 ^ 32 - u32 (map.mem_vir * 2 ^ c.click_shift)))

abbrev pub numap : Machine → Kernel → (proc_nr vir_addr bytes : ℕ) → ℕ
numap c k proc_nr vir_addr bytes = umap c (k.proc proc_nr) data_seg vir_addr bytes

abbrev pub do_umap : Machine → Kernel → (proc_nr : ℕ) → Segment → (vir_addr bytes : ℕ) → Status × ℕ
do_umap c k proc_nr seg vir_addr bytes = (done, umap c (k.proc proc_nr) seg vir_addr bytes)

-- `phys_copy(src_phys, dst_phys, bytes)`
pub record Copy : Type 0 where
  pub src_phys : ℕ
  pub dst_phys : ℕ
  pub bytes : ℕ

-- A copy between two physical addresses, unless one of them is not valid.
abbrev pub checked_copy : (src_phys dst_phys bytes : ℕ) → Status × Option Copy
checked_copy src_phys dst_phys bytes =
    if (src_phys == 0) || (dst_phys == 0)
    then (efault, none)
    else (done, some (record { src_phys = src_phys; dst_phys = dst_phys; bytes = bytes }))

unfoldable pub vir_copy :
    Machine → Kernel → (src_proc src_vir dst_proc dst_vir bytes : ℕ) → Status × Option Copy
unfolding umap
vir_copy c k src_proc src_vir dst_proc dst_vir bytes =
    checked_copy (umap c (k.proc src_proc) data_seg src_vir bytes)
      (umap c (k.proc dst_proc) data_seg dst_vir bytes) bytes

-- One end of a `do_copy`: `none` is ABS.
pub record End : Type 0 where
  pub proc_nr : Option ℕ
  pub space : Segment
  pub buffer : ℕ

unfoldable pub end_phys : Machine → Kernel → End → (bytes : ℕ) → ℕ
unfolding umap
end_phys c k e bytes = elim e.proc_nr [
  | none ↦ e.buffer
  | some i ↦ umap c (k.proc i) e.space e.buffer bytes
]

abbrev pub do_copy : Machine → Kernel → (src dst : End) → (bytes : ℕ) → Status × Option Copy
do_copy c k src dst bytes = checked_copy (end_phys c k src bytes) (end_phys c k dst bytes) bytes
