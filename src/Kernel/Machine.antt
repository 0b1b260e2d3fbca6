-- ===== src/Kernel/Machine.antt =====
-- The configuration of the kernel that its sources take from headers outside the repository.
use soi_24z.Base.{ℕ, Bool}

-- A process number n stands for the entry n + NR_TASKS of the process table, and is given by the
-- index of that entry. `nr` is the number of entries, `idle`, `hardware`, `mm` and `fs` are those of
-- IDLE, HARDWARE, MM_PROC_NR and FS_PROC_NR, `first_server` is NR_TASKS. `click_shift`, `mess_size`,
-- `allow_gap` and `ksig` are CLICK_SHIFT, MESS_SIZE, ALLOW_GAP_MESSAGES and KSIG.
pub record Machine : Type 0 where
  pub nr : ℕ
  pub idle : ℕ
  pub hardware : ℕ
  pub mm : ℕ
  pub fs : ℕ
  pub first_server : ℕ
  pub click_shift : ℕ
  pub mess_size : ℕ
  pub allow_gap : Bool
  pub ksig : ℕ
