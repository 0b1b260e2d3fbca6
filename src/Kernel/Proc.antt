-- ===== src/Kernel/Proc.antt =====
-- The process table and the static variables of scheduling/src/kernel/proc.h that the models of
-- proc.c share.
use soi_24z.Base.{ℕ, ◌≡◌, Bool, Ptr, update, Run, fault, none, some, List, not, ◌||◌}

-- PPRI_NONE to PPRI_IDLE.
pub data Priority : Type 0 where
  ppri_none ppri_task ppri_server ppri_user ppri_idle : Priority

-- The rdy_head and rdy_tail indices.
pub data Queue : Type 0 where
  task_q server_q user_q : Queue

-- The bits of `p_flags`, and the test `p_flags == 0`.
pub record Flags : Type 0 where
  pub no_map : Bool
  pub sending : Bool
  pub receiving : Bool
  pub pending : Bool
  pub sig_pending : Bool
  pub p_stop : Bool

abbrev pub runnable : Flags → Bool
runnable f = not (f.no_map || f.sending || f.receiving || f.pending || f.sig_pending || f.p_stop)

-- One segment of a memory map, in clicks.
pub record MemMap : Type 0 where
  pub mem_vir : ℕ
  pub mem_phys : ℕ
  pub mem_len : ℕ

-- The registers that the modelled code names.
pub record Registers : Type 0 where
  pub pc : ℕ
  pub sp : ℕ
  pub fp : ℕ
  pub retreg : ℕ

-- Where a message comes from or goes to: ANY, or a process by the index of its entry.
pub data Source : Type 0 where
  any : Source
  from : ℕ → Source

-- What a message carries: words, or the SIG_PROC and SIG_MAP of a KSIG message.
pub data Body : Type 0 where
  words : List ℕ → Body
  signals : ℕ → (ℕ → Bool) → Body

-- A message: its source by the index of its entry, its type, and all else.
pub record Message : Type 0 where
  pub m_source : ℕ
  pub m_type : ℕ
  pub body : Body

-- The fields of `struct proc` that the modelled code reads or writes. `stack_ok` says that the
-- word at `p_stguard` is STACK_GUARD; `map_t`, `map_d` and `map_s` are the segments of `p_map`;
-- `p_messbuf` is the address of a buffer in the memory of the process; `p_pending` tells for each
-- signal if it is in the set; `p_name` holds the characters of the name.
pub record Proc : Type 0 where
  pub p_nr : ℕ
  pub stack_ok : Bool
  pub p_int_blocked : Bool
  pub p_int_held : Bool
  pub p_nextheld : Ptr
  pub p_flags : Flags
  pub map_t : MemMap
  pub map_d : MemMap
  pub map_s : MemMap
  pub p_reg : Registers
  pub p_pid : ℕ
  pub p_priority : Priority
  pub user_time : ℕ
  pub sys_time : ℕ
  pub child_utime : ℕ
  pub child_stime : ℕ
  pub p_alarm : ℕ
  pub p_callerq : Ptr
  pub p_sendlink : Ptr
  pub p_messbuf : ℕ
  pub p_getfrom : Source
  pub p_sendto : ℕ
  pub p_nextready : Ptr
  pub p_pending : ℕ → Bool
  pub p_pendcount : ℕ
  pub p_name : List ℕ
  pub group : ℕ

-- The process table, the queue headers, and the static variables of proc.c and system.c; a queue
-- header is an index or the nil pointer. `memory` holds the message at each address of the memory
-- of each process.
pub record Kernel : Type 0 where
  pub proc : ℕ → Proc
  pub head_task : Ptr
  pub head_server : Ptr
  pub head_user : Ptr
  pub tail_task : Ptr
  pub tail_server : Ptr
  pub tail_user : Ptr
  pub proc_ptr : ℕ
  pub bill_ptr : ℕ
  pub held_head : Ptr
  pub held_tail : Ptr
  pub switching : Bool
  pub sig_procs : ℕ
  pub memory : ℕ → ℕ → Message

abbrev pub rdy_head : Queue → Kernel → Ptr
rdy_head task_q k = k.head_task
rdy_head server_q k = k.head_server
rdy_head user_q k = k.head_user

abbrev pub rdy_tail : Queue → Kernel → Ptr
rdy_tail task_q k = k.tail_task
rdy_tail server_q k = k.tail_server
rdy_tail user_q k = k.tail_user

abbrev pub set_head : Queue → Ptr → Kernel → Kernel
set_head task_q p k = record k { head_task = p }
set_head server_q p k = record k { head_server = p }
set_head user_q p k = record k { head_user = p }

abbrev pub set_tail : Queue → Ptr → Kernel → Kernel
set_tail task_q p k = record k { tail_task = p }
set_tail server_q p k = record k { tail_server = p }
set_tail user_q p k = record k { tail_user = p }

abbrev pub set_proc : ℕ → Proc → Kernel → Kernel
set_proc i v k = record k { proc = update k.proc i v }

-- `i->p_nextready = p`
abbrev pub set_nextready : ℕ → Ptr → Kernel → Kernel
set_nextready i p k = set_proc i (record (k.proc i) { p_nextready = p }) k

abbrev pub nextready : Kernel → ℕ → Ptr
nextready k i = (k.proc i).p_nextready

-- A use of the entry that a pointer leads to.
abbrev pub deref {ℓ} : {A : Type ℓ} → Ptr → (ℕ → Run A) → Run A
deref none f = fault
deref (some i) f = f i

pub deref-some {ℓ} : {A : Type ℓ} (p : Ptr) (i : ℕ) (f : ℕ → Run A) → p ≡ some i → deref p f ≡ f i
deref-some p i f e = rw e
