-- ===== src/MsgQueue/Attach.antt =====
-- The constructor of `ShmMQ` and `ShmMQ::getmemory`, `init`, `fini` of shmutil/shm_msg_queue.cc. System
-- V shared memory is a parameter.
use shmutil.Base.{ℕ, Bool, true, false, Option, none, some, if◌then◌else◌}
use shmutil.Atomic.{minus_one}
use shmutil.ErrorCode.{ErrorCode, k_ok, k_err_shm_at, k_err_shm_get}
use shmutil.MsgQueue.{Shm, ShmMq, sub32, add32}

-- what `shmget(key, size, IPC_CREAT | IPC_EXCL | 0666)` comes to
pub data Created : Type 0 where
  created : ℕ → Created
  eexist : Created
  failed : Created

-- The system calls of `getmemory`: `shmget` for a new segment, `shmget(key, 0, 0644)` for one that is
-- there, and `shmat`, which shows the contents of the segment.
pub record Ipc : Type 0 where
  pub shmget_new : ℕ → ℕ → Created
  pub shmget_old : ℕ → Option ℕ
  pub shmat : ℕ → Option Shm

-- `ShmMQ::ShmMQ`
unfoldable pub new_shm_mq : ShmMq
new_shm_mq = record { shm_key = 0; shm_size = 0; shm_id = 0; block_size = 0; is_init = false }

-- `shmdt` of the segment, and the handle is out of use.
unfoldable pub fini : ShmMq → ShmMq
fini q = record q { is_init = false }

-- what `getmemory` gives: its result, `isCreate`, `shmId_`, and the segment in reach
pub record Gotten : Type 0 where
  pub code : ErrorCode
  pub is_create : Bool
  pub shm_id : ℕ
  pub segment : Option Shm

attached : ℕ → Bool → Option Shm → Gotten
attached id is_create none = record {
  code = k_err_shm_at;
  is_create = is_create;
  shm_id = id;
  segment = none;
}
attached id is_create (some s) = record {
  code = k_ok;
  is_create = is_create;
  shm_id = id;
  segment = some s;
}

get_failed : Gotten
get_failed = record { code = k_err_shm_get; is_create = false; shm_id = minus_one; segment = none }

-- `sizeof(MQStatInfo)` is 8.
unfoldable pub getmemory : Ipc → ℕ → ℕ → Gotten
unfolding attached get_failed
getmemory ipc shm_key shm_size = elim (ipc.shmget_new shm_key (add32 shm_size 8)) [
  | created id ↦ attached id true (ipc.shmat id)
  | failed ↦ get_failed
  | eexist ↦ elim (ipc.shmget_old shm_key) [
    | none ↦ get_failed
    | some id ↦ attached id false (ipc.shmat id)
  ]
]

-- `memset(shmMem_, 0x0, 8)` for a new segment, and `*pid_ = 0` always.
prepare : Bool → Shm → Shm
prepare is_create s =
    let s' = if is_create then record s { head = 0; tail = 0 } else s in record s' { pid = 0 }

-- The counters and the bytes of a new segment are what the system put there. `sizeof(uint32_t) * 2`
-- and `sizeof(pid_t)` make 12.
unfoldable pub init : Ipc → ShmMq → ℕ → ℕ → ErrorCode × ShmMq × Option Shm
unfolding getmemory fini prepare
init ipc old shm_key shm_size =
    let q₀ = record (fini old) { shm_key = shm_key; shm_size = shm_size } in
    let g = getmemory ipc shm_key shm_size in
    let q₁ = record q₀ { shm_id = g.shm_id } in
    elim g.segment [
      | none ↦ (g.code, q₁, none)
      | some s ↦ (
        k_ok,
        record q₁ { block_size = sub32 shm_size 12; is_init = true },
        some (prepare g.is_create s),
      )
    ]
