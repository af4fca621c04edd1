-- ===== src/MsgQueue/Endpoints.antt =====
-- `ShmMQProducer`, `ShmMQComsumer` and their locked versions of shmutil/shm_msg_queue.h and
-- shmutil/shm_msg_queue.cc. `mq_` is `none` where it is NULL.
use shmutil.Base.{
  ℕ, ◌^◌, List, [], ◌∷◌, ◌++◌, Bool, false, Option, none, some, ◌&&◌, ltb, if◌then◌else◌,
}
use shmutil.Memory.{Memory}
use shmutil.ErrorCode.{
  ErrorCode, k_ok, k_err_lock_file_failed, k_err_open_lock_file_failed, k_err_shm_mq_empty,
  k_err_shm_not_init,
}
use shmutil.MsgQueue.{Shm, ShmMq, Process, MqStat, getstat, is_empty, clear_mq}
use shmutil.MsgQueue.Send.{enqueue}
use shmutil.MsgQueue.Receive.{Dequeued, dequeue}
use shmutil.MsgQueue.Attach.{Ipc, new_shm_mq, init}

-- `ShmMQProducer` and `ShmMQComsumer` have the one field `mq_`.
abbrev pub Endpoint : Type 0
Endpoint = Option ShmMq

-- `init` of both: the old queue object is deleted, and a new one made.
unfoldable pub init_endpoint : Ipc → Endpoint → ℕ → ℕ → ErrorCode × Endpoint × Option Shm
init_endpoint ipc old shm_key shm_size =
    let (code, q, segment) = init ipc new_shm_mq shm_key shm_size in (code, some q, segment)

unfoldable pub fini_endpoint : Endpoint → Endpoint
fini_endpoint mq = none

unfoldable pub clear_endpoint : Process → Endpoint → Shm → ErrorCode × Shm
clear_endpoint os none s = (k_err_shm_not_init, s)
clear_endpoint os (some q) s = clear_mq os q s

unfoldable pub getstat_endpoint : Endpoint → Shm → MqStat → ErrorCode × MqStat
getstat_endpoint none s stat = (k_err_shm_not_init, stat)
getstat_endpoint (some q) s stat = getstat q s stat

unfoldable pub produce : Process → Endpoint → Shm → Memory → ℕ → ErrorCode × Shm
produce os none s source n = (k_err_shm_not_init, s)
produce os (some q) s source n = enqueue os q s source n

unfoldable pub comsume_from : Process → ShmMq → Shm → Memory → ℕ → ℕ → Dequeued
comsume_from os q s buf buf_size data_len =
    let (code, empty) = is_empty q s false in
    elim code [
      | k_ok ↦
          if empty
          then record { code = k_err_shm_mq_empty; buf = buf; data_len = data_len; shm = s }
          else dequeue os q s buf buf_size data_len
      | _ ↦ dequeue os q s buf buf_size data_len
    ]

unfoldable pub comsume : Process → Endpoint → Shm → Memory → ℕ → ℕ → Dequeued
comsume os none s buf buf_size data_len = record {
  code = k_err_shm_not_init;
  buf = buf;
  data_len = data_len;
  shm = s;
}
comsume os (some q) s buf buf_size data_len = comsume_from os q s buf buf_size data_len

-- The lock file: `open` of the path for a key gives the bit pattern of an int, negative where it
-- fails, and `flock(fd, LOCK_EX)` is true where it returns 0.
pub record LockFiles : Type 0 where
  pub open_lock : ℕ → ℕ
  pub flock : ℕ → Bool

-- `ShmMQLockProducer` and `ShmMQLockComsumer`: the bit pattern of `mfd_` is 0 from the constructor on.
pub record LockEndpoint : Type 0 where
  pub mq : Endpoint
  pub mfd : ℕ

unfoldable pub new_lock_endpoint : LockEndpoint
new_lock_endpoint = record { mq = none; mfd = 0 }

-- the descriptors that `fini` of a locked endpoint closes; `mfd_` keeps its value
unfoldable pub closes : LockEndpoint → List ℕ
closes e = if ltb 0 e.mfd && ltb e.mfd (2 ^ 31) then e.mfd ∷ [] else []

unfoldable pub fini_lock_endpoint : LockEndpoint → LockEndpoint
fini_lock_endpoint e = record e { mq = fini_endpoint e.mq }

-- what an `init` gives: its result, the endpoint, the segment, and the calls of `close` it made
pub record LockInit : Type 0 where
  pub code : ErrorCode
  pub endpoint : LockEndpoint
  pub segment : Option Shm
  pub closed : List ℕ

-- `init` behind the calls of `fini`
init_mq : Ipc → LockFiles → LockEndpoint → ℕ → ℕ → List ℕ → LockInit
init_mq ipc files old shm_key shm_size closed =
    let (code, mq, segment) = init_endpoint ipc old.mq shm_key shm_size in
    let e : LockEndpoint = record old { mq = mq } in
    let opened : LockEndpoint = record e { mfd = files.open_lock shm_key } in
    elim code [
      | k_ok ↦ record {
        code = if ltb opened.mfd (2 ^ 31) then k_ok else k_err_open_lock_file_failed;
        endpoint = opened;
        segment = segment;
        closed = closed;
      }
      | other ↦ record { code = other; endpoint = e; segment = segment; closed = closed }
    ]

-- `ShmMQLockProducer::init`. `ShmMQProducer::init`, which it calls, calls the virtual `fini` again.
unfoldable pub init_lock_producer : Ipc → LockFiles → LockEndpoint → ℕ → ℕ → LockInit
unfolding init_mq
init_lock_producer ipc files old shm_key shm_size =
    let once = fini_lock_endpoint old in
    let twice = fini_lock_endpoint once in
    init_mq ipc files twice shm_key shm_size (closes old ++ closes once)

-- `ShmMQLockComsumer::init`. `ShmMQComsumer::fini` is not virtual.
unfoldable pub init_lock_comsumer : Ipc → LockFiles → LockEndpoint → ℕ → ℕ → LockInit
unfolding init_mq
init_lock_comsumer ipc files old shm_key shm_size =
    init_mq ipc files (fini_lock_endpoint old) shm_key shm_size (closes old)

unfoldable pub lock_produce :
    Process → LockFiles → LockEndpoint → Shm → Memory → ℕ → ErrorCode × Shm
lock_produce os files p s source n =
    if files.flock p.mfd then produce os p.mq s source n else (k_err_lock_file_failed, s)

unfoldable pub lock_comsume : Process → LockFiles → LockEndpoint → Shm → Memory → ℕ → ℕ → Dequeued
lock_comsume os files c s buf buf_size data_len =
    if files.flock c.mfd
    then comsume os c.mq s buf buf_size data_len
    else record { code = k_err_lock_file_failed; buf = buf; data_len = data_len; shm = s }

unfoldable pub lock_clear : Process → LockFiles → LockEndpoint → Shm → ErrorCode × Shm
lock_clear os files p s =
    if files.flock p.mfd then clear_endpoint os p.mq s else (k_err_lock_file_failed, s)
