-- ===== src/MsgQueue.antt =====
-- `class ShmMQ` of shmutil/shm_msg_queue.h and shmutil/shm_msg_queue.cc: a ring of bytes in shared
-- memory that holds whole messages.
pub mod Send
pub mod Room
pub mod Spec
pub mod Push
pub mod Front
pub mod Pop
pub mod Clear
pub mod Refine
pub mod Counted
pub mod Threads
pub mod Count
pub mod Attach
pub mod Endpoints
pub mod Lifecycle
mod Examples
pub mod Receive
pub mod Wire
pub mod Ring
use shmutil.Base.{
  ℕ, ◌+◌, ◌-◌, ◌%◌, ◌^◌, Bool, true, false, not, ◌&&◌, ltb, leb, ◌==◌, if◌then◌else◌,
}
use shmutil.Memory.{Memory}
use shmutil.ErrorCode.{ErrorCode, k_ok, k_err_shm_not_init}
use shmutil.Atomic

abbrev pub msg_head_size : ℕ
msg_head_size = 4

abbrev pub msg_magic_num_len : ℕ
msg_magic_num_len = 4

abbrev pub msg_magic_num : ℕ
msg_magic_num = 0x58505053

-- uint32_t a + b and a - b
abbrev pub add32 : ℕ → ℕ → ℕ
add32 a b = (a + b) % 2 ^ 32

abbrev pub sub32 : ℕ → ℕ → ℕ
sub32 a b = (a + 2 ^ 32 - b) % 2 ^ 32

-- size_t a + b and a - b
abbrev pub add64 : ℕ → ℕ → ℕ
add64 a b = (a + b) % 2 ^ 64

abbrev pub sub64 : ℕ → ℕ → ℕ
sub64 a b = (a + 2 ^ 64 - b) % 2 ^ 64

-- What lies in the shared memory segment: `MQStatInfo`, `*head_`, `*tail_`, `*pid_` and the bytes
-- from `block_` on.
pub record Shm : Type 0 where
  pub msg_count : ℕ
  pub process_count : ℕ
  pub head : ℕ
  pub tail : ℕ
  pub pid : ℕ
  pub block : Memory

-- The fields of `ShmMQ` that are no pointers into the segment, one record for each process.
pub record ShmMq : Type 0 where
  pub shm_key : ℕ
  pub shm_size : ℕ
  pub shm_id : ℕ
  pub block_size : ℕ
  pub is_init : Bool

-- `struct MQStat`
pub record MqStat : Type 0 where
  pub used_len : ℕ
  pub free_len : ℕ
  pub total_len : ℕ
  pub shm_key : ℕ
  pub shm_id : ℕ
  pub shm_size : ℕ

-- The system calls: this process's `getpid()`, and `kill(pid, 0)`, which gives 0 or an errno.
pub record Process : Type 0 where
  pub getpid : ℕ
  pub kill : ℕ → ℕ

abbrev pub esrch : ℕ
esrch = 3

unfoldable pub check_proc_exist : Process → ℕ → Bool
check_proc_exist os pid = not (os.kill pid == esrch)

unfoldable pub getstat : ShmMq → Shm → MqStat → ErrorCode × MqStat
getstat q s mq_stat = if not q.is_init then (k_err_shm_not_init, mq_stat) else (
  k_ok,
  record {
    used_len =
        if leb s.head s.tail then sub32 s.tail s.head else sub32 (add32 s.tail q.block_size) s.head;
    free_len =
        if ltb s.tail s.head then sub32 s.head s.tail else sub32 (add32 s.head q.block_size) s.tail;
    total_len = q.block_size;
    shm_key = q.shm_key;
    shm_id = q.shm_id;
    shm_size = q.shm_size;
  },
)

unfoldable pub is_empty : ShmMq → Shm → Bool → ErrorCode × Bool
unfolding Atomic.get
is_empty q s old =
    if not q.is_init then (k_err_shm_not_init, old) else (k_ok, (Atomic.get s.msg_count).1 == 0)

unfoldable pub get_msg_count : ShmMq → Shm → ℕ → ErrorCode × ℕ
unfolding Atomic.get
get_msg_count q s old =
    if not q.is_init then (k_err_shm_not_init, old) else (k_ok, (Atomic.get s.msg_count).1)

-- `*pid_` names this process while the queue is being cleared, and is 0 again at the end.
unfoldable pub clear_mq : Process → ShmMq → Shm → ErrorCode × Shm
unfolding Atomic.get_and_set
clear_mq os q s =
    if not q.is_init
    then (k_err_shm_not_init, s)
    else let s₁ = record s { pid = os.getpid } in
      let s₂ = record s₁ { head = 0 } in
      let s₃ = record s₂ { tail = 0 } in
      let s₄ = record s₃ { msg_count = (Atomic.get_and_set s₃.msg_count 0).0 } in
      (k_ok, record s₄ { pid = 0 })

-- Whether the positions are valid. Where they are not, the queue is cleared, unless another live
-- process is about to.
unfoldable pub check : Process → ShmMq → Shm → ℕ → ℕ → Bool × Shm
check os q s head tail =
    if leb head q.block_size && leb tail q.block_size
    then (true, s)
    else let is_need_clear : Bool =
        if s.pid == 0 then true else (if not (check_proc_exist os s.pid) then true else false) in
      (false, if is_need_clear then (clear_mq os q s).1 else s)

-- a local buffer before it is written
abbrev pub zeros : Memory
zeros a = 0
