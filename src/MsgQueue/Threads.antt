-- ===== src/MsgQueue/Threads.antt =====
-- One producer and one consumer on the same segment without a lock: `ShmMQ::enqueue` and
-- `ShmMQ::dequeue` of shmutil/shm_msg_queue.cc as sequences of steps, each with one access to the
-- shared memory, which run in any order.
pub mod Seen
pub mod Facts
pub mod Produce
pub mod Consume
pub mod Fifo
mod Examples
use shmutil.Base.{
  ℕ, ◌+◌, ◌^◌, ◌<◌, ◌≡◌, ◌≢◌, ◌⊎◌, Bool, true, false, not, List, [], ◌∷◌, ◌++◌, ltb, leb, ◌==◌,
  if◌then◌else◌,
}
use shmutil.Memory.{Memory, bytes, load32}
use shmutil.ErrorCode.{
  ErrorCode, k_ok, k_err_data_mess, k_err_not_enough_space, k_err_input_buf_not_enough_space,
  k_err_shm_mq_empty,
}
use shmutil.Atomic
use shmutil.MsgQueue.{Shm, ShmMq, Process, add32, sub32, msg_magic_num, check}
use shmutil.MsgQueue.Ring.{ring_pos}
use shmutil.MsgQueue.Wire.{Message}
use shmutil.MsgQueue.Send.{enqueue_data}
use shmutil.MsgQueue.Receive.{read_head, read_data, clear_mess}

-- Where a call of `enqueue` with `n` bytes at `source` stands, with its local variables.
pub data Producing : Type 0 where
  started : Memory → ℕ → Producing
  head_read : Memory → ℕ → ℕ → Producing
  both_read : Memory → ℕ → ℕ → ℕ → Producing
  writing : Memory → ℕ → ℕ → ℕ → Producing
  written : Message → ℕ → Producing
  stored : Producing
  ended : ErrorCode → Producing

-- the next step of `enqueue` on an initialised handle
unfoldable pub produce : Process → ShmMq → Shm → Producing → Shm × Producing
produce os q s (started source n) = (s, head_read source n s.head)
produce os q s (head_read source n head) = (s, both_read source n head s.tail)
produce os q s (both_read source n head tail) =
    let (valid, s') = check os q s head tail in
    let free_len : ℕ =
      if ltb tail head then sub32 head tail else sub32 (add32 head q.block_size) tail in
    let total_len = add32 (add32 n 4) 8 in
    if not valid
    then (s', ended k_err_data_mess)
    else if leb free_len total_len
    then (s, ended k_err_not_enough_space)
    else (s, writing source n tail total_len)
produce os q s (writing source n tail total_len) =
    let s' = enqueue_data q (record s { tail = tail }) source n total_len in
    (record s { block = s'.block }, written (bytes source 0 n) s'.tail)
produce os q s (written d tail) = (record s { tail = tail }, stored)
produce os q s stored = (record s { msg_count = Atomic.increment s.msg_count }, ended k_ok)
produce os q s (ended code) = (s, ended code)

-- Where a call of `dequeue` with a buffer stands.
pub data Consuming : Type 0 where
  started : Memory → ℕ → Consuming
  head_read : Memory → ℕ → ℕ → Consuming
  both_read : Memory → ℕ → ℕ → ℕ → Consuming
  counting : Memory → ℕ → ℕ → ℕ → Consuming
  copying_head : Memory → ℕ → ℕ → ℕ → Consuming
  copying_data : Memory → ℕ → ℕ → Consuming
  copied : Memory → ℕ → ℕ → Consuming
  moved : Memory → ℕ → Consuming
  received : Message → Consuming
  failed : ErrorCode → Consuming

-- the next step of `dequeue` on an initialised handle
unfoldable pub consume : Process → ShmMq → Shm → Consuming → Shm × Consuming
consume os q s (started buf buf_size) = (s, head_read buf buf_size s.head)
consume os q s (head_read buf buf_size head) = (s, both_read buf buf_size head s.tail)
consume os q s (both_read buf buf_size head tail) =
    let (valid, s') = check os q s head tail in
    if not valid
    then (s', failed k_err_data_mess)
    else if head == tail
    then (s, failed k_err_shm_mq_empty)
    else (s, counting buf buf_size head tail)
consume os q s (counting buf buf_size head tail) =
    let used_len : ℕ =
      if ltb head tail then sub32 tail head else sub32 (add32 tail q.block_size) head in
    (record s { msg_count = Atomic.decrement s.msg_count }, copying_head buf buf_size head used_len)
consume os q s (copying_head buf buf_size head used_len) =
    let (ps_head, head') = read_head q s head in
    let total_len = load32 ps_head 4 in
    let framed_len = sub32 (sub32 total_len 4) 4 in
    if not (load32 ps_head 0 == msg_magic_num)
    then (clear_mess os q s, failed k_err_data_mess)
    else if ltb used_len total_len
    then (clear_mess os q s, failed k_err_data_mess)
    else if ltb buf_size framed_len
    then (s, failed k_err_input_buf_not_enough_space)
    else (s, copying_data buf head' framed_len)
consume os q s (copying_data buf head framed_len) =
    let (buf', head') = read_data q s head buf framed_len in
    (s, copied buf' head' (sub32 framed_len 4))
consume os q s (copied buf head len) = (record s { head = head }, moved buf len)
consume os q s (moved buf len) =
    if not (load32 buf len == msg_magic_num)
    then (clear_mess os q s, failed k_err_data_mess)
    else (record s { process_count = Atomic.increment s.process_count }, received (bytes buf 0 len))
consume os q s (received d) = (s, received d)
consume os q s (failed code) = (s, failed code)

-- The segment, the two threads, and what was sent and received so far. A message counts as sent with
-- the write of `*tail_`, and as received where `dequeue` returns it.
pub record System : Type 0 where
  pub shm : Shm
  pub producing : Producing
  pub consuming : Consuming
  pub sent : List Message
  pub got : List Message

abbrev pub sent_by : Producing → List Message
sent_by (written d tail) = d ∷ []
sent_by _ = []

-- what a step of the consumer returns
abbrev pub got_by : Consuming → Consuming → List Message
got_by (moved buf len) (received d) = d ∷ []
got_by _ _ = []

-- The bytes of the frame that is being written are the `n + 12` behind the tail.
abbrev pub OnlyFrame : ShmMq → ℕ → ℕ → Memory → Memory → Type 0
OnlyFrame q tail total_len old new =
    (a : ℕ) → ((i : ℕ) → i < total_len → a ≢ ring_pos q.block_size tail i) → new a ≡ old a

-- Either thread makes a step, or starts a call where it has returned from the last one. While the
-- producer writes its frame, the bytes of the frame are there in part, whichever.
pub data Step (os : Process) (q : ShmMq) (s : System) : System → Type 0 where
  call_enqueue :
      (code : ErrorCode) (source : Memory) (n : ℕ)
      → s.producing ≡ ended code
      → n + 12 < 2 ^ 32
      → Step os q s (record s { producing = started source n })
  step_enqueue : Step os q s (record s {
    shm = (produce os q s.shm s.producing).0;
    producing = (produce os q s.shm s.producing).1;
    sent = s.sent ++ sent_by s.producing;
  })
  write_some :
      (source : Memory) (n tail total_len : ℕ) (block : Memory)
      → s.producing ≡ writing source n tail total_len
      → OnlyFrame q tail total_len s.shm.block block
      → Step os q s (record s { shm = record s.shm { block = block } })
  call_dequeue :
      (buf : Memory) (buf_size : ℕ)
      → ((d : Message) × (s.consuming ≡ received d))
        ⊎ ((code : ErrorCode) × (s.consuming ≡ failed code))
      → Step os q s (record s { consuming = started buf buf_size })
  step_dequeue : Step os q s (record s {
    shm = (consume os q s.shm s.consuming).0;
    consuming = (consume os q s.shm s.consuming).1;
    got = s.got ++ got_by s.consuming (consume os q s.shm s.consuming).1;
  })

pub data Reach (os : Process) (q : ShmMq) (s : System) : System → Type 0 where
  here : Reach os q s s
  next : {t u : System} → Reach os q s t → Step os q t u → Reach os q s u

-- both threads before their first calls
abbrev pub at_rest : Shm → System
at_rest s = record {
  shm = s;
  producing = ended k_ok;
  consuming = failed k_err_shm_mq_empty;
  sent = [];
  got = [];
}
