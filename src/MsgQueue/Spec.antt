-- ===== src/MsgQueue/Spec.antt =====
-- What the queue of shmutil/shm_msg_queue.cc promises: a FIFO of whole messages, bounded by the bytes
-- that their frames take. `Holds` says which messages a segment holds.
use shmutil.Base.{
  ℕ, ◌+◌, ◌^◌, ◌≤◌, ◌<◌, ◌≡◌, true, List, [], ◌∷◌, ◌++◌, Option, none, some, ltb, if◌then◌else◌,
  length, get_or,
}
use shmutil.ErrorCode.{
  ErrorCode, k_ok, k_err_not_enough_space, k_err_shm_mq_empty, k_err_input_buf_not_enough_space,
}
use shmutil.MsgQueue.{Shm, ShmMq}
use shmutil.MsgQueue.Ring.{ring_pos, advance}
use shmutil.MsgQueue.Wire.{Message, wire}

-- One byte of the block always stays free.
unfoldable pub push : ℕ → List Message → Message → ErrorCode × List Message
push block_size ds d =
    if ltb (length (wire ds) + (length d + 12)) block_size
    then (k_ok, ds ++ (d ∷ []))
    else (k_err_not_enough_space, ds)

-- The caller's buffer has to hold the oldest message and the magic number behind it. A message that
-- does not fit stays.
unfoldable pub pop : ℕ → List Message → ErrorCode × Option Message × List Message
pop buf_size [] = (k_err_shm_mq_empty, none, [])
pop buf_size (d ∷ ds) =
    if ltb buf_size (length d + 4)
    then (k_err_input_buf_not_enough_space, none, d ∷ ds)
    else (k_ok, some d, ds)

-- The bytes from head to tail, round the end of the block, are the frames of the messages.
pub record Holds (q : ShmMq) (s : Shm) (ds : List Message) : Type 0 where
  pub ready : q.is_init ≡ true
  pub small : q.block_size < 2 ^ 31
  pub head_in : s.head ≤ q.block_size
  pub room : length (wire ds) < q.block_size
  pub tail_at : s.tail ≡ advance q.block_size s.head (length (wire ds))
  pub data_at :
      (i : ℕ)
      → i < length (wire ds)
      → s.block (ring_pos q.block_size s.head i) ≡ get_or (wire ds) i 0
