-- ===== src/MsgQueue/Receive.antt =====
-- `ShmMQ::dequeue` of shmutil/shm_msg_queue.cc.
use shmutil.Base.{ℕ, not, ltb, ◌==◌, if◌then◌else◌}
use shmutil.Memory.{Memory, memcpy, load32}
use shmutil.ErrorCode.{
  ErrorCode, k_ok, k_err_data_mess, k_err_input_buf_not_enough_space, k_err_shm_mq_empty,
  k_err_shm_not_init,
}
use shmutil.Atomic
use shmutil.MsgQueue.{Shm, ShmMq, Process, add32, sub32, msg_magic_num, zeros, check, clear_mq}

-- what `dequeue` gives back: its result, the caller's buffer and `dataLen`, and the segment
pub record Dequeued : Type 0 where
  pub code : ErrorCode
  pub buf : Memory
  pub data_len : ℕ
  pub shm : Shm

-- A message that makes no sense empties the queue.
unfoldable pub clear_mess : Process → ShmMq → Shm → Shm
clear_mess os q s =
    let (valid, s') = check os q s s.head s.tail in if valid then (clear_mq os q s').1 else s'

-- the 8 bytes of the head of the message at `head`, and the position behind them
unfoldable pub read_head : ShmMq → Shm → ℕ → Memory × ℕ
read_head q s head =
    if ltb q.block_size (add32 (add32 head 4) 4)
    then (let first_size = sub32 q.block_size head in
        let second_size = sub32 8 first_size in
        (
          memcpy (memcpy zeros 0 s.block head first_size) first_size s.block 0 second_size,
          second_size,
        ))
    else (memcpy zeros 0 s.block head 8, add32 head 8)

-- the data and the magic number behind it, copied to `buf`, and the position behind them
unfoldable pub read_data : ShmMq → Shm → ℕ → Memory → ℕ → Memory × ℕ
read_data q s head buf data_len =
    if ltb q.block_size (add32 head data_len)
    then (let first_size = sub32 q.block_size head in
        let second_size = sub32 data_len first_size in
        (
          memcpy (memcpy buf 0 s.block head first_size) first_size s.block 0 second_size,
          second_size,
        ))
    else (memcpy buf 0 s.block head data_len, add32 head data_len)

unfoldable pub dequeue : Process → ShmMq → Shm → Memory → ℕ → ℕ → Dequeued
dequeue os q s buf buf_size data_len =
    if not q.is_init
    then record { code = k_err_shm_not_init; buf = buf; data_len = data_len; shm = s }
    else let (valid, s₀) = check os q s s.head s.tail in
      if not valid
      then record { code = k_err_data_mess; buf = buf; data_len = 0; shm = s₀ }
      else if s.head == s.tail
      then record { code = k_err_shm_mq_empty; buf = buf; data_len = 0; shm = s₀ }
      else let s₁ = record s₀ { msg_count = Atomic.decrement s₀.msg_count } in
        let used_len : ℕ =
          if ltb s.head s.tail
          then sub32 s.tail s.head
          else sub32 (add32 s.tail q.block_size) s.head in
        let (ps_head, head) = read_head q s₁ s.head in
        let total_len = load32 ps_head 4 in
        if not (load32 ps_head 0 == msg_magic_num)
        then record { code = k_err_data_mess; buf = buf; data_len = 0; shm = clear_mess os q s₁ }
        else if ltb used_len total_len
        then record { code = k_err_data_mess; buf = buf; data_len = 0; shm = clear_mess os q s₁ }
        else let framed_len = sub32 (sub32 total_len 4) 4 in
          if ltb buf_size framed_len
          then record {
            code = k_err_input_buf_not_enough_space;
            buf = buf;
            data_len = framed_len;
            shm = s₁;
          }
          else let (buf', head') = read_data q s₁ head buf framed_len in
            let s₂ = record s₁ { head = head' } in
            let len = sub32 framed_len 4 in
            if not (load32 buf' len == msg_magic_num)
            then record {
              code = k_err_data_mess;
              buf = buf';
              data_len = 0;
              shm = clear_mess os q s₂;
            }
            else record {
              code = k_ok;
              buf = buf';
              data_len = len;
              shm = record s₂ { process_count = Atomic.increment s₂.process_count };
            }
