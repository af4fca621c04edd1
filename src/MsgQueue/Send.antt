-- ===== src/MsgQueue/Send.antt =====
-- `ShmMQ::enqueue` of shmutil/shm_msg_queue.cc: a message is written in one of three ways, by how
-- much room is left before the end of the block.
use shmutil.Base.{ℕ, ◌+◌, ◌-◌, not, ◌&&◌, ltb, leb, ◌==◌, if◌then◌else◌}
use shmutil.Memory.{Memory, memcpy, le_byte, store8, store32}
use shmutil.ErrorCode.{ErrorCode, k_ok, k_err_data_mess, k_err_not_enough_space, k_err_shm_not_init}
use shmutil.Atomic
use shmutil.MsgQueue.{
  Shm, ShmMq, Process, add32, sub32, add64, sub64, msg_magic_num, msg_magic_num_len, zeros, check,
}

-- the 8 bytes of `sHead`: the magic number and the length of the message with its frame
unfoldable pub s_head : ℕ → Memory
s_head total_len = memcpy (store32 zeros 0 msg_magic_num) msg_magic_num_len (le_byte total_len) 0 4

-- The tail has room for the whole message.
unfoldable pub enqueue_whole : Shm → Memory → ℕ → ℕ → Shm
enqueue_whole s source data_len total_len =
    let tail = s.tail in
    let b₁ = memcpy s.block tail (s_head total_len) 0 8 in
    let b₂ = memcpy b₁ (tail + 8) source 0 data_len in
    let b₃ = store32 b₂ (tail + 8 + data_len) msg_magic_num in
    record s { block = b₃; tail = add32 s.tail (add32 data_len 12) }

-- The magic number behind the data is cut by the end of the block, `second_len` of its bytes going
-- to the front: `block_[...] = 'S'` and so on.
unfoldable pub put_magic_split : Memory → ℕ → ℕ → Memory
put_magic_split b block_size second_len =
    if second_len == 3
    then (let b₁ = store8 b (block_size - 1) b'S' in
        let b₂ = store8 b₁ 0 b'P' in let b₃ = store8 b₂ 1 b'P' in store8 b₃ 2 b'X')
    else if second_len == 2
    then (let b₁ = store8 b (block_size - 2) b'S' in
        let b₂ = store8 b₁ (block_size - 1) b'P' in let b₃ = store8 b₂ 0 b'P' in store8 b₃ 1 b'X')
    else if second_len == 1
    then (let b₁ = store8 b (block_size - 3) b'S' in
        let b₂ = store8 b₁ (block_size - 2) b'P' in
        let b₃ = store8 b₂ (block_size - 1) b'P' in store8 b₃ 0 b'X')
    else b

-- The tail has room for the head of the message, not for all of it.
unfoldable pub enqueue_split_data : ShmMq → Shm → Memory → ℕ → ℕ → ℕ → Shm
enqueue_split_data q s source data_len total_len tail_len =
    let tail = s.tail in
    let b₁ = memcpy s.block tail (s_head total_len) 0 8 in
    let first_len = sub32 (sub32 tail_len 4) 4 in
    let second_len = sub64 (add32 data_len 4) first_len in
    let b₄ : Memory =
      if leb msg_magic_num_len second_len
      then (let b₂ = memcpy b₁ (tail + 8) source 0 first_len in
          let b₃ = memcpy b₂ 0 source first_len (sub64 second_len 4) in
          store32 b₃ (sub64 second_len 4) msg_magic_num)
      else (let b₂ = memcpy b₁ (tail + 8) source 0 (add64 (sub64 first_len 4) second_len) in
          put_magic_split b₂ q.block_size second_len) in
    let offset = sub32 total_len q.block_size in record s { block = b₄; tail = add32 tail offset }

-- The tail has no room for the head of the message.
unfoldable pub enqueue_split_head : Shm → Memory → ℕ → ℕ → ℕ → Shm
enqueue_split_head s source data_len total_len tail_len =
    let b₁ = memcpy s.block s.tail (s_head total_len) 0 tail_len in
    let second_len = sub32 8 tail_len in
    let b₂ = memcpy b₁ 0 (s_head total_len) tail_len second_len in
    let b₃ = memcpy b₂ second_len source 0 data_len in
    let b₄ = store32 b₃ (second_len + data_len) msg_magic_num in
    record s { block = b₄; tail = add32 (add32 second_len data_len) 4 }

-- the three ways to write a message that fits
unfoldable pub enqueue_data : ShmMq → Shm → Memory → ℕ → ℕ → Shm
enqueue_data q s source data_len total_len =
    let tail_len = sub32 q.block_size s.tail in
    if leb total_len tail_len
    then enqueue_whole s source data_len total_len
    else if leb 8 tail_len && ltb tail_len (add32 12 data_len)
    then enqueue_split_data q s source data_len total_len tail_len
    else enqueue_split_head s source data_len total_len tail_len

unfoldable pub enqueue : Process → ShmMq → Shm → Memory → ℕ → ErrorCode × Shm
enqueue os q s source data_len =
    if not q.is_init
    then (k_err_shm_not_init, s)
    else let (valid, s') = check os q s s.head s.tail in
      let free_len : ℕ =
        if ltb s.tail s.head
        then sub32 s.head s.tail
        else sub32 (add32 s.head q.block_size) s.tail in
      let total_len = add32 (add32 data_len 4) 8 in
      if not valid
      then (k_err_data_mess, s')
      else if leb free_len total_len
      then (k_err_not_enough_space, s')
      else let s'' = enqueue_data q s' source data_len total_len in
        (k_ok, record s'' { msg_count = Atomic.increment s''.msg_count })
