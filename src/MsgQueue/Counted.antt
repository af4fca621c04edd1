-- ===== src/MsgQueue/Counted.antt =====
-- `isEmpty` and `getMsgCount` of shmutil/shm_msg_queue.cc after any sequence of calls.
use shmutil.Base.{ℕ, ◌+◌, ◌^◌, ◌<◌, ◌≡◌, ◌≢◌, false, List, [], ◌∷◌, ◌==◌, length, arith}
use shmutil.Memory.{bytes}
use shmutil.ErrorCode.{k_ok, k_err_input_buf_not_enough_space}
use shmutil.MsgQueue.{Shm, ShmMq, Process, is_empty, get_msg_count, clear_mq}
use shmutil.MsgQueue.Wire.{Message}
use shmutil.MsgQueue.Send.{enqueue}
use shmutil.MsgQueue.Receive.{dequeue}
use shmutil.MsgQueue.Spec.{Holds, push, pop}
use shmutil.MsgQueue.Push.{enqueue_refines}
use shmutil.MsgQueue.Pop.{dequeue_refines}
use shmutil.MsgQueue.Clear.{clear_mq-Holds}
use shmutil.MsgQueue.Count.{count-is_empty, count-enqueue, count-dequeue}
use shmutil.MsgQueue.Refine.{Call, send, receive, clear}

-- the segment, and the messages of the FIFO, after the calls
unfoldable pub segment_after : Process → ShmMq → Shm → List Call → Shm
segment_after os q s [] = s
segment_after os q s (send source n ∷ calls) = segment_after os q (enqueue os q s source n).1 calls
segment_after os q s (receive buf buf_size data_len ∷ calls) =
    segment_after os q (dequeue os q s buf buf_size data_len).shm calls
segment_after os q s (clear ∷ calls) = segment_after os q (clear_mq os q s).1 calls

unfoldable pub fifo_after : ℕ → List Message → List Call → List Message
fifo_after block_size ds [] = ds
fifo_after block_size ds (send source n ∷ calls) =
    fifo_after block_size (push block_size ds (bytes source 0 n)).1 calls
fifo_after block_size ds (receive buf buf_size data_len ∷ calls) =
    fifo_after block_size (pop buf_size ds).2 calls
fifo_after block_size ds (clear ∷ calls) = fifo_after block_size [] calls

-- Each frame's length fits in 32 bits, and each buffer takes the message that the FIFO has for it.
abbrev pub AreFit : ℕ → List Message → List Call → Type 0
AreFit block_size ds [] = Unit
AreFit block_size ds (send source n ∷ calls) =
    (n + 12 < 2 ^ 32) × AreFit block_size (push block_size ds (bytes source 0 n)).1 calls
AreFit block_size ds (receive buf buf_size data_len ∷ calls) =
    ((pop buf_size ds).0 ≢ k_err_input_buf_not_enough_space)
    × AreFit block_size (pop buf_size ds).2 calls
AreFit block_size ds (clear ∷ calls) = AreFit block_size [] calls

-- From a queue whose counter is right, after any calls of `enqueue`, `dequeue` and `clearMQ`, `isEmpty` says whether the FIFO holds no message after the same calls, and `getMsgCount` how many it holds. The length of each frame that is sent fits in 32 bits, and each buffer is large enough for the message that it gets.
pub run-is_empty :
    (os : Process) (q : ShmMq) (s : Shm) (ds : List Message) (calls : List Call)
    → Holds q s ds
    → s.msg_count ≡ length ds
    → AreFit q.block_size ds calls
    → (is_empty q (segment_after os q s calls) false
        ≡ (k_ok, length (fifo_after q.block_size ds calls) == 0))
      × (get_msg_count q (segment_after os q s calls) 0
          ≡ (k_ok, length (fifo_after q.block_size ds calls)))
unfolding segment_after fifo_after
run-is_empty os q s ds [] v c a = count-is_empty q s ds v c
run-is_empty os q s ds (send source n ∷ calls) v c (small, a) =
    let (_, holds, _, _) = enqueue_refines os q s ds source n v small in
    run-is_empty os q (enqueue os q s source n).1 (push q.block_size ds (bytes source 0 n)).1 calls
      holds (count-enqueue os q s ds source n v small c) a
run-is_empty os q s ds (receive buf buf_size data_len ∷ calls) v c (roomy, a) =
    let (_, holds, _) = dequeue_refines os q s buf buf_size data_len ds v in
    run-is_empty os q (dequeue os q s buf buf_size data_len).shm (pop buf_size ds).2 calls holds
      (count-dequeue os q s buf buf_size data_len ds v c roomy) a
run-is_empty os q s ds (clear ∷ calls) v c a =
    let (_, holds, none_left, _, _) =
      clear_mq-Holds os q s
        (record { ready = v.ready; small = v.small; pos = omega (arith, v.room) }) in
    run-is_empty os q (clear_mq os q s).1 [] calls holds none_left a
