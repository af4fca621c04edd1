-- ===== src/MsgQueue/Refine.antt =====
-- Any sequence of calls on a `ShmMQ` against the FIFO of MsgQueue/Spec, and the message counter.
use shmutil.Base.{ℕ, ◌+◌, ◌^◌, ◌<◌, ◌≡◌, refl, List, [], ◌∷◌, Option, none, some, arith}
use shmutil.Memory.{Memory, bytes}
use shmutil.ErrorCode.{ErrorCode, k_ok}
use shmutil.MsgQueue.{Shm, ShmMq, Process, clear_mq}
use shmutil.MsgQueue.Wire.{Message}
use shmutil.MsgQueue.Send.{enqueue}
use shmutil.MsgQueue.Receive.{Dequeued, dequeue}
use shmutil.MsgQueue.Spec.{Holds, push, pop}
use shmutil.MsgQueue.Push.{enqueue_refines}
use shmutil.MsgQueue.Pop.{Delivered, dequeue_refines}
use shmutil.MsgQueue.Clear.{clear_mq-Holds}

-- a call, with the caller's memory that it is given
pub data Call : Type 0 where
  send : Memory → ℕ → Call
  receive : Memory → ℕ → ℕ → Call
  clear : Call

-- what a caller sees of a call
abbrev pub Reply : Type 0
Reply = ErrorCode × Option Message

message_of : Dequeued → Option Message
message_of r = elim r.code [ k_ok ↦ some (bytes r.buf 0 r.data_len) | _ ↦ none ]

unfoldable pub run : Process → ShmMq → Shm → List Call → List Reply
unfolding message_of
run os q s [] = []
run os q s (send source n ∷ calls) =
    let (code, s') = enqueue os q s source n in (code, none) ∷ run os q s' calls
run os q s (receive buf buf_size data_len ∷ calls) =
    let r = dequeue os q s buf buf_size data_len in (r.code, message_of r) ∷ run os q r.shm calls
run os q s (clear ∷ calls) = let (code, s') = clear_mq os q s in (code, none) ∷ run os q s' calls

unfoldable pub fifo : ℕ → List Message → List Call → List Reply
fifo block_size ds [] = []
fifo block_size ds (send source n ∷ calls) =
    let (code, ds') = push block_size ds (bytes source 0 n) in
    (code, none) ∷ fifo block_size ds' calls
fifo block_size ds (receive buf buf_size data_len ∷ calls) =
    let (code, out, ds') = pop buf_size ds in (code, out) ∷ fifo block_size ds' calls
fifo block_size ds (clear ∷ calls) = (k_ok, none) ∷ fifo block_size [] calls

-- The length of each frame that is sent fits in a uint32_t.
abbrev pub AreSendable : List Call → Type 0
AreSendable [] = Unit
AreSendable (send source n ∷ calls) = (n + 12 < 2 ^ 32) × AreSendable calls
AreSendable (receive _ _ _ ∷ calls) = AreSendable calls
AreSendable (clear ∷ calls) = AreSendable calls

reply_of :
    (buf : Memory) (buf_size : ℕ) (ds : List Message) (r : Dequeued)
    → let (code, out, ds') = pop buf_size ds in
      r.code ≡ code → Delivered buf out r → message_of r ≡ out
unfolding message_of pop
reply_of buf buf_size [] r e h = rw e
reply_of buf buf_size (d ∷ ds) r e h = ground arith

-- No sequence of calls of `enqueue`, `dequeue` and `clearMQ`, in which the length of each frame that is sent fits in 32 bits, tells a queue from the bounded FIFO of the messages that it holds: the same error codes, and the same messages, whole and in order.
pub run_refines :
    (os : Process) (q : ShmMq) (s : Shm) (ds : List Message) (calls : List Call)
    → Holds q s ds
    → AreSendable calls
    → run os q s calls ≡ fifo q.block_size ds calls
unfolding run fifo
run_refines os q s ds [] v a = refl
run_refines os q s ds (send source n ∷ calls) v a =
    let (code, holds, _, _) = enqueue_refines os q s ds source n v a.0 in
    rw (
      code,
      run_refines os q (enqueue os q s source n).1 (push q.block_size ds (bytes source 0 n)).1 calls
          holds a.1,
    )
run_refines os q s ds (receive buf buf_size data_len ∷ calls) v a =
    let r = dequeue os q s buf buf_size data_len in
    let (code, holds, out) = dequeue_refines os q s buf buf_size data_len ds v in
    rw (
      run_refines os q r.shm (pop buf_size ds).2 calls holds a,
      reply_of buf buf_size ds r code out,
      code,
    )
run_refines os q s ds (clear ∷ calls) v a =
    let (code, holds, _, _, _) =
      clear_mq-Holds os q s
        (record { ready = v.ready; small = v.small; pos = omega (arith, v.room) }) in
    rw (code, run_refines os q (clear_mq os q s).1 [] calls holds a)
