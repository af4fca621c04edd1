-- ===== src/MsgQueue/Count.antt =====
-- `msgCount_`, which `isEmpty` and `getMsgCount` read, and the lengths that `getstat` reports, against
-- the messages that the queue holds.
use shmutil.Base.{
  ℕ, ◌+◌, ◌*◌, ◌^◌, ◌≤◌, ◌<◌, ◌≡◌, ◌≢◌, refl, false, List, [], ◌∷◌, ◌==◌, length, length-append,
  arith, dec_lt, le→ltb,
}
use shmutil.Memory.{Memory, bytes, length-bytes}
use shmutil.ErrorCode.{k_ok, k_err_input_buf_not_enough_space}
use shmutil.Atomic
use shmutil.MsgQueue.{Shm, ShmMq, Process, MqStat, is_empty, get_msg_count, getstat}
use shmutil.MsgQueue.Ring.{advance}
use shmutil.MsgQueue.Wire.{Message, wire, frame, length-frame}
use shmutil.MsgQueue.Send.{enqueue}
use shmutil.MsgQueue.Receive.{dequeue}
use shmutil.MsgQueue.Spec.{Holds, push, pop}
use shmutil.MsgQueue.Push.{enqueue_refines}
use shmutil.MsgQueue.Front.{counted-Holds}
use shmutil.MsgQueue.Pop.{dequeue-ok, dequeue-small, dequeue-empty}

-- Each message takes 12 bytes at least, so the counter of a valid queue does not wrap.
pub length-le-wire : (ds : List Message) → 12 * length ds ≤ length (wire ds)
unfolding wire
length-le-wire [] = omega arith
length-le-wire (d ∷ ds) =
    omega (arith, length-le-wire ds, length-append (frame d) (wire ds), length-frame d)

-- `getstat` reports the bytes that the messages take, and the rest of the block as free.
pub getstat_used :
    (q : ShmMq) (s : Shm) (ds : List Message) (old : MqStat)
    → Holds q s ds
    → let (code, stat) = getstat q s old in
      (code ≡ k_ok)
      × (stat.used_len ≡ length (wire ds))
      × (stat.used_len + stat.free_len ≡ q.block_size)
unfolding getstat advance
getstat_used q s ds old v = ground (arith, v.ready, v.small, v.head_in, v.room, v.tail_at)

-- what `isEmpty` and `getMsgCount` read
pub count-is_empty :
    (q : ShmMq) (s : Shm) (ds : List Message)
    → Holds q s ds
    → s.msg_count ≡ length ds
    → (is_empty q s false ≡ (k_ok, length ds == 0)) × (get_msg_count q s 0 ≡ (k_ok, length ds))
unfolding is_empty get_msg_count
count-is_empty q s ds v c = ground (arith, v.ready)

-- While `msgCount_` is the number of messages, it still is after an `enqueue` whose frame length fits
-- in 32 bits, taken or refused.
pub count-enqueue :
    (os : Process) (q : ShmMq) (s : Shm) (ds : List Message) (source : Memory) (n : ℕ)
    → Holds q s ds
    → n + 12 < 2 ^ 32
    → s.msg_count ≡ length ds
    → (enqueue os q s source n).1.msg_count ≡ length (push q.block_size ds (bytes source 0 n)).1
unfolding push Atomic.increment
count-enqueue os q s ds source n v h c =
    let (_, _, e, _) = enqueue_refines os q s ds source n v h in
    ground (
      arith,
      e,
      length-bytes source 0 n,
      length-append ds (bytes source 0 n ∷ []),
      length-le-wire ds,
      v.room,
      v.small,
    )

-- While `msgCount_` is the number of messages, it still is after a `dequeue` that returns a message or
-- finds the queue empty.
pub count-dequeue :
    (os : Process) (q : ShmMq) (s : Shm) (buf : Memory) (buf_size old_len : ℕ) (ds : List Message)
    → Holds q s ds
    → s.msg_count ≡ length ds
    → (pop buf_size ds).0 ≢ k_err_input_buf_not_enough_space
    → (dequeue os q s buf buf_size old_len).shm.msg_count ≡ length (pop buf_size ds).2
unfolding pop
count-dequeue os q s buf buf_size old_len [] v c h =
    rw (dequeue-empty os q s buf buf_size old_len v) c
count-dequeue os q s buf buf_size old_len (d ∷ ds) v c h = elim (dec_lt buf_size (length d + 4)) [
  | yes small ↦ absurd (ground arith)
  | no fits ↦
      rw
        (
          dequeue-ok os q s buf buf_size old_len d ds v (omega arith),
          le→ltb buf_size (length d + 4) (omega arith),
        )
        (unfold Atomic.decrement in ground (arith, length-le-wire (d ∷ ds), v.room, v.small))
]

-- A `dequeue` into a buffer that is too small takes a message off the counter and leaves the message
-- in the queue.
pub miscount-dequeue :
    (os : Process) (q : ShmMq) (s : Shm) (buf : Memory) (buf_size old_len : ℕ) (d : Message)
    (ds : List Message)
    → Holds q s (d ∷ ds)
    → s.msg_count ≡ length (d ∷ ds)
    → buf_size < length d + 4
    → let r = dequeue os q s buf buf_size old_len in
      (r.code ≡ k_err_input_buf_not_enough_space)
      × Holds q r.shm (d ∷ ds)
      × (r.shm.msg_count ≡ length ds)
miscount-dequeue os q s buf buf_size old_len d ds v c h =
    rw (dequeue-small os q s buf buf_size old_len d ds v h) (
      refl,
      counted-Holds q s v (Atomic.decrement s.msg_count),
      unfold Atomic.decrement in ground (arith, length-le-wire (d ∷ ds), v.room, v.small),
    )
