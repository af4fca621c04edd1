-- ===== src/MsgQueue/Clear.antt =====
-- `ShmMQ::clearMQ` and `ShmMQ::check`, and how the queue comes back from a damaged segment.
use shmutil.Base.{ℕ, ◌^◌, ◌<◌, ◌≡◌, refl, true, false, [], arith}
use shmutil.Memory.{Memory}
use shmutil.ErrorCode.{k_ok, k_err_data_mess}
use shmutil.MsgQueue.{Shm, ShmMq, Process, check, clear_mq}
use shmutil.MsgQueue.Ring.{advance}
use shmutil.MsgQueue.Wire.{wire}
use shmutil.MsgQueue.Receive.{dequeue, clear_mess}
use shmutil.MsgQueue.Spec.{Holds}

-- A handle that `init` made.
pub record IsReady (q : ShmMq) : Type 0 where
  pub ready : q.is_init ≡ true
  pub small : q.block_size < 2 ^ 31
  pub pos : 0 < q.block_size

pub at_zero-Holds : (q : ShmMq) (s : Shm) → IsReady q → s.head ≡ 0 → s.tail ≡ 0 → Holds q s []
unfolding wire advance
at_zero-Holds q s r h t = record {
  ready = r.ready;
  small = r.small;
  head_in = omega (arith, r.pos);
  room = r.pos;
  tail_at = ground arith;
  data_at = λ i k. absurd (omega arith);
}

clear_mq_lem :
    (os : Process) (q : ShmMq) (s : Shm)
    → IsReady q
    → clear_mq os q s ≡ (k_ok, record s { head = 0; tail = 0; msg_count = 0; pid = 0 })
unfolding clear_mq
clear_mq_lem os q s r = ground (arith, r.ready)

-- Whatever the segment holds, after `clearMQ` the queue is empty, its counter 0, and the mark of the
-- clearing process gone.
pub clear_mq-Holds :
    (os : Process) (q : ShmMq) (s : Shm)
    → IsReady q
    → let (code, s') = clear_mq os q s in
      (code ≡ k_ok) × Holds q s' [] × (s'.msg_count ≡ 0) × (s'.pid ≡ 0) × (s'.block ≡ s.block)
clear_mq-Holds os q s r =
    rw (clear_mq_lem os q s r) (refl, at_zero-Holds q _ r refl refl, refl, refl, refl)

check-IsZero :
    (os : Process) (q : ShmMq) (s : Shm) (head tail : ℕ)
    → IsReady q
    → s.pid ≡ 0
    → (check os q s head tail).0 ≡ false
    → ((check os q s head tail).1.head ≡ 0) × ((check os q s head tail).1.tail ≡ 0)
unfolding check clear_mq
check-IsZero os q s head tail r p e = ground (arith, r.ready)

check-same :
    (os : Process) (q : ShmMq) (s : Shm) (head tail : ℕ)
    → (check os q s head tail).0 ≡ true
    → (check os q s head tail).1 ≡ s
unfolding check
check-same os q s head tail e = ground arith

clear_mess-IsZero :
    (os : Process) (q : ShmMq) (s : Shm)
    → IsReady q
    → s.pid ≡ 0
    → ((clear_mess os q s).head ≡ 0) × ((clear_mess os q s).tail ≡ 0)
unfolding clear_mess check clear_mq
clear_mess-IsZero os q s r p = ground (arith, r.ready)

mess-IsZero :
    (os : Process) (q : ShmMq) (s : Shm) (buf : Memory) (buf_size old_len : ℕ)
    → IsReady q
    → s.pid ≡ 0
    → (dequeue os q s buf buf_size old_len).code ≡ k_err_data_mess
    → ((dequeue os q s buf buf_size old_len).shm.head ≡ 0)
      × ((dequeue os q s buf buf_size old_len).shm.tail ≡ 0)
unfolding dequeue
mess-IsZero os q s buf buf_size old_len r p e = grind (
  arith,
  check-IsZero os q s s.head s.tail r p,
  check-same os q s s.head s.tail,
  λ (s' : Shm). clear_mess-IsZero os q s' r,
)

-- Where no other process is clearing the queue, a `dequeue` that finds the segment damaged (positions
-- out of range, a wrong magic number at either end, a message longer than the contents) leaves an
-- empty queue that works again, whatever bytes the segment holds.
pub dequeue_recovers :
    (os : Process) (q : ShmMq) (s : Shm) (buf : Memory) (buf_size old_len : ℕ)
    → IsReady q
    → s.pid ≡ 0
    → (dequeue os q s buf buf_size old_len).code ≡ k_err_data_mess
    → Holds q (dequeue os q s buf buf_size old_len).shm []
dequeue_recovers os q s buf buf_size old_len r p e =
    let z = mess-IsZero os q s buf buf_size old_len r p e in at_zero-Holds q _ r z.0 z.1
