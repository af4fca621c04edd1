-- ===== src/MsgQueue/Pop.antt =====
-- `ShmMQ::dequeue` refines `Spec.pop`.
use shmutil.Base.{
  ℕ, ◌+◌, ◌≤◌, ◌<◌, ◌≡◌, ◌≢◌, refl, List, [], ◌∷◌, ltb, if◌then◌else◌, dec_lt, length, arith,
  lt→ltb, le→ltb, Option, none, some,
}
use shmutil.Memory.{Memory, bytes}
use shmutil.ErrorCode.{k_ok, k_err_input_buf_not_enough_space, k_err_shm_mq_empty}
use shmutil.Atomic
use shmutil.MsgQueue.{sub32, add32, Shm, ShmMq, Process, check}
use shmutil.MsgQueue.Ring.{advance, advance-le}
use shmutil.MsgQueue.Wire.{Message, wire}
use shmutil.MsgQueue.Receive.{Dequeued, dequeue}
use shmutil.MsgQueue.Spec.{Holds, pop}
use shmutil.MsgQueue.Front.{
  read_head-pos, read_data-byte, read_data-pos, counted-Holds, wire_len, big, counted, head_magic,
  head_len, data_bytes, data_magic, data_message, popped-Holds,
}

module _ (os : Process) (q : ShmMq) (s : Shm) (buf : Memory) (buf_size old_len : ℕ) where
  open q use {block_size as size}

  pub dequeue-empty :
      Holds q s []
      → dequeue os q s buf buf_size old_len
        ≡ record { code = k_err_shm_mq_empty; buf = buf; data_len = 0; shm = s }
  unfolding dequeue check advance wire
  dequeue-empty v = ground (arith, v.ready, v.head_in, v.small, v.tail_at)

  module _ (d : Message) (ds : List Message) (v : Holds q s (d ∷ ds)) where
    abbrev pub after : Shm
    after = counted q s d ds v (Atomic.decrement s.msg_count)

    -- The tail is valid, and the code's length of the contents is right.
    positions :
        (s.tail ≤ size)
        × (s.head ≢ s.tail)
        × ((if ltb s.head s.tail then sub32 s.tail s.head else sub32 (add32 s.tail size) s.head)
            ≡ length (wire (d ∷ ds)))
    unfolding advance
    positions = ground (arith, v.head_in, v.small, v.tail_at, big q s d ds v, wire_len q s d ds v)

    pub dequeue-small :
        buf_size < length d + 4
        → dequeue os q s buf buf_size old_len ≡ record {
          code = k_err_input_buf_not_enough_space;
          buf = buf;
          data_len = length d + 4;
          shm = after;
        }
    unfolding dequeue check advance
    dequeue-small h = ground (
      arith,
      v.ready,
      v.head_in,
      v.small,
      v.tail_at,
      big q s d ds v,
      wire_len q s d ds v,
      head_magic q s d ds v (Atomic.decrement s.msg_count),
      head_len q s d ds v (Atomic.decrement s.msg_count),
    )

    pub dequeue-ok :
        length d + 4 ≤ buf_size
        → dequeue os q s buf buf_size old_len ≡ record {
          code = k_ok;
          buf = data_bytes q s d ds v (Atomic.decrement s.msg_count) buf;
          data_len = length d;
          shm = record s {
            msg_count = Atomic.decrement s.msg_count;
            process_count = Atomic.increment s.process_count;
            head = advance size (advance size s.head 8) (length d + 4);
          };
        }
    unfolding dequeue check
    dequeue-ok h =
        let count = Atomic.decrement s.msg_count in
        let fits = big q s d ds v in
        ground (
          arith,
          v.ready,
          v.head_in,
          v.small,
          positions,
          fits,
          wire_len q s d ds v,
          head_magic q s d ds v count,
          head_len q s d ds v count,
          data_magic q s d ds v count buf,
          read_head-pos q after s.head v.head_in v.small,
          read_data-pos q after (advance size s.head 8)
              (advance-le size s.head 8 v.head_in (omega (arith, fits))) v.small buf (length d + 4)
              (omega (arith, fits)),
        )

    -- The message comes out whole, and no byte behind it and its magic number is written.
    dequeue_data :
        let r = data_bytes q s d ds v (Atomic.decrement s.msg_count) buf in
        (bytes r 0 (length d) ≡ d) × ((a : ℕ) → length d + 4 ≤ a → r a ≡ buf a)
    dequeue_data =
        let fits = big q s d ds v in
        (
          data_message q s d ds v (Atomic.decrement s.msg_count) buf,
          λ a h. ground (
            arith,
            read_data-byte q after (advance size s.head 8)
                (advance-le size s.head 8 v.head_in (omega (arith, fits))) v.small buf
                (length d + 4) a (omega (arith, fits)),
          ),
        )

-- What the caller of `dequeue` receives: the message in its buffer, or nothing.
abbrev pub Delivered : Memory → Option Message → Dequeued → Type 0
Delivered buf none r = r.buf ≡ buf
Delivered buf (some d) r =
    (r.data_len ≡ length d)
    × (bytes r.buf 0 (length d) ≡ d)
    × ((a : ℕ) → length d + 4 ≤ a → r.buf a ≡ buf a)

-- On a queue that holds `ds`, `dequeue` returns what `Spec.pop` returns and leaves the queue holding
-- what `pop` leaves. A message that is returned stands in the caller's buffer, byte by byte, and
-- `dataLen` is its length; at most 4 bytes behind it are written. With an error the buffer is
-- unchanged.
pub dequeue_refines :
    (os : Process) (q : ShmMq) (s : Shm) (buf : Memory) (buf_size old_len : ℕ) (ds : List Message)
    → Holds q s ds
    → let r = dequeue os q s buf buf_size old_len in
      let (code, out, ds') = pop buf_size ds in
      (r.code ≡ code) × Holds q r.shm ds' × Delivered buf out r
unfolding pop
dequeue_refines os q s buf buf_size old_len [] v =
    rw (dequeue-empty os q s buf buf_size old_len v) (refl, v, refl)
dequeue_refines os q s buf buf_size old_len (d ∷ ds) v = elim (dec_lt buf_size (length d + 4)) [
  | yes small ↦
      rw (dequeue-small os q s buf buf_size old_len d ds v small, lt→ltb _ _ small)
        (refl, counted-Holds q s v (Atomic.decrement s.msg_count), refl)
  | no fits ↦
      let (message, behind) = dequeue_data os q s buf buf_size old_len d ds v in
      rw
        (
          dequeue-ok os q s buf buf_size old_len d ds v (omega arith),
          le→ltb buf_size (length d + 4) (omega arith),
        )
        (refl, popped-Holds q s d ds v _ _, (refl, message, behind))
]
