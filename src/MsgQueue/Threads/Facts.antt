-- ===== src/MsgQueue/Threads/Facts.antt =====
-- What each step of `enqueue` and `dequeue` of shmutil/shm_msg_queue.cc relies on.
use shmutil.Base.{◌+◌, ◌^◌, ◌≤◌, ◌<◌, ◌≡◌, ◌≢◌, List, [], ◌∷◌, ◌++◌, length}
use shmutil.Memory.{bytes, load32}
use shmutil.ErrorCode.{k_err_data_mess}
use shmutil.MsgQueue.{Shm, ShmMq, msg_magic_num}
use shmutil.MsgQueue.Ring.{advance}
use shmutil.MsgQueue.Wire.{Message, wire}
use shmutil.MsgQueue.Spec.{Holds}
use shmutil.MsgQueue.Threads.{Producing, Consuming, System}
use shmutil.MsgQueue.Threads.Seen.{HeadSeen, TailSeen}

module _ (q : ShmMq) (s : Shm) (ds : List Message) where
  abbrev pub ProducerOk : Producing → Type 0
  ProducerOk (Producing.started source n) = n + 12 < 2 ^ 32
  ProducerOk (Producing.head_read source n head) = (n + 12 < 2 ^ 32) × HeadSeen q s ds head
  ProducerOk (Producing.both_read source n head tail) =
      (n + 12 < 2 ^ 32) × HeadSeen q s ds head × (tail ≡ s.tail)
  ProducerOk (Producing.writing source n tail total_len) =
      (total_len ≡ n + 12) × (tail ≡ s.tail) × (length (wire ds) + (n + 12) < q.block_size)
  ProducerOk (Producing.written d tail) = Holds q (record s { tail = tail }) (ds ++ (d ∷ []))
  ProducerOk Producing.stored = Unit
  ProducerOk (Producing.ended code) = code ≢ k_err_data_mess

  -- the first message, which the consumer is at
  abbrev pub IsFirst : Message → Type 0
  IsFirst d = (rest : List Message) × (ds ≡ d ∷ rest)

  abbrev pub ConsumerOk : Consuming → Type 0
  ConsumerOk (Consuming.started buf buf_size) = Unit
  ConsumerOk (Consuming.head_read buf buf_size head) = head ≡ s.head
  ConsumerOk (Consuming.both_read buf buf_size head tail) = (head ≡ s.head) × TailSeen q s ds tail
  ConsumerOk (Consuming.counting buf buf_size head tail) =
      (head ≡ s.head) × TailSeen q s ds tail × (s.head ≢ tail)
  ConsumerOk (Consuming.copying_head buf buf_size head used_len) =
      (head ≡ s.head) × ((d : Message) × IsFirst d × (length d + 12 ≤ used_len))
  ConsumerOk (Consuming.copying_data buf head framed_len) =
      (d : Message) × IsFirst d
      × (head ≡ advance q.block_size s.head 8)
      × (framed_len ≡ length d + 4)
  ConsumerOk (Consuming.copied buf head len) =
      (d : Message) × IsFirst d
      × (head ≡ advance q.block_size (advance q.block_size s.head 8) (length d + 4))
      × (load32 buf len ≡ msg_magic_num)
      × (bytes buf 0 len ≡ d)
  ConsumerOk (Consuming.moved buf len) = load32 buf len ≡ msg_magic_num
  ConsumerOk (Consuming.received d) = Unit
  ConsumerOk (Consuming.failed code) = code ≢ k_err_data_mess

-- the message that has left the queue and is not returned yet
abbrev pub in_flight : Consuming → List Message
in_flight (Consuming.moved buf len) = bytes buf 0 len ∷ []
in_flight _ = []

-- The queue holds `ds`, both threads rely on what is so, and each message is where it belongs: `first`
-- were in the queue before the threads started.
pub record Inv (q : ShmMq) (first : List Message) (y : System) (ds : List Message) : Type 0 where
  pub holds : Holds q y.shm ds
  pub producer : ProducerOk q y.shm ds y.producing
  pub consumer : ConsumerOk q y.shm ds y.consuming
  pub order : first ++ y.sent ≡ y.got ++ (in_flight y.consuming ++ ds)
