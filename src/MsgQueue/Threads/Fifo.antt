-- ===== src/MsgQueue/Threads/Fifo.antt =====
-- The queue of shmutil/shm_msg_queue.cc between one producer and one consumer without a lock.
use shmutil.Base.{
  ◌+◌, ◌≡◌, ◌≢◌, inl, inr, refl, sym, ap, ◌∙◌, Bool, true, false, List, [], ◌++◌, length, arith,
}
use mathlib.Core.List.{append-nil, append_assoc}
use shmutil.ErrorCode.{ErrorCode, k_err_data_mess}
use shmutil.MsgQueue.{Shm, ShmMq, Process}
use shmutil.MsgQueue.Wire.{Message}
use shmutil.MsgQueue.Ring.{advance}
use shmutil.MsgQueue.Spec.{Holds}
use shmutil.MsgQueue.Threads.{
  Producing, Consuming, System, Step, Reach, here, next, call_enqueue, step_enqueue, write_some,
  call_dequeue, step_dequeue, produce, consume, sent_by, got_by, at_rest,
}
use shmutil.MsgQueue.Threads.Seen.{pushed-TailSeen}
use shmutil.MsgQueue.Threads.Facts.{ProducerOk, ConsumerOk, IsFirst, in_flight, Inv}
use shmutil.MsgQueue.Threads.Produce.{produce-Kept, some-Holds}
use shmutil.MsgQueue.Threads.Consume.{consume-Went}

module _ (q : ShmMq) (s s' : Shm) (ds more : List Message) (e : s'.head ≡ s.head) where
  open q use {block_size as size}

  sent-IsFirst : (d : Message) → IsFirst q s ds d → IsFirst q s' (ds ++ more) d
  sent-IsFirst d (rest, l) = (rest ++ more, ap (λ x. x ++ more) l)

  -- What the consumer relies on stays so when the producer makes a step.
  sent-ConsumerOk : (c : Consuming) → ConsumerOk q s ds c → ConsumerOk q s' (ds ++ more) c
  sent-ConsumerOk (Consuming.started buf buf_size) ok = tt
  sent-ConsumerOk (Consuming.head_read buf buf_size head) ok = ok ∙ sym e
  sent-ConsumerOk (Consuming.both_read buf buf_size head tail) (h, t) =
      (h ∙ sym e, pushed-TailSeen q s s' ds more tail e t)
  sent-ConsumerOk (Consuming.counting buf buf_size head tail) (h, t, n) =
      (h ∙ sym e, pushed-TailSeen q s s' ds more tail e t, λ w. n (sym e ∙ w))
  sent-ConsumerOk (Consuming.copying_head buf buf_size head used_len) (h, (d, first, le)) =
      (h ∙ sym e, (d, sent-IsFirst d first, le))
  sent-ConsumerOk (Consuming.copying_data buf head framed_len) (d, first, h, f) =
      (d, sent-IsFirst d first, h ∙ ap (λ p. advance size p 8) (sym e), f)
  sent-ConsumerOk (Consuming.copied buf head len) (d, first, h, magic, message) = (
    d,
    sent-IsFirst d first,
    h ∙ ap (λ p. advance size (advance size p 8) (length d + 4)) (sym e),
    magic,
    message,
  )
  sent-ConsumerOk (Consuming.moved buf len) ok = ok
  sent-ConsumerOk (Consuming.received d) ok = tt
  sent-ConsumerOk (Consuming.failed code) ok = ok

sent_order :
    (first sent more got flight ds : List Message)
    → first ++ sent ≡ got ++ (flight ++ ds)
    → first ++ (sent ++ more) ≡ got ++ (flight ++ (ds ++ more))
sent_order first sent more got flight ds e =
    sym (append_assoc first sent more)
    ∙ ap (λ x. x ++ more) e
    ∙ append_assoc got (flight ++ ds) more
    ∙ ap (λ x. got ++ x) (append_assoc flight ds more)

got_order :
    (all got flight ds out flight' ds' : List Message)
    → all ≡ got ++ (flight ++ ds)
    → flight ++ ds ≡ out ++ (flight' ++ ds')
    → all ≡ (got ++ out) ++ (flight' ++ ds')
got_order all got flight ds out flight' ds' e f =
    e ∙ ap (λ x. got ++ x) f ∙ sym (append_assoc got out (flight' ++ ds'))

module _ (os : Process) (q : ShmMq) (first : List Message) where
  -- Each step of either thread keeps the invariant.
  Step-Inv :
      {y z : System}
      → Step os q y z
      → (ds : List Message) → Inv q first y ds
      → (ds' : List Message) × Inv q first z ds'
  Step-Inv {y} (call_enqueue code source n e small) ds v =
      (ds, record { holds = v.holds; producer = small; consumer = v.consumer; order = v.order })
  Step-Inv {y} step_enqueue ds v =
      let (holds, ok, head) = produce-Kept os q y.shm ds v.holds y.producing v.producer in
      let more = sent_by y.producing in
      (
        ds ++ more,
        record {
          holds = holds;
          producer = ok;
          consumer =
              sent-ConsumerOk q y.shm (produce os q y.shm y.producing).0 ds more head y.consuming
                v.consumer;
          order = sent_order first y.sent more y.got (in_flight y.consuming) ds v.order;
        },
      )
  Step-Inv {y} (write_some source n tail total_len block e only) ds v =
      let (t, at_tail, fits) = rw e at v.producer in
      let s' : Shm = record y.shm { block = block } in
      (
        ds,
        record {
          holds = some-Holds os q y.shm ds v.holds tail total_len block at_tail (rw t fits) only;
          producer = rw e (t, at_tail, fits);
          consumer =
              rw (append-nil ds) at (sent-ConsumerOk q y.shm s' ds [] refl y.consuming v.consumer);
          order = v.order;
        },
      )
  Step-Inv {y} (call_dequeue buf buf_size e) ds v =
      let none_left : in_flight y.consuming ≡ [] = elim e [
        | inl (d, w) ↦ ap in_flight w
        | inr (code, w) ↦ ap in_flight w
      ] in
      (
        ds,
        record {
          holds = v.holds;
          producer = v.producer;
          consumer = tt;
          order = v.order ∙ ap (λ x. y.got ++ (x ++ ds)) none_left;
        },
      )
  Step-Inv {y} step_dequeue ds v =
      let (ds', holds, ok, order, kept, same) =
        consume-Went os q y.shm ds v.holds y.consuming v.consumer in
      (
        ds',
        record {
          holds = holds;
          producer = kept y.producing v.producer;
          consumer = ok;
          order =
              got_order (first ++ y.sent) y.got (in_flight y.consuming) ds
                (got_by y.consuming (consume os q y.shm y.consuming).1)
                (in_flight (consume os q y.shm y.consuming).1) ds' v.order order;
        },
      )

  rest-Inv : (s : Shm) → Holds q s first → Inv q first (at_rest s) first
  rest-Inv s v = record {
    holds = v;
    producer = λ e. cc;
    consumer = λ e. cc;
    order = append-nil first;
  }

  Reach-Inv :
      {y z : System}
      → Reach os q y z
      → (ds : List Message) → Inv q first y ds
      → (ds' : List Message) × Inv q first z ds'
  Reach-Inv here ds v = (ds, v)
  Reach-Inv (next r st) ds v = let (ds', v') = Reach-Inv r ds v in Step-Inv st ds' v'

-- whether a call has found the queue damaged, and cleared it
abbrev pub is_mess : ErrorCode → Bool
is_mess k_err_data_mess = true
is_mess _ = false

abbrev pub producer_mess : Producing → Bool
producer_mess (Producing.ended code) = is_mess code
producer_mess _ = false

abbrev pub consumer_mess : Consuming → Bool
consumer_mess (Consuming.failed code) = is_mess code
consumer_mess _ = false

is_mess-false : (code : ErrorCode) → code ≢ k_err_data_mess → is_mess code ≡ false
is_mess-false code n = ground arith

producer_mess-false :
    (q : ShmMq) (s : Shm) (ds : List Message) (p : Producing)
    → ProducerOk q s ds p
    → producer_mess p ≡ false
producer_mess-false q s ds (Producing.ended code) ok = is_mess-false code ok
producer_mess-false q s ds (Producing.started source n) ok = refl
producer_mess-false q s ds (Producing.head_read source n head) ok = refl
producer_mess-false q s ds (Producing.both_read source n head tail) ok = refl
producer_mess-false q s ds (Producing.writing source n tail total_len) ok = refl
producer_mess-false q s ds (Producing.written d tail) ok = refl
producer_mess-false q s ds Producing.stored ok = refl

consumer_mess-false :
    (q : ShmMq) (s : Shm) (ds : List Message) (c : Consuming)
    → ConsumerOk q s ds c
    → consumer_mess c ≡ false
consumer_mess-false q s ds (Consuming.failed code) ok = is_mess-false code ok
consumer_mess-false q s ds (Consuming.started buf buf_size) ok = refl
consumer_mess-false q s ds (Consuming.head_read buf buf_size head) ok = refl
consumer_mess-false q s ds (Consuming.both_read buf buf_size head tail) ok = refl
consumer_mess-false q s ds (Consuming.counting buf buf_size head tail) ok = refl
consumer_mess-false q s ds (Consuming.copying_head buf buf_size head used_len) ok = refl
consumer_mess-false q s ds (Consuming.copying_data buf head framed_len) ok = refl
consumer_mess-false q s ds (Consuming.copied buf head len) ok = refl
consumer_mess-false q s ds (Consuming.moved buf len) ok = refl
consumer_mess-false q s ds (Consuming.received d) ok = refl

-- One producer and one consumer without a lock, from a segment that holds the messages `first`, with their steps in any order and a frame that is being written there in part: the messages that the consumer has received, the one on its way and those that the segment holds are `first` and the messages sent, whole and in order, and neither thread has found the queue damaged. A frame's length fits in 32 bits.
pub threads_fifo :
    (os : Process) (q : ShmMq) (first : List Message) (s : Shm) (y : System)
    → Holds q s first
    → Reach os q (at_rest s) y
    → (ds : List Message) × Holds q y.shm ds
      × (first ++ y.sent ≡ y.got ++ (in_flight y.consuming ++ ds))
      × (producer_mess y.producing ≡ false)
      × (consumer_mess y.consuming ≡ false)
threads_fifo os q first s y v r =
    let (ds, i) = Reach-Inv os q first r first (rest-Inv os q first s v) in
    (
      ds,
      i.holds,
      i.order,
      producer_mess-false q y.shm ds y.producing i.producer,
      consumer_mess-false q y.shm ds y.consuming i.consumer,
    )
