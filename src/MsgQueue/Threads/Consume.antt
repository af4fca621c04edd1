-- ===== src/MsgQueue/Threads/Consume.antt =====
-- A step of `dequeue` of shmutil/shm_msg_queue.cc while a producer is at work.
use shmutil.Base.{
  ℕ, ◌+◌, ◌≤◌, ◌≡◌, ◌≢◌, refl, sym, ap, ◌∙◌, Bool-cases, inl, inr, true, List, [], ◌∷◌, ◌++◌, ltb,
  ◌==◌, length, arith, le→ltb,
}
use shmutil.Memory.{Memory, bytes, load32}
use shmutil.Atomic
use shmutil.MsgQueue.{Shm, ShmMq, Process, sub32, check, msg_magic_num}
use shmutil.MsgQueue.Ring.{advance, advance-advance, advance-le}
use shmutil.MsgQueue.Wire.{Message}
use shmutil.MsgQueue.Spec.{Holds}
use shmutil.MsgQueue.Front.{
  read_head-pos, read_data-pos, wire_len, big, head_magic, head_len, data_magic, data_message,
  popped-Holds,
}
use shmutil.MsgQueue.Threads.{Producing, Consuming, consume, got_by}
use shmutil.MsgQueue.Threads.Seen.{
  TailSeen, now-TailSeen, same-HeadSeen, popped-HeadSeen, first_there, seen_in,
}
use shmutil.MsgQueue.Threads.Facts.{ProducerOk, ConsumerOk, in_flight}

-- the counters of the queue change
abbrev recounted : Shm → ℕ → ℕ → Shm
recounted s count done = record s { msg_count = count; process_count = done }

counters-Holds :
    (q : ShmMq) (s : Shm) (ds : List Message) (count done : ℕ)
    → Holds q s ds
    → Holds q (recounted s count done) ds
counters-Holds q s ds count done v = record {
  ready = v.ready;
  small = v.small;
  head_in = v.head_in;
  room = v.room;
  tail_at = v.tail_at;
  data_at = v.data_at;
}

module _ (q : ShmMq) (s : Shm) where
  open q use {block_size as size}

  counted-ProducerOk :
      (ds : List Message) (count done : ℕ)
      → Holds q s ds
      → (p : Producing) → ProducerOk q s ds p
      → ProducerOk q (recounted s count done) ds p
  counted-ProducerOk ds count done v (Producing.started source n) ok = ok
  counted-ProducerOk ds count done v (Producing.head_read source n head) (w, h) =
      (w, same-HeadSeen q s ds v head (recounted s count done) ds refl refl h)
  counted-ProducerOk ds count done v (Producing.both_read source n head tail) (w, h, t) =
      (w, same-HeadSeen q s ds v head (recounted s count done) ds refl refl h, t)
  counted-ProducerOk ds count done v (Producing.writing source n tail total_len) ok = ok
  counted-ProducerOk ds count done v (Producing.written d tail) ok =
      counters-Holds q (record s { tail = tail }) (ds ++ (d ∷ [])) count done ok
  counted-ProducerOk ds count done v Producing.stored ok = ok
  counted-ProducerOk ds count done v (Producing.ended code) ok = ok

  module _ (d : Message) (rest : List Message) (v : Holds q s (d ∷ rest)) where
    -- the head behind the first message
    abbrev popped : Shm
    popped = record s { head = advance size (advance size s.head 8) (length d + 4) }

    popped_head : popped.head ≡ advance size s.head (length d + 12)
    popped_head =
        advance-advance size s.head 8 (length d + 4) v.head_in (omega (arith, big q s d rest v))
        ∙ ap (advance size s.head) (omega arith)

    popped-ProducerOk : (p : Producing) → ProducerOk q s (d ∷ rest) p → ProducerOk q popped rest p
    popped-ProducerOk (Producing.started source n) ok = ok
    popped-ProducerOk (Producing.head_read source n head) (w, h) =
        (w, popped-HeadSeen q s popped d rest head v popped_head h)
    popped-ProducerOk (Producing.both_read source n head tail) (w, h, t) =
        (w, popped-HeadSeen q s popped d rest head v popped_head h, t)
    popped-ProducerOk (Producing.writing source n tail total_len) (e, t, fits) =
        (e, t, omega (arith, fits, wire_len q s d rest v))
    popped-ProducerOk (Producing.written e tail) ok =
        popped-Holds q (record s { tail = tail }) d (rest ++ (e ∷ [])) ok s.msg_count
          s.process_count
    popped-ProducerOk Producing.stored ok = ok
    popped-ProducerOk (Producing.ended code) ok = ok

-- What a step leaves: the queue without a message that left it, which is on its way or returned.
abbrev pub Went : ShmMq → Shm → List Message → Consuming → Shm × Consuming → Type 0
Went q s ds pc r =
    (ds' : List Message) × Holds q r.0 ds'
    × ConsumerOk q r.0 ds' r.1
    × (in_flight pc ++ ds ≡ got_by pc r.1 ++ (in_flight r.1 ++ ds'))
    × ((p : Producing) → ProducerOk q s ds p → ProducerOk q r.0 ds' p)
    × (r.0.block ≡ s.block)

module _ (os : Process) (q : ShmMq) (s : Shm) (ds : List Message) (v : Holds q s ds) where
  open q use {block_size as size}

  checked : (tail : ℕ) → tail ≤ size → check os q s s.head tail ≡ (true, s)
  unfolding check
  checked tail t = ground (arith, v.head_in, t)

  both-Went :
      (buf : Memory) (buf_size tail : ℕ)
      → TailSeen q s ds tail
      → Went q s ds
          (Consuming.both_read buf buf_size s.head tail)
          (consume os q s (Consuming.both_read buf buf_size s.head tail))
  unfolding consume
  both-Went buf buf_size tail t =
      let ok = checked tail (seen_in q s ds tail v t) in
      elim (Bool-cases (s.head == tail)) [
        | inl empty ↦ rw (ok, empty) (ds, v, (λ e. cc), refl, (λ p o. o), refl)
        | inr more ↦
            rw (ok, more) (ds, v, (refl, t, λ e. ground (arith, e, more)), refl, (λ p o. o), refl)
      ]

  counting-Went :
      (buf : Memory) (buf_size tail : ℕ)
      → TailSeen q s ds tail
      → s.head ≢ tail
      → Went q s ds
          (Consuming.counting buf buf_size s.head tail)
          (consume os q s (Consuming.counting buf buf_size s.head tail))
  unfolding consume
  counting-Went buf buf_size tail t n =
      let (d, rest, l, le) = first_there q s ds tail v t n in
      let count = Atomic.decrement s.msg_count in
      (
        ds,
        counters-Holds q s ds count s.process_count v,
        (refl, (d, (rest, l), le)),
        refl,
        counted-ProducerOk q s ds count s.process_count v,
        refl,
      )

  moved-Went :
      (buf : Memory) (len : ℕ)
      → load32 buf len ≡ msg_magic_num
      → Went q s ds (Consuming.moved buf len) (consume os q s (Consuming.moved buf len))
  unfolding consume
  moved-Went buf len e =
      let done = Atomic.increment s.process_count in
      rw e (
        ds,
        counters-Holds q s ds s.msg_count done v,
        tt,
        refl,
        counted-ProducerOk q s ds s.msg_count done v,
        refl,
      )

  module _ (d : Message) (rest : List Message) (l : ds ≡ d ∷ rest) where
    at_first : Holds q s (d ∷ rest)
    at_first = rw l at v

    small_total : sub32 (sub32 (length d + 12) 4) 4 ≡ length d + 4
    small_total = omega (arith, big q s d rest at_first, at_first.small)

    head-Went :
        (buf : Memory) (buf_size used_len : ℕ)
        → length d + 12 ≤ used_len
        → Went q s ds
            (Consuming.copying_head buf buf_size s.head used_len)
            (consume os q s (Consuming.copying_head buf buf_size s.head used_len))
    unfolding consume
    head-Went buf buf_size used_len le =
        let magic = head_magic q s d rest at_first s.msg_count in
        let total = head_len q s d rest at_first s.msg_count in
        let pos =
          read_head-pos q s s.head v.head_in v.small (omega (arith, big q s d rest at_first)) in
        elim (Bool-cases (ltb buf_size (length d + 4))) [
          | inl short ↦
              rw (magic, total, small_total, le→ltb used_len (length d + 12) le, short)
                (ds, v, (λ e. cc), refl, (λ p o. o), refl)
          | inr fits ↦
              rw (magic, total, small_total, le→ltb used_len (length d + 12) le, fits)
                (ds, v, (d, (rest, l), pos, refl), refl, (λ p o. o), refl)
        ]

    data-Went :
        (buf : Memory)
        → Went q s ds
            (Consuming.copying_data buf (advance size s.head 8) (length d + 4))
            (consume os q s (Consuming.copying_data buf (advance size s.head 8) (length d + 4)))
    unfolding consume
    data-Went buf =
        let magic = data_magic q s d rest at_first s.msg_count buf in
        let message = data_message q s d rest at_first s.msg_count buf in
        let fits = big q s d rest at_first in
        let pos =
          read_data-pos q s (advance size s.head 8)
            (advance-le size s.head 8 v.head_in (omega (arith, fits))) v.small buf (length d + 4)
            (omega (arith, fits)) in
        let len : sub32 (length d + 4) 4 ≡ length d = omega (arith, fits, v.small) in
        rw len (ds, v, (d, (rest, l), pos, magic, message), refl, (λ p o. o), refl)

    copied-Went :
        (buf : Memory) (len : ℕ)
        → load32 buf len ≡ msg_magic_num
        → bytes buf 0 len ≡ d
        → Went q s ds
            (Consuming.copied buf (advance size (advance size s.head 8) (length d + 4)) len)
            (consume os q s
              (Consuming.copied buf (advance size (advance size s.head 8) (length d + 4)) len))
    unfolding consume
    copied-Went buf len magic message = (
      rest,
      popped-Holds q s d rest at_first s.msg_count s.process_count,
      magic,
      l ∙ ap (λ x. x ∷ rest) (sym message),
      (λ p o. popped-ProducerOk q s d rest at_first p (rw l at o)),
      refl,
    )

  -- Each step keeps what both threads rely on, and returns the first message.
  pub consume-Went : (pc : Consuming) → ConsumerOk q s ds pc → Went q s ds pc (consume os q s pc)
  unfolding consume
  consume-Went (Consuming.started buf buf_size) ok = (ds, v, refl, refl, (λ p o. o), refl)
  consume-Went (Consuming.head_read buf buf_size head) ok =
      (ds, v, (ok, now-TailSeen q s ds v), refl, (λ p o. o), refl)
  consume-Went (Consuming.both_read buf buf_size head tail) (e, t) =
      rw e (both-Went buf buf_size tail t)
  consume-Went (Consuming.counting buf buf_size head tail) (e, t, n) =
      rw e (counting-Went buf buf_size tail t n)
  consume-Went (Consuming.copying_head buf buf_size head used_len) (e, (d, (rest, l), le)) =
      rw e (head-Went d rest l buf buf_size used_len le)
  consume-Went (Consuming.copying_data buf head framed_len) (d, (rest, l), e, f) =
      rw (e, f) (data-Went d rest l buf)
  consume-Went (Consuming.copied buf head len) (d, (rest, l), e, magic, message) =
      rw e (copied-Went d rest l buf len magic message)
  consume-Went (Consuming.moved buf len) ok = moved-Went buf len ok
  consume-Went (Consuming.received d) ok = (ds, v, tt, refl, (λ p o. o), refl)
  consume-Went (Consuming.failed code) ok = (ds, v, ok, refl, (λ p o. o), refl)
