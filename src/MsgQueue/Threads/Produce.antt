-- ===== src/MsgQueue/Threads/Produce.antt =====
-- A step of `enqueue` of shmutil/shm_msg_queue.cc while a consumer is at work.
use shmutil.Base.{
  ℕ, ◌+◌, ◌-◌, ◌^◌, ◌≤◌, ◌<◌, ◌≡◌, ◌≢◌, refl, ◌∙◌, Bool-cases, inl, inr, true, false, List, [], ◌∷◌,
  ◌++◌, ltb, leb, if◌then◌else◌, length, arith,
}
use mathlib.Core.List.{append-nil}
use shmutil.Memory.{Memory, bytes}
use shmutil.ErrorCode.{k_err_not_enough_space}
use shmutil.Atomic
use shmutil.MsgQueue.{Shm, ShmMq, Process, add32, sub32, check}
use shmutil.MsgQueue.Ring.{ring_pos, advance}
use shmutil.MsgQueue.Wire.{Message, wire}
use shmutil.MsgQueue.Send.{enqueue_data}
use shmutil.MsgQueue.Spec.{Holds}
use shmutil.MsgQueue.Room.{enqueue_data-Wrote}
use shmutil.MsgQueue.Push.{pushed-Holds, old_pos}
use shmutil.MsgQueue.Front.{counted-Holds}
use shmutil.MsgQueue.Threads.{Producing, produce, sent_by, OnlyFrame}
use shmutil.MsgQueue.Threads.Seen.{HeadSeen, tail_in, now-HeadSeen, room_now}
use shmutil.MsgQueue.Threads.Facts.{ProducerOk}

-- What a step leaves: a queue that holds the message too, if the step has sent one.
abbrev pub Kept : ShmMq → Shm → List Message → Shm × Producing → Type 0
Kept q s ds r = Holds q r.0 ds × ProducerOk q r.0 ds r.1 × (r.0.head ≡ s.head)

module _ (os : Process) (q : ShmMq) (s : Shm) (ds : List Message) (v : Holds q s ds) where
  open q use {block_size as size}

  total-eq : (n : ℕ) → n + 12 < 2 ^ 32 → add32 (add32 n 4) 8 ≡ n + 12
  total-eq n w = omega arith

  checked : (head tail : ℕ) → head ≤ size → tail ≤ size → check os q s head tail ≡ (true, s)
  unfolding check
  checked head tail h t = ground (arith, h, t)

  -- the code's free length, from the head that was read
  abbrev free : ℕ → ℕ
  free head = if ltb s.tail head then sub32 head s.tail else sub32 (add32 head size) s.tail

  both-full :
      (source : Memory) (n head : ℕ)
      → n + 12 < 2 ^ 32
      → head ≤ size
      → leb (free head) (n + 12) ≡ true
      → produce os q s (Producing.both_read source n head s.tail)
        ≡ (s, Producing.ended k_err_not_enough_space)
  unfolding produce
  both-full source n head w h e =
      rw (total-eq n w, checked head s.tail h (tail_in q s ds v), e) refl

  both-room :
      (source : Memory) (n head : ℕ)
      → n + 12 < 2 ^ 32
      → head ≤ size
      → leb (free head) (n + 12) ≡ false
      → produce os q s (Producing.both_read source n head s.tail)
        ≡ (s, Producing.writing source n s.tail (n + 12))
  unfolding produce
  both-room source n head w h e =
      rw (total-eq n w, checked head s.tail h (tail_in q s ds v), e) refl

  both-Kept :
      (source : Memory) (n head : ℕ)
      → n + 12 < 2 ^ 32
      → HeadSeen q s ds head
      → Kept q s ds (produce os q s (Producing.both_read source n head s.tail))
  both-Kept source n head w h = elim (Bool-cases (leb (free head) (n + 12))) [
    | inl full ↦ rw (both-full source n head w h.head_in full) (v, (λ e. cc), refl)
    | inr room ↦
        rw (both-room source n head w h.head_in room)
          (v, (refl, refl, room_now q s ds v head n h room), refl)
  ]

  -- A write that leaves the bytes of the messages.
  block-Holds :
      (new : Memory)
      → ((i : ℕ)
          → i < length (wire ds)
          → new (ring_pos size s.head i) ≡ s.block (ring_pos size s.head i))
      → Holds q (record s { block = new }) ds
  block-Holds new same = record {
    ready = v.ready;
    small = v.small;
    head_in = v.head_in;
    room = v.room;
    tail_at = v.tail_at;
    data_at = λ i h. same i h ∙ v.data_at i h;
  }

  -- the frame is there, the tail not yet
  frame_there :
      (source : Memory) (n : ℕ)
      → length (wire ds) + (n + 12) < size
      → (new : Memory) × (enqueue_data q s source n (n + 12)
          ≡ record s { block = new; tail = advance size s.tail (n + 12) })
        × Holds q (record s { block = new }) ds
        × Holds q
            (record s { block = new; tail = advance size s.tail (n + 12) })
            (ds ++ (bytes source 0 n ∷ []))
  frame_there source n fits =
      let (new, w, e) =
        enqueue_data-Wrote q s source n (tail_in q s ds v) v.small (omega (arith, fits)) in
      (
        new,
        e,
        block-Holds new (λ i h. rw (old_pos os q s ds source n v i h) (
            w.kept (size - length (wire ds) + i) (omega (arith, fits, h))
              (omega (arith, v.room, h)))),
        pushed-Holds os q s ds source n v fits w s.msg_count,
      )

  -- The frame's bytes lie apart from those of the messages.
  apart :
      (total_len i j : ℕ)
      → length (wire ds) + total_len < size
      → i < length (wire ds)
      → j < total_len
      → ring_pos size s.head i ≢ ring_pos size s.tail j
  unfolding ring_pos advance
  apart total_len i j fits h l e = ground (arith, v.tail_at, v.head_in, e)

  -- Part of the frame is there.
  pub some-Holds :
      (tail total_len : ℕ) (block : Memory)
      → tail ≡ s.tail
      → length (wire ds) + total_len < size
      → OnlyFrame q tail total_len s.block block
      → Holds q (record s { block = block }) ds
  some-Holds tail total_len block t fits only =
      block-Holds block
        (λ i h. only (ring_pos size s.head i) (λ j l. rw t (apart total_len i j fits h l)))

  writing-Kept :
      (source : Memory) (n : ℕ)
      → length (wire ds) + (n + 12) < size
      → Kept q s ds (produce os q s (Producing.writing source n s.tail (n + 12)))
  unfolding produce
  writing-Kept source n fits =
      let (new, e, old, next) = frame_there source n fits in rw e (old, next, refl)

  abbrev After : Producing → Type 0
  After pc = Kept q s (ds ++ sent_by pc) (produce os q s pc)

  -- Each step keeps what the producer relies on.
  pub produce-Kept : (pc : Producing) → ProducerOk q s ds pc → After pc
  unfolding produce
  produce-Kept (Producing.started source n) w =
      rw (append-nil ds) (v, (w, now-HeadSeen q s ds v), refl)
  produce-Kept (Producing.head_read source n head) (w, h) =
      rw (append-nil ds) (v, (w, h, refl), refl)
  produce-Kept (Producing.both_read source n head tail) (w, h, t) =
      rw (append-nil ds, t) (both-Kept source n head w h)
  produce-Kept (Producing.writing source n tail total_len) (e, t, fits) =
      rw (append-nil ds, t, e) (writing-Kept source n fits)
  produce-Kept (Producing.written d tail) next = (next, tt, refl)
  produce-Kept Producing.stored ok =
      rw (append-nil ds) (counted-Holds q s v (Atomic.increment s.msg_count), (λ e. cc), refl)
  produce-Kept (Producing.ended code) ok = rw (append-nil ds) (v, ok, refl)
