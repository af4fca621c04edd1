-- ===== src/MsgQueue/Threads/Seen.antt =====
-- What a position that was read a while ago still says, in shmutil/shm_msg_queue.cc: the other thread
-- has moved on since.
use shmutil.Base.{
  ℕ, ◌+◌, ◌^◌, ◌≤◌, ◌<◌, ◌≡◌, ◌≢◌, refl, sym, ap, ◌∙◌, List, [], ◌∷◌, ◌++◌, ltb, leb, false,
  if◌then◌else◌, length, length-append, arith,
}
use shmutil.MsgQueue.{Shm, ShmMq, add32, sub32}
use shmutil.MsgQueue.Ring.{advance, advance-advance, advance-le}
use shmutil.MsgQueue.Wire.{Message, wire, frame, length-frame}
use mathlib.Core.List.{append-nil, append_assoc}
use shmutil.MsgQueue.Spec.{Holds}
use shmutil.MsgQueue.Front.{wire_len}

-- The producer has read the head at a time when the queue held `k` bytes that are gone now, and all
-- that it holds now.
pub record HeadSeen (q : ShmMq) (s : Shm) (ds : List Message) (head : ℕ) : Type 0 where
  pub head_in : head ≤ q.block_size
  pub gone : ℕ
  pub room : gone + length (wire ds) < q.block_size
  pub now : s.head ≡ advance q.block_size head gone

-- The consumer has read the tail at a time when the queue held the first messages that it holds now.
abbrev pub TailSeen : ShmMq → Shm → List Message → ℕ → Type 0
TailSeen q s ds tail =
    (old : List Message) × (later : List Message) × (ds ≡ old ++ later)
    × (tail ≡ advance q.block_size s.head (length (wire old)))

free_room :
    (size head tail n k : ℕ)
    → head ≤ size
    → k < size
    → size < 2 ^ 31
    → tail ≡ advance size head k
    → leb (if ltb tail head then sub32 head tail else sub32 (add32 head size) tail) (n + 12) ≡ false
    → k + (n + 12) < size
unfolding advance
free_room size head tail n k h b small e t = ground arith

advance-zero : (size head : ℕ) → head ≤ size → advance size head 0 ≡ head
unfolding advance
advance-zero size head h = ground arith

length-wire-nil : length (wire []) ≡ 0
unfolding wire
length-wire-nil = refl

wire_split : (ds es : List Message) → length (wire ds) ≤ length (wire (ds ++ es))
unfolding wire
wire_split [] es = omega arith
wire_split (d ∷ ds) es = omega (
  arith,
  wire_split ds es,
  length-append (frame d) (wire ds),
  length-append (frame d) (wire (ds ++ es)),
)

length-wire-cons :
    (d : Message) (ds : List Message) → length (wire (d ∷ ds)) ≡ length d + 12 + length (wire ds)
unfolding wire
length-wire-cons d ds = omega (arith, length-append (frame d) (wire ds), length-frame d)

module _ (q : ShmMq) (s : Shm) (ds : List Message) (v : Holds q s ds) where
  open q use {block_size as size}

  pub tail_in : s.tail ≤ size
  tail_in =
      rw v.tail_at (advance-le size s.head (length (wire ds)) v.head_in (omega (arith, v.room)))

  pub now-HeadSeen : HeadSeen q s ds s.head
  unfolding advance
  now-HeadSeen = record {
    head_in = v.head_in;
    gone = 0;
    room = omega (arith, v.room);
    now = ground (arith, v.head_in);
  }

  pub now-TailSeen : TailSeen q s ds s.tail
  now-TailSeen = (ds, [], sym (append-nil ds), v.tail_at)

  -- The room that the code computes from the old head is there now.
  pub room_now :
      (head n : ℕ)
      → HeadSeen q s ds head
      → leb (if ltb s.tail head then sub32 head s.tail else sub32 (add32 head size) s.tail) (n + 12)
        ≡ false
      → length (wire ds) + (n + 12) < size
  room_now head n h e =
      let t : s.tail ≡ advance size head (h.gone + length (wire ds)) =
        v.tail_at
        ∙ ap (λ p. advance size p (length (wire ds))) h.now
        ∙ advance-advance size head h.gone (length (wire ds)) h.head_in h.room in
      omega (
        arith,
        free_room size head s.tail n (h.gone + length (wire ds)) h.head_in h.room v.small t e,
      )

  pub same-HeadSeen :
      (head : ℕ)
      → (s' : Shm) (ds' : List Message) → s'.head ≡ s.head
      → length (wire ds') ≡ length (wire ds)
      → HeadSeen q s ds head
      → HeadSeen q s' ds' head
  same-HeadSeen head s' ds' e l h = record {
    head_in = h.head_in;
    gone = h.gone;
    room = omega (arith, h.room, l);
    now = e ∙ h.now;
  }

-- The code's length of the contents, from a tail read a while ago.
pub used_then :
    (size head tail k : ℕ)
    → head ≤ size
    → k < size
    → size < 2 ^ 31
    → 0 < k
    → tail ≡ advance size head k
    → (if ltb head tail then sub32 tail head else sub32 (add32 tail size) head) ≡ k
unfolding advance
used_then size head tail k h b small p e = ground arith

-- With the first message the head goes on.
pub popped-HeadSeen :
    (q : ShmMq) (s s' : Shm) (d : Message) (ds : List Message) (head : ℕ)
    → Holds q s (d ∷ ds)
    → s'.head ≡ advance q.block_size s.head (length d + 12)
    → HeadSeen q s (d ∷ ds) head
    → HeadSeen q s' ds head
popped-HeadSeen q s s' d ds head v e h =
    let len = wire_len q s d ds v in
    record {
      head_in = h.head_in;
      gone = h.gone + (length d + 12);
      room = omega (arith, h.room, len);
      now =
          e
          ∙ ap (λ p. advance q.block_size p (length d + 12)) h.now
          ∙ advance-advance q.block_size head h.gone (length d + 12) h.head_in
              (omega (arith, h.room, len));
    }

-- Messages sent after the tail was read do not matter.
pub pushed-TailSeen :
    (q : ShmMq) (s s' : Shm) (ds more : List Message) (tail : ℕ)
    → s'.head ≡ s.head
    → TailSeen q s ds tail
    → TailSeen q s' (ds ++ more) tail
pushed-TailSeen q s s' ds more tail e (old, later, l, t) = (
  old,
  later ++ more,
  ap (λ x. x ++ more) l ∙ append_assoc old later more,
  t ∙ ap (λ p. advance q.block_size p (length (wire old))) (sym e),
)

-- Where that tail is not the head, the first of the messages is there in full.
pub first_there :
    (q : ShmMq) (s : Shm) (ds : List Message) (tail : ℕ)
    → Holds q s ds
    → TailSeen q s ds tail
    → s.head ≢ tail
    → (d : Message) × (rest : List Message) × (ds ≡ d ∷ rest)
      × (length d + 12
          ≤ (if ltb s.head tail then sub32 tail s.head else sub32 (add32 tail q.block_size) s.head))
first_there q s ds tail v ([], later, l, t) n = absurd (
    n (
      sym (
        t
        ∙ ap (advance q.block_size s.head) length-wire-nil
        ∙ advance-zero q.block_size s.head v.head_in)))
first_there q s ds tail v (d ∷ old, later, l, t) n =
    let part = wire_split (d ∷ old) later in
    let size = ap (λ x. length (wire x)) l in
    let first = length-wire-cons d old in
    let used =
      used_then q.block_size s.head tail (length (wire (d ∷ old))) v.head_in
        (omega (arith, part, size, v.room)) v.small (omega (arith, first)) t in
    (d, old ++ later, l, omega (arith, used, first))

pub seen_in :
    (q : ShmMq) (s : Shm) (ds : List Message) (tail : ℕ)
    → Holds q s ds
    → TailSeen q s ds tail
    → tail ≤ q.block_size
seen_in q s ds tail v (old, later, l, t) =
    let part = wire_split old later in
    let size = ap (λ x. length (wire x)) l in
    rw t (
      advance-le q.block_size s.head (length (wire old)) v.head_in
        (omega (arith, part, size, v.room)))
