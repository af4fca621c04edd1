-- ===== src/MsgQueue/Push.antt =====
-- `ShmMQ::enqueue` refines `Spec.push`.
use shmutil.Base.{
  ℕ, ◌+◌, ◌-◌, ◌^◌, ◌≤◌, ◌<◌, ◌≡◌, refl, List, [], ◌∷◌, ◌++◌, ltb, if◌then◌else◌, dec_lt, length,
  get_or, arith, lt→ltb, le→ltb,
}
use shmutil.Memory.{Memory, bytes, length-bytes, get_or-bytes}
use shmutil.ErrorCode.{k_ok, k_err_not_enough_space}
use shmutil.Atomic
use shmutil.MsgQueue.{Shm, ShmMq, Process, check}
use shmutil.MsgQueue.Ring.{ring_pos, advance}
use shmutil.MsgQueue.Wire.{
  Message, wire, frame, get_or-frame, get_or-append, wire-append, length-wire-append,
}
use shmutil.MsgQueue.Send.{enqueue, enqueue_data}
use shmutil.MsgQueue.Room.{Wrote, frame_byte, enqueue_data-Wrote}
use shmutil.MsgQueue.Spec.{Holds, push}

-- A frame, byte by byte.
frame-frame_byte :
    (source : Memory) (n i : ℕ)
    → i < n + 12
    → get_or (frame (bytes source 0 n)) i 0 ≡ frame_byte source n i
unfolding frame_byte
frame-frame_byte source n i h = ground (
  arith,
  length-bytes source 0 n,
  get_or-frame (bytes source 0 n) i,
  get_or-bytes source 0 n (i - 8),
)

module _ (os : Process) (q : ShmMq) (s : Shm) (ds : List Message) (source : Memory) (n : ℕ)
    (v : Holds q s ds) where
  open q use {block_size as size}
  open s use {tail}

  tail_in : tail ≤ size
  unfolding advance
  tail_in = ground (arith, v.tail_at, v.head_in)

  enqueue-full :
      n + 12 < 2 ^ 32
      → size ≤ length (wire ds) + (n + 12)
      → enqueue os q s source n ≡ (k_err_not_enough_space, s)
  unfolding enqueue check advance
  enqueue-full w h = ground (arith, v.tail_at, v.head_in, v.ready, v.small, v.room)

  enqueue-ok :
      length (wire ds) + (n + 12) < size
      → enqueue os q s source n ≡ (
        k_ok,
        let s' = enqueue_data q s source n (n + 12) in
            record s' { msg_count = Atomic.increment s'.msg_count },
      )
  unfolding enqueue check advance
  enqueue-ok h = ground (arith, v.tail_at, v.head_in, v.ready, v.small, v.room)

  -- Seen from the head, the new tail is behind the old contents.
  tail_new :
      length (wire ds) + (n + 12) < size
      → advance size tail (n + 12) ≡ advance size s.head (length (wire ds) + (n + 12))
  unfolding advance
  tail_new h = ground (arith, v.tail_at, v.head_in)

  pub old_pos :
      (i : ℕ)
      → i < length (wire ds)
      → ring_pos size s.head i ≡ ring_pos size tail (size - length (wire ds) + i)
  unfolding advance ring_pos
  old_pos i h = ground (arith, v.tail_at, v.head_in, v.room)

  new_pos :
      (i : ℕ)
      → length (wire ds) ≤ i
      → i < size
      → ring_pos size s.head i ≡ ring_pos size tail (i - length (wire ds))
  unfolding advance ring_pos
  new_pos i h l = ground (arith, v.tail_at, v.head_in, v.room)

  module _ (fits : length (wire ds) + (n + 12) < size) {new : Memory}
      (w : Wrote size tail source n s.block new) where
    written :
        (i : ℕ)
        → i < length (wire ds) + (n + 12)
        → new (ring_pos size s.head i) ≡ get_or (wire ds ++ frame (bytes source 0 n)) i 0
    written i h = ground (
      arith,
      get_or-append (wire ds) (frame (bytes source 0 n)) i,
      old_pos i,
      new_pos i,
      w.kept (size - length (wire ds) + i),
      w.inside (i - length (wire ds)),
      frame-frame_byte source n (i - length (wire ds)),
      v.data_at i,
    )

    pub pushed-Holds :
        (count : ℕ)
        → Holds q
            (record s { block = new; tail = advance size tail (n + 12); msg_count = count })
            (ds ++ (bytes source 0 n ∷ []))
    pushed-Holds count =
        let e : length (wire (ds ++ (bytes source 0 n ∷ []))) ≡ length (wire ds) + (n + 12) =
          omega (arith, length-wire-append ds (bytes source 0 n), length-bytes source 0 n) in
        record {
          ready = v.ready;
          small = v.small;
          head_in = v.head_in;
          room = omega (arith, e, fits);
          tail_at = rw e (tail_new fits);
          data_at = λ i h. rw (wire-append ds (bytes source 0 n)) (written i (omega (arith, e, h)));
        }

  -- On a queue that holds `ds`, with a frame whose length fits in 32 bits, `enqueue` returns what
  -- `Spec.push` returns for the `n` bytes at `source`, and leaves the queue holding what `push` leaves.
  -- The message counter goes up by one with a message that is taken and is the same otherwise, and no
  -- byte behind the block is written.
  pub enqueue_refines :
      n + 12 < 2 ^ 32
      → let (code, s') = enqueue os q s source n in
        let (code', ds') = push size ds (bytes source 0 n) in
        (code ≡ code')
        × Holds q s' ds'
        × (s'.msg_count ≡ (
            if ltb (length (wire ds) + (n + 12)) size
            then Atomic.increment s.msg_count
            else s.msg_count))
        × ((a : ℕ) → size ≤ a → s'.block a ≡ s.block a)
  unfolding push
  enqueue_refines h = elim (dec_lt (length (wire ds) + (n + 12)) size) [
    | yes fits ↦
        let (new, w, e) = enqueue_data-Wrote q s source n tail_in v.small (omega arith) in
        rw (enqueue-ok fits, e, length-bytes source 0 n, lt→ltb _ _ fits)
          (refl, pushed-Holds fits w _, refl, w.behind)
    | no full ↦
        rw
          (
            enqueue-full h (omega arith),
            length-bytes source 0 n,
            le→ltb (length (wire ds) + (n + 12)) size (omega arith),
          )
          (refl, v, refl, λ a ha. refl)
  ]
