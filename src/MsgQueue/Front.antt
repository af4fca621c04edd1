-- ===== src/MsgQueue/Front.antt =====
-- What `ShmMQ::dequeue` of shmutil/shm_msg_queue.cc reads at the head of a queue that holds a message.
use shmutil.Base.{
  ℕ, ◌+◌, ◌^◌, ◌≤◌, ◌<◌, ◌≡◌, List, ◌∷◌, ltb, if◌then◌else◌, length, get_or, arith, ap, sym, ◌∙◌,
  length-append,
}
use shmutil.Memory.{Memory, memcpy, bytes, bytes_ext, load32, le_byte, le_byte_join}
use shmutil.MsgQueue.{Shm, ShmMq, msg_magic_num}
use shmutil.MsgQueue.Ring.{ring_pos, advance, ring_pos-advance, advance-advance, advance-le}
use shmutil.MsgQueue.Wire.{Message, wire, frame, get_or-frame, get_or-append, length-frame}
use shmutil.MsgQueue.Receive.{read_head, read_data}
use shmutil.MsgQueue.Spec.{Holds}

module _ (q : ShmMq) (s : Shm) (h : ℕ) (h_in : h ≤ q.block_size)
    (small : q.block_size < 2 ^ 31) where
  open q use {block_size as size}

  pub read_head-byte :
      (i : ℕ) → 8 < size → i < 8 → (read_head q s h).0 i ≡ s.block (ring_pos size h i)
  unfolding read_head ring_pos memcpy
  read_head-byte i big l = ground arith

  pub read_head-pos : 8 < size → (read_head q s h).1 ≡ advance size h 8
  unfolding read_head advance
  read_head-pos big = ground arith

  pub read_data-byte :
      (buf : Memory) (n i : ℕ)
      → n < size
      → (read_data q s h buf n).0 i ≡ (if ltb i n then s.block (ring_pos size h i) else buf i)
  unfolding read_data ring_pos memcpy
  read_data-byte buf n i fits = ground arith

  pub read_data-pos :
      (buf : Memory) (n : ℕ) → n < size → (read_data q s h buf n).1 ≡ advance size h n
  unfolding read_data advance
  read_data-pos buf n fits = ground arith

-- A uint32_t in memory, from its four bytes.
pub load32_of_bytes :
    (m : Memory) (at v : ℕ)
    → v < 2 ^ 32
    → ((i : ℕ) → i < 4 → m (at + i) ≡ le_byte v i)
    → load32 m at ≡ v
unfolding load32
load32_of_bytes m at v h e =
    let e₀ : m at ≡ le_byte v 0 = ap m (omega arith) ∙ e 0 (omega arith) in
    omega (arith, le_byte_join v h, e₀, e 1 (omega arith), e 2 (omega arith), e 3 (omega arith))

-- The counters are no part of the contents.
pub counted-Holds :
    (q : ShmMq) (s : Shm) {ds : List Message}
    → Holds q s ds
    → (count : ℕ) → Holds q (record s { msg_count = count }) ds
counted-Holds q s v count = record {
  ready = v.ready;
  small = v.small;
  head_in = v.head_in;
  room = v.room;
  tail_at = v.tail_at;
  data_at = v.data_at;
}

-- The queue with a message in it, its counter moved by `dequeue` already.
module _ (q : ShmMq) (s : Shm) (d : Message) (ds : List Message) (v : Holds q s (d ∷ ds)) where
  open q use {block_size as size}
  open s use {head}

  abbrev pub n : ℕ
  n = length d

  pub wire_len : length (wire (d ∷ ds)) ≡ n + 12 + length (wire ds)
  unfolding wire
  wire_len = omega (arith, length-append (frame d) (wire ds), length-frame d)

  -- what stands at the head
  pub front : (i : ℕ) → i < n + 12 → s.block (ring_pos size head i) ≡ get_or (frame d) i 0
  unfolding wire
  front i h =
      ground (arith, v.data_at i, wire_len, get_or-append (frame d) (wire ds) i, length-frame d)

  pub rest :
      (i : ℕ)
      → i < length (wire ds)
      → s.block (ring_pos size head (n + 12 + i)) ≡ get_or (wire ds) i 0
  unfolding wire
  rest i h = ground (
    arith,
    v.data_at (n + 12 + i),
    wire_len,
    get_or-append (frame d) (wire ds) (n + 12 + i),
    length-frame d,
  )

  pub big : n + 12 + length (wire ds) < size
  big = omega (arith, v.room, wire_len)

  module _ (count : ℕ) where
    abbrev pub counted : Shm
    counted = record s { msg_count = count }

    abbrev pub head_bytes : Memory
    head_bytes = (read_head q counted head).0

    pub head_magic : load32 head_bytes 0 ≡ msg_magic_num
    head_magic = load32_of_bytes head_bytes 0 msg_magic_num (omega arith) λ i h.
        ap head_bytes (omega arith)
        ∙ read_head-byte q counted head v.head_in v.small i (omega (arith, big)) (omega arith)
        ∙ front i (omega arith)
        ∙ ground (arith, get_or-frame d i)

    pub head_len : load32 head_bytes 4 ≡ n + 12
    head_len = load32_of_bytes head_bytes 4 (n + 12) (omega (arith, big, v.small)) λ i h.
        read_head-byte q counted head v.head_in v.small (4 + i) (omega (arith, big)) (omega arith)
        ∙ front (4 + i) (omega arith)
        ∙ ground (arith, get_or-frame d (4 + i))

    module _ (buf : Memory) where
      abbrev pub data_bytes : Memory
      data_bytes = (read_data q counted (advance size head 8) buf (n + 4)).0

      pub data_byte : (i : ℕ) → i < n + 4 → data_bytes i ≡ get_or (frame d) (8 + i) 0
      data_byte i h = ground (
        arith,
        read_data-byte q counted (advance size head 8)
            (advance-le size head 8 v.head_in (omega (arith, big))) v.small buf (n + 4) i,
        ring_pos-advance size head 8 i,
        front (8 + i),
        big,
        v.head_in,
      )

      pub data_magic : load32 data_bytes n ≡ msg_magic_num
      data_magic =
          load32_of_bytes data_bytes n msg_magic_num (omega arith)
            λ i h. data_byte (n + i) (omega arith) ∙ ground (arith, get_or-frame d (8 + (n + i)))

      pub data_message : bytes data_bytes 0 n ≡ d
      data_message = bytes_ext data_bytes 0 d λ i h.
          ap data_bytes (omega arith)
          ∙ data_byte i (omega arith)
          ∙ ground (arith, get_or-frame d (8 + i))

  -- the queue behind the message
  pub popped-Holds :
      (count done : ℕ)
      → Holds q
          (record s {
            msg_count = count;
            process_count = done;
            head = advance size (advance size head 8) (n + 4);
          })
          ds
  popped-Holds count done =
      let e : advance size (advance size head 8) (n + 4) ≡ advance size head (n + 12) =
        advance-advance size head 8 (n + 4) v.head_in (omega (arith, big))
        ∙ ap (advance size head) (omega arith) in
      rw e (record {
        ready = v.ready;
        small = v.small;
        head_in = advance-le size head (n + 12) v.head_in (omega (arith, big));
        room = omega (arith, big);
        tail_at =
            v.tail_at
            ∙ ap (advance size head) wire_len
            ∙ sym (advance-advance size head (n + 12) (length (wire ds)) v.head_in big);
        data_at = λ i h.
            ap s.block (ring_pos-advance size head (n + 12) i v.head_in (omega (arith, big)))
            ∙ rest i h;
      })
