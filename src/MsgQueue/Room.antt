-- ===== src/MsgQueue/Room.antt =====
-- What each of the three ways of `enqueue` to write a message does to the block.
use shmutil.Base.{
  ℕ, zero, suc, ◌+◌, ◌-◌, ◌^◌, ◌≤◌, ◌<◌, ◌≡◌, ltb, leb, ◌&&◌, if◌then◌else◌, arith, dec_lt,
}
use shmutil.Memory.{Memory, memcpy, le_byte, store32, store8}
use shmutil.MsgQueue.{Shm, ShmMq, msg_magic_num}
use shmutil.MsgQueue.Send.{
  enqueue_whole, enqueue_split_data, enqueue_split_head, s_head, put_magic_split, enqueue_data,
}
use shmutil.MsgQueue.Ring.{ring_pos, advance}

-- The byte `i` of the frame of the `n` bytes at `source`.
unfoldable pub frame_byte : Memory → ℕ → ℕ → ℕ
frame_byte source n i =
    if ltb i 4
    then le_byte msg_magic_num i
    else if ltb i 8
    then le_byte (n + 12) (i - 4)
    else if ltb i (8 + n)
    then source (i - 8)
    else le_byte msg_magic_num (i - 8 - n)

-- The `n + 12` bytes from `tail` on are the frame, round the end of the block, and every other byte
-- is as before, in the block and behind it.
pub record Wrote (size tail : ℕ) (source : Memory) (n : ℕ) (old new : Memory) : Type 0 where
  pub inside : (i : ℕ) → i < n + 12 → new (ring_pos size tail i) ≡ frame_byte source n i
  pub kept :
      (i : ℕ) → n + 12 ≤ i → i < size → new (ring_pos size tail i) ≡ old (ring_pos size tail i)
  pub behind : (a : ℕ) → size ≤ a → new a ≡ old a

-- the 8 bytes of the head
s_head-frame_byte : (source : Memory) (n i : ℕ) → i < 8 → s_head (n + 12) i ≡ frame_byte source n i
unfolding s_head frame_byte memcpy store32
s_head-frame_byte source n i h = ground arith

-- The four characters are the bytes of the magic number, wherever it is cut.
put_magic_split_lem :
    (b : Memory) (size sec a : ℕ)
    → 8 < size
    → 0 < sec
    → sec < 4
    → put_magic_split b size sec a ≡ (
        if leb (size + sec - 4) a && ltb a size
        then le_byte msg_magic_num (a + 4 - size - sec)
        else if ltb a sec
        then le_byte msg_magic_num (a + 4 - sec)
        else b a)
unfolding put_magic_split le_byte store8
put_magic_split_lem b size zero a h p l = absurd (omega arith)
put_magic_split_lem b size (suc zero) a h p l = ground arith
put_magic_split_lem b size (suc (suc zero)) a h p l = ground arith
put_magic_split_lem b size (suc (suc (suc zero))) a h p l = ground arith
put_magic_split_lem b size (suc (suc (suc (suc k)))) a h p l = absurd (omega arith)

-- The block as each way leaves it: the message before the end of the block, ...
abbrev whole : Memory → Memory → ℕ → ℕ → Memory
whole b source n tail =
    let b₁ = memcpy b tail (s_head (n + 12)) 0 8 in
    let b₂ = memcpy b₁ (tail + 8) source 0 n in store32 b₂ (tail + 8 + n) msg_magic_num

-- ... the head itself cut by the end of the block, `sec` of its bytes going to the front, ...
abbrev split_head : Memory → Memory → ℕ → ℕ → ℕ → ℕ → Memory
split_head b source n tail tl sec =
    let b₁ = memcpy b tail (s_head (n + 12)) 0 tl in
    let b₂ = memcpy b₁ 0 (s_head (n + 12)) tl sec in
    let b₃ = memcpy b₂ sec source 0 n in store32 b₃ (sec + n) msg_magic_num

-- ... the data cut after `first` bytes, or the cut just before the magic number behind it, ...
abbrev split_data : Memory → Memory → ℕ → ℕ → ℕ → ℕ → Memory
split_data b source n tail first sec =
    let b₁ = memcpy b tail (s_head (n + 12)) 0 8 in
    let b₂ = memcpy b₁ (tail + 8) source 0 first in
    let b₃ = memcpy b₂ 0 source first (sec - 4) in store32 b₃ (sec - 4) msg_magic_num

-- ... and that magic number cut, `sec` of its bytes going to the front.
abbrev split_magic : Memory → Memory → ℕ → ℕ → ℕ → ℕ → Memory
split_magic b source n tail size sec =
    let b₁ = memcpy b tail (s_head (n + 12)) 0 8 in
    let b₂ = memcpy b₁ (tail + 8) source 0 n in put_magic_split b₂ size sec

module _ (b source : Memory) (n tail size : ℕ) (fits : n + 12 < size) where
  whole-Wrote : tail + (n + 12) ≤ size → Wrote size tail source n b (whole b source n tail)
  unfolding ring_pos frame_byte memcpy store32
  whole-Wrote h = record {
    inside = λ i hi. ground (arith, s_head-frame_byte source n i);
    kept = λ i lo hi. ground arith;
    behind = λ a ha. ground arith;
  }

  module _ (sec tl : ℕ) (e : tail + tl ≡ size) (e' : tl + sec ≡ 8) (pos : 0 < sec) where
    split_head_inside :
        (i : ℕ)
        → i < n + 12
        → split_head b source n tail tl sec (ring_pos size tail i) ≡ frame_byte source n i
    unfolding ring_pos frame_byte memcpy store32
    split_head_inside i h = ground (arith, s_head-frame_byte source n i)

    split_head-Wrote : Wrote size tail source n b (split_head b source n tail tl sec)
    unfolding ring_pos memcpy store32
    split_head-Wrote = record {
      inside = split_head_inside;
      kept = λ i lo hi. ground arith;
      behind = λ a ha. ground arith;
    }

  module _ (sec first : ℕ) (e : tail + 8 + first ≡ size) (e' : first + sec ≡ n + 4) where
    split_data_inside :
        4 ≤ sec
        → (i : ℕ) → i < n + 12
        → split_data b source n tail first sec (ring_pos size tail i) ≡ frame_byte source n i
    unfolding ring_pos frame_byte memcpy store32
    split_data_inside long i h = ground (arith, s_head-frame_byte source n i)

    split_data-Wrote : 4 ≤ sec → Wrote size tail source n b (split_data b source n tail first sec)
    unfolding ring_pos memcpy store32
    split_data-Wrote long = record {
      inside = split_data_inside long;
      kept = λ i lo hi. ground arith;
      behind = λ a ha. ground arith;
    }

    module _ (short : sec < 4) (pos : 0 < sec) where
      split_magic_inside :
          (i : ℕ)
          → i < n + 12
          → split_magic b source n tail size sec (ring_pos size tail i) ≡ frame_byte source n i
      unfolding ring_pos frame_byte memcpy
      split_magic_inside i h =
          let b₂ = memcpy (memcpy b tail (s_head (n + 12)) 0 8) (tail + 8) source 0 n in
          ground (
            arith,
            s_head-frame_byte source n i,
            put_magic_split_lem b₂ size sec (ring_pos size tail i),
          )

      split_magic-Wrote : Wrote size tail source n b (split_magic b source n tail size sec)
      unfolding ring_pos memcpy put_magic_split store8
      split_magic-Wrote = record {
        inside = split_magic_inside;
        kept = λ i lo hi. ground arith;
        behind = λ a ha. ground arith;
      }

-- The code takes the right way, and its wrapping arithmetic comes to these numbers.
module _ (q : ShmMq) (s : Shm) (source : Memory) (n : ℕ) where
  open q use {block_size as size}
  open s use {block as b, tail}

  module _ (tail_in : tail ≤ size) (small : size < 2 ^ 31) (fits : n + 12 < size) where
    data_whole :
        tail + (n + 12) ≤ size
        → enqueue_data q s source n (n + 12)
          ≡ record s { block = whole b source n tail; tail = advance size tail (n + 12) }
    unfolding enqueue_data enqueue_whole advance
    data_whole h = ground arith

    data_split_data :
        tail + 8 ≤ size
        → size + 4 ≤ tail + (n + 12)
        → enqueue_data q s source n (n + 12) ≡ record s {
          block = split_data b source n tail (size - tail - 8) (tail + (n + 12) - size);
          tail = advance size tail (n + 12);
        }
    unfolding enqueue_data enqueue_split_data advance
    data_split_data k l = ground arith

    data_split_magic :
        size < tail + (n + 12)
        → tail + (n + 12) < size + 4
        → enqueue_data q s source n (n + 12) ≡ record s {
          block = split_magic b source n tail size (tail + (n + 12) - size);
          tail = advance size tail (n + 12);
        }
    unfolding enqueue_data enqueue_split_data advance
    data_split_magic k l = ground arith

    data_split_head :
        size < tail + 8
        → enqueue_data q s source n (n + 12) ≡ record s {
          block = split_head b source n tail (size - tail) (8 - (size - tail));
          tail = advance size tail (n + 12);
        }
    unfolding enqueue_data enqueue_split_head advance
    data_split_head k = ground arith

    -- Whichever way it takes, `enqueue` writes the frame of the message and moves the tail on.
    pub enqueue_data-Wrote :
        (new : Memory) × Wrote size tail source n b new
        × (enqueue_data q s source n (n + 12)
            ≡ record s { block = new; tail = advance size tail (n + 12) })
    enqueue_data-Wrote = elim (dec_lt size (tail + (n + 12))) [
      | no h ↦ (_, whole-Wrote b source n tail size fits (omega arith), data_whole (omega arith))
      | yes h ↦ elim (dec_lt size (tail + 8)) [
        | yes k ↦ (
          _,
          split_head-Wrote b source n tail size fits _ _ (omega arith) (omega arith) (omega arith),
          data_split_head k,
        )
        | no k ↦ elim (dec_lt (tail + (n + 12)) (size + 4)) [
          | yes l ↦ (
            _,
            split_magic-Wrote b source n tail size fits (tail + (n + 12) - size) (size - tail - 8)
                (omega arith) (omega arith) (omega arith) (omega arith),
            data_split_magic h l,
          )
          | no l ↦ (
            _,
            split_data-Wrote b source n tail size fits _ _ (omega arith) (omega arith)
                (omega arith),
            data_split_data (omega arith) (omega arith),
          )
        ]
      ]
    ]
