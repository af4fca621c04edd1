-- ===== src/MsgQueue/Wire.antt =====
-- The queue's contents as a list of bytes: what `enqueue` is to write, and `dequeue` to read.
use shmutil.Base.{
  ℕ, zero, suc, ◌+◌, ◌-◌, ◌<◌, ◌≡◌, refl, List, [], ◌∷◌, ◌++◌, ltb, if◌then◌else◌, length,
  length-append, get_or, arith, ap, sym, ◌∙◌,
}
use mathlib.Core.List.{append-nil, append_assoc}
use shmutil.Memory.{le_byte}
use shmutil.MsgQueue.{msg_magic_num}

-- A message is the list of its bytes.
abbrev pub Message : Type 0
Message = List ℕ

abbrev pub u32_bytes : ℕ → List ℕ
u32_bytes v = le_byte v 0 ∷ le_byte v 1 ∷ le_byte v 2 ∷ le_byte v 3 ∷ []

-- | magic number | length of the frame | data | magic number |
unfoldable pub frame : Message → List ℕ
frame d = u32_bytes msg_magic_num ++ (u32_bytes (length d + 12) ++ (d ++ u32_bytes msg_magic_num))

-- the frames of the messages, oldest first
unfoldable pub wire : List Message → List ℕ
wire [] = []
wire (d ∷ ds) = frame d ++ wire ds

pub length-frame : (d : Message) → length (frame d) ≡ length d + 12
unfolding frame
length-frame d = omega (arith, length-append d (u32_bytes msg_magic_num))

pub get_or-append :
    (xs ys : List ℕ) (i : ℕ)
    → get_or (xs ++ ys) i 0
      ≡ (if ltb i (length xs) then get_or xs i 0 else get_or ys (i - length xs) 0)
get_or-append [] ys i = ground arith
get_or-append (x ∷ xs) ys zero = ground arith
get_or-append (x ∷ xs) ys (suc i) = ground (arith, get_or-append xs ys i)

get_or-u32_bytes : (v i : ℕ) → i < 4 → get_or (u32_bytes v) i 0 ≡ le_byte v i
get_or-u32_bytes v zero h = refl
get_or-u32_bytes v (suc zero) h = refl
get_or-u32_bytes v (suc (suc zero)) h = refl
get_or-u32_bytes v (suc (suc (suc zero))) h = refl
get_or-u32_bytes v (suc (suc (suc (suc i)))) h = absurd (omega arith)

-- the byte `i` of a frame
pub get_or-frame :
    (d : Message) (i : ℕ)
    → i < length d + 12
    → get_or (frame d) i 0 ≡ (
        if ltb i 4
        then le_byte msg_magic_num i
        else if ltb i 8
        then le_byte (length d + 12) (i - 4)
        else if ltb i (8 + length d)
        then get_or d (i - 8) 0
        else le_byte msg_magic_num (i - 8 - length d))
unfolding frame
get_or-frame d i h =
    let m = u32_bytes msg_magic_num in
    let n = u32_bytes (length d + 12) in
    ground (
      arith,
      get_or-append m (n ++ (d ++ m)) i,
      get_or-append n (d ++ m) (i - 4),
      get_or-append d m (i - 4 - 4),
      get_or-u32_bytes msg_magic_num i,
      get_or-u32_bytes (length d + 12) (i - 4),
      get_or-u32_bytes msg_magic_num (i - 8 - length d),
    )

pub wire-append : (ds : List Message) (d : Message) → wire (ds ++ (d ∷ [])) ≡ wire ds ++ frame d
unfolding wire
wire-append [] d = append-nil (frame d)
wire-append (x ∷ ds) d =
    ap (λ l. frame x ++ l) (wire-append ds d) ∙ sym (append_assoc (frame x) (wire ds) (frame d))

pub length-wire-append :
    (ds : List Message) (d : Message)
    → length (wire (ds ++ (d ∷ []))) ≡ length (wire ds) + (length d + 12)
length-wire-append ds d =
    ap length (wire-append ds d) ∙ omega (arith, length-append (wire ds) (frame d), length-frame d)
