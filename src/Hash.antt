-- ===== src/Hash.antt =====
-- `qhashmurmur3_32` and `qhashmd5_bin_to_hex` of shmutil/qhash.c, on a machine that stores the lowest
-- byte first. A key is the list of its bytes, of which there are less than 2 ^ 33.
pub mod Bounds
pub mod Reference
mod Examples
use Prim.Native.Nat.{bit_and, bit_or, bit_xor}
use shmutil.Base.{
  ℕ, zero, suc, ◌+◌, ◌-◌, ◌*◌, ◌/◌, ◌%◌, ◌^◌, List, [], ◌∷◌, leb, ◌==◌, if◌then◌else◌, length,
  get_or,
}
use shmutil.Memory.{Memory, load32, store8}

-- `k *= c` of a uint32_t
abbrev pub mul32 : ℕ → ℕ → ℕ
mul32 k c = k * c % 2 ^ 32

-- `(k << left) | (k >> right)`
abbrev pub shifts : ℕ → ℕ → ℕ → ℕ
shifts left right k = bit_or (k * 2 ^ left % 2 ^ 32) (k / 2 ^ right)

abbrev pub c1 : ℕ
c1 = 0xcc9e2d51

abbrev pub c2 : ℕ
c2 = 0x1b873593

-- a byte of the data
abbrev pub byte_at : List ℕ → ℕ → ℕ
byte_at key i = get_or key i 0

-- the loop over the blocks, from block `i` on
unfoldable pub hash_blocks : ℕ → List ℕ → ℕ → ℕ → ℕ
hash_blocks zero key i h = h
hash_blocks (suc rounds) key i h =
    let k = mul32 (shifts 15 17 (mul32 (load32 (byte_at key) (4 * i)) c1)) c2 in
    hash_blocks rounds key (i + 1) ((shifts 13 19 (bit_xor h k) * 5 + 0xe6546b64) % 2 ^ 32)

-- the switch on `nbytes & 3`, each case of which falls through to the next
unfoldable pub hash_tail : List ℕ → ℕ → ℕ → ℕ
hash_tail key tail h =
    let left = bit_and (length key) 3 in
    let k₃ : ℕ = if left == 3 then bit_xor 0 (byte_at key (tail + 2) * 2 ^ 16) else 0 in
    let k₂ : ℕ = if leb 2 left then bit_xor k₃ (byte_at key (tail + 1) * 2 ^ 8) else k₃ in
    let k₁ = bit_xor k₂ (byte_at key tail) in
    if leb 1 left then bit_xor h (mul32 (shifts 13 17 (mul32 k₁ c1)) c2) else h

-- the shifts and products at the end
unfoldable pub hash_end : ℕ → ℕ
hash_end h =
    let h₁ = mul32 (bit_xor h (h / 2 ^ 16)) 0x85ebca6b in
    let h₂ = mul32 (bit_xor h₁ (h₁ / 2 ^ 13)) 0xc2b2ae35 in bit_xor h₂ (h₂ / 2 ^ 16)

unfoldable pub qhashmurmur3_32 : List ℕ → ℕ
qhashmurmur3_32 key =
    let nblocks = length key / 4 in
    let h = hash_tail key (nblocks * 4) (hash_blocks nblocks key 0 0) in
    if length key == 0 then 0 else hash_end (bit_xor h (length key) % 2 ^ 32)

-- the characters of "0123456789abcdef"
abbrev pub hexs : List ℕ
hexs = 48 ∷ 49 ∷ 50 ∷ 51 ∷ 52 ∷ 53 ∷ 54 ∷ 55 ∷ 56 ∷ 57 ∷ 97 ∷ 98 ∷ 99 ∷ 100 ∷ 101 ∷ 102 ∷ []

-- the loop of `qhashmd5_bin_to_hex` over the bytes from `i` on
unfoldable pub bin_to_hex_from : ℕ → ℕ → Memory → Memory → Memory
bin_to_hex_from zero i md5_str md5_int = md5_str
bin_to_hex_from (suc rounds) i md5_str md5_int =
    let high = get_or hexs (md5_int i / 2 ^ 4) 0 in
    let low = get_or hexs (bit_and (md5_int i) 0x0F) 0 in
    bin_to_hex_from rounds (i + 1) (store8 (store8 md5_str (i * 2) high) (i * 2 + 1) low) md5_int

unfoldable pub qhashmd5_bin_to_hex : Memory → Memory → ℕ → Memory
qhashmd5_bin_to_hex md5_str md5_int md5_int_len = bin_to_hex_from md5_int_len 0 md5_str md5_int
