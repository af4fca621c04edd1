-- ===== src/Memory.antt =====
-- Byte memory as the C code sees it through a pointer: `char *`, `memcpy` and the 4-byte accesses
-- `*(uint32_t *)p` of shmutil/shm_msg_queue.cc, on a little-endian machine.
use shmutil.Base.{
  ℕ, zero, suc, ◌+◌, ◌-◌, ◌*◌, ◌/◌, ◌%◌, ◌^◌, ◌<◌, ◌≡◌, List, [], ◌∷◌, ltb, leb, ◌==◌, ◌&&◌,
  if◌then◌else◌, arith, refl, get_or, ap, ap₂, ◌∙◌, length,
}

-- What a pointer reaches: the byte at each offset from it. There is no end, so that a write out of
-- bounds shows as a change of the memory behind the block.
abbrev pub Memory : Type 0
Memory = ℕ → ℕ

-- memcpy(to + at, from + start, n)
unfoldable pub memcpy : Memory → ℕ → Memory → ℕ → ℕ → Memory
memcpy to at from start n a = if leb at a && ltb a (at + n) then from (start + (a - at)) else to a

-- byte `i` of a uint32_t
unfoldable pub le_byte : ℕ → ℕ → ℕ
le_byte v zero = v % 256
le_byte v (suc zero) = v / 256 % 256
le_byte v (suc (suc zero)) = v / 65536 % 256
le_byte v (suc (suc (suc i))) = v / 16777216 % 256

-- *(uint32_t *)(to + at) = v
unfoldable pub store32 : Memory → ℕ → ℕ → Memory
store32 to at v = memcpy to at (le_byte v) 0 4

-- *(char *)(to + at) = v
unfoldable pub store8 : Memory → ℕ → ℕ → Memory
store8 to at v a = if a == at then v else to a

-- *(uint32_t *)(from + at)
unfoldable pub load32 : Memory → ℕ → ℕ
load32 from at = from at + from (at + 1) * 256 + from (at + 2) * 65536 + from (at + 3) * 16777216

-- the `n` bytes from offset `at` on
unfoldable pub bytes : Memory → ℕ → ℕ → List ℕ
bytes m at zero = []
bytes m at (suc n) = m at ∷ bytes m (at + 1) n

pub length-bytes : (m : Memory) (at n : ℕ) → length (bytes m at n) ≡ n
unfolding bytes
length-bytes m at zero = refl
length-bytes m at (suc n) = ap suc (length-bytes m (at + 1) n)

pub get_or-bytes : (m : Memory) (at n i : ℕ) → i < n → get_or (bytes m at n) i 0 ≡ m (at + i)
unfolding bytes
get_or-bytes m at zero i h = elim h [ ]
get_or-bytes m at (suc n) zero h = ap m (omega arith)
get_or-bytes m at (suc n) (suc i) h = get_or-bytes m (at + 1) n i (omega arith) ∙ ap m (omega arith)

-- Equal bytes make equal lists.
pub bytes_ext :
    (m : Memory) (at : ℕ) (l : List ℕ)
    → ((i : ℕ) → i < length l → m (at + i) ≡ get_or l i 0)
    → bytes m at (length l) ≡ l
unfolding bytes
bytes_ext m at [] h = refl
bytes_ext m at (x ∷ l) h =
    ap₂ ◌∷◌ (ap m (omega arith) ∙ h 0 (omega arith))
      (bytes_ext m (at + 1) l (λ i hi. ap m (omega arith) ∙ h (suc i) (omega arith)))

-- A uint32_t is read back from its four bytes.
pub le_byte_join :
    (v : ℕ)
    → v < 2 ^ 32
    → le_byte v 0 + le_byte v 1 * 256 + le_byte v 2 * 65536 + le_byte v 3 * 16777216 ≡ v
unfolding le_byte
le_byte_join v h = omega arith
