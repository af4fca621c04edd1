-- ===== src/Hash/Examples.antt =====
-- Runs of the functions of shmutil/qhash.c.
use shmutil.Base.{ℕ, List, [], ◌∷◌, ◌+◌, ◌*◌, ◌≤◌, ◌<◌, ◌≡◌, refl}
use shmutil.Memory.{Memory, load32, store8, bytes}
use shmutil.Hash.{
  hash_blocks, hash_tail, hash_end, qhashmurmur3_32, bin_to_hex_from, qhashmd5_bin_to_hex,
}
use shmutil.Hash.Reference.{murmur3}
use shmutil.Hash.Bounds.{unhex, qhashmd5_bin_to_hex_lem}

program : Unit {0}
unfolding load32 store8 bytes hash_blocks hash_tail hash_end qhashmurmur3_32 bin_to_hex_from
    qhashmd5_bin_to_hex
program = tt

-- "test", which has the canonical hash 0xba6bd213
hash_four : qhashmurmur3_32 (116 ∷ 101 ∷ 115 ∷ 116 ∷ []) ≡ 0xba6bd213
unfolding program
hash_four = refl

abbrev hello : List ℕ
hello = 104 ∷ 101 ∷ 108 ∷ 108 ∷ 111 ∷ []

-- The published hashes of "test" and "hello".
murmur3_runs :
    (murmur3 15 (116 ∷ 101 ∷ 115 ∷ 116 ∷ []) ≡ 0xba6bd213) × (murmur3 15 hello ≡ 0x248bfa47)
murmur3_runs = (refl, refl)

-- every byte of the digest is 175
abbrev digest : Memory
digest i = 175

abbrev blank : Memory
blank i = 0

hex_two : bytes (qhashmd5_bin_to_hex blank digest 2) 0 5 ≡ 97 ∷ 102 ∷ 97 ∷ 102 ∷ 0 ∷ []
unfolding program
hex_two = refl

qhashmd5_bin_to_hex_example :
    ((i : ℕ)
      → i < 16
      → 175 < 256
      → unhex (qhashmd5_bin_to_hex blank digest 16 (i * 2)) * 16
          + unhex (qhashmd5_bin_to_hex blank digest 16 (i * 2 + 1))
        ≡ 175)
    × ((a : ℕ) → 32 ≤ a → qhashmd5_bin_to_hex blank digest 16 a ≡ 0)
qhashmd5_bin_to_hex_example = qhashmd5_bin_to_hex_lem blank digest 16
