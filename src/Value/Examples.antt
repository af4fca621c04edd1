-- ===== src/Value/Examples.antt =====
-- Two bytes in their stored form, and the theorems on it there (shmutil/common.h,
-- shmutil/shm_mrsw_hashtable.cc).
use shmutil.Base.{ℕ, ◌<◌, ◌^◌, List, [], ◌∷◌, ◌++◌, ◌≡◌, refl, true, false, length, arith}
use shmutil.ErrorCode.{k_ok}
use shmutil.Memory.{le_byte}
use shmutil.Value.{
  encode_value_len, decode_value_len, same_bytes, encode_value_str, verify_shm_value,
}
use shmutil.Value.RoundTrip.{value_len_order, verify-encode, encode-verify}

-- a digest of 16 bytes
abbrev md5 : List ℕ → List ℕ
md5 l = 1 ∷ 2 ∷ 3 ∷ 4 ∷ 5 ∷ 6 ∷ 7 ∷ 8 ∷ 9 ∷ 10 ∷ 11 ∷ 12 ∷ 13 ∷ 14 ∷ 15 ∷ 16 ∷ []

abbrev two : List ℕ
two = 8 ∷ 9 ∷ []

abbrev stored : List ℕ
stored = 2 ∷ 0 ∷ 0 ∷ 0 ∷ 8 ∷ 9 ∷ 8 ∷ 9 ∷ 255 ∷ []

program : Unit {0}
unfolding encode_value_len decode_value_len same_bytes encode_value_str verify_shm_value le_byte
program = tt

accepted : verify_shm_value true md5 stored ≡ (k_ok, two)
unfolding program
accepted = refl

verify_example : verify_shm_value true md5 (encode_value_str true md5 two) ≡ (k_ok, two)
verify_example = verify-encode true md5 (λ xs. refl) two (omega arith)

encode_example :
    (rest : List ℕ) × (encode_value_str true md5 two ++ rest ≡ stored) × (length two < 2 ^ 32)
encode_example =
    encode-verify true md5 (λ xs. refl) stored two (ground arith) (omega arith) accepted

value_len_order_example :
    (encode_value_len true 513 ≡ encode_value_len false 513)
    × (decode_value_len true stored ≡ decode_value_len false stored)
value_len_order_example = value_len_order 513 stored (unfold program in omega arith)
