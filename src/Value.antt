-- ===== src/Value.antt =====
-- How a value is stored in the hash table: `encodeValueLen` and `decodeValueLen` of shmutil/common.h,
-- `encodeValueStr` and `verifyShmValue` of shmutil/shm_mrsw_hashtable.cc. A std::string is the list of
-- its bytes.
pub mod RoundTrip
mod Examples
use shmutil.Base.{
  ℕ, ◌+◌, ◌*◌, ◌/◌, ◌%◌, ◌^◌, Bool, true, false, ◌&&◌, List, [], ◌∷◌, ◌++◌, ltb, ◌==◌,
  if◌then◌else◌, length, get_or, take, drop,
}
use shmutil.ErrorCode.{ErrorCode, k_ok, k_err_data_mess}
use shmutil.Memory.{le_byte}

abbrev pub need_md5_value_len : ℕ
need_md5_value_len = 1024

abbrev pub md5_str_len : ℕ
md5_str_len = 16

-- The 4 bytes of a length. `memcpy` copies the machine's own bytes on a little-endian machine; the
-- loop of the other branch writes `(len >> i * 8) & 0xff`.
unfoldable pub encode_value_len : Bool → ℕ → List ℕ
encode_value_len is_little_endian len =
    if is_little_endian
    then le_byte len 0 ∷ le_byte len 1 ∷ le_byte len 2 ∷ le_byte len 3 ∷ []
    else (len / 2 ^ 0 % 256)
      ∷ (len / 2 ^ 8 % 256)
      ∷ (len / 2 ^ 16 % 256)
      ∷ (len / 2 ^ 24 % 256)
      ∷ []

-- The first 4 bytes as a length. In the other branch `len` wraps as a uint32_t.
unfoldable pub decode_value_len : Bool → List ℕ → ℕ
decode_value_len is_little_endian buf =
    if is_little_endian
    then get_or buf 0 0 + get_or buf 1 0 * 256 + get_or buf 2 0 * 65536 + get_or buf 3 0 * 16777216
    else (((get_or buf 0 0 * 2 ^ 0 % 2 ^ 32 + get_or buf 1 0 * 2 ^ 8) % 2 ^ 32
            + get_or buf 2 0 * 2 ^ 16)
          % 2 ^ 32
        + get_or buf 3 0 * 2 ^ 24)
      % 2 ^ 32

-- `memcmp(a, b, n) == 0` for two lists of `n` bytes
unfoldable pub same_bytes : List ℕ → List ℕ → Bool
same_bytes [] [] = true
same_bytes [] (y ∷ ys) = false
same_bytes (x ∷ xs) [] = false
same_bytes (x ∷ xs) (y ∷ ys) = x == y && same_bytes xs ys

-- `md5` is the digest of `qhashmd5`.
module _ (is_little_endian : Bool) (md5 : List ℕ → List ℕ) where
  -- | value len | value | verification code |, with the value itself as the code where it is short
  unfoldable pub encode_value_str : List ℕ → List ℕ
  encode_value_str val =
      let val_size = length val % 2 ^ 32 in
      encode_value_len is_little_endian val_size
      ++ (val ++ (if ltb need_md5_value_len val_size then md5 (take val_size val) else val))

  -- The result, and `tblval` as it is left: the value without its code, or as before.
  unfoldable pub verify_shm_value : List ℕ → ErrorCode × List ℕ
  verify_shm_value tblval =
      let original_val_size = length tblval in
      let val_len = decode_value_len is_little_endian tblval in
      let val_str = take val_len (drop 4 tblval) in
      let verify_str = drop (4 + val_len) tblval in
      if ltb need_md5_value_len val_len
      then if ltb original_val_size (4 + val_len + md5_str_len)
        then (k_err_data_mess, tblval)
        else if same_bytes (md5 val_str) (take md5_str_len verify_str)
        then (k_ok, val_str)
        else (k_err_data_mess, tblval)
      else if ltb original_val_size (4 + val_len * 2)
      then (k_err_data_mess, tblval)
      else if same_bytes val_str (take val_len verify_str)
      then (k_ok, val_str)
      else (k_err_data_mess, tblval)
