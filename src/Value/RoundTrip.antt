-- ===== src/Value/RoundTrip.antt =====
-- What `encodeValueStr` writes `verifyShmValue` accepts, and of what it accepts that is the beginning.
use shmutil.Base.{
  ℕ, zero, suc, ◌+◌, ◌^◌, ◌≤◌, ◌<◌, ◌≡◌, refl, ap, sym, ◌∙◌, Bool, true, false, List, [], ◌∷◌, ◌++◌,
  ltb, if◌then◌else◌, length, length-append, length-take, length-drop, take-append-drop, take, drop,
  arith, Bool-cases, inl, inr,
}
use mathlib.Core.List.{append_assoc, append-nil}
use shmutil.ErrorCode.{k_ok}
use shmutil.Memory.{le_byte}
use shmutil.Value.{
  encode_value_len, decode_value_len, same_bytes, encode_value_str, verify_shm_value,
}

pub same_bytes_refl : (xs : List ℕ) → same_bytes xs xs ≡ true
unfolding same_bytes
same_bytes_refl [] = refl
same_bytes_refl (x ∷ xs) = ground (arith, same_bytes_refl xs)

pub same_bytes-eq : (xs ys : List ℕ) → same_bytes xs ys ≡ true → xs ≡ ys
unfolding same_bytes
same_bytes-eq [] [] h = refl
same_bytes-eq [] (y ∷ ys) h = cc
same_bytes-eq (x ∷ xs) [] h = cc
same_bytes-eq (x ∷ xs) (y ∷ ys) h = ground (arith, same_bytes-eq xs ys)

take_all : (xs ys : List ℕ) → take (length xs) (xs ++ ys) ≡ xs
take_all [] ys = refl
take_all (x ∷ xs) ys = ap (λ l. x ∷ l) (take_all xs ys)

take_self : (n : ℕ) (xs : List ℕ) → length xs ≡ n → take n xs ≡ xs
take_self zero [] h = refl
take_self zero (x ∷ xs) h = absurd (omega arith)
take_self (suc n) [] h = absurd (omega arith)
take_self (suc n) (x ∷ xs) h = ap (λ l. x ∷ l) (take_self n xs (omega arith))

drop_all : (xs ys : List ℕ) → drop (length xs) (xs ++ ys) ≡ ys
drop_all [] ys = refl
drop_all (x ∷ xs) ys = drop_all xs ys

drop_nil : (n : ℕ) → drop {A = ℕ} n [] ≡ []
drop_nil zero = refl
drop_nil (suc n) = refl

drop-drop : (n m : ℕ) (xs : List ℕ) → drop (n + m) xs ≡ drop m (drop n xs)
drop-drop zero m xs = ap (λ k. drop k xs) (omega arith)
drop-drop (suc n) m [] = drop_nil (suc n + m) ∙ sym (drop_nil m)
drop-drop (suc n) m (x ∷ xs) =
    let e : suc n + m ≡ suc (n + m) = omega arith in rw e (drop-drop n m xs)

-- The little-endian branch of `encodeValueLen` writes the same bytes as the other branch, and the
-- branches of `decodeValueLen` read the same length where it is below 2 ^ 32.
pub value_len_order :
    (len : ℕ) (buf : List ℕ)
    → decode_value_len true buf < 2 ^ 32
    → (encode_value_len true len ≡ encode_value_len false len)
      × (decode_value_len true buf ≡ decode_value_len false buf)
unfolding encode_value_len decode_value_len le_byte
value_len_order len buf h = ground arith

length-encode_len : (little : Bool) (len : ℕ) → length (encode_value_len little len) ≡ 4
unfolding encode_value_len
length-encode_len true len = refl
length-encode_len false len = refl

decode-encode_len :
    (little : Bool) (len : ℕ) (rest : List ℕ)
    → len < 2 ^ 32
    → decode_value_len little (encode_value_len little len ++ rest) ≡ len
unfolding encode_value_len decode_value_len le_byte
decode-encode_len true len rest h = omega arith
decode-encode_len false len rest h = omega arith

abbrev pub AreBytes : List ℕ → Type 0
AreBytes [] = Unit
AreBytes (x ∷ xs) = (x < 256) × AreBytes xs

encode-decode_len :
    (little : Bool) (buf : List ℕ)
    → 4 ≤ length buf
    → AreBytes buf
    → (encode_value_len little (decode_value_len little buf) ≡ take 4 buf)
      × (decode_value_len little buf < 2 ^ 32)
unfolding encode_value_len decode_value_len le_byte
encode-decode_len true (a ∷ b ∷ c ∷ d ∷ r) h k = ground arith
encode-decode_len false (a ∷ b ∷ c ∷ d ∷ r) h k = ground arith
encode-decode_len little [] h k = absurd (omega arith)
encode-decode_len little (a ∷ []) h k = absurd (omega arith)
encode-decode_len little (a ∷ b ∷ []) h k = absurd (omega arith)
encode-decode_len little (a ∷ b ∷ c ∷ []) h k = absurd (omega arith)

module _ (little : Bool) (md5 : List ℕ → List ℕ)
    (md5_len : (xs : List ℕ) → length (md5 xs) ≡ 16) where
  abbrev code : List ℕ → List ℕ
  code val = if ltb 1024 (length val) then md5 val else val

  encode_value_str_eq :
      (val : List ℕ)
      → length val < 2 ^ 32
      → encode_value_str little md5 val ≡ encode_value_len little (length val) ++ (val ++ code val)
  unfolding encode_value_str
  encode_value_str_eq val h = ground (arith, take_self (length val) val)

  -- The test of `verifyShmValue` on a string that is long enough.
  verify_parts :
      (s val : List ℕ)
      → decode_value_len little s ≡ length val
      → take (length val) (drop 4 s) ≡ val
      → 4 + (length val + (if ltb 1024 (length val) then 16 else length val)) ≤ length s
      → same_bytes
          (code val)
          (take (if ltb 1024 (length val) then 16 else length val) (drop (4 + length val) s))
        ≡ true
      → verify_shm_value little md5 s ≡ (k_ok, val)
  unfolding verify_shm_value
  verify_parts s val d v l c = ground arith

  parts_verify :
      (s val : List ℕ) (n : ℕ)
      → decode_value_len little s ≡ n
      → verify_shm_value little md5 s ≡ (k_ok, val)
      → (take n (drop 4 s) ≡ val)
        × (4 + (n + (if ltb 1024 n then 16 else n)) ≤ length s)
        × (same_bytes
              (if ltb 1024 n then md5 val else val)
              (take (if ltb 1024 n then 16 else n) (drop (4 + n) s))
            ≡ true)
  unfolding verify_shm_value
  parts_verify s val n d e = ground arith

  -- A string of the stored form, in its parts, with anything behind it.
  module _ (val rest : List ℕ) (h : length val < 2 ^ 32) where
    abbrev stored : List ℕ
    stored = encode_value_len little (length val) ++ (val ++ (code val ++ rest))

    stored-drop : drop 4 stored ≡ val ++ (code val ++ rest)
    stored-drop =
        let e : 4 ≡ length (encode_value_len little (length val)) =
          sym (length-encode_len little (length val)) in
        rw e (drop_all (encode_value_len little (length val)) (val ++ (code val ++ rest)))

    stored-code : drop (4 + length val) stored ≡ code val ++ rest
    stored-code =
        drop-drop 4 (length val) stored
        ∙ ap (drop (length val)) stored-drop
        ∙ drop_all val (code val ++ rest)

    stored-val : take (length val) (drop 4 stored) ≡ val
    stored-val = ap (take (length val)) stored-drop ∙ take_all val (code val ++ rest)

    stored-length : length stored ≡ 4 + (length val + (length (code val) + length rest))
    stored-length = omega (
      arith,
      length-encode_len little (length val),
      length-append (encode_value_len little (length val)) (val ++ (code val ++ rest)),
      length-append val (code val ++ rest),
      length-append (code val) rest,
    )

    code-length : length (code val) ≡ (if ltb 1024 (length val) then 16 else length val)
    code-length = elim (Bool-cases (ltb 1024 (length val))) [
      | inl long ↦ rw long (md5_len val)
      | inr short ↦ rw short
    ]

    -- A value below 2 ^ 32 bytes is read back from its stored form, whatever stands behind that.
    verify-stored : verify_shm_value little md5 stored ≡ (k_ok, val)
    verify-stored =
        let e = decode-encode_len little (length val) (val ++ (code val ++ rest)) h in
        let c = take_all (code val) rest in
        verify_parts stored val e stored-val (omega (arith, stored-length, code-length))
          (rw (stored-code, ← code-length, c) (same_bytes_refl (code val)))

  -- A value below 2 ^ 32 bytes is accepted and read back from what `encodeValueStr` makes of it, with
  -- digests of 16 bytes.
  pub verify-encode :
      (val : List ℕ)
      → length val < 2 ^ 32
      → verify_shm_value little md5 (encode_value_str little md5 val) ≡ (k_ok, val)
  verify-encode val h =
      rw (encode_value_str_eq val h) (rw (append-nil (code val)) at (verify-stored val [] h))

  -- the parts of an accepted string
  module _ (s val : List ℕ) (n : ℕ) (d : decode_value_len little s ≡ n)
      (e : verify_shm_value little md5 s ≡ (k_ok, val)) where
    abbrev m : ℕ
    m = if ltb 1024 n then 16 else n

    val_length : length val ≡ n
    val_length =
        let (v, l, _) = parts_verify s val n d e in
        sym (ap length v) ∙ omega (arith, length-take n (drop 4 s), length-drop 4 s, l)

    val_code : code val ≡ take m (drop (4 + n) s)
    val_code =
        let (_, _, c) = parts_verify s val n d e in
        rw val_length
          (same_bytes-eq (if ltb 1024 n then md5 val else val) (take m (drop (4 + n) s)) c)

    val_split : val ++ (code val ++ drop m (drop (4 + n) s)) ≡ drop 4 s
    val_split =
        let (v, _, _) = parts_verify s val n d e in
        ap (λ c. val ++ (c ++ drop m (drop (4 + n) s))) val_code
        ∙ ap (λ r. val ++ r) (take-append-drop m (drop (4 + n) s) ∙ drop-drop 4 n s)
        ∙ ap (λ w. w ++ drop n (drop 4 s)) (sym v)
        ∙ take-append-drop n (drop 4 s)

  -- A string of 4 bytes or more that `verifyShmValue` accepts is what `encodeValueStr` makes of the
  -- value that it returns, with some bytes behind it. Digests have 16 bytes.
  pub encode-verify :
      (s val : List ℕ)
      → AreBytes s
      → 4 ≤ length s
      → verify_shm_value little md5 s ≡ (k_ok, val)
      → (rest : List ℕ) × (encode_value_str little md5 val ++ rest ≡ s) × (length val < 2 ^ 32)
  encode-verify s val b h e =
      let n = decode_value_len little s in
      let (bytes, small) = encode-decode_len little s h b in
      let size = val_length s val n refl e in
      let rest = drop (m s val n refl e) (drop (4 + n) s) in
      (
        rest,
        rw (encode_value_str_eq val (rw size small), ap (encode_value_len little) size ∙ bytes)
            (append_assoc (take 4 s) (val ++ code val) rest
              ∙ ap (λ r. take 4 s ++ r)
                  (append_assoc val (code val) rest ∙ val_split s val n refl e)
              ∙ take-append-drop 4 s),
        rw size small,
      )
