-- ===== src/Hash/Bounds.antt =====
-- What `qhashmd5_bin_to_hex` of shmutil/qhash.c writes.
use Prim.Native.Nat.{bit_and}
use shmutil.Base.{
  ℕ, zero, suc, ◌+◌, ◌-◌, ◌*◌, ◌/◌, ◌^◌, ◌≤◌, ◌<◌, ◌≡◌, ◌⊎◌, dec_lt, refl, ◌∙◌, Bool, inl, inr,
  true, false, ltb, ◌==◌, if◌then◌else◌, get_or, arith,
}
use shmutil.Memory.{Memory, store8}
use shmutil.Hash.{hexs, bin_to_hex_from, qhashmd5_bin_to_hex}

-- the value of a hexadecimal digit
abbrev pub unhex : ℕ → ℕ
unhex c = if ltb c 58 then c - 48 else c - 87

-- every number below `n` passes the test
passes : ℕ → (ℕ → Bool) → Bool
passes zero p = true
passes (suc n) p = if p n then passes n p else false

passes_below : (n : ℕ) (p : ℕ → Bool) (v : ℕ) → v < n → passes n p ≡ true → p v ≡ true
unfolding passes
passes_below zero p v lt e = absurd (omega arith)
passes_below (suc n) p v lt e = ground (arith, passes_below n p v)

-- one byte and its two digits
abbrev is_hex : ℕ → Bool
is_hex v = unhex (get_or hexs (v / 2 ^ 4) 0) * 16 + unhex (get_or hexs (bit_and v 0x0F) 0) == v

hex_table : passes 256 is_hex ≡ true
unfolding passes
hex_table = refl

hex_byte :
    (v : ℕ)
    → v < 256
    → unhex (get_or hexs (v / 2 ^ 4) 0) * 16 + unhex (get_or hexs (bit_and v 0x0F) 0) ≡ v
hex_byte v h = let e = passes_below 256 is_hex v h hex_table in test_eq e
  where
    test_eq : {a b : ℕ} → (a == b) ≡ true → a ≡ b
    test_eq e = ground arith

-- the two characters of a byte
abbrev high_digit : ℕ → ℕ
high_digit v = get_or hexs (v / 2 ^ 4) 0

abbrev low_digit : ℕ → ℕ
low_digit v = get_or hexs (bit_and v 0x0F) 0

outside :
    (rounds i : ℕ) (md5_str md5_int : Memory) (a : ℕ)
    → (a < i * 2) ⊎ ((i + rounds) * 2 ≤ a)
    → bin_to_hex_from rounds i md5_str md5_int a ≡ md5_str a
unfolding bin_to_hex_from store8
outside zero i md5_str md5_int a h = refl
outside (suc rounds) i md5_str md5_int a h =
    let str' =
      store8 (store8 md5_str (i * 2) (high_digit (md5_int i))) (i * 2 + 1)
        (low_digit (md5_int i)) in
    ground (arith, outside rounds (i + 1) str' md5_int a)

inside :
    (rounds i : ℕ) (md5_str md5_int : Memory) (j : ℕ)
    → i ≤ j
    → j < i + rounds
    → (bin_to_hex_from rounds i md5_str md5_int (j * 2) ≡ high_digit (md5_int j))
      × (bin_to_hex_from rounds i md5_str md5_int (j * 2 + 1) ≡ low_digit (md5_int j))
unfolding bin_to_hex_from
inside zero i md5_str md5_int j h b = absurd (omega arith)
inside (suc rounds) i md5_str md5_int j h b =
    let str' =
      store8 (store8 md5_str (i * 2) (high_digit (md5_int i))) (i * 2 + 1)
        (low_digit (md5_int i)) in
    elim (dec_lt i j) [
      | yes later ↦ inside rounds (i + 1) str' md5_int j (omega (arith, later)) (omega (arith, b))
      | no now ↦
          let e : j ≡ i = omega (arith, now, h) in
          rw e (
            outside rounds (i + 1) str' md5_int (i * 2) (inl (omega arith))
                ∙ (unfold store8 in ground arith),
            outside rounds (i + 1) str' md5_int (i * 2 + 1) (inl (omega arith))
                ∙ (unfold store8 in ground arith),
          )
    ]

-- `qhashmd5_bin_to_hex` writes two characters for each byte, which as hexadecimal digits give the byte back, and writes nothing behind them.
pub qhashmd5_bin_to_hex_lem :
    (md5_str md5_int : Memory) (md5_int_len : ℕ)
    → ((i : ℕ)
        → i < md5_int_len
        → md5_int i < 256
        → unhex (qhashmd5_bin_to_hex md5_str md5_int md5_int_len (i * 2)) * 16
            + unhex (qhashmd5_bin_to_hex md5_str md5_int md5_int_len (i * 2 + 1))
          ≡ md5_int i)
      × ((a : ℕ)
          → md5_int_len * 2 ≤ a
          → qhashmd5_bin_to_hex md5_str md5_int md5_int_len a ≡ md5_str a)
unfolding qhashmd5_bin_to_hex
qhashmd5_bin_to_hex_lem md5_str md5_int md5_int_len = (
  λ i b v.
      let (high, low) = inside md5_int_len 0 md5_str md5_int i (omega arith) (omega (arith, b)) in
      rw (high, low) (hex_byte (md5_int i) v),
  λ a b. outside md5_int_len 0 md5_str md5_int a (inr (omega (arith, b))),
)
