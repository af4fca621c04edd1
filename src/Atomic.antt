-- ===== src/Atomic.antt =====
-- `AtomicInt32` of shmutil/atomic.h. A counter is the bit pattern of its int32_t, below 2 ^ 32. An
-- operation is one indivisible step on it, and gives the new counter and its result.
use shmutil.Base.{ℕ, ◌+◌, ◌-◌, ◌%◌, ◌^◌, ◌<◌, ◌≡◌, arith}

-- the bit pattern of -1
abbrev pub minus_one : ℕ
minus_one = 2 ^ 32 - 1

-- `__sync_val_compare_and_swap(&value_, 0, 0)` stores 0 where 0 stood.
unfoldable pub get : ℕ → ℕ × ℕ
get value = (value, value)

unfoldable pub get_and_add : ℕ → ℕ → ℕ × ℕ
get_and_add value x = ((value + x) % 2 ^ 32, value)

unfoldable pub add_and_get : ℕ → ℕ → ℕ × ℕ
unfolding get_and_add
add_and_get value x = let (value', old) = get_and_add value x in (value', (old + x) % 2 ^ 32)

unfoldable pub increment_and_get : ℕ → ℕ × ℕ
unfolding add_and_get
increment_and_get value = add_and_get value 1

unfoldable pub decrement_and_get : ℕ → ℕ × ℕ
unfolding add_and_get
decrement_and_get value = add_and_get value minus_one

unfoldable pub add : ℕ → ℕ → ℕ
unfolding get_and_add
add value x = (get_and_add value x).0

unfoldable pub increment : ℕ → ℕ
unfolding increment_and_get
increment value = (increment_and_get value).0

unfoldable pub decrement : ℕ → ℕ
unfolding decrement_and_get
decrement value = (decrement_and_get value).0

unfoldable pub get_and_set : ℕ → ℕ → ℕ × ℕ
get_and_set value new_value = (new_value, value)

-- What `incrementAndGet` returns is what it leaves, and `decrementAndGet` takes it back, also where
-- the counter wraps.
pub decrement-increment :
    (value : ℕ)
    → value < 2 ^ 32
    → ((increment_and_get value).1 ≡ (increment_and_get value).0)
      × (decrement (increment value) ≡ value)
      × (increment (decrement value) ≡ value)
unfolding increment decrement
decrement-increment value h = omega arith
