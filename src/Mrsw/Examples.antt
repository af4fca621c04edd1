-- ===== src/Mrsw/Examples.antt =====
-- The theorems on `setValue` of shmutil/shm_mrsw_hashtable.cc at a table of 2 slots.
use shmutil.Base.{
  ℕ, [], ◌∷◌, ◌≡◌, ◌≢◌, refl, true, false, Option-cases, inl, inr, arith, none, some, ℕ_discrete,
  get_or,
}
use shmutil.ErrorCode.{ErrorCode, k_ok, k_err_other}
use shmutil.Memory.{memcpy, store8, bytes, le_byte}
use shmutil.Value.{
  encode_value_len, decode_value_len, same_bytes, encode_value_str, verify_shm_value,
}
use shmutil.Table.{
  Table, zero_slot, set_slot, find_empty_from, find_empty, copy_slot, remove_slot, remove_chain,
  remove_data,
}
use shmutil.Table.Lookup.{
  chain_size, chain_data, get_data, same_key, is_entry, get_idx_from, get_idx, get,
}
use shmutil.Table.Store.{store_key, extend, store_part, store_value, put_data}
use shmutil.Table.Update.{
  find_dup, move_to_lead, remove_at, move_away, remove, put_collision, put_moving, put_within, put,
}
use shmutil.Lru.{new_simple_lru, visit_key, get_remove_key, remove_key}
use shmutil.Lru.Order.{IsValid, keys, new-IsValid}
use shmutil.Mrsw.{
  Str, MrswHashtable, get_value, delete_key, put_table, is_full, oldest, drop_oldest, eliminate,
  set_within, set_value,
}
use shmutil.Mrsw.Elimination.{set_value_total}
use shmutil.Mrsw.SetGet.{get_value-set_value}
use shmutil.Mrsw.Keeps.{Kept, set_value_keeps}
use shmutil.Table.{qhasharr}
use shmutil.Table.Remove
use shmutil.Table.Empty.{qhasharr-IsValid}
use shmutil.Mrsw.Serves.{IsServed, set_value_serves}

nil-cons : {y : ℕ} {ys : Str} → [] ≢ y ∷ ys
nil-cons e = cc

cons-nil : {x : ℕ} {xs : Str} → x ∷ xs ≢ []
cons-nil e = cc

abbrev dec : Discrete Str
dec [] [] = yes refl
dec [] (y ∷ ys) = no nil-cons
dec (x ∷ xs) [] = no cons-nil
dec (x ∷ xs) (y ∷ ys) = elim (ℕ_discrete x y) [
  | no n ↦ no (λ e. n cc)
  | yes p ↦ elim (dec xs ys) [ no n ↦ no (λ e. n cc) | yes q ↦ yes (λ i. p i ∷ q i) ]
]

-- a hash that is the first byte, and a digest of 16 bytes
abbrev murmur : Str → ℕ
murmur key = get_or key 0 0

abbrev md5 : Str → Str
md5 l = 1 ∷ 2 ∷ 3 ∷ 4 ∷ 5 ∷ 6 ∷ 7 ∷ 8 ∷ 9 ∷ 10 ∷ 11 ∷ 12 ∷ 13 ∷ 14 ∷ 15 ∷ 16 ∷ []

abbrev empty : Table
empty = record { maxslots = 2; usedslots = 0; num = 0; slots = λ i. zero_slot; errno = 0 }

abbrev h : MrswHashtable
h = record { table = some empty; lru = new_simple_lru; is_lru_eliminate = true; is_init = true }

program : Unit {0}
unfolding qhasharr memcpy store8 bytes le_byte encode_value_len decode_value_len same_bytes
    encode_value_str verify_shm_value set_slot find_empty_from find_empty copy_slot remove_slot
    remove_chain remove_data chain_size chain_data get_data same_key is_entry get_idx_from get_idx
    get store_key extend store_part store_value put_data find_dup move_to_lead remove_at move_away
    remove put_collision put_moving put_within put new_simple_lru visit_key get_remove_key
    remove_key get_value delete_key put_table is_full oldest drop_oldest eliminate set_within
    set_value ℕ_discrete
program = tt

-- the result of a call, and the handle that it leaves
abbrev set : MrswHashtable → Str → ErrorCode × MrswHashtable
set h key = elim (set_value true murmur md5 dec h key (8 ∷ 9 ∷ [])) [
  | none ↦ (k_err_other, h)
  | some r ↦ r
]

-- the keys 5 and 6, which take the two slots
abbrev h₂ : MrswHashtable
h₂ = (set (set h (5 ∷ [])).1 (6 ∷ [])).1

-- The key 7 takes the place of the key 5.
set_three :
    ((set h₂ (7 ∷ [])).0 ≡ k_ok) × (keys (set h₂ (7 ∷ [])).1.lru.lru_mem ≡ (7 ∷ []) ∷ (6 ∷ []) ∷ [])
unfolding program
set_three = (refl, refl)

-- A handle's list stays valid.
set-IsValid : (h : MrswHashtable) (key : Str) → IsValid dec h.lru → IsValid dec (set h key).1.lru
set-IsValid h key v = elim (Option-cases (set_value true murmur md5 dec h key (8 ∷ 9 ∷ []))) [
  | inl e ↦ ground (arith, e)
  | inr (r, e) ↦
      let valid = (set_value_keeps true murmur md5 dec h key (8 ∷ 9 ∷ []) r v e).0 in
      ground (arith, e)
]

h₂-IsValid : IsValid dec h₂.lru
h₂-IsValid = set-IsValid (set h (5 ∷ [])).1 (6 ∷ []) (set-IsValid h (5 ∷ []) (new-IsValid dec))

h₁-IsValid : IsValid dec (set h (5 ∷ [])).1.lru
h₁-IsValid = set-IsValid h (5 ∷ []) (new-IsValid dec)

set_value_total_example :
    (r : ErrorCode × MrswHashtable) × (set_value true murmur md5 dec h₂ (7 ∷ []) (8 ∷ 9 ∷ [])
      ≡ some r)
set_value_total_example = set_value_total true murmur md5 dec h₂ (7 ∷ []) (8 ∷ 9 ∷ [])

set_value_keeps_example : Kept true murmur md5 dec h₂ (7 ∷ []) (set h₂ (7 ∷ []))
unfolding program
set_value_keeps_example =
    set_value_keeps true murmur md5 dec h₂ (7 ∷ []) (8 ∷ 9 ∷ []) (set h₂ (7 ∷ [])) h₂-IsValid refl

-- the handle without elimination
abbrev g : MrswHashtable
g = record h { is_lru_eliminate = false }

get_value_example :
    ((get_value true murmur md5 dec (set g (5 ∷ [])).1 (5 ∷ []) []).0 ≡ k_ok)
    × ((get_value true murmur md5 dec (set g (5 ∷ [])).1 (5 ∷ []) []).1 ≡ 8 ∷ 9 ∷ [])
unfolding program
get_value_example =
    get_value-set_value true murmur md5 dec g (5 ∷ []) (8 ∷ 9 ∷ []) [] empty (set g (5 ∷ [])).1 refl
      refl refl (omega arith) refl (omega arith) (omega arith) (λ xs. refl) refl refl

abbrev table_of : MrswHashtable → Table
table_of h = elim h.table [ none ↦ empty | some t ↦ t ]

table_of-some : (h : MrswHashtable) (t : Table) → h.table ≡ some t → t ≡ table_of h
table_of-some h t e = ground arith

empty-IsValid : Remove.IsValid murmur md5 empty
unfolding program
empty-IsValid = (qhasharr-IsValid murmur md5 532 0 empty refl).0

abbrev h₁ : MrswHashtable
h₁ = (set h (5 ∷ [])).1

valid₁ : Remove.IsValid murmur md5 (table_of h₁)
unfolding program
valid₁ =
    let (_, _, (_, t, e, v, _, _, _)) =
      set_value_serves true murmur md5 dec h (5 ∷ []) (8 ∷ 9 ∷ []) [] empty h₁ (new-IsValid dec)
        refl refl empty-IsValid refl (omega arith) (omega arith) (λ xs. refl) (omega arith) refl in
    rw (table_of-some h₁ t e) at v

valid₂ : Remove.IsValid murmur md5 (table_of h₂)
unfolding program
valid₂ =
    let (_, _, (_, t, e, v, _, _, _)) =
      set_value_serves true murmur md5 dec h₁ (6 ∷ []) (8 ∷ 9 ∷ []) [] (table_of h₁) h₂ h₁-IsValid
        refl refl valid₁ refl (omega arith) (omega arith) (λ xs. refl) (omega arith) refl in
    rw (table_of-some h₂ t e) at v

-- In the list and in the table the oldest key is gone, and the others are there.
evicted_five :
    (keys (set h₂ (7 ∷ [])).1.lru.lru_mem ≡ (7 ∷ []) ∷ (6 ∷ []) ∷ [])
    × ((get murmur md5 (table_of (set h₂ (7 ∷ [])).1) (5 ∷ [])).0 ≡ none)
    × ((get_value true murmur md5 dec (set h₂ (7 ∷ [])).1 (6 ∷ []) []).1 ≡ 8 ∷ 9 ∷ [])
unfolding program
evicted_five = (refl, refl, refl)

set_value_serves_example :
    ((get_value true murmur md5 dec (set h₂ (7 ∷ [])).1 (7 ∷ []) []).0 ≡ k_ok)
    × ((get_value true murmur md5 dec (set h₂ (7 ∷ [])).1 (7 ∷ []) []).1 ≡ 8 ∷ 9 ∷ [])
    × IsServed true murmur md5 dec h₂ (table_of h₂) (7 ∷ []) (set h₂ (7 ∷ [])).1
unfolding program
set_value_serves_example =
    set_value_serves true murmur md5 dec h₂ (7 ∷ []) (8 ∷ 9 ∷ []) [] (table_of h₂)
      (set h₂ (7 ∷ [])).1 h₂-IsValid refl refl valid₂ refl (omega arith) (omega arith) (λ xs. refl)
      (omega arith) refl
