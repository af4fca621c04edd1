-- ===== src/Table/Examples.antt =====
-- Runs of the table of shmutil/qhasharr.c with 5 slots, and its theorems there.
mod Counted
use shmutil.Base.{
  ℕ, replicate, Bool, ◌+◌, ◌*◌, List, [], ◌∷◌, none, some, true, false, ◌≡◌, refl, get_or, arith,
  ◌<◌, ◌≢◌, ◌⊎◌,
}
use shmutil.Memory.{memcpy, store8, bytes}
use shmutil.Value.{same_bytes}
use shmutil.Table.{
  Table, header_size, slot_size, calculate_memsize, qhasharr, set_slot, find_empty_from, find_empty,
  copy_slot, remove_slot, remove_chain, remove_data, zero_slot,
}
use shmutil.Table.Lookup.{
  chain_size, chain_data, get_data, next_used, getnext, same_key, is_entry, get_idx_from, get_idx,
  exist, get,
}
use shmutil.Table.Search.{find_empty_lem, qhasharr-calculate_memsize}
use shmutil.Table.Found.{IsFound, get_idx-some}
use shmutil.Table.RoundTrip.{Entry, put_data_lem}
use shmutil.Table.PutGet.{get-put_lem}
use shmutil.Table.Store.{store_key, extend, store_part, store_value, put_data}
use shmutil.Table.{clear}
use shmutil.Table.Find.{get_idx_complete}
use shmutil.Table.View.{view}
use shmutil.Table.Remove.{IsValid, Keeps}
use shmutil.Table.Removed.{remove-view}
use shmutil.Table.Putting.{IsPutFor}
use shmutil.Table.Put.{put-view}
use shmutil.Table.Empty.{qhasharr-IsValid, clear-IsValid}
use shmutil.Table.Runs.{
  Call, put_call, remove_call, Contents, expected, run_calls, IsShown, run_calls-IsShown,
}
use shmutil.Table.Update.{
  find_dup, move_to_lead, remove_at, move_away, remove, put_collision, put_moving, put_within, put,
}

pub program : Unit {0}
unfolding run_calls clear memcpy store8 bytes same_bytes qhasharr set_slot find_empty_from
    find_empty copy_slot remove_slot remove_chain remove_data chain_size chain_data get_data
    next_used getnext same_key is_entry get_idx_from get_idx exist get store_key extend store_part
    store_value put_data find_dup move_to_lead remove_at move_away remove put_collision put_moving
    put_within put
program = tt

abbrev pub t₀ : Table
t₀ = record { maxslots = 5; usedslots = 0; num = 0; slots = λ i. zero_slot; errno = 0 }

-- a hash that is the first byte, and a digest of 16 bytes
abbrev pub murmur : List ℕ → ℕ
murmur key = get_or key 0 0

abbrev pub md5 : List ℕ → List ℕ
md5 l = 1 ∷ 2 ∷ 3 ∷ 4 ∷ 5 ∷ 6 ∷ 7 ∷ 8 ∷ 9 ∷ 10 ∷ 11 ∷ 12 ∷ 13 ∷ 14 ∷ 15 ∷ 16 ∷ []

abbrev pub a : List ℕ
a = 1 ∷ []

abbrev pub b : List ℕ
b = 6 ∷ []

abbrev pub c : List ℕ
c = 2 ∷ []

abbrev t₁ : Table
t₁ = (put murmur md5 t₀ a (10 ∷ 11 ∷ [])).1

abbrev t₂ : Table
t₂ = (put murmur md5 t₁ b (20 ∷ [])).1

abbrev pub t₃ : Table
t₃ = (put murmur md5 t₂ c (30 ∷ [])).1

abbrev t₄ : Table
t₄ = (remove murmur md5 t₃ a).1

get-put : (get murmur md5 t₃ a).0 ≡ some (10 ∷ 11 ∷ [])
unfolding program
get-put = refl

get-put_b : (get murmur md5 t₃ b).0 ≡ some (20 ∷ [])
unfolding program
get-put_b = refl

get-put_c : (get murmur md5 t₃ c).0 ≡ some (30 ∷ [])
unfolding program
get-put_c = refl

get-remove : ((get murmur md5 t₄ a).0 ≡ none) × ((get murmur md5 t₄ b).0 ≡ some (20 ∷ []))
unfolding program
get-remove = (refl, refl)

find_empty_example :
    ((i : ℕ) × (find_empty t₃ 1 ≡ some i) × (i < 5) × ((t₃.slots i).count ≡ 0))
    ⊎ ((find_empty t₃ 1 ≡ none) × ((j : ℕ) → j < 5 → (t₃.slots j).count ≢ 0))
unfolding program
find_empty_example = find_empty_lem t₃ 1

qhasharr_example :
    (t : Table) × (qhasharr (calculate_memsize 5) 0 ≡ some t)
    × (t.maxslots ≡ 5)
    × (header_size + slot_size * t.maxslots ≡ calculate_memsize 5)
    × ((i : ℕ) → (t.slots i).count ≡ 0)
qhasharr_example = qhasharr-calculate_memsize 5 0 (omega arith) (omega arith)

get_idx_example : IsFound murmur md5 t₃ b 1 3
unfolding program
get_idx_example = get_idx-some murmur md5 t₃ b 1 3 (omega arith) refl

-- a value that takes two slots
abbrev long : List ℕ
long = replicate 130 9

abbrev fits : Bool × Table
fits = put_data md5 t₃ 4 4 (4 ∷ []) long 1

-- Two slots are left of five, so that a value for three slots is refused.
put_data_fits : (fits.0 ≡ true) × ((put_data md5 t₃ 4 4 (4 ∷ []) (replicate 400 9) 1).0 ≡ false)
unfolding program
put_data_fits = (refl, refl)

put_data_example :
    Entry murmur md5 fits.1 4 4 1 (4 ∷ []) long
    × (fits.1.maxslots ≡ 5)
    × ((j : ℕ) → j ≢ 4 → (t₃.slots j).count ≢ 0 → fits.1.slots j ≡ t₃.slots j)
unfolding program
put_data_example =
    put_data_lem murmur md5 t₃ 4 4 1 (4 ∷ []) long fits.1 (omega arith) (omega arith)
      (λ e. omega (arith, e)) (λ e. omega (arith, e)) (omega arith) (omega arith) refl refl

get-put_example : get murmur md5 t₃ c ≡ (some (30 ∷ []), t₃)
unfolding program
get-put_example =
    get-put_lem murmur md5 t₂ c (30 ∷ []) t₃ (omega arith) (omega arith) (omega arith) refl refl
      refl

qhasharr-IsValid_example : IsValid murmur md5 t₀ × ((key : List ℕ) → view murmur md5 t₀ key ≡ none)
unfolding program
qhasharr-IsValid_example = qhasharr-IsValid murmur md5 1312 0 t₀ refl

clear-IsValid_example :
    IsValid murmur md5 (clear t₃) × ((key : List ℕ) → view murmur md5 (clear t₃) key ≡ none)
unfolding program
clear-IsValid_example = clear-IsValid murmur md5 t₃ (omega arith) (λ e. omega (arith, e))

-- two entries with one hash, one of them in a slot that another entry takes from it, and one removed
abbrev calls : List Call
calls = put_call a (10 ∷ 11 ∷ []) ∷ put_call b (20 ∷ []) ∷ put_call c (30 ∷ []) ∷ remove_call a ∷ []

abbrev nothing : Contents
nothing key = none

run_calls_example : IsValid murmur md5 t₄ × IsShown murmur md5 t₄ (expected nothing calls)
unfolding program
run_calls_example =
    run_calls-IsShown murmur md5 calls t₀ nothing t₄ (λ key. refl)
      (
        omega arith,
        omega arith,
        (omega arith, omega arith, (omega arith, omega arith, (omega arith, tt))),
      )
      (omega arith) (qhasharr-IsValid murmur md5 1312 0 t₀ refl).0
      (λ key h. (qhasharr-IsValid murmur md5 1312 0 t₀ refl).1 key) refl

expected_example :
    (expected nothing calls a ≡ none)
    × (expected nothing calls b ≡ some (20 ∷ []))
    × (expected nothing calls c ≡ some (30 ∷ []))
unfolding program
expected_example = (refl, refl, refl)

pub valid₃ : IsValid murmur md5 t₃
unfolding program
valid₃ =
    (run_calls-IsShown murmur md5
      (put_call a (10 ∷ 11 ∷ []) ∷ put_call b (20 ∷ []) ∷ put_call c (30 ∷ []) ∷ []) t₀ nothing t₃
      (λ key. refl)
      (omega arith, omega arith, (omega arith, omega arith, (omega arith, omega arith, tt)))
      (omega arith) (qhasharr-IsValid murmur md5 1312 0 t₀ refl).0
      (λ key h. (qhasharr-IsValid murmur md5 1312 0 t₀ refl).1 key) refl).0

remove-view_example :
    ((remove murmur md5 t₃ a).0 ≡ exist murmur md5 t₃ a)
    × Keeps murmur md5 t₃ (remove murmur md5 t₃ a).1 a
    × (view murmur md5 (remove murmur md5 t₃ a).1 a ≡ none)
remove-view_example = remove-view murmur md5 t₃ a valid₃

-- a new value for a key that is there
put-view_example : IsPutFor murmur md5 t₃ a (40 ∷ []) (put murmur md5 t₃ a (40 ∷ []))
unfolding program
put-view_example =
    put-view murmur md5 a (40 ∷ []) t₃ valid₃ (omega arith) (omega arith) refl (omega arith)

get_idx_complete_example :
    (i : ℕ) × (get_idx murmur md5 t₃ b 1 ≡ some i) × IsFound murmur md5 t₃ b 1 i
unfolding program
get_idx_complete_example =
    get_idx_complete murmur md5 t₃ b 1 3 (omega arith) refl refl (omega arith, refl, refl)
