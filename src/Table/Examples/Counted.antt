-- ===== src/Table/Examples/Counted.antt =====
-- Runs of the table of shmutil/qhasharr.c with 5 slots: its counters, the room that is left, the entries
-- one after the other, numbers as texts.
use shmutil.Base.{
  ℕ, ◌+◌, ◌*◌, ◌-◌, ◌/◌, ◌%◌, ◌≤◌, ◌<◌, ◌≡◌, ◌⊎◌, refl, true, false, List, [], ◌∷◌, some, none,
  replicate, get_or, arith,
}
use shmutil.Table.{size, enoent, qhasharr, calculate_memsize}
use shmutil.Table.Lookup.{getnext, get_data}
use shmutil.Table.Update.{put, putstr}
use shmutil.Table.Linked.{is_head}
use shmutil.Table.Counters.{is_used, slots_with, IsCounting}
use shmutil.Table.Succeeds.{put-true}
use shmutil.Table.Sizes.{Change, putting, removing, clearing, run_changes, size-run_changes}
use shmutil.Table.Traversal.{shown_key, getnext_lem}
use shmutil.Table.Numbers.{putint, getint, getstr, getint-putint}
use shmutil.Table.Examples.{program, t₀, t₃, murmur, md5, a, b, c, valid₃}

counting₃ : IsCounting t₃ 0 0
unfolding program
counting₃ = (omega arith, refl, refl)

-- a value for the two slots that are left
put-true_example : (put murmur md5 t₃ (4 ∷ []) (replicate 300 7)).0 ≡ true
unfolding program
put-true_example =
    put-true murmur md5 (4 ∷ []) (replicate 300 7) (omega arith) (omega arith) refl t₃ valid₃
      counting₃ (omega arith, omega arith)

abbrev changes : List Change
changes =
    putting a (replicate 200 1)
    ∷ clearing
    ∷ putting a (10 ∷ [])
    ∷ putting b (replicate 200 2)
    ∷ putting c (replicate 700 3)
    ∷ removing a
    ∷ []

size_example : size (run_changes murmur md5 t₀ changes) ≡ (
  slots_with is_head (run_changes murmur md5 t₀ changes),
  5,
  slots_with is_used (run_changes murmur md5 t₀ changes),
)
unfolding qhasharr calculate_memsize
size_example =
    size-run_changes murmur md5 changes (calculate_memsize 5) 0 t₀ (λ key. refl)
      (
        omega arith,
        omega arith,
        (omega arith, omega arith, (omega arith, omega arith, (omega arith, omega arith, tt))),
      )
      (omega arith) refl

-- The third value does not fit, and one entry is left, in two slots.
size_run : size (run_changes murmur md5 t₀ changes) ≡ (1, 5, 2)
unfolding program run_changes size
size_run = refl

getnext_example :
    ((j : ℕ) × (3 ≤ j)
      × (j < 5)
      × (is_head (t₃.slots j).count ≡ true)
      × ((i : ℕ) → 3 ≤ i → i < j → is_head (t₃.slots i).count ≡ false)
      × ((value : List ℕ) × (get_data t₃ j ≡ some value)
          × ((getnext t₃ 3).object ≡ some (shown_key t₃ j, value))
          × ((getnext t₃ 3).idx ≡ j + 1)))
    ⊎ (((i : ℕ) → 3 ≤ i → i < 5 → is_head (t₃.slots i).count ≡ false)
        × ((getnext t₃ 3).object ≡ none)
        × ((getnext t₃ 3).errno ≡ enoent))
unfolding program
getnext_example = getnext_lem murmur md5 t₃ 3 valid₃

getnext_run : ((getnext t₃ 2).object ≡ some (c, 30 ∷ [])) × ((getnext t₃ 2).idx ≡ 3)
unfolding program
getnext_run = (refl, refl)

-- a text of two decimal digits
abbrev digits : ℕ → List ℕ
digits n = (48 + n / 10) ∷ (48 + n % 10) ∷ []

abbrev value_of : List ℕ → ℕ
value_of s = (get_or s 0 0 - 48) * 10 + (get_or s 1 0 - 48)

getint-putint_run :
    ((putint murmur md5 digits value_of t₃ (4 ∷ []) 42).0 ≡ true)
    × ((getint murmur md5 digits value_of
          (putint murmur md5 digits value_of t₃ (4 ∷ []) 42).1
          (4 ∷ 0 ∷ [])).0
        ≡ 42)
unfolding program putint getint getstr putstr
getint-putint_run = (refl, refl)

getint-putint_example :
    ((putint murmur md5 digits value_of t₃ (4 ∷ []) 42).0 ≡ true)
    × ((getint murmur md5 digits value_of
          (putint murmur md5 digits value_of t₃ (4 ∷ []) 42).1
          (4 ∷ 0 ∷ [])).0
        ≡ 42)
unfolding program
getint-putint_example =
    getint-putint murmur md5 digits value_of t₃ (4 ∷ []) 42 valid₃ counting₃ (omega arith)
      (omega arith) refl (omega arith) refl
