-- ===== src/Mrsw.antt =====
-- `class MrswHashtable` of shmutil/shm_mrsw_hashtable.h and shmutil/shm_mrsw_hashtable.cc: the table in
-- shared memory as one process works on it, and that process's list of recently used keys. `mutex_`
-- only keeps the threads of the process apart, and each method is taken as one step.
pub mod Attach
pub mod Elimination
pub mod Keeps
pub mod SetGet
pub mod Rounds
pub mod Serves
mod Examples
use shmutil.Base.{
  ℕ, zero, suc, ◌+◌, Bool, true, false, not, ◌&&◌, ◌||◌, List, [], ◌∷◌, Option, none, some, ltb,
  leb, ◌==◌, if◌then◌else◌, length,
}
use shmutil.ErrorCode.{
  ErrorCode, k_ok, k_err_data_mess, k_err_invalid_params, k_err_not_enough_space, k_err_not_found,
  k_err_other, k_err_set_same_value, k_err_shm_not_init, k_err_store_kv_failed,
  k_err_traverse_table_end,
}
use shmutil.Value.{same_bytes, encode_value_str, verify_shm_value}
use shmutil.Table
use shmutil.Table.{Table, enobufs, enoent}
use shmutil.Table.Lookup.{getnext}
use shmutil.Table.Update
use shmutil.Lru.{SimpleLru, get_remove_key, remove_key, visit_key}

-- A std::string is the list of its bytes.
abbrev pub Str : Type 0
Str = List ℕ

pub record MrswHashtable : Type 0 where
  pub table : Option Table
  pub lru : SimpleLru Str
  pub is_lru_eliminate : Bool
  pub is_init : Bool

abbrev pub is_nil : Str → Bool
is_nil [] = true
is_nil (x ∷ s) = false

-- what a traversal step gives: its result, the key and the value, and `idx`
pub record Pair : Type 0 where
  pub code : ErrorCode
  pub key : Str
  pub val : Str
  pub idx : ℕ

-- The machine's byte order, the hash, the digest, and the order of keys in the std::map.
module _ (little : Bool) (murmur : Str → ℕ) (md5 : Str → Str) (dec : Discrete Str) where
  -- `key` and `val` are what the caller's strings hold before.
  unfoldable pub get_next_kv_pair : Option Table → Str → Str → ℕ → Pair
  get_next_kv_pair none key val idx = record {
    code = k_err_invalid_params;
    key = key;
    val = val;
    idx = idx;
  }
  get_next_kv_pair (some tbl) key val idx =
      let n = getnext tbl idx in
      elim n.object [
        | none ↦
            let idx' = n.idx + 1 in
            record {
              code =
                  if n.errno == enoent && leb (tbl.maxslots + 1) idx'
                  then k_err_traverse_table_end
                  else k_err_not_found;
              key = key;
              val = val;
              idx = idx';
            }
        | some (name, object) ↦
            let (code, val') = verify_shm_value little md5 object in
            record {
              code = code;
              key = elim code [ k_ok ↦ name | _ ↦ key ];
              val = val';
              idx = n.idx;
            }
      ]

  -- the result, the string, and the table with `errno`
  unfoldable pub get_value : MrswHashtable → Str → Str → ErrorCode × Str × MrswHashtable
  get_value h key val =
      if not h.is_init || is_nil key then (k_err_invalid_params, val, h) else elim h.table [
        | none ↦ (k_err_not_found, val, h)
        | some tbl ↦
            let (object, tbl') = Table.Lookup.get murmur md5 tbl key in
            let h' : MrswHashtable = record h { table = some tbl' } in
            elim object [
              | none ↦ (k_err_not_found, val, h')
              | some tmp_val ↦
                  let (code, val') = verify_shm_value little md5 tmp_val in (code, val', h')
            ]
      ]

  unfoldable pub is_exist : MrswHashtable → Str → Bool → ErrorCode × Bool
  is_exist h key old =
      if not h.is_init || is_nil key
      then (k_err_invalid_params, old)
      else (k_ok, elim h.table [ none ↦ false | some tbl ↦ Table.Lookup.exist murmur md5 tbl key ])

  unfoldable pub delete_key : MrswHashtable → Str → ErrorCode × MrswHashtable
  delete_key h key =
      if not h.is_init || is_nil key then (k_err_invalid_params, h) else elim h.table [
        | none ↦ (k_err_other, h)
        | some tbl ↦
            let (ret, tbl') = Update.remove murmur md5 tbl key in
            let h' : MrswHashtable = record h { table = some tbl' } in
            if ret
            then (k_ok, h')
            else (if tbl'.errno == enoent then (k_ok, h') else (k_err_other, h'))
      ]

  -- `qhasharr_put` on the table
  unfoldable pub put_table : MrswHashtable → Str → Str → Bool × MrswHashtable
  put_table h key val = elim h.table [
    | none ↦ (false, h)
    | some tbl ↦
        let (ret, tbl') = Update.put murmur md5 tbl key val in (ret, record h { table = some tbl' })
  ]

  -- `errno == ENOBUFS`
  unfoldable pub is_full : MrswHashtable → Bool
  is_full h = elim h.table [ none ↦ false | some tbl ↦ tbl.errno == enobufs ]

  -- the key that `getRemoveKey` gives
  unfoldable pub oldest : MrswHashtable → Str
  oldest h = elim (get_remove_key dec h.lru) [ none ↦ [] | some k ↦ k ]

  -- `lru_.removeKey()`
  unfoldable pub drop_oldest : MrswHashtable → MrswHashtable
  drop_oldest h = elim (remove_key dec h.lru) [ none ↦ h | some (lru, k) ↦ record h { lru = lru } ]

  -- The `while` loop of `__setValue`: old keys go until the new one fits. The result of the loop is
  -- `ret`, or the error with which it returns; `none` where `rounds` are not enough.
  unfoldable pub eliminate :
      ℕ → MrswHashtable → Str → Str → Bool → Option ((Bool × Option ErrorCode) × MrswHashtable)
  eliminate zero h key val ret = none
  eliminate (suc rounds) h key val ret =
      let (ec_ret, h₁) = delete_key h (oldest h) in
      let (ret', h₂) = put_table (drop_oldest h₁) key val in
      let rest = eliminate rounds h₂ key val ret' in
      if ret || not (is_full h)
      then some ((ret, none), h)
      else elim ec_ret [ k_ok ↦ rest | other ↦ some ((ret, some other), h₁) ]

  -- the end of `__setValue`
  abbrev pub finish_set : MrswHashtable → Str → Bool → ErrorCode × MrswHashtable
  finish_set h key ret =
      if ret then (k_ok, record h { lru = visit_key dec h.lru key }) else (k_err_store_kv_failed, h)

  abbrev pub finish_eliminate :
      Str → (Bool × Option ErrorCode) × MrswHashtable → ErrorCode × MrswHashtable
  finish_eliminate key ((ret, none), h) = finish_set h key ret
  finish_eliminate key ((ret, some code), h) = (code, h)

  -- `__setValue`, `none` where the `rounds` for its loop are not enough
  unfoldable pub set_within : ℕ → MrswHashtable → Str → Str → Option (ErrorCode × MrswHashtable)
  set_within rounds h key val =
      if is_nil key
      then some (k_err_invalid_params, h)
      else let (ret, h₁) = put_table h key val in
        if not ret && is_full h₁
        then if h.is_lru_eliminate
          then elim (eliminate rounds h₁ key val ret) [
            | none ↦ none
            | some r ↦ some (finish_eliminate key r)
          ]
          else some (k_err_not_enough_space, h₁)
        else some (finish_set h₁ key ret)

  -- `setValue`. The loop has a round for each node of the list, and two more.
  unfoldable pub set_value : MrswHashtable → Str → Str → Option (ErrorCode × MrswHashtable)
  set_value h key val =
      if not h.is_init || is_nil key
      then some (k_err_invalid_params, h)
      else let (ret, val_in_tbl, h₁) = get_value h key [] in
        if elim ret [ k_ok ↦ same_bytes val val_in_tbl | _ ↦ false ]
        then some (k_err_set_same_value, h₁)
        else set_within (length h₁.lru.lru_mem + 2) h₁ key (encode_value_str little md5 val)

  unfoldable pub get_next : MrswHashtable → Str → Str → ℕ → Pair
  get_next h key val index = get_next_kv_pair h.table key val index

-- `getStats`: the slots, the slots in use, and the keys
unfoldable pub get_stats : MrswHashtable → ℕ × ℕ × ℕ → ErrorCode × (ℕ × ℕ × ℕ)
get_stats h old = if not h.is_init then (k_err_shm_not_init, old) else elim h.table [
  | none ↦ (k_err_shm_not_init, old)
  | some tbl ↦ let (num, maxslots, usedslots) = Table.size tbl in (k_ok, (maxslots, usedslots, num))
]

unfoldable pub clear_table : MrswHashtable → ErrorCode × MrswHashtable
clear_table h = if not h.is_init then (k_err_shm_not_init, h) else elim h.table [
  | none ↦ (k_ok, h)
  | some tbl ↦ (k_ok, record h { table = some (Table.clear tbl) })
]
