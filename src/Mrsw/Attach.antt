-- ===== src/Mrsw/Attach.antt =====
-- The constructor of `MrswHashtable`, `init`, `getShm` and `initLruMem` of
-- shmutil/shm_mrsw_hashtable.cc. System V shared memory is a parameter.
use shmutil.Base.{
  ℕ, zero, suc, ◌+◌, Bool, true, false, not, [], Option, none, some, ltb, if◌then◌else◌,
}
use shmutil.ErrorCode.{
  ErrorCode, k_ok, k_err_lru_init, k_err_shm_at, k_err_shm_get, k_err_shm_init,
  k_err_traverse_table_end,
}
use shmutil.Table.{Table, calculate_memsize, qhasharr}
use shmutil.Lru.{SimpleLru, new_simple_lru, visit_key}
use shmutil.MsgQueue.Attach.{Created, created, eexist, failed}
use shmutil.Mrsw.{Str, MrswHashtable, is_nil, get_next_kv_pair}

-- `shmget` for a new segment and for one that is there, and `shmat`, which shows the table that the
-- memory of the segment makes.
pub record TableIpc : Type 0 where
  pub shmget_new : ℕ → ℕ → Created
  pub shmget_old : ℕ → Option ℕ
  pub shmat : ℕ → Option Table

-- `MrswHashtable::MrswHashtable`
unfoldable pub new_mrsw_hashtable : MrswHashtable
new_mrsw_hashtable = record {
  table = none;
  lru = new_simple_lru;
  is_lru_eliminate = true;
  is_init = false;
}

module _ (little : Bool) (murmur : Str → ℕ) (md5 : Str → Str) (dec : Discrete Str) where
  -- The loop of `initLruMem` over at most `rounds` steps; `none` where they are not enough.
  unfoldable pub init_lru_from :
      ℕ → Table → SimpleLru Str → Str → Str → ℕ → Option (ErrorCode × SimpleLru Str)
  init_lru_from zero tbl lru key val idx = none
  init_lru_from (suc rounds) tbl lru key val idx =
      let p = get_next_kv_pair little murmur md5 dec (some tbl) key val idx in
      let lru' : SimpleLru Str = if is_nil p.key then lru else visit_key dec lru p.key in
      let rest = init_lru_from rounds tbl lru' p.key p.val p.idx in
      if not (ltb idx tbl.maxslots) then some (k_ok, lru) else elim p.code [
        | k_ok ↦ rest
        | k_err_traverse_table_end ↦ some (k_ok, lru)
        | _ ↦ some (k_err_lru_init, lru)
      ]

  unfoldable pub init_lru_mem : Table → SimpleLru Str → Option (ErrorCode × SimpleLru Str)
  init_lru_mem tbl lru = init_lru_from (tbl.maxslots + 1) tbl lru [] [] 0

  abbrev pub finish_lru : MrswHashtable → ErrorCode × SimpleLru Str → ErrorCode × MrswHashtable
  finish_lru h (k_ok, lru) = (k_ok, record h { lru = lru; is_init = true })
  finish_lru h (code, lru) = (code, record h { lru = lru })

  unfoldable pub get_shm : TableIpc → MrswHashtable → ℕ → Bool → Option (ErrorCode × MrswHashtable)
  get_shm ipc h shmkey is_lru_eliminate = elim (ipc.shmget_old shmkey) [
    | none ↦ some (k_err_shm_get, h)
    | some id ↦ elim (ipc.shmat id) [
      | none ↦ some (k_err_shm_at, record h { table = none })
      | some tbl ↦
          let h' : MrswHashtable = record h {
            table = some tbl;
            is_lru_eliminate = is_lru_eliminate;
          } in
          if is_lru_eliminate
          then elim (init_lru_mem tbl h.lru) [ none ↦ none | some r ↦ some (finish_lru h' r) ]
          else some (k_ok, record h' { is_init = true })
    ]
  ]

  unfoldable pub init : TableIpc → MrswHashtable → ℕ → ℕ → Bool → Option (ErrorCode × MrswHashtable)
  init ipc h shmkey max_slot_num is_lru_eliminate =
      let mem_size = calculate_memsize max_slot_num in
      elim (ipc.shmget_new shmkey mem_size) [
        | eexist ↦ get_shm ipc h shmkey is_lru_eliminate
        | failed ↦ some (k_err_shm_get, h)
        | created id ↦ elim (ipc.shmat id) [
          | none ↦ some (k_err_shm_at, h)
          | some memory ↦ elim (qhasharr mem_size memory.errno) [
            | none ↦ some (k_err_shm_init, record h { table = none })
            | some tbl ↦ some (
              k_ok,
              record h { table = some tbl; is_lru_eliminate = is_lru_eliminate; is_init = true },
            )
          ]
        ]
      ]
