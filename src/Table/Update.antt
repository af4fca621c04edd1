-- ===== src/Table/Update.antt =====
-- `qhasharr_remove` and `qhasharr_put` of shmutil/qhasharr.c.
use shmutil.Base.{
  ℕ, zero, suc, ◌+◌, ◌-◌, ◌%◌, ◌^◌, Bool, true, false, not, ◌&&◌, ◌||◌, List, [], ◌∷◌, ◌++◌, Option,
  none, some, ltb, leb, ◌==◌, if◌then◌else◌,
}
use shmutil.Atomic.{minus_one}
use shmutil.Table.{
  Table, collision, extended, is_leading, efault, enoent, enobufs, einval, set_slot, set_errno,
  find_empty, copy_slot, remove_slot, remove_data,
}
use shmutil.Table.Lookup.{get_idx, hash_of}
use shmutil.Table.Store.{put_data}

-- count + 1 and count - 1 of a short
abbrev pub incr16 : ℕ → ℕ
incr16 n = (n + 1) % 2 ^ 16

abbrev pub decr16 : ℕ → ℕ
decr16 n = (n + 2 ^ 16 - 1) % 2 ^ 16

abbrev pub set_count : ℕ → ℕ → Table → Table
set_count i c t = set_slot t i (record (t.slots i) { count = c })

abbrev pub set_hash : ℕ → ℕ → Table → Table
set_hash i h t = set_slot t i (record (t.slots i) { hash = h })

abbrev pub set_link : ℕ → ℕ → Table → Table
set_link i l t = set_slot t i (record (t.slots i) { link = l })

-- The loop that looks for another entry with the hash: `none` where it is back at `idx`.
unfoldable pub find_dup : Table → ℕ → ℕ → ℕ → ℕ → Option ℕ
find_dup t hash idx zero idx2 = none
find_dup t hash idx (suc rounds) idx2 =
    let at : ℕ = if leb t.maxslots idx2 then 0 else idx2 in
    let rest = find_dup t hash idx rounds (at + 1) in
    if at == idx
    then none
    else if (t.slots at).count == collision && (t.slots at).hash == hash
    then some at
    else rest

-- the slot at `idx2` moves to the leading slot `idx`, whose own entry goes
unfoldable pub move_to_lead : Table → ℕ → ℕ → Table
move_to_lead t idx idx2 =
    let backupcount = (t.slots idx).count in
    let t₁ = (remove_data t idx).1 in
    let t₂ = (copy_slot t₁ idx idx2).1 in
    let t₃ = (remove_slot t₂ idx2).1 in
    let t₄ = set_count idx (decr16 backupcount) t₃ in
    if (t₄.slots idx).link == minus_one then t₄ else set_hash (t₄.slots idx).link idx t₄

-- `qhasharr_remove` from the test of the slot on
unfoldable pub remove_at : Table → ℕ → ℕ → Bool × Table
remove_at t hash idx =
    let count = (t.slots idx).count in
    let lead = (t.slots idx).hash in
    if count == 1
    then (true, (remove_data t idx).1)
    else if is_leading count
    then elim (find_dup t hash idx (t.maxslots + 1) (idx + 1)) [
      | none ↦ (false, set_errno efault t)
      | some idx2 ↦ (true, move_to_lead t idx idx2)
    ]
    else if count == collision
    then if not (is_leading (t.slots lead).count) || (t.slots lead).count == 1
      then (false, set_errno efault t)
      else (true, (remove_data (set_count lead (decr16 (t.slots lead).count) t) idx).1)
    else (false, set_errno enoent t)

-- The slot at `hash`, which belongs to another chain, moves to the empty slot `idx`.
unfoldable pub move_away : Table → ℕ → ℕ → Table
move_away t hash idx =
    let t₁ = (copy_slot t idx hash).1 in
    let t₂ = (remove_slot t₁ hash).1 in
    let s = t₂.slots idx in
    if s.count == extended
    then (let t₃ = set_link s.hash idx t₂ in
        let link = (t₃.slots idx).link in if link == minus_one then t₃ else set_hash link idx t₃)
    else if s.count == collision
    then (if s.link == minus_one then t₂ else set_hash s.link idx t₂)
    else t₂

module _ (murmur : List ℕ → ℕ) (md5 : List ℕ → List ℕ) where
  unfoldable pub remove : Table → List ℕ → Bool × Table
  remove t key =
      if t.maxslots == 0
      then (false, t)
      else elim (get_idx murmur md5 t key (hash_of murmur md5 t key)) [
        | none ↦ (false, set_errno enoent t)
        | some idx ↦ remove_at t (hash_of murmur md5 t key) idx
      ]

  -- `qhasharr_put` where the key is new and slot `hash` leads the entries of its hash
  unfoldable pub put_collision : Table → ℕ → List ℕ → List ℕ → Bool × Table
  put_collision t hash key value = elim (find_empty t hash) [
    | none ↦ (false, set_errno enobufs t)
    | some idx ↦
        let (done, t') = put_data md5 t idx hash key value collision in
        if done then (true, set_count hash (incr16 (t'.slots hash).count) t') else (false, t')
  ]

  -- `qhasharr_put` where slot `hash` holds a part of another chain
  unfoldable pub put_moving : Table → ℕ → List ℕ → List ℕ → Bool × Table
  put_moving t hash key value = elim (find_empty t (hash + 1)) [
    | none ↦ (false, set_errno enobufs t)
    | some idx ↦ put_data md5 (move_away t hash idx) hash hash key value 1
  ]

  -- `qhasharr_put` calls itself after it removed an old entry of the key; `depth` bounds these calls.
  unfoldable pub put_within : ℕ → Table → List ℕ → List ℕ → Bool × Table
  put_within zero t key value = (false, t)
  put_within (suc depth) t key value =
      let hash = hash_of murmur md5 t key in
      let removed = remove t key in
      let again = put_within depth removed.1 key value in
      if t.maxslots == 0
      then (false, t)
      else if leb t.maxslots t.usedslots && ltb t.usedslots (2 ^ 31)
      then (false, set_errno enobufs t)
      else if (t.slots hash).count == 0
      then put_data md5 t hash hash key value 1
      else if is_leading (t.slots hash).count
      then elim (get_idx murmur md5 t key hash) [
        | none ↦ put_collision t hash key value
        | some idx ↦ if removed.0 then again else (false, removed.1)
      ]
      else put_moving t hash key value

  -- Each such call has one entry less in the table, so that `maxslots + 1` of them are enough.
  unfoldable pub put : Table → List ℕ → List ℕ → Bool × Table
  put t key value = put_within (t.maxslots + 1) t key value

  -- `qhasharr_putstr`, with a string as its characters before the NUL
  unfoldable pub putstr : Table → List ℕ → Option (List ℕ) → Bool × Table
  putstr t key none = (false, set_errno einval t)
  putstr t key (some str) = put t (key ++ (0 ∷ [])) (str ++ (0 ∷ []))
