-- ===== src/Mrsw/Rounds.antt =====
-- The rounds of the loop in `__setValue` of shmutil/shm_mrsw_hashtable.cc, and what they take from a
-- well-formed table.
use shmutil.Base.{
  ℕ, suc, ◌%◌, ◌≤◌, ◌<◌, ◌^◌, ◌≡◌, ◌≢◌, ◌⊎◌, inl, inr, sym, ap, ◌∙◌, Bool, Bool-cases, true, false,
  ◌||◌, List, [], ◌∷◌, none, some, if◌then◌else◌, length, arith,
}
use shmutil.Table.{Table}
use shmutil.Table.Lookup.{hash_of}
use shmutil.Table.Update.{put, remove}
use shmutil.Table.Tally.{tally}
use shmutil.Table.Find.{entries}
use shmutil.Table.View.{view, alike, alike_sym, short_alike}
use shmutil.Table.Remove.{IsValid, HasFewer}
use shmutil.Table.Removed.{remove-view}
use shmutil.ErrorCode.{k_ok}
use shmutil.Value.{same_bytes}
use shmutil.Value.RoundTrip.{same_bytes_refl, same_bytes-eq}
use shmutil.Lru.{get_remove_key}
use shmutil.Lru.Order
use shmutil.Lru.Order.{keys, last, remove_key_lem}
use shmutil.Mrsw.{Str, MrswHashtable, delete_key, put_table, oldest, drop_oldest, eliminate}
use shmutil.Mrsw.Elimination.{after, nodes}
use shmutil.Mrsw.Keeps.{ret_after}

-- whether a key is one of the list
abbrev pub among : Str → List Str → Bool
among k [] = false
among k (x ∷ l) = same_bytes x k || among k l

module _ (little : Bool) (murmur : Str → ℕ) (md5 : Str → Str) (dec : Discrete Str) where
  -- A `deleteKey` that ends well has removed the key.
  pub table-delete_key :
      (h : MrswHashtable) (k : Str) (t : Table)
      → h.table ≡ some t
      → (delete_key little murmur md5 dec h k).0 ≡ k_ok
      → ((delete_key little murmur md5 dec h k).1.table ≡ some (remove murmur md5 t k).1)
        × ((delete_key little murmur md5 dec h k).1.is_init ≡ h.is_init)
  unfolding delete_key
  table-delete_key h k t e ok = ground (arith, e)

  oldest-last :
      (h : MrswHashtable) (k : Str)
      → get_remove_key dec h.lru ≡ some k
      → oldest little murmur md5 dec h ≡ k
  unfolding oldest
  oldest-last h k e = ground (arith, e)

  -- The key that goes is the last one of the list.
  pub oldest_lem :
      (h : MrswHashtable)
      → Order.IsValid dec h.lru
      → nodes h ≢ []
      → last (keys (nodes h)) ≡ some (oldest little murmur md5 dec h)
  oldest_lem h v n =
      let (e, cases) = remove_key_lem dec h.lru v in
      elim cases [
        | inl (empty, _) ↦ absurd (n empty)
        | inr (s, k, _, at, _, _) ↦ at ∙ ap some (sym (oldest-last h k (e ∙ at)))
      ]

  pub table-drop_oldest :
      (h : MrswHashtable)
      → ((drop_oldest little murmur md5 dec h).table ≡ h.table)
        × ((drop_oldest little murmur md5 dec h).is_init ≡ h.is_init)
  unfolding drop_oldest
  table-drop_oldest h = ground arith

  pub table-put_table :
      (h : MrswHashtable) (key val : Str) (t : Table)
      → h.table ≡ some t
      → ((put_table little murmur md5 dec h key val).0 ≡ (put murmur md5 t key val).0)
        × ((put_table little murmur md5 dec h key val).1.table ≡ some (put murmur md5 t key val).1)
        × ((put_table little murmur md5 dec h key val).1.is_init ≡ h.is_init)
  unfolding put_table
  table-put_table h key val t e = ground (arith, e)

  -- what the loop does in a round
  pub eliminate_step :
      (rounds : ℕ) (h : MrswHashtable) (key val : Str) (ret ret' : Bool) (h' : MrswHashtable)
      → eliminate little murmur md5 dec (suc rounds) h key val ret ≡ some ((ret', none), h')
      → ((ret ≡ ret') × (h ≡ h'))
        ⊎ ((ret ≡ false)
            × ((delete_key little murmur md5 dec h (oldest little murmur md5 dec h)).0 ≡ k_ok)
            × (eliminate little murmur md5 dec rounds
                  (after little murmur md5 dec h key val)
                  key
                  val
                  (ret_after little murmur md5 dec h key val)
                ≡ some ((ret', none), h')))
  unfolding eliminate
  eliminate_step rounds h key val ret ret' h' e = ground arith

  -- For other keys of at most 96 bytes the table shows nothing where they are among `gone`, and
  -- what it did where they are not.
  abbrev pub Evicted : Table → Table → Str → List Str → Type 0
  Evicted t t' key gone =
      (k : Str)
      → length k ≤ 96
      → alike murmur md5 key k ≡ false
      → view murmur md5 t' k ≡ (if among k gone then none else view murmur md5 t k)

  pub put-Evicted :
      (t t' t'' : Table) (key : Str) (gone : List Str)
      → Evicted t t' key gone
      → ((k : Str) → alike murmur md5 key k ≡ false → view murmur md5 t'' k ≡ view murmur md5 t' k)
      → Evicted t t'' key gone
  put-Evicted t t' t'' key gone e same k h n = same k n ∙ e k h n

  alike_refl : (k : Str) → length k ≤ 96 → alike murmur md5 k k ≡ true
  alike_refl k h = ground (arith, same_bytes_refl k)

  pub remove-Evicted :
      (t t' : Table) (key k : Str) (gone : List Str)
      → IsValid murmur md5 t'
      → Evicted t t' key gone
      → Evicted t (remove murmur md5 t' k).1 key (k ∷ gone)
  remove-Evicted t t' key k gone v e x h n =
      let (_, (_, _, same), away) = remove-view murmur md5 t' k v in
      elim (Bool-cases (same_bytes k x)) [
        | inl is ↦
            let k-x : k ≡ x = same_bytes-eq k x is in
            rw is (ap (view murmur md5 (remove murmur md5 t' k).1) (sym k-x) ∙ away)
        | inr other ↦ elim (Bool-cases (alike murmur md5 k x)) [
          | inl like ↦
              let x-k : x ≡ k = short_alike murmur md5 x k h (alike_sym murmur md5 k x like) in
              absurd (cc (ap (λ y. same_bytes y x) x-k ∙ other, same_bytes_refl x))
          | inr differs ↦ rw other (same x differs ∙ e x h n)
        ]
      ]

  -- less than 32767 entries have the key's hash
  abbrev pub HasRoom : Table → Str → Type 0
  HasRoom t key = suc (tally (entries t (hash_of murmur md5 t key)) t.maxslots) < 2 ^ 15

  pub fewer-HasRoom :
      (t t' : Table) (key : Str)
      → t'.maxslots ≡ t.maxslots
      → HasFewer murmur md5 t t'
      → HasRoom t key
      → HasRoom t' key
  fewer-HasRoom t t' key m fewer room =
      let e : hash_of murmur md5 t' key ≡ hash_of murmur md5 t key = ap (λ n. murmur key % n) m in
      rw e (omega (arith, fewer (hash_of murmur md5 t key), room))
