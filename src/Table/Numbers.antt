-- ===== src/Table/Numbers.antt =====
-- `qhasharr_getstr`, `qhasharr_putint` and `qhasharr_getint` of shmutil/qhasharr.c. An int64_t is its bit
-- pattern; `print_int` is what snprintf writes for "%"PRId64, and `atoll` reads the characters up to NUL.
use shmutil.Base.{
  ℕ, zero, suc, ◌≤◌, ◌<◌, ◌^◌, ◌≡◌, refl, ◌∙◌, inl, inr, Bool, true, List, [], ◌∷◌, ◌++◌, Option,
  none, some, length, length-append, take, arith,
}
use shmutil.Table.{Table}
use shmutil.Table.Lookup.{get, hash_of}
use shmutil.Table.Update.{put, putstr}
use shmutil.Table.Tally.{tally}
use shmutil.Table.Find.{entries}
use shmutil.Table.View.{view}
use shmutil.Table.Remove.{IsValid}
use shmutil.Table.Put.{put-view}
use shmutil.Table.Counters.{IsCounting}
use shmutil.Table.Succeeds.{put-true}

-- the characters that fit into the buffer beside the NUL
abbrev pub str_size : ℕ
str_size = 20

module _ (murmur : List ℕ → ℕ) (md5 : List ℕ → List ℕ) (print_int : ℕ → List ℕ)
    (atoll : List ℕ → ℕ) where
  unfoldable pub getstr : Table → List ℕ → Option (List ℕ) × Table
  getstr t key = get murmur md5 t key

  -- The key is its characters, as for `qhasharr_putstr`.
  unfoldable pub putint : Table → List ℕ → ℕ → Bool × Table
  putint t key num = putstr murmur md5 t key (some (take str_size (print_int num)))

  unfoldable pub getint : Table → List ℕ → ℕ × Table
  getint t key =
      let (str, t') = getstr t key in elim str [ none ↦ (0, t') | some s ↦ (atoll s, t') ]

  getint-some :
      (t : Table) (key s : List ℕ) → view murmur md5 t key ≡ some s → (getint t key).0 ≡ atoll s
  unfolding getint getstr
  getint-some t key s e = ground (arith, e)

  putint-put :
      (t : Table) (key : List ℕ) (num : ℕ)
      → putint t key num
        ≡ put murmur md5 t (key ++ (0 ∷ [])) (take str_size (print_int num) ++ (0 ∷ []))
  unfolding putint putstr
  putint-put t key num = refl

  ends_pos : (l : List ℕ) → 0 < length (l ++ (0 ∷ []))
  ends_pos [] = omega arith
  ends_pos (x ∷ xs) = omega arith

  length-take-le : (n : ℕ) (l : List ℕ) → length (take n l) ≤ n
  length-take-le zero l = omega arith
  length-take-le (suc n) [] = omega arith
  length-take-le (suc n) (x ∷ l) = omega (arith, length-take-le n l)

  -- Where a slot of a well-formed table with right counters is empty, `qhasharr_putint` gives true, and then `qhasharr_getint` gives the number for the key with its NUL. The key with its NUL is below 65536 bytes long, its digest has 16 bytes, less than 32767 entries have its hash, and what snprintf writes for the number, atoll reads as the number.
  pub getint-putint :
      (t : Table) (key : List ℕ) (num : ℕ)
      → IsValid murmur md5 t
      → IsCounting t 0 0
      → t.usedslots < t.maxslots
      → length (key ++ (0 ∷ [])) < 65536
      → length (md5 (key ++ (0 ∷ []))) ≡ 16
      → suc (tally (entries t (hash_of murmur md5 t (key ++ (0 ∷ [])))) t.maxslots) < 2 ^ 15
      → atoll (take str_size (print_int num) ++ (0 ∷ [])) ≡ num
      → ((putint t key num).0 ≡ true) × ((getint (putint t key num).1 (key ++ (0 ∷ []))).0 ≡ num)
  getint-putint t key num v n room h md few reads =
      let text = take str_size (print_int num) ++ (0 ∷ []) in
      let key' = key ++ (0 ∷ []) in
      let p = ends_pos (take str_size (print_int num)) in
      let short : length text ≤ 128 = omega (
        arith,
        length-append (take str_size (print_int num)) (0 ∷ []),
        length-take-le str_size (print_int num),
      ) in
      let done = put-true murmur md5 key' text p h md t v n (room, omega (arith, short)) in
      rw (putint-put t key num) (elim (put-view murmur md5 key' text t v p h md few).1 [
        | inl (_, shown) ↦
            (done, getint-some (put murmur md5 t key' text).1 key' text shown ∙ reads)
        | inr (failed, _, _) ↦ absurd (cc)
      ])
