-- ===== src/Table/Runs.antt =====
-- The table of shmutil/qhasharr.c is a map: runs of `qhasharr_put` and `qhasharr_remove`, and what
-- `qhasharr_get` gives afterwards.
use shmutil.Base.{
  ℕ, suc, ◌≤◌, ◌<◌, ◌^◌, ◌≡◌, inl, inr, refl, sym, ap, ◌∙◌, Bool-cases, true, false, List, [], ◌∷◌,
  Option, none, some, if◌then◌else◌, length, arith,
}
use shmutil.Value.{same_bytes}
use shmutil.Value.RoundTrip.{same_bytes_refl, same_bytes-eq}
use shmutil.Table.{Table}
use shmutil.Table.Lookup.{hash_of}
use shmutil.Table.Update.{put, remove}
use shmutil.Table.Tally.{tally_le}
use shmutil.Table.Find.{entries}
use shmutil.Table.View.{view, alike, short_alike}
use shmutil.Table.Remove.{IsValid}
use shmutil.Table.Removed.{remove-view}
use shmutil.Table.Put.{put-view}

some_same : (t t' : Table) → some t ≡ some t' → t ≡ t'
some_same t t' e = cc

-- a call that changes the table
pub data Call : Type 0 where
  put_call : List ℕ → List ℕ → Call
  remove_call : List ℕ → Call

-- the map that the table stands for, and what a call makes of it
abbrev pub Contents : Type 0
Contents = List ℕ → Option (List ℕ)

abbrev pub updated : Contents → List ℕ → Option (List ℕ) → Contents
updated m key v k = if same_bytes key k then v else m k

abbrev pub expected : Contents → List Call → Contents
expected m [] = m
expected m (put_call key value ∷ calls) = expected (updated m key (some value)) calls
expected m (remove_call key ∷ calls) = expected (updated m key none) calls

-- Keys of at most 96 bytes and values that are not empty.
abbrev pub IsFit : List Call → Type 0
IsFit [] = Unit
IsFit (put_call key value ∷ calls) = (length key ≤ 96) × (0 < length value) × IsFit calls
IsFit (remove_call key ∷ calls) = (length key ≤ 96) × IsFit calls

module _ (murmur : List ℕ → ℕ) (md5 : List ℕ → List ℕ) where
  -- the calls in order, up to a `qhasharr_put` that fails
  unfoldable pub run_calls : Table → List Call → Option Table
  run_calls t [] = some t
  run_calls t (put_call key value ∷ calls) =
      let (done, t') = put murmur md5 t key value in
      let rest = run_calls t' calls in if done then rest else none
  run_calls t (remove_call key ∷ calls) = run_calls (remove murmur md5 t key).1 calls

  -- the table shows what the map holds, for keys of at most 96 bytes
  abbrev pub IsShown : Table → Contents → Type 0
  IsShown t m = (key : List ℕ) → length key ≤ 96 → view murmur md5 t key ≡ m key

  -- One call that concerns one key.
  updated-IsShown :
      (t t' : Table) (m : Contents) (key : List ℕ) (v : Option (List ℕ))
      → length key ≤ 96
      → IsShown t m
      → ((k : List ℕ) → alike murmur md5 key k ≡ false → view murmur md5 t' k ≡ view murmur md5 t k)
      → view murmur md5 t' key ≡ v
      → IsShown t' (updated m key v)
  updated-IsShown t t' m key v h shown same new k hk = elim (Bool-cases (same_bytes key k)) [
    | inl e ↦
        let key_k : key ≡ k = same_bytes-eq key k e in
        rw e (ap (view murmur md5 t') (sym key_k) ∙ new)
    | inr n ↦ elim (Bool-cases (alike murmur md5 key k)) [
      | inl like ↦
          let e = ap (same_bytes key) (short_alike murmur md5 key k h like) in
          absurd (cc (same_bytes_refl key))
      | inr other ↦ rw n (same k other ∙ shown k hk)
    ]
  ]

  run_put :
      (t : Table) (key value : List ℕ) (calls : List Call) (t' : Table)
      → run_calls t (put_call key value ∷ calls) ≡ some t'
      → ((put murmur md5 t key value).0 ≡ true)
        × (run_calls (put murmur md5 t key value).1 calls ≡ some t')
  unfolding run_calls
  run_put t key value calls t' e = ground (arith, e)

  run_remove :
      (t : Table) (key : List ℕ) (calls : List Call)
      → run_calls t (remove_call key ∷ calls) ≡ run_calls (remove murmur md5 t key).1 calls
  unfolding run_calls
  run_remove t key calls = refl

  run_nil : (t : Table) → run_calls t [] ≡ some t
  unfolding run_calls
  run_nil t = refl

  -- A run of `qhasharr_put` and `qhasharr_remove` on a well-formed table, in which every `qhasharr_put` gives true, leaves a well-formed table, and for each key `qhasharr_get` gives what a map holds after the same calls. Keys have at most 96 bytes, values are not empty, digests have 16 bytes, and the table has less than 32767 slots.
  pub run_calls-IsShown :
      (calls : List Call) (t : Table) (m : Contents) (t' : Table)
      → ((key : List ℕ) → length (md5 key) ≡ 16)
      → IsFit calls
      → suc t.maxslots < 2 ^ 15
      → IsValid murmur md5 t
      → IsShown t m
      → run_calls t calls ≡ some t'
      → IsValid murmur md5 t' × IsShown t' (expected m calls)
  run_calls-IsShown [] t m t' md fit few v shown e =
      let same : t ≡ t' = some_same t t' (sym (run_nil t) ∙ e) in rw (← same) (v, shown)
  run_calls-IsShown (put_call key value ∷ calls) t m t' md (h, p, fit) few v shown e =
      let (done, rest) = run_put t key value calls t' e in
      let t₁ = (put murmur md5 t key value).1 in
      let bound = tally_le (entries t (hash_of murmur md5 t key)) t.maxslots in
      let ((v₁, size, same), result) =
        put-view murmur md5 key value t v p (omega (arith, h)) (md key)
          (omega (arith, bound, few)) in
      elim result [
        | inr (failed, _, _) ↦ absurd (cc)
        | inl (_, new) ↦
            run_calls-IsShown calls t₁ (updated m key (some value)) t' md fit
              (omega (arith, few, size)) v₁
              (updated-IsShown t t₁ m key (some value) h shown same new) rest
      ]
  run_calls-IsShown (remove_call key ∷ calls) t m t' md (h, fit) few v shown e =
      let t₁ = (remove murmur md5 t key).1 in
      let (_, (v₁, size, same), new) = remove-view murmur md5 t key v in
      run_calls-IsShown calls t₁ (updated m key none) t' md fit (omega (arith, few, size)) v₁
        (updated-IsShown t t₁ m key none h shown same new) (sym (run_remove t key calls) ∙ e)
