-- ===== src/Mrsw/Serves.antt =====
-- `setValue` of shmutil/shm_mrsw_hashtable.cc on a well-formed table, with and without the elimination
-- of old keys.
use shmutil.Base.{
  ℕ, zero, suc, ◌+◌, ◌<◌, ◌^◌, ◌≡◌, ◌⊎◌, inl, inr, refl, sym, ap, ◌∙◌, Bool, true, false, List, [],
  ◌∷◌, Option, none, some, length, arith,
}
use shmutil.ErrorCode.{ErrorCode, k_ok}
use shmutil.Table.{Table}
use shmutil.Table.Lookup.{get}
use shmutil.Table.Update.{put, remove}
use shmutil.Table.View.{view}
use shmutil.Table.Remove.{IsValid}
use shmutil.Table.Removed.{SameUse-Keeps, errno-SameUse, remove-view, remove-HasFewer}
use shmutil.Table.Put.{put-view}
use shmutil.Mrsw.{
  Str, MrswHashtable, is_nil, get_value, set_value, delete_key, put_table, oldest, drop_oldest,
  eliminate, finish_set, finish_eliminate, set_within,
}
use shmutil.Lru.{SimpleLru, visit_key}
use shmutil.Lru.Order
use shmutil.Lru.Order.{keys, last, drop_last, erase, visit_key_lem}
use shmutil.Mrsw.Elimination.{nodes, after, nodes-put_table, nodes-get_value, removed-ne-nil}
use shmutil.Mrsw.Keeps.{
  drop_lasts, lasts, drop_lasts-suc, lasts-suc, dropped-keys, ret_after, eliminate_code,
  set_within_cases, put_first,
}
use shmutil.Mrsw.SetGet.{get-table, looked, looked_table, set_value-within, encode_value_str_pos}
use shmutil.Value.{encode_value_str}
use shmutil.Value.RoundTrip.{verify-encode}
use shmutil.Table.Same.{SameUse, same_tally}
use shmutil.Mrsw.Rounds.{
  table-delete_key, table-drop_oldest, table-put_table, oldest_lem, eliminate_step, Evicted,
  put-Evicted, remove-Evicted, HasRoom, fewer-HasRoom,
}

module _ (little : Bool) (murmur : Str → ℕ) (md5 : Str → Str) (dec : Discrete Str) where
  -- A handle after attempts to put a key, the last of which gave `ret`; `t₀` and `l₀` were the table
  -- and the list of keys before, and the last `dropped` keys are gone from both.
  record Served (t₀ : Table) (l₀ : List Str) (key val : Str) (h : MrswHashtable) (ret : Bool)
      : Type 0 where
    dropped : ℕ
    list : keys (nodes h) ≡ drop_lasts dropped l₀
    ordered : Order.IsValid dec h.lru
    now : Table
    table : h.table ≡ some now
    init : h.is_init ≡ true
    valid : IsValid murmur md5 now
    evicted : Evicted little murmur md5 dec t₀ now key (lasts dropped l₀)
    result :
        ((ret ≡ true) × (view murmur md5 now key ≡ some val))
        ⊎ ((ret ≡ false) × HasRoom little murmur md5 dec now key)

  module _ (t₀ : Table) (l₀ : List Str) (key val : Str) (p : 0 < length val)
      (hk : length key < 65536) (md : length (md5 key) ≡ 16) where
    put-Served :
        (h : MrswHashtable) (t : Table) (n : ℕ)
        → keys (nodes h) ≡ drop_lasts n l₀
        → Order.IsValid dec h.lru
        → h.table ≡ some t
        → h.is_init ≡ true
        → IsValid murmur md5 t
        → Evicted little murmur md5 dec t₀ t key (lasts n l₀)
        → HasRoom little murmur md5 dec t key
        → Served t₀ l₀ key val
            (put_table little murmur md5 dec h key val).1
            (put_table little murmur md5 dec h key val).0
    put-Served h t n list ordered e i v ev room =
        let (r, table', init') = table-put_table little murmur md5 dec h key val t e in
        let t' = (put murmur md5 t key val).1 in
        let ((v', m, same), result) = put-view murmur md5 key val t v p hk md room in
        let lru = nodes-put_table little murmur md5 dec h key val in
        record {
          dropped = n;
          list = ap (λ (s : SimpleLru Str). keys s.lru_mem) lru ∙ list;
          ordered = rw lru ordered;
          now = t';
          table = table';
          init = init' ∙ i;
          valid = v';
          evicted = put-Evicted little murmur md5 dec t₀ t t' key (lasts n l₀) ev same;
          result = elim result [
            | inl (done, shown) ↦ inl (r ∙ done, shown)
            | inr (failed, _, fewer) ↦
                inr (r ∙ failed, fewer-HasRoom little murmur md5 dec t t' key m fewer room)
          ];
        }

    -- a round in which the put before failed, and the oldest key was removed
    after-Served :
        (h : MrswHashtable)
        → Served t₀ l₀ key val h false
        → (delete_key little murmur md5 dec h (oldest little murmur md5 dec h)).0 ≡ k_ok
        → Served t₀ l₀ key val
            (after little murmur md5 dec h key val)
            (ret_after little murmur md5 dec h key val)
    after-Served h s ok =
        let k = oldest little murmur md5 dec h in
        let h₁ = (delete_key little murmur md5 dec h k).1 in
        let h₂ = drop_oldest little murmur md5 dec h₁ in
        let some_left = removed-ne-nil little murmur md5 dec h ok in
        let (gone, init₁) = table-delete_key little murmur md5 dec h k s.now s.table ok in
        let (table₂, init₂) = table-drop_oldest little murmur md5 dec h₁ in
        let (lru, e, ordered, l) = dropped-keys little murmur md5 dec h s.ordered some_left in
        let at : last (drop_lasts s.dropped l₀) ≡ some k =
          ap last (sym s.list) ∙ oldest_lem little murmur md5 dec h s.ordered some_left in
        let list : keys (nodes h₂) ≡ drop_lasts (suc s.dropped) l₀ =
          ap (λ (q : SimpleLru Str). keys q.lru_mem) e
          ∙ l
          ∙ ap drop_last s.list
          ∙ sym (drop_lasts-suc s.dropped l₀) in
        let room : HasRoom little murmur md5 dec s.now key = elim s.result [
          | inl (no_way, _) ↦ absurd (cc)
          | inr (_, room) ↦ room
        ] in
        let t' = (remove murmur md5 s.now k).1 in
        let (_, (v, m, _), _) = remove-view murmur md5 s.now k s.valid in
        put-Served h₂ t' (suc s.dropped) list (rw e ordered) (table₂ ∙ gone)
          (init₂ ∙ init₁ ∙ s.init) v
          (rw (lasts-suc s.dropped l₀ k at) (
            remove-Evicted little murmur md5 dec t₀ s.now key k (lasts s.dropped l₀) s.valid
              s.evicted))
          (fewer-HasRoom little murmur md5 dec s.now t' key m
            (remove-HasFewer murmur md5 s.now k s.valid) room)

    eliminate_out :
        (h : MrswHashtable) (ret : Bool) → eliminate little murmur md5 dec zero h key val ret ≡ none
    unfolding eliminate
    eliminate_out h ret = refl

    eliminate-Served :
        (rounds : ℕ) (h : MrswHashtable) (ret ret' : Bool) (h' : MrswHashtable)
        → Served t₀ l₀ key val h ret
        → eliminate little murmur md5 dec rounds h key val ret ≡ some ((ret', none), h')
        → Served t₀ l₀ key val h' ret'
    eliminate-Served zero h ret ret' h' s e = absurd (cc (eliminate_out h ret))
    eliminate-Served (suc rounds) h ret ret' h' s e =
        elim (eliminate_step little murmur md5 dec rounds h key val ret ret' h' e) [
          | inl (a, b) ↦ rw (← a, ← b) s
          | inr (failed, ok, more) ↦
              eliminate-Served rounds (after little murmur md5 dec h key val)
                (ret_after little murmur md5 dec h key val) ret' h'
                (after-Served h (rw failed at s) ok) more
        ]

    -- after the loop: the table and the list as they are there, with the key in front
    record Finished (h' : MrswHashtable) (n : ℕ) : Type 0 where
      now : Table
      table : h'.table ≡ some now
      init : h'.is_init ≡ true
      valid : IsValid murmur md5 now
      shown : view murmur md5 now key ≡ some val
      evicted : Evicted little murmur md5 dec t₀ now key (lasts n l₀)
      list : keys (nodes h') ≡ key ∷ erase dec key (drop_lasts n l₀)

    finish-cases :
        (h h' : MrswHashtable) (ret : Bool)
        → finish_set little murmur md5 dec h key ret ≡ (k_ok, h')
        → (ret ≡ true) × (record h { lru = visit_key dec h.lru key } ≡ h')
    finish-cases h h' true e = (refl, ap (λ (q : ErrorCode × MrswHashtable). q.1) e)
    finish-cases h h' false e = absurd (cc)

    finish-Finished :
        (h h' : MrswHashtable) (ret : Bool)
        → finish_set little murmur md5 dec h key ret ≡ (k_ok, h')
        → (s : Served t₀ l₀ key val h ret) → Finished h' s.dropped
    finish-Finished h h' ret e s =
        let (done, same) = finish-cases h h' ret e in
        let (_, list) = visit_key_lem dec h.lru key s.ordered in
        rw (← same) (record {
          now = s.now;
          table = s.table;
          init = s.init;
          valid = s.valid;
          shown = elim s.result [ inl (_, shown) ↦ shown | inr (no_way, _) ↦ absurd (cc) ];
          evicted = s.evicted;
          list = list ∙ ap (λ l. key ∷ erase dec key l) s.list;
        })

    finish_eliminate-Finished :
        (rounds : ℕ) (h : MrswHashtable) (ret : Bool)
        (x : (Bool × Option ErrorCode) × MrswHashtable) (h' : MrswHashtable)
        → Served t₀ l₀ key val h ret
        → eliminate little murmur md5 dec rounds h key val ret ≡ some x
        → finish_eliminate little murmur md5 dec key x ≡ (k_ok, h')
        → (n : ℕ) × Finished h' n
    finish_eliminate-Finished rounds h ret ((ret', none), h₂) h' s e f =
        let s' = eliminate-Served rounds h ret ret' h₂ s e in
        (s'.dropped, finish-Finished h₂ h' ret' f s')
    finish_eliminate-Finished rounds h ret ((ret', some code), h₂) h' s e f = absurd (
        eliminate_code little murmur md5 dec rounds h key val ret ret' code h₂ e
          (ap (λ (q : ErrorCode × MrswHashtable). q.0) f))

    -- Without elimination no key goes.
    set_within-Finished :
        (rounds : ℕ) (h : MrswHashtable) (h' : MrswHashtable)
        → (s : Served t₀ l₀ key val
            (put_first little murmur md5 dec h key val).1
            (put_first little murmur md5 dec h key val).0)
        → s.dropped ≡ 0
        → set_within little murmur md5 dec rounds h key val ≡ some (k_ok, h')
        → (n : ℕ) × Finished h' n × ((n ≡ 0) ⊎ (h.is_lru_eliminate ≡ true))
    set_within-Finished rounds h h' s z e =
        let p = put_first little murmur md5 dec h key val in
        elim (set_within_cases little murmur md5 dec rounds h key val (k_ok, h') e) [
          | inl (bad, _) ↦ absurd (bad refl)
          | inr (inl f) ↦ (s.dropped, finish-Finished p.1 h' p.0 (sym f) s, inl z)
          | inr (inr (x, on, found, f)) ↦
              let (n, done) = finish_eliminate-Finished rounds p.1 p.0 x h' s found (sym f) in
              (n, done, inr on)
        ]

  get_value-shown :
      (h : MrswHashtable) (key val old : Str) (t : Table)
      → h.table ≡ some t
      → h.is_init ≡ true
      → is_nil key ≡ false
      → view murmur md5 t key ≡ some (encode_value_str little md5 val)
      → length val < 2 ^ 32
      → ((xs : Str) → length (md5 xs) ≡ 16)
      → ((get_value little murmur md5 dec h key old).0 ≡ k_ok)
        × ((get_value little murmur md5 dec h key old).1 ≡ val)
  unfolding get_value
  get_value-shown h key val old t e i n g b m =
      ground (arith, e, i, n, g, verify-encode little md5 m val b)

  -- What `setValue` leaves: for some `n` the `n` oldest keys of the list are gone from the list and
  -- the table, and from nowhere else.
  abbrev pub IsServed : MrswHashtable → Table → Str → MrswHashtable → Type 0
  IsServed h t key h' =
      (n : ℕ) × (t' : Table) × (h'.table ≡ some t')
      × IsValid murmur md5 t'
      × Evicted little murmur md5 dec t t' key (lasts n (keys (nodes h)))
      × (keys (nodes h') ≡ key ∷ erase dec key (drop_lasts n (keys (nodes h))))
      × ((n ≡ 0) ⊎ (h.is_lru_eliminate ≡ true))

  -- Where `setValue` ends with success on an initialised handle of a well-formed table, `getValue` gives the value for the key, the table is well-formed, and what was eliminated are the `n` oldest keys of the list, for some `n` that is 0 without elimination: for every other key of at most 96 bytes the table shows nothing where it is one of these, and what it did where it is not, and the list is the key before the old list without these. The list is valid before, the key is not empty and below 65536 bytes, the value below 2 ^ 32 bytes, digests have 16 bytes, and less than 32767 entries have the key's hash.
  pub set_value_serves :
      (h : MrswHashtable) (key val old : Str) (t : Table) (h' : MrswHashtable)
      → Order.IsValid dec h.lru
      → h.table ≡ some t
      → h.is_init ≡ true
      → IsValid murmur md5 t
      → is_nil key ≡ false
      → length key < 65536
      → length val < 2 ^ 32
      → ((xs : Str) → length (md5 xs) ≡ 16)
      → HasRoom little murmur md5 dec t key
      → set_value little murmur md5 dec h key val ≡ some (k_ok, h')
      → ((get_value little murmur md5 dec h' key old).0 ≡ k_ok)
        × ((get_value little murmur md5 dec h' key old).1 ≡ val)
        × IsServed h t key h'
  unfolding put-Served
  set_value_serves h key val old t h' ordered e i v n b w m room s =
      let t₁ = (get murmur md5 t key).1 in
      let l₀ = keys (nodes h) in
      let enc = encode_value_str little md5 val in
      let (slots, max) = get-table little murmur md5 dec t key in
      let (table, init, keep) = looked_table little murmur md5 dec h key t e i n in
      let within = set_value-within little murmur md5 dec h key val h' s in
      let alike_use : SameUse t t₁ =
        errno-SameUse murmur md5 t t₁ (max, λ j. ap (λ f. f j) slots) in
      let ((v₁, _, same), same_key) = SameUse-Keeps murmur md5 t t₁ key v alike_use in
      let room₁ =
        fewer-HasRoom little murmur md5 dec t t₁ key max
          (λ x. omega (arith, same_tally t t₁ alike_use x)) room in
      let p = encode_value_str_pos little murmur md5 dec val in
      let g = looked little murmur md5 dec h key in
      let lru = nodes-get_value little murmur md5 dec h key [] in
      let first =
        put-Served t l₀ key enc p b (m key) g t₁ 0 (ap (λ (q : SimpleLru Str). keys q.lru_mem) lru)
          (rw lru ordered) table init v₁ (λ k hk d. same k d) room₁ in
      let (dropped, done, on) =
        set_within-Finished t l₀ key enc p b (m key) (length g.lru.lru_mem + 2) g h' first refl
          within in
      let (code, value) =
        get_value-shown h' key val old done.now done.table done.init n done.shown w m in
      (
        code,
        value,
        (
          dropped,
          done.now,
          done.table,
          done.valid,
          done.evicted,
          done.list,
          elim on [ inl z ↦ inl z | inr yes_on ↦ inr (sym keep ∙ yes_on) ],
        ),
      )
