-- ===== src/Mrsw/Keeps.antt =====
-- What `setValue` does to the list of recently used keys.
use shmutil.Base.{
  ℕ, zero, suc, ◌+◌, ◌≡◌, ◌≢◌, ◌⊎◌, inl, inr, refl, sym, ap, ◌∙◌, Bool, true, false, List, [], ◌∷◌,
  Option, none, some, Option-cases, length, arith,
}
use shmutil.ErrorCode.{ErrorCode, k_ok}
use shmutil.Value.{encode_value_str}
use shmutil.Lru.Order.{keys, last, drop_last, erase, IsValid, visit_key_lem, remove_key_lem}
use shmutil.Lru.{SimpleLru, remove_key}
use shmutil.Mrsw.{
  Str, MrswHashtable, get_value, delete_key, put_table, oldest, drop_oldest, eliminate, set_within,
  set_value, finish_set, finish_eliminate,
}
use shmutil.Mrsw.Elimination.{
  nodes, after, nodes-delete_key, nodes-put_table, nodes-get_value, removed-ne-nil,
}

-- the list without its last `n` keys, and these keys
abbrev pub drop_lasts : ℕ → List Str → List Str
drop_lasts zero l = l
drop_lasts (suc n) l = drop_lasts n (drop_last l)

abbrev pub lasts : ℕ → List Str → List Str
lasts zero l = []
lasts (suc n) l = elim (last (drop_lasts n l)) [ none ↦ lasts n l | some k ↦ k ∷ lasts n l ]

pub drop_lasts-suc : (n : ℕ) (l : List Str) → drop_lasts (suc n) l ≡ drop_last (drop_lasts n l)
drop_lasts-suc zero l = refl
drop_lasts-suc (suc n) l = drop_lasts-suc n (drop_last l)

pub lasts-suc :
    (n : ℕ) (l : List Str) (k : Str)
    → last (drop_lasts n l) ≡ some k
    → lasts (suc n) l ≡ k ∷ lasts n l
lasts-suc n l k e = rw (e, lasts) refl

module _ (little : Bool) (murmur : Str → ℕ) (md5 : Str → Str) (dec : Discrete Str) where
  -- one round: the loop ends with the same list, or goes on without the oldest key
  abbrev pub ret_after : MrswHashtable → Str → Str → Bool
  ret_after h key val =
      (put_table little murmur md5 dec
        (drop_oldest little murmur md5 dec
          (delete_key little murmur md5 dec h (oldest little murmur md5 dec h)).1)
        key val).0

  eliminate_round :
      (rounds : ℕ) (h : MrswHashtable) (key val : Str) (ret : Bool)
      (r : (Bool × Option ErrorCode) × MrswHashtable)
      → eliminate little murmur md5 dec (suc rounds) h key val ret ≡ some r
      → (r.1.lru ≡ h.lru)
        ⊎ ((nodes h ≢ [])
            × (eliminate little murmur md5 dec rounds
                  (after little murmur md5 dec h key val)
                  key
                  val
                  (ret_after h key val)
                ≡ some r))
  unfolding eliminate
  eliminate_round rounds h key val ret r e = ground (
    arith,
    removed-ne-nil little murmur md5 dec h,
    nodes-delete_key little murmur md5 dec h (oldest little murmur md5 dec h),
  )

  drop_oldest_lru :
      (h : MrswHashtable) (s : SimpleLru Str) (k : Str)
      → remove_key dec h.lru ≡ some (s, k)
      → (drop_oldest little murmur md5 dec h).lru ≡ s
  unfolding drop_oldest
  drop_oldest_lru h s k e = ground arith

  -- the list after the oldest key went
  pub dropped-keys :
      (h : MrswHashtable)
      → IsValid dec h.lru
      → nodes h ≢ []
      → (s : SimpleLru Str) × ((drop_oldest little murmur md5 dec
            (delete_key little murmur md5 dec h (oldest little murmur md5 dec h)).1).lru
          ≡ s)
        × IsValid dec s
        × (keys s.lru_mem ≡ drop_last (keys (nodes h)))
  dropped-keys h v n = elim ((remove_key_lem dec h.lru v).1) [
    | inl (e, _) ↦ absurd (n e)
    | inr (s, k, e, _, valid, l) ↦
        let h₁ = (delete_key little murmur md5 dec h (oldest little murmur md5 dec h)).1 in
        (
          s,
          drop_oldest_lru h₁ s k
              (rw (nodes-delete_key little murmur md5 dec h (oldest little murmur md5 dec h)) e),
          valid,
          l,
        )
  ]

  after-keys :
      (h : MrswHashtable) (key val : Str)
      → IsValid dec h.lru
      → nodes h ≢ []
      → (s : SimpleLru Str) × ((after little murmur md5 dec h key val).lru ≡ s)
        × IsValid dec s
        × (keys s.lru_mem ≡ drop_last (keys (nodes h)))
  after-keys h key val v n =
      let (s, e, valid, l) = dropped-keys h v n in
      let h₁ = (delete_key little murmur md5 dec h (oldest little murmur md5 dec h)).1 in
      (
        s,
        nodes-put_table little murmur md5 dec (drop_oldest little murmur md5 dec h₁) key val ∙ e,
        valid,
        l,
      )

  -- What the loop does to the list of keys: some of the oldest go, the others stay in their order.
  abbrev EliminateKeeps : MrswHashtable → MrswHashtable → Type 0
  EliminateKeeps h h' =
      IsValid dec h'.lru × ((n : ℕ) × (keys (nodes h') ≡ drop_lasts n (keys (nodes h))))

  eliminate_keeps :
      (rounds : ℕ) (h : MrswHashtable) (key val : Str) (ret : Bool)
      (r : (Bool × Option ErrorCode) × MrswHashtable)
      → IsValid dec h.lru
      → eliminate little murmur md5 dec rounds h key val ret ≡ some r
      → EliminateKeeps h r.1
  eliminate_keeps zero h key val ret r v e = absurd (unfold eliminate in cc)
  eliminate_keeps (suc rounds) h key val ret r v e =
      elim (eliminate_round rounds h key val ret r e) [
        | inl same ↦ rw same (v, (0, refl))
        | inr (n, more) ↦
            let (s, lru, valid, l) = after-keys h key val v n in
            let (valid', (m, l')) =
              eliminate_keeps rounds (after little murmur md5 dec h key val) key val
                (ret_after h key val) r (rw lru valid) more in
            (
              valid',
              (
                suc m,
                l'
                    ∙ ap (λ (q : SimpleLru Str). drop_lasts m (keys q.lru_mem)) lru
                    ∙ ap (drop_lasts m) l,
              ),
            )
      ]

  -- The keys after `setValue`: with success the key leads, and the others are the old ones without it;
  -- with an error they are the old ones. The `n` least recently used may be gone.
  abbrev pub Kept : MrswHashtable → Str → ErrorCode × MrswHashtable → Type 0
  Kept h key r =
      IsValid dec r.1.lru
      × ((n : ℕ) × (((r.0 ≡ k_ok)
              × (keys (nodes r.1) ≡ key ∷ erase dec key (drop_lasts n (keys (nodes h)))))
            ⊎ ((r.0 ≢ k_ok) × (keys (nodes r.1) ≡ drop_lasts n (keys (nodes h))))))

  finish-Kept :
      (h h' : MrswHashtable) (key : Str) (ret : Bool)
      → EliminateKeeps h h'
      → Kept h key (finish_set little murmur md5 dec h' key ret)
  finish-Kept h h' key true (v, (n, k)) =
      let (valid, l) = visit_key_lem dec h'.lru key v in
      (valid, (n, inl (refl, l ∙ ap (λ t. key ∷ erase dec key t) k)))
  finish-Kept h h' key false (v, (n, k)) = (v, (n, inr ((λ e. cc), k)))

  same-Kept :
      (h : MrswHashtable) (key : Str) (r : ErrorCode × MrswHashtable)
      → IsValid dec h.lru
      → r.0 ≢ k_ok
      → r.1.lru ≡ h.lru
      → Kept h key r
  same-Kept h key r v c e = (rw e v, (0, inr (c, ap (λ (q : SimpleLru Str). keys q.lru_mem) e)))

  abbrev pub put_first : MrswHashtable → Str → Str → Bool × MrswHashtable
  put_first h key val = put_table little murmur md5 dec h key val

  pub set_within_cases :
      (rounds : ℕ) (h : MrswHashtable) (key val : Str) (r : ErrorCode × MrswHashtable)
      → set_within little murmur md5 dec rounds h key val ≡ some r
      → ((r.0 ≢ k_ok) × (r.1.lru ≡ h.lru))
        ⊎ (r ≡ finish_set little murmur md5 dec (put_first h key val).1 key (put_first h key val).0)
        ⊎ ((x : (Bool × Option ErrorCode) × MrswHashtable) × (h.is_lru_eliminate ≡ true)
            × (eliminate little murmur md5 dec rounds
                  (put_first h key val).1
                  key
                  val
                  (put_first h key val).0
                ≡ some x)
            × (r ≡ finish_eliminate little murmur md5 dec key x))
  unfolding set_within
  set_within_cases rounds h key val r e =
      elim (Option-cases (
        eliminate little murmur md5 dec rounds (put_first h key val).1 key val
          (put_first h key val).0)) [
            | inl none_left ↦
                ground (arith, none_left, nodes-put_table little murmur md5 dec h key val)
            | inr (x, found) ↦
                ground (arith, found, nodes-put_table little murmur md5 dec h key val)
          ]

  -- The loop returns an error only where it is one.
  pub eliminate_code :
      (rounds : ℕ) (h : MrswHashtable) (key val : Str) (ret ret' : Bool) (code : ErrorCode)
      (h' : MrswHashtable)
      → eliminate little murmur md5 dec rounds h key val ret ≡ some ((ret', some code), h')
      → code ≢ k_ok
  unfolding eliminate
  eliminate_code zero h key val ret ret' code h' e = absurd (cc)
  eliminate_code (suc rounds) h key val ret ret' code h' e = ground (
    arith,
    eliminate_code rounds (after little murmur md5 dec h key val) key val (ret_after h key val) ret'
        code h',
  )

  finish_eliminate-Kept :
      (rounds : ℕ) (h : MrswHashtable) (key val : Str) (ret : Bool)
      (x : (Bool × Option ErrorCode) × MrswHashtable)
      → IsValid dec h.lru
      → eliminate little murmur md5 dec rounds h key val ret ≡ some x
      → Kept h key (finish_eliminate little murmur md5 dec key x)
  finish_eliminate-Kept rounds h key val ret ((ret', none), h') v e =
      finish-Kept h h' key ret' (eliminate_keeps rounds h key val ret ((ret', none), h') v e)
  finish_eliminate-Kept rounds h key val ret ((ret', some code), h') v e =
      let (valid, (n, k)) = eliminate_keeps rounds h key val ret ((ret', some code), h') v e in
      (valid, (n, inr (eliminate_code rounds h key val ret ret' code h' e, k)))

  -- `Kept` reads of the state before only its list.
  Kept-lru :
      (h g : MrswHashtable) (key : Str) (r : ErrorCode × MrswHashtable)
      → g.lru ≡ h.lru
      → Kept g key r
      → Kept h key r
  Kept-lru h g key r e k = rw (ap (λ (q : SimpleLru Str). keys q.lru_mem) (sym e)) k

  set_within-Kept :
      (rounds : ℕ) (h : MrswHashtable) (key val : Str) (r : ErrorCode × MrswHashtable)
      → IsValid dec h.lru
      → set_within little murmur md5 dec rounds h key val ≡ some r
      → Kept h key r
  set_within-Kept rounds h key val r v e =
      let p = put_first h key val in
      let same = nodes-put_table little murmur md5 dec h key val in
      let v' : IsValid dec p.1.lru = rw same v in
      elim (set_within_cases rounds h key val r e) [
        | inl (code, lru) ↦ same-Kept h key r v code lru
        | inr (inl f) ↦
            Kept-lru h p.1 key r same (rw f (finish-Kept p.1 p.1 key p.0 (v', (0, refl))))
        | inr (inr (x, _, found, f)) ↦
            Kept-lru h p.1 key r same
              (rw f (finish_eliminate-Kept rounds p.1 key val p.0 x v' found))
      ]

  pub set_value_cases :
      (h : MrswHashtable) (key val : Str) (r : ErrorCode × MrswHashtable)
      → set_value little murmur md5 dec h key val ≡ some r
      → ((r.0 ≢ k_ok) × (r.1.lru ≡ h.lru))
        ⊎ (set_within little murmur md5 dec
              (length (nodes (get_value little murmur md5 dec h key []).2) + 2)
              (get_value little murmur md5 dec h key []).2
              key
              (encode_value_str little md5 val)
            ≡ some r)
  unfolding set_value
  set_value_cases h key val r e = ground (arith, nodes-get_value little murmur md5 dec h key [])

  -- Where `setValue` ends with success, its key leads the list of keys, and the others are the old ones
  -- without it, in their order, less the `n` oldest; with an error the list is the old one less the `n`
  -- oldest. The list of keys, valid before, stays
  -- valid.
  pub set_value_keeps :
      (h : MrswHashtable) (key val : Str) (r : ErrorCode × MrswHashtable)
      → IsValid dec h.lru
      → set_value little murmur md5 dec h key val ≡ some r
      → Kept h key r
  set_value_keeps h key val r v e =
      let g = (get_value little murmur md5 dec h key []).2 in
      let same = nodes-get_value little murmur md5 dec h key [] in
      elim (set_value_cases h key val r e) [
        | inl (code, lru) ↦ same-Kept h key r v code lru
        | inr more ↦ Kept-lru h g key r same (
            set_within-Kept (length (nodes g) + 2) g key (encode_value_str little md5 val) r
              (rw same v) more)
      ]
