-- ===== src/Table/Linked.antt =====
-- When the table of shmutil/qhasharr.c is well-formed: the links of the slots, and the counts.
use shmutil.Base.{
  ℕ, suc, ◌<◌, ◌^◌, ◌≡◌, ◌≢◌, ◌⊎◌, inl, inr, ap, ◌∙◌, Bool, ℕ_discrete, true, ◌||◌, List, none,
  some, ◌==◌, arith,
}
use shmutil.Atomic.{minus_one}
use shmutil.Table.{Slot, Table, is_leading, collision, extended}
use shmutil.Table.Lookup.{is_entry, get_idx}
use shmutil.Table.Found.{IsFound}
use shmutil.Table.Tally.{tally, tally_lt}
use shmutil.Table.Find.{entries, get_idx_complete}

-- a slot that holds the key of an entry
abbrev pub is_head : ℕ → Bool
is_head count = is_leading count || count == collision

-- An entry is a slot with a key and its hash.
pub is_entry-is_head :
    (s : Slot) (h : ℕ) → is_entry s h ≡ true → (is_head s.count ≡ true) × (s.hash ≡ h)
unfolding is_entry
is_entry-is_head s h e = ground arith

pub is_head-is_entry :
    (s : Slot) (h : ℕ) → is_head s.count ≡ true → s.hash ≡ h → is_entry s h ≡ true
unfolding is_entry
is_head-is_entry s h e e' = ground arith

pub is_head-ne-zero : (count : ℕ) → is_head count ≡ true → count ≢ 0
is_head-ne-zero count e z = ground arith

-- Each slot in use belongs to the entry `own j`, as the slot number `pos j` of its chain, and the
-- chains are linked both ways: an extended slot has the slot before it as its hash.
pub record Linked (t : Table) (own pos : ℕ → ℕ) : Type 0 where
  pub small : t.maxslots < 2 ^ 31
  pub kinds :
      (j : ℕ)
      → j < t.maxslots
      → (t.slots j).count ≢ 0
      → (is_head (t.slots j).count ≡ true) ⊎ ((t.slots j).count ≡ extended)
  pub owner :
      (j : ℕ)
      → j < t.maxslots
      → (t.slots j).count ≢ 0
      → (own j < t.maxslots) × (is_head (t.slots (own j)).count ≡ true)
  pub heads :
      (j : ℕ) → j < t.maxslots → is_head (t.slots j).count ≡ true → (own j ≡ j) × (pos j ≡ 0)
  pub tails :
      (j : ℕ)
      → j < t.maxslots
      → (t.slots j).count ≡ extended
      → ((t.slots j).hash < t.maxslots)
        × ((t.slots (t.slots j).hash).count ≢ 0)
        × ((t.slots (t.slots j).hash).link ≡ j)
        × (own (t.slots j).hash ≡ own j)
        × (pos j ≡ suc (pos (t.slots j).hash))
  pub links :
      (j : ℕ)
      → j < t.maxslots
      → (t.slots j).count ≢ 0
      → ((t.slots j).link ≡ minus_one)
        ⊎ (((t.slots j).link < t.maxslots)
            × ((t.slots (t.slots j).link).count ≡ extended)
            × ((t.slots (t.slots j).link).hash ≡ j))

-- The slot at a hash counts the entries of the hash and leads them, if there is one, a leading slot
-- stands at its own hash, and no two entries have the same key.
module _ (murmur : List ℕ → ℕ) (md5 : List ℕ → List ℕ) where
  pub record Counted (t : Table) : Type 0 where
    pub group :
        (h : ℕ)
        → h < t.maxslots
        → (tally (entries t h) t.maxslots ≡ 0)
          ⊎ ((is_leading (t.slots h).count ≡ true)
              × ((t.slots h).count ≡ tally (entries t h) t.maxslots))
    pub self : (j : ℕ) → j < t.maxslots → is_leading (t.slots j).count ≡ true → (t.slots j).hash ≡ j
    pub in_range :
        (j : ℕ) → j < t.maxslots → is_head (t.slots j).count ≡ true → (t.slots j).hash < t.maxslots
    pub unique :
        (key : List ℕ) (hash i i' : ℕ)
        → IsFound murmur md5 t key hash i
        → IsFound murmur md5 t key hash i'
        → i ≡ i'

  -- The slot at the hash of an entry leads all entries of the hash.
  pub hash_led :
      (t : Table) (c : Counted t) (hash i : ℕ)
      → hash < t.maxslots
      → i < t.maxslots
      → is_entry (t.slots i) hash ≡ true
      → (is_leading (t.slots hash).count ≡ true)
        × ((t.slots hash).count ≡ tally (entries t hash) t.maxslots)
  hash_led t c hash i h b e = elim (c.group hash h) [
    | inl z ↦ absurd (omega (arith, tally_lt (entries t hash) i t.maxslots e b, z))
    | inr led ↦ led
  ]

  -- An entry with the key is what `_get_idx` finds.
  pub get_idx-IsFound :
      (t : Table) (c : Counted t) (key : List ℕ) (hash i : ℕ)
      → hash < t.maxslots
      → IsFound murmur md5 t key hash i
      → get_idx murmur md5 t key hash ≡ some i
  get_idx-IsFound t c key hash i h f =
      let (b, entry, _) = f in
      let (lead, count) = hash_led t c hash i h b entry in
      let (i', e, f') = get_idx_complete murmur md5 t key hash i h lead count f in
      e ∙ ap some (c.unique key hash i' i f' f)

  -- Where `_get_idx` finds nothing, there is no entry with the key.
  pub get_idx-none :
      (t : Table) (c : Counted t) (key : List ℕ) (hash i : ℕ)
      → hash < t.maxslots
      → get_idx murmur md5 t key hash ≡ none
      → ¬ IsFound murmur md5 t key hash i
  get_idx-none t c key hash i h e f = cc (get_idx-IsFound t c key hash i h f)

  -- The same but for the group of one hash, while that changes.
  pub record CountedBut (t : Table) (but : ℕ) : Type 0 where
    pub group :
        (h : ℕ)
        → h < t.maxslots
        → h ≢ but
        → (tally (entries t h) t.maxslots ≡ 0)
          ⊎ ((is_leading (t.slots h).count ≡ true)
              × ((t.slots h).count ≡ tally (entries t h) t.maxslots))
    pub self : (j : ℕ) → j < t.maxslots → is_leading (t.slots j).count ≡ true → (t.slots j).hash ≡ j
    pub in_range :
        (j : ℕ) → j < t.maxslots → is_head (t.slots j).count ≡ true → (t.slots j).hash < t.maxslots
    pub unique :
        (key : List ℕ) (hash i i' : ℕ)
        → IsFound murmur md5 t key hash i
        → IsFound murmur md5 t key hash i'
        → i ≡ i'

  pub Counted-CountedBut : (t : Table) (but : ℕ) → Counted t → CountedBut t but
  Counted-CountedBut t but c = record {
    group = λ h b n. c.group h b;
    self = c.self;
    in_range = c.in_range;
    unique = c.unique;
  }

  pub CountedBut-Counted :
      (t : Table) (but : ℕ)
      → CountedBut t but
      → (tally (entries t but) t.maxslots ≡ 0)
        ⊎ ((is_leading (t.slots but).count ≡ true)
            × ((t.slots but).count ≡ tally (entries t but) t.maxslots))
      → Counted t
  CountedBut-Counted t but c g = record {
    group = λ h b. elim (ℕ_discrete h but) [ yes e ↦ rw e g | no n ↦ c.group h b n ];
    self = c.self;
    in_range = c.in_range;
    unique = c.unique;
  }

  pub CountedBut-eq : (t : Table) (a b : ℕ) → a ≡ b → CountedBut t a → CountedBut t b
  CountedBut-eq t a b e c = record {
    group = λ h bh n. c.group h bh (λ w. n (w ∙ e));
    self = c.self;
    in_range = c.in_range;
    unique = c.unique;
  }
