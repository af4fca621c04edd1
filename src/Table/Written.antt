-- ===== src/Table/Written.antt =====
-- The two steps of `_put_data` of shmutil/qhasharr.c, a new slot and a piece of the value, on a chain.
use shmutil.Base.{
  ℕ, zero, suc, ◌+◌, ◌-◌, ◌≤◌, ◌<◌, ◌≡◌, ◌≢◌, refl, sym, ap, ap₂, ◌∙◌, List, [], ◌∷◌, ◌++◌, length,
  length-append, length-take, length-drop, arith, get_or, take, drop,
}
use mathlib.Core.List.{append-nil}
use shmutil.Memory.{Memory, memcpy, bytes, bytes_ext}
use shmutil.Atomic.{minus_one}
use shmutil.Table.{Slot, Table, set_slot, extended, zero_slot}
use shmutil.Table.Store.{pointer, extend, copysize, store_part}
use shmutil.Table.Usage.{used, used-set_slot, set_slot_same, set_slot_other}
use shmutil.Table.Chain.{
  part, text, Apart, Chain, InUse-Apart, Apart-append, Seg-set_slot, text-set_slot, InUse-set_slot,
  text-append, InUse-append, Seg-append,
}

pub get_or-take : (n i : ℕ) (l : List ℕ) → i < n → get_or (take n l) i 0 ≡ get_or l i 0
get_or-take zero i l h = absurd (omega arith)
get_or-take (suc n) i [] h = refl
get_or-take (suc n) zero (x ∷ l) h = refl
get_or-take (suc n) (suc i) (x ∷ l) h = get_or-take n i l (omega arith)

get_or-drop : (n i : ℕ) (l : List ℕ) → get_or (drop n l) i 0 ≡ get_or l (n + i) 0
get_or-drop zero i l = ap (λ k. get_or l k 0) (omega arith)
get_or-drop (suc n) i [] = refl
get_or-drop (suc n) i (x ∷ l) =
    let k : suc n + i ≡ suc (n + i) = omega arith in rw k (get_or-drop n i l)

take_nil : (n : ℕ) → take {A = ℕ} n [] ≡ []
take_nil zero = refl
take_nil (suc n) = refl

pub take-append-take : (m n : ℕ) (l : List ℕ) → take m l ++ take n (drop m l) ≡ take (m + n) l
take-append-take zero n l = ap (λ k. take k l) (omega arith)
take-append-take (suc m) n [] = let k : suc m + n ≡ suc (m + n) = omega arith in rw (k, take_nil n)
take-append-take (suc m) n (x ∷ l) =
    let k : suc m + n ≡ suc (m + n) = omega arith in rw k (ap (λ r. x ∷ r) (take-append-take m n l))

-- What `memcpy` puts into a slot is the piece of the value that it is given.
bytes-memcpy :
    (c : Memory) (value : List ℕ) (save n : ℕ)
    → save + n ≤ length value
    → bytes (memcpy c 0 (pointer value) save n) 0 n ≡ take n (drop save value)
unfolding memcpy
bytes-memcpy c value save n h =
    let piece = take n (drop save value) in
    let size : length piece ≡ n =
      omega (arith, length-take n (drop save value), length-drop save value) in
    rw size at (
      bytes_ext (memcpy c 0 (pointer value) save n) 0 piece
        (λ i b. ground (arith, get_or-take n i (drop save value), get_or-drop save i value)))

pub copysize-le : (s : Slot) (left : ℕ) → copysize s left ≤ left
copysize-le s left = ground arith

module _ (t : Table) (idx n : ℕ) (l value : List ℕ) (save : ℕ) (c : Chain t idx l n) where
  -- how much is stored in the last slot
  abbrev size : ℕ
  size = copysize (t.slots n) (length value - save)

  -- the last slot with its piece of the value
  abbrev s : Slot
  s = record (t.slots n) {
    contents = memcpy (t.slots n).contents 0 (pointer value) save size;
    size = size;
  }

  last-store_part : (store_part t n value save).slots n ≡ s
  unfolding store_part
  last-store_part = set_slot_same t n s

  pub store_part-Chain : Chain (store_part t n value save) idx l n
  unfolding store_part set_slot
  store_part-Chain = record {
    seg = Seg-set_slot t n s idx n l c.apart c.seg;
    ends = rw (set_slot_same t n s) c.ends;
    bound = c.bound;
    apart = c.apart;
    last_used = rw (set_slot_same t n s) c.last_used;
    all_used = InUse-set_slot t n s l c.apart c.all_used;
    room = ground (arith, c.room, used-set_slot t n s t.maxslots c.bound);
  }

  pub text-store_part : text (store_part t n value save) l ≡ text t l
  unfolding store_part
  text-store_part = text-set_slot t n s l c.apart

  pub part-store_part :
      save ≤ length value → part (store_part t n value save) n ≡ take size (drop save value)
  part-store_part h = rw last-store_part (
      bytes-memcpy (t.slots n).contents value save size
        (omega (arith, copysize-le (t.slots n) (length value - save))))

-- A chain does not see a write to an empty slot.
module _ (t : Table) (idx n : ℕ) (l : List ℕ) (m : ℕ) (s : Slot) (c : Chain t idx l n)
    (empty : (t.slots m).count ≡ 0) (bound : m < t.maxslots) (filled : s.count ≢ 0) where
  away : Apart m l
  away = InUse-Apart t l m c.all_used empty

  elsewhere : m ≢ n
  elsewhere e = c.last_used (ap (λ k. (t.slots k).count) (sym e) ∙ empty)

  room-set_slot : length l + 2 ≤ used (set_slot t m s).slots t.maxslots
  room-set_slot = ground (arith, c.room, used-set_slot t m s t.maxslots bound)

  set_slot-Chain : Chain (set_slot t m s) idx l n
  unfolding set_slot
  set_slot-Chain =
      let same = set_slot_other t m n s (λ e. elsewhere (sym e)) in
      record {
        seg = Seg-set_slot t m s idx n l away c.seg;
        ends = rw same c.ends;
        bound = c.bound;
        apart = c.apart;
        last_used = rw same c.last_used;
        all_used = InUse-set_slot t m s l away c.all_used;
        room = omega (arith, room-set_slot);
      }

  text-set_slot_away : text (set_slot t m s) (l ++ (n ∷ [])) ≡ text t (l ++ (n ∷ []))
  text-set_slot_away =
      text-set_slot t m s (l ++ (n ∷ [])) (Apart-append m n l away (λ e. elsewhere (sym e)))

-- The link to a slot that is in use and not in the chain makes it the last one.
module _ (t : Table) (idx n : ℕ) (l : List ℕ) (m : ℕ) (c : Chain t idx l n) (away : Apart m l)
    (elsewhere : m ≢ n) (ends : (t.slots m).link ≡ minus_one) (bound : m < t.maxslots)
    (filled : (t.slots m).count ≢ 0) (room : length l + 2 ≤ used t.slots t.maxslots) where
  abbrev linked : Slot
  linked = record (t.slots n) { link = m }

  link-Chain : Chain (set_slot t n linked) idx (l ++ (n ∷ [])) m
  unfolding set_slot
  link-Chain =
      let t' = set_slot t n linked in
      let self = set_slot_same t n linked in
      let same = set_slot_other t n m linked elsewhere in
      let link = ap (λ (q : Slot). q.link) self in
      record {
        seg =
            rw link at
              (Seg-append t' idx n l (Seg-set_slot t n linked idx n l c.apart c.seg) c.bound);
        ends = rw same ends;
        bound = bound;
        apart = Apart-append m n l away (λ e. elsewhere (sym e));
        last_used = rw same filled;
        all_used =
            InUse-append t' l n (InUse-set_slot t n linked l c.apart c.all_used)
              (rw self c.last_used);
        room =
            ground
              (arith, room, length-append l (n ∷ []), used-set_slot t n linked t.maxslots c.bound);
      }

  text-link : text (set_slot t n linked) (l ++ (n ∷ [])) ≡ text t l ++ part t n
  text-link =
      let self = set_slot_same t n linked in
      text-append (set_slot t n linked) l (n ∷ [])
      ∙ ap₂ ◌++◌ (text-set_slot t n linked l c.apart) (
          append-nil (part (set_slot t n linked) n)
          ∙ ap (λ (q : Slot). bytes q.contents 0 q.size) self)

module _ (t : Table) (idx n : ℕ) (l : List ℕ) (m : ℕ) (c : Chain t idx l n)
    (empty : (t.slots m).count ≡ 0) (bound : m < t.maxslots) where
  abbrev fresh : Slot
  fresh = record zero_slot { count = extended; hash = n; link = minus_one; size = 0 }

  pub extend-Chain :
      Chain (extend t n m) idx (l ++ (n ∷ [])) m
      × (text (extend t n m) (l ++ (n ∷ [])) ≡ text t l ++ part t n)
  unfolding extend
  extend-Chain =
      let t₁ = set_slot t m fresh in
      let self = set_slot_same t m fresh in
      let filled : fresh.count ≢ 0 = λ e. omega (arith, e) in
      let c₁ = set_slot-Chain t idx n l m fresh c empty bound filled in
      let a = away t idx n l m fresh c empty bound filled in
      let b = elsewhere t idx n l m fresh c empty bound filled in
      let r = room-set_slot t idx n l m fresh c empty bound filled in
      (
        link-Chain t₁ idx n l m c₁ a b (rw self refl) (unfold set_slot in bound) (rw self filled)
            (unfold set_slot in r),
        text-link t₁ idx n l m c₁ a b (rw self refl) (unfold set_slot in bound) (rw self filled)
              (unfold set_slot in r)
            ∙ ap₂ ◌++◌ (text-set_slot t m fresh l a) (
                ap (λ (q : Slot). bytes q.contents 0 q.size)
                  (set_slot_other t m n fresh (λ e. b (sym e)))),
      )
