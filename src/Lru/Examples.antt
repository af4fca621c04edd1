-- ===== src/Lru/Examples.antt =====
-- A run of `SimpleLru` of shmutil/simple_lru.h, and its theorems there.
use shmutil.Base.{ℕ, [], ◌∷◌, ◌≡◌, ◌⊎◌, none, some, ℕ_discrete}
use shmutil.Lru.{SimpleLru, new_simple_lru, visit_key, get_remove_key, remove_key}
use shmutil.Lru.Order.{IsValid, keys, new-IsValid, visit_key_lem, remove_key_lem}

program : Unit {0}
unfolding new_simple_lru visit_key get_remove_key remove_key ℕ_discrete
program = tt

-- 7, then 8
abbrev s₁ : SimpleLru ℕ
s₁ = visit_key ℕ_discrete new_simple_lru 7

abbrev s₂ : SimpleLru ℕ
s₂ = visit_key ℕ_discrete s₁ 8

s₁-IsValid : IsValid ℕ_discrete s₁
s₁-IsValid = (visit_key_lem ℕ_discrete new_simple_lru 7 (new-IsValid ℕ_discrete)).0

s₂-IsValid : IsValid ℕ_discrete s₂
s₂-IsValid = (visit_key_lem ℕ_discrete s₁ 8 s₁-IsValid).0

visit_key_example :
    IsValid ℕ_discrete (visit_key ℕ_discrete s₂ 7)
    × (keys (visit_key ℕ_discrete s₂ 7).lru_mem ≡ 7 ∷ 8 ∷ [])
unfolding program
visit_key_example = visit_key_lem ℕ_discrete s₂ 7 s₂-IsValid

remove_key_example :
    (get_remove_key ℕ_discrete s₂ ≡ some 7)
    × (((s₂.lru_mem ≡ []) × (remove_key ℕ_discrete s₂ ≡ none))
        ⊎ ((s' : SimpleLru ℕ) × (k : ℕ) × (remove_key ℕ_discrete s₂ ≡ some (s', k))
            × (some 7 ≡ some k)
            × IsValid ℕ_discrete s'
            × (keys s'.lru_mem ≡ 8 ∷ [])))
unfolding program
remove_key_example = remove_key_lem ℕ_discrete s₂ s₂-IsValid
