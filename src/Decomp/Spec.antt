-- ===== src/Decomp/Spec.antt =====
-- What the decompilation cache promises: a list of addresses with their code, the most recently used
-- first, of at most `cap` entries.
use ida_pilot.Common.{
  number_key, ℕ, String, Bool, List, [], ◌∷◌, none, some, ◌+◌, length, leb, keep, not,
  if◌then◌else◌,
}
use ida_pilot.Common.Map
use ida_pilot.Common.Map.{Map}

abbrev pub Recent : Type 0
Recent = Map ℕ String

unfoldable pub drop_last {ℓ} : {A : Type ℓ} → List A → List A
drop_last [] = []
drop_last (x ∷ []) = []
drop_last (x ∷ y ∷ l) = x ∷ drop_last (y ∷ l)

unfoldable pub spec_get : ℕ → Recent → Recent
spec_get a m = elim (Map.lookup a m) [ none ↦ m | some code ↦ (a, code) ∷ Map.delete a m ]

unfoldable pub spec_set : ℕ → ℕ → String → Recent → Recent
spec_set limit a code m = elim (Map.lookup a m) [
  | none ↦ (a, code) ∷ (if leb limit (length m) then drop_last m else m)
  | some old ↦ (a, code) ∷ Map.delete a m
]

unfoldable pub count_where : (String → Bool) → Recent → ℕ
count_where p [] = 0
count_where p ((a, code) ∷ m) = (if p code then 1 else 0) + count_where p m

abbrev pub keep_where : (String → Bool) → Recent → Recent
keep_where p = keep (λ e. not (p e.1))
