-- ===== src/Decomp/Order.antt =====
-- Lists of elements, and the element that holds an address.
use ida_pilot.Common.{
  ℕ, suc, ◌≡◌, refl, ◌<◌, true, false, List, [], ◌∷◌, Option, none, some, arith, eqb, length,
  if◌then◌else◌,
}
use ida_pilot.Decomp.{DecompEntry, mem, remove, update, back}

-- The first element in the list that holds the address.
unfoldable pub index : (ℕ → DecompEntry) → ℕ → List ℕ → Option ℕ
index f a [] = none
index f a (r ∷ l) = if eqb (f r).addr a then some r else index f a l

-- No address stands twice.
abbrev pub Separate : (ℕ → DecompEntry) → List ℕ → Type 0
Separate f [] = Unit {0}
Separate f (r ∷ l) = (index f (f r).addr l ≡ none) × Separate f l

-- Every element was allocated.
abbrev pub Below : ℕ → List ℕ → Type 0
Below n [] = Unit {0}
Below n (r ∷ l) = (r < n) × Below n l

module _ (f : ℕ → DecompEntry) where
  pub index-addr : (a r : ℕ) (l : List ℕ) → index f a l ≡ some r → (f r).addr ≡ a
  unfolding index
  index-addr a r [] h = absurd (cc)
  index-addr a r (x ∷ l) h = ground (arith, index-addr a r l)

  pub index-mem : (a r : ℕ) (l : List ℕ) → index f a l ≡ some r → mem r l ≡ true
  unfolding index mem
  index-mem a r [] h = absurd (cc)
  index-mem a r (x ∷ l) h = ground (arith, index-mem a r l)

  pub mem_of_none : (a r : ℕ) (l : List ℕ) → index f a l ≡ none → (f r).addr ≡ a → mem r l ≡ false
  unfolding index mem
  mem_of_none a r [] h e = refl
  mem_of_none a r (x ∷ l) h e = ground (arith, mem_of_none a r l)

  pub remove_absent : (r : ℕ) (l : List ℕ) → mem r l ≡ false → remove r l ≡ l
  unfolding mem remove
  remove_absent r [] h = refl
  remove_absent r (x ∷ l) h = ground (arith, remove_absent r l)

  -- Removing the element that holds an address makes that address absent, and no other.
  pub index-remove :
      (a b r : ℕ) (l : List ℕ)
      → Separate f l
      → index f a l ≡ some r
      → index f b (remove r l) ≡ (if eqb a b then none else index f b l)
  unfolding index remove
  index-remove a b r [] s h = absurd (cc)
  index-remove a b r (x ∷ l) s h = ground (arith, index-addr a r l, index-remove a b r l s.1)

  pub remove-Separate :
      (a r : ℕ) (l : List ℕ) → Separate f l → index f a l ≡ some r → Separate f (remove r l)
  unfolding index remove
  remove-Separate a r [] s h = tt
  remove-Separate a r (x ∷ l) s h =
      ground (arith, index-addr a r l, remove-Separate a r l s.1, index-remove a (f x).addr r l s.1)

  pub back-index :
      (r : ℕ) (l : List ℕ) → Separate f l → back l ≡ some r → index f (f r).addr l ≡ some r
  unfolding index back
  back-index r [] s h = absurd (cc)
  back-index r (x ∷ []) s h = ground arith
  back-index r (x ∷ y ∷ l) s h = ground (arith, back-index r (y ∷ l) s.1)

pub remove-Below : (n r : ℕ) (l : List ℕ) → Below n l → Below n (remove r l)
unfolding remove
remove-Below n r [] b = tt
remove-Below n r (x ∷ l) b = ground (arith, remove-Below n r l b.1)

pub Below-suc : (n : ℕ) (l : List ℕ) → Below n l → Below (suc n) l
Below-suc n [] b = tt
Below-suc n (x ∷ l) b = (omega arith, Below-suc n l b.1)

pub mem-Below : (n r : ℕ) (l : List ℕ) → Below n l → mem r l ≡ true → r < n
unfolding mem
mem-Below n r [] b h = absurd (cc)
mem-Below n r (x ∷ l) b h = ground (arith, mem-Below n r l b.1)

pub length-remove : (r : ℕ) (l : List ℕ) → mem r l ≡ true → suc (length (remove r l)) ≡ length l
unfolding mem remove
length-remove r [] h = absurd (cc)
length-remove r (x ∷ l) h = ground (arith, length-remove r l)

-- Writes to an element that the list does not hold, or that keep the address, change no index.
pub index-update_absent :
    (f : ℕ → DecompEntry) (n a : ℕ) (e : DecompEntry) (l : List ℕ)
    → mem n l ≡ false
    → index (update f n e) a l ≡ index f a l
unfolding index mem
index-update_absent f n a e [] h = refl
index-update_absent f n a e (x ∷ l) h = ground (arith, index-update_absent f n a e l)

pub Separate-update_absent :
    (f : ℕ → DecompEntry) (n : ℕ) (e : DecompEntry) (l : List ℕ)
    → mem n l ≡ false
    → Separate f l
    → Separate (update f n e) l
unfolding mem
Separate-update_absent f n e [] h s = tt
Separate-update_absent f n e (x ∷ l) h s =
    ground (arith, index-update_absent f n (f x).addr e l, Separate-update_absent f n e l)

pub mem-Below-false : (n : ℕ) (l : List ℕ) → Below n l → mem n l ≡ false
unfolding mem
mem-Below-false n [] b = refl
mem-Below-false n (x ∷ l) b = ground (arith, mem-Below-false n l b.1)
