-- ===== src/Decomp/Purge.antt =====
-- `deleteWhere`: the loop keeps the cache well formed, removes exactly the entries that satisfy the
-- predicate, in one pass, and counts them.
use mathlib.Core.List.{append_assoc}
use ida_pilot.Common.{
  number_key, ℕ, ◌≡◌, refl, ◌∙◌, sym, Bool, not, String, List, [], ◌∷◌, ◌++◌, some, arith,
  if◌then◌else◌, Bool-cases, inl, inr, keep, ◌+◌,
}
use ida_pilot.Common.Map
use ida_pilot.Decomp.{DecompCache, DecompEntry, remove, delete_loop, delete_where}
use ida_pilot.Decomp.Order.{index, Separate}
use ida_pilot.Decomp.Invariant.{IsWell, removed-IsWell}

index_middle :
    (f : ℕ → DecompEntry) (r : ℕ) (pre l : List ℕ)
    → Separate f (pre ++ r ∷ l)
    → index f (f r).addr (pre ++ r ∷ l) ≡ some r
unfolding index
index_middle f r [] l s = ground arith
index_middle f r (x ∷ pre) l s = ground (arith, index_middle f r pre l s.1)

remove_middle :
    (f : ℕ → DecompEntry) (r : ℕ) (pre l : List ℕ)
    → Separate f (pre ++ r ∷ l)
    → remove r (pre ++ r ∷ l) ≡ pre ++ l
unfolding remove
remove_middle f r [] l s = ground arith
remove_middle f r (x ∷ pre) l s =
    ground (arith, remove_middle f r pre l s.1, index_middle f r pre l s.1)

module _ (p : String → Bool) where
  -- The elements that stay.
  abbrev pub kept : (ℕ → DecompEntry) → List ℕ → List ℕ
  kept f = keep (λ r. not (p (f r).code))

  unfoldable pub hits : (ℕ → DecompEntry) → List ℕ → ℕ
  hits f [] = 0
  hits f (r ∷ l) = (if p (f r).code then 1 else 0) + hits f l

  pub record Purged (c : DecompCache) (pre l : List ℕ) (n : ℕ) (out : DecompCache × ℕ)
      : Type 0 where
    pub well : IsWell out.0
    pub order : out.0.order ≡ pre ++ kept c.value l
    pub value : out.0.value ≡ c.value
    pub cap_kept : out.0.cap ≡ c.cap
    pub count : out.1 ≡ n + hits c.value l

  pub delete_loop-Purged :
      (pre l : List ℕ) (c : DecompCache) (n : ℕ)
      → IsWell c
      → c.order ≡ pre ++ l
      → Purged c pre l n (delete_loop p l c n)
  unfolding delete_loop hits
  delete_loop-Purged pre [] c n w e = record {
    well = w;
    order = e;
    value = refl;
    cap_kept = refl;
    count = omega arith;
  }
  delete_loop-Purged pre (r ∷ l) c n w e =
      let s : Separate c.value (pre ++ r ∷ l) = rw e at w.separate in
      let here : index c.value (c.value r).addr c.order ≡ some r =
        rw e (index_middle c.value r pre l s) in
      let gone : remove r c.order ≡ pre ++ l = rw e (remove_middle c.value r pre l s) in
      let c' : DecompCache = record c {
        order = remove r c.order;
        entries = Map.delete (c.value r).addr c.entries;
      } in
      elim (Bool-cases (p (c.value r).code)) [
        | inl hit ↦
            let ih =
              delete_loop-Purged pre l c' (n + 1) (removed-IsWell c (c.value r).addr r w here)
                gone in
            rw hit (record {
              well = ih.well;
              order = rw hit ih.order;
              value = ih.value;
              cap_kept = ih.cap_kept;
              count = rw hit (omega (arith, ih.count));
            })
        | inr miss ↦
            let ih =
              delete_loop-Purged (pre ++ r ∷ []) l c n w (e ∙ sym (append_assoc pre (r ∷ []) l)) in
            rw miss (record {
              well = ih.well;
              order = rw miss (ih.order ∙ append_assoc pre (r ∷ []) (kept c.value l));
              value = ih.value;
              cap_kept = ih.cap_kept;
              count = rw miss (omega (arith, ih.count));
            })
      ]

-- `deleteWhere` keeps the cache well formed; what stays is what fails the predicate, in order.
pub delete_where-Purged :
    (c : DecompCache) (p : String → Bool) → IsWell c → Purged p c [] c.order 0 (delete_where c p)
unfolding delete_where
delete_where-Purged c p w = delete_loop-Purged p [] c.order c 0 w refl
