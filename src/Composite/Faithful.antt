-- ===== src/Composite/Faithful.antt =====
-- A cache that holds only what the worker replies, and that each write of an analysis keeps it so.
use ida_pilot.Common.{
  number_key, string_key, ◌==◌, ◌≡◌, ◌∙◌, inl, inr, sym, ap, ℕ, String, Option, some, if◌then◌else◌,
  Bool-cases, eq_of_same,
}
use ida_pilot.Common.Map.{lookup-insert}
use ida_pilot.Cache.{
  SessionCache, XrefsEntry, get_decomp, set_decomp, get_xrefs, set_xrefs, find_in, or_empty,
  get_from, set_in,
}
use ida_pilot.Cache.Entries.{text_of, Healthy, get_from-text_of, set_in-text_of, set_in-only}
use ida_pilot.Cache.Notes.{find_in-lookup}
use ida_pilot.Parallel.{value}
use ida_pilot.Decomp.{DecompCache}
use ida_pilot.Composite.Shown.{both}
use ida_pilot.Composite.{Worker, CacheItem}

module _ {Item : Type 0} where
  -- The cached pseudocode and references are those that the worker replies.
  pub record Faithful (w : Worker) (c : SessionCache (CacheItem Item)) : Type 0 where
    pub healthy : Healthy c.decomp
    pub codes :
        (a : ℕ) (code : String) → text_of c.decomp a ≡ some code → w.decompiled a ≡ value code
    pub references :
        (a : ℕ) (entry : XrefsEntry (CacheItem Item))
        → get_xrefs c a ≡ some entry
        → both (w.xrefs_to a) (w.xrefs_from a) ≡ value entry

  with_decomp :
      (w : Worker) (c : SessionCache (CacheItem Item)) (o : Option DecompCache)
      → Faithful w c
      → Healthy o
      → ((a : ℕ) (code : String) → text_of o a ≡ some code → w.decompiled a ≡ value code)
      → Faithful w (record c { decomp = o })
  unfolding get_xrefs
  with_decomp w c o f h k = record { healthy = h; codes = k; references = f.references }

  pub get_decomp-Faithful :
      (w : Worker) (c : SessionCache (CacheItem Item)) (addr : ℕ)
      → Faithful w c
      → Faithful w (get_decomp c addr).0
  unfolding get_decomp
  get_decomp-Faithful w c addr f =
      with_decomp w c (get_from c.decomp addr).0 f (get_from-text_of c.decomp addr addr f.healthy).2
        (λ a code h. f.codes a code (sym (get_from-text_of c.decomp addr a f.healthy).1 ∙ h))

  pub get_decomp-text_of :
      (w : Worker) (c : SessionCache (CacheItem Item)) (addr : ℕ)
      → Faithful w c
      → (get_decomp c addr).1 ≡ text_of c.decomp addr
  unfolding get_decomp
  get_decomp-text_of w c addr f = (get_from-text_of c.decomp addr addr f.healthy).0

  get_xrefs-set_xrefs :
      (c : SessionCache (CacheItem Item)) (addr a : ℕ) (entry : XrefsEntry (CacheItem Item))
      → get_xrefs (set_xrefs c addr entry) a ≡ (if addr == a then some entry else get_xrefs c a)
  unfolding get_xrefs set_xrefs find_in
  get_xrefs-set_xrefs c addr a entry =
      lookup-insert addr a entry (or_empty c.xrefs)
      ∙ ap (λ o. if addr == a then some entry else o) (sym (find_in-lookup c.xrefs a))

  pub set_decomp-Faithful :
      (w : Worker) (c : SessionCache (CacheItem Item)) (addr : ℕ) (code : String)
      → Faithful w c
      → w.decompiled addr ≡ value code
      → Faithful w (set_decomp c addr code)
  unfolding set_decomp
  set_decomp-Faithful w c addr code f e =
      with_decomp w c (set_in c.decomp addr code) f (set_in-text_of c.decomp addr code f.healthy).1
        (λ a text h. elim (set_in-only c.decomp addr a code text f.healthy h) [
          | inl (same, same_text) ↦ ap w.decompiled (sym same) ∙ e ∙ ap value same_text
          | inr old ↦ f.codes a text old
        ])

  pub set_xrefs-Faithful :
      (w : Worker) (c : SessionCache (CacheItem Item)) (addr : ℕ)
      (entry : XrefsEntry (CacheItem Item))
      → Faithful w c
      → both (w.xrefs_to addr) (w.xrefs_from addr) ≡ value entry
      → Faithful w (set_xrefs c addr entry)
  unfolding set_xrefs
  set_xrefs-Faithful w c addr entry f e = record {
    healthy = f.healthy;
    codes = f.codes;
    references = λ a other h. elim (Bool-cases (addr == a)) [
      | inl same ↦
          let k : some entry ≡ some other =
            ap (λ b. if b then some entry else get_xrefs c a) (sym same)
            ∙ sym (get_xrefs-set_xrefs c addr a entry)
            ∙ h in
          let found : entry ≡ other = cc in
          ap (λ b. both (w.xrefs_to b) (w.xrefs_from b)) (sym (eq_of_same addr a same))
          ∙ e
          ∙ ap value found
      | inr apart ↦ f.references a other (
          ap (λ b. if b then some entry else get_xrefs c a) (sym apart)
          ∙ sym (get_xrefs-set_xrefs c addr a entry)
          ∙ h)
    ];
  }
