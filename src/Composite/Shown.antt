-- ===== src/Composite/Shown.antt =====
-- What an analysis shows of a worker's replies when nothing is cached, and that the entries of the result
-- map are these.
use ida_pilot.Common.{
  number_key, string_key, ◌==◌, ◌≡◌, ◌∙◌, refl, ap, ℕ, Bool, true, not, ◌||◌, eqb, arith, String,
  List, [], ◌∷◌, ◌++◌, Option, none, some, if◌then◌else◌, map,
}
use ida_pilot.Text.{Text}
use ida_pilot.Address.{hex_addr}
use ida_pilot.Cache.{XrefsEntry}
use ida_pilot.Parallel.{Returned, value, error}
use ida_pilot.Composite.{
  Worker, CacheItem, ResultEntry, TaskValue, as_code, as_info, as_xrefs, as_comment, Reference,
  tuples_to, tuples_from, pass_on, decompilation, decompilation_error, xrefs_to, xrefs_from,
  xrefs_error, comment, FunctionReply, name, start, end, size, calling_convention, return_type,
  num_args, flags,
}
use ida_pilot.Composite.Result.{
  decompiled_entries, reply_entries, xrefs_entries, comment_entries, info_entries, hex_addr_tuples,
  not_empty, when, flag_names,
}

abbrev pub lift : {V W E : Type 0} → (V → W) → Returned V E → Returned W E
lift f (value v) = value (f v)
lift f (error e) = error e

abbrev pub value_of : {V E : Type 0} → Returned V E → Option V
value_of (value v) = some v
value_of (error e) = none

abbrev pub error_of : {V E : Type 0} → Returned V E → Option E
error_of (value v) = none
error_of (error e) = some e

-- The entries of a worker's replies, without a cache.
abbrev pub code_shown : Returned String String → List ResultEntry
code_shown (value code) = decompilation code ∷ []
code_shown (error e) = decompilation_error (e ∷ []) ∷ []

-- The entries whose test holds, in order.
abbrev pub chosen : {A : Type 0} → List (Bool × A) → List A
chosen [] = []
chosen ((said, x) ∷ rest) = if said then x ∷ chosen rest else chosen rest

abbrev pub flags_of : FunctionReply → List String
flags_of i =
    chosen
      ((i.is_library, "is_library") ∷ (i.is_thunk, "is_thunk") ∷ (i.no_return, "no_return") ∷ [])

abbrev pub entries_of : FunctionReply → List ResultEntry
entries_of i = chosen (
    (true, name i.name)
    ∷ (true, start (hex_addr i.start))
    ∷ (true, end (hex_addr i.end))
    ∷ (true, size i.size)
    ∷ (not (i.calling_convention == ""), calling_convention i.calling_convention)
    ∷ (not (i.return_type == ""), return_type i.return_type)
    ∷ (not (eqb i.num_args 0), num_args i.num_args)
    ∷ (i.is_library || (i.is_thunk || i.no_return), flags (flags_of i))
    ∷ [])

abbrev pub info_shown : Returned FunctionReply String → List ResultEntry
info_shown (value i) = entries_of i
info_shown (error e) = []

abbrev pub listed :
    (List (Text × ℕ) → ResultEntry) → (Reference → ℕ) → List Reference → List ResultEntry
listed entry address [] = []
listed entry address (x ∷ xs) = entry (map (λ r. (hex_addr (address r), r.type)) (x ∷ xs)) ∷ []

abbrev pub xrefs_shown :
    Returned (List Reference) String → Returned (List Reference) String → List ResultEntry
xrefs_shown (value xs) (value ys) =
    listed xrefs_to (λ r. r.from) xs ++ listed xrefs_from (λ r. r.to) ys
xrefs_shown (error e) (value ys) = xrefs_error (e ∷ []) ∷ []
xrefs_shown (value xs) (error f) = xrefs_error (f ∷ []) ∷ []
xrefs_shown (error e) (error f) = xrefs_error (e ∷ f ∷ []) ∷ []

abbrev pub comment_shown : Returned String String → List ResultEntry
comment_shown (value text) = if text == "" then [] else comment text ∷ []
comment_shown (error e) = []

abbrev pub fresh_result : Worker → ℕ → List ResultEntry
fresh_result w addr =
    code_shown (w.decompiled addr)
    ++ info_shown (w.function_info addr)
    ++ xrefs_shown (w.xrefs_to addr) (w.xrefs_from addr)
    ++ comment_shown (w.func_comment addr)

-- What the two replies for references make: an entry, or their errors.
abbrev pub both :
    {Item : Type 0}
    → Returned (List Reference) String
    → Returned (List Reference) String
    → Returned (XrefsEntry (CacheItem Item)) (List String)
both (value xs) (value ys) = value (record { to = tuples_to xs; from = tuples_from ys })
both (error e) (value ys) = error (e ∷ [])
both (value xs) (error f) = error (f ∷ [])
both (error e) (error f) = error (e ∷ f ∷ [])

flag_names-flags_of : (i : FunctionReply) → flag_names i ≡ flags_of i
unfolding flag_names
flag_names-flags_of i = ground arith

info_entries-entries_of : (i : FunctionReply) → info_entries i ≡ entries_of i
unfolding info_entries when not_empty flag_names
info_entries-entries_of i = ground arith

module _ (Item : Type 0) where
  hex_tuples_to :
      (xs : List Reference)
      → hex_addr_tuples {Item = Item} (tuples_to xs) ≡ map (λ r. (hex_addr r.from, r.type)) xs
  unfolding hex_addr_tuples tuples_to
  hex_tuples_to [] = refl
  hex_tuples_to (x ∷ xs) = ap (◌∷◌ (hex_addr x.from, x.type)) (hex_tuples_to xs)

  hex_tuples_from :
      (xs : List Reference)
      → hex_addr_tuples {Item = Item} (tuples_from xs) ≡ map (λ r. (hex_addr r.to, r.type)) xs
  unfolding hex_addr_tuples tuples_from
  hex_tuples_from [] = refl
  hex_tuples_from (x ∷ xs) = ap (◌∷◌ (hex_addr x.to, x.type)) (hex_tuples_from xs)

  when_to :
      (xs : List Reference)
      → when
          (not_empty {A = CacheItem Item} (tuples_to xs))
          (xrefs_to (hex_addr_tuples {Item = Item} (tuples_to xs)))
        ≡ listed xrefs_to (λ r. r.from) xs
  unfolding when not_empty tuples_to
  when_to [] = refl
  when_to (x ∷ xs) = ap (λ l. xrefs_to l ∷ []) (hex_tuples_to (x ∷ xs))

  when_from :
      (xs : List Reference)
      → when
          (not_empty {A = CacheItem Item} (tuples_from xs))
          (xrefs_from (hex_addr_tuples {Item = Item} (tuples_from xs)))
        ≡ listed xrefs_from (λ r. r.to) xs
  unfolding when not_empty tuples_from
  when_from [] = refl
  when_from (x ∷ xs) = ap (λ l. xrefs_from l ∷ []) (hex_tuples_from (x ∷ xs))

  pub decompiled_entries-code_shown :
      (r : Returned String String)
      → decompiled_entries
          (value_of (pass_on {Item = Item} as_code r))
          (error_of (pass_on {Item = Item} as_code r))
        ≡ code_shown r
  unfolding decompiled_entries pass_on
  decompiled_entries-code_shown (value code) = refl
  decompiled_entries-code_shown (error e) = refl

  pub reply_entries-info_shown :
      (r : Returned FunctionReply String)
      → reply_entries (value_of (pass_on {Item = Item} as_info r)) ≡ info_shown r
  unfolding reply_entries pass_on
  reply_entries-info_shown (value i) = info_entries-entries_of i
  reply_entries-info_shown (error e) = refl

  pub comment_entries-comment_shown :
      (r : Returned String String)
      → comment_entries (value_of (pass_on {Item = Item} as_comment r)) ≡ comment_shown r
  unfolding comment_entries pass_on
  comment_entries-comment_shown (value text) = refl
  comment_entries-comment_shown (error e) = refl

  pub xrefs_entries-xrefs_shown :
      (xs ys : Returned (List Reference) String)
      → xrefs_entries {Item = Item}
          (value_of (lift as_xrefs (both xs ys)))
          (error_of {V = TaskValue Item} (lift as_xrefs (both xs ys)))
        ≡ xrefs_shown xs ys
  unfolding xrefs_entries
  xrefs_entries-xrefs_shown (value xs) (value ys) =
      ap
        (λ l.
          l
          ++ when (not_empty {A = CacheItem Item} (tuples_from ys))
              (xrefs_from (hex_addr_tuples {Item = Item} (tuples_from ys))))
        (when_to xs)
      ∙ ap (λ l. listed xrefs_to (λ r. r.from) xs ++ l) (when_from ys)
  xrefs_entries-xrefs_shown (error e) (value ys) = refl
  xrefs_entries-xrefs_shown (value xs) (error f) = refl
  xrefs_entries-xrefs_shown (error e) (error f) = refl
