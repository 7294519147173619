-- ===== src/Composite/Result.antt =====
-- internal/server/composite.go: the result map of `analyzeSingleFunction`, as a list of its entries in the
-- order of the code; `hexAddrTuples` of internal/server/util.go.
use ida_pilot.Common.{
  number_key, string_key, ◌==◌, ℕ, String, Bool, true, false, List, [], ◌∷◌, ◌++◌, Option, none,
  some, ltb, if◌then◌else◌,
}
use ida_pilot.Common.Map
use ida_pilot.Common.Map.{Map}
use ida_pilot.Text.{Text}
use ida_pilot.Address.{hex_addr}
use ida_pilot.Composite.{
  ResultEntry, decompilation, decompilation_error, name, start, end, size, calling_convention,
  return_type, num_args, flags, xrefs_to, xrefs_from, xrefs_error, comment, FunctionReply,
  CacheItem, message, tuple, TaskValue, as_code, as_info, as_xrefs, as_comment,
}

unfoldable pub when : Bool → ResultEntry → List ResultEntry
when b e = if b then e ∷ [] else []

unfoldable pub not_empty : {A : Type 0} → List A → Bool
not_empty [] = false
not_empty (x ∷ xs) = true

unfoldable pub flag_names : FunctionReply → List String
flag_names i =
    (if i.is_library then "is_library" ∷ [] else [])
    ++ (if i.is_thunk then "is_thunk" ∷ [] else [])
    ++ (if i.no_return then "no_return" ∷ [] else [])

unfoldable pub info_entries : FunctionReply → List ResultEntry
unfolding when flag_names not_empty
info_entries i =
    name i.name
    ∷ start (hex_addr i.start)
    ∷ end (hex_addr i.end)
    ∷ size i.size
    ∷ ((if i.calling_convention == "" then [] else calling_convention i.calling_convention ∷ [])
        ++ (if i.return_type == "" then [] else return_type i.return_type ∷ [])
        ++ when (ltb 0 i.num_args) (num_args i.num_args)
        ++ when (not_empty (flag_names i)) (flags (flag_names i)))

module _ {Item : Type 0} where
  -- `hexAddrTuples`.
  unfoldable pub hex_addr_tuples : List (CacheItem Item) → List (Text × ℕ)
  hex_addr_tuples [] = []
  hex_addr_tuples (tuple address type ∷ ts) = (hex_addr address, type) ∷ hex_addr_tuples ts
  hex_addr_tuples (message m ∷ ts) = hex_addr_tuples ts

  unfoldable pub decompiled_entries :
      Option (TaskValue Item) → Option (List String) → List ResultEntry
  decompiled_entries (some (as_code code)) e = decompilation code ∷ []
  decompiled_entries o none = []
  decompiled_entries o (some e) = decompilation_error e ∷ []

  unfoldable pub reply_entries : Option (TaskValue Item) → List ResultEntry
  unfolding info_entries
  reply_entries (some (as_info i)) = info_entries i
  reply_entries o = []

  unfoldable pub xrefs_entries : Option (TaskValue Item) → Option (List String) → List ResultEntry
  unfolding when not_empty hex_addr_tuples
  xrefs_entries (some (as_xrefs entry)) e =
      when (not_empty entry.to) (xrefs_to (hex_addr_tuples entry.to))
      ++ when (not_empty entry.from) (xrefs_from (hex_addr_tuples entry.from))
  xrefs_entries o none = []
  xrefs_entries o (some e) = xrefs_error e ∷ []

  unfoldable pub comment_entries : Option (TaskValue Item) → List ResultEntry
  comment_entries (some (as_comment text)) = if text == "" then [] else comment text ∷ []
  comment_entries o = []

  unfoldable pub result_of :
      Map String (TaskValue Item) × Map String (List String) → List ResultEntry
  unfolding decompiled_entries reply_entries xrefs_entries comment_entries
  result_of r =
      decompiled_entries (Map.lookup "decompiled" r.0) (Map.lookup "decompiled" r.1)
      ++ reply_entries (Map.lookup "info" r.0)
      ++ xrefs_entries (Map.lookup "xrefs" r.0) (Map.lookup "xrefs" r.1)
      ++ comment_entries (Map.lookup "comment" r.0)
