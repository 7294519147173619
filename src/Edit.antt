-- ===== src/Edit.antt =====
-- internal/server/write.go: the tools that edit the database, as what each does to the caches of its
-- session and whether it succeeds.
-- The session resolution and the worker's replies are arguments; a text argument is the list of its
-- code points where the code trims it.
pub mod Stale
mod Tests
use ida_pilot.Common.{
  string_key, ◌==◌, ℕ, String, Bool, true, false, List, [], ◌∷◌, eqb, if◌then◌else◌,
}
use ida_pilot.Text.{Text, trim_space}
use ida_pilot.Address.{Parsed, ok, err, parse_addr}
use ida_pilot.Cache.{
  SessionCache, invalidate_functions, invalidate_decomp, invalidate_decomp_by_old_name,
  is_cached_function, invalidate_all_xrefs,
}

-- The reply to the call that edits: a transport error, an error message, no success, or success.
pub data Reply : Type 0 where
  rpc_error : Reply
  ida_error : Reply
  unsuccessful : Reply
  done : Reply

pub data Outcome : Type 0 where
  invalid_argument : Outcome
  unresolved : Outcome
  failed : Reply → Outcome
  success : Outcome

unfoldable pub is_empty : Text → Bool
is_empty [] = true
is_empty (c ∷ t) = false

-- `strings.TrimSpace(s) == ""`.
unfoldable pub is_blank : Text → Bool
unfolding is_empty
is_blank s = is_empty (trim_space s)

module _ {Item : Type 0} where
  -- The checks of a reply, in front of what a successful edit invalidates.
  unfoldable pub on_success :
      SessionCache Item → Reply → SessionCache Item → SessionCache Item × Outcome
  on_success c done edited = (edited, success)
  on_success c rpc_error edited = (c, failed rpc_error)
  on_success c ida_error edited = (c, failed ida_error)
  on_success c unsuccessful edited = (c, failed unsuccessful)

  unfoldable pub on_session :
      Bool → SessionCache Item → Reply → SessionCache Item → SessionCache Item × Outcome
  unfolding on_success
  on_session resolved c reply edited =
      if resolved then on_success c reply edited else (c, unresolved)

  -- What `setName` and `deleteName` invalidate. Whether the address is a function is asked before the
  -- list of functions is dropped.
  unfoldable pub renamed : (Item → ℕ) → SessionCache Item → ℕ → String → SessionCache Item
  renamed address c addr old_name =
      let is_func = is_cached_function address c addr in
      let c1 = invalidate_functions c in
      if is_func
      then invalidate_decomp c1 addr
      else if old_name == ""
      then c1
      else (invalidate_decomp_by_old_name c1 old_name).0

  unfoldable pub set_name :
      (Item → ℕ)
      → Bool
      → (old_name : String) → Reply
      → SessionCache Item
      → (addr : ℕ) → SessionCache Item × Outcome
  unfolding on_session renamed
  set_name address resolved old_name reply c addr =
      on_session resolved c reply (renamed address c addr old_name)

  unfoldable pub delete_name :
      (Item → ℕ)
      → Bool
      → (old_name : String) → Reply
      → SessionCache Item
      → (addr : ℕ) → SessionCache Item × Outcome
  unfolding on_session renamed
  delete_name address resolved old_name reply c addr =
      on_session resolved c reply (renamed address c addr old_name)

  unfoldable pub set_comment :
      Bool
      → Reply
      → SessionCache Item
      → (scope : String) → (comment : Text) → (function_address : ℕ) → SessionCache Item × Outcome
  unfolding on_session is_blank
  set_comment resolved reply c scope comment function_address =
      let missing = if resolved then (c, invalid_argument) else (c, unresolved) in
      if is_blank comment
      then (c, invalid_argument)
      else if scope == "decompiler"
      then (if eqb function_address 0
          then missing
          else on_session resolved c reply (invalidate_decomp c function_address))
      else on_session resolved c reply c

  unfoldable pub set_lvar_type :
      Bool
      → Reply
      → SessionCache Item
      → (lvar_type : Text) → (function_address : ℕ) → SessionCache Item × Outcome
  unfolding on_session is_blank
  set_lvar_type resolved reply c lvar_type function_address =
      if is_blank lvar_type
      then (c, invalid_argument)
      else if eqb function_address 0
      then (c, invalid_argument)
      else on_session resolved c reply (invalidate_decomp c function_address)

  unfoldable pub set_global_type :
      Bool
      → (old_name : String) → Reply
      → SessionCache Item
      → (type : Text) → SessionCache Item × Outcome
  unfolding on_session is_blank
  set_global_type resolved old_name reply c type =
      if is_blank type
      then (c, invalid_argument)
      else on_session resolved c reply
          (if old_name == "" then c else (invalidate_decomp_by_old_name c old_name).0)

  unfoldable pub set_function_type :
      Bool
      → (old_name : String) → Reply
      → SessionCache Item
      → (prototype : Text) → (addr : ℕ) → SessionCache Item × Outcome
  unfolding on_session is_blank
  set_function_type resolved old_name reply c prototype addr =
      let c1 = invalidate_decomp c addr in
      if is_blank prototype
      then (c, invalid_argument)
      else on_session resolved c reply
          (if old_name == "" then c1 else (invalidate_decomp_by_old_name c1 old_name).0)

  -- The address is parsed once the session is resolved.
  unfoldable pub at_parsed : Parsed → SessionCache Item → Reply → SessionCache Item × Outcome
  unfolding on_success
  at_parsed (err e) c reply = (c, invalid_argument)
  at_parsed (ok addr) c reply = on_success c reply (invalidate_all_xrefs (invalidate_functions c))

  unfoldable pub make_function :
      Bool → Reply → SessionCache Item → (address : Text) → SessionCache Item × Outcome
  unfolding at_parsed
  make_function resolved reply c address =
      if resolved then at_parsed (parse_addr address) c reply else (c, unresolved)
