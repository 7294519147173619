-- ===== src/Edit/Stale.antt =====
-- What an edit leaves in the caches of its session: nothing changes unless it succeeds, and what a
-- rename or a new prototype makes stale is gone.
use ida_pilot.Common.{
  number_key, string_key, ◌==◌, ℕ, ◌≡◌, refl, ap, ◌∙◌, ◌⊎◌, String, Bool, true, false, none, eqb,
  if◌then◌else◌, Bool-cases, inl, inr,
}
use ida_pilot.Text.{Text, codes, contains}
use ida_pilot.Address.{Parsed, ok, err, parse_addr}
use ida_pilot.Cache.{
  SessionCache, invalidate_functions, invalidate_decomp, invalidate_decomp_by_old_name,
  is_cached_function, delete_from,
}
use ida_pilot.Cache.Entries.{text_of, unless, Healthy, delete_from-text_of, purge_from-text_of}
use ida_pilot.Edit.{
  Reply, done, Outcome, success, invalid_argument, on_success, on_session, is_blank, renamed,
  set_name, delete_name, set_comment, set_lvar_type, set_global_type, set_function_type,
  make_function, at_parsed, rpc_error, ida_error, unsuccessful,
}

-- Whether a text shows the name.
abbrev pub shows : String → String → Bool
shows name code = contains (codes code) (codes name)

module _ {Item : Type 0} where
  -- A call changes its cache only if it succeeds.
  abbrev pub KeepsOnFailure : SessionCache Item → SessionCache Item × Outcome → Type 0
  KeepsOnFailure c out = (out.1 ≡ success) ⊎ (out.0 ≡ c)

  on_success-keeps :
      (c : SessionCache Item) (reply : Reply) (edited : SessionCache Item)
      → KeepsOnFailure c (on_success c reply edited)
  unfolding on_success
  on_success-keeps c done edited = inl refl
  on_success-keeps c rpc_error edited = inr refl
  on_success-keeps c ida_error edited = inr refl
  on_success-keeps c unsuccessful edited = inr refl

  on_session-keeps :
      (r : Bool) (c : SessionCache Item) (reply : Reply) (edited : SessionCache Item)
      → KeepsOnFailure c (on_session r c reply edited)
  unfolding on_session
  on_session-keeps true c reply edited = on_success-keeps c reply edited
  on_session-keeps false c reply edited = inr refl

  set_comment-keeps :
      (r : Bool) (reply : Reply) (c : SessionCache Item) (scope : String) (comment : Text) (f : ℕ)
      → KeepsOnFailure c (set_comment r reply c scope comment f)
  unfolding set_comment
  set_comment-keeps r reply c scope comment f = elim (Bool-cases (is_blank comment)) [
    | inl e ↦ rw e (inr refl)
    | inr e ↦ elim (Bool-cases (scope == "decompiler")) [
      | inl d ↦ elim (Bool-cases (eqb f 0)) [
        | inl z ↦
            rw (e, d, z) (elim (Bool-cases r) [ inl y ↦ rw y (inr refl) | inr y ↦ rw y (inr refl) ])
        | inr z ↦ rw (e, d, z) (on_session-keeps r c reply _)
      ]
      | inr d ↦ rw (e, d) (on_session-keeps r c reply _)
    ]
  ]

  at_parsed-keeps :
      (p : Parsed) (c : SessionCache Item) (reply : Reply) → KeepsOnFailure c (at_parsed p c reply)
  unfolding at_parsed
  at_parsed-keeps (ok a) c reply = on_success-keeps c reply _
  at_parsed-keeps (err e) c reply = inr refl

  blank_or :
      (b : Bool) (c : SessionCache Item) (out : SessionCache Item × Outcome)
      → KeepsOnFailure c out
      → KeepsOnFailure c (if b then (c, invalid_argument) else out)
  blank_or true c out k = inr refl
  blank_or false c out k = k

  -- Each of the seven edits, whatever its arguments and the worker's reply, leaves the caches of its
  -- session as they were, unless it reports success.
  pub edits_keep_on_failure :
      (address : Item → ℕ) (r : Bool) (old : String) (reply : Reply) (c : SessionCache Item) (a : ℕ)
      (scope : String) (t : Text)
      → KeepsOnFailure c (set_name address r old reply c a)
        × KeepsOnFailure c (delete_name address r old reply c a)
        × KeepsOnFailure c (set_comment r reply c scope t a)
        × KeepsOnFailure c (set_lvar_type r reply c t a)
        × KeepsOnFailure c (set_global_type r old reply c t)
        × KeepsOnFailure c (set_function_type r old reply c t a)
        × KeepsOnFailure c (make_function r reply c t)
  unfolding set_name delete_name set_lvar_type set_global_type set_function_type make_function
  edits_keep_on_failure address r old reply c a scope t = (
    on_session-keeps r c reply _,
    on_session-keeps r c reply _,
    set_comment-keeps r reply c scope t a,
    blank_or (is_blank t) c _ (blank_or (eqb a 0) c _ (on_session-keeps r c reply _)),
    blank_or (is_blank t) c _ (on_session-keeps r c reply _),
    blank_or (is_blank t) c _ (on_session-keeps r c reply _),
    elim (Bool-cases r) [
      | inl y ↦ rw y (at_parsed-keeps (parse_addr t) c reply)
      | inr y ↦ rw y (inr refl)
    ],
  )

  -- After a successful rename of what is not a cached function, the pseudocode that shows the old name is
  -- gone, all other pseudocode is kept, and the list of functions is to be loaded again.
  pub set_name-label :
      (address : Item → ℕ) (old : String) (c : SessionCache Item) (addr a : ℕ)
      → Healthy c.decomp
      → is_cached_function address c addr ≡ false
      → (old == "") ≡ false
      → let out = set_name address true old done c addr in
        (out.1 ≡ success)
        × (out.0.functions ≡ none)
        × (text_of out.0.decomp a ≡ unless (shows old) (text_of c.decomp a))
  unfolding set_name on_session on_success renamed invalidate_functions
      invalidate_decomp_by_old_name
  set_name-label address old c addr a w label named =
      rw (label, named) (refl, refl, (purge_from-text_of c.decomp (shows old) a w).0)

  -- After a successful rename of a cached function its own pseudocode is gone. All other pseudocode stays,
  -- also that which shows the function's old name.
  pub set_name-function :
      (address : Item → ℕ) (old : String) (c : SessionCache Item) (addr a : ℕ)
      → Healthy c.decomp
      → is_cached_function address c addr ≡ true
      → let out = set_name address true old done c addr in
        (out.1 ≡ success)
        × (out.0.functions ≡ none)
        × (text_of out.0.decomp a ≡ (if addr == a then none else text_of c.decomp a))
  unfolding set_name on_session on_success renamed invalidate_functions invalidate_decomp
  set_name-function address old c addr a w function =
      rw function (refl, refl, (delete_from-text_of c.decomp addr a w).0)

  -- After a successful change of a prototype, the function's own pseudocode is gone, and so is all that
  -- shows its name; all other pseudocode is kept.
  pub set_function_type-callers :
      (old : String) (c : SessionCache Item) (t : Text) (addr a : ℕ)
      → Healthy c.decomp
      → is_blank t ≡ false
      → (old == "") ≡ false
      → let out = set_function_type true old done c t addr in
        (out.1 ≡ success)
        × (text_of out.0.decomp a
            ≡ unless (shows old) (if addr == a then none else text_of c.decomp a))
  unfolding set_function_type on_session on_success invalidate_decomp invalidate_decomp_by_old_name
  set_function_type-callers old c t addr a w given named =
      let d = delete_from-text_of c.decomp addr a w in
      rw (given, named)
        (
          refl,
          (purge_from-text_of (delete_from c.decomp addr) (shows old) a d.1).0
              ∙ ap (unless (shows old)) d.0,
        )
