-- ===== src/Cross/Results.antt =====
-- What `crossSearch` and `crossReference` find.
use ida_pilot.Common.{
  ◌==◌, ◌≡◌, ◌≤◌, ◌∙◌, ◌↔◌, ◌≢◌, ◌⊎◌, keep, ◌&&◌, ltb, leb, string_key, refl, sym, ap, ℕ, String,
  Bool, true, false, ◌||◌, List, [], ◌∷◌, Option, none, some, map, take, if◌then◌else◌, arith,
  Bool-cases, inl, inr, subst, eq_of_same,
}
use ida_pilot.Common.Int.{ℤ, pos, negsuc}
use ida_pilot.Text.{Text, codes}
use ida_pilot.Paging.{max_page_limit}
use ida_pilot.Lists.{Library, compile_regex}
use ida_pilot.Requests.{CrossSearchRequest}
use ida_pilot.Cross.{
  Binary, CrossMatch, Session, unresolved, resolved, SessionResult, session_error, session_items,
  invalid_mode, searched, as_searched, Entry, entries, as_named, as_imported, as_value,
  match_filter, search_items, search_limit, add_result, search_session, search_all, or_all,
  search_sessions, cross_search,
}

pub search_limit-le : (limit : ℤ) → search_limit limit ≤ max_page_limit
unfolding search_limit
search_limit-le (pos n) = ground arith
search_limit-le (negsuc n) = omega arith

abbrev pub is_resolved : Session → Bool
is_resolved unresolved = false
is_resolved (resolved id path b) = true

-- Whether any session of a search can be resolved.
unfoldable pub any_resolved : (String → Session) → List String → Bool
any_resolved resolve [] = false
any_resolved resolve (sid ∷ ids) =
    if is_resolved (resolve sid) then true else any_resolved resolve ids

abbrev pub is_mode : String → Bool
is_mode mode = mode == "functions" || mode == "imports" || mode == "exports" || mode == "strings"

no_items :
    (mode : String) (passes : String → Bool) (b : Binary)
    → is_mode mode ≡ false
    → search_items mode passes b ≡ none
unfolding search_items
no_items mode passes b h = ground arith

-- Whether a name matches: it is the needle, if there is one, and otherwise the expression finds it, if
-- there is one.
abbrev pub Matches : String → Option (Text → Bool) → String → Type 0
Matches name none needle = (needle ≡ "") ⊎ (name ≡ needle)
Matches name (some finds) needle =
    ((needle ≡ "") × (finds (codes name) ≡ true)) ⊎ ((needle ≢ "") × (name ≡ needle))

match_filter_iff :
    (name : String) (pattern : Option (Text → Bool)) (needle : String)
    → (match_filter name pattern needle ≡ true) ↔ Matches name pattern needle
unfolding match_filter
match_filter_iff name none needle = elim (Bool-cases (needle == "")) [
  | inl e ↦ ((λ h. inl (eq_of_same needle "" e)), (λ h. rw e refl))
  | inr e ↦ ground (arith, string_key.same_iff needle "", string_key.same_iff name needle)
]
match_filter_iff name (some finds) needle = elim (Bool-cases (needle == "")) [
  | inl e ↦ ground (arith, string_key.same_iff needle "", string_key.same_iff name needle)
  | inr e ↦ ground (arith, string_key.same_iff needle "", string_key.same_iff name needle)
]

-- The part of a list whose elements have a property, in order.
pub data Selected {A : Type 0} (P : A → Type 0) : List A → List A → Type 0 where
  none_left : Selected P [] []
  picks : {x : A} {l k : List A} → P x → Selected P l k → Selected P (x ∷ l) (x ∷ k)
  skips : {x : A} {l k : List A} → ¬ P x → Selected P l k → Selected P (x ∷ l) k

keep-Selected :
    {A : Type 0} (p : A → Bool) (P : A → Type 0)
    → ((x : A) → (p x ≡ true) ↔ P x)
    → (l : List A) → Selected P l (keep p l)
keep-Selected p P iff [] = none_left
keep-Selected p P iff (x ∷ l) = elim (Bool-cases (p x)) [
  | inl e ↦ rw e (picks ((iff x).0 e) (keep-Selected p P iff l))
  | inr e ↦ rw e (
      skips (λ h. let c : false ≡ true = sym e ∙ (iff x).1 h in absurd (cc))
        (keep-Selected p P iff l))
]

-- The items of a session for a mode: those of the mode's list whose names have a property.
pub data ItemsOf (P : String → Type 0) (b : Binary) (mode : String) (items : List CrossMatch)
    : Type 0 where
  functions_of :
      (es : List Entry)
      → mode ≡ "functions"
      → Selected (λ e. P e.name) (entries b.functions) es
      → items ≡ map (as_named "") es
      → ItemsOf P b mode items
  imports_of :
      (es : List Entry)
      → mode ≡ "imports"
      → Selected (λ e. P e.name) (entries b.imports) es
      → items ≡ map as_imported es
      → ItemsOf P b mode items
  exports_of :
      (es : List Entry)
      → mode ≡ "exports"
      → Selected (λ e. P e.name) (entries b.exports) es
      → items ≡ map (as_named "") es
      → ItemsOf P b mode items
  strings_of :
      (es : List Entry)
      → mode ≡ "strings"
      → Selected (λ e. P e.name) (entries b.strings) es
      → items ≡ map as_value es
      → ItemsOf P b mode items

some_items :
    (mode : String) (passes : String → Bool) (P : String → Type 0) (b : Binary)
    → ((name : String) → (passes name ≡ true) ↔ P name)
    → is_mode mode ≡ true
    → (items : List CrossMatch) × (search_items mode passes b ≡ some items) × ItemsOf P b mode items
unfolding search_items
some_items mode passes P b iff h =
    let part = λ (es : Option (List Entry)).
      keep-Selected (λ e. passes e.name) (λ e. P e.name) (λ e. iff e.name) (entries es) in
    elim (Bool-cases (mode == "functions")) [
      | inl e ↦
          (_, rw e refl, functions_of _ (eq_of_same mode "functions" e) (part b.functions) refl)
      | inr n1 ↦ elim (Bool-cases (mode == "imports")) [
        | inl e ↦
            (_, rw (n1, e) refl, imports_of _ (eq_of_same mode "imports" e) (part b.imports) refl)
        | inr n2 ↦ elim (Bool-cases (mode == "exports")) [
          | inl e ↦ (
            _,
            rw (n1, n2, e) refl,
            exports_of _ (eq_of_same mode "exports" e) (part b.exports) refl,
          )
          | inr n3 ↦ elim (Bool-cases (mode == "strings")) [
            | inl e ↦ (
              _,
              rw (n1, n2, n3, e) refl,
              strings_of _ (eq_of_same mode "strings" e) (part b.strings) refl,
            )
            | inr n4 ↦ absurd (ground arith)
          ]
        ]
      ]
    ]

session-none :
    (mode : String) (passes : String → Bool) (limit : ℕ) (sid : String) (s : Session)
    → is_mode mode ≡ false
    → search_session mode passes limit sid s
      ≡ (if is_resolved s then none else some (session_error sid))
unfolding search_session
session-none mode passes limit sid unresolved h = refl
session-none mode passes limit sid (resolved id path b) h = ground (arith, no_items mode passes b h)

search_all-none :
    (mode : String) (passes : String → Bool) (limit : ℕ) (resolve : String → Session)
    (ids : List String)
    → is_mode mode ≡ false
    → search_all mode passes limit resolve ids
      ≡ (if any_resolved resolve ids then none else some (map session_error ids))
unfolding search_all any_resolved add_result
search_all-none mode passes limit resolve [] h = refl
search_all-none mode passes limit resolve (sid ∷ ids) h = ground (
  arith,
  session-none mode passes limit sid (resolve sid) h,
  search_all-none mode passes limit resolve ids h,
)

-- The result for one session: its error, or its matching items up to the limit.
module _ (mode : String) (P : String → Type 0) (limit : ℕ) where
  abbrev pub AnswerOf : String → Session → SessionResult → Type 0
  AnswerOf sid unresolved r = r ≡ session_error sid
  AnswerOf sid (resolved id path b) r =
      (items : List CrossMatch) × ItemsOf P b mode items
      × (r ≡ session_items id path (take limit items))

  abbrev pub Answered : (String → Session) → List String → List SessionResult → Type 0
  Answered resolve [] [] = Unit
  Answered resolve (sid ∷ ids) (r ∷ rs) = AnswerOf sid (resolve sid) r × Answered resolve ids rs
  Answered resolve [] (r ∷ rs) = ⊥
  Answered resolve (sid ∷ ids) [] = ⊥

  module _ (passes : String → Bool) (iff : (name : String) → (passes name ≡ true) ↔ P name) where
    session-some :
        (sid : String) (s : Session)
        → is_mode mode ≡ true
        → (r : SessionResult) × (search_session mode passes limit sid s ≡ some r) × AnswerOf sid s r
    unfolding search_session
    session-some sid unresolved h = (session_error sid, refl, refl)
    session-some sid (resolved id path b) h =
        let (items, e, found) = some_items mode passes P b iff h in
        (session_items id path (take limit items), ground (arith, e), (items, found, refl))

    search_all-some :
        (resolve : String → Session) (ids : List String)
        → is_mode mode ≡ true
        → (rs : List SessionResult) × (search_all mode passes limit resolve ids ≡ some rs)
          × Answered resolve ids rs
    unfolding search_all add_result
    search_all-some resolve [] h = ([], refl, tt)
    search_all-some resolve (sid ∷ ids) h =
        let (r, e, a) = session-some sid (resolve sid) h in
        let (rs, es, more) = search_all-some resolve ids h in
        (r ∷ rs, ground (arith, e, es), (a, more))

-- The limit that a request gets: its own from 1 to 10000, and 100 otherwise.
abbrev pub limit_of : ℤ → ℕ
limit_of (negsuc n) = 100
limit_of (pos n) = if ltb 0 n && leb n 10000 then n else 100

search_limit_lem : (limit : ℤ) → search_limit limit ≡ limit_of limit
unfolding search_limit
search_limit_lem (pos n) = ground arith
search_limit_lem (negsuc n) = refl

named : (mode : String) → is_mode mode ≡ true → (mode == "") ≡ false
named mode h = elim (Bool-cases (mode == "")) [
  | inr n ↦ n
  | inl e ↦ absurd (subst (λ m. is_mode m ≡ true → ⊥) (sym (eq_of_same mode "" e)) (λ x. cc) h)
]

-- A search in a mode that there is, over at least one session and with an expression that compiles,
-- answers for every session, in their order: with its error, or with the items of the mode whose names
-- match, in their order and up to the limit. The limit is that of the request from 1 to 10000, and 100
-- otherwise.
pub cross_search-Answered :
    (lib : Library) (q : CrossSearchRequest) (resolve : String → Session) (active : List String)
    (sid : String) (ids : List String) (pattern : Option (Text → Bool))
    → is_mode q.mode ≡ true
    → or_all q.session_ids active ≡ sid ∷ ids
    → compile_regex lib (codes q.regex) true ≡ some pattern
    → (rs : List SessionResult) × (cross_search lib q resolve active ≡ searched rs)
      × Answered q.mode
          (λ name. Matches name pattern q.needle)
          (limit_of q.limit)
          resolve
          (sid ∷ ids)
          rs
unfolding cross_search search_sessions
cross_search-Answered lib q resolve active sid ids pattern mode some_ids compiled =
    let passes : String → Bool = λ name. match_filter name pattern q.needle in
    let (rs, e, a) =
      search_all-some q.mode (λ name. Matches name pattern q.needle) (limit_of q.limit) passes
        (λ name. match_filter_iff name pattern q.needle) resolve (sid ∷ ids) mode in
    (
      rs,
      rw (named q.mode mode, compiled, some_ids)
          (ap (λ n. as_searched (search_all q.mode passes n resolve (sid ∷ ids)))
              (search_limit_lem q.limit)
            ∙ ap as_searched e),
      a,
    )

-- A mode that is given and that there is not is refused exactly if some session can be resolved. If none
-- can, the search succeeds with their errors.
pub invalid_mode_lem :
    (lib : Library) (q : CrossSearchRequest) (resolve : String → Session) (active : List String)
    (sid : String) (ids : List String) (pattern : Option (Text → Bool))
    → (q.mode == "") ≡ false
    → is_mode q.mode ≡ false
    → or_all q.session_ids active ≡ sid ∷ ids
    → compile_regex lib (codes q.regex) true ≡ some pattern
    → cross_search lib q resolve active ≡ (
        if any_resolved resolve (sid ∷ ids)
        then invalid_mode
        else searched (map session_error (sid ∷ ids)))
unfolding cross_search search_sessions
invalid_mode_lem lib q resolve active sid ids pattern given unknown some_ids compiled =
    rw (given, compiled, some_ids)
      (ap as_searched (
          search_all-none q.mode (λ name. match_filter name pattern q.needle) (search_limit q.limit)
            resolve (sid ∷ ids) unknown)
        ∙ choose (any_resolved resolve (sid ∷ ids)) (map session_error (sid ∷ ids)))
  where
    choose :
        (b : Bool) (rs : List SessionResult)
        → as_searched (if b then none else some rs) ≡ (if b then invalid_mode else searched rs)
    choose true rs = refl
    choose false rs = refl
