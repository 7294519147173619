-- ===== src/Tiers.antt =====
-- internal/server/server.go: the tool tiers, `promoteToTier`, `demoteToTier0`, the three `registerTier`
-- functions and the name lists that demotion removes.
-- The MCP server of the SDK is a parameter: `ToolServer` is what the code relies on.
pub mod Coherent
mod Tests
use ida_pilot.Common.{
  string_key, ◌==◌, ℕ, String, Bool, true, false, ◌&&◌, ◌||◌, not, List, [], ◌∷◌, ◌++◌, ◌≡◌, leb,
  ltb, eqb, if◌then◌else◌,
}

unfoldable pub elem : String → List String → Bool
elem n [] = false
elem n (m ∷ l) = if n == m then true else elem n l

-- `AddTool` makes a name available; `RemoveTools` makes names unavailable; neither touches another name.
pub record ToolServer : Type 1 where
  pub State : Type 0
  pub offers : State → String → Bool
  pub add_tool : String → State → State
  pub remove_tools : List String → State → State
  pub offers-add :
      (s : State) (n m : String) → offers (add_tool n s) m ≡ (if m == n then true else offers s m)
  pub offers-remove :
      (s : State) (ns : List String) (m : String)
      → offers (remove_tools ns s) m ≡ (if elem m ns then false else offers s m)

abbrev pub tier1_tool_names : List String
tier1_tool_names =
    "close_binary" ∷ "save_database" ∷ "survey_binary" ∷ "analyze_function" ∷ "analyze_functions"
    ∷ "set_analysis_note" ∷ "get_analysis_context" ∷ "prune_context" ∷ "read_memory" ∷ "get_disasm"
    ∷ "query" ∷ "get_references" ∷ "search" ∷ "inspect" ∷ "cross_reference" ∷ "cross_search"
    ∷ "run_auto_analysis" ∷ "watch_auto_analysis" ∷ "get_session_progress" ∷ []

-- `tier1Tools`.
unfoldable pub tier1_tools : Bool → List String
tier1_tools enable_py_eval =
    if enable_py_eval then tier1_tool_names ++ "py_eval" ∷ [] else tier1_tool_names

abbrev pub tier2_tool_names : List String
tier2_tool_names =
    "annotate_function" ∷ "set_metadata" ∷ "set_type" ∷ "make_function" ∷ "import_metadata" ∷ []

-- The names that the `registerTier` functions register, in their order.
abbrev pub tier0_registered : List String
tier0_registered = "open_binary" ∷ "list_sessions" ∷ "get_cached_output" ∷ []

abbrev pub tier1_always_registered : List String
tier1_always_registered =
    "close_binary" ∷ "save_database" ∷ "survey_binary" ∷ "analyze_function" ∷ "analyze_functions"
    ∷ "set_analysis_note" ∷ "get_analysis_context" ∷ "prune_context" ∷ "read_memory" ∷ "get_disasm"
    ∷ "query" ∷ "get_references" ∷ "search" ∷ "inspect" ∷ "cross_reference" ∷ "cross_search"
    ∷ "run_auto_analysis" ∷ "watch_auto_analysis" ∷ "get_session_progress" ∷ []

unfoldable pub tier1_registered : Bool → List String
tier1_registered enable_py_eval =
    tier1_always_registered ++ (if enable_py_eval then "py_eval" ∷ [] else [])

abbrev pub tier2_registered : List String
tier2_registered =
    "annotate_function" ∷ "set_metadata" ∷ "set_type" ∷ "make_function" ∷ "import_metadata" ∷ []

module _ (t : ToolServer) where
  open t use {State, offers, add_tool, remove_tools}

  pub record Tiers : Type 0 where
    pub tier : ℕ
    pub enable_py_eval : Bool
    pub tools : State

  unfoldable pub add_all : List String → State → State
  add_all [] s = s
  add_all (n ∷ ns) s = add_all ns (add_tool n s)

  unfoldable pub register_tier0 : Tiers → Tiers
  register_tier0 s = record s { tools = add_all tier0_registered s.tools }

  unfoldable pub register_tier1 : Tiers → Tiers
  register_tier1 s = record s { tools = add_all (tier1_registered s.enable_py_eval) s.tools }

  unfoldable pub register_tier2 : Tiers → Tiers
  register_tier2 s = record s { tools = add_all tier2_registered s.tools }

  unfoldable pub promote_to_tier : ℕ → Tiers → Tiers
  unfolding register_tier1 register_tier2
  promote_to_tier target s =
      let s1 = if leb 1 target && ltb s.tier 1 then register_tier1 s else s in
      let s2 = if leb 2 target && ltb s.tier 2 then register_tier2 s1 else s1 in
      if leb target s.tier then s else record s2 { tier = target }

  unfoldable pub demote_to_tier0 : Tiers → Tiers
  demote_to_tier0 s =
      let s1 =
        if leb 2 s.tier then record s { tools = remove_tools tier2_tool_names s.tools } else s in
      let s2 =
        if leb 1 s.tier
        then record s1 { tools = remove_tools (tier1_tools s.enable_py_eval) s1.tools }
        else s1 in
      if eqb s.tier 0 then s else record s2 { tier = 0 }

  -- `RegisterTools`.
  unfoldable pub register_tools : Tiers → Tiers
  unfolding register_tier0
  register_tools s = register_tier0 s

  -- `PromoteIfSessions`, by the number of sessions.
  unfoldable pub promote_if_sessions : ℕ → Tiers → Tiers
  unfolding promote_to_tier
  promote_if_sessions sessions s = if ltb 0 sessions then promote_to_tier 1 s else s
