-- ===== src/Dispatch/Edits.antt =====
-- The dispatchers of internal/server/dispatch.go together with the handlers of
-- internal/server/write.go that they call: what a `set_type` or a `set_metadata` does to the caches.
use ida_pilot.Common.{
  string_key, ◌≡◌, ◌≢◌, ap, ◌∙◌, String, Bool, true, false, ℕ, Bool-cases, inl, inr, eqb, eqb_iff,
  ◌⊎◌,
}
use ida_pilot.Text.{codes}
use ida_pilot.Address.{ok, parse_addr}
use ida_pilot.Cache.{SessionCache}
use ida_pilot.Edit
use ida_pilot.Edit.{Reply, Outcome, invalid_argument}
use ida_pilot.Edit.{on_success, on_session, rpc_error, ida_error, unsuccessful, done}
use ida_pilot.Requests.{SetTypeRequest}
use ida_pilot.Dispatch.{
  set_name, delete_name, set_comment, set_function_type, set_global_type, set_lvar_type, Refusal,
  Routed, call, refused, set_type,
}
use ida_pilot.Dispatch.Checked.{Checked, set_type-Checked}

-- What the client is told: the dispatcher's refusal, or the outcome of the handler.
pub data Answer : Type 0 where
  rejected : Refusal → Answer
  handled : Outcome → Answer
  not_an_edit : Answer

abbrev pub Accepts : Answer → Type 0
Accepts a = a ≢ handled invalid_argument

-- The one argument that `set_type` lets pass and a handler refuses.
abbrev pub AtZero : SetTypeRequest → Type 0
AtZero q = (q.target ≡ "lvar") × (parse_addr (codes q.function_address) ≡ ok 0)

module _ {Item : Type 0} where
  abbrev pub handle : SessionCache Item × Outcome → SessionCache Item × Answer
  handle (c, o) = (c, handled o)

  -- The handler of a call, for the session that it names: whether that was resolved, the old name of
  -- the address and the worker's reply are arguments.
  unfoldable pub edit :
      (Item → ℕ)
      → Bool
      → (old_name : String) → Reply
      → SessionCache Item
      → Routed
      → SessionCache Item × Answer
  edit address resolved old reply c (call (set_name r)) =
      handle (Edit.set_name address resolved old reply c r.address)
  edit address resolved old reply c (call (delete_name r)) =
      handle (Edit.delete_name address resolved old reply c r.address)
  edit address resolved old reply c (call (set_comment r)) =
      handle (Edit.set_comment resolved reply c r.scope (codes r.comment) r.function_address)
  edit address resolved old reply c (call (set_function_type r)) =
      handle (Edit.set_function_type resolved old reply c (codes r.prototype) r.address)
  edit address resolved old reply c (call (set_global_type r)) =
      handle (Edit.set_global_type resolved old reply c (codes r.type))
  edit address resolved old reply c (call (set_lvar_type r)) =
      handle (Edit.set_lvar_type resolved reply c (codes r.lvar_type) r.function_address)
  edit address resolved old reply c (refused e) = (c, rejected e)
  edit address resolved old reply c other = (c, not_an_edit)

  on_session-Accepts :
      (resolved : Bool) (reply : Reply) (c edited : SessionCache Item)
      → Accepts (handle (on_session resolved c reply edited)).1
  unfolding on_session on_success
  on_session-Accepts false reply c edited e = cc
  on_session-Accepts true rpc_error c edited e = cc
  on_session-Accepts true ida_error c edited e = cc
  on_session-Accepts true unsuccessful c edited e = cc
  on_session-Accepts true done c edited e = cc

  accepted :
      (address : Item → ℕ) (resolved : Bool) (old : String) (reply : Reply) (c : SessionCache Item)
      (q : SetTypeRequest) (r : Routed)
      → Checked q r
      → Accepts (edit address resolved old reply c r).1 ⊎ AtZero q
  unfolding edit Edit.set_function_type Edit.set_global_type Edit.set_lvar_type
  accepted address resolved old reply c q (refused e) h = inl (λ x. cc)
  accepted address resolved old reply c q (call (set_function_type r)) h =
      rw h.4 (inl (on_session-Accepts resolved reply c _))
  accepted address resolved old reply c q (call (set_global_type r)) h =
      rw h.4 (inl (on_session-Accepts resolved reply c _))
  accepted address resolved old reply c q (call (set_lvar_type r)) h =
      elim (Bool-cases (eqb r.function_address 0)) [
        | inl z ↦ inr (h.0, h.1 ∙ ap ok ((eqb_iff r.function_address 0).0 z))
        | inr n ↦ rw (h.6, n) (inl (on_session-Accepts resolved reply c _))
      ]
  accepted address resolved old reply c q (call other) h = absurd h

  -- A `set_type` that is passed to its handler is not refused there for its arguments, unless it names
  -- a local variable of a function at address 0.
  pub set_type-accepted :
      (address : Item → ℕ) (resolved : Bool) (old : String) (reply : Reply) (c : SessionCache Item)
      (q : SetTypeRequest)
      → Accepts (edit address resolved old reply c (set_type q)).1 ⊎ AtZero q
  set_type-accepted address resolved old reply c q =
      accepted address resolved old reply c q (set_type q) (set_type-Checked q)
