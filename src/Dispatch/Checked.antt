-- ===== src/Dispatch/Checked.antt =====
-- What the dispatchers have checked when they call a handler, and why they refuse.
use ida_pilot.Common.{
  string_key, ◌==◌, ◌≡◌, ◌≤◌, refl, String, true, false, if◌then◌else◌, Bool-cases, inl, inr,
  eq_of_same,
}
use ida_pilot.Text.{codes, max_uint64}
use ida_pilot.Address.{Parsed, ok, err, parse_addr}
use ida_pilot.Address.RoundTrip.{parse_addr-bound}
use ida_pilot.Edit.{is_blank}
use ida_pilot.Requests.{SetTypeRequest}
use ida_pilot.Dispatch.{
  set_function_type, set_global_type, set_lvar_type, Routed, call, refused, invalid_target,
  bad_address, prototype_required, type_required, lvar_name_required, with_address, type_function,
  type_global, type_lvar, set_type,
}

-- The text that stands for the address of a request, by its target.
abbrev pub address_text : SetTypeRequest → String
address_text q = if q.target == "lvar" then q.function_address else q.address

abbrev pub Checked : SetTypeRequest → Routed → Type 0
Checked q (call (set_function_type r)) =
    (q.target ≡ "function")
    × (parse_addr (codes q.address) ≡ ok r.address)
    × (r.address ≤ max_uint64)
    × (r.prototype ≡ q.prototype)
    × (is_blank (codes r.prototype) ≡ false)
Checked q (call (set_global_type r)) =
    (q.target ≡ "global")
    × (parse_addr (codes q.address) ≡ ok r.address)
    × (r.address ≤ max_uint64)
    × (r.type ≡ q.type)
    × (is_blank (codes r.type) ≡ false)
Checked q (call (set_lvar_type r)) =
    (q.target ≡ "lvar")
    × (parse_addr (codes q.function_address) ≡ ok r.function_address)
    × (r.function_address ≤ max_uint64)
    × (r.lvar_name ≡ q.lvar_name)
    × (is_blank (codes r.lvar_name) ≡ false)
    × (r.lvar_type ≡ q.type)
    × (is_blank (codes r.lvar_type) ≡ false)
Checked q (refused invalid_target) =
    ((q.target == "function") ≡ false)
    × ((q.target == "global") ≡ false)
    × ((q.target == "lvar") ≡ false)
Checked q (refused (bad_address e)) = parse_addr (codes (address_text q)) ≡ err e
Checked q (refused prototype_required) =
    (q.target ≡ "function") × (is_blank (codes q.prototype) ≡ true)
Checked q (refused type_required) = is_blank (codes q.type) ≡ true
Checked q (refused lvar_name_required) = (q.target ≡ "lvar") × (is_blank (codes q.lvar_name) ≡ true)
Checked q r = ⊥

function-Checked :
    (q : SetTypeRequest) (p : Parsed)
    → q.target ≡ "function"
    → parse_addr (codes q.address) ≡ p
    → Checked q (with_address p (type_function q))
unfolding with_address type_function
function-Checked q (err e) t h = rw t h
function-Checked q (ok a) t h = elim (Bool-cases (is_blank (codes q.prototype))) [
  | inl b ↦ rw b (t, b)
  | inr b ↦ rw b (t, h, parse_addr-bound (codes q.address) a h, refl, b)
]

global-Checked :
    (q : SetTypeRequest) (p : Parsed)
    → q.target ≡ "global"
    → parse_addr (codes q.address) ≡ p
    → Checked q (with_address p (type_global q))
unfolding with_address type_global
global-Checked q (err e) t h = rw t h
global-Checked q (ok a) t h = elim (Bool-cases (is_blank (codes q.type))) [
  | inl b ↦ rw b b
  | inr b ↦ rw b (t, h, parse_addr-bound (codes q.address) a h, refl, b)
]

lvar-Checked :
    (q : SetTypeRequest) (p : Parsed)
    → q.target ≡ "lvar"
    → parse_addr (codes q.function_address) ≡ p
    → Checked q (with_address p (type_lvar q))
unfolding with_address type_lvar
lvar-Checked q (err e) t h = rw t h
lvar-Checked q (ok a) t h = elim (Bool-cases (is_blank (codes q.lvar_name))) [
  | inl b ↦ rw b (t, b)
  | inr n ↦ elim (Bool-cases (is_blank (codes q.type))) [
    | inl b ↦ rw (n, b) b
    | inr b ↦ rw (n, b) (t, h, parse_addr-bound (codes q.function_address) a h, refl, n, refl, b)
  ]
]

-- On every request, `set_type` calls the handler of the target, with a parsed address of 64 bits and
-- with texts that are not blank, or refuses it for the reason that it gives.
pub set_type-Checked : (q : SetTypeRequest) → Checked q (set_type q)
unfolding set_type
set_type-Checked q = elim (Bool-cases (q.target == "function")) [
  | inl f ↦
      rw f
        (function-Checked q (parse_addr (codes q.address)) (eq_of_same q.target "function" f) refl)
  | inr f ↦ elim (Bool-cases (q.target == "global")) [
    | inl g ↦
        rw (f, g)
          (global-Checked q (parse_addr (codes q.address)) (eq_of_same q.target "global" g) refl)
    | inr g ↦ elim (Bool-cases (q.target == "lvar")) [
      | inl l ↦
          rw (f, g, l)
            (lvar-Checked q (parse_addr (codes q.function_address)) (eq_of_same q.target "lvar" l)
              refl)
      | inr l ↦ rw (f, g, l) (f, g, l)
    ]
  ]
]
