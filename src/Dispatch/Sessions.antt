-- ===== src/Dispatch/Sessions.antt =====
-- The session that a call is for, through every dispatcher.
use ida_pilot.Common.{string_key, ◌≡◌, String, arith, ℕ}
use ida_pilot.Text.{codes}
use ida_pilot.Address.{Parsed, ok, err, parse_addr, parse_addr_default}
use ida_pilot.Requests.{
  QueryRequest, GetReferencesRequest, SearchRequest, SetMetadataRequest, SetTypeRequest,
  ImportMetadataRequest,
}
use ida_pilot.Dispatch.{
  Call, get_functions, get_imports, get_exports, get_strings, get_globals, get_segments,
  get_structs, get_enums, get_entry_point, get_xrefs, get_data_refs, get_string_xrefs, find_text,
  find_binary, set_name, delete_name, set_comment, set_function_type, set_global_type,
  set_lvar_type, import_il2cpp, import_flutter, Routed, call, refused, with_address, query,
  references_at, get_references, search_between, search_for, comment_at, metadata_at, set_metadata,
  type_function, type_global, type_lvar, set_type, import_metadata,
}

-- The session ID in the request of a call.
abbrev pub session_of : Call → String
session_of (get_functions r) = r.session_id
session_of (get_imports r) = r.session_id
session_of (get_exports r) = r.session_id
session_of (get_strings r) = r.session_id
session_of (get_globals r) = r.session_id
session_of (get_segments r) = r.session_id
session_of (get_structs r) = r.session_id
session_of (get_enums r) = r.session_id
session_of (get_entry_point r) = r.session_id
session_of (get_xrefs r) = r.session_id
session_of (get_data_refs r) = r.session_id
session_of (get_string_xrefs r) = r.session_id
session_of (find_text r) = r.session_id
session_of (find_binary r) = r.session_id
session_of (set_name r) = r.session_id
session_of (delete_name r) = r.session_id
session_of (set_comment r) = r.session_id
session_of (set_function_type r) = r.session_id
session_of (set_global_type r) = r.session_id
session_of (set_lvar_type r) = r.session_id
session_of (import_il2cpp r) = r.session_id
session_of (import_flutter r) = r.session_id

abbrev pub IsFor : String → Routed → Type 0
IsFor id (call c) = session_of c ≡ id
IsFor id (refused e) = Unit

with_address-IsFor :
    (id : String) (p : Parsed) (next : ℕ → Routed)
    → ((addr : ℕ) → IsFor id (next addr))
    → IsFor id (with_address p next)
unfolding with_address
with_address-IsFor id (ok addr) next h = h addr
with_address-IsFor id (err e) next h = tt

query-IsFor : (q : QueryRequest) → IsFor q.session_id (query q)
unfolding query
query-IsFor q = ground arith

references_at-IsFor :
    (q : GetReferencesRequest) (addr : ℕ) → IsFor q.session_id (references_at q addr)
unfolding references_at
references_at-IsFor q addr = ground arith

search_between-IsFor :
    (q : SearchRequest) (start stop : ℕ) → IsFor q.session_id (search_between q start stop)
unfolding search_between
search_between-IsFor q start stop = ground arith

metadata_at-IsFor : (q : SetMetadataRequest) (addr : ℕ) → IsFor q.session_id (metadata_at q addr)
unfolding metadata_at with_address comment_at
metadata_at-IsFor q addr = ground arith

set_type-IsFor : (q : SetTypeRequest) → IsFor q.session_id (set_type q)
unfolding set_type with_address type_function type_global type_lvar
set_type-IsFor q = ground arith

import_metadata-IsFor : (q : ImportMetadataRequest) → IsFor q.session_id (import_metadata q)
unfolding import_metadata
import_metadata-IsFor q = ground arith

-- Whatever handler one of the six dispatchers calls, it is called for the session of the request.
pub dispatch-IsFor :
    (a : QueryRequest) (b : GetReferencesRequest) (c : SearchRequest) (d : SetMetadataRequest)
    (e : SetTypeRequest) (f : ImportMetadataRequest)
    → IsFor a.session_id (query a)
      × IsFor b.session_id (get_references b)
      × IsFor c.session_id (search_for c)
      × IsFor d.session_id (set_metadata d)
      × IsFor e.session_id (set_type e)
      × IsFor f.session_id (import_metadata f)
unfolding get_references search_for set_metadata
dispatch-IsFor a b c d e f = (
  query-IsFor a,
  with_address-IsFor b.session_id (parse_addr (codes b.address)) (references_at b)
      (references_at-IsFor b),
  with_address-IsFor c.session_id (parse_addr_default (codes c.start) 0)
      (λ start. with_address (parse_addr_default (codes c.end) 0) (search_between c start))
      (λ start.
        with_address-IsFor c.session_id (parse_addr_default (codes c.end) 0)
          (search_between c start) (search_between-IsFor c start)),
  with_address-IsFor d.session_id (parse_addr (codes d.address)) (metadata_at d)
      (metadata_at-IsFor d),
  set_type-IsFor e,
  import_metadata-IsFor f,
)
