-- ===== src/Dispatch.antt =====
-- internal/server/dispatch.go: the tools that stand for several others. Each reads its request, and
-- passes a request of its own to one handler or refuses the call.
-- A `Call` is the handler that is called with the request that it is given; `context`, the request of
-- the protocol and the texts of the errors are left out.
pub mod Sessions
pub mod Checked
pub mod Edits
mod Tests
use ida_pilot.Common.{string_key, ◌==◌, ℕ, String, Bool, true, false, ◌||◌, if◌then◌else◌}
use ida_pilot.Text.{codes}
use ida_pilot.Address.{Parsed, AddrError, ok, err, parse_addr, parse_addr_default}
use ida_pilot.Edit.{is_blank}
use ida_pilot.Requests.{
  GetFunctionsRequest, GetImportsRequest, GetExportsRequest, GetStringsRequest, GetGlobalsRequest,
  GetSegmentsRequest, GetStructsRequest, GetEnumsRequest, GetEntryPointRequest, GetXrefsRequest,
  DataRefRequest, StringXrefRequest, FindTextRequest, FindBinaryRequest, SetNameRequest,
  DeleteNameRequest, SetCommentRequest, SetFunctionTypeRequest, SetGlobalTypeRequest,
  SetLvarTypeRequest, ImportIl2cppRequest, ImportFlutterRequest, QueryRequest, GetReferencesRequest,
  SearchRequest, SetMetadataRequest, SetTypeRequest, ImportMetadataRequest,
}

pub data Call : Type 0 where
  get_functions : GetFunctionsRequest → Call
  get_imports : GetImportsRequest → Call
  get_exports : GetExportsRequest → Call
  get_strings : GetStringsRequest → Call
  get_globals : GetGlobalsRequest → Call
  get_segments : GetSegmentsRequest → Call
  get_structs : GetStructsRequest → Call
  get_enums : GetEnumsRequest → Call
  get_entry_point : GetEntryPointRequest → Call
  get_xrefs : GetXrefsRequest → Call
  get_data_refs : DataRefRequest → Call
  get_string_xrefs : StringXrefRequest → Call
  find_text : FindTextRequest → Call
  find_binary : FindBinaryRequest → Call
  set_name : SetNameRequest → Call
  delete_name : DeleteNameRequest → Call
  set_comment : SetCommentRequest → Call
  set_function_type : SetFunctionTypeRequest → Call
  set_global_type : SetGlobalTypeRequest → Call
  set_lvar_type : SetLvarTypeRequest → Call
  import_il2cpp : ImportIl2cppRequest → Call
  import_flutter : ImportFlutterRequest → Call

pub data Refusal : Type 0 where
  invalid_category : Refusal
  invalid_mode : Refusal
  invalid_direction : Refusal
  direction_not_valid : Refusal
  invalid_action : Refusal
  invalid_target : Refusal
  invalid_format : Refusal
  bad_address : AddrError → Refusal
  name_required : Refusal
  prototype_required : Refusal
  type_required : Refusal
  lvar_name_required : Refusal

pub data Routed : Type 0 where
  call : Call → Routed
  refused : Refusal → Routed

-- The early return behind `parseAddr` and `parseAddrDefault`.
unfoldable pub with_address : Parsed → (ℕ → Routed) → Routed
with_address (ok addr) next = next addr
with_address (err e) next = refused (bad_address e)

unfoldable pub query : QueryRequest → Routed
query q =
    if q.category == "functions"
    then call (
        get_functions (record {
          session_id = q.session_id;
          offset = q.offset;
          limit = q.limit;
          regex = q.regex;
          case_sens = q.case_sensitive;
          named_only = q.named_only;
        }))
    else if q.category == "imports"
    then call (
        get_imports (record {
          session_id = q.session_id;
          offset = q.offset;
          limit = q.limit;
          of_module = q.of_module;
          regex = q.regex;
          case_sens = q.case_sensitive;
        }))
    else if q.category == "exports"
    then call (
        get_exports (record {
          session_id = q.session_id;
          offset = q.offset;
          limit = q.limit;
          regex = q.regex;
          case_sens = q.case_sensitive;
        }))
    else if q.category == "strings"
    then call (
        get_strings (record {
          session_id = q.session_id;
          offset = q.offset;
          limit = q.limit;
          regex = q.regex;
          case_sens = q.case_sensitive;
        }))
    else if q.category == "globals"
    then call (
        get_globals (record {
          session_id = q.session_id;
          regex = q.regex;
          case_sensitive = q.case_sensitive;
          offset = q.offset;
          limit = q.limit;
        }))
    else if q.category == "segments"
    then call (get_segments (record { session_id = q.session_id }))
    else if q.category == "structs"
    then call (
        get_structs (record {
          session_id = q.session_id;
          name = q.name;
          regex = q.regex;
          case_sensitive = q.case_sensitive;
        }))
    else if q.category == "enums"
    then call (
        get_enums (record {
          session_id = q.session_id;
          name = q.name;
          regex = q.regex;
          case_sensitive = q.case_sensitive;
        }))
    else if q.category == "entry_point"
    then call (get_entry_point (record { session_id = q.session_id }))
    else refused invalid_category

-- The direction is looked at in the mode `code` only; the two other modes refuse one.
unfoldable pub is_direction : String → Bool
is_direction d = d == "" || d == "to" || d == "from" || d == "both"

unfoldable pub references_mode : GetReferencesRequest → String
references_mode q = if q.mode == "" then "code" else q.mode

unfoldable pub references_at : GetReferencesRequest → ℕ → Routed
unfolding is_direction references_mode
references_at q addr =
    if references_mode q == "code"
    then (if is_direction q.direction
        then call (
            get_xrefs
              (record { session_id = q.session_id; address = addr; direction = q.direction }))
        else refused invalid_direction)
    else if references_mode q == "data"
    then (if q.direction == ""
        then call (get_data_refs (record { session_id = q.session_id; address = addr }))
        else refused direction_not_valid)
    else if references_mode q == "string"
    then (if q.direction == ""
        then call (get_string_xrefs (record { session_id = q.session_id; address = addr }))
        else refused direction_not_valid)
    else refused invalid_mode

unfoldable pub get_references : GetReferencesRequest → Routed
unfolding with_address references_at
get_references q = with_address (parse_addr (codes q.address)) (references_at q)

unfoldable pub search_between : SearchRequest → ℕ → ℕ → Routed
search_between q start stop =
    if q.mode == "text"
    then call (
        find_text (record {
          session_id = q.session_id;
          start = start;
          end = stop;
          needle = q.needle;
          case_sensitive = q.case_sensitive;
          unicode = q.unicode;
        }))
    else if q.mode == "binary"
    then call (
        find_binary (record {
          session_id = q.session_id;
          start = start;
          end = stop;
          pattern = q.pattern;
          search_up = q.search_up;
        }))
    else refused invalid_mode

unfoldable pub search_for : SearchRequest → Routed
unfolding with_address search_between
search_for q =
    with_address (parse_addr_default (codes q.start) 0)
      λ start. with_address (parse_addr_default (codes q.end) 0) (search_between q start)

-- The function's address is read for a comment only.
unfoldable pub comment_at : SetMetadataRequest → ℕ → ℕ → Routed
comment_at q addr func_addr = call (
    set_comment (record {
      session_id = q.session_id;
      address = addr;
      comment = q.comment;
      scope = q.scope;
      repeatable = q.repeatable;
      function_address = func_addr;
    }))

unfoldable pub metadata_at : SetMetadataRequest → ℕ → Routed
unfolding with_address comment_at
metadata_at q addr =
    if q.action == "set_name"
    then (if is_blank (codes q.name)
        then refused name_required
        else call (set_name (record { session_id = q.session_id; address = addr; name = q.name })))
    else if q.action == "delete_name"
    then call (delete_name (record { session_id = q.session_id; address = addr }))
    else if q.action == "set_comment"
    then with_address (parse_addr_default (codes q.function_address) 0) (comment_at q addr)
    else refused invalid_action

unfoldable pub set_metadata : SetMetadataRequest → Routed
unfolding with_address metadata_at
set_metadata q = with_address (parse_addr (codes q.address)) (metadata_at q)

unfoldable pub type_function : SetTypeRequest → ℕ → Routed
type_function q addr =
    if is_blank (codes q.prototype)
    then refused prototype_required
    else call (
        set_function_type
          (record { session_id = q.session_id; address = addr; prototype = q.prototype }))

unfoldable pub type_global : SetTypeRequest → ℕ → Routed
type_global q addr =
    if is_blank (codes q.type)
    then refused type_required
    else call
        (set_global_type (record { session_id = q.session_id; address = addr; type = q.type }))

unfoldable pub type_lvar : SetTypeRequest → ℕ → Routed
type_lvar q faddr =
    if is_blank (codes q.lvar_name)
    then refused lvar_name_required
    else if is_blank (codes q.type)
    then refused type_required
    else call (
        set_lvar_type (record {
          session_id = q.session_id;
          function_address = faddr;
          lvar_name = q.lvar_name;
          lvar_type = q.type;
        }))

unfoldable pub set_type : SetTypeRequest → Routed
unfolding with_address type_function type_global type_lvar
set_type q =
    if q.target == "function"
    then with_address (parse_addr (codes q.address)) (type_function q)
    else if q.target == "global"
    then with_address (parse_addr (codes q.address)) (type_global q)
    else if q.target == "lvar"
    then with_address (parse_addr (codes q.function_address)) (type_lvar q)
    else refused invalid_target

unfoldable pub import_metadata : ImportMetadataRequest → Routed
import_metadata q =
    if q.format == "il2cpp"
    then call (
        import_il2cpp (record {
          session_id = q.session_id;
          script_path = q.script_path;
          il2cpp_path = q.il2cpp_path;
          fields = q.fields;
        }))
    else if q.format == "flutter"
    then call
        (import_flutter (record { session_id = q.session_id; meta_json_path = q.meta_json_path }))
    else refused invalid_format
