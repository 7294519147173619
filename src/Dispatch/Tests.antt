-- ===== src/Dispatch/Tests.antt =====
-- The theorems of the dispatchers at concrete inputs.
use ida_pilot.Common.{string_key, ◌≡◌, ◌⊎◌, refl, ℕ, true, false, []}
use ida_pilot.Common.Int.{pos}
use ida_pilot.Text.{codes, trim_space, trim_left, trim_right, is_space, hex_digits, hex_digit}
use ida_pilot.Address.{hex_addr}
use ida_pilot.Text
use ida_pilot.Cache.{SessionCache, new_session_cache}
use ida_pilot.Edit
use ida_pilot.Edit.{done, is_blank}
use ida_pilot.Requests.{
  QueryRequest, GetReferencesRequest, SearchRequest, SetMetadataRequest, SetTypeRequest,
  ImportMetadataRequest,
}
use ida_pilot.Dispatch.{query, get_references, search_for, set_metadata, set_type, import_metadata}
use ida_pilot.Dispatch.Sessions.{IsFor, dispatch-IsFor}
use ida_pilot.Dispatch.Edits.{edit, Accepts, AtZero, set_type-accepted}

abbrev imports : QueryRequest
imports = record {
  session_id = "a1";
  category = "imports";
  regex = "^mem";
  case_sensitive = false;
  offset = pos 0;
  limit = pos 50;
  named_only = false;
  of_module = "libc";
  name = "";
}

abbrev callers : GetReferencesRequest
callers = record { session_id = "a1"; address = "0x10"; mode = ""; direction = "to" }

abbrev text_search : SearchRequest
text_search = record {
  session_id = "a1";
  mode = "text";
  needle = "key";
  case_sensitive = true;
  unicode = false;
  pattern = "";
  search_up = false;
  start = "";
  end = "0x20";
}

abbrev rename : SetMetadataRequest
rename = record {
  session_id = "a1";
  address = "0x10";
  action = "set_name";
  name = "main";
  comment = "";
  scope = "";
  repeatable = false;
  function_address = "";
}

abbrev retype : SetTypeRequest
retype = record {
  session_id = "a1";
  address = "";
  target = "lvar";
  type = "int";
  prototype = "";
  function_address = "0x10";
  lvar_name = "v1";
}

abbrev flutter : ImportMetadataRequest
flutter = record {
  session_id = "a1";
  format = "flutter";
  script_path = "";
  il2cpp_path = "";
  fields = [];
  meta_json_path = "meta.json";
}

dispatch-IsFor_example :
    IsFor "a1" (query imports)
    × IsFor "a1" (get_references callers)
    × IsFor "a1" (search_for text_search)
    × IsFor "a1" (set_metadata rename)
    × IsFor "a1" (set_type retype)
    × IsFor "a1" (import_metadata flutter)
dispatch-IsFor_example = dispatch-IsFor imports callers text_search rename retype flutter

abbrev no_cache : SessionCache ℕ
no_cache = new_session_cache ℕ

set_type-accepted_example :
    Accepts (edit (λ (x : ℕ). x) true "" done no_cache (set_type retype)).1 ⊎ AtZero retype
set_type-accepted_example = set_type-accepted (λ (x : ℕ). x) true "" done no_cache retype

printed : codes "0x10" ≡ hex_addr 16
unfolding hex_addr hex_digits hex_digit
printed = refl

main_named : is_blank (codes "main") ≡ false
unfolding is_blank Edit.is_empty trim_space trim_left trim_right Text.keep_or_drop is_space
main_named = refl
