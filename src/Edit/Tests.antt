-- ===== src/Edit/Tests.antt =====
-- The theorems of the edits on a cache with the pseudocode of two functions. An item is its address.
use ida_pilot.Common.{number_key, string_key, ℕ, ◌≡◌, refl, true, false, [], ◌∷◌, none, some}
use ida_pilot.Text.{Text, codes, trim_space, trim_left, trim_right, keep_or_drop, is_space}
use ida_pilot.Cache.{SessionCache, new_session_cache, set_in, is_cached_function, any_at}
use ida_pilot.Cache.Entries.{text_of, unless, Healthy, set_in-text_of}
use ida_pilot.Edit.{
  done, unsuccessful, success, is_blank, is_empty, set_name, delete_name, set_comment,
  set_lvar_type, set_global_type, set_function_type, make_function,
}
use ida_pilot.Edit.Stale.{shows, KeepsOnFailure, edits_keep_on_failure, set_function_type-callers}

abbrev two_texts : SessionCache ℕ
two_texts = record (new_session_cache ℕ) {
  decomp = set_in (set_in none 64 "main calls init") 96 "init";
  functions = some (64 ∷ 96 ∷ []);
}

two_texts-Healthy : Healthy two_texts.decomp
two_texts-Healthy =
    (set_in-text_of (set_in none 64 "main calls init") 96 "init"
      (set_in-text_of none 64 "main calls init" tt).1).1

abbrev itself : ℕ → ℕ
itself a = a

abbrev prototype : Text
prototype = codes "int f()"

edits_keep_on_failure_example :
    KeepsOnFailure two_texts (set_name itself true "init" unsuccessful two_texts 96)
    × KeepsOnFailure two_texts (delete_name itself true "init" unsuccessful two_texts 96)
    × KeepsOnFailure two_texts (set_comment true unsuccessful two_texts "decompiler" prototype 96)
    × KeepsOnFailure two_texts (set_lvar_type true unsuccessful two_texts prototype 96)
    × KeepsOnFailure two_texts (set_global_type true "init" unsuccessful two_texts prototype)
    × KeepsOnFailure two_texts (set_function_type true "init" unsuccessful two_texts prototype 96)
    × KeepsOnFailure two_texts (make_function true unsuccessful two_texts prototype)
edits_keep_on_failure_example =
    edits_keep_on_failure itself true "init" unsuccessful two_texts 96 "decompiler" prototype

label : is_cached_function itself two_texts 128 ≡ false
unfolding is_cached_function any_at
label = refl

function : is_cached_function itself two_texts 96 ≡ true
unfolding is_cached_function any_at
function = refl

given : is_blank prototype ≡ false
unfolding is_blank is_empty trim_space trim_left trim_right keep_or_drop is_space
given = refl

set_function_type-callers_example :
    let out = set_function_type true "init" done two_texts prototype 96 in
    (out.1 ≡ success)
    × (text_of out.0.decomp 64 ≡ unless (shows "init") (text_of two_texts.decomp 64))
set_function_type-callers_example =
    set_function_type-callers "init" two_texts prototype 96 64 two_texts-Healthy given refl
