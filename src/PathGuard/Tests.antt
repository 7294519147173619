-- ===== src/PathGuard/Tests.antt =====
-- The theorems of the path guard at concrete inputs.
use ida_pilot.Common.{◌≡◌, refl, true, false, [], ◌∷◌, none, some}
use ida_pilot.Text.{codes}
use ida_pilot.PathGuard.{
  is_abs, parts, path_within, FileSystem, normalize_roots, validate_path, split, add_char,
  clean_onto, add_part, go_up, is_void, is_parent, same_text, rel, rel_parts, up_then_down,
  within_rel, stays_inside,
}
use ida_pilot.PathGuard.Valid.{Absolute, Judged, validate_path-Judged}

data_abs : is_abs (codes "/data") ≡ true
unfolding is_abs
data_abs = refl

traversal_abs : is_abs (codes "/data/../etc") ≡ true
unfolding is_abs
traversal_abs = refl

-- Neither `..` nor a name that goes on leads inside, and `.` does not lead out.
verdicts :
    (path_within (codes "/data/../etc") (codes "/data") ≡ false)
    × (path_within (codes "/data-evil") (codes "/data") ≡ false)
    × (path_within (codes "/data/./a") (codes "/data") ≡ true)
unfolding path_within within_rel rel rel_parts up_then_down stays_inside parts is_abs split add_char
    clean_onto add_part go_up is_void is_parent same_text
verdicts = (refl, refl, refl)

-- A system without links, in the directory `/home`.
abbrev no_links : FileSystem
no_links = record { getwd = some (codes "/home"); eval_symlinks = λ p. none }

no_links-Absolute : Absolute no_links
unfolding is_abs
no_links-Absolute = record {
  cwd = codes "/home";
  known = refl;
  cwd_abs = refl;
  links = λ p q a e. absurd (cc);
}

validate_path-Judged_example :
    Judged no_links (normalize_roots no_links (codes "/data" ∷ [])) (codes "/data/../etc") (
      validate_path no_links (normalize_roots no_links (codes "/data" ∷ [])) (codes "/data/../etc"))
validate_path-Judged_example =
    validate_path-Judged no_links no_links-Absolute (codes "/data" ∷ []) (codes "/data/../etc")
