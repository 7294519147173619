-- ===== src/PathGuard.antt =====
-- internal/server/pathguard.go: the roots that the paths of a client have to lie under, on a system with
-- `/` between the parts of a path and with case. What the code uses of Go's path/filepath is given here:
-- `Clean` and `Rel` on the parts of a path. The working directory and the symbolic links are arguments.
pub mod Within
pub mod Valid
mod Tests
use mathlib.Core.List.{reverse}
use ida_pilot.Common.{
  ℕ, zero, suc, Bool, true, false, not, ◌&&◌, ◌||◌, List, [], ◌∷◌, ◌++◌, Option, none, some, eqb,
  length, replicate, if◌then◌else◌,
}
use ida_pilot.Text.{Text, codes, trim_space}

unfoldable pub same_text : Text → Text → Bool
same_text [] [] = true
same_text (c ∷ s) (d ∷ t) = eqb c d && same_text s t
same_text [] (d ∷ t) = false
same_text (c ∷ s) [] = false

-- `..`, the part that leads up.
abbrev pub parent : Text
parent = b'.' ∷ b'.' ∷ []

unfoldable pub is_parent : Text → Bool
unfolding same_text
is_parent x = same_text x parent

-- The parts that `Clean` leaves out: nothing, and `.`.
unfoldable pub is_void : Text → Bool
is_void [] = true
is_void (c ∷ []) = eqb c b'.'
is_void (c ∷ d ∷ s) = false

unfoldable pub add_char : ℕ → List Text → List Text
add_char c [] = (c ∷ []) ∷ []
add_char c (x ∷ xs) = (c ∷ x) ∷ xs

unfoldable pub split : Text → List Text
unfolding add_char
split [] = [] ∷ []
split (c ∷ s) = if eqb c b'/' then [] ∷ split s else add_char c (split s)

unfoldable pub is_abs : Text → Bool
is_abs [] = false
is_abs (c ∷ s) = eqb c b'/'

-- The parts so far stand in reverse.
unfoldable pub go_up : Bool → List Text → List Text
unfolding is_parent
go_up rooted [] = if rooted then [] else parent ∷ []
go_up rooted (y ∷ out) = if is_parent y then parent ∷ y ∷ out else out

unfoldable pub add_part : Bool → List Text → Text → List Text
unfolding go_up is_void is_parent
add_part rooted out x = if is_void x then out else if is_parent x then go_up rooted out else x ∷ out

unfoldable pub clean_onto : Bool → List Text → List Text → List Text
unfolding add_part
clean_onto rooted out [] = reverse out
clean_onto rooted out (x ∷ xs) = clean_onto rooted (add_part rooted out x) xs

-- The parts of a path, cleaned.
unfoldable pub parts : Text → List Text
unfolding clean_onto is_abs split
parts p = clean_onto (is_abs p) [] (split p)

unfoldable pub join : List Text → Text
join [] = []
join (x ∷ []) = x
join (x ∷ y ∷ xs) = x ++ b'/' ∷ join (y ∷ xs)

unfoldable pub show_path : Bool → List Text → Text
unfolding join
show_path true xs = b'/' ∷ join xs
show_path false [] = b'.' ∷ []
show_path false (x ∷ xs) = join (x ∷ xs)

-- `filepath.Clean`.
unfoldable pub clean : Text → Text
unfolding parts show_path is_abs
clean p = show_path (is_abs p) (parts p)

-- `filepath.Rel` on cleaned parts: up from what is left of the base, down to what is left of the target.
unfoldable pub up_then_down : List Text → List Text → Option (List Text)
unfolding is_parent
up_then_down [] target = some target
up_then_down (b ∷ base) target =
    if is_parent b then none else some (replicate (length (b ∷ base)) parent ++ target)

unfoldable pub rel_parts : List Text → List Text → Option (List Text)
unfolding up_then_down same_text
rel_parts (b ∷ base) (t ∷ target) =
    if same_text b t then rel_parts base target else up_then_down (b ∷ base) (t ∷ target)
rel_parts [] target = up_then_down [] target
rel_parts (b ∷ base) [] = up_then_down (b ∷ base) []

unfoldable pub rel : Text → Text → Option (List Text)
unfolding rel_parts parts is_abs
rel base target =
    if (is_abs base && is_abs target) || (not (is_abs base) && not (is_abs target))
    then rel_parts (parts base) (parts target)
    else none

-- `.`, or not `..` and no `../` in front.
unfoldable pub stays_inside : List Text → Bool
unfolding is_parent
stays_inside [] = true
stays_inside (x ∷ xs) = not (is_parent x)

unfoldable pub within_rel : Option (List Text) → Bool
unfolding stays_inside clean_onto
within_rel none = false
within_rel (some r) = stays_inside (clean_onto false [] r)

unfoldable pub path_within : (target root : Text) → Bool
unfolding within_rel rel
path_within target root = within_rel (rel root target)

unfoldable pub path_within_roots : Text → List Text → Bool
path_within_roots target [] = false
path_within_roots target (root ∷ roots) =
    if path_within target root then true else path_within_roots target roots

-- The working directory, if it is known, and where a path leads, if it exists.
pub record FileSystem : Type 0 where
  pub getwd : Option Text
  pub eval_symlinks : Text → Option Text

unfoldable pub abs_from : Option Text → Text → Option Text
unfolding clean
abs_from none p = none
abs_from (some wd) p = some (clean (wd ++ b'/' ∷ p))

-- `filepath.Abs`.
unfoldable pub abs : FileSystem → Text → Option Text
unfolding abs_from clean is_abs
abs fs p = if is_abs p then some (clean p) else abs_from fs.getwd p

unfoldable pub or_else : Option Text → Text → Text
or_else none p = p
or_else (some q) p = q

unfoldable pub normalize_root : FileSystem → Text → Text
unfolding or_else clean
normalize_root fs root =
    let a = clean (or_else (abs fs root) root) in or_else (fs.eval_symlinks a) a

unfoldable pub add_root : FileSystem → Text → List Text → List Text
unfolding normalize_root
add_root fs [] out = out
add_root fs (c ∷ r) out = normalize_root fs (c ∷ r) ∷ out

unfoldable pub normalize_roots : FileSystem → List Text → List Text
unfolding add_root
normalize_roots fs [] = []
normalize_roots fs (r ∷ roots) = add_root fs (trim_space r) (normalize_roots fs roots)

pub data Validated : Type 0 where
  valid : Text → Validated
  required : Validated
  invalid : Validated
  outside : Validated

unfoldable pub validate_resolved : List Text → Text → Validated
validate_resolved roots resolved =
    if path_within_roots resolved roots then valid resolved else outside

unfoldable pub validate_abs : FileSystem → List Text → Option Text → Validated
unfolding validate_resolved or_else clean
validate_abs fs roots none = invalid
validate_abs fs roots (some a) =
    validate_resolved roots (or_else (fs.eval_symlinks (clean a)) (clean a))

unfoldable pub validate_path : FileSystem → List Text → Text → Validated
unfolding validate_abs
validate_path fs [] p = valid p
validate_path fs (root ∷ roots) [] = required
validate_path fs (root ∷ roots) (c ∷ p) = validate_abs fs (root ∷ roots) (abs fs (c ∷ p))
