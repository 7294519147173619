-- ===== src/PathGuard/Valid.antt =====
-- What `validatePath` hands on: with roots configured, a path that lies under one of them after the
-- symbolic links are followed.
use ida_pilot.Common.{
  ◌≡◌, ◌↔◌, refl, Bool, true, false, List, [], ◌∷◌, ◌++◌, some, if◌then◌else◌, arith, Bool-cases,
  inl, inr, ◌⊎◌, Option-cases,
}
use ida_pilot.Text.{Text, trim_space}
use ida_pilot.PathGuard.{
  is_abs, clean, show_path, abs, abs_from, or_else, FileSystem, path_within, path_within_roots,
  parts, normalize_root, normalize_roots, add_root, Validated, valid, required, invalid, outside,
  validate_resolved, validate_abs, validate_path,
}
use ida_pilot.PathGuard.Within.{path_within_iff}

-- A path lies under a root: it has the root's parts in front of its own.
abbrev pub Under : Text → Text → Type 0
Under p root = (rest : List Text) × (parts p ≡ parts root ++ rest)

abbrev pub SomeRoot : (Text → Type 0) → List Text → Type 0
SomeRoot P [] = ⊥
SomeRoot P (r ∷ roots) = P r ⊎ SomeRoot P roots

abbrev pub all_abs : List Text → Bool
all_abs [] = true
all_abs (r ∷ roots) = if is_abs r then all_abs roots else false

-- Where a path leads: to what its absolute form resolves to, or to that form if it does not exist.
abbrev pub led_to : FileSystem → Text → Text
led_to fs a = or_else (fs.eval_symlinks (clean a)) (clean a)

-- A file system whose working directory is known and absolute, and where an absolute path leads to an
-- absolute one.
pub record Absolute (fs : FileSystem) : Type 0 where
  pub cwd : Text
  pub known : fs.getwd ≡ some cwd
  pub cwd_abs : is_abs cwd ≡ true
  pub links : (p q : Text) → is_abs p ≡ true → fs.eval_symlinks p ≡ some q → is_abs q ≡ true

clean-abs : (p : Text) → is_abs p ≡ true → is_abs (clean p) ≡ true
unfolding clean show_path is_abs
clean-abs p h = rw h refl

prefix-abs : (p s : Text) → is_abs p ≡ true → is_abs (p ++ s) ≡ true
unfolding is_abs
prefix-abs [] s h = absurd (cc)
prefix-abs (c ∷ p) s h = h

module _ (fs : FileSystem) (absolute : Absolute fs) where
  led_to-abs : (a : Text) → is_abs a ≡ true → is_abs (led_to fs a) ≡ true
  unfolding or_else
  led_to-abs a h = elim (Option-cases (fs.eval_symlinks (clean a))) [
    | inl e ↦ rw e (clean-abs a h)
    | inr (q, e) ↦ rw e (absolute.links (clean a) q (clean-abs a h) e)
  ]

  abs_known : (p : Text) → (a : Text) × (abs fs p ≡ some a) × (is_abs a ≡ true)
  unfolding abs abs_from
  abs_known p = elim (Bool-cases (is_abs p)) [
    | inl y ↦ (clean p, ground arith, clean-abs p y)
    | inr n ↦
        let joined : Text = absolute.cwd ++ b'/' ∷ p in
        (
          clean joined,
          ground (arith, absolute.known),
          clean-abs joined (prefix-abs absolute.cwd (b'/' ∷ p) absolute.cwd_abs),
        )
  ]

  normalize_root-abs : (r : Text) → is_abs (normalize_root fs r) ≡ true
  unfolding normalize_root or_else
  normalize_root-abs r = let (a, e, h) = abs_known r in rw e (led_to-abs a h)

  pub normalize_roots-abs : (roots : List Text) → all_abs (normalize_roots fs roots) ≡ true
  unfolding normalize_roots
  normalize_roots-abs [] = refl
  normalize_roots-abs (r ∷ roots) =
      added (trim_space r) (normalize_roots fs roots) (normalize_roots-abs roots)
    where
      added : (t : Text) (out : List Text) → all_abs out ≡ true → all_abs (add_root fs t out) ≡ true
      added [] out h = h
      added (c ∷ t) out h = rw (normalize_root-abs (c ∷ t)) h

-- An absolute path passes the roots exactly if it lies under one of them.
pub path_within_roots_iff :
    (p : Text) (roots : List Text)
    → is_abs p ≡ true
    → all_abs roots ≡ true
    → (path_within_roots p roots ≡ true) ↔ SomeRoot (Under p) roots
unfolding path_within_roots
path_within_roots_iff p [] a r = ((λ h. absurd (cc)), (λ h. absurd h))
path_within_roots_iff p (root ∷ roots) a r =
    let root_abs : is_abs root ≡ true = ground arith in
    let ih = path_within_roots_iff p roots a (ground arith) in
    let here = path_within_iff p root root_abs a in
    (
      (λ h. elim (Bool-cases (path_within p root)) [
        | inl y ↦ inl (here.0 y)
        | inr n ↦ inr (ih.0 (ground arith))
      ]),
      (λ u. elim u [
        | inl x ↦ let y = here.1 x in ground arith
        | inr x ↦ let y = ih.1 x in ground arith
      ]),
    )

-- What `validatePath` answers, by its answer: without roots, the path itself. With roots, a path that
-- is not empty is valid, as the place that it leads to, if and only if that place lies under a root.
abbrev pub Judged : FileSystem → List Text → Text → Validated → Type 0
Judged fs [] p v = v ≡ valid p
Judged fs (r ∷ roots) p (valid q) =
    ((a : Text) × (abs fs p ≡ some a) × (q ≡ led_to fs a)) × SomeRoot (Under q) (r ∷ roots)
Judged fs (r ∷ roots) p outside =
    (a : Text) × (abs fs p ≡ some a) × ¬ SomeRoot (Under (led_to fs a)) (r ∷ roots)
Judged fs (r ∷ roots) p required = p ≡ []
Judged fs (r ∷ roots) p invalid = ⊥

module _ (fs : FileSystem) (absolute : Absolute fs) where
  judged :
      (r : Text) (roots : List Text) (p : Text)
      → all_abs (r ∷ roots) ≡ true
      → Judged fs (r ∷ roots) p (validate_abs fs (r ∷ roots) (abs fs p))
  unfolding validate_abs validate_resolved
  judged r roots p h =
      let (a, e, y) = abs_known fs absolute p in
      let place : Text = led_to fs a in
      let iff = path_within_roots_iff place (r ∷ roots) (led_to-abs fs absolute a y) h in
      rw e (elim (Bool-cases (path_within_roots place (r ∷ roots))) [
        | inl t ↦ rw t ((a, e, refl), iff.0 t)
        | inr f ↦ rw f (a, e, λ u. let t = iff.1 u in (cc))
      ])

  -- Whatever roots are configured, `validatePath` against their normal forms is as `Judged` says: no
  -- path that leads outside of every root passes, by `..`, by a link or by a name that goes on, and
  -- none that leads inside is refused.
  pub validate_path-Judged :
      (configured : List Text) (p : Text)
      → Judged fs
          (normalize_roots fs configured)
          p
          (validate_path fs (normalize_roots fs configured) p)
  unfolding validate_path
  validate_path-Judged configured p =
      go (normalize_roots fs configured) p (normalize_roots-abs fs absolute configured)
    where
      go :
          (roots : List Text) (t : Text)
          → all_abs roots ≡ true
          → Judged fs roots t (validate_path fs roots t)
      go [] t h = refl
      go (r ∷ roots) [] h = refl
      go (r ∷ roots) (c ∷ t) h = judged r roots (c ∷ t) h
