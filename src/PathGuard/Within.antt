-- ===== src/PathGuard/Within.antt =====
-- `pathWithin` on absolute paths: one path lies under another if its parts go on from the other's.
use mathlib.Core.List.{reverse, reverse-append, append-nil, append_assoc}
use ida_pilot.Common.{
  ◌≡◌, ◌∙◌, ◌↔◌, refl, sym, ap, subst, Bool, true, false, not, ◌&&◌, List, [], ◌∷◌, ◌++◌, some,
  eqb_iff, length, replicate, arith, Bool-cases, inl, inr,
}
use ida_pilot.Text.{Text}
use ida_pilot.PathGuard.{
  same_text, parent, is_parent, is_void, split, is_abs, go_up, add_part, clean_onto, parts,
  up_then_down, rel_parts, rel, stays_inside, within_rel, path_within,
}

pub same_text_iff : (s t : Text) → (same_text s t ≡ true) ↔ (s ≡ t)
unfolding same_text
same_text_iff [] [] = ((λ h. refl), (λ h. refl))
same_text_iff [] (d ∷ t) = ground arith
same_text_iff (c ∷ s) [] = ground arith
same_text_iff (c ∷ s) (d ∷ t) = ground (arith, eqb_iff c d, same_text_iff s t)

-- A part that leads neither up nor nowhere.
abbrev pub plain : Text → Bool
plain x = not (is_void x) && not (is_parent x)

unfoldable pub all_plain : List Text → Bool
all_plain [] = true
all_plain (x ∷ xs) = plain x && all_plain xs

all_plain-append : (xs ys : List Text) → all_plain (xs ++ ys) ≡ (all_plain xs && all_plain ys)
unfolding all_plain
all_plain-append [] ys = refl
all_plain-append (x ∷ xs) ys = ground (arith, all_plain-append xs ys)

all_plain-reverse : (xs : List Text) → all_plain (reverse xs) ≡ all_plain xs
unfolding all_plain
all_plain-reverse [] = refl
all_plain-reverse (x ∷ xs) =
    ap all_plain (reverse-append (x ∷ []) xs)
    ∙ all_plain-append (reverse xs) (x ∷ [])
    ∙ ground (arith, all_plain-reverse xs)

-- The parts of an absolute path are plain: nothing leads up from the root.
add_part-plain :
    (out : List Text) (x : Text) → all_plain out ≡ true → all_plain (add_part true out x) ≡ true
unfolding add_part go_up all_plain
add_part-plain [] x h = ground arith
add_part-plain (y ∷ out) x h = ground arith

clean_onto-plain :
    (out xs : List Text) → all_plain out ≡ true → all_plain (clean_onto true out xs) ≡ true
unfolding clean_onto
clean_onto-plain out [] h = all_plain-reverse out ∙ h
clean_onto-plain out (x ∷ xs) h = clean_onto-plain (add_part true out x) xs (add_part-plain out x h)

pub parts-plain : (p : Text) → is_abs p ≡ true → all_plain (parts p) ≡ true
unfolding parts all_plain
parts-plain p h = rw h (clean_onto-plain [] (split p) refl)

-- Cleaning leaves plain parts alone.
clean_onto_plain :
    (rooted : Bool) (out xs : List Text)
    → all_plain xs ≡ true
    → clean_onto rooted out xs ≡ reverse out ++ xs
unfolding clean_onto add_part all_plain
clean_onto_plain rooted out [] h = sym (append-nil (reverse out))
clean_onto_plain rooted out (x ∷ xs) h =
    let kept : add_part rooted out x ≡ x ∷ out = ground arith in
    ap (λ o. clean_onto rooted o xs) kept
    ∙ clean_onto_plain rooted (x ∷ out) xs (ground arith)
    ∙ ap (λ o. o ++ xs) (reverse-append (x ∷ []) out)
    ∙ append_assoc (reverse out) (x ∷ []) xs

-- A path that is not rooted and begins with `..` goes on to do so.
abbrev Bottom : List Text → Type 0
Bottom out = (o : List Text) × (out ≡ o ++ parent ∷ [])

add_part-Bottom : (o : List Text) (x : Text) → Bottom (add_part false (o ++ parent ∷ []) x)
unfolding add_part go_up
add_part-Bottom o x = elim (Bool-cases (is_void x)) [
  | inl v ↦ rw v (o, refl)
  | inr v ↦ elim (Bool-cases (is_parent x)) [
    | inl u ↦ rw (v, u) (up o)
    | inr u ↦ rw (v, u) (x ∷ o, refl)
  ]
]
  where
    up : (q : List Text) → Bottom (go_up false (q ++ parent ∷ []))
    up [] = (parent ∷ [], refl)
    up (y ∷ q) = elim (Bool-cases (is_parent y)) [
      | inl p ↦ rw p (parent ∷ y ∷ q, refl)
      | inr p ↦ rw p (q, refl)
    ]

leads_up : (xs out : List Text) → Bottom out → stays_inside (clean_onto false out xs) ≡ false
unfolding clean_onto stays_inside is_parent same_text
leads_up [] out (o, e) =
    ap (λ l. stays_inside (reverse l)) e ∙ ap stays_inside (reverse-append o (parent ∷ []))
leads_up (x ∷ xs) out (o, e) =
    leads_up xs (add_part false out x)
      (subst (λ l. Bottom (add_part false l x)) (sym e) (add_part-Bottom o x))

within_parent : (rest : List Text) → within_rel (some (parent ∷ rest)) ≡ false
unfolding within_rel clean_onto add_part is_parent is_void same_text go_up
within_parent rest = leads_up rest (parent ∷ []) ([], refl)

within_plain : (rest : List Text) → all_plain rest ≡ true → within_rel (some rest) ≡ true
unfolding within_rel all_plain stays_inside
within_plain rest h = ap stays_inside (clean_onto_plain false [] rest h) ∙ head rest h
  where
    head : (l : List Text) → all_plain l ≡ true → stays_inside l ≡ true
    head [] h = refl
    head (x ∷ xs) h = ground arith

unfoldable pub is_prefix : List Text → List Text → Bool
is_prefix [] t = true
is_prefix (b ∷ base) [] = false
is_prefix (b ∷ base) (t ∷ target) = same_text b t && is_prefix base target

-- Down from a base to a target of plain parts, where the base is a prefix, and only there.
within_rel-rel_parts :
    (base target : List Text)
    → all_plain base ≡ true
    → all_plain target ≡ true
    → within_rel (rel_parts base target) ≡ is_prefix base target
unfolding rel_parts up_then_down is_prefix all_plain
within_rel-rel_parts [] target g h = within_plain target h
within_rel-rel_parts (b ∷ base) [] g h =
    ground (arith, within_parent (replicate (length base) parent ++ []))
within_rel-rel_parts (b ∷ base) (t ∷ target) g h = ground (
  arith,
  within_parent (replicate (length base) parent ++ t ∷ target),
  within_rel-rel_parts base target,
)

pub is_prefix_iff :
    (base target : List Text)
    → (is_prefix base target ≡ true) ↔ ((rest : List Text) × (target ≡ base ++ rest))
unfolding is_prefix
is_prefix_iff [] target = ((λ h. (target, refl)), (λ h. refl))
is_prefix_iff (b ∷ base) [] = ((λ h. absurd (cc)), (λ (rest, e). absurd (cc)))
is_prefix_iff (b ∷ base) (t ∷ target) =
    let ih = is_prefix_iff base target in
    let head = same_text_iff b t in
    (
      (λ h. let (rest, e) = ih.0 (ground arith) in (rest, ground (arith, e))),
      (λ (rest, e). let tail = ih.1 (rest, ground arith) in ground arith),
    )

rel_abs :
    (root target : Text)
    → is_abs root ≡ true
    → is_abs target ≡ true
    → rel root target ≡ rel_parts (parts root) (parts target)
unfolding rel
rel_abs root target r t = ground arith

-- An absolute path is accepted for an absolute root exactly if, cleaned, it has the parts of the root in
-- front of its own: so `/data-evil` and `/data/../etc` do not lie under `/data`.
pub path_within_iff :
    (target root : Text)
    → is_abs root ≡ true
    → is_abs target ≡ true
    → (path_within target root ≡ true) ↔ ((rest : List Text) × (parts target ≡ parts root ++ rest))
unfolding path_within
path_within_iff target root r t =
    let step : path_within target root ≡ is_prefix (parts root) (parts target) =
      ap within_rel (rel_abs root target r t)
      ∙ within_rel-rel_parts (parts root) (parts target) (parts-plain root r)
          (parts-plain target t) in
    let prefix = is_prefix_iff (parts root) (parts target) in
    ((λ h. prefix.0 (sym step ∙ h)), (λ h. step ∙ prefix.1 h))
