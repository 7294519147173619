-- ===== src/Outputs/Lasting.antt =====
-- How long an output stays in the store: for an hour, while fewer than 200 others are put after it.
use ida_pilot.Common.{
  string_key, ◌==◌, ℕ, suc, ◌+◌, ◌≤◌, ◌<◌, ◌≡◌, refl, sym, ap, ◌∙◌, String, true, false, List, [],
  ◌∷◌, ◌++◌, none, some, arith, length, drop, leb, if◌then◌else◌, Bool-cases, Option-cases, inl,
  inr, same_self, length-append, eq_of_same,
}
use ida_pilot.Common.Map
use ida_pilot.Common.Map.{Map, lookup-delete, lookup-insert}
use ida_pilot.Outputs.{
  OutputEntry, OutputStore, is_expired, evict_expired, evict_over, append_entry, put, get,
  max_cache_entries, Bytes, cache_entry_ttl,
}
use ida_pilot.Outputs.Store.{IsSound, listed, listed-drop, put-Stored}

-- How many IDs stand behind one in the queue.
unfoldable pub behind : String → List String → ℕ
behind k [] = 0
behind k (j ∷ l) = if j == k then length l else behind k l

behind-append :
    (k id : String) (l : List String)
    → listed k l ≡ true
    → behind k (l ++ id ∷ []) ≡ suc (behind k l)
unfolding behind listed
behind-append k id [] h = absurd (cc)
behind-append k id (j ∷ l) h = elim (Bool-cases (j == k)) [
  | inl e ↦ rw e (length-append l (id ∷ []) ∙ omega arith)
  | inr e ↦ rw e (behind-append k id l (rw e at h))
]

listed-append :
    (k id : String) (l : List String) → listed k l ≡ true → listed k (l ++ id ∷ []) ≡ true
unfolding listed
listed-append k id [] h = absurd (cc)
listed-append k id (j ∷ l) h = ground (arith, listed-append k id l)

-- An entry in the store, and how many stand behind it.
abbrev Held : OutputEntry → ℕ → Map String OutputEntry → List String → Type 0
Held e n m order =
    (Map.lookup e.id m ≡ some e) × (listed e.id order ≡ true) × (behind e.id order ≡ n)

expired-Held :
    (now n : ℕ) (e : OutputEntry) (order : List String) (m : Map String OutputEntry)
    → is_expired now e ≡ false
    → Held e n m order
    → Held e n (evict_expired now order m).entries (evict_expired now order m).order
unfolding evict_expired behind listed
expired-Held now n e [] m young h = h
expired-Held now n e (o ∷ rest) m young h = elim (Option-cases (Map.lookup o m)) [
  | inl gone ↦ rw (gone, evict_expired) h
  | inr (x, there) ↦ elim (Bool-cases (is_expired now x)) [
    | inr new ↦ rw (there, evict_expired, new) h
    | inl old ↦ elim (Bool-cases (o == e.id)) [
      | inl same ↦ absurd (
          let at : o ≡ e.id = eq_of_same o e.id same in
          let k : some x ≡ some e = sym there ∙ ap (λ j. Map.lookup j m) at ∙ h.0 in
          let found : x ≡ e = cc in
          let clash : true ≡ false = sym old ∙ ap (is_expired now) found ∙ young in cc)
      | inr other ↦
          rw (there, evict_expired, old)
            (expired-Held now n e rest (Map.delete o m) young
              (ground (arith, h, other, lookup-delete o e.id m, string_key.same_iff o e.id)))
    ]
  ]
]

over-Held :
    (n : ℕ) (e : OutputEntry) (order : List String) (m : Map String OutputEntry)
    → suc n < max_cache_entries
    → Held e n m order
    → Held e n (evict_over order m).entries (evict_over order m).order
unfolding evict_over behind listed
over-Held n e [] m small h = h
over-Held n e (o ∷ rest) m small h = elim (Bool-cases (leb max_cache_entries (suc (length rest)))) [
  | inr room ↦ rw room h
  | inl full ↦ elim (Bool-cases (o == e.id)) [
    | inl same ↦ absurd (ground (arith, h, same))
    | inr other ↦ rw full (
        over-Held n e rest (Map.delete o m) small
          (ground (arith, h, other, lookup-delete o e.id m, string_key.same_iff o e.id)))
  ]
]

put-Held :
    (s : OutputStore) (id : String) (now : ℕ) (tool : String) (content : Bytes) (n : ℕ)
    (e : OutputEntry)
    → suc n < max_cache_entries
    → now ≤ e.created_at + cache_entry_ttl
    → Map.lookup id s.entries ≡ none
    → Held e n s.entries s.order
    → let t = put s id now tool content in Held e (suc n) t.entries t.order
unfolding put append_entry is_expired
put-Held s id now tool content n e small soon fresh h =
    let young : is_expired now e ≡ false = ground arith in
    let s1 = evict_expired now s.order s.entries in
    let s2 = evict_over s1.order s1.entries in
    let a =
      over-Held n e s1.order s1.entries small (expired-Held now n e s.order s.entries young h) in
    let x : OutputEntry = record { id = id; tool = tool; content = content; created_at = now } in
    let apart : (id == e.id) ≡ false = elim (Bool-cases (id == e.id)) [
      | inr other ↦ other
      | inl same ↦ absurd (
          let k : none ≡ some e =
            sym fresh ∙ ap (λ j. Map.lookup j s.entries) (eq_of_same id e.id same) ∙ h.0 in
          cc)
    ] in
    (
      lookup-insert id e.id x s2.entries ∙ rw apart a.0,
      listed-append e.id id s2.order a.1,
      behind-append e.id id s2.order a.1 ∙ ap (λ k. suc k) a.2,
    )

-- A later output.
pub record Put : Type 0 where
  pub id : String
  pub now : ℕ
  pub tool : String
  pub content : Bytes

unfoldable pub puts : OutputStore → List Put → OutputStore
puts s [] = s
puts s (p ∷ ps) = puts (put s p.id p.now p.tool p.content) ps

-- Each is put under an ID that is not in use then, and by a time.
abbrev pub Follow : ℕ → OutputStore → List Put → Type 0
Follow until s [] = Unit
Follow until s (p ∷ ps) =
    (Map.lookup p.id s.entries ≡ none)
    × (p.now ≤ until)
    × Follow until (put s p.id p.now p.tool p.content) ps

puts-Held :
    (ps : List Put) (s : OutputStore) (n : ℕ) (e : OutputEntry)
    → n + length ps < max_cache_entries
    → Follow (e.created_at + cache_entry_ttl) s ps
    → Held e n s.entries s.order
    → Map.lookup e.id (puts s ps).entries ≡ some e
unfolding puts
puts-Held [] s n e small f h = h.0
puts-Held (p ∷ ps) s n e small f h =
    puts-Held ps (put s p.id p.now p.tool p.content) (suc n) e (omega arith) f.2
      (put-Held s p.id p.now p.tool p.content n e (omega arith) f.1 f.0 h)

behind_last : (k : String) (l : List String) → listed k l ≡ false → behind k (l ++ k ∷ []) ≡ 0
unfolding behind listed
behind_last k [] h = rw (same_self k) refl
behind_last k (j ∷ l) h = ground (arith, behind_last k l)

listed_last : (k : String) (l : List String) → listed k (l ++ k ∷ []) ≡ true
unfolding listed
listed_last k [] = rw (same_self k) refl
listed_last k (j ∷ l) = ground (arith, listed_last k l)

-- What was put under an ID that was not in use, in a store whose map and queue agree, is returned unchanged
-- for one hour, as long as the store is not cleared and fewer than 200 other outputs are put after it,
-- each under an ID that is not in use then.
pub get-puts :
    (s : OutputStore) (id : String) (now later : ℕ) (tool : String) (content : Bytes)
    (ps : List Put)
    → IsSound s
    → Map.lookup id s.entries ≡ none
    → length ps < max_cache_entries
    → Follow (now + cache_entry_ttl) (put s id now tool content) ps
    → later ≤ now + cache_entry_ttl
    → get (puts (put s id now tool content) ps) later id
      ≡ some (record { id = id; tool = tool; content = content; created_at = now })
unfolding get is_expired
get-puts s id now later tool content ps i fresh few follow soon =
    let e : OutputEntry = record { id = id; tool = tool; content = content; created_at = now } in
    let p = put-Stored s id now tool content i fresh in
    let q : List String = drop p.evicted s.order in
    let unlisted : listed id q ≡ false =
      listed-drop id p.evicted s.order (ground (arith, i.agree id)) in
    let found : Map.lookup id (puts (put s id now tool content) ps).entries ≡ some e =
      puts-Held ps (put s id now tool content) 0 e (omega (arith, few)) follow (
        p.entry,
        ap (listed id) p.queue ∙ listed_last id q,
        ap (behind id) p.queue ∙ behind_last id q unlisted,
      ) in
    rw (found, get) (ground arith)
