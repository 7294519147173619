-- ===== src/Outputs/Store.antt =====
-- The store: its map and its queue hold the same IDs, it stays within its bound, it evicts the oldest
-- first, and what it returns is what was put.
use ida_pilot.Common.{
  ◌↔◌, string_key, same_self, ◌==◌, drop-drop, zero, ℕ, suc, ◌+◌, ◌≤◌, ◌<◌, ◌≡◌, refl, sym, ap,
  subst, ◌∙◌, String, Bool, true, false, List, [], ◌∷◌, ◌++◌, none, some, arith, length, drop, leb,
  ltb, if◌then◌else◌, Bool-cases, Option-cases, inl, inr, length-append,
}
use ida_pilot.Common.Map
use ida_pilot.Common.Map.{
  Map, IsMap, lookup-insert, lookup-insert_self, lookup-delete, length-delete, insert-IsMap,
  delete-IsMap,
}
use ida_pilot.Outputs.{
  OutputEntry, OutputStore, new_output_store, is_expired, evict_expired, evict_over, append_entry,
  put, get, clear, max_cache_entries, Bytes, cache_entry_ttl,
}

unfoldable pub listed : String → List String → Bool
listed k [] = false
listed k (j ∷ l) = if j == k then true else listed k l

abbrev pub Distinct : List String → Type 0
Distinct [] = Unit {0}
Distinct (j ∷ l) = (listed j l ≡ false) × Distinct l

-- The map and the queue hold the same IDs, each once.
pub record IsSound (s : OutputStore) : Type 0 where
  pub agree : (k : String) → Map.has k s.entries ≡ listed k s.order
  pub distinct : Distinct s.order
  pub one_each : IsMap s.entries

pub new-IsSound : IsSound new_output_store
unfolding listed Map.lookup
new-IsSound = record { agree = λ k. refl; distinct = tt; one_each = tt }

drop_oldest :
    (oldest : String) (rest : List String) (m : Map String OutputEntry)
    → IsSound (record { entries = m; order = oldest ∷ rest })
    → IsSound (record { entries = Map.delete oldest m; order = rest })
unfolding listed
drop_oldest oldest rest m s = record {
  agree = λ k.
      ground
        (arith, lookup-delete oldest k m, s.agree k, s.distinct.0, string_key.same_iff oldest k);
  distinct = s.distinct.1;
  one_each = delete-IsMap oldest m s.one_each;
}

-- What an eviction loop leaves: a tail of the queue, sound, with the entries of that tail unchanged.
pub record Evicted (m : Map String OutputEntry) (order : List String) (out : OutputStore)
    : Type 0 where
  pub count : ℕ
  pub tail : out.order ≡ drop count order
  pub sound : IsSound out
  pub kept : (k : String) → listed k out.order ≡ true → Map.lookup k out.entries ≡ Map.lookup k m

stay :
    (order : List String) (m : Map String OutputEntry)
    → IsSound (record { entries = m; order = order })
    → Evicted m order (record { entries = m; order = order })
stay order m s = record { count = 0; tail = refl; sound = s; kept = λ k h. refl }

pub listed-drop :
    (k : String) (n : ℕ) (l : List String) → listed k l ≡ false → listed k (drop n l) ≡ false
unfolding listed
listed-drop k zero l h = h
listed-drop k (suc n) [] h = refl
listed-drop k (suc n) (j ∷ l) h = listed-drop k n l (ground arith)

listed_of_drop :
    (k : String) (n : ℕ) (l : List String) → listed k (drop n l) ≡ true → listed k l ≡ true
listed_of_drop k n l h = ground (arith, listed-drop k n l)

one_more :
    (oldest : String) (rest : List String) (m : Map String OutputEntry) (out : OutputStore)
    → listed oldest rest ≡ false
    → Evicted (Map.delete oldest m) rest out
    → Evicted m (oldest ∷ rest) out
one_more oldest rest m out fresh v = record {
  count = suc v.count;
  tail = v.tail;
  sound = v.sound;
  kept = λ k h. ground (
    arith,
    v.kept k h,
    lookup-delete oldest k m,
    string_key.same_iff oldest k,
    listed-drop oldest v.count rest fresh,
    v.tail,
  );
}

evict_expired-Evicted :
    (now : ℕ) (order : List String) (m : Map String OutputEntry)
    → IsSound (record { entries = m; order = order })
    → Evicted m order (evict_expired now order m)
unfolding evict_expired
evict_expired-Evicted now [] m s = stay [] m s
evict_expired-Evicted now (o ∷ rest) m s =
    let ih =
      one_more o rest m (evict_expired now rest (Map.delete o m)) s.distinct.0
        (evict_expired-Evicted now rest (Map.delete o m) (drop_oldest o rest m s)) in
    elim (Option-cases (Map.lookup o m)) [
      | inl e ↦ rw (e, evict_expired) (stay (o ∷ rest) m s)
      | inr (x, e) ↦ elim (Bool-cases (is_expired now x)) [
        | inl old ↦ rw (e, evict_expired, old) ih
        | inr new ↦ rw (e, evict_expired, new) (stay (o ∷ rest) m s)
      ]
    ]

evict_over-Evicted :
    (order : List String) (m : Map String OutputEntry)
    → IsSound (record { entries = m; order = order })
    → Evicted m order (evict_over order m)
unfolding evict_over
evict_over-Evicted [] m s = stay [] m s
evict_over-Evicted (o ∷ rest) m s =
    let ih =
      one_more o rest m (evict_over rest (Map.delete o m)) s.distinct.0
        (evict_over-Evicted rest (Map.delete o m) (drop_oldest o rest m s)) in
    elim (Bool-cases (leb max_cache_entries (suc (length rest)))) [
      | inl full ↦ rw full ih
      | inr room ↦ rw room (stay (o ∷ rest) m s)
    ]

-- The second loop leaves room for one more entry.
evict_over-room :
    (order : List String) (m : Map String OutputEntry)
    → length (evict_over order m).order < max_cache_entries
unfolding evict_over
evict_over-room [] m = omega arith
evict_over-room (o ∷ rest) m = ground (arith, evict_over-room rest (Map.delete o m))

both_loops :
    (now : ℕ) (s : OutputStore)
    → IsSound s
    → let s1 = evict_expired now s.order s.entries in
      Evicted s.entries s.order (evict_over s1.order s1.entries)
both_loops now s i =
    let s1 = evict_expired now s.order s.entries in
    let a = evict_expired-Evicted now s.order s.entries i in
    let b = evict_over-Evicted s1.order s1.entries a.sound in
    record {
      count = a.count + b.count;
      tail = b.tail ∙ ap (drop b.count) a.tail ∙ drop-drop b.count a.count s.order;
      sound = b.sound;
      kept = λ k h.
          b.kept k h
          ∙ a.kept k (listed_of_drop k b.count s1.order (subst (λ l. listed k l ≡ true) b.tail h));
    }

listed-append :
    (k j : String) (l : List String)
    → listed k (l ++ j ∷ []) ≡ (if listed k l then true else j == k)
unfolding listed
listed-append k j [] = ground arith
listed-append k j (i ∷ l) = ground (arith, listed-append k j l)

append-Distinct :
    (j : String) (l : List String) → Distinct l → listed j l ≡ false → Distinct (l ++ j ∷ [])
unfolding listed
append-Distinct j [] d h = (refl, tt)
append-Distinct j (i ∷ l) d h = ground (
  arith,
  listed-append i j l,
  append-Distinct j l d.1,
  string_key.same_iff j i,
  string_key.same_iff i j,
)

append_entry-IsSound :
    (e : OutputEntry) (s : OutputStore)
    → IsSound s
    → listed e.id s.order ≡ false
    → IsSound (append_entry e s)
unfolding append_entry
append_entry-IsSound e s i h = record {
  agree = λ k.
      ground (arith, lookup-insert e.id k e s.entries, listed-append k e.id s.order, i.agree k);
  distinct = append-Distinct e.id s.order i.distinct h;
  one_each = insert-IsMap e.id e s.entries i.one_each;
}

-- The map has as many entries as the queue.
IsSound-sizes :
    (order : List String) (m : Map String OutputEntry)
    → IsSound (record { entries = m; order = order })
    → length m ≡ length order
unfolding listed Map.lookup
IsSound-sizes [] [] s = refl
IsSound-sizes [] ((j, e) ∷ m) s = absurd (ground (arith, s.agree j, same_self j))
IsSound-sizes (o ∷ rest) m s = ground (
  arith,
  length-delete o m s.one_each,
  s.agree o,
  same_self o,
  IsSound-sizes rest (Map.delete o m) (drop_oldest o rest m s),
)

Evicted-contents :
    (m : Map String OutputEntry) (order : List String) (out : OutputStore) (v : Evicted m order out)
    → (k : String)
    → Map.lookup k out.entries ≡ (if listed k (drop v.count order) then Map.lookup k m else none)
Evicted-contents m order out v k = rw (sym v.tail) (elim (Bool-cases (listed k out.order)) [
  | inl there ↦ rw there (v.kept k there)
  | inr gone ↦ rw gone (ground (arith, v.sound.agree k, gone))
])

-- What `put` leaves of a sound store.
pub record Stored (s : OutputStore) (e : OutputEntry) (out : OutputStore) : Type 0 where
  pub sound : IsSound out
  pub bounded : length out.entries ≤ max_cache_entries
  pub evicted : ℕ
  pub queue : out.order ≡ drop evicted s.order ++ e.id ∷ []
  pub entry : Map.lookup e.id out.entries ≡ some e
  pub contents :
      (k : String)
      → Map.lookup k out.entries ≡ (
          if e.id == k
          then some e
          else if listed k (drop evicted s.order)
          then Map.lookup k s.entries
          else none)

-- `put` with an ID that is not in use: the store stays sound and within 200 entries, the entries that
-- it evicts are the oldest ones, the others keep their contents, and the new one is the last.
pub put-Stored :
    (s : OutputStore) (id : String) (now : ℕ) (tool : String) (content : Bytes)
    → IsSound s
    → Map.lookup id s.entries ≡ none
    → Stored s
        (record { id = id; tool = tool; content = content; created_at = now })
        (put s id now tool content)
unfolding put
put-Stored s id now tool content i fresh =
    let s1 = evict_expired now s.order s.entries in
    let s2 = evict_over s1.order s1.entries in
    let e : OutputEntry = record { id = id; tool = tool; content = content; created_at = now } in
    let v = both_loops now s i in
    let unlisted : listed id s2.order ≡ false =
      subst (λ l. listed id l ≡ false) (sym v.tail)
        (listed-drop id v.count s.order (ground (arith, i.agree id))) in
    let sound = append_entry-IsSound e s2 v.sound unlisted in
    let present = Evicted-contents s.entries s.order s2 v in
    record {
      sound = sound;
      bounded = omega (
        arith,
        IsSound-sizes (s2.order ++ id ∷ []) (Map.insert id e s2.entries) sound,
        length-append s2.order (id ∷ []),
        evict_over-room s1.order s1.entries,
      );
      evicted = v.count;
      queue = ap (λ l. l ++ id ∷ []) v.tail;
      entry = lookup-insert_self id e s2.entries;
      contents =
          λ k. ground (arith, lookup-insert id k e s2.entries, string_key.same_iff id k, present k);
    }

-- What was put is returned, byte for byte, for one hour, and is not found after that.
pub get-put :
    (s : OutputStore) (id : String) (now later : ℕ) (tool : String) (content : Bytes)
    → IsSound s
    → Map.lookup id s.entries ≡ none
    → get (put s id now tool content) later id ≡ (
        if ltb (now + cache_entry_ttl) later
        then none
        else some (record { id = id; tool = tool; content = content; created_at = now }))
unfolding get is_expired
get-put s id now later tool content i fresh =
    let e = (put-Stored s id now tool content i fresh).entry in rw (e, get)

-- `get` returns nothing but a stored entry that has not expired, and returns every such entry.
pub get-some_iff :
    (s : OutputStore) (now : ℕ) (id : String) (e : OutputEntry)
    → (get s now id ≡ some e)
      ↔ ((Map.lookup id s.entries ≡ some e) × (now ≤ e.created_at + cache_entry_ttl))
unfolding get is_expired
get-some_iff s now id e = ((λ h. (ground arith, ground arith)), (λ h. ground arith))

-- `clear` empties the store and returns how many entries it held, one for each ID in the queue.
pub clear_lem :
    (s : OutputStore)
    → IsSound s
    → IsSound (clear s).0
      × ((clear s).1 ≡ length s.order)
      × ((now : ℕ) (id : String) → get (clear s).0 now id ≡ none)
unfolding clear get listed Map.lookup
clear_lem s i = (
  record { agree = λ k. refl; distinct = tt; one_each = tt },
  IsSound-sizes s.order s.entries i,
  λ now id. refl,
)
