-- ===== src/Registry/Coherent.antt =====
-- The two maps of the registry agree on what they point to, through every method.
use ida_pilot.Common.{
  string_key, ◌==◌, ℕ, ◌<◌, ◌≤◌, ◌≡◌, refl, String, true, false, none, some, arith, length,
  if◌then◌else◌, Option-cases, Bool-cases, ◌⊎◌, inl, inr,
}
use ida_pilot.Common.Map
use ida_pilot.Common.Map.{
  Map, IsMap, lookup-insert, lookup-insert_self, lookup-delete, lookup-delete_self, insert-IsMap,
  delete-IsMap, length-insert, length-delete-le,
}
use ida_pilot.Registry.{
  Session, Metadata, Registry, new_registry, Result, ok, err, max_sessions_reached, already_exists,
  is_full, add, create, restore, find_by_binary_path, get, delete, on_session,
}

-- Every pointer in a map was allocated; the session behind an ID carries that ID; the session behind a
-- path carries that path and is registered under its own ID.
pub record IsCoherent (r : Registry) : Type 0 where
  pub allocated : (id : String) (s : ℕ) → Map.lookup id r.sessions ≡ some s → s < r.next
  pub named : (id : String) (s : ℕ) → Map.lookup id r.sessions ≡ some s → (r.heap s).id ≡ id
  pub placed :
      (path : String) (s : ℕ)
      → Map.lookup path r.binary_index ≡ some s
      → (r.heap s).binary_path ≡ path
  pub live :
      (path : String) (s : ℕ)
      → Map.lookup path r.binary_index ≡ some s
      → Map.lookup (r.heap s).id r.sessions ≡ some s
  pub one_each : IsMap r.sessions

pub new-IsCoherent : (n : ℕ) → IsCoherent (new_registry n)
unfolding new_registry Map.lookup
new-IsCoherent n = record {
  allocated = λ id s h. absurd (cc);
  named = λ id s h. absurd (cc);
  placed = λ path s h. absurd (cc);
  live = λ path s h. absurd (cc);
  one_each = tt;
}

-- A pointer that the path index holds was allocated.
indexed-allocated :
    (r : Registry) (path : String) (s : ℕ)
    → IsCoherent r
    → Map.lookup path r.binary_index ≡ some s
    → s < r.next
indexed-allocated r path s c h = c.allocated (r.heap s).id s (c.live path s h)

-- A session under an ID that is not in use keeps the registry coherent.
pub add-IsCoherent :
    (r : Registry) (s : Session)
    → IsCoherent r
    → Map.lookup s.id r.sessions ≡ none
    → IsCoherent (add r s)
unfolding add
add-IsCoherent r s c fresh = record {
  allocated = λ id p h. ground (arith, lookup-insert s.id id r.next r.sessions, c.allocated id p);
  named = λ id p h. ground (
    arith,
    lookup-insert s.id id r.next r.sessions,
    c.named id p,
    c.allocated id p,
    string_key.same_iff s.id id,
  );
  placed = λ path p h. ground (
    arith,
    lookup-insert s.binary_path path r.next r.binary_index,
    c.placed path p,
    indexed-allocated r path p c,
    string_key.same_iff s.binary_path path,
  );
  live = λ path p h. ground (
    arith,
    lookup-insert s.binary_path path r.next r.binary_index,
    lookup-insert s.id (r.heap p).id r.next r.sessions,
    lookup-insert s.id s.id r.next r.sessions,
    c.live path p,
    indexed-allocated r path p c,
    string_key.same_iff s.id (r.heap p).id,
    string_key.same_iff s.id s.id,
    fresh,
  );
  one_each = insert-IsMap s.id r.next r.sessions c.one_each;
}

abbrev pub WithinLimit : Registry → Type 0
WithinLimit r = (r.max_sessions ≡ 0) ⊎ (length r.sessions ≤ r.max_sessions)

is_full-true :
    (r : Registry) → is_full r ≡ true → (0 < r.max_sessions) × (r.max_sessions ≤ length r.sessions)
unfolding is_full
is_full-true r h = (ground arith, ground arith)

-- What `Create` and `Restore` promise of a session with an ID and a path: the new registry is coherent
-- and within its limit, the session is new, is found by both keys, has the ID and the path, and every
-- other ID finds what it found.
pub record Added (r : Registry) (id path : String) (r' : Registry) (s : ℕ) : Type 0 where
  pub coherent : IsCoherent r'
  pub within : WithinLimit r'
  pub fresh : s ≡ r.next
  pub by_id : get r' id ≡ some s
  pub by_path : find_by_binary_path r' path ≡ some s
  pub id_kept : (r'.heap s).id ≡ id
  pub path_kept : (r'.heap s).binary_path ≡ path
  pub by_ids : (k : String) → get r' k ≡ (if id == k then some s else get r k)
  pub by_paths :
      (p : String)
      → find_by_binary_path r' p ≡ (if path == p then some s else find_by_binary_path r p)

add-Added :
    (r : Registry) (s : Session)
    → IsCoherent r
    → WithinLimit r
    → is_full r ≡ false
    → Map.lookup s.id r.sessions ≡ none
    → Added r s.id s.binary_path (add r s) r.next
unfolding add get find_by_binary_path is_full
add-Added r s c w room fresh = record {
  coherent = add-IsCoherent r s c fresh;
  within = ground (arith, length-insert s.id r.next r.sessions);
  fresh = refl;
  by_id = lookup-insert_self s.id r.next r.sessions;
  by_path = lookup-insert_self s.binary_path r.next r.binary_index;
  id_kept = ground arith;
  path_kept = ground arith;
  by_ids = λ k. lookup-insert s.id k r.next r.sessions;
  by_paths = λ p. lookup-insert s.binary_path p r.next r.binary_index;
}

abbrev pub Outcome : Registry → String → String → Result → Type 0
Outcome r id path (err max_sessions_reached) =
    (0 < r.max_sessions) × (r.max_sessions ≤ length r.sessions)
Outcome r id path (err already_exists) = Map.has id r.sessions ≡ true
Outcome r id path (ok r' s) = Added r id path r' s

-- `Create` fails exactly on a registry that has a limit and has reached it, and otherwise adds the
-- session, given an ID that is not in use.
pub create-Outcome :
    (r : Registry) (id path : String) (timeout now : ℕ)
    → IsCoherent r
    → WithinLimit r
    → Map.lookup id r.sessions ≡ none
    → Outcome r id path (create r id path timeout now)
unfolding create
create-Outcome r id path timeout now c w fresh = elim (Bool-cases (is_full r)) [
  | inl full ↦ rw full (is_full-true r full)
  | inr room ↦ rw room (add-Added r _ c w room fresh)
]

-- `Restore` needs no such ID: it refuses one that is in use.
pub restore-Outcome :
    (r : Registry) (meta : Metadata)
    → IsCoherent r
    → WithinLimit r
    → Outcome r meta.id meta.binary_path (restore r meta)
unfolding restore
restore-Outcome r meta c w = elim (Bool-cases (is_full r)) [
  | inl full ↦ rw full (is_full-true r full)
  | inr room ↦ elim (Option-cases (Map.lookup meta.id r.sessions)) [
    | inl fresh ↦ rw (room, fresh) (add-Added r _ c w room fresh)
    | inr (s, used) ↦ rw (room, used) (rw used)
  ]
]

-- `Delete` removes the ID, and the path of its session, and leaves every other ID.
pub record Deleted (r : Registry) (id : String) (r' : Registry) : Type 0 where
  pub coherent : IsCoherent r'
  pub within : WithinLimit r'
  pub gone : get r' id ≡ none
  pub others : (k : String) → get r' k ≡ (if id == k then none else get r k)
  pub heap_kept : r'.heap ≡ r.heap

delete-IsCoherent :
    (r : Registry) (id : String) (s : ℕ)
    → IsCoherent r
    → Map.lookup id r.sessions ≡ some s
    → IsCoherent (record r {
      binary_index = Map.delete (r.heap s).binary_path r.binary_index;
      sessions = Map.delete id r.sessions;
    })
delete-IsCoherent r id s c h = record {
  allocated = λ k p e. ground (arith, lookup-delete id k r.sessions, c.allocated k p);
  named = λ k p e. ground (arith, lookup-delete id k r.sessions, c.named k p);
  placed = λ path p e.
      ground (arith, lookup-delete (r.heap s).binary_path path r.binary_index, c.placed path p);
  live = λ path p e. ground (
    arith,
    lookup-delete (r.heap s).binary_path path r.binary_index,
    lookup-delete id (r.heap p).id r.sessions,
    c.live path p,
    c.placed path p,
    string_key.same_iff id (r.heap p).id,
    string_key.same_iff (r.heap s).binary_path path,
    h,
  );
  one_each = delete-IsMap id r.sessions c.one_each;
}

-- Deleting an ID from a coherent registry within its limit keeps it so, makes the ID unknown, leaves
-- what every other ID finds, and changes no session object.
pub delete-Deleted :
    (r : Registry) (id : String) → IsCoherent r → WithinLimit r → Deleted r id (delete r id)
unfolding delete get
delete-Deleted r id c w = elim (Option-cases (Map.lookup id r.sessions)) [
  | inl miss ↦
      rw (miss, delete)
        (record {
          coherent = c;
          within = w;
          gone = miss;
          others = λ k. ground (arith, string_key.same_iff id k, miss);
          heap_kept = refl;
        })
  | inr (s, hit) ↦
      rw (hit, delete)
        (record {
          coherent = delete-IsCoherent r id s c hit;
          within = ground (arith, length-delete-le id r.sessions);
          gone = lookup-delete_self id r.sessions;
          others = λ k. lookup-delete id k r.sessions;
          heap_kept = refl;
        })
]

-- A method that keeps the ID and the path of a session keeps the registry coherent.
pub on_session-IsCoherent :
    (r : Registry) (s : ℕ) (f : Session → Session)
    → IsCoherent r
    → (f (r.heap s)).id ≡ (r.heap s).id
    → (f (r.heap s)).binary_path ≡ (r.heap s).binary_path
    → IsCoherent (on_session r s f)
unfolding on_session
on_session-IsCoherent r s f c same_id same_path = record {
  allocated = c.allocated;
  named = λ k p e. ground (arith, c.named k p e);
  placed = λ path p e. ground (arith, c.placed path p e);
  live = λ path p e. ground (arith, c.live path p e);
  one_each = c.one_each;
}
