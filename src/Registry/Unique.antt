-- ===== src/Registry/Unique.antt =====
-- One session for each binary: what holds as long as a session is created only where none is found by
-- its path, as `openBinary` does, and what goes wrong otherwise.
use ida_pilot.Common.{
  string_key, ℕ, ◌≡◌, sym, ap, ◌∙◌, String, none, some, arith, Option-cases, inl, inr,
}
use ida_pilot.Common.Map
use ida_pilot.Common.Map.{Map, lookup-insert, lookup-insert_self, lookup-delete, lookup-delete_self}
use ida_pilot.Registry.{Session, Registry, add, find_by_binary_path, get, delete}
use ida_pilot.Registry.Coherent.{IsCoherent}

-- Every session is the one that its path finds.
abbrev pub IsUnique : Registry → Type 0
IsUnique r =
    (id : String) (s : ℕ)
    → get r id ≡ some s
    → find_by_binary_path r (r.heap s).binary_path ≡ some s

-- Adding a session with an unused ID and an unused path, to a coherent registry where every session is
-- the one that its path finds, keeps that so.
pub add-IsUnique :
    (r : Registry) (s : Session)
    → IsCoherent r
    → IsUnique r
    → get r s.id ≡ none
    → find_by_binary_path r s.binary_path ≡ none
    → IsUnique (add r s)
unfolding add get find_by_binary_path
add-IsUnique r s c u fresh unseen id p h = ground (
  arith,
  lookup-insert s.id id r.next r.sessions,
  lookup-insert s.binary_path (r.heap p).binary_path r.next r.binary_index,
  lookup-insert_self s.binary_path r.next r.binary_index,
  c.allocated id p,
  u id p,
  string_key.same_iff s.binary_path (r.heap p).binary_path,
)

-- Deleting any ID from a coherent registry where every session is the one that its path finds keeps
-- that so.
pub delete-IsUnique :
    (r : Registry) (id : String) → IsCoherent r → IsUnique r → IsUnique (delete r id)
unfolding delete get find_by_binary_path
delete-IsUnique r id c u = elim (Option-cases (Map.lookup id r.sessions)) [
  | inl miss ↦ rw (miss, delete) u
  | inr (s, hit) ↦
      rw (hit, delete)
        (λ k p h. ground (
          arith,
          lookup-delete id k r.sessions,
          lookup-delete (r.heap s).binary_path (r.heap p).binary_path r.binary_index,
          u k p,
          u id s,
          c.named k p,
          c.named id s,
          hit,
          string_key.same_iff id k,
          string_key.same_iff (r.heap s).binary_path (r.heap p).binary_path,
        ))
]

-- Two sessions that are registered for one path are the same session.
pub IsUnique-same_path :
    (r : Registry) (i j : String) (s t : ℕ)
    → IsUnique r
    → get r i ≡ some s
    → get r j ≡ some t
    → (r.heap s).binary_path ≡ (r.heap t).binary_path
    → s ≡ t
IsUnique-same_path r i j s t u hs ht e =
    some_inj (sym (u i s hs) ∙ ap (find_by_binary_path r) e ∙ u j t ht)
  where
    some_inj : some s ≡ some t → s ≡ t
    some_inj h = ground arith

-- `Create` and `Restore` do not look at the path. A second session for a path takes the path over, and
-- when it is deleted the first one, still registered, is not found by its path any more: the next
-- open of the binary starts another worker for it.
pub second_session_hides_first :
    (r : Registry) (path : String) (first : ℕ) (s : Session)
    → IsCoherent r
    → find_by_binary_path r path ≡ some first
    → s.binary_path ≡ path
    → get r s.id ≡ none
    → let r' = delete (add r s) s.id in
      (get r' (r.heap first).id ≡ some first)
      × ((r'.heap first).binary_path ≡ path)
      × (find_by_binary_path r' path ≡ none)
unfolding add get delete find_by_binary_path
second_session_hides_first r path first s c found same fresh =
    let alive = c.live path first found in
    let known = c.allocated (r.heap first).id first alive in
    rw (lookup-insert_self s.id r.next r.sessions, delete)
      (
        ground (
          arith,
          lookup-delete s.id (r.heap first).id (Map.insert s.id r.next r.sessions),
          lookup-insert s.id (r.heap first).id r.next r.sessions,
          string_key.same_iff s.id (r.heap first).id,
        ),
        ground (arith, c.placed path first found),
        ground (
          arith,
          lookup-delete s.binary_path path (Map.insert s.binary_path r.next r.binary_index),
          string_key.same_iff s.binary_path path,
        ),
      )
