-- ===== src/Cache/Loading.antt =====
-- `loadCached` under two calls at once.
use ida_pilot.Common.{◌≡◌, refl, true, false, List, none, some, ◌⊎◌, inl, inr}
use ida_pilot.Cache.{Fetched, fails, fetched, loaded, store_fetched, load_locked, load_cached}

-- Two calls that both saw the empty slot, and a loader that returns a slice that is not nil: whichever
-- takes the lock first asks the worker, the other one leaves the worker alone, and both return what the
-- worker sent. A call that comes after them is a hit.
pub concurrent_loads {ℓ} :
    {A World : Type ℓ} (loader : World → World × Fetched A) (w : World) (items : List A)
    → (loader w).1 ≡ fetched (some items)
    → let first = load_cached loader none none w in
      let second = load_cached loader none first.0.0 first.0.1 in
      let later = load_cached loader second.0.0 second.0.0 second.0.1 in
      (first.1 ≡ loaded (some items) false)
      × (second.1 ≡ loaded (some items) false)
      × (second.0.1 ≡ (loader w).0)
      × (later ≡ ((some items, (loader w).0), loaded (some items) true))
unfolding load_cached load_locked store_fetched
concurrent_loads loader w items sent = rw sent (refl, refl, refl, refl)

-- A load that fails leaves the slot empty, so that the next call asks the worker again; so does one
-- that is sent no items.
pub load_cached-retries {ℓ} :
    {A World : Type ℓ} (loader : World → World × Fetched A) (w : World)
    → ((loader w).1 ≡ fails) ⊎ ((loader w).1 ≡ fetched none)
    → let first = load_cached loader none none w in
      (first.0.0 ≡ none)
      × (load_cached loader first.0.0 first.0.0 first.0.1
          ≡ load_cached loader none none (loader w).0)
unfolding load_cached load_locked store_fetched
load_cached-retries loader w (inl e) = rw e (refl, refl)
load_cached-retries loader w (inr e) = rw e (refl, refl)
