-- ===== src/Tests/Events.antt =====
-- The event manager with one event that runs and one that is done.
use serverless_lmcache.Common.{
  ℕ, ◌==◌, ◌≡◌, refl, inl, inr, Bool-cases, ite, some, [], ◌∷◌, arith, ℕ_discrete,
}
use serverless_lmcache.Common.Dict.{get, insert, erase}
use serverless_lmcache.EventManager.{
  done, EventManager, find_status, update_event_status, get_event_status,
}
use serverless_lmcache.EventManager.Status.{IsOnce, get_event_status-update_event_status}

abbrev two_events : EventManager ℕ ℕ
two_events = record {
  ongoing_events = (1, 10) ∷ [];
  done_events = (2, 20) ∷ [];
  not_found_events = [];
}

abbrev both_done : EventManager ℕ ℕ
both_done = record two_events { ongoing_events = []; done_events = (2, 20) ∷ (1, 10) ∷ [] }

two_events-IsOnce : IsOnce ℕ_discrete two_events
unfolding get
two_events-IsOnce j = elim (Bool-cases (1 == j)) [
  | inl is_one ↦ inr (inr (ground arith, refl))
  | inr other ↦ inr (inl (ground arith, refl))
]

finished : update_event_status ℕ_discrete 1 done two_events ≡ some both_done
unfolding update_event_status find_status get insert erase ℕ_discrete
finished = refl

get_event_status-update_event_status_example :
    get_event_status ℕ_discrete 1 both_done
    ≡ ite (ℕ_discrete 1 1) done (get_event_status ℕ_discrete 1 two_events)
get_event_status-update_event_status_example =
    get_event_status-update_event_status ℕ_discrete 1 1 done two_events both_done two_events-IsOnce
      finished
