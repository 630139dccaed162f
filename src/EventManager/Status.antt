-- ===== src/EventManager/Status.antt =====
-- The status of every event after a change of one.
use serverless_lmcache.Common.{◌≡◌, ◌⊎◌, inl, inr, Option-cases, ite, none, some, arith}
use serverless_lmcache.Common.Dict.{get, insert, erase, get-insert, get-erase}
use serverless_lmcache.EventManager.{
  EventStatus, ongoing, done, not_found, EventManager, events, set_events, find_status,
  update_event_status, get_event_status,
}

module _ {I F : Type 0} (dec : Discrete I) where
  -- How often an event stands in the statuses.
  abbrev pub IsOnce : EventManager I F → Type 0
  IsOnce m =
      (j : I)
      → ((get dec j m.ongoing_events ≡ none) × (get dec j m.done_events ≡ none))
        ⊎ (((get dec j m.ongoing_events ≡ none) × (get dec j m.not_found_events ≡ none))
            ⊎ ((get dec j m.done_events ≡ none) × (get dec j m.not_found_events ≡ none)))

  abbrev moved : I → EventStatus → EventStatus → F → EventManager I F → EventManager I F
  moved i old status event m =
      let m' = set_events old (erase dec i (events old m)) m in
      set_events status (insert dec i event (events status m')) m'

  get_event_status-moved :
      (i j : I) (old status : EventStatus) (event : F) (m : EventManager I F)
      → IsOnce m
      → get dec i (events old m) ≡ some event
      → get_event_status dec j (moved i old status event m)
        ≡ ite (dec i j) status (get_event_status dec j m)
  unfolding get_event_status find_status
  get_event_status-moved i j ongoing ongoing event m once there = ground (
    arith,
    once i,
    once j,
    get-erase dec i j m.ongoing_events,
    get-insert dec i j event (erase dec i m.ongoing_events),
  )
  get_event_status-moved i j ongoing done event m once there = ground (
    arith,
    once i,
    once j,
    get-erase dec i j m.ongoing_events,
    get-insert dec i j event m.done_events,
  )
  get_event_status-moved i j ongoing not_found event m once there = ground (
    arith,
    once i,
    once j,
    get-erase dec i j m.ongoing_events,
    get-insert dec i j event m.not_found_events,
  )
  get_event_status-moved i j done ongoing event m once there = ground (
    arith,
    once i,
    once j,
    get-erase dec i j m.done_events,
    get-insert dec i j event m.ongoing_events,
  )
  get_event_status-moved i j done done event m once there = ground (
    arith,
    once i,
    once j,
    get-erase dec i j m.done_events,
    get-insert dec i j event (erase dec i m.done_events),
  )
  get_event_status-moved i j done not_found event m once there = ground (
    arith,
    once i,
    once j,
    get-erase dec i j m.done_events,
    get-insert dec i j event m.not_found_events,
  )
  get_event_status-moved i j not_found ongoing event m once there = ground (
    arith,
    once i,
    once j,
    get-erase dec i j m.not_found_events,
    get-insert dec i j event m.ongoing_events,
  )
  get_event_status-moved i j not_found done event m once there = ground (
    arith,
    once i,
    once j,
    get-erase dec i j m.not_found_events,
    get-insert dec i j event m.done_events,
  )
  get_event_status-moved i j not_found not_found event m once there = ground (
    arith,
    once i,
    once j,
    get-erase dec i j m.not_found_events,
    get-insert dec i j event (erase dec i m.not_found_events),
  )

  find_status_sound :
      (i : I) (m : EventManager I F) (old : EventStatus) (event : F)
      → find_status dec i m ≡ some (old, event)
      → get dec i (events old m) ≡ some event
  unfolding find_status
  find_status_sound i m ongoing event found = ground arith
  find_status_sound i m done event found = ground arith
  find_status_sound i m not_found event found = ground arith

  -- Where every event stands in one status at most and an update of an event's status returns,
  -- that event has the new status afterwards and every other event the status that it had.
  pub get_event_status-update_event_status :
      (i j : I) (status : EventStatus) (m m' : EventManager I F)
      → IsOnce m
      → update_event_status dec i status m ≡ some m'
      → get_event_status dec j m' ≡ ite (dec i j) status (get_event_status dec j m)
  unfolding update_event_status
  get_event_status-update_event_status i j status m m' once ran =
      elim (Option-cases (find_status dec i m)) [
        | inl none_ ↦ absurd (ground arith)
        | inr ((old, event), found) ↦
            let e : moved i old status event m ≡ m' = ground arith in
            rw (← e) (
              get_event_status-moved i j old status event m once
                (find_status_sound i m old event found))
      ]
