-- ===== src/EventManager.antt =====
-- `EventManager` of event_manager.py, for its one type of events. The dictionaries of the statuses are
-- the fields; each method runs under the lock. `none` is an AssertionError or a KeyError.
pub mod Status
use serverless_lmcache.Common.{ℕ, Bool, true, false, Option, none, some, List, [], length}
use serverless_lmcache.Common.Dict.{Dict, get, insert, erase}

pub data EventStatus : Type 0 where
  ongoing done not_found : EventStatus

pub record EventManager (I F : Type 0) : Type 0 where
  pub ongoing_events : Dict I F
  pub done_events : Dict I F
  pub not_found_events : Dict I F

module _ {I F : Type 0} where
  abbrev pub new_event_manager : EventManager I F
  new_event_manager = record { ongoing_events = []; done_events = []; not_found_events = [] }

  -- `status_dict[status]`, and a write to it.
  abbrev pub events : EventStatus → EventManager I F → Dict I F
  events ongoing m = m.ongoing_events
  events done m = m.done_events
  events not_found m = m.not_found_events

  abbrev pub set_events : EventStatus → Dict I F → EventManager I F → EventManager I F
  set_events ongoing d m = record m { ongoing_events = d }
  set_events done d m = record m { done_events = d }
  set_events not_found d m = record m { not_found_events = d }

  unfoldable pub get_events_count_by_status : EventStatus → EventManager I F → ℕ
  get_events_count_by_status status m = length (events status m)

module _ {I F : Type 0} (dec : Discrete I) where
  unfoldable pub add_event : I → F → EventManager I F → EventManager I F
  add_event event_id future m = record m {
    ongoing_events = insert dec event_id future m.ongoing_events;
  }

  unfoldable pub pop_event : I → EventManager I F → Option (EventManager I F × F)
  pop_event event_id m = elim (get dec event_id m.done_events) [
    | none ↦ none
    | some future ↦ some (record m { done_events = erase dec event_id m.done_events }, future)
  ]

  -- The loop over the statuses, in the order of their declaration: the first that has the event.
  unfoldable pub find_status : I → EventManager I F → Option (EventStatus × F)
  find_status event_id m = elim (get dec event_id m.ongoing_events) [
    | some future ↦ some (ongoing, future)
    | none ↦ elim (get dec event_id m.done_events) [
      | some future ↦ some (done, future)
      | none ↦ elim (get dec event_id m.not_found_events) [
        | some future ↦ some (not_found, future)
        | none ↦ none
      ]
    ]
  ]

  unfoldable pub update_event_status :
      I → EventStatus → EventManager I F → Option (EventManager I F)
  update_event_status event_id status m = elim (find_status event_id m) [
    | none ↦ none
    | some (old, event) ↦
        let m' = set_events old (erase dec event_id (events old m)) m in
        some (set_events status (insert dec event_id event (events status m')) m')
  ]

  unfoldable pub get_event_status : I → EventManager I F → EventStatus
  get_event_status event_id m = elim (find_status event_id m) [
    | none ↦ not_found
    | some (status, future) ↦ status
  ]
