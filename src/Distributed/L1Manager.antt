-- ===== src/Distributed/L1Manager.antt =====
-- lmcache/v1/distributed/l1_manager.py: the objects of the L1 cache and their locks. A method runs
-- under the manager's lock, so a call is one step; all its readings of the clock are one argument,
-- `now`. The operations are in `Read`, `Write` and `Remove`.
pub mod Read
pub mod Write
pub mod Remove
pub mod Loops
pub mod Object
pub mod Guard
pub mod Holders
pub mod Ownership
pub mod Fresh
pub mod History
use serverless_lmcache.Common.{
  ℕ, ◌≡◌, Bool, not, ◌&&◌, Option, none, some, List, [], ◌∷◌, ◌++◌, map, for_each,
}
use serverless_lmcache.Common.Dict.{Dict, insert}
use serverless_lmcache.Distributed.Error.{L1Error}
use serverless_lmcache.Distributed.TtlLock.{TtlLock, is_locked}

pub record L1ObjectState (M : Type 0) : Type 0 where
  pub memory_obj : M
  pub write_lock : TtlLock
  pub read_lock : TtlLock
  pub is_temporary : Bool

module _ {M : Type 0} where
  unfoldable pub available_for_read : ℕ → L1ObjectState M → Bool
  available_for_read now e = not (is_locked now e.write_lock)

  unfoldable pub available_for_write : ℕ → L1ObjectState M → Bool
  available_for_write now e =
      not (is_locked now e.write_lock) && not (is_locked now e.read_lock) && not e.is_temporary

-- The calls that `L1ManagerListener` gets.
pub data Event (K : Type 0) : Type 0 where
  keys_reserved_read keys_read_finished keys_reserved_write : List K → Event K
  keys_write_finished keys_deleted_by_manager : List K → Event K

-- A listener is a state with a reaction to each call.
pub record Listener (K : Type 0) : Type 1 where
  pub State : Type 0
  pub notify : Event K → State → State

-- `K` are the keys, `M` the memory objects, `H` the allocator's states, `L` the listeners'.
pub record L1Manager (K M H L : Type 0) : Type 0 where
  pub objects : Dict K (L1ObjectState M)
  pub heap : H
  pub write_ttl_seconds : ℕ
  pub read_ttl_seconds : ℕ
  pub registered_listeners : List L

-- The local variables of a method's loop over keys; `R` is what it reports for a key. A variable
-- that a method does not have stays empty.
pub record Loop (K M R : Type 0) : Type 0 where
  pub objects : Dict K (L1ObjectState M)
  pub ret : Dict K R
  pub successful_keys : List K
  pub need_to_free : List M
  pub need_to_free_keys : List K
  pub need_to_allocate : List (K × Bool)

abbrev pub L1OperationResult : Type 0 → Type 0
L1OperationResult M = L1Error × Option M

module _ {K M R : Type 0} where
  abbrev pub start : Dict K (L1ObjectState M) → Loop K M R
  start objects = record {
    objects = objects;
    ret = [];
    successful_keys = [];
    need_to_free = [];
    need_to_free_keys = [];
    need_to_allocate = [];
  }

  module _ (dec : Discrete K) where
    -- `ret[key] = r` with nothing else done: the branches that refuse a key.
    abbrev pub refuse : K → R → Loop K M R → Loop K M R
    refuse key r s = record s { ret = insert dec key r s.ret }

    -- The object is stored anew, the key is reported and counted as successful.
    abbrev pub accept : K → L1ObjectState M → R → Loop K M R → Loop K M R
    accept key e r s = record s {
      objects = insert dec key e s.objects;
      ret = insert dec key r s.ret;
      successful_keys = s.successful_keys ++ (key ∷ []);
    }

module _ {K M H : Type 0} (lis : Listener K) where
  -- Each registered listener gets the calls in order.
  unfoldable pub notify_all : List (Event K) → L1Manager K M H lis.State → L1Manager K M H lis.State
  notify_all events m = record m {
    registered_listeners = map (for_each lis.notify events) m.registered_listeners;
  }

  unfoldable pub register_listener :
      lis.State → L1Manager K M H lis.State → L1Manager K M H lis.State
  register_listener listener m = record m {
    registered_listeners = m.registered_listeners ++ (listener ∷ []);
  }
