-- ===== src/Distributed/LruPolicy.antt =====
-- `LRUEvictionPolicy` (distributed/eviction_policy/lru.py) with the reactions that `EvictionPolicy`
-- (distributed/eviction.py) gives to the calls of L1Manager. A method runs under the policy's lock.
pub mod Recency
pub mod Evicts
use serverless_lmcache.Common.{
  ℕ, ◌+◌, Bool, true, false, ◌&&◌, if◌then◌else◌, ltb, leb, ◌==◌, List, [], ◌∷◌, ◌++◌, for_each,
  length, contains, remove,
}
use serverless_lmcache.Distributed.L1Manager.{
  Event, keys_reserved_read, keys_read_finished, keys_reserved_write, keys_write_finished,
  keys_deleted_by_manager, Listener,
}

pub data EvictionDestination : Type 0 where
  discard l2_cache : EvictionDestination

pub EvictionDestination-discrete : Discrete EvictionDestination
EvictionDestination-discrete = hlevel

pub record EvictionAction (K : Type 0) : Type 0 where
  pub destination : EvictionDestination
  pub keys : List K

-- The policy's `OrderedDict` has no values: its keys in order, the most recently used last.
pub record LruEvictionPolicy (K : Type 0) : Type 0 where
  pub order : List K
  pub destinations : List EvictionDestination
  pub default_destination : EvictionDestination

-- Python's floats, as far as the ratio of `get_eviction_actions` needs them: `clamp r` is
-- `max(0.0, min(1.0, r))`, `is_positive r` is `r > 0`, and `scale n r` is `int(n * r)`.
pub record Floats : Type 1 where
  pub Float : Type 0
  pub clamp : Float → Float
  pub is_positive : Float → Bool
  pub scale : ℕ → Float → ℕ

-- How many keys to evict of `n`.
unfoldable pub target_count : (fl : Floats) → ℕ → fl.Float → ℕ
target_count fl n expected_ratio =
    let ratio = fl.clamp expected_ratio in
    if fl.is_positive ratio && (fl.scale n ratio == 0) && ltb 0 n then 1 else fl.scale n ratio

module _ {K : Type 0} where
  -- The constructor.
  unfoldable pub new : EvictionDestination → LruEvictionPolicy K
  new default_destination = record {
    order = [];
    destinations = [];
    default_destination = default_destination;
  }

  unfoldable pub register_eviction_destination :
      EvictionDestination → LruEvictionPolicy K → LruEvictionPolicy K
  register_eviction_destination destination p =
      if contains EvictionDestination-discrete destination p.destinations
      then p
      else record p { destinations = p.destinations ++ (destination ∷ []) }

  -- The loop that both readers of the order run: a key is taken before the count is tested.
  unfoldable pub collect : ℕ → List K → List K → List K
  collect target taken [] = taken
  collect target taken (key ∷ rest) = elim (leb target (length taken + 1)) [
    | true ↦ taken ++ (key ∷ [])
    | false ↦ collect target (taken ++ (key ∷ [])) rest
  ]

  unfoldable pub get_num_tracked_keys : LruEvictionPolicy K → ℕ
  get_num_tracked_keys p = length p.order

  unfoldable pub get_eviction_candidates : ℕ → LruEvictionPolicy K → List K
  get_eviction_candidates count p = collect count [] p.order

  -- `self._destinations[0]` if there is one, else the default.
  unfoldable pub destination_of : LruEvictionPolicy K → EvictionDestination
  destination_of p = elim p.destinations [ [] ↦ p.default_destination | d ∷ ds ↦ d ]

  module _ (fl : Floats) where
    unfoldable pub get_eviction_actions : fl.Float → LruEvictionPolicy K → List (EvictionAction K)
    get_eviction_actions expected_ratio p =
        let target = target_count fl (length p.order) expected_ratio in
        if length p.order == 0
        then []
        else if target == 0
        then []
        else record { destination = destination_of p; keys = collect target [] p.order } ∷ []

  module _ (dec : Discrete K) where
    -- One key of `on_keys_created`: `move_to_end`, or a new key at the end.
    unfoldable pub create_key : K → List K → List K
    create_key key order =
        if contains dec key order then remove dec key order ++ (key ∷ []) else order ++ (key ∷ [])

    unfoldable pub touch_key : K → List K → List K
    touch_key key order =
        if contains dec key order then remove dec key order ++ (key ∷ []) else order

    unfoldable pub remove_key : K → List K → List K
    remove_key key order = if contains dec key order then remove dec key order else order

    unfoldable pub on_keys_created : List K → LruEvictionPolicy K → LruEvictionPolicy K
    on_keys_created ks p = record p { order = for_each create_key ks p.order }

    unfoldable pub on_keys_touched : List K → LruEvictionPolicy K → LruEvictionPolicy K
    on_keys_touched ks p = record p { order = for_each touch_key ks p.order }

    unfoldable pub on_keys_removed : List K → LruEvictionPolicy K → LruEvictionPolicy K
    on_keys_removed ks p = record p { order = for_each remove_key ks p.order }

    -- The reactions of `EvictionPolicy` as a listener.
    unfoldable pub react : Event K → LruEvictionPolicy K → LruEvictionPolicy K
    react (keys_reserved_read ks) p = p
    react (keys_read_finished ks) p = on_keys_touched ks p
    react (keys_reserved_write ks) p = p
    react (keys_write_finished ks) p = on_keys_created ks p
    react (keys_deleted_by_manager ks) p = on_keys_removed ks p

    abbrev pub lru_listener : Listener K
    lru_listener = record { State = LruEvictionPolicy K; notify = react }
