-- ===== src/Controller/Registry/Located.antt =====
-- What the searches for a chunk find, at each level of the tree.
use serverless_lmcache.Common.{
  ℕ, ◌≡◌, refl, inl, inr, Bool-cases, Option-cases, true, false, Option, none, some, List, [], ◌∷◌,
  arith, contains, ℕ_discrete,
}
use serverless_lmcache.Common.Dict.{Dict, get, IsUnique}
use serverless_lmcache.Controller.Worker.{
  KvChunkInfo, WorkerNode, find_location, find_key, find_key_simple,
}
use serverless_lmcache.Controller.Instance.{
  InstanceNode, find_in_workers, find_simple_in_workers, find_key_of_instance,
  find_key_simple_of_instance,
}
use serverless_lmcache.Controller.Registry.Find.{
  is_excluded, find_in_instances, find_info_in_instances,
}

-- The report without the worker's address and its keys.
abbrev pub info_of : {A B C : Type 0} → Option (A × B × C) → Option A
info_of none = none
info_of (some (a, b, c)) = some a

-- A key of a dictionary's tail is another key than the head's.
get-tail :
    {K V : Type 0} (dec : Discrete K) (j k : K) (w : V) (d : Dict K V) {v : V}
    → IsUnique dec ((j, w) ∷ d)
    → get dec k d ≡ some v
    → get dec k ((j, w) ∷ d) ≡ some v
unfolding get
get-tail dec j k w d u there = ground (arith)

module _ {N K : Type 0} (dec_n : Discrete N) (dec_k : Discrete K) (key : K) where
  pub find_location_sound :
      (d : Dict N (List K)) (l : N) (s : List K)
      → IsUnique dec_n d
      → find_location dec_n dec_k key d ≡ some (l, s)
      → (get dec_n l d ≡ some s) × (contains dec_k key s ≡ true)
  unfolding find_location
  find_location_sound [] l s u found = cc
  find_location_sound ((j, t) ∷ d) l s u found = elim (Bool-cases (contains dec_k key t)) [
    | inl here ↦ unfold get in ground arith
    | inr further ↦
        let rest = find_location_sound d l s u.1 (ground arith) in
        (get-tail dec_n j l t d u rest.0, rest.1)
  ]

  pub find_location_complete :
      (d : Dict N (List K)) (l : N) (s : List K)
      → find_location dec_n dec_k key d ≡ none
      → get dec_n l d ≡ some s
      → contains dec_k key s ≡ false
  unfolding find_location get
  find_location_complete [] l s missing there = cc
  find_location_complete ((j, t) ∷ d) l s missing there =
      ground (arith, find_location_complete d l s)

  module _ (no_name : N) where
    -- A report of worker `w`.
    abbrev pub OfWorker : WorkerNode N K → KvChunkInfo N × Option N × List K → Type 0
    OfWorker w (info, url, keys) =
        (url ≡ w.peer_init_url)
        × (find_location dec_n dec_k key w.kv_store ≡ some (info.location, keys))

    pub find_in_workers_sound :
        (i : N) (ws : Dict ℕ (WorkerNode N K)) (info : KvChunkInfo N) (url : Option N)
        (keys : List K)
        → IsUnique ℕ_discrete ws
        → find_in_workers dec_n dec_k no_name i key ws ≡ some (info, url, keys)
        → (info.instance_id ≡ i)
          × (w : WorkerNode N K) × (get ℕ_discrete info.worker_id ws ≡ some w)
          × OfWorker w (info, url, keys)
    unfolding find_in_workers find_key
    find_in_workers_sound i [] info url keys u found = cc
    find_in_workers_sound i ((v, w) ∷ ws) info url keys u found =
        elim (Option-cases (find_location dec_n dec_k key w.kv_store)) [
          | inl none_ ↦
              let (id, x, there, report) =
                find_in_workers_sound i ws info url keys u.1 (ground arith) in
              (id, x, get-tail ℕ_discrete v info.worker_id w ws u there, report)
          | inr ((l, s), here) ↦
              (ground arith, w, unfold get in ground arith, (ground arith, ground arith))
        ]

    pub find_in_workers_complete :
        (i : N) (ws : Dict ℕ (WorkerNode N K)) (v : ℕ) (w : WorkerNode N K)
        → find_in_workers dec_n dec_k no_name i key ws ≡ none
        → get ℕ_discrete v ws ≡ some w
        → find_location dec_n dec_k key w.kv_store ≡ none
    unfolding find_in_workers find_key get
    find_in_workers_complete i [] v w missing there = cc
    find_in_workers_complete i ((u, x) ∷ ws) v w missing there =
        ground (arith, find_in_workers_complete i ws v w)

    -- The two searches agree.
    find_simple_in_workers_lem :
        (i : N) (ws : Dict ℕ (WorkerNode N K))
        → find_simple_in_workers dec_n dec_k no_name i key ws
          ≡ info_of (find_in_workers dec_n dec_k no_name i key ws)
    unfolding find_simple_in_workers find_in_workers find_key find_key_simple
    find_simple_in_workers_lem i [] = refl
    find_simple_in_workers_lem i ((u, x) ∷ ws) = ground (arith, find_simple_in_workers_lem i ws)

    in_tail :
        (j : N) (n : InstanceNode N K) (d : Dict N (InstanceNode N K))
        (found : Option (KvChunkInfo N × Option N × List K)) (included : N → Type 0)
        → IsUnique dec_n ((j, n) ∷ d)
        → (i : N) × included i
          × (node : InstanceNode N K) × (get dec_n i d ≡ some node)
          × (find_key_of_instance dec_n dec_k no_name key node ≡ found)
        → (i : N) × included i
          × (node : InstanceNode N K) × (get dec_n i ((j, n) ∷ d) ≡ some node)
          × (find_key_of_instance dec_n dec_k no_name key node ≡ found)
    in_tail j n d found included u (i, kept, node, there, report) =
        (i, kept, node, get-tail dec_n j i n d u there, report)

    module _ (exclude : Option N) where
      pub find_info_in_instances_sound :
          (d : Dict N (InstanceNode N K)) (info : KvChunkInfo N) (url : Option N) (keys : List K)
          → IsUnique dec_n d
          → find_info_in_instances dec_n dec_k no_name key exclude d ≡ some (info, url, keys)
          → (i : N) × (is_excluded dec_n dec_k exclude i ≡ false)
            × (node : InstanceNode N K) × (get dec_n i d ≡ some node)
            × (find_key_of_instance dec_n dec_k no_name key node ≡ some (info, url, keys))
      unfolding find_info_in_instances
      find_info_in_instances_sound [] info url keys u found = cc
      find_info_in_instances_sound ((i, node) ∷ d) info url keys u found =
          elim (Bool-cases (is_excluded dec_n dec_k exclude i)) [
            | inr included ↦
                elim (Option-cases (find_key_of_instance dec_n dec_k no_name key node)) [
                  | inr (report, here) ↦
                      (i, included, node, unfold get in ground arith, ground arith)
                  | inl none_ ↦
                      in_tail i node d (some (info, url, keys))
                        (λ k. is_excluded dec_n dec_k exclude k ≡ false) u
                        (find_info_in_instances_sound d info url keys u.1 (ground arith))
                ]
            | inl excluded ↦
                in_tail i node d (some (info, url, keys))
                  (λ k. is_excluded dec_n dec_k exclude k ≡ false) u
                  (find_info_in_instances_sound d info url keys u.1 (ground arith))
          ]

      pub find_info_in_instances_complete :
          (d : Dict N (InstanceNode N K)) (j : N) (node : InstanceNode N K)
          → find_info_in_instances dec_n dec_k no_name key exclude d ≡ none
          → get dec_n j d ≡ some node
          → is_excluded dec_n dec_k exclude j ≡ false
          → find_key_of_instance dec_n dec_k no_name key node ≡ none
      unfolding find_info_in_instances get
      find_info_in_instances_complete [] j node missing there included = cc
      find_info_in_instances_complete ((i, n) ∷ d) j node missing there included =
          ground (arith, find_info_in_instances_complete d j node)

      pub find_in_instances_lem :
          (d : Dict N (InstanceNode N K))
          → find_in_instances dec_n dec_k no_name key exclude d
            ≡ info_of (find_info_in_instances dec_n dec_k no_name key exclude d)
      unfolding find_in_instances find_info_in_instances find_key_of_instance
          find_key_simple_of_instance
      find_in_instances_lem [] = refl
      find_in_instances_lem ((i, node) ∷ d) =
          ground (
            arith,
            find_in_instances_lem d,
            find_simple_in_workers_lem node.instance_id node.workers,
          )
