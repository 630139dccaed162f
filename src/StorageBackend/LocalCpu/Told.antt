-- ===== src/StorageBackend/LocalCpu/Told.antt =====
-- Histories of calls on the backend, without `batched_allocate`, and their messages.
use mathlib.Core.List.{reverse}
use serverless_lmcache.Common.{
  ℕ, ◌≡◌, refl, sym, ap, subst, ◌∙◌, inl, inr, Bool-cases, Option-cases, Bool, true, false, ite,
  Option, none, some, List, [], ◌∷◌, ◌++◌, arith, for_each, for_each_inv,
}
use serverless_lmcache.Common.Dict.{Dict, get, erase, get-erase}
use serverless_lmcache.CachePolicy.{move_to_end}
use serverless_lmcache.CachePolicy.Candidates.{move_to_end-some}
use serverless_lmcache.Memory.Layout.{MemoryFormat}
use serverless_lmcache.StorageBackend.Policy.{BaseCachePolicy, PolicyLaws, ObjectAllocator}
use serverless_lmcache.StorageBackend.LocalCpu.{
  Config, LocalCpuBackend, Backend, set_object, object_up, object_down, object_pin, object_unpin,
  pin_in_request, touch_key, touch_cache, submit_put_task, get_blocking, get_from,
  batched_get_non_blocking, count_prefix, batched_async_contains, remove, batched_remove, put_key,
  add_kv_op, freeing,
}
use serverless_lmcache.StorageBackend.LocalCpu
use serverless_lmcache.StorageBackend.LocalCpu.Attempts.{allocate_rule}
use serverless_lmcache.StorageBackend.LocalCpu.Allocation.{
  take_object, allocate, clear, clear_keys, format_or_default,
}
use serverless_lmcache.StorageBackend.LocalCpu.Messages.{
  Mirrors, Same, contains-Same, count_prefix-Same, get_blocking-Same, get_from-Same, pin-Same,
  unpin-Same, object_down-Same, take_object-Same, unchanged-Mirrors, submit_put_task-Mirrors,
  batched_remove-Mirrors,
}
use serverless_lmcache.StorageBackend.LocalCpu.History.{
  Step, looked_up, counted, touched, put, got, got_all, pinned, unpinned, removed, cleared,
  allocated, retained, released, Reachable, started, stepped,
}

module _ {K : Type 0} (dec : Discrete K) (cfg : Config) (p : BaseCachePolicy K ℕ)
    (a : ObjectAllocator) (sender : cfg.has_sender ≡ true) (d0 : Dict K ℕ) where
  clear-Mirrors :
      (num_tokens : ℕ → ℕ) (s : Backend dec cfg p a)
      → Mirrors dec d0 s
      → Mirrors dec d0 (clear dec cfg p a num_tokens s).1
  unfolding clear
  clear-Mirrors num_tokens s m = elim (Bool-cases cfg.use_hot) [
    | inl y ↦
        let ks = (clear_keys dec cfg p a num_tokens s s.hot_cache ([], 0)).0 in
        let e : (clear dec cfg p a num_tokens s).1 ≡ batched_remove dec cfg p a true ks s =
          ground (arith, y) in
        rw e (batched_remove-Mirrors dec cfg p a sender d0 true ks s m)
    | inr n ↦ let e : (clear dec cfg p a num_tokens s).1 ≡ s = ground (arith, n) in rw e m
  ]

  allocate-Mirrors :
      (wait : Backend dec cfg p a → Backend dec cfg p a) (layout : a.Layout)
      (fmt : Option MemoryFormat) (eviction : Bool) (fuel : ℕ) (s : Backend dec cfg p a)
      (t : Option ℕ × Backend dec cfg p a)
      → Mirrors dec d0 s
      → allocate dec cfg p a wait layout fmt eviction false fuel s ≡ some t
      → Mirrors dec d0 t.1
  allocate-Mirrors wait layout fmt eviction fuel s t m =
      allocate_rule dec cfg p a wait layout fmt (Mirrors dec d0) (λ t. Mirrors dec d0 t.1)
        (λ s k ks m offered. batched_remove-Mirrors dec cfg p a sender d0 false (k ∷ ks) s m)
        (λ s r m got.
          unchanged-Mirrors dec cfg p a sender d0 s
            (take_object dec cfg p a layout (format_or_default cfg fmt) s).1
            (take_object-Same dec cfg p a layout (format_or_default cfg fmt) s) m)
        eviction fuel s t (λ s m nothing refused. m) (λ keeping. m) m

module _ {K : Type 0} (dec : Discrete K) where
  get-append_absent :
      (k j : K) (d : Dict K ℕ) (r : ℕ)
      → get dec j (d ++ ((k, r) ∷ []))
        ≡ elim (get dec j d) [ none ↦ ite (dec k j) (some r) none | some v ↦ some v ]
  unfolding get
  get-append_absent k j [] r = refl
  get-append_absent k j ((i, w) ∷ d) r = ground (arith, get-append_absent k j d r)

  -- A hit keeps what each key stands for.
  get-move_to_end :
      (k j : K) (d : Dict K ℕ) {d' : Dict K ℕ}
      → move_to_end dec k d ≡ some d'
      → get dec j d' ≡ get dec j d
  get-move_to_end k j d e =
      let (r, here, moved) = move_to_end-some dec (λ r. true) k d e in
      ap (get dec j) (sym moved)
      ∙ get-append_absent k j (erase dec k d) r
      ∙ ground (arith, get-erase dec k j d, here)

module _ {K : Type 0} (dec : Discrete K) (cfg : Config) (p : BaseCachePolicy K ℕ)
    (a : ObjectAllocator) (d0 : Dict K ℕ) (pl : PolicyLaws dec p) where
  abbrev TouchMirrors : Option (Backend dec cfg p a) → Type 0
  TouchMirrors none = Unit
  TouchMirrors (some s) = Mirrors dec d0 s

  touch_key-Mirrors :
      (now : ℕ) (k : K) (s : Option (Backend dec cfg p a))
      → TouchMirrors s
      → TouchMirrors (touch_key dec cfg p a now k s)
  unfolding touch_key
  touch_key-Mirrors now k none m = tt
  touch_key-Mirrors now k (some s) m =
      elim (Option-cases (p.update_on_hit now k s.cache_policy s.hot_cache)) [
        | inl missing ↦
            let e : touch_key dec cfg p a now k (some s) ≡ none = ground (arith, missing) in rw e tt
        | inr ((q, d), here) ↦
            let e : touch_key dec cfg p a now k (some s)
                ≡ some (record s { cache_policy = q; hot_cache = d }) =
              ground (arith, here) in
            rw e (elim (pl.hit now k s.cache_policy s.hot_cache here) [
              | inl same ↦ rw same m
              | inr moved ↦ λ j. m j ∙ ground (arith, get-move_to_end dec k j s.hot_cache moved)
            ])
      ]

  touch_cache-Mirrors :
      (now : ℕ) (s : Backend dec cfg p a) {s' : Backend dec cfg p a}
      → Mirrors dec d0 s
      → touch_cache dec cfg p a now s ≡ some s'
      → Mirrors dec d0 s'
  unfolding touch_cache
  touch_cache-Mirrors now s {s'} m e =
      let looped =
        for_each_inv TouchMirrors (touch_key dec cfg p a now) (touch_key-Mirrors now)
          (reverse s.keys_in_request) (some s) m in
      elim (Option-cases
        (for_each (touch_key dec cfg p a now) (reverse s.keys_in_request) (some s))) [
          | inl raised ↦ absurd (ground (arith, raised, e))
          | inr (t, ran) ↦
              let after : record t { keys_in_request = [] } ≡ s' = ground (arith, ran, e) in
              let m' : Mirrors dec d0 t = subst TouchMirrors ran looped in
              subst (Mirrors dec d0) after m'
        ]

module _ {K : Type 0} (dec : Discrete K) (cfg : Config) (p : BaseCachePolicy K ℕ)
    (a : ObjectAllocator) (sender : cfg.has_sender ≡ true) (d0 : Dict K ℕ)
    (pl : PolicyLaws dec p) where
  step-Mirrors :
      {s s' : (ℕ → ℕ) × Backend dec cfg p a}
      → Step dec cfg p a s s'
      → Mirrors dec d0 s.1
      → Mirrors dec d0 s'.1
  unfolding batched_async_contains batched_get_non_blocking object_up set_object
  step-Mirrors (looked_up {h} {s} k pin) =
      unchanged-Mirrors dec cfg p a sender d0 s (LocalCpu.contains dec cfg p a k pin s).1
        (contains-Same dec cfg p a k pin s)
  step-Mirrors (counted {h} {s} ks pin) =
      unchanged-Mirrors dec cfg p a sender d0 s (count_prefix dec cfg p a pin ks 0 s).1
        (count_prefix-Same dec cfg p a pin ks 0 s)
  step-Mirrors (touched {h} {s} {s'} now e) = λ m. touch_cache-Mirrors dec cfg p a d0 pl now s m e
  step-Mirrors (put {h} {s} now k r held) = submit_put_task-Mirrors dec cfg p a sender d0 now k r s
  step-Mirrors (got {h} {s} k) =
      unchanged-Mirrors dec cfg p a sender d0 s (get_blocking dec cfg p a k s).1
        (get_blocking-Same dec cfg p a k s)
  step-Mirrors (got_all {h} {s} {s'} ks rs e) =
      let same = get_from-Same dec cfg p a ks [] s in
      unchanged-Mirrors dec cfg p a sender d0 s s'
        (subst (λ (t : Option (List ℕ) × Backend dec cfg p a). Same dec cfg p a s t.1) e same)
  step-Mirrors (pinned {h} {s} k) =
      unchanged-Mirrors dec cfg p a sender d0 s (LocalCpu.pin dec cfg p a k s).1
        (pin-Same dec cfg p a k s)
  step-Mirrors (unpinned {h} {s} k) =
      unchanged-Mirrors dec cfg p a sender d0 s (LocalCpu.unpin dec cfg p a k s).1
        (unpin-Same dec cfg p a k s)
  step-Mirrors (removed {h} {s} force ks) = batched_remove-Mirrors dec cfg p a sender d0 force ks s
  step-Mirrors (cleared {h} {s} num_tokens) = clear-Mirrors dec cfg p a sender d0 num_tokens s
  step-Mirrors (allocated {h} {s} {s'} layout fmt eviction fuel r e) =
      λ m. allocate-Mirrors dec cfg p a sender d0 (λ s. s) layout fmt eviction fuel s (r, s') m e
  step-Mirrors (retained {h} {s} r held) = λ m. m
  step-Mirrors (released {h} {s} r held) =
      unchanged-Mirrors dec cfg p a sender d0 s (object_down dec cfg p a r s)
        (object_down-Same dec cfg p a r s)

  pub history-Mirrors :
      (start : (ℕ → ℕ) × Backend dec cfg p a) {s : (ℕ → ℕ) × Backend dec cfg p a}
      → Mirrors dec d0 start.1
      → Reachable dec cfg p a start s
      → Mirrors dec d0 s.1
  history-Mirrors start m started = m
  history-Mirrors start m (stepped r step) = step-Mirrors step (history-Mirrors start m r)
