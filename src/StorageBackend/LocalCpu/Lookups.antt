-- ===== src/StorageBackend/LocalCpu/Lookups.antt =====
-- The count of the references over lookups and hits.
use mathlib.Core.List.{reverse}
use serverless_lmcache.Common.{
  ℕ, ◌+◌, ◌≡◌, refl, sym, subst, inl, inr, Option-cases, Bool, true, false, if◌then◌else◌, Option,
  none, some, List, [], ◌∷◌, ◌++◌, arith, for_each,
}
use serverless_lmcache.Common.Dict.{get}
use serverless_lmcache.StorageBackend.Policy.{BaseCachePolicy, PolicyLaws, ObjectAllocator}
use serverless_lmcache.StorageBackend.LocalCpu.{
  Config, LocalCpuBackend, Backend, set_object, object_up, object_down, object_pin, object_unpin,
  pin_in_request, touch_key, touch_cache, submit_put_task, get_blocking, get_from,
  batched_get_non_blocking, count_prefix, batched_async_contains, remove, batched_remove,
}
use serverless_lmcache.StorageBackend.LocalCpu
use serverless_lmcache.StorageBackend.LocalCpu.Counting.{
  one_more, gained, all_more, Counts, object_up-Counts, object_pin-Counts,
}
use serverless_lmcache.StorageBackend.LocalCpu.Kept.{cached_held, move_to_end-cached}

module _ {K : Type 0} (dec : Discrete K) (cfg : Config) (p : BaseCachePolicy K ℕ)
    (a : ObjectAllocator) where
  -- What a lookup does to an object that it finds.
  found-Counts :
      (h : ℕ → ℕ) (k : K) (pin : Bool) (r : ℕ) (s : Backend dec cfg p a)
      → Counts dec h s
      → get dec k s.hot_cache ≡ some r
      → Counts dec h (if pin then pin_in_request dec cfg p a k r s else s)
  unfolding pin_in_request
  found-Counts h k false r s c here = c
  found-Counts h k true r s c here = object_pin-Counts dec h r s c (cached_held dec h k s c here)

  pub contains-Counts :
      (h : ℕ → ℕ) (k : K) (pin : Bool) (s : Backend dec cfg p a)
      → Counts dec h s
      → Counts dec h (LocalCpu.contains dec cfg p a k pin s).1
  unfolding LocalCpu.contains
  contains-Counts h k pin s c = elim (Option-cases (get dec k s.hot_cache)) [
    | inl missing ↦
        let e : (LocalCpu.contains dec cfg p a k pin s).1 ≡ s = ground (arith, missing) in rw e c
    | inr (r, here) ↦
        let e : (LocalCpu.contains dec cfg p a k pin s).1
            ≡ (if pin then pin_in_request dec cfg p a k r s else s) =
          ground (arith, here) in
        rw e (found-Counts h k pin r s c here)
  ]

  pub count_prefix-Counts :
      (h : ℕ → ℕ) (pin : Bool) (ks : List K) (n : ℕ) (s : Backend dec cfg p a)
      → Counts dec h s
      → Counts dec h (count_prefix dec cfg p a pin ks n s).1
  unfolding count_prefix
  count_prefix-Counts h pin [] n s c = c
  count_prefix-Counts h pin (k ∷ ks) n s c = elim (Option-cases (get dec k s.hot_cache)) [
    | inl missing ↦
        let e : (count_prefix dec cfg p a pin (k ∷ ks) n s).1 ≡ s = ground (arith, missing) in
        rw e c
    | inr (r, here) ↦
        let e : (count_prefix dec cfg p a pin (k ∷ ks) n s).1
            ≡ (count_prefix dec cfg p a pin ks (n + 1)
                (if pin then pin_in_request dec cfg p a k r s else s)).1 =
          ground (arith, here) in
        rw e (count_prefix-Counts h pin ks (n + 1) _ (found-Counts h k pin r s c here))
  ]

  pub pin-Counts :
      (h : ℕ → ℕ) (k : K) (s : Backend dec cfg p a)
      → Counts dec h s
      → Counts dec h (LocalCpu.pin dec cfg p a k s).1
  unfolding LocalCpu.pin
  pin-Counts h k s c = elim (Option-cases (get dec k s.hot_cache)) [
    | inl missing ↦ let e : (LocalCpu.pin dec cfg p a k s).1 ≡ s = ground (arith, missing) in rw e c
    | inr (r, here) ↦
        let e : (LocalCpu.pin dec cfg p a k s).1 ≡ object_pin r s = ground (arith, here) in
        rw e (object_pin-Counts dec h r s c (cached_held dec h k s c here))
  ]

  pub get_blocking-Counts :
      (h : ℕ → ℕ) (k : K) (s : Backend dec cfg p a)
      → Counts dec h s
      → Counts dec (gained (get_blocking dec cfg p a k s).0 h) (get_blocking dec cfg p a k s).1
  unfolding get_blocking
  get_blocking-Counts h k s c = elim (Option-cases (get dec k s.hot_cache)) [
    | inl missing ↦
        let e : get_blocking dec cfg p a k s ≡ (none, s) = ground (arith, missing) in rw e c
    | inr (r, here) ↦
        let e : get_blocking dec cfg p a k s ≡ (some r, object_up r s) = ground (arith, here) in
        rw e (object_up-Counts dec h r s c (cached_held dec h k s c here))
  ]

  pub touch_key-Counts :
      (pl : PolicyLaws dec p) (h : ℕ → ℕ) (now : ℕ) (k : K) (s s' : Backend dec cfg p a)
      → Counts dec h s
      → touch_key dec cfg p a now k (some s) ≡ some s'
      → Counts dec h s'
  unfolding touch_key
  touch_key-Counts pl h now k s s' c e =
      elim (Option-cases (p.update_on_hit now k s.cache_policy s.hot_cache)) [
        | inl missing ↦ absurd (ground (arith, missing, e))
        | inr ((q, d), here) ↦
            let after : record s { cache_policy = q; hot_cache = d } ≡ s' =
              ground (arith, here, e) in
            subst (Counts dec h) after (elim (pl.hit now k s.cache_policy s.hot_cache here) [
              | inl same ↦ rw same c
              | inr moved ↦
                  let (u, count) = move_to_end-cached dec k s.hot_cache c.0 moved in
                  (u, λ r. rw (count r) (c.1 r))
            ])
      ]

  nothing_touched :
      (now : ℕ) (k : K) (t : Backend dec cfg p a) → touch_key dec cfg p a now k none ≡ some t → ⊥
  unfolding touch_key
  nothing_touched now k t e = ground (arith, e)

  touch_keys-Counts :
      (pl : PolicyLaws dec p) (h : ℕ → ℕ) (now : ℕ) (ks : List K) (s : Option (Backend dec cfg p a))
      {s' : Backend dec cfg p a}
      → ((t : Backend dec cfg p a) → s ≡ some t → Counts dec h t)
      → for_each (touch_key dec cfg p a now) ks s ≡ some s'
      → Counts dec h s'
  touch_keys-Counts pl h now [] s c e = c _ e
  touch_keys-Counts pl h now (k ∷ ks) s c e =
      touch_keys-Counts pl h now ks (touch_key dec cfg p a now k s) (step s c) e
    where
      step :
          (s : Option (Backend dec cfg p a))
          → ((t : Backend dec cfg p a) → s ≡ some t → Counts dec h t)
          → (t : Backend dec cfg p a) → touch_key dec cfg p a now k s ≡ some t
          → Counts dec h t
      step none c t e = absurd (nothing_touched now k t e)
      step (some s) c t e = touch_key-Counts pl h now k s t (c s refl) e

  pub touch_cache-Counts :
      (pl : PolicyLaws dec p) (h : ℕ → ℕ) (now : ℕ) (s : Backend dec cfg p a)
      {s' : Backend dec cfg p a}
      → Counts dec h s
      → touch_cache dec cfg p a now s ≡ some s'
      → Counts dec h s'
  unfolding touch_cache
  touch_cache-Counts pl h now s {s'} c e =
      elim (Option-cases
        (for_each (touch_key dec cfg p a now) (reverse s.keys_in_request) (some s))) [
          | inl raised ↦ absurd (ground (arith, raised, e))
          | inr (t, ran) ↦
              let after : record t { keys_in_request = [] } ≡ s' = ground (arith, ran, e) in
              subst (Counts dec h) after (
                touch_keys-Counts pl h now (reverse s.keys_in_request) (some s)
                  (λ t same. ground (arith, same, c)) ran)
        ]

  -- The objects that the loop has taken are the caller's.
  pub get_from-Counts :
      (h : ℕ → ℕ) (ks : List K) (taken : List ℕ) (s : Backend dec cfg p a) (rs : List ℕ)
      (s' : Backend dec cfg p a)
      → Counts dec (all_more taken h) s
      → get_from dec cfg p a ks taken s ≡ (some rs, s')
      → Counts dec (all_more rs h) s'
  unfolding get_from
  get_from-Counts h [] taken s rs s' c e =
      let same : taken ≡ rs = ground (arith, e) in
      let after : s ≡ s' = ground (arith, e) in
      subst (λ rs. Counts dec (all_more rs h) s') same
        (subst (Counts dec (all_more taken h)) after c)
  get_from-Counts h (k ∷ ks) taken s rs s' c e = elim (Option-cases (get dec k s.hot_cache)) [
    | inl missing ↦ absurd (ground (arith, missing, e))
    | inr (r, here) ↦
        get_from-Counts h ks (taken ++ (r ∷ [])) (object_up r s) rs s'
          (subst (λ g. Counts dec g (object_up r s)) (sym (all_more-append taken h r))
            (object_up-Counts dec (all_more taken h) r s c
              (cached_held dec (all_more taken h) k s c here)))
          (ground (arith, here, e))
  ]
    where
      all_more-append :
          (rs : List ℕ) (h : ℕ → ℕ) (r : ℕ)
          → all_more (rs ++ (r ∷ [])) h ≡ one_more r (all_more rs h)
      all_more-append [] h r = refl
      all_more-append (q ∷ rs) h r = all_more-append rs (one_more q h) r
