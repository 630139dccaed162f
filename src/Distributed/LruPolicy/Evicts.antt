-- ===== src/Distributed/LruPolicy/Evicts.antt =====
-- What the policy names for eviction, after any history of uses.

use serverless_lmcache.Common.{
  ℕ, zero, suc, ◌≤◌, ◌<◌, ◌≡◌, ◌≢◌, refl, sym, ◌∙◌, Bool-cases, ◌==◌, inl, inr, if_pos, if_neg,
  List, [], ◌∷◌, ◌++◌, arith, length, length-take, take, drop, take-append-drop, contains, remove,
  All, All-mono,
}
use serverless_lmcache.Distributed.LruPolicy.{
  LruEvictionPolicy, EvictionAction, Floats, target_count, get_eviction_actions, collect,
  create_key, touch_key, remove_key,
}
use serverless_lmcache.Distributed.LruPolicy.Recency.{
  Use, created, touched, removed, replay, age, OldestFirst, collect-take, All-ne-remove,
  All-ne_of_untracked, OldestFirst-older, OldestFirst-remove, OldestFirst-snoc,
}

module _ {K : Type 0} (dec : Discrete K) where
  -- An event that uses `k` now.
  IsUse : K → List (Use K) → List (Use K) → Type 0
  IsUse k h h' = (age dec k h' ≡ 0) × ((j : K) → k ≢ j → age dec j h' ≡ suc (age dec j h))

  created-IsUse : (k : K) (h : List (Use K)) → IsUse k h (created k ∷ h)
  unfolding IsUse
  created-IsUse k h = (if_pos (dec k k) refl _ _, λ j ne. if_neg (dec k j) ne _ _)

  touched-IsUse : (k : K) (h : List (Use K)) → IsUse k h (touched k ∷ h)
  unfolding IsUse
  touched-IsUse k h = (if_pos (dec k k) refl _ _, λ j ne. if_neg (dec k j) ne _ _)

  use-OldestFirst :
      (k : K) (h h' : List (Use K)) (ks : List K)
      → IsUse k h h'
      → All (λ j. k ≢ j) ks
      → OldestFirst dec h ks
      → OldestFirst dec h' (ks ++ (k ∷ []))
  unfolding IsUse
  use-OldestFirst k h h' ks (now, others) ne o =
      OldestFirst-snoc dec h' k ks
        (All-mono _ (λ j. age dec k h' < age dec j h')
          (λ j (n : k ≢ j). let e = others j n in omega arith) ks ne)
        (OldestFirst-older dec h h' ks (All-mono _ _ (λ j n. others j n) ks ne) o)

  -- An event that uses no tracked key only makes them older.
  pass-OldestFirst :
      (k : K) (h h' : List (Use K)) (ks : List K)
      → IsUse k h h'
      → All (λ j. k ≢ j) ks
      → OldestFirst dec h ks
      → OldestFirst dec h' ks
  unfolding IsUse
  pass-OldestFirst k h h' ks (now, others) ne o =
      OldestFirst-older dec h h' ks (All-mono _ _ (λ j n. others j n) ks ne) o

  All-older :
      (k : K) (h : List (Use K)) (ks : List K)
      → All (λ j. age dec j (removed k ∷ h) ≡ suc (age dec j h)) ks
  All-older k h [] = tt
  All-older k h (x ∷ xs) = (refl, All-older k h xs)

  -- After any history of creations, touches and removals of keys, the tracked keys stand in the
  -- order of their last use, the longest unused first.
  pub replay-OldestFirst : (h : List (Use K)) → OldestFirst dec h (replay dec h)
  unfolding replay create_key touch_key remove_key
  replay-OldestFirst [] = tt
  replay-OldestFirst (created k ∷ h) = elim (Bool-cases (contains dec k (replay dec h))) [
    | inl old ↦ rw old (
        use-OldestFirst k h _ (remove dec k (replay dec h)) (created-IsUse k h)
          (All-ne-remove dec k (replay dec h))
          (OldestFirst-remove dec h k (replay dec h) (replay-OldestFirst h)))
    | inr fresh ↦ rw fresh (
        use-OldestFirst k h _ (replay dec h) (created-IsUse k h)
          (All-ne_of_untracked dec k (replay dec h) fresh) (replay-OldestFirst h))
  ]
  replay-OldestFirst (touched k ∷ h) = elim (Bool-cases (contains dec k (replay dec h))) [
    | inl old ↦ rw old (
        use-OldestFirst k h _ (remove dec k (replay dec h)) (touched-IsUse k h)
          (All-ne-remove dec k (replay dec h))
          (OldestFirst-remove dec h k (replay dec h) (replay-OldestFirst h)))
    | inr fresh ↦ rw fresh (
        pass-OldestFirst k h _ (replay dec h) (touched-IsUse k h)
          (All-ne_of_untracked dec k (replay dec h) fresh) (replay-OldestFirst h))
  ]
  replay-OldestFirst (removed k ∷ h) = elim (Bool-cases (contains dec k (replay dec h))) [
    | inl old ↦ rw old (
        OldestFirst-older dec h (removed k ∷ h) _ (All-older k h _)
          (OldestFirst-remove dec h k (replay dec h) (replay-OldestFirst h)))
    | inr fresh ↦
        rw fresh
          (OldestFirst-older dec h (removed k ∷ h) _ (All-older k h _) (replay-OldestFirst h))
  ]

  OldestFirst-append :
      (h : List (Use K)) (xs ys : List K)
      → OldestFirst dec h (xs ++ ys)
      → All (λ k. All (λ j. age dec j h < age dec k h) ys) xs
  OldestFirst-append h [] ys o = tt
  OldestFirst-append h (x ∷ xs) ys o = (behind xs o.0, OldestFirst-append h xs ys o.1)
    where
      behind :
          (zs : List K)
          → All (λ j. age dec j h < age dec x h) (zs ++ ys)
          → All (λ j. age dec j h < age dec x h) ys
      behind [] a = a
      behind (z ∷ zs) a = behind zs a.1

  -- An action names as many keys as the ratio asks for, all tracked, and each of them was last
  -- used before every tracked key that it spares.
  pub Evicts : List (Use K) → LruEvictionPolicy K → ℕ → EvictionAction K → Type 0
  Evicts h p target action =
      (kept : List K) × (p.order ≡ action.keys ++ kept)
      × (length action.keys ≡ target)
      × All (λ k. All (λ j. age dec j h < age dec k h) kept) action.keys

  taken-Evicts :
      (h : List (Use K)) (p : LruEvictionPolicy K) (target : ℕ) (action : EvictionAction K)
      → p.order ≡ replay dec h
      → 0 < target
      → target ≤ length p.order
      → action.keys ≡ collect target [] p.order
      → Evicts h p target action
  unfolding Evicts
  taken-Evicts h p zero action e pos le keys = elim pos [ ]
  taken-Evicts h p (suc d) action e pos le keys =
      let is_take : action.keys ≡ take (suc d) p.order =
        keys ∙ collect-take d (suc d) [] p.order (omega arith) in
      (
        drop (suc d) p.order,
        rw is_take (sym (take-append-drop (suc d) p.order)),
        rw is_take (omega (arith, length-take (suc d) p.order)),
        rw is_take (
            OldestFirst-append h (take (suc d) p.order) (drop (suc d) p.order)
              (rw (take-append-drop (suc d) p.order, e) (replay-OldestFirst h))),
      )

  target_count-le :
      (fl : Floats) (ratio : fl.Float) (n : ℕ)
      → fl.scale n (fl.clamp ratio) ≤ n
      → target_count fl n ratio ≤ n
  unfolding target_count
  target_count-le fl ratio n h = ground arith

  -- When the policy's order comes from any history of creations, touches and removals of keys, and
  -- the scaled ratio is not above the number of keys, each action that it proposes names as many
  -- keys as the ratio asks for, all tracked, and each of them was last used before every tracked
  -- key that it spares.
  pub get_eviction_actions-Evicts :
      (fl : Floats) (ratio : fl.Float) (p : LruEvictionPolicy K) (h : List (Use K))
      → p.order ≡ replay dec h
      → fl.scale (length p.order) (fl.clamp ratio) ≤ length p.order
      → All (Evicts h p (target_count fl (length p.order) ratio)) (get_eviction_actions fl ratio p)
  unfolding get_eviction_actions
  get_eviction_actions-Evicts fl ratio p h e le = elim (Bool-cases (length p.order == 0)) [
    | inl none_tracked ↦ rw none_tracked tt
    | inr tracked ↦ elim (Bool-cases (target_count fl (length p.order) ratio == 0)) [
      | inl zero_target ↦ rw (tracked, zero_target) tt
      | inr some_target ↦
          rw (tracked, some_target)
            (
              taken-Evicts h p (target_count fl (length p.order) ratio) _ e (ground arith)
                  (target_count-le fl ratio (length p.order) le) refl,
              tt,
            )
    ]
  ]
