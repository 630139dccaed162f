-- ===== src/Distributed/LruPolicy/Recency.antt =====
-- The order of the policy against the history of uses: what it evicts was used longest ago.
use mathlib.Core.List.{append-nil, append_assoc}
use serverless_lmcache.Common.{
  ℕ, zero, suc, ◌+◌, ◌<◌, ◌≡◌, ◌≢◌, sym, ◌∙◌, true, false, ite, if_pos, if_neg, List, [], ◌∷◌, ◌++◌,
  arith, length, length-append, take, contains, remove, All, All-append, All-remove,
}
use serverless_lmcache.Distributed.LruPolicy.{collect, create_key, touch_key, remove_key}

-- What happened to a key; a history has the newest event first.
pub data Use (K : Type 0) : Type 0 where
  created touched removed : K → Use K

module _ {K : Type 0} where
  -- The code takes a key before it compares, so it takes one even where none is asked for.
  pub collect-take :
      (d target : ℕ) (taken order : List K)
      → target ≡ length taken + suc d
      → collect target taken order ≡ taken ++ take (suc d) order
  unfolding collect
  collect-take d target taken [] h = rw (append-nil taken)
  collect-take zero target taken (k ∷ order) h = ground arith
  collect-take (suc d) target taken (k ∷ order) h = ground (
    arith,
    length-append taken (k ∷ []),
    collect-take d target (taken ++ (k ∷ [])) order,
    append_assoc taken (k ∷ []) (take (suc d) order),
  )

module _ {K : Type 0} (dec : Discrete K) where
  unfoldable pub replay : List (Use K) → List K
  replay [] = []
  replay (created k ∷ h) = create_key dec k (replay h)
  replay (touched k ∷ h) = touch_key dec k (replay h)
  replay (removed k ∷ h) = remove_key dec k (replay h)

  -- How many events ago the key was last created or touched.
  abbrev pub age : K → List (Use K) → ℕ
  age k [] = 0
  age k (created j ∷ h) = ite (dec j k) 0 (suc (age k h))
  age k (touched j ∷ h) = ite (dec j k) 0 (suc (age k h))
  age k (removed j ∷ h) = suc (age k h)

  -- Each key was used before all those behind it.
  abbrev pub OldestFirst : List (Use K) → List K → Type 0
  OldestFirst h [] = Unit
  OldestFirst h (k ∷ ks) = All (λ j. age j h < age k h) ks × OldestFirst h ks

  pub All-ne-remove : (k : K) (xs : List K) → All (λ j. k ≢ j) (remove dec k xs)
  unfolding remove
  All-ne-remove k [] = tt
  All-ne-remove k (x ∷ xs) = elim (dec x k) [
    | yes e ↦ rw (if_pos (dec x k) e) (All-ne-remove k xs)
    | no ne ↦ rw (if_neg (dec x k) ne) ((λ e. ne (sym e)), All-ne-remove k xs)
  ]

  pub All-ne_of_untracked : (k : K) (xs : List K) → contains dec k xs ≡ false → All (λ j. k ≢ j) xs
  All-ne_of_untracked k [] h = tt
  All-ne_of_untracked k (x ∷ xs) h = elim (dec x k) [
    | yes e ↦ cc (if_pos (dec x k) e true (contains dec k xs))
    | no ne ↦ (
      (λ e. ne (sym e)),
      All-ne_of_untracked k xs (sym (if_neg (dec x k) ne true (contains dec k xs)) ∙ h),
    )
  ]

  -- An event that makes each of the keys one older keeps their order.
  pub OldestFirst-older :
      (h h' : List (Use K)) (ks : List K)
      → All (λ j. age j h' ≡ suc (age j h)) ks
      → OldestFirst h ks
      → OldestFirst h' ks
  OldestFirst-older h h' [] older o = tt
  OldestFirst-older h h' (k ∷ ks) older o =
      (both ks older.1 o.0, OldestFirst-older h h' ks older.1 o.1)
    where
      both :
          (xs : List K)
          → All (λ j. age j h' ≡ suc (age j h)) xs
          → All (λ j. age j h < age k h) xs
          → All (λ j. age j h' < age k h') xs
      both [] a b = tt
      both (x ∷ xs) a b = (omega (arith, a.0, b.0, older.0), both xs a.1 b.1)

  pub OldestFirst-remove :
      (h : List (Use K)) (k : K) (ks : List K) → OldestFirst h ks → OldestFirst h (remove dec k ks)
  unfolding remove
  OldestFirst-remove h k [] o = tt
  OldestFirst-remove h k (x ∷ xs) o = elim (dec x k) [
    | yes e ↦ rw (if_pos (dec x k) e) (OldestFirst-remove h k xs o.1)
    | no ne ↦
        rw (if_neg (dec x k) ne)
          (All-remove dec (λ j. age j h < age x h) k xs o.0, OldestFirst-remove h k xs o.1)
  ]

  pub OldestFirst-snoc :
      (h : List (Use K)) (k : K) (ks : List K)
      → All (λ j. age k h < age j h) ks
      → OldestFirst h ks
      → OldestFirst h (ks ++ (k ∷ []))
  OldestFirst-snoc h k [] newer o = (tt, tt)
  OldestFirst-snoc h k (x ∷ xs) newer o =
      (All-append _ xs (k ∷ []) o.0 (newer.0, tt), OldestFirst-snoc h k xs newer.1 o.1)
