-- ===== src/CachePolicy/Candidates.antt =====
-- Which keys the policies offer for eviction, and in which order.
use mathlib.Core.List.{reverse, reverse-append, append_assoc, append-nil}
use serverless_lmcache.Common.{
  ℕ, zero, suc, ◌+◌, ◌≤◌, ◌<◌, ◌≡◌, refl, sym, ap, ◌∙◌, ◌⊎◌, inl, inr, Bool-cases, Option-cases,
  Bool, true, false, some, List, [], ◌∷◌, ◌++◌, arith, length, length-append, take,
}
use serverless_lmcache.Common.Dict.{Dict, get, erase}
use serverless_lmcache.CachePolicy.{collect_evictable, move_to_end}
use serverless_lmcache.CachePolicy.Lru
use serverless_lmcache.CachePolicy.Fifo
use serverless_lmcache.CachePolicy.Mru

ℕ-cases : (k : ℕ) → (k ≡ 0) ⊎ ((j : ℕ) × (k ≡ suc j))
ℕ-cases zero = inl refl
ℕ-cases (suc j) = inr (j, refl)

module _ {K V : Type 0} (can_evict : V → Bool) where
  -- The keys whose objects can be evicted, in order.
  abbrev pub evictable : Dict K V → List K
  evictable [] = []
  evictable ((key, cache) ∷ d) = elim (can_evict cache) [
    | true ↦ key ∷ evictable d
    | false ↦ evictable d
  ]

  pub evictable-append : (d e : Dict K V) → evictable (d ++ e) ≡ evictable d ++ evictable e
  evictable-append [] e = refl
  evictable-append ((key, cache) ∷ d) e = ground (arith, evictable-append d e)

  collect_evictable-take :
      (n k : ℕ) (taken : List K) (d : Dict K V)
      → length taken + suc k ≡ n
      → collect_evictable can_evict n taken d ≡ taken ++ take (suc k) (evictable d)
  unfolding collect_evictable
  collect_evictable-take n k taken [] h = sym (append-nil taken)
  collect_evictable-take n k taken ((key, cache) ∷ d) h = elim (Bool-cases (can_evict cache)) [
    | inr f ↦ ground (arith, f, collect_evictable-take n k taken d h)
    | inl y ↦ elim (ℕ-cases k) [
      | inl e ↦ ground (arith, y, e)
      | inr (k', e) ↦
          let more =
            collect_evictable-take n k' (taken ++ (key ∷ [])) d
              (omega (arith, length-append taken (key ∷ []))) in
          let shift = append_assoc taken (key ∷ []) (take (suc k') (evictable d)) in
          ground (arith, y, e, more, shift)
    ]
  ]

  -- Where at least one key is asked for, FIFO and LRU offer the first evictable keys in the order
  -- of the dictionary, and MRU the last ones, the latest first; each offers as many as were asked
  -- for, or all if there are fewer.
  pub get_evict_candidates-take :
      (n : ℕ) (d : Dict K V)
      → 0 < n
      → (Lru.get_evict_candidates can_evict n d ≡ take n (evictable d))
        × (Fifo.get_evict_candidates can_evict n d ≡ take n (evictable d))
        × (Mru.get_evict_candidates can_evict n d ≡ take n (evictable (reverse d)))
  unfolding Lru.get_evict_candidates Fifo.get_evict_candidates Mru.get_evict_candidates
  get_evict_candidates-take zero d h = absurd (omega arith)
  get_evict_candidates-take (suc k) d h = (
    collect_evictable-take (suc k) k [] d (omega arith),
    collect_evictable-take (suc k) k [] d (omega arith),
    collect_evictable-take (suc k) k [] (reverse d) (omega arith),
  )

  -- Asked for no keys, each policy offers all that can be evicted.
  collect_evictable_zero :
      (taken : List K) (d : Dict K V) → collect_evictable can_evict 0 taken d ≡ taken ++ evictable d
  unfolding collect_evictable
  collect_evictable_zero taken [] = sym (append-nil taken)
  collect_evictable_zero taken ((key, cache) ∷ d) = ground (
    arith,
    collect_evictable_zero taken d,
    collect_evictable_zero (taken ++ (key ∷ [])) d,
    append_assoc taken (key ∷ []) (evictable d),
  )

  -- Asked for no key, LRU offers every key whose object can be evicted.
  pub get_evict_candidates_zero :
      (d : Dict K V) → Lru.get_evict_candidates can_evict 0 d ≡ evictable d
  unfolding Lru.get_evict_candidates
  get_evict_candidates_zero d = collect_evictable_zero [] d

take-append : {A : Type 0} (n : ℕ) (xs ys : List A) → n ≤ length xs → take n (xs ++ ys) ≡ take n xs
take-append zero xs ys h = refl
take-append (suc n) [] ys h = absurd (omega arith)
take-append (suc n) (x ∷ xs) ys h = ap (◌∷◌ x) (take-append n xs ys (omega arith))

module _ {K V : Type 0} (dec : Discrete K) (can_evict : V → Bool) where
  pub move_to_end-some :
      (key : K) (d : Dict K V) {d' : Dict K V}
      → move_to_end dec key d ≡ some d'
      → (v : V) × (get dec key d ≡ some v) × (erase dec key d ++ ((key, v) ∷ []) ≡ d')
  unfolding move_to_end
  move_to_end-some key d e = elim (Option-cases (get dec key d)) [
    | inl missing ↦ absurd (ground (arith, missing, e))
    | inr (v, here) ↦ (v, here, ground (arith, here, e))
  ]

  module _ {H : Type 0} (dec_h : Discrete H) (key_hash : K → H) where
    pub update_on_hit-some :
        (curr_time : ℕ) (key : K) (p : Lru.LruCachePolicy H) (d : Dict K V)
        {p' : Lru.LruCachePolicy H} {d' : Dict K V}
        → Lru.update_on_hit dec_h dec key_hash curr_time key p d ≡ some (p', d')
        → move_to_end dec key d ≡ some d'
    unfolding Lru.update_on_hit
    update_on_hit-some curr_time key p d e = elim (Option-cases (move_to_end dec key d)) [
      | inl missing ↦ absurd (ground (arith, missing, e))
      | inr (d'', here) ↦ ground (arith, here, e)
    ]

    -- After a hit on a cached key, LRU does not offer that key when at least one key is asked for
    -- and enough other objects can be evicted: it offers what it would offer if the key were not
    -- cached.
    pub get_evict_candidates-update_on_hit :
        (curr_time n : ℕ) (key : K) (p : Lru.LruCachePolicy H) (d : Dict K V)
        {p' : Lru.LruCachePolicy H} {d' : Dict K V}
        → Lru.update_on_hit dec_h dec key_hash curr_time key p d ≡ some (p', d')
        → 0 < n
        → n ≤ length (evictable can_evict (erase dec key d))
        → Lru.get_evict_candidates can_evict n d'
          ≡ Lru.get_evict_candidates can_evict n (erase dec key d)
    get_evict_candidates-update_on_hit curr_time n key p d {p'} {d'} e pos enough =
        let (v, here, moved) = move_to_end-some key d (update_on_hit-some curr_time key p d e) in
        let rest = erase dec key d in
        (get_evict_candidates-take can_evict n d' pos).0
        ∙ ap (λ d. take n (evictable can_evict d)) (sym moved)
        ∙ ap (take n) (evictable-append can_evict rest ((key, v) ∷ []))
        ∙ take-append n (evictable can_evict rest) _ enough
        ∙ sym (get_evict_candidates-take can_evict n rest pos).0

  -- After a hit on a cached key whose object can be evicted, MRU offers that key when it is asked
  -- for one.
  pub get_evict_candidates-update_on_hit_latest :
      (key : K) (d : Dict K V) {d' : Dict K V} {v : V}
      → Mru.update_on_hit dec key d ≡ some d'
      → get dec key d ≡ some v
      → can_evict v ≡ true
      → Mru.get_evict_candidates can_evict 1 d' ≡ key ∷ []
  unfolding Mru.update_on_hit
  get_evict_candidates-update_on_hit_latest key d {d'} {v} e cached free =
      let (v', here, moved) = move_to_end-some key d e in
      let rest = erase dec key d in
      let back : reverse (rest ++ ((key, v') ∷ [])) ≡ (key, v') ∷ reverse rest =
        reverse-append rest ((key, v') ∷ []) in
      (get_evict_candidates-take can_evict 1 d' (omega arith)).2
      ∙ ap (λ d. take 1 (evictable can_evict (reverse d))) (sym moved)
      ∙ ap (λ d. take 1 (evictable can_evict d)) back
      ∙ ground (arith, here, cached, free)
