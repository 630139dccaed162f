-- ===== src/StorageBackend/Policy/Laws.antt =====
-- LRU, FIFO and MRU as the policy of a backend.
use mathlib.Core.List.{reverse, reverse-cons}
use serverless_lmcache.Common.{
  ℕ, zero, suc, ◌<◌, ◌≡◌, refl, sym, ap, ◌∙◌, inl, inr, Bool-cases, Bool, true, false, ◌||◌, none,
  some, List, [], ◌∷◌, ◌++◌, take, contains, arith,
}
use serverless_lmcache.Common.Dict.{Dict, get, IsUnique}
use serverless_lmcache.CachePolicy.{move_to_end}
use serverless_lmcache.CachePolicy.Lru
use serverless_lmcache.CachePolicy.Fifo
use serverless_lmcache.CachePolicy.Mru
use serverless_lmcache.CachePolicy.Candidates.{
  evictable, evictable-append, get_evict_candidates-take, update_on_hit-some,
}
use serverless_lmcache.StorageBackend.Policy.{BaseCachePolicy, PolicyLaws}

module _ {K V : Type 0} (dec : Discrete K) where
  abbrev pub fifo : BaseCachePolicy K V
  fifo = record {
    Policy = Unit;
    update_on_hit = λ now k q d. some (q, Fifo.update_on_hit k d);
    update_on_put = λ now k q. q;
    update_on_force_evict = λ k q. q;
    get_evict_candidates = λ can_evict n q d. Fifo.get_evict_candidates can_evict n d;
  }

  abbrev pub mru : BaseCachePolicy K V
  mru = record {
    Policy = Unit;
    update_on_hit =
        λ now k q d. elim (Mru.update_on_hit dec k d) [ none ↦ none | some d' ↦ some (q, d') ];
    update_on_put = λ now k q. q;
    update_on_force_evict = λ k q. q;
    get_evict_candidates = λ can_evict n q d. Mru.get_evict_candidates can_evict n d;
  }

module _ {K V H : Type 0} (dec_h : Discrete H) (dec : Discrete K) (key_hash : K → H) where
  abbrev pub lru : BaseCachePolicy K V
  lru = record {
    Policy = Lru.LruCachePolicy H;
    update_on_hit = Lru.update_on_hit dec_h dec key_hash;
    update_on_put = Lru.update_on_put dec_h dec key_hash;
    update_on_force_evict = λ k q. q;
    get_evict_candidates = λ can_evict n q d. Lru.get_evict_candidates can_evict n d;
  }

module _ {K V : Type 0} (dec : Discrete K) (can_evict : V → Bool) where
  contains-append :
      (k : K) (xs ys : List K)
      → contains dec k (xs ++ ys) ≡ (contains dec k xs || contains dec k ys)
  contains-append k [] ys = refl
  contains-append k (x ∷ xs) ys = ground (arith, contains-append k xs ys)

  contains-take :
      (k : K) (n : ℕ) (xs : List K) → contains dec k (take n xs) ≡ true → contains dec k xs ≡ true
  contains-take k zero xs h = absurd (ground (arith, h))
  contains-take k (suc n) [] h = h
  contains-take k (suc n) (x ∷ xs) h = ground (arith, contains-take k n xs, h)

  evictable-cached :
      (k : K) (d : Dict K V)
      → IsUnique dec d
      → contains dec k (evictable can_evict d) ≡ true
      → (v : V) × (get dec k d ≡ some v) × (can_evict v ≡ true)
  unfolding get
  evictable-cached k [] u h = absurd (ground (arith, h))
  evictable-cached k ((j, w) ∷ d) u h = elim (dec j k) [
    | yes same ↦ elim (Bool-cases (can_evict w)) [
      | inl y ↦ (w, ground arith, y)
      | inr n ↦
          let (v, there, free) = evictable-cached k d u.1 (ground (arith, n, h)) in
          absurd (ground (arith, u.0, there, same))
    ]
    | no ne ↦
        let (v, there, free) = evictable-cached k d u.1 (ground (arith, ne, h)) in
        (v, ground (arith, ne, there), free)
  ]

  cached-evictable :
      (k : K) (d : Dict K V) {v : V}
      → get dec k d ≡ some v
      → can_evict v ≡ true
      → contains dec k (evictable can_evict d) ≡ true
  unfolding get
  cached-evictable k [] h free = absurd (ground (arith, h))
  cached-evictable k ((j, w) ∷ d) h free = elim (dec j k) [
    | yes same ↦ ground (arith, same, h, free)
    | no ne ↦ ground (arith, ne, cached-evictable k d (ground (arith, ne, h)) free)
  ]

  take_nil : {A : Type 0} (n : ℕ) (xs : List A) → 0 < n → take n xs ≡ [] → xs ≡ []
  take_nil zero xs pos e = absurd (omega arith)
  take_nil (suc n) [] pos e = refl
  take_nil (suc n) (x ∷ xs) pos e = absurd (ground (arith, e))

  contains-evictable-reverse :
      (k : K) (d : Dict K V)
      → contains dec k (evictable can_evict (reverse d)) ≡ contains dec k (evictable can_evict d)
  contains-evictable-reverse k [] = refl
  contains-evictable-reverse k ((j, w) ∷ d) =
      let back : reverse ((j, w) ∷ d) ≡ reverse d ++ ((j, w) ∷ []) = reverse-cons (j, w) d in
      ap (λ d. contains dec k (evictable can_evict d)) back
      ∙ ap (contains dec k) (evictable-append can_evict (reverse d) ((j, w) ∷ []))
      ∙ contains-append k (evictable can_evict (reverse d)) (evictable can_evict ((j, w) ∷ []))
      ∙ ground (arith, contains-evictable-reverse k d)

  -- What LRU and FIFO offer, and what MRU offers.
  Offers : (ℕ → Dict K V → List K) → Type 0
  Offers f =
      (n : ℕ) (d : Dict K V)
      → 0 < n
      → (xs : List K) × (f n d ≡ take n xs)
        × ((k : K) → contains dec k xs ≡ contains dec k (evictable can_evict d))

  offered :
      (f : ℕ → Dict K V → List K)
      → Offers f
      → (n : ℕ) (d : Dict K V) (k : K) → IsUnique dec d
      → 0 < n
      → contains dec k (f n d) ≡ true
      → (v : V) × (get dec k d ≡ some v) × (can_evict v ≡ true)
  unfolding Offers
  offered f h n d k u pos inside =
      let (xs, same, members) = h n d pos in
      evictable-cached k d u
        (sym (members k) ∙ contains-take k n xs (ap (contains dec k) (sym same) ∙ inside))

  nothing_offered :
      (f : ℕ → Dict K V → List K)
      → Offers f
      → (n : ℕ) (d : Dict K V) (k : K) {v : V} → 0 < n
      → f n d ≡ []
      → get dec k d ≡ some v
      → can_evict v ≡ false
  unfolding Offers
  nothing_offered f h n d k {v} pos nothing cached =
      let (xs, same, members) = h n d pos in
      let empty : xs ≡ [] = take_nil n xs pos (sym same ∙ nothing) in
      elim (Bool-cases (can_evict v)) [
        | inl free ↦
            absurd (
              ground
                (arith, ap (contains dec k) empty, members k, cached-evictable k d cached free))
        | inr held ↦ held
      ]

  lru-Offers : Offers (Lru.get_evict_candidates can_evict)
  unfolding Offers
  lru-Offers n d pos =
      (evictable can_evict d, (get_evict_candidates-take can_evict n d pos).0, λ k. refl)

  fifo-Offers : Offers (Fifo.get_evict_candidates can_evict)
  unfolding Offers
  fifo-Offers n d pos =
      (evictable can_evict d, (get_evict_candidates-take can_evict n d pos).1, λ k. refl)

  mru-Offers : Offers (Mru.get_evict_candidates can_evict)
  unfolding Offers
  mru-Offers n d pos = (
    evictable can_evict (reverse d),
    (get_evict_candidates-take can_evict n d pos).2,
    λ k. contains-evictable-reverse k d,
  )

module _ {K V : Type 0} (dec : Discrete K) where
  pub fifo_laws : PolicyLaws dec (fifo {K = K} {V = V} dec)
  unfolding Fifo.update_on_hit
  fifo_laws = record {
    hit = λ now k q d e. inl (ground (arith, e));
    candidates = λ can_evict n q d k u pos inside.
        offered dec can_evict _ (fifo-Offers dec can_evict) n d k u pos inside;
    no_candidates = λ can_evict n q d k pos nothing cached.
        nothing_offered dec can_evict _ (fifo-Offers dec can_evict) n d k pos nothing cached;
  }

  mru-hit :
      (now : ℕ) (k : K) (q : Unit) (d : Dict K V) {q' : Unit} {d' : Dict K V}
      → (mru dec).update_on_hit now k q d ≡ some (q', d')
      → move_to_end dec k d ≡ some d'
  unfolding Mru.update_on_hit
  mru-hit now k q d e = ground (arith, e)

  pub mru_laws : PolicyLaws dec (mru {K = K} {V = V} dec)
  mru_laws = record {
    hit = λ now k q d e. inr (mru-hit now k q d e);
    candidates = λ can_evict n q d k u pos inside.
        offered dec can_evict _ (mru-Offers dec can_evict) n d k u pos inside;
    no_candidates = λ can_evict n q d k pos nothing cached.
        nothing_offered dec can_evict _ (mru-Offers dec can_evict) n d k pos nothing cached;
  }

module _ {K V H : Type 0} (dec_h : Discrete H) (dec : Discrete K) (key_hash : K → H) where
  pub lru_laws : PolicyLaws dec (lru {K = K} {V = V} dec_h dec key_hash)
  lru_laws = record {
    hit = λ now k q d e. inr (update_on_hit-some dec (λ v. true) dec_h key_hash now k q d e);
    candidates = λ can_evict n q d k u pos inside.
        offered dec can_evict _ (lru-Offers dec can_evict) n d k u pos inside;
    no_candidates = λ can_evict n q d k pos nothing cached.
        nothing_offered dec can_evict _ (lru-Offers dec can_evict) n d k pos nothing cached;
  }
