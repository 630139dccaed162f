-- ===== src/StorageBackend/LocalCpu/Counting.antt =====
-- The references to memory objects: those of the cache and those of other holders.
use serverless_lmcache.Common.{
  ℕ, suc, ◌+◌, ◌-◌, ◌≤◌, ◌<◌, ◌≡◌, ◌≢◌, refl, Bool, true, false, ite, Option, none, some, List, [],
  ◌∷◌, count_key, ℕ_discrete, arith, for_each,
}
use serverless_lmcache.Common.Dict.{Dict, get, insert, erase, IsUnique, erase_absent}
use serverless_lmcache.Memory.MemoryObj.{TensorMemoryObj}
use serverless_lmcache.Memory.MemoryObj
use serverless_lmcache.StorageBackend.Policy.{BaseCachePolicy, ObjectAllocator, ObjectAllocatorLaws}
use serverless_lmcache.StorageBackend.LocalCpu.{
  Config, LocalCpuBackend, Backend, set_object, freeing, object_up, object_pin,
}

module _ {K : Type 0} where
  -- How many keys are cached with a reference.
  abbrev pub cached : ℕ → Dict K ℕ → ℕ
  cached r d = count_key ℕ_discrete (λ e. e.1) r d

-- One more, and one less, reference of a holder.
abbrev pub one_more : ℕ → (ℕ → ℕ) → ℕ → ℕ
one_more r h j = ite (ℕ_discrete r j) (suc (h j)) (h j)

abbrev pub one_less : ℕ → (ℕ → ℕ) → ℕ → ℕ
one_less r h j = ite (ℕ_discrete r j) (h j - 1) (h j)

-- The references of holders after a call that may return an object, and after one that returns many.
abbrev pub gained : Option ℕ → (ℕ → ℕ) → ℕ → ℕ
gained none h = h
gained (some r) h = one_more r h

abbrev pub all_more : List ℕ → (ℕ → ℕ) → ℕ → ℕ
all_more rs h = for_each one_more rs h

-- The references of an object are those of holders and of the cache; a reference that was not given out
-- has no count; an object with a count is valid.
abbrev pub IsCounted : ℕ → ℕ → ℕ → TensorMemoryObj → Type 0
IsCounted refs next r o =
    (o.ref_count ≡ refs)
    × (next ≤ r → o.ref_count + o.pin_count ≡ 0)
    × (0 < o.ref_count + o.pin_count → o.valid ≡ true)

module _ {K : Type 0} (dec : Discrete K) where
  pub cached-erase :
      (k : K) (d : Dict K ℕ) (r j : ℕ)
      → IsUnique dec d
      → get dec k d ≡ some r
      → cached j d
        ≡ ite (ℕ_discrete r j) (suc (cached j (erase dec k d))) (cached j (erase dec k d))
  unfolding get erase
  cached-erase k [] r j u h = absurd (ground (arith, h))
  cached-erase k ((i, w) ∷ d) r j u h = elim (dec i k) [
    | yes same ↦ ground (arith, same, h, u.0, erase_absent dec k d)
    | no ne ↦ ground (arith, ne, h, cached-erase k d r j u.1)
  ]

  pub cached-insert :
      (k : K) (d : Dict K ℕ) (r j : ℕ)
      → get dec k d ≡ none
      → cached j (insert dec k r d) ≡ ite (ℕ_discrete r j) (suc (cached j d)) (cached j d)
  unfolding get insert
  cached-insert k [] r j h = refl
  cached-insert k ((i, w) ∷ d) r j h = elim (dec i k) [
    | yes same ↦ absurd (ground (arith, same, h))
    | no ne ↦ ground (arith, ne, h, cached-insert k d r j)
  ]

module _ {K P H : Type 0} (dec : Discrete K) where
  -- `h` are the references of holders other than the cache.
  abbrev pub Counts : (ℕ → ℕ) → LocalCpuBackend K P H → Type 0
  Counts h s =
      IsUnique dec s.hot_cache
      × ((r : ℕ) → IsCounted (h r + cached r s.hot_cache) s.next_ref r (s.objects r))

  -- One object, and the references to it, change.
  pub set_object-Counts :
      (h h' : ℕ → ℕ) (r : ℕ) (o : TensorMemoryObj) (d : Dict K ℕ) (s : LocalCpuBackend K P H)
      → Counts h s
      → IsUnique dec d
      → ((j : ℕ) → r ≢ j → h' j + cached j d ≡ h j + cached j s.hot_cache)
      → IsCounted (h' r + cached r d) s.next_ref r o
      → Counts h' (set_object r o (record s { hot_cache = d }))
  unfolding set_object
  set_object-Counts h h' r o d s c u others new = (
    u,
    λ j. elim (ℕ_discrete r j) [
      | yes same ↦ ground (arith, same, new)
      | no ne ↦ ground (arith, ne, c.1 j, others j ne)
    ],
  )

  pub object_up-Counts :
      (h : ℕ → ℕ) (r : ℕ) (s : LocalCpuBackend K P H)
      → Counts h s
      → 0 < (s.objects r).ref_count
      → Counts (one_more r h) (object_up r s)
  unfolding object_up MemoryObj.ref_count_up
  object_up-Counts h r s c held =
      set_object-Counts h (one_more r h) r (MemoryObj.ref_count_up (s.objects r)) s.hot_cache s c
        c.0 (λ j ne. ground (arith, ne)) (ground (arith, c.1 r))

  pub object_pin-Counts :
      (h : ℕ → ℕ) (r : ℕ) (s : LocalCpuBackend K P H)
      → Counts h s
      → 0 < (s.objects r).ref_count
      → Counts h (object_pin r s)
  unfolding object_pin MemoryObj.pin
  object_pin-Counts h r s c held =
      set_object-Counts h h r (MemoryObj.pin (s.objects r)) s.hot_cache s c c.0 (λ j ne. refl)
        (ground (arith, c.1 r))

module _ {K : Type 0} (dec : Discrete K) (cfg : Config) (p : BaseCachePolicy K ℕ)
    (a : ObjectAllocator) (al : ObjectAllocatorLaws a) where
  -- An object with lower counts, which is freed only if it has none.
  pub freeing-Counts :
      (h h' : ℕ → ℕ) (r : ℕ) (o : TensorMemoryObj) (b : Bool) (d : Dict K ℕ)
      (s : Backend dec cfg p a)
      → Counts dec h s
      → IsUnique dec d
      → ((j : ℕ) → r ≢ j → h' j + cached j d ≡ h j + cached j s.hot_cache)
      → IsCounted (h' r + cached r d) s.next_ref r o
      → (b ≡ true → o.ref_count + o.pin_count ≡ 0)
      → Counts dec h' (freeing dec cfg p a r (o, b) (record s { hot_cache = d }))
  unfolding freeing
  freeing-Counts h h' r o false d s c u others new freed =
      set_object-Counts dec h h' r o d s c u others new
  freeing-Counts h h' r o true d s c u others new freed =
      let o' = (a.free o s.memory).0 in
      let none_left = freed refl in
      set_object-Counts dec h h' r o' d s c u others
        (ground (arith, al.freed o s.memory, new, none_left))
