-- ===== src/StorageBackend/Policy.antt =====
-- What a storage backend uses: `BaseCachePolicy` (lmcache/v1/storage_backend/cache_policy/base_policy.py),
-- with the laws of the policies that keep the backend's dictionary, and an allocator of memory objects.
pub mod Laws
use serverless_lmcache.Common.{
  ℕ, ◌<◌, ◌≡◌, ◌⊎◌, Bool, true, false, Option, none, some, List, [], contains,
}
use serverless_lmcache.Common.Dict.{Dict, get, IsUnique}
use serverless_lmcache.CachePolicy.{move_to_end}
use serverless_lmcache.Memory.Layout.{MemoryFormat}
use serverless_lmcache.Memory.MemoryObj.{TensorMemoryObj}

-- `V` is what a key stands for; a policy that reads the clock is given the time. `none` is a KeyError.
pub record BaseCachePolicy (K V : Type 0) : Type 1 where
  pub Policy : Type 0
  pub update_on_hit : ℕ → K → Policy → Dict K V → Option (Policy × Dict K V)
  pub update_on_put : ℕ → K → Policy → Policy
  pub update_on_force_evict : K → Policy → Policy
  pub get_evict_candidates : (V → Bool) → ℕ → Policy → Dict K V → List K

-- A hit that does not raise leaves the dictionary or moves the key to its end; where at least one key
-- is asked for, the candidates are cached and can be evicted, and there are none only where nothing can
-- be evicted.
pub record PolicyLaws {K V : Type 0} (dec : Discrete K) (p : BaseCachePolicy K V) : Type 0 where
  pub hit :
      (now : ℕ) (k : K) (q : p.Policy) (d : Dict K V) {q' : p.Policy} {d' : Dict K V}
      → p.update_on_hit now k q d ≡ some (q', d')
      → (d' ≡ d) ⊎ (move_to_end dec k d ≡ some d')
  pub candidates :
      (can_evict : V → Bool) (n : ℕ) (q : p.Policy) (d : Dict K V) (k : K)
      → IsUnique dec d
      → 0 < n
      → contains dec k (p.get_evict_candidates can_evict n q d) ≡ true
      → (v : V) × (get dec k d ≡ some v) × (can_evict v ≡ true)
  pub no_candidates :
      (can_evict : V → Bool) (n : ℕ) (q : p.Policy) (d : Dict K V) (k : K) {v : V}
      → 0 < n
      → p.get_evict_candidates can_evict n q d ≡ []
      → get dec k d ≡ some v
      → can_evict v ≡ false

-- The methods of `MemoryAllocatorInterface` that take and give back one object.
pub record ObjectAllocator : Type 1 where
  pub Heap : Type 0
  pub Layout : Type 0
  pub allocate : Layout → MemoryFormat → Heap → Option (TensorMemoryObj × Heap)
  pub free : TensorMemoryObj → Heap → TensorMemoryObj × Heap

-- A new object is valid and has one reference and no pin; a free leaves the counts of the object.
pub record ObjectAllocatorLaws (a : ObjectAllocator) : Type 0 where
  pub allocated :
      (l : a.Layout) (fmt : MemoryFormat) (h : a.Heap) {o : TensorMemoryObj} {h' : a.Heap}
      → a.allocate l fmt h ≡ some (o, h')
      → (o.ref_count ≡ 1) × (o.pin_count ≡ 0) × (o.valid ≡ true)
  pub freed :
      (o : TensorMemoryObj) (h : a.Heap)
      → ((a.free o h).0.ref_count ≡ o.ref_count) × ((a.free o h).0.pin_count ≡ o.pin_count)
