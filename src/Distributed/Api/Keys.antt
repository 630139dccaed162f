-- ===== src/Distributed/Api/Keys.antt =====
-- That the keys of different workers differ, and what a lookup for all workers asks for.
use Prim.Native.Nat.{max, digits, bit_or, bit_or-bitwise}
use native.Mathlib.Nat.{two-pow-succ, mul-add}
use serverless_lmcache.Common.{
  range_from, ℕ, zero, suc, ◌+◌, ◌*◌, ◌/◌, ◌^◌, ◌≤◌, ◌<◌, ◌≡◌, refl, ap, ◌∙◌, none, some, List, [],
  ◌∷◌, ◌++◌, arith, map,
}
use serverless_lmcache.Distributed.Api.{
  ObjectKey, IpcCacheEngineKey, compute_kv_rank, storage_key, storage_keys, workers,
  ipc_keys_to_object_keys,
}

double : (k a : ℕ) → a * 2 ^ suc k ≡ a * 2 ^ k + a * 2 ^ k
double k a = ap (λ p. a * p) (two-pow-succ k) ∙ mul-add a (2 ^ k) (2 ^ k)

-- A number with `k` zeros at its end, or with a number below them, is their sum.
digits_or : (n k a b c : ℕ) → c ≡ a * 2 ^ k → c ≤ n → b < 2 ^ k → digits (λ b. b) max n c b ≡ c + b
digits_or zero k a b zero e h l = omega arith
digits_or zero k a b (suc c) e h l = absurd (omega arith)
digits_or (suc n) k a b zero e h l = omega arith
digits_or (suc n) zero a b (suc c) e h l =
    let rest =
      digits_or n 0 (suc c / 2) (b / 2) (suc c / 2) (omega arith) (omega arith) (omega arith) in
    omega arith
digits_or (suc n) (suc k) a b (suc c) e h l =
    let d = double k a in
    let t = double k 1 in
    let rest = digits_or n k a (b / 2) (suc c / 2) (omega arith) (omega arith) (omega arith) in
    omega arith

or_at : (k a b : ℕ) → b < 2 ^ k → bit_or (a * 2 ^ k) b ≡ a * 2 ^ k + b
or_at k a b h =
    bit_or-bitwise (a * 2 ^ k) b ∙ digits_or (a * 2 ^ k) k a b (a * 2 ^ k) refl (omega arith) h

-- For ranks that fit a byte, the packed number has each of them at its own byte.
compute_kv_rank-eq :
    (w g x r : ℕ)
    → g < 256
    → x < 256
    → r < 256
    → compute_kv_rank w g x r ≡ w * 16777216 + g * 65536 + x * 256 + r
unfolding compute_kv_rank
compute_kv_rank-eq w g x r hg hx hr =
    let one = or_at 24 w (g * 2 ^ 16) (omega arith) in
    let eq : w * 2 ^ 24 + g * 2 ^ 16 ≡ (w * 256 + g) * 2 ^ 16 = omega arith in
    let two =
      ap (λ a. bit_or a (x * 2 ^ 8)) (one ∙ eq)
      ∙ or_at 16 (w * 256 + g) (x * 2 ^ 8) (omega arith) in
    let eq' : (w * 256 + g) * 2 ^ 16 + x * 2 ^ 8 ≡ ((w * 256 + g) * 256 + x) * 2 ^ 8 =
      omega arith in
    let three =
      ap (λ a. bit_or a r) (two ∙ eq') ∙ or_at 8 ((w * 256 + g) * 256 + x) r (omega arith) in
    omega (arith, three)

-- Where the global rank, the local world size and the local rank of two workers fit a byte, the
-- workers have the same key rank only if they agree in the world size and in all three.
pub compute_kv_rank-injective :
    (w g x r w' g' x' r' : ℕ)
    → (g < 256) × (x < 256) × (r < 256)
    → (g' < 256) × (x' < 256) × (r' < 256)
    → compute_kv_rank w g x r ≡ compute_kv_rank w' g' x' r'
    → (w ≡ w') × (g ≡ g') × (x ≡ x') × (r ≡ r')
compute_kv_rank-injective w g x r w' g' x' r' (a, b, c) (a', b', c') e =
    let here = compute_kv_rank-eq w g x r a b c in
    let there = compute_kv_rank-eq w' g' x' r' a' b' c' in
    (omega arith, omega arith, omega arith, omega arith)

module _ {B N : Type 0} where
  -- The keys of the single workers, in order.
  abbrev pub for_workers : IpcCacheEngineKey B N → List ℕ → List (IpcCacheEngineKey B N)
  for_workers k = map (λ w. record k { worker_id = some w })

  for_workers_lem :
      (k : IpcCacheEngineKey B N) (h : B) (ws : List ℕ) (l : List (IpcCacheEngineKey B N))
      (rest : List (ObjectKey B N))
      → k.chunk_hash ≡ some h
      → ipc_keys_to_object_keys l ≡ some rest
      → ipc_keys_to_object_keys (for_workers k ws ++ l) ≡ some (storage_keys k h ws ++ rest)
  unfolding ipc_keys_to_object_keys storage_keys storage_key workers
  for_workers_lem k h [] l rest e e' = e'
  for_workers_lem k h (w ∷ ws) l rest e e' =
      let r = for_workers_lem k h ws l rest e e' in ground (arith, e, r)

  -- A key with a chunk hash that names no worker asks for the same objects, in the same order, as
  -- the keys of the single workers of its world, in front of any keys that can be converted.
  pub ipc_keys_to_object_keys-for_workers :
      (k : IpcCacheEngineKey B N) (h : B) (l : List (IpcCacheEngineKey B N))
      (rest : List (ObjectKey B N))
      → k.chunk_hash ≡ some h
      → k.worker_id ≡ none
      → ipc_keys_to_object_keys l ≡ some rest
      → ipc_keys_to_object_keys (k ∷ l)
        ≡ ipc_keys_to_object_keys (for_workers k (range_from 0 k.world_size) ++ l)
  unfolding ipc_keys_to_object_keys workers
  ipc_keys_to_object_keys-for_workers k h l rest e every e' =
      let r = for_workers_lem k h (range_from 0 k.world_size) l rest e e' in
      ground (arith, e, every, e', r)
