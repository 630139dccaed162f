-- ===== src/StorageBackend/LocalCpu/Budget.antt =====
-- The number of chunks that fit into the memory of the local backend.
use native.Mathlib.Nat.{div-add-mod, mod-lt, mul_comm, add-mul, mul-le-mul_right}
use serverless_lmcache.Common.{
  ℕ, zero, suc, ◌+◌, ◌-◌, ◌*◌, ◌/◌, ◌%◌, ◌^◌, ◌≤◌, ◌<◌, ◌≡◌, refl, sym, none, Option, some, arith,
}
use serverless_lmcache.Memory.AddressManager.Aligned.{pos_pow}
use serverless_lmcache.StorageBackend.LocalCpu.{Config}
use serverless_lmcache.StorageBackend.LocalCpu.Allocation.{
  LmcacheMetadata, MaxSize, get_full_chunk_size, total_memory, budget_of, calculate_chunk_budget,
}

-- `n` is the number of pieces of `b` bytes in `total`.
quotient_lem :
    (total b : ℕ) → (total / suc b * suc b ≤ total) × (total < (total / suc b + 1) * suc b)
quotient_lem total b =
    let below : total % suc b < suc b = mod-lt total (omega arith) in
    (
      omega (arith, div-add-mod total (suc b), mul_comm (total / suc b) (suc b)),
      omega (
        arith,
        below,
        div-add-mod total (suc b),
        mul_comm (total / suc b) (suc b),
        add-mul (total / suc b) 1 (suc b),
      ),
    )

-- The formula gives the smallest multiple of the alignment that a chunk fits into.
rounded_up :
    (a chunk : ℕ)
    → (chunk ≤ (chunk + suc a - 1) / suc a * suc a)
      × ((chunk + suc a - 1) / suc a * suc a < chunk + suc a)
rounded_up a chunk =
    let x = chunk + suc a - 1 in
    let (low, high) = quotient_lem x a in
    (omega (arith, low, high, add-mul (x / suc a) 1 (suc a)), omega (arith, low))

split_budget :
    (total b a chunk : ℕ)
    → 0 < b
    → chunk ≤ b
    → b < chunk + a
    → (q : ℕ) → b ≡ q * a
    → (n : ℕ) × ((elim b [ zero ↦ none | suc c ↦ some (total / suc c) ]) ≡ some n)
      × (n * (q * a) ≤ total)
      × (total < (n + 1) * (q * a))
split_budget total zero a chunk pos low high q e = absurd (omega arith)
split_budget total (suc b) a chunk pos low high q e =
    let (fits, no_more) = quotient_lem total b in rw (sym e) (total / suc b, refl, fits, no_more)

-- What a floor leaves out: bounds by whole pieces are those of the quotient itself.
unfloor : (x d y z : ℕ) → 0 < d → (y ≤ x / d) → (x / d < z) → (y * d ≤ x) × (x < z * d)
unfloor x zero y z pos low high = absurd (omega arith)
unfloor x (suc d) y z pos low high =
    let (fits, no_more) = quotient_lem x d in
    let up : x / suc d + 1 ≤ z = omega (arith, high) in
    (
      omega (arith, fits, mul-le-mul_right (suc d) low),
      omega (arith, no_more, mul-le-mul_right (suc d) up),
    )

-- For an allocator with the attribute `align_bytes`, not 0, and metadata whose full chunk is not
-- empty, the budget is calculated without an error: it is exactly the number of chunks, each
-- rounded up to the smallest multiple of `align_bytes` that it fits into, that the configured
-- memory can hold. For an allocator without the attribute the call raises.
pub calculate_chunk_budget_lem :
    (cfg : Config) (chunk_tokens : ℕ) (metadata : Option LmcacheMetadata) (size : MaxSize)
    (a chunk : ℕ)
    → get_full_chunk_size cfg chunk_tokens metadata ≡ some chunk
    → 0 < chunk
    → 0 < a
    → ((n : ℕ) × (q : ℕ) × (calculate_chunk_budget cfg chunk_tokens metadata size (some a) ≡ some n)
        × (chunk ≤ q * a)
        × (q * a < chunk + a)
        × (n * (q * a) * 2 ^ size.scale ≤ size.mantissa * 1073741824)
        × (size.mantissa * 1073741824 < (n + 1) * (q * a) * 2 ^ size.scale))
      × (calculate_chunk_budget cfg chunk_tokens metadata size none ≡ none)
unfolding calculate_chunk_budget budget_of total_memory
calculate_chunk_budget_lem cfg chunk_tokens metadata size zero chunk e pos some_a =
    absurd (omega arith)
calculate_chunk_budget_lem cfg chunk_tokens metadata size (suc a) chunk e pos some_a =
    let q = (chunk + suc a - 1) / suc a in
    let (low, high) = rounded_up a chunk in
    let (n, found, fits, no_more) =
      split_budget (total_memory size) (q * suc a) (suc a) chunk (omega (arith, low)) low high q
        refl in
    let (exact, exceeded) =
      unfloor (size.mantissa * 1073741824) (2 ^ size.scale) (n * (q * suc a))
        ((n + 1) * (q * suc a)) (pos_pow size.scale) fits no_more in
    rw (e, calculate_chunk_budget) ((n, q, found, low, high, exact, exceeded), refl)
