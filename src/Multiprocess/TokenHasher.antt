-- ===== src/Multiprocess/TokenHasher.antt =====
-- `TokenHasher` of multiprocess/token_hasher.py. The hash function comes from a library: tokens are a
-- type `T`, hashes a type `H`, and the function takes a prefix hash and the tokens of a chunk.
use serverless_lmcache.Common.{
  ℕ, ◌+◌, ◌-◌, ◌*◌, ◌/◌, ◌%◌, Option, none, some, List, [], ◌∷◌, ◌++◌, map, length, take, drop,
  for_each, range_from,
}

pub record TokenHasher (T H : Type 0) : Type 0 where
  pub chunk_size : ℕ
  pub hash_func : H → List T → H
  pub none_hash : H

-- `xs[start:end]`
unfoldable pub slice : {A : Type 0} → ℕ → ℕ → List A → List A
slice start end xs = take (end - start) (drop start xs)

-- `range(0, stop, step)`
unfoldable pub range_step : ℕ → ℕ → List ℕ
range_step stop step = map (λ j. j * step) (range_from 0 ((stop + step - 1) / step))

module _ {T H : Type 0} (hasher : TokenHasher T H) where
  unfoldable pub hash_tokens : List T → Option H → H
  hash_tokens tokens none = hasher.hash_func hasher.none_hash tokens
  hash_tokens tokens (some prefix_hash) = hasher.hash_func prefix_hash tokens

  -- One round: the hash of the prefix so far, and the hashes.
  unfoldable pub hash_chunk_at : List T → ℕ → H × List H → H × List H
  hash_chunk_at token_ids i (prefix_hash, hashes) =
      let h = hash_tokens (slice i (i + hasher.chunk_size) token_ids) (some prefix_hash) in
      (h, hashes ++ (h ∷ []))

  unfoldable pub compute_chunk_hashes : List T → List H
  compute_chunk_hashes token_ids =
      let num_complete = length token_ids - length token_ids % hasher.chunk_size in
      (for_each (hash_chunk_at token_ids) (range_step num_complete hasher.chunk_size)
        (hasher.none_hash, [])).1
