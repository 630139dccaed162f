-- ===== src/TokenDatabase.antt =====
-- `ChunkedTokenDatabase` of token_database.py: the ranges and the keys of the chunks of a request. The
-- hash function is a library's; `make` makes what is yielded from a hash, which is a cache engine key
-- or the hash itself. A generator is the list of what it yields.
pub mod Prefix
use serverless_lmcache.Common.{
  ℕ, suc, ◌+◌, ◌-◌, ◌*◌, ◌/◌, ◌%◌, Bool, ◌==◌, ltb, leb, if◌then◌else◌, Option, none, some, List,
  [], ◌∷◌, map, length,
}
use serverless_lmcache.Multiprocess.TokenHasher.{slice, range_step}

pub record ChunkedTokenDatabase (T H : Type 0) : Type 0 where
  pub chunk_size : ℕ
  pub save_unfull_chunk : Bool
  pub hash_func : H → List T → H
  pub init_hash : H

abbrev pub min : ℕ → ℕ → ℕ
min a b = if leb a b then a else b

module _ {T H : Type 0} (db : ChunkedTokenDatabase T H) where
  unfoldable pub chunked_end : List T → ℕ
  chunked_end tokens =
      if db.save_unfull_chunk then length tokens else length tokens - length tokens % db.chunk_size

  unfoldable pub chunk_tokens : List T → List (List T)
  chunk_tokens tokens =
      map (λ i. slice i (i + db.chunk_size) tokens) (range_step (chunked_end tokens) db.chunk_size)

  unfoldable pub prefix_hashes : H → List (List T) → List H
  prefix_hashes prefix_hash [] = []
  prefix_hashes prefix_hash (token_chunk ∷ token_chunks) =
      let h = db.hash_func prefix_hash token_chunk in h ∷ prefix_hashes h token_chunks

  module _ {R : Type 0} (make : H → R) where
    -- The loop over the hashes of tokens, from a chunk on.
    unfoldable pub yield_chunks : ℕ → ℕ → ℕ → List H → List (ℕ × ℕ × R)
    yield_chunks total_len num_falses chunk_id [] = []
    yield_chunks total_len num_falses chunk_id (hash_val ∷ hashes) =
        let rest = yield_chunks total_len num_falses (suc chunk_id) hashes in
        let start_idx = chunk_id * db.chunk_size in
        let end_idx = min (start_idx + db.chunk_size) total_len in
        if ltb start_idx num_falses then rest else (start_idx, end_idx, make hash_val) ∷ rest

    -- `none` is the ValueError; the mask counts by the number of its falses.
    unfoldable pub process_tokens : ℕ → List T → Option (List (ℕ × ℕ × R))
    process_tokens num_falses tokens =
        if num_falses % db.chunk_size == 0
        then some (
            yield_chunks (length tokens) num_falses 0
              (prefix_hashes db.init_hash (chunk_tokens tokens)))
        else none

    -- The loop over given hashes and the numbers of tokens of their chunks.
    unfoldable pub process_hashes : ℕ → List H → List ℕ → List (ℕ × ℕ × R)
    process_hashes start_idx [] offsets = []
    process_hashes start_idx (hash_val ∷ hashes) [] = []
    process_hashes start_idx (hash_val ∷ hashes) (offset ∷ offsets) =
        (start_idx, start_idx + offset, make hash_val)
        ∷ process_hashes (start_idx + offset) hashes offsets
