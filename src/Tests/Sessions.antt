-- ===== src/Tests/Sessions.antt =====
-- Sessions of the multiprocess server and the token database, with a hash function on numbers.
use serverless_lmcache.Common.{
  true, suc, range_from, ℕ, ◌+◌, ◌*◌, ◌≡◌, refl, ltb, if◌then◌else◌, some, List, [], ◌∷◌, ◌++◌,
  arith,
}
use serverless_lmcache.Multiprocess.TokenHasher.{
  range_step, TokenHasher, slice, hash_tokens, compute_chunk_hashes,
}
use serverless_lmcache.Multiprocess.Session.{
  Session, new, set_tokens, compute_next, compute_hash, get_hashes,
}
use serverless_lmcache.Multiprocess.Session.Hashes.{
  IsHashed, compute_hash_ends, get_hashes-compute_chunk_hashes,
}
use serverless_lmcache.Multiprocess.Session.Chunks.{roll}
use serverless_lmcache.TokenDatabase.{
  ChunkedTokenDatabase, chunked_end, chunk_tokens, prefix_hashes, yield_chunks, process_tokens,
}
use serverless_lmcache.TokenDatabase.Prefix.{yielded_at, hasher, process_tokens_prefix}

abbrev digits : ℕ → List ℕ → ℕ
digits h [] = h
digits h (t ∷ ts) = digits (h * 10 + t) ts

abbrev pairs : TokenHasher ℕ ℕ
pairs = record { chunk_size = 2; hash_func = digits; none_hash = 9 }

abbrev asked : List ℕ
asked = 1 ∷ 2 ∷ 3 ∷ []

-- A session that has hashed the one complete chunk of its tokens.
abbrev session : Session ℕ ℕ
session = record {
  token_ids = asked;
  chunk_hashes = 912 ∷ [];
  last_prefix_hash = some 912;
  num_chunks_processed = 1;
  created_at = 7;
}

from_new : compute_hash pairs 3 1 (set_tokens asked (new 7)) ≡ some session
unfolding compute_hash compute_next hash_tokens set_tokens new slice
from_new = refl

session-IsHashed : IsHashed pairs asked session
unfolding slice
session-IsHashed = record { hashed = refl; rolled = refl; complete = omega arith }

compute_hash_ends_example :
    (s' : Session ℕ ℕ) × (compute_hash pairs 3 2 session ≡ some s')
    × (s'.num_chunks_processed ≡ (if ltb 1 2 then 2 else 1))
    × (s'.token_ids ≡ asked)
compute_hash_ends_example = compute_hash_ends pairs 3 2 session (omega arith)

get_hashes-compute_chunk_hashes_example :
    (s' : Session ℕ ℕ) × (get_hashes pairs
        (1 * 2)
        (2 * 2)
        (set_tokens (asked ++ (4 ∷ 5 ∷ [])) session)
      ≡ some (s', slice 1 2 (compute_chunk_hashes pairs (asked ++ (4 ∷ 5 ∷ [])))))
    × IsHashed pairs (asked ++ (4 ∷ 5 ∷ [])) s'
get_hashes-compute_chunk_hashes_example =
    get_hashes-compute_chunk_hashes pairs asked (4 ∷ 5 ∷ []) session 1 2 (omega arith)
      session-IsHashed (omega arith) (omega arith)

abbrev database : ChunkedTokenDatabase ℕ ℕ
database = record { chunk_size = 2; save_unfull_chunk = true; hash_func = digits; init_hash = 9 }

processed :
    process_tokens database (λ h. h) 2 (1 ∷ 2 ∷ 3 ∷ 4 ∷ 5 ∷ [])
    ≡ some ((2, 4, 91234) ∷ (4, 5, 912345) ∷ [])
unfolding process_tokens chunk_tokens chunked_end yield_chunks prefix_hashes slice range_step
    range_from
processed = refl

process_tokens_prefix_example :
    yielded_at database
      (process_tokens database (λ h. h) (1 * 2) ((1 ∷ 2 ∷ 3 ∷ 4 ∷ []) ++ (5 ∷ [])))
      0
    ≡ some ((1 + 0) * 2, suc (1 + 0) * 2, roll (hasher database) (1 ∷ 2 ∷ 3 ∷ 4 ∷ []) (suc (1 + 0)))
process_tokens_prefix_example =
    process_tokens_prefix database (λ h. h) 1 0 (1 ∷ 2 ∷ 3 ∷ 4 ∷ []) (5 ∷ []) (omega arith)
      (omega arith)
