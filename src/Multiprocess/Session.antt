-- ===== src/Multiprocess/Session.antt =====
-- `Session` and `SessionManager` of multiprocess/session.py. All sessions of a manager have its hasher,
-- which is an argument; the manager's methods run under its lock.
pub mod Chunks
pub mod Hashes
use serverless_lmcache.Common.{
  ℕ, zero, suc, ◌+◌, ◌-◌, ◌*◌, ◌/◌, ◌%◌, Bool, true, false, ◌&&◌, ◌==◌, ltb, if◌then◌else◌, Option,
  none, some, List, [], ◌∷◌, ◌++◌, length, map, for_each,
}
use serverless_lmcache.Common.Dict.{Dict, get, insert, erase}
use serverless_lmcache.Multiprocess.TokenHasher.{TokenHasher, slice, hash_tokens}

-- The id of the request is the key under which the manager has the session.
pub record Session (T H : Type 0) : Type 0 where
  pub token_ids : List T
  pub chunk_hashes : List H
  pub last_prefix_hash : Option H
  pub num_chunks_processed : ℕ
  pub created_at : ℕ

unfoldable pub set_tokens : {T H : Type 0} → List T → Session T H → Session T H
set_tokens full_token_ids s = record s { token_ids = full_token_ids }

module _ {T H : Type 0} (hasher : TokenHasher T H) where
  -- The body of the loop.
  unfoldable pub compute_next : Session T H → Session T H
  compute_next s =
      let cs = s.num_chunks_processed * hasher.chunk_size in
      let ce = cs + hasher.chunk_size in
      let chunk = slice cs ce s.token_ids in
      let prefix : H = elim s.last_prefix_hash [ none ↦ hasher.none_hash | some h ↦ h ] in
      let h = hash_tokens hasher chunk (some prefix) in
      record s {
        last_prefix_hash = some h;
        chunk_hashes = s.chunk_hashes ++ (h ∷ []);
        num_chunks_processed = s.num_chunks_processed + 1;
      }

  -- The `while` loop; `none` is that the fuel ran out.
  unfoldable pub compute_hash : ℕ → ℕ → Session T H → Option (Session T H)
  compute_hash zero end_chunk s = none
  compute_hash (suc fuel) end_chunk s =
      let rest = compute_hash fuel end_chunk (compute_next s) in
      if ltb s.num_chunks_processed end_chunk then rest else some s

  -- `none` is an AssertionError. A round more than the chunks up to the end is enough fuel.
  unfoldable pub get_hashes : ℕ → ℕ → Session T H → Option (Session T H × List H)
  get_hashes start end s =
      let start_chunk = start / hasher.chunk_size in
      let end_chunk = end / hasher.chunk_size in
      if start % hasher.chunk_size == 0 && end % hasher.chunk_size == 0
      then elim (compute_hash (suc end_chunk) end_chunk s) [
        | none ↦ none
        | some s' ↦ some (s', slice start_chunk end_chunk s'.chunk_hashes)
      ]
      else none

unfoldable pub new : {T H : Type 0} → ℕ → Session T H
new now = record {
  token_ids = [];
  chunk_hashes = [];
  last_prefix_hash = none;
  num_chunks_processed = 0;
  created_at = now;
}

pub record SessionManager (N T H : Type 0) : Type 0 where
  pub ttl : ℕ
  pub sessions : Dict N (Session T H)

module _ {N T H : Type 0} (dec : Discrete N) where
  unfoldable pub get_or_create : ℕ → N → SessionManager N T H → SessionManager N T H × Session T H
  get_or_create now request_id m = elim (get dec request_id m.sessions) [
    | some s ↦ (m, s)
    | none ↦ (record m { sessions = insert dec request_id (new now) m.sessions }, new now)
  ]

  unfoldable pub remove : N → SessionManager N T H → SessionManager N T H
  remove request_id m = record m { sessions = erase dec request_id m.sessions }

  unfoldable pub expired_keys : ℕ → ℕ → Dict N (Session T H) → List N
  expired_keys now ttl [] = []
  expired_keys now ttl ((rid, s) ∷ d) =
      let rest = expired_keys now ttl d in if ltb ttl (now - s.created_at) then rid ∷ rest else rest

  unfoldable pub cleanup_expired : ℕ → SessionManager N T H → SessionManager N T H × ℕ
  cleanup_expired now m =
      let expired = expired_keys now m.ttl m.sessions in
      (record m { sessions = for_each (erase dec) expired m.sessions }, length expired)
