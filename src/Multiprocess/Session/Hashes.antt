-- ===== src/Multiprocess/Session/Hashes.antt =====
-- A session's hashes against those of all its tokens at once.
use serverless_lmcache.Common.{
  ℕ, zero, suc, ◌+◌, ◌-◌, ◌*◌, ◌/◌, ◌≤◌, ◌<◌, ◌≡◌, refl, sym, ap, subst, ◌∙◌, inl, inr, Bool-cases,
  ltb, if◌then◌else◌, none, some, List, ◌++◌, arith, length, length-append,
}
use native.Mathlib.Nat.{mul-div_cancel, mul-mod_left, mul-le-mul_right, le-div_iff_mul-le}
use serverless_lmcache.Multiprocess.TokenHasher.{
  TokenHasher, slice, hash_tokens, compute_chunk_hashes,
}
use serverless_lmcache.Multiprocess.Session.{
  Session, set_tokens, compute_next, compute_hash, get_hashes,
}
use serverless_lmcache.Multiprocess.Session.Chunks.{
  roll, hashes, roll-append, hashes-append, slice-hashes, compute_chunk_hashes-hashes,
}

next_within : (n end c l : ℕ) → n < end → end * c ≤ l → n * c + c ≤ l
next_within n end c l lt h = let e : suc n * c ≤ end * c = mul-le-mul_right c lt in grind arith

module _ {T H : Type 0} (hasher : TokenHasher T H) where
  -- The session has hashed the first chunks of these tokens, all of them complete.
  pub record IsHashed (tokens : List T) (s : Session T H) : Type 0 where
    pub hashed : s.chunk_hashes ≡ hashes hasher tokens s.num_chunks_processed
    pub rolled :
        elim s.last_prefix_hash [ none ↦ hasher.none_hash | some h ↦ h ]
        ≡ roll hasher tokens s.num_chunks_processed
    pub complete : s.num_chunks_processed * hasher.chunk_size ≤ length tokens

  pub IsHashed-append :
      (tokens more : List T) (s : Session T H)
      → IsHashed tokens s
      → IsHashed (tokens ++ more) (set_tokens (tokens ++ more) s)
  unfolding set_tokens
  IsHashed-append tokens more s h = record {
    hashed = h.hashed ∙ sym (hashes-append hasher tokens more s.num_chunks_processed h.complete);
    rolled = h.rolled ∙ sym (roll-append hasher tokens more s.num_chunks_processed h.complete);
    complete = omega (arith, length-append {0} tokens more, h.complete);
  }

  compute_next-IsHashed :
      (s : Session T H)
      → IsHashed s.token_ids s
      → s.num_chunks_processed * hasher.chunk_size + hasher.chunk_size ≤ length s.token_ids
      → IsHashed s.token_ids (compute_next hasher s)
  unfolding compute_next hash_tokens
  compute_next-IsHashed s h within =
      let n = s.num_chunks_processed in
      let e : n + 1 ≡ suc n = omega arith in
      let same = h.rolled in
      let same' = h.hashed in
      record { hashed = rw e (cc (same, same')); rolled = rw e (cc same); complete = grind arith }

  num_chunks_processed-compute_next :
      (s : Session T H)
      → ((compute_next hasher s).num_chunks_processed ≡ s.num_chunks_processed + 1)
        × ((compute_next hasher s).token_ids ≡ s.token_ids)
  unfolding compute_next
  num_chunks_processed-compute_next s = (refl, refl)

  -- With more fuel than there are chunks left up to the end, the hashing loop of a session ends,
  -- with the chunks up to the end processed, or as many as before if they were more, and the same
  -- tokens.
  pub compute_hash_ends :
      (fuel end_chunk : ℕ) (s : Session T H)
      → end_chunk - s.num_chunks_processed < fuel
      → (s' : Session T H) × (compute_hash hasher fuel end_chunk s ≡ some s')
        × (s'.num_chunks_processed
            ≡ (if ltb s.num_chunks_processed end_chunk then end_chunk else s.num_chunks_processed))
        × (s'.token_ids ≡ s.token_ids)
  unfolding compute_hash
  compute_hash_ends zero end_chunk s h = absurd (omega arith)
  compute_hash_ends (suc fuel) end_chunk s h =
      elim (Bool-cases (ltb s.num_chunks_processed end_chunk)) [
        | inr done ↦ (s, rw done refl, rw done refl, refl)
        | inl more ↦
            let (next, same) = num_chunks_processed-compute_next s in
            let (s', ends, there, tokens) =
              compute_hash_ends fuel end_chunk (compute_next hasher s) (ground arith) in
            (s', rw more ends, ground arith, tokens ∙ same)
      ]

  compute_hash-IsHashed :
      (fuel end_chunk : ℕ) (s s' : Session T H)
      → IsHashed s.token_ids s
      → end_chunk * hasher.chunk_size ≤ length s.token_ids
      → compute_hash hasher fuel end_chunk s ≡ some s'
      → IsHashed s'.token_ids s'
  unfolding compute_hash compute_next
  compute_hash-IsHashed zero end_chunk s s' h enough ran = cc
  compute_hash-IsHashed (suc fuel) end_chunk s s' h enough ran =
      elim (Bool-cases (ltb s.num_chunks_processed end_chunk)) [
        | inr done ↦
            let same : s ≡ s' = ground arith in
            subst (λ (x : Session T H). IsHashed x.token_ids x) same h
        | inl more ↦
            let (next, same) = num_chunks_processed-compute_next s in
            let within : s.num_chunks_processed * hasher.chunk_size + hasher.chunk_size
                ≤ length s.token_ids =
              next_within s.num_chunks_processed end_chunk hasher.chunk_size (length s.token_ids)
                (ground arith) enough in
            compute_hash-IsHashed fuel end_chunk (compute_next hasher s) s'
              (compute_next-IsHashed s h within) enough (ground arith)
      ]

  get_hashes_lem :
      (s s' : Session T H) (start_chunk end_chunk : ℕ)
      → 0 < hasher.chunk_size
      → compute_hash hasher (suc end_chunk) end_chunk s ≡ some s'
      → get_hashes hasher (start_chunk * hasher.chunk_size) (end_chunk * hasher.chunk_size) s
        ≡ some (s', slice start_chunk end_chunk s'.chunk_hashes)
  unfolding get_hashes
  get_hashes_lem s s' start_chunk end_chunk pos ends =
      let c = hasher.chunk_size in
      ground (
        arith,
        mul-mod_left start_chunk c,
        mul-mod_left end_chunk c,
        mul-div_cancel start_chunk pos,
        mul-div_cancel end_chunk pos,
      )

  slice-hashes_of_le :
      (tokens : List T) (start end n : ℕ)
      → start ≤ end
      → end ≤ n
      → slice start end (hashes hasher tokens n) ≡ slice start end (hashes hasher tokens end)
  slice-hashes_of_le tokens start end n le enough =
      let e : n ≡ (n - end) + end = omega arith in
      ap (λ m. slice start end (hashes hasher tokens m)) e
      ∙ slice-hashes hasher tokens start end (n - end) le

  -- On a session that has hashed complete chunks of its tokens only, after the tokens are set to
  -- those tokens and more, `get_hashes` for a range of complete chunks returns the same hashes as
  -- hashing all the tokens at once, and the session again has hashed complete chunks of its tokens
  -- only.
  pub get_hashes-compute_chunk_hashes :
      (tokens more : List T) (s : Session T H) (start_chunk end_chunk : ℕ)
      → 0 < hasher.chunk_size
      → IsHashed tokens s
      → start_chunk ≤ end_chunk
      → end_chunk * hasher.chunk_size ≤ length (tokens ++ more)
      → (s' : Session T H) × (get_hashes hasher
            (start_chunk * hasher.chunk_size)
            (end_chunk * hasher.chunk_size)
            (set_tokens (tokens ++ more) s)
          ≡ some (s', slice start_chunk end_chunk (compute_chunk_hashes hasher (tokens ++ more))))
        × IsHashed (tokens ++ more) s'
  get_hashes-compute_chunk_hashes tokens more s start_chunk end_chunk pos h le enough =
      let c = hasher.chunk_size in
      let all = tokens ++ more in
      let s0 = set_tokens all s in
      let same : s0.token_ids ≡ all = unfold set_tokens in refl in
      let h0 : IsHashed all s0 = IsHashed-append tokens more s h in
      let (s', ends, count, kept) = compute_hash_ends (suc end_chunk) end_chunk s0 (omega arith) in
      let h' =
        compute_hash-IsHashed (suc end_chunk) end_chunk s0 s' (unfold set_tokens in h0)
          (unfold set_tokens in enough) ends in
      let h'' : IsHashed all s' = subst (λ (ts : List T). IsHashed ts s') (kept ∙ same) h' in
      let stored =
        slice-hashes_of_le all start_chunk end_chunk s'.num_chunks_processed le (ground arith) in
      let whole =
        slice-hashes_of_le all start_chunk end_chunk (length all / c) le
          ((le-div_iff_mul-le pos).1 enough) in
      let answer : slice start_chunk end_chunk s'.chunk_hashes
          ≡ slice start_chunk end_chunk (compute_chunk_hashes hasher all) =
        ap (slice start_chunk end_chunk) (h''.hashed)
        ∙ (stored
            ∙ (sym whole
                ∙ ap (slice start_chunk end_chunk)
                    (sym (compute_chunk_hashes-hashes hasher all pos)))) in
      (
        s',
        get_hashes_lem s0 s' start_chunk end_chunk pos ends
            ∙ ap (λ (hs : List H). some (s', hs)) answer,
        h'',
      )
