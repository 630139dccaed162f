-- ===== src/TokenDatabase/Prefix.antt =====
-- What is yielded for a chunk depends on the tokens up to its end only.
use serverless_lmcache.Common.{
  ℕ, zero, suc, ◌+◌, ◌-◌, ◌*◌, ◌/◌, ◌%◌, ◌≤◌, ◌<◌, ◌≡◌, refl, ap, ◌∙◌, inl, inr, Bool-cases, true,
  false, ltb, lt→ltb, ◌==◌, if◌then◌else◌, Option, none, some, List, ◌∷◌, ◌++◌, map, length,
  length-append, get_elem?, range_from, arith,
}
use native.Mathlib.Nat.{mul-le-mul_right, le-div_iff_mul-le, mul-mod_left, div-add-mod, mul_comm}
use serverless_lmcache.Multiprocess.TokenHasher.{TokenHasher, slice, range_step}
use serverless_lmcache.Multiprocess.Session.Chunks.{roll, roll-append}
use serverless_lmcache.TokenDatabase.{
  ChunkedTokenDatabase, min, chunked_end, chunk_tokens, prefix_hashes, yield_chunks, process_tokens,
}

zero_lt : (n : ℕ) → ltb 0 (suc n) ≡ true
zero_lt n = ground arith

tests : (i n : ℕ) → ltb i n ≡ ltb (suc i) (suc n)
tests i n = ground arith

-- How many chunks start before an end.
complete_before_end : (end c j : ℕ) → 0 < c → suc j * c ≤ end → j < (end + c - 1) / c
complete_before_end end c j pos h = (le-div_iff_mul-le pos).1 (omega (arith, h))

module _ {T H : Type 0} (db : ChunkedTokenDatabase T H) where
  -- The rolling hashes of the database are those of a hasher.
  abbrev pub hasher : TokenHasher T H
  hasher = record { chunk_size = db.chunk_size; hash_func = db.hash_func; none_hash = db.init_hash }

  abbrev starts : ℕ → ℕ → List ℕ
  starts k n = map (λ j. j * db.chunk_size) (range_from k n)

  prefix_hashes-roll :
      (tokens : List T) (k n : ℕ)
      → prefix_hashes db
          (roll hasher tokens k)
          (map (λ i. slice i (i + db.chunk_size) tokens) (starts k n))
        ≡ map (λ j. roll hasher tokens (suc j)) (range_from k n)
  unfolding prefix_hashes range_from
  prefix_hashes-roll tokens k zero = refl
  prefix_hashes-roll tokens k (suc n) =
      ap (◌∷◌ (roll hasher tokens (suc k))) (prefix_hashes-roll tokens (suc k) n)

  module _ {R : Type 0} (make : H → R) (tokens : List T) (f : ℕ) (pos : 0 < db.chunk_size) where
    abbrev entry : ℕ → ℕ × ℕ × R
    entry j = (
      j * db.chunk_size,
      min (j * db.chunk_size + db.chunk_size) (length tokens),
      make (roll hasher tokens (suc j)),
    )

    abbrev yielded : ℕ → ℕ → List (ℕ × ℕ × R)
    yielded k n =
        yield_chunks db make (length tokens) (f * db.chunk_size) k
          (map (λ j. roll hasher tokens (suc j)) (range_from k n))

    before : (k : ℕ) → k < f → ltb (k * db.chunk_size) (f * db.chunk_size) ≡ true
    before k h =
        let e : suc k * db.chunk_size ≤ f * db.chunk_size = mul-le-mul_right db.chunk_size h in
        grind arith

    behind : (k : ℕ) → f ≤ k → ltb (k * db.chunk_size) (f * db.chunk_size) ≡ false
    behind k h =
        let e : f * db.chunk_size ≤ k * db.chunk_size = mul-le-mul_right db.chunk_size h in
        ground arith

    get_elem?-behind :
        (k n i : ℕ)
        → f ≤ k
        → get_elem? (yielded k n) i ≡ (if ltb i n then some (entry (k + i)) else none)
    unfolding yield_chunks range_from
    get_elem?-behind k zero i h = ground arith
    get_elem?-behind k (suc n) zero h =
        let same : k + 0 ≡ k = omega arith in rw (same, behind k h, zero_lt n) refl
    get_elem?-behind k (suc n) (suc i) h =
        let same : k + suc i ≡ suc k + i = omega arith in
        rw (behind k h, same)
          (get_elem?-behind (suc k) n i (omega arith)
            ∙ ap (λ b. if b then some (entry (suc k + i)) else none) (tests i n))

    get_elem?-yielded :
        (k n i : ℕ)
        → k ≤ f
        → get_elem? (yielded k n) i ≡ (if ltb (f + i) (k + n) then some (entry (f + i)) else none)
    unfolding yield_chunks range_from
    get_elem?-yielded k zero i h = ground arith
    get_elem?-yielded k (suc n) i h = elim (Bool-cases (ltb k f)) [
      | inl earlier ↦
          let e : suc k + n ≡ k + suc n = omega arith in
          rw (before k (ground arith)) (
            get_elem?-yielded (suc k) n i (ground arith)
            ∙ ap (λ m. if ltb (f + i) m then some (entry (f + i)) else none) e)
      | inr here ↦
          let same : k ≡ f = ground arith in
          let e : k + i ≡ f + i = omega arith in
          let test : ltb i (suc n) ≡ ltb (f + i) (k + suc n) = ground arith in
          get_elem?-behind k (suc n) i (omega arith)
          ∙ (ap (λ m. if ltb i (suc n) then some (entry m) else none) e
              ∙ ap (λ b. if b then some (entry (f + i)) else none) test)
    ]

  abbrev pub chunk_count : List T → ℕ
  chunk_count tokens = (chunked_end db tokens + db.chunk_size - 1) / db.chunk_size

  abbrev pub yielded_at : {R : Type 0} → Option (List (ℕ × ℕ × R)) → ℕ → Option (ℕ × ℕ × R)
  yielded_at none i = none
  yielded_at (some xs) i = get_elem? xs i

  process_tokens_lem :
      {R : Type 0} (make : H → R) (f : ℕ) (tokens : List T) (i : ℕ) (pos : 0 < db.chunk_size)
      → yielded_at (process_tokens db make (f * db.chunk_size) tokens) i ≡ (
          if ltb (f + i) (chunk_count tokens) then some (entry make tokens f pos (f + i)) else none)
  unfolding process_tokens chunk_tokens range_step
  process_tokens_lem make f tokens i pos =
      let c = db.chunk_size in
      let n = chunk_count tokens in
      let guard : f * c % c == 0 ≡ true = ground (arith, mul-mod_left f c) in
      let all : 0 + n ≡ n = omega arith in
      rw guard (
        ap (λ (hs : List H). get_elem? (yield_chunks db make (length tokens) (f * c) 0 hs) i)
          (prefix_hashes-roll tokens 0 n)
        ∙ (get_elem?-yielded make tokens f pos 0 n i (omega arith)
            ∙ ap (λ m. if ltb (f + i) m then some (entry make tokens f pos (f + i)) else none) all))

  multiple-le-chunked_end :
      (tokens : List T) (j : ℕ)
      → 0 < db.chunk_size
      → j * db.chunk_size ≤ length tokens
      → j * db.chunk_size ≤ chunked_end db tokens
  unfolding chunked_end
  multiple-le-chunked_end tokens j pos h =
      let c = db.chunk_size in
      let l = length tokens in
      let whole : j * c ≤ l / c * c = mul-le-mul_right c ((le-div_iff_mul-le pos).1 h) in
      ground (arith, div-add-mod l c, mul_comm c (l / c))

  chunk_count_complete :
      (tokens : List T) (j : ℕ)
      → 0 < db.chunk_size
      → suc j * db.chunk_size ≤ length tokens
      → j < chunk_count tokens
  chunk_count_complete tokens j pos h =
      complete_before_end (chunked_end db tokens) db.chunk_size j pos
        (multiple-le-chunked_end tokens (suc j) pos h)

  -- With a chunk size that is not zero and a mask of that many complete chunks, the token database
  -- yields for each further chunk that lies within a prefix of the tokens the chunk's range and
  -- what is made of its rolling hash in that prefix, whatever tokens follow.
  pub process_tokens_prefix :
      {R : Type 0} (make : H → R) (f i : ℕ) (tokens more : List T)
      → 0 < db.chunk_size
      → suc (f + i) * db.chunk_size ≤ length tokens
      → yielded_at (process_tokens db make (f * db.chunk_size) (tokens ++ more)) i
        ≡ some (
          (f + i) * db.chunk_size,
          suc (f + i) * db.chunk_size,
          make (roll hasher tokens (suc (f + i))),
        )
  process_tokens_prefix make f i tokens more pos h =
      let c = db.chunk_size in
      let j = f + i in
      let long : length (tokens ++ more) ≡ length tokens + length more =
        length-append tokens more in
      let counted : ltb j (chunk_count (tokens ++ more)) ≡ true =
        lt→ltb j _ (chunk_count_complete (tokens ++ more) j pos (omega arith)) in
      let next : suc j * c ≡ j * c + c = grind arith in
      let within : min (j * c + c) (length (tokens ++ more)) ≡ suc j * c = ground arith in
      let same = roll-append hasher tokens more (suc j) h in
      process_tokens_lem make f (tokens ++ more) i pos
      ∙ (ap (λ b. if b then some (entry make (tokens ++ more) f pos j) else none) counted
          ∙ cc (within, same))
