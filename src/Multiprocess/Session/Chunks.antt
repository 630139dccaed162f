-- ===== src/Multiprocess/Session/Chunks.antt =====
-- The rolling hashes of a sequence of tokens, and that `compute_chunk_hashes` makes them.
use serverless_lmcache.Common.{
  ℕ, zero, suc, ◌+◌, ◌-◌, ◌*◌, ◌/◌, ◌%◌, ◌≤◌, ◌<◌, ◌≡◌, refl, ap, ◌∙◌, List, [], ◌∷◌, ◌++◌, map,
  arith, length, length-append, take, for_each, range_from,
}
use native.Mathlib.Nat.{zero-add, mul_comm, div-add-mod, mul-add-div_right, div-eq_of_lt}
use serverless_lmcache.Multiprocess.TokenHasher.{
  TokenHasher, slice, range_step, hash_tokens, hash_chunk_at, compute_chunk_hashes,
}

take-append : {A : Type 0} (k : ℕ) (xs ys : List A) → k ≤ length xs → take k (xs ++ ys) ≡ take k xs
take-append zero xs ys h = refl
take-append (suc k) [] ys h = absurd (omega arith)
take-append (suc k) (x ∷ xs) ys h = ap (◌∷◌ x) (take-append k xs ys (omega arith))

-- A slice within the first part of a list.
pub slice-append :
    {A : Type 0} (start end : ℕ) (xs ys : List A)
    → end ≤ length xs
    → start ≤ end
    → slice start end (xs ++ ys) ≡ slice start end xs
unfolding slice
slice-append zero end xs ys h le = take-append (end - 0) xs ys (omega arith)
slice-append (suc start) zero xs ys h le = absurd (omega arith)
slice-append (suc start) (suc end) [] ys h le = absurd (omega arith)
slice-append (suc start) (suc end) (x ∷ xs) ys h le =
    let e : suc end - suc start ≡ end - start = omega arith in
    rw e (slice-append start end xs ys (omega arith) (omega arith))

module _ {T H : Type 0} (hasher : TokenHasher T H) where
  -- The hash of the first `n` chunks, and the hashes of the prefixes up to it.
  abbrev pub roll : List T → ℕ → H
  roll tokens zero = hasher.none_hash
  roll tokens (suc n) =
      hasher.hash_func (roll tokens n)
        (slice (n * hasher.chunk_size) (n * hasher.chunk_size + hasher.chunk_size) tokens)

  abbrev pub hashes : List T → ℕ → List H
  hashes tokens zero = []
  hashes tokens (suc n) = hashes tokens n ++ (roll tokens (suc n) ∷ [])

  pub length-hashes : (tokens : List T) (n : ℕ) → length (hashes tokens n) ≡ n
  length-hashes tokens zero = refl
  length-hashes tokens (suc n) = omega (
    arith,
    length-append {0} (hashes tokens n) (roll tokens (suc n) ∷ []),
    length-hashes tokens n,
  )

  -- More tokens leave the hashes of complete chunks as they are.
  pub roll-append :
      (tokens more : List T) (n : ℕ)
      → n * hasher.chunk_size ≤ length tokens
      → roll (tokens ++ more) n ≡ roll tokens n
  roll-append tokens more zero h = refl
  roll-append tokens more (suc n) h =
      let c = hasher.chunk_size in
      let within : n * c + c ≤ length tokens = grind arith in
      let same = slice-append (n * c) (n * c + c) tokens more within (omega arith) in
      cc (roll-append tokens more n (omega arith), same)

  pub hashes-append :
      (tokens more : List T) (n : ℕ)
      → n * hasher.chunk_size ≤ length tokens
      → hashes (tokens ++ more) n ≡ hashes tokens n
  hashes-append tokens more zero h = refl
  hashes-append tokens more (suc n) h =
      let c = hasher.chunk_size in
      let within : n * c + c ≤ length tokens = grind arith in
      let rest = hashes-append tokens more n (omega arith) in
      let last = roll-append tokens more (suc n) h in cc (rest, last)

  -- The hashes of fewer chunks are the first ones.
  pub slice-hashes :
      (tokens : List T) (start end n : ℕ)
      → start ≤ end
      → slice start end (hashes tokens (n + end)) ≡ slice start end (hashes tokens end)
  slice-hashes tokens start end zero le = rw (zero-add end) refl
  slice-hashes tokens start end (suc n) le =
      let e : suc n + end ≡ suc (n + end) = omega arith in
      let long = length-hashes tokens (n + end) in
      ap (λ m. slice start end (hashes tokens m)) e
      ∙ (slice-append start end (hashes tokens (n + end)) (roll tokens (suc (n + end)) ∷ [])
            (omega arith) le
          ∙ slice-hashes tokens start end n le)

  loop_lem :
      (tokens : List T) (k n : ℕ)
      → for_each
          (hash_chunk_at hasher tokens)
          (map (λ j. j * hasher.chunk_size) (range_from k n))
          (roll tokens k, hashes tokens k)
        ≡ (roll tokens (n + k), hashes tokens (n + k))
  unfolding range_from hash_chunk_at hash_tokens
  loop_lem tokens k zero = rw (zero-add k) refl
  loop_lem tokens k (suc n) =
      let e : suc n + k ≡ n + suc k = omega arith in rw e (loop_lem tokens (suc k) n)

  -- How many chunks are complete.
  pub compute_chunk_hashes-hashes :
      (tokens : List T)
      → 0 < hasher.chunk_size
      → compute_chunk_hashes hasher tokens ≡ hashes tokens (length tokens / hasher.chunk_size)
  unfolding compute_chunk_hashes range_step
  compute_chunk_hashes-hashes tokens pos =
      let c = hasher.chunk_size in
      let l = length tokens in
      let whole : l - l % c ≡ l / c * c = omega (arith, div-add-mod l c, mul_comm c (l / c)) in
      let more : l - l % c + c - 1 ≡ l / c * c + (c - 1) = omega (arith, whole) in
      let rounds : (l - l % c + c - 1) / c ≡ l / c =
        ap (λ x. x / c) more
        ∙ (mul-add-div_right pos (l / c) (c - 1)
            ∙ omega (arith, div-eq_of_lt {n = c - 1} {m = c} (omega arith))) in
      let all : l / c + 0 ≡ l / c = omega arith in
      let loop : ℕ → List H = λ n.
        (for_each (hash_chunk_at hasher tokens) (map (λ j. j * c) (range_from 0 n))
          (hasher.none_hash, [])).1 in
      ap loop rounds
      ∙ (ap (λ (s : H × List H). s.1) (loop_lem tokens 0 (l / c)) ∙ ap (hashes tokens) all)
