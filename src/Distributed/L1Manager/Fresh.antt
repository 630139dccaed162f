-- ===== src/Distributed/L1Manager/Fresh.antt =====
-- The keys that `reserve_write` allocates for: missing from the cache, and each asked for once.
use mathlib.Core.List.{append-nil, append_assoc}
use serverless_lmcache.Common.{
  ℕ, ◌≡◌, ◌≢◌, refl, Bool, none, List, [], ◌∷◌, ◌++◌, arith, for_each, count_key, zip, length,
}
use serverless_lmcache.Common.Dict.{Dict, get, get-insert, insert}
use serverless_lmcache.Distributed.L1Manager.{L1ObjectState, Loop, L1OperationResult}
use serverless_lmcache.Distributed.L1Manager.Write.{Mode, reserve_write_key, install_key}
use serverless_lmcache.Distributed.L1Manager.Ownership.{Owned, Owned-insert_new}

abbrev pub key_of : {K : Type 0} → K × Bool → K
key_of p = p.0

module _ {K : Type 0} (dec : Discrete K) where
  -- No key twice.
  abbrev pub Distinct : {X : Type 0} → (X → K) → List X → Type 0
  Distinct key [] = Unit
  Distinct key (x ∷ xs) = (count_key dec key (key x) xs ≡ 0) × Distinct key xs

  abbrev pub Apart : List (K × Bool) → List (K × Bool) → Type 0
  Apart [] ps = Unit
  Apart (x ∷ xs) ps = (count_key dec key_of x.0 ps ≡ 0) × Apart xs ps

  count_key-snoc :
      (k : K) (ps : List (K × Bool)) (x : K × Bool)
      → count_key dec key_of k ps ≡ 0
      → x.0 ≢ k
      → count_key dec key_of k (ps ++ (x ∷ [])) ≡ 0
  count_key-snoc k [] x h ne = ground arith
  count_key-snoc k (p ∷ ps) x h ne = ground (arith, count_key-snoc k ps x)

  Distinct-snoc :
      (ps : List (K × Bool)) (x : K × Bool)
      → Distinct key_of ps
      → count_key dec key_of x.0 ps ≡ 0
      → Distinct key_of (ps ++ (x ∷ []))
  Distinct-snoc [] x d h = (refl, tt)
  Distinct-snoc (p ∷ ps) x d h = ground (arith, count_key-snoc p.0 ps x, Distinct-snoc ps x d.1)

  Apart-snoc :
      (xs ps : List (K × Bool)) (x : K × Bool)
      → Apart xs ps
      → count_key dec key_of x.0 xs ≡ 0
      → Apart xs (ps ++ (x ∷ []))
  Apart-snoc [] ps x d h = tt
  Apart-snoc (y ∷ xs) ps x d h = ground (arith, count_key-snoc y.0 ps x, Apart-snoc xs ps x d.1)

  pub Apart-nil : (xs : List (K × Bool)) → Apart xs []
  Apart-nil [] = tt
  Apart-nil (x ∷ xs) = (refl, Apart-nil xs)

module _ {K M : Type 0} (dec : Discrete K) where
  abbrev pub Absent : List (K × Bool) → Dict K (L1ObjectState M) → Type 0
  Absent [] d = Unit
  Absent (p ∷ ps) d = (get dec p.0 d ≡ none) × Absent ps d

  Absent-insert :
      (k : K) (e : L1ObjectState M) (ps : List (K × Bool)) (d : Dict K (L1ObjectState M))
      → count_key dec key_of k ps ≡ 0
      → Absent ps d
      → Absent ps (insert dec k e d)
  Absent-insert k e [] d h f = tt
  Absent-insert k e (p ∷ ps) d h f =
      ground (arith, get-insert dec k p.0 e d, Absent-insert k e ps d)

  Absent-snoc :
      (ps : List (K × Bool)) (x : K × Bool) (d : Dict K (L1ObjectState M))
      → Absent ps d
      → get dec x.0 d ≡ none
      → Absent (ps ++ (x ∷ [])) d
  Absent-snoc [] x d f h = (h, tt)
  Absent-snoc (p ∷ ps) x d f h = (f.0, Absent-snoc ps x d f.1 h)

  reserve_write_key-Absent :
      (now : ℕ) (mode : Mode) (x : K × Bool) (xs : List (K × Bool))
      (s : Loop K M (L1OperationResult M))
      → Distinct dec key_of (x ∷ xs)
      → Apart dec (x ∷ xs) s.need_to_allocate
      → Absent s.need_to_allocate s.objects
      → Distinct dec key_of s.need_to_allocate
      → let s' = reserve_write_key dec now mode x s in
        Apart dec xs s'.need_to_allocate
        × Absent s'.need_to_allocate s'.objects
        × Distinct dec key_of s'.need_to_allocate
  unfolding reserve_write_key
  reserve_write_key-Absent now mode x xs s d apart absent distinct = grind (
    arith,
    Apart-snoc dec xs s.need_to_allocate x,
    Absent-snoc s.need_to_allocate x s.objects,
    Distinct-snoc dec s.need_to_allocate x,
    Absent-insert,
  )

  -- What the first loop of `reserve_write` notes is missing, and each key is noted once.
  pub reserve_write-Absent :
      (now : ℕ) (mode : Mode) (xs : List (K × Bool)) (s : Loop K M (L1OperationResult M))
      → Distinct dec key_of xs
      → Apart dec xs s.need_to_allocate
      → Absent s.need_to_allocate s.objects
      → Distinct dec key_of s.need_to_allocate
      → let s' = for_each (reserve_write_key dec now mode) xs s in
        Absent s'.need_to_allocate s'.objects × Distinct dec key_of s'.need_to_allocate
  reserve_write-Absent now mode [] s d apart absent distinct = (absent, distinct)
  reserve_write-Absent now mode (x ∷ xs) s d apart absent distinct =
      let round = reserve_write_key-Absent now mode x xs s d apart absent distinct in
      reserve_write-Absent now mode xs (reserve_write_key dec now mode x s) d.1 round.0 round.1
        round.2

  -- Installing new objects under missing keys adds just these objects to those of the cache.
  pub install-Owned :
      (now write_ttl read_ttl : ℕ) (os : List M) (ps : List (K × Bool)) (new : List M)
      (s : Loop K M (L1OperationResult M))
      → length new ≡ length ps
      → Absent ps s.objects
      → Distinct dec key_of ps
      → Owned dec os s.objects []
      → Owned dec
          (os ++ new)
          (for_each (install_key dec now write_ttl read_ttl) (zip ps new) s).objects
          []
  install-Owned now w r os [] [] s l f d o = rw (append-nil os) o
  install-Owned now w r os [] (n ∷ new) s l f d o = absurd (omega arith)
  install-Owned now w r os (p ∷ ps) [] s l f d o = absurd (omega arith)
  install-Owned now w r os (p ∷ ps) (n ∷ new) s l f d o = rw (← append_assoc os (n ∷ []) new) (
      install-Owned now w r (os ++ (n ∷ [])) ps new (install_key dec now w r (p, n) s) (omega arith)
        (unfold install_key in (Absent-insert p.0 _ ps s.objects d.0 f.1)) d.1
        (unfold install_key in (Owned-insert_new dec os p.0 _ s.objects f.0 o)))

module _ {K : Type 0} (dec : Discrete K) where
  count_key-zip :
      (k : K) (ks : List K) (ts : List Bool)
      → count_key dec (λ (x : K). x) k ks ≡ 0
      → count_key dec key_of k (zip ks ts) ≡ 0
  count_key-zip k [] ts h = refl
  count_key-zip k (x ∷ ks) [] h = refl
  count_key-zip k (x ∷ ks) (t ∷ ts) h = ground (arith, count_key-zip k ks ts)

  pub Distinct-zip :
      (ks : List K) (ts : List Bool)
      → Distinct dec (λ (x : K). x) ks
      → Distinct dec key_of (zip ks ts)
  Distinct-zip [] ts d = tt
  Distinct-zip (x ∷ ks) [] d = tt
  Distinct-zip (x ∷ ks) (t ∷ ts) d = (count_key-zip x ks ts d.0, Distinct-zip ks ts d.1)
