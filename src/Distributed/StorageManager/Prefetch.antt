-- ===== src/Distributed/StorageManager/Prefetch.antt =====
-- `submit_prefetch_task`: how many chunks it reports, and the read locks that it leaves behind.
use serverless_lmcache.Common.{
  ℕ, suc, ◌+◌, ◌≤◌, ◌<◌, ◌≡◌, refl, sym, ap, ◌∙◌, inl, inr, Bool, true, false, Bool-cases,
  if◌then◌else◌, Option, none, some, List, [], ◌∷◌, arith, take, drop, take-append-drop, iterate,
  count, count-append, Option-cases,
}
use serverless_lmcache.Common.Dict.{Dict, get}
use serverless_lmcache.Distributed.Error.{key_not_readable}
use serverless_lmcache.Distributed.TtlLock.{
  lock, unlock, holders, holders-iterate-lock, holders-iterate-unlock,
}
use serverless_lmcache.Distributed.MemoryManager.{Allocator}
use serverless_lmcache.Distributed.L1Manager.{
  L1ObjectState, available_for_read, L1Manager, Listener, L1OperationResult,
}
use serverless_lmcache.Distributed.L1Manager.Loops.{
  replies, objects-start, ret-start, replies_fixed,
}
use serverless_lmcache.Distributed.L1Manager.Object.{
  Entry, reserve_read_act, reserve_read_reply, reserve_read-IsLocal, finish_read_act,
  finish_read-IsLocal,
}
use serverless_lmcache.Distributed.L1Manager.Read.{reserve_read, finish_read}
use serverless_lmcache.Distributed.L1Manager.Guard.{finish_read-eq-some}
use serverless_lmcache.Distributed.L1Manager.Holders.{
  SameButReaders, reserved, replies-reserve_read, iterate-finish_read_act,
}
use serverless_lmcache.Distributed.StorageManager.{
  PrefetchHandle, is_success, has_obj, count_hits, skipped_keys, release, release_skipped,
  submit_prefetch_task,
}

module _ {M : Type 0} (now : ℕ) where
  -- An object that a reader gets.
  abbrev pub is_readable : Entry M → Bool
  is_readable none = false
  is_readable (some e) = available_for_read now e

  -- What is reported on a key that is asked for at least once.
  replies-read :
      (n : ℕ) (x : Entry M) (r : Option (L1OperationResult M))
      → 0 < n
      → (is_success (replies (reserve_read_act now) (λ y _. some (reserve_read_reply now y)) n x r)
          ≡ is_readable x)
        × (has_obj (replies (reserve_read_act now) (λ y _. some (reserve_read_reply now y)) n x r)
            ≡ is_readable x)
  replies-read n none r h =
      let e =
        replies_fixed (reserve_read_act now) none refl (λ y _. some (reserve_read_reply now y)) _
          (λ r. refl) n r h in
      rw e (refl, refl)
  replies-read n (some o) r h = elim (Bool-cases (available_for_read now o)) [
    | inl y ↦ rw (replies-reserve_read now n o r y h, y) (refl, refl)
    | inr f ↦
        let e =
          replies_fixed (reserve_read_act now) (some o) (rw f)
            (λ y _. some (reserve_read_reply now y)) (key_not_readable, none) (λ r. rw f) n r h in
        rw (e, f) (refl, refl)
  ]

-- The longest prefix of keys whose objects a reader gets.
abbrev pub readable_prefix : {K M : Type 0} → Discrete K → ℕ → Dict K (L1ObjectState M) → List K → ℕ
readable_prefix dec now d [] = 0
readable_prefix dec now d (k ∷ ks) =
    if is_readable now (get dec k d) then suc (readable_prefix dec now d ks) else 0

module _ {K : Type 0} (dec : Discrete K) (a : Allocator) (lis : Listener K) (now : ℕ) where
  -- The report on a key of the list.
  ret-reserve_read :
      (ks : List K) (m : L1Manager K a.MemoryObj a.Heap lis.State) (j : K)
      → 0 < count dec j ks
      → (is_success (get dec j (reserve_read dec a lis now ks m).1)
          ≡ is_readable now (get dec j m.objects))
        × (has_obj (get dec j (reserve_read dec a lis now ks m).1)
            ≡ is_readable now (get dec j m.objects))
  unfolding reserve_read
  ret-reserve_read ks m j h =
      let e =
        ret-start dec (λ k. k) (reserve_read-IsLocal {M = a.MemoryObj} dec now) j ks m.objects
          refl in
      rw e (replies-read now (count dec j ks) (get dec j m.objects) none h)

  module _ (ret : Dict K (L1OperationResult a.MemoryObj)) (d : Dict K (L1ObjectState a.MemoryObj))
      (all : List K)
      (reported : (j : K)
        → 0 < count dec j all
        → (is_success (get dec j ret) ≡ is_readable now (get dec j d))
          × (has_obj (get dec j ret) ≡ is_readable now (get dec j d))) where
    count_hits-prefix :
        (ks : List K)
        → ((j : K) → count dec j ks ≤ count dec j all)
        → count_hits dec ret ks ≡ readable_prefix dec now d ks
    unfolding count_hits
    count_hits-prefix [] h = refl
    count_hits-prefix (k ∷ ks) h =
        let here = h k in
        let e = (reported k (ground arith)).0 in
        rw e (
          ap (λ n. if is_readable now (get dec k d) then suc n else 0)
            (count_hits-prefix ks (λ j. let hj = h j in ground arith)))

    count-skipped_keys :
        (j : K) (ks : List K)
        → ((j : K) → count dec j ks ≤ count dec j all)
        → is_readable now (get dec j d) ≡ true
        → count dec j (skipped_keys dec ret ks) ≡ count dec j ks
    unfolding skipped_keys
    count-skipped_keys j [] h r = refl
    count-skipped_keys j (k ∷ ks) h r =
        let here = h k in
        let e = (reported k (ground arith)).1 in
        let ih = count-skipped_keys j ks (λ i. let hi = h i in ground arith) r in ground arith

  release_skipped-objects :
      (ks : List K) (m : L1Manager K a.MemoryObj a.Heap lis.State) (j : K)
      {m' : L1Manager K a.MemoryObj a.Heap lis.State} {e : Entry a.MemoryObj}
      → release_skipped dec a lis now ks m ≡ some m'
      → get dec j m.objects ≡ e
      → get dec j m'.objects ≡ iterate (count dec j ks) (finish_read_act now) e
  unfolding release_skipped release
  release_skipped-objects [] m j h there = ground arith
  release_skipped-objects (k ∷ ks) m j {m'} h there =
      elim (Option-cases (finish_read dec a lis now (k ∷ ks) m)) [
        | inl raised ↦ absurd (ground arith)
        | inr ((m1, ret), ran) ↦
            let same : m1 ≡ m' = ground arith in
            rw (← same, (finish_read-eq-some dec a lis now (k ∷ ks) m ran).0)
              (objects-start dec (λ k. k) (finish_read-IsLocal {M = a.MemoryObj} dec now) j (k ∷ ks)
                m.objects there)
      ]

  module _ (ks : List K) (m : L1Manager K a.MemoryObj a.Heap lis.State)
      {m' : L1Manager K a.MemoryObj a.Heap lis.State} {handle : PrefetchHandle}
      (ran : submit_prefetch_task dec a lis now ks m ≡ some (m', handle)) where
    submitted :
        (handle.prefix_hit_chunks ≡ readable_prefix dec now m.objects ks)
        × (release_skipped dec a lis now
              (skipped_keys dec
                (reserve_read dec a lis now ks m).1
                (drop (readable_prefix dec now m.objects ks) ks))
              (reserve_read dec a lis now ks m).0
            ≡ some m')
    unfolding submit_prefetch_task
    submitted =
        let hits =
          count_hits-prefix (reserve_read dec a lis now ks m).1 m.objects ks (ret-reserve_read ks m)
            ks (λ j. omega arith) in
        ground arith

    -- When a prefetch returns, its handle counts the keys up to the first whose object is missing
    -- or being written.
    pub prefix_hit_chunks-submit_prefetch_task :
        handle.prefix_hit_chunks ≡ readable_prefix dec now m.objects ks
    prefix_hit_chunks-submit_prefetch_task = submitted.0

    -- When a prefetch returns, a readable object that is not temporary and whose locks live for
    -- some time has one more reader for each time that its key stands among the counted prefix of
    -- the keys, and no more; nothing else of it changes.
    pub holders-submit_prefetch_task :
        (j : K) (e : L1ObjectState a.MemoryObj)
        → get dec j m.objects ≡ some e
        → available_for_read now e ≡ true
        → e.is_temporary ≡ false
        → 0 < e.read_lock.ttl_ms
        → (e' : L1ObjectState a.MemoryObj) × (get dec j m'.objects ≡ some e')
          × (holders now e'.read_lock
              ≡ holders now e.read_lock + count dec j (take handle.prefix_hit_chunks ks))
          × SameButReaders e e'
    unfolding available_for_read
    holders-submit_prefetch_task j e there readable lasting ttl = (
      record e1 { read_lock = iterate skipped unlock e1.read_lock },
      release_skipped-objects _ _ j submitted.1 (reserved dec a lis now ks m j e there readable)
          ∙ iterate-finish_read_act now skipped e1 (ground (arith, readable)) enough (inl lasting),
      rw submitted.0
          (omega (arith, holders-iterate-unlock now skipped e1.read_lock, counted, parts, skips)),
      (refl, refl, refl),
    )
      where
        hits : ℕ
        hits = readable_prefix dec now m.objects ks

        skipped : ℕ
        skipped = count dec j (skipped_keys dec (reserve_read dec a lis now ks m).1 (drop hits ks))

        e1 : L1ObjectState a.MemoryObj
        e1 = record e { read_lock = iterate (count dec j ks) (lock now) e.read_lock }

        counted : holders now e1.read_lock ≡ holders now e.read_lock + count dec j ks
        counted = holders-iterate-lock now (count dec j ks) e.read_lock ttl

        split : (i : K) → count dec i (take hits ks) + count dec i (drop hits ks) ≡ count dec i ks
        split i =
            sym (count-append dec i (take hits ks) (drop hits ks))
            ∙ ap (count dec i) (take-append-drop hits ks)

        parts : count dec j (take hits ks) + count dec j (drop hits ks) ≡ count dec j ks
        parts = split j

        skips : skipped ≡ count dec j (drop hits ks)
        skips =
            count-skipped_keys (reserve_read dec a lis now ks m).1 m.objects ks
              (ret-reserve_read ks m) j (drop hits ks) (λ i. omega (arith, split i))
              (rw there readable)

        enough : skipped ≤ holders now e1.read_lock
        enough = omega (arith, counted, parts, skips)
