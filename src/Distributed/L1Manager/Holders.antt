-- ===== src/Distributed/L1Manager/Holders.antt =====
-- How many readers hold an object: `reserve_read` and `finish_read` count them.
use serverless_lmcache.Common.{
  ℕ, zero, suc, ◌+◌, ◌≤◌, ◌<◌, ◌≡◌, refl, true, false, ap, ◌∙◌, ◌⊎◌, Option, none, some, List,
  arith, iterate, count, inl,
}
use serverless_lmcache.Common.Dict.{Dict, get}
use serverless_lmcache.Distributed.Error.{L1Error, success}
use serverless_lmcache.Distributed.TtlLock.{
  TtlLock, is_locked, lock, unlock, holders, is_locked-holders, holders-iterate-lock,
  holders-iterate-unlock, holders-unlock, holders_later,
}
use serverless_lmcache.Distributed.MemoryManager.{Allocator}
use serverless_lmcache.Distributed.L1Manager.{
  L1ObjectState, available_for_read, L1Manager, Listener, L1OperationResult, notify_all,
}
use serverless_lmcache.Distributed.L1Manager.Loops.{replies, objects-start, ret-start}
use serverless_lmcache.Distributed.L1Manager.Object.{
  reserve_read_act, reserve_read_reply, reserve_read-IsLocal, finish_read_act, finish_read_reply,
  finish_read-IsLocal,
}
use serverless_lmcache.Distributed.L1Manager.Read.{reserve_read, finish_read}
use serverless_lmcache.Distributed.L1Manager.Guard.{finish_read-eq-some}

still_unlocked :
    (now later : ℕ) (l : TtlLock)
    → now ≤ later
    → is_locked now l ≡ false
    → is_locked later l ≡ false
unfolding is_locked
still_unlocked now later l h p = ground arith

module _ {M : Type 0} (now : ℕ) where
  iterate-reserve_read_act :
      (n : ℕ) (e : L1ObjectState M)
      → available_for_read now e ≡ true
      → iterate n (reserve_read_act now) (some e)
        ≡ some (record e { read_lock = iterate n (lock now) e.read_lock })
  unfolding available_for_read
  iterate-reserve_read_act zero e h = refl
  iterate-reserve_read_act (suc n) e h =
      rw h (iterate-reserve_read_act n (record e { read_lock = lock now e.read_lock }) h)

  pub replies-reserve_read :
      (n : ℕ) (e : L1ObjectState M) (r : Option (L1OperationResult M))
      → available_for_read now e ≡ true
      → 0 < n
      → replies (reserve_read_act now) (λ x _. some (reserve_read_reply now x)) n (some e) r
        ≡ some (success, some e.memory_obj)
  unfolding available_for_read
  replies-reserve_read zero e r h p = elim p [ ]
  replies-reserve_read (suc zero) e r h p = rw h
  replies-reserve_read (suc (suc n)) e r h p = rw h (
      replies-reserve_read (suc n) (record e { read_lock = lock now e.read_lock })
        (some (success, some e.memory_obj)) h (omega arith))

  pub iterate-finish_read_act :
      (n : ℕ) (e : L1ObjectState M)
      → is_locked now e.write_lock ≡ false
      → n ≤ holders now e.read_lock
      → (e.is_temporary ≡ false) ⊎ (n < holders now e.read_lock)
      → iterate n (finish_read_act now) (some e)
        ≡ some (record e { read_lock = iterate n unlock e.read_lock })
  iterate-finish_read_act zero e w h t = refl
  iterate-finish_read_act (suc n) e w h t =
      let e' : L1ObjectState M = record e { read_lock = unlock e.read_lock } in
      let stays : finish_read_act now (some e) ≡ some e' = ground (
        arith,
        is_locked-holders now e.read_lock,
        is_locked-holders now (unlock e.read_lock),
        holders-unlock now e.read_lock,
      ) in
      ap (iterate n (finish_read_act now)) stays
      ∙ iterate-finish_read_act n e' w (omega (arith, holders-unlock now e.read_lock))
          (ground (arith, holders-unlock now e.read_lock))

  -- The last of the readers of a temporary object takes it away.
  iterate-finish_read_act_temporary :
      (n : ℕ) (e : L1ObjectState M)
      → is_locked now e.write_lock ≡ false
      → suc n ≡ holders now e.read_lock
      → e.is_temporary ≡ true
      → iterate (suc n) (finish_read_act now) (some e) ≡ none
  iterate-finish_read_act_temporary zero e w h t = ground (
    arith,
    is_locked-holders now e.read_lock,
    is_locked-holders now (unlock e.read_lock),
    holders-unlock now e.read_lock,
  )
  iterate-finish_read_act_temporary (suc n) e w h t =
      let e' : L1ObjectState M = record e { read_lock = unlock e.read_lock } in
      let stays : finish_read_act now (some e) ≡ some e' = ground (
        arith,
        is_locked-holders now e.read_lock,
        is_locked-holders now (unlock e.read_lock),
        holders-unlock now e.read_lock,
      ) in
      ap (iterate (suc n) (finish_read_act now)) stays
      ∙ iterate-finish_read_act_temporary n e' w (omega (arith, holders-unlock now e.read_lock)) t

  replies-finish_read :
      (n : ℕ) (e : L1ObjectState M) (r : Option L1Error)
      → is_locked now e.write_lock ≡ false
      → n ≤ holders now e.read_lock
      → 0 < n
      → replies (finish_read_act now) (λ x _. some (finish_read_reply now x)) n (some e) r
        ≡ some success
  replies-finish_read zero e r w h p = elim p [ ]
  replies-finish_read (suc zero) e r w h p = ground (arith, is_locked-holders now e.read_lock)
  replies-finish_read (suc (suc n)) e r w h p =
      let e' : L1ObjectState M = record e { read_lock = unlock e.read_lock } in
      let stays : finish_read_act now (some e) ≡ some e' = ground (
        arith,
        is_locked-holders now e.read_lock,
        is_locked-holders now (unlock e.read_lock),
        holders-unlock now e.read_lock,
      ) in
      ap
        (λ x.
          replies (finish_read_act now) (λ y _. some (finish_read_reply now y)) (suc n) x
            (some (finish_read_reply now (some e))))
        stays
      ∙ replies-finish_read (suc n) e' (some (finish_read_reply now (some e))) w
          (omega (arith, holders-unlock now e.read_lock)) (omega arith)

-- Everything of an object but its read lock.
abbrev pub SameButReaders : {M : Type 0} → L1ObjectState M → L1ObjectState M → Type 0
SameButReaders e e' =
    (e'.memory_obj ≡ e.memory_obj)
    × (e'.write_lock ≡ e.write_lock)
    × (e'.is_temporary ≡ e.is_temporary)

module _ {K : Type 0} (dec : Discrete K) (a : Allocator) (lis : Listener K) where
  module _ (now : ℕ) (ks : List K) (m : L1Manager K a.MemoryObj a.Heap lis.State) (j : K)
      (e : L1ObjectState a.MemoryObj) (there : get dec j m.objects ≡ some e)
      (readable : available_for_read now e ≡ true) where
    pub reserved :
        get dec j (reserve_read dec a lis now ks m).0.objects
        ≡ some (record e { read_lock = iterate (count dec j ks) (lock now) e.read_lock })
    unfolding reserve_read notify_all
    reserved =
        objects-start dec (λ k. k) (reserve_read-IsLocal {M = a.MemoryObj} dec now) j ks m.objects
          there
        ∙ iterate-reserve_read_act now (count dec j ks) e readable

    -- After a `reserve_read`, a readable object whose locks live for some time has one more reader
    -- for each time that its key was asked for, at least once; nothing else of it changes, and the
    -- caller gets success and its memory object.
    pub holders-reserve_read :
        0 < e.read_lock.ttl_ms
        → 0 < count dec j ks
        → (e' : L1ObjectState a.MemoryObj) × (get dec j (reserve_read dec a lis now ks m).0.objects
            ≡ some e')
          × (holders now e'.read_lock ≡ holders now e.read_lock + count dec j ks)
          × SameButReaders e e'
          × (get dec j (reserve_read dec a lis now ks m).1 ≡ some (success, some e.memory_obj))
    unfolding reserve_read
    holders-reserve_read ttl asked = (
      record e { read_lock = iterate (count dec j ks) (lock now) e.read_lock },
      reserved,
      holders-iterate-lock now (count dec j ks) e.read_lock ttl,
      (refl, refl, refl),
      ret-start dec (λ k. k) (reserve_read-IsLocal {M = a.MemoryObj} dec now) j ks m.objects there
          ∙ replies-reserve_read now (count dec j ks) e none readable asked,
    )

    module _ (later : ℕ) (asked : 0 < count dec j ks) (after : now ≤ later)
        (before : later < now + e.read_lock.ttl_ms) {m' : L1Manager K a.MemoryObj a.Heap lis.State}
        {ret : Dict K L1Error}
        (ran : finish_read dec a lis later ks (reserve_read dec a lis now ks m).0
          ≡ some (m', ret)) where
      counted :
          holders later (iterate (count dec j ks) (lock now) e.read_lock)
          ≡ holders now e.read_lock + count dec j ks
      counted = holders_later now later (count dec j ks) e.read_lock asked after before

      finished :
          (get dec j m'.objects
            ≡ iterate
                (count dec j ks)
                (finish_read_act later)
                (some (record e { read_lock = iterate (count dec j ks) (lock now) e.read_lock })))
          × (get dec j ret ≡ some success)
      unfolding available_for_read
      finished =
          let n = count dec j ks in
          let e1 : L1ObjectState a.MemoryObj = record e {
            read_lock = iterate n (lock now) e.read_lock;
          } in
          let unwritten : is_locked later e.write_lock ≡ false =
            still_unlocked now later e.write_lock after (ground (arith, readable)) in
          let (objects, rets) =
            finish_read-eq-some dec a lis later ks (reserve_read dec a lis now ks m).0 ran in
          (
            ap (get dec j) objects
                ∙ objects-start dec (λ k. k) (finish_read-IsLocal {M = a.MemoryObj} dec later) j ks
                    _ reserved,
            ap (get dec j) rets
                ∙ ret-start dec (λ k. k) (finish_read-IsLocal {M = a.MemoryObj} dec later) j ks _
                    reserved
                ∙ replies-finish_read later n e1 none unwritten (omega (arith, counted)) asked,
          )

      -- For a readable object that is not temporary, a `finish_read` that returns, with the keys
      -- of the `reserve_read` before it and before the read locks run out, succeeds for its key
      -- and leaves the object with the readers that it had before the two calls; nothing else of
      -- it changes.
      pub finish_read-reserve_read :
          e.is_temporary ≡ false
          → (e' : L1ObjectState a.MemoryObj) × (get dec j m'.objects ≡ some e')
            × (holders later e'.read_lock ≡ holders now e.read_lock)
            × SameButReaders e e'
            × (get dec j ret ≡ some success)
      unfolding available_for_read
      finish_read-reserve_read lasting =
          let n = count dec j ks in
          let e1 : L1ObjectState a.MemoryObj = record e {
            read_lock = iterate n (lock now) e.read_lock;
          } in
          (
            record e1 { read_lock = iterate n unlock e1.read_lock },
            finished.0
                ∙ iterate-finish_read_act later n e1
                    (still_unlocked now later e.write_lock after (ground (arith, readable)))
                    (omega (arith, counted)) (inl lasting),
            omega (arith, holders-iterate-unlock later n e1.read_lock, counted),
            (refl, refl, refl),
            finished.1,
          )

      -- A readable temporary object that nobody was reading is gone after a `reserve_read` and a
      -- `finish_read` that returns, with the same keys and before the read locks run out, and the
      -- latter reports success.
      pub finish_read-reserve_read_temporary :
          e.is_temporary ≡ true
          → holders now e.read_lock ≡ 0
          → (get dec j m'.objects ≡ none) × (get dec j ret ≡ some success)
      unfolding available_for_read
      finish_read-reserve_read_temporary temporary idle =
          (finished.0 ∙ gone (count dec j ks) asked (omega (arith, counted)) temporary, finished.1)
        where
          e1 : L1ObjectState a.MemoryObj
          e1 = record e { read_lock = iterate (count dec j ks) (lock now) e.read_lock }

          gone :
              (k : ℕ)
              → 0 < k
              → k ≡ holders later e1.read_lock
              → e.is_temporary ≡ true
              → iterate k (finish_read_act later) (some e1) ≡ none
          gone zero p q t = elim p [ ]
          gone (suc k) p q t =
              iterate-finish_read_act_temporary later k e1
                (still_unlocked now later e.write_lock after (ground (arith, readable))) q t
