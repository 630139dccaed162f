-- ===== src/Distributed/L1Manager/Guard.antt =====
-- Which calls a locked object refuses, and what an expired lock lets through.
use serverless_lmcache.Common.{
  ℕ, ◌<◌, ◌≡◌, true, ◌||◌, ◌⊎◌, inl, inr, Option-cases, Option, none, some, List, arith, for_each,
  count,
}
use serverless_lmcache.Common.Dict.{Dict, get}
use serverless_lmcache.Distributed.Error.{
  L1Error, key_not_readable, key_in_wrong_state, key_is_locked,
}
use serverless_lmcache.Distributed.TtlLock.{is_locked}
use serverless_lmcache.Distributed.MemoryManager.{Allocator, free}
use serverless_lmcache.Distributed.L1Manager.{
  L1ObjectState, available_for_read, L1Manager, Listener, start, notify_all,
}
use serverless_lmcache.Distributed.L1Manager.Loops.{for_each_fixed}
use serverless_lmcache.Distributed.L1Manager.Object.{
  reserve_read-IsLocal, finish_read-IsLocal, finish_write-IsLocal, delete-IsLocal,
}
use serverless_lmcache.Distributed.L1Manager.Read.{reserve_read, finish_read, finish_read_key}
use serverless_lmcache.Distributed.L1Manager.Write.{finish_write}
use serverless_lmcache.Distributed.L1Manager.Remove.{delete, delete_key}

module _ {K : Type 0} (dec : Discrete K) (a : Allocator) (lis : Listener K) (now : ℕ) where
  pub finish_read-eq-some :
      (ks : List K) (m : L1Manager K a.MemoryObj a.Heap lis.State)
      {m' : L1Manager K a.MemoryObj a.Heap lis.State} {ret : Dict K L1Error}
      → finish_read dec a lis now ks m ≡ some (m', ret)
      → (m'.objects ≡ (for_each (finish_read_key dec now) ks (start m.objects)).objects)
        × (ret ≡ (for_each (finish_read_key dec now) ks (start m.objects)).ret)
  unfolding finish_read notify_all
  finish_read-eq-some ks m h = ground arith

  pub delete-eq-some :
      (ks : List K) (m : L1Manager K a.MemoryObj a.Heap lis.State)
      {m' : L1Manager K a.MemoryObj a.Heap lis.State} {ret : Dict K L1Error}
      → delete dec a lis now ks m ≡ some (m', ret)
      → (m'.objects ≡ (for_each (delete_key dec now) ks (start m.objects)).objects)
        × (ret ≡ (for_each (delete_key dec now) ks (start m.objects)).ret)
  unfolding delete notify_all
  delete-eq-some ks m h = ground arith

  -- A call raises only where the allocator raises, at the objects that the loop wants freed.
  finish_read-eq-none :
      (ks : List K) (m : L1Manager K a.MemoryObj a.Heap lis.State)
      → finish_read dec a lis now ks m ≡ none
      → free a (for_each (finish_read_key dec now) ks (start m.objects)).need_to_free m.heap ≡ none
  unfolding finish_read notify_all
  finish_read-eq-none ks m h =
      let dead = (for_each (finish_read_key dec now) ks (start m.objects)).need_to_free in
      elim (Option-cases (free a dead m.heap)) [
        | inl raised ↦ raised
        | inr (heap, freed) ↦ absurd (ground (arith, h, freed))
      ]

  delete-eq-none :
      (ks : List K) (m : L1Manager K a.MemoryObj a.Heap lis.State)
      → delete dec a lis now ks m ≡ none
      → free a (for_each (delete_key dec now) ks (start m.objects)).need_to_free m.heap ≡ none
  unfolding delete notify_all
  delete-eq-none ks m h =
      let dead = (for_each (delete_key dec now) ks (start m.objects)).need_to_free in
      elim (Option-cases (free a dead m.heap)) [
        | inl raised ↦ raised
        | inr (heap, freed) ↦ absurd (ground (arith, h, freed))
      ]

  module _ (ks : List K) (m : L1Manager K a.MemoryObj a.Heap lis.State) (j : K)
      (e : L1ObjectState a.MemoryObj) (there : get dec j m.objects ≡ some e)
      (asked : 0 < count dec j ks) where
    reserve_read_refused :
        is_locked now e.write_lock ≡ true
        → (get dec j (reserve_read dec a lis now ks m).0.objects ≡ some e)
          × (get dec j (reserve_read dec a lis now ks m).1 ≡ some (key_not_readable, none))
    unfolding reserve_read notify_all available_for_read
    reserve_read_refused h =
        for_each_fixed dec (λ k. k) (reserve_read-IsLocal {M = a.MemoryObj} dec now) j ks
          (start m.objects) (some e) _ (ground arith) (λ r. ground arith) there asked

    finish_read_refused :
        is_locked now e.write_lock ≡ true
        → {m' : L1Manager K a.MemoryObj a.Heap lis.State} {ret : Dict K L1Error}
        → finish_read dec a lis now ks m ≡ some (m', ret)
        → (get dec j m'.objects ≡ some e) × (get dec j ret ≡ some key_in_wrong_state)
    finish_read_refused h ran =
        let (objects, rets) = finish_read-eq-some ks m ran in
        rw (objects, rets)
          (for_each_fixed dec (λ k. k) (finish_read-IsLocal {M = a.MemoryObj} dec now) j ks
            (start m.objects) (some e) _ (ground arith) (λ r. ground arith) there asked)

    delete_refused :
        (is_locked now e.read_lock || is_locked now e.write_lock) ≡ true
        → {m' : L1Manager K a.MemoryObj a.Heap lis.State} {ret : Dict K L1Error}
        → delete dec a lis now ks m ≡ some (m', ret)
        → (get dec j m'.objects ≡ some e) × (get dec j ret ≡ some key_is_locked)
    delete_refused h ran =
        let (objects, rets) = delete-eq-some ks m ran in
        rw (objects, rets)
          (for_each_fixed dec (λ k. k) (delete-IsLocal {M = a.MemoryObj} dec now) j ks
            (start m.objects) (some e) _ (ground arith) (λ r. ground arith) there asked)

    finish_write_refused :
        is_locked now e.read_lock ≡ true
        → (get dec j (finish_write dec a lis now ks m).0.objects ≡ some e)
          × (get dec j (finish_write dec a lis now ks m).1 ≡ some key_in_wrong_state)
    unfolding finish_write notify_all
    finish_write_refused h =
        for_each_fixed dec (λ k. k) (finish_write-IsLocal {M = a.MemoryObj} dec now) j ks
          (start m.objects) (some e) _ (ground arith) (λ r. ground arith) there asked

    -- A call that raises as the allocator raises at the objects to be freed, `dead`, or returns, refuses
    -- the key with an error and leaves its object as it is.
    abbrev pub Refuses :
        Option (L1Manager K a.MemoryObj a.Heap lis.State × Dict K L1Error)
        → List a.MemoryObj
        → L1Error
        → Type 0
    Refuses r dead err =
        ((r ≡ none) × (free a dead m.heap ≡ none))
        ⊎ ((m' : L1Manager K a.MemoryObj a.Heap lis.State) × (ret : Dict K L1Error) × (r
              ≡ some (m', ret))
            × (get dec j m'.objects ≡ some e)
            × (get dec j ret ≡ some err))

    finish_read-Refuses :
        is_locked now e.write_lock ≡ true
        → Refuses
            (finish_read dec a lis now ks m)
            (for_each (finish_read_key dec now) ks (start m.objects)).need_to_free
            key_in_wrong_state
    finish_read-Refuses h = elim (Option-cases (finish_read dec a lis now ks m)) [
      | inl raised ↦ inl (raised, finish_read-eq-none ks m raised)
      | inr ((m', ret), ran) ↦
          let (object, err) = finish_read_refused h ran in inr (m', ret, ran, object, err)
    ]

    delete-Refuses :
        (is_locked now e.read_lock || is_locked now e.write_lock) ≡ true
        → Refuses
            (delete dec a lis now ks m)
            (for_each (delete_key dec now) ks (start m.objects)).need_to_free
            key_is_locked
    delete-Refuses h = elim (Option-cases (delete dec a lis now ks m)) [
      | inl raised ↦ inl (raised, delete-eq-none ks m raised)
      | inr ((m', ret), ran) ↦
          let (object, err) = delete_refused h ran in inr (m', ret, ran, object, err)
    ]

    -- While the object of a key is write-locked, a `reserve_read` that names the key refuses it
    -- with its error and leaves the object as it is. A `finish_read` and a `delete` that name it
    -- each do so with their error too, or raise, since the allocator raises at the objects that
    -- the call wants freed.
    pub writer_excludes :
        is_locked now e.write_lock ≡ true
        → ((get dec j (reserve_read dec a lis now ks m).0.objects ≡ some e)
            × (get dec j (reserve_read dec a lis now ks m).1 ≡ some (key_not_readable, none)))
          × Refuses
              (finish_read dec a lis now ks m)
              (for_each (finish_read_key dec now) ks (start m.objects)).need_to_free
              key_in_wrong_state
          × Refuses
              (delete dec a lis now ks m)
              (for_each (delete_key dec now) ks (start m.objects)).need_to_free
              key_is_locked
    writer_excludes h =
        (reserve_read_refused h, finish_read-Refuses h, delete-Refuses (ground (arith, h)))

    -- While the object of a key has a reader, a `finish_write` that names the key refuses it with
    -- its error and leaves the object as it is. A `delete` that names it does so with its error
    -- too, or raises, since the allocator raises at the objects that the call wants freed.
    pub reader_excludes :
        is_locked now e.read_lock ≡ true
        → ((get dec j (finish_write dec a lis now ks m).0.objects ≡ some e)
            × (get dec j (finish_write dec a lis now ks m).1 ≡ some key_in_wrong_state))
          × Refuses
              (delete dec a lis now ks m)
              (for_each (delete_key dec now) ks (start m.objects)).need_to_free
              key_is_locked
    reader_excludes h = (finish_write_refused h, delete-Refuses (ground (arith, h)))
