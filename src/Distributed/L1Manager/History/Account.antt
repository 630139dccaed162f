-- ===== src/Distributed/L1Manager/History/Account.antt =====
-- The memory that L1Manager holds, through each of its calls.
use mathlib.Core.List.{append-nil}
use serverless_lmcache.Common.{
  ℕ, ◌<◌, ◌≡◌, refl, sym, ap, subst, Bool, Option, some, List, [], ◌∷◌, arith, for_each,
  for_each_inv, zip, length, Option-cases, Pair-cases, inl, inr, none, ◌⊎◌,
}
use serverless_lmcache.Common.Dict.{Dict, IsUnique}
use serverless_lmcache.Distributed.MemoryManager.{Allocator, AllocatorLaws, allocate, free}
use serverless_lmcache.Distributed.Error.{L1Error, out_of_memory}
use serverless_lmcache.Distributed.L1Manager.{
  L1ObjectState, Listener, Loop, L1OperationResult, start, notify_all,
}
use serverless_lmcache.Distributed.L1Manager.Read.{
  reserve_read, reserve_read_key, finish_read, finish_read_key,
}
use serverless_lmcache.Distributed.L1Manager.Write.{
  Mode, new, update, all, reserve_write_key, refuse_all, install, free_partial, reserve_new,
  reserve_missing, reserve_write, finish_write, finish_write_key,
}
use serverless_lmcache.Distributed.L1Manager.Remove.{delete, delete_key, clear, memory_objs}
use serverless_lmcache.Distributed.L1Manager.Ownership.{
  Owned, Owned-nil, Owned-all, IsUnique-of_Owned, Keeps, for_each-Keeps, reserve_read_key-Keeps,
  finish_read_key-Keeps, reserve_write_key-Keeps, finish_write_key-Keeps, delete_key-Keeps,
}
use serverless_lmcache.Distributed.L1Manager.Fresh.{
  Distinct, Absent, Apart-nil, key_of, reserve_write-Absent, install-Owned, Distinct-zip,
}
use serverless_lmcache.Distributed.L1Manager.History.{
  finishes_read, deletes, state_of, Manager, freed_by,
}

-- The rounds of three loops free nothing.
module _ {K M : Type 0} (dec : Discrete K) (now : ℕ) where
  reserve_read_key-frees :
      (k : K) (s : Loop K M (L1OperationResult M))
      → s.need_to_free ≡ []
      → (reserve_read_key dec now k s).need_to_free ≡ []
  unfolding reserve_read_key
  reserve_read_key-frees k s h = ground arith

  finish_write_key-frees :
      (k : K) (s : Loop K M L1Error)
      → s.need_to_free ≡ []
      → (finish_write_key dec now k s).need_to_free ≡ []
  unfolding finish_write_key
  finish_write_key-frees k s h = ground arith

  reserve_write_key-frees :
      (mode : Mode) (p : K × Bool) (s : Loop K M (L1OperationResult M))
      → s.need_to_free ≡ []
      → (reserve_write_key dec now mode p s).need_to_free ≡ []
  unfolding reserve_write_key
  reserve_write_key-frees mode p s h = ground arith

module _ {K : Type 0} (dec : Discrete K) (a : Allocator) (lis : Listener K) where
  module _ (laws : AllocatorLaws a) where
    -- Each key is in the dictionary once, and the memory that the allocator has handed out is
    -- exactly the memory of the objects in the dictionary.
    pub record WellFormed (m : Manager dec a lis) : Type 0 where
      pub unique : IsUnique dec m.objects
      pub live : laws.Live m.heap (memory_objs m.objects)

    -- The loop moved `dead` out of the cache; freeing it settles the account, or raises as there is
    -- nothing to free.
    settle :
        (m : Manager dec a lis) (objects : Dict K (L1ObjectState a.MemoryObj))
        (dead : List a.MemoryObj)
        → WellFormed m
        → Owned dec (memory_objs m.objects) objects dead
        → ((h : a.Heap) × (free a dead m.heap ≡ some h)
            × IsUnique dec objects
            × laws.Live h (memory_objs objects))
          ⊎ ((free a dead m.heap ≡ none) × (dead ≡ []) × (a.batched_free [] m.heap ≡ none))
    unfolding free
    settle m objects [] wf o =
        let (unique, same) = IsUnique-of_Owned dec _ objects [] o in
        let live = laws.Live-perm m.heap (rw (append-nil (memory_objs objects)) at same) wf.live in
        elim (Option-cases (a.batched_free [] m.heap)) [
          | inl raised ↦ inr (raised, refl, raised)
          | inr (h, freed) ↦ inl (h, freed, unique, laws.free_nothing-Live m.heap live freed)
        ]
    settle m objects (d ∷ dead) wf o =
        let (unique, same) = IsUnique-of_Owned dec _ objects (d ∷ dead) o in
        let (h, freed, live) = laws.free-Live m.heap d dead (laws.Live-perm m.heap same wf.live) in
        inl (h, freed, unique, live)

    loop :
        {R X : Type 0} (body : X → Loop K a.MemoryObj R → Loop K a.MemoryObj R)
        → Keeps dec body
        → (m : Manager dec a lis) (xs : List X) → WellFormed m
        → Owned dec
            (memory_objs m.objects)
            (for_each body xs (start m.objects)).objects
            (for_each body xs (start m.objects)).need_to_free
    loop body keep m xs wf =
        for_each-Keeps dec body keep _ xs (start m.objects) (Owned-nil dec m.objects wf.unique)

    -- A call that frees `dead` returns a well-formed manager, or raises as there is nothing to free.
    unfoldable pub Step-WellFormed :
        List a.MemoryObj → Manager dec a lis → Option (Manager dec a lis) → Type 0
    Step-WellFormed dead m r =
        ((m' : Manager dec a lis) × (r ≡ some m') × WellFormed m')
        ⊎ ((r ≡ none) × (dead ≡ []) × (a.batched_free [] m.heap ≡ none))

    -- A method that frees nothing.
    settle_nil :
        (m : Manager dec a lis) (objects : Dict K (L1ObjectState a.MemoryObj))
        (dead : List a.MemoryObj)
        → dead ≡ []
        → WellFormed m
        → Owned dec (memory_objs m.objects) objects dead
        → IsUnique dec objects × laws.Live m.heap (memory_objs objects)
    settle_nil m objects dead e wf o =
        let (unique, same) = IsUnique-of_Owned dec _ objects dead o in
        (unique, laws.Live-perm m.heap (rw (e, append-nil (memory_objs objects)) at same) wf.live)

    pub reserve_read-WellFormed :
        (now : ℕ) (ks : List K) (m : Manager dec a lis)
        → WellFormed m
        → WellFormed (reserve_read dec a lis now ks m).0
    unfolding reserve_read notify_all
    reserve_read-WellFormed now ks m wf =
        let (unique, live) =
          settle_nil m _ _
            (for_each_inv (λ s. s.need_to_free ≡ []) (reserve_read_key dec now)
              (reserve_read_key-frees dec now) ks (start m.objects) refl)
            wf (loop _ (reserve_read_key-Keeps dec now) m ks wf) in
        record { unique = unique; live = live }

    pub finish_write-WellFormed :
        (now : ℕ) (ks : List K) (m : Manager dec a lis)
        → WellFormed m
        → WellFormed (finish_write dec a lis now ks m).0
    unfolding finish_write notify_all
    finish_write-WellFormed now ks m wf =
        let (unique, live) =
          settle_nil m _ _
            (for_each_inv (λ s. s.need_to_free ≡ []) (finish_write_key dec now)
              (finish_write_key-frees dec now) ks (start m.objects) refl)
            wf (loop _ (finish_write_key-Keeps dec now) m ks wf) in
        record { unique = unique; live = live }

    pub finish_read-WellFormed :
        (now : ℕ) (ks : List K) (m : Manager dec a lis)
        → WellFormed m
        → Step-WellFormed
            (freed_by dec a lis (now, finishes_read ks) m)
            m
            (state_of (finish_read dec a lis now ks m))
    unfolding Step-WellFormed finish_read notify_all
    finish_read-WellFormed now ks m wf =
        let s : Loop K a.MemoryObj L1Error =
          for_each (finish_read_key dec now) ks (start m.objects) in
        elim (settle m s.objects s.need_to_free wf
          (loop _ (finish_read_key-Keeps dec now) m ks wf)) [
            | inl (h, freed, unique, live) ↦
                rw (freed, finish_read) (inl (_, refl, record { unique = unique; live = live }))
            | inr (raised, none_dead, nothing) ↦
                rw (raised, finish_read) (inr (refl, none_dead, nothing))
          ]

    pub delete-WellFormed :
        (now : ℕ) (ks : List K) (m : Manager dec a lis)
        → WellFormed m
        → Step-WellFormed
            (freed_by dec a lis (now, deletes ks) m)
            m
            (state_of (delete dec a lis now ks m))
    unfolding Step-WellFormed delete notify_all
    delete-WellFormed now ks m wf =
        let s : Loop K a.MemoryObj L1Error = for_each (delete_key dec now) ks (start m.objects) in
        elim (settle m s.objects s.need_to_free wf (loop _ (delete_key-Keeps dec now) m ks wf)) [
          | inl (h, freed, unique, live) ↦
              rw (freed, delete) (inl (_, refl, record { unique = unique; live = live }))
          | inr (raised, none_dead, nothing) ↦ rw (raised, delete) (inr (refl, none_dead, nothing))
        ]

    pub clear-WellFormed :
        (m : Manager dec a lis)
        → WellFormed m
        → Step-WellFormed (memory_objs m.objects) m (clear dec a lis m)
    unfolding Step-WellFormed clear free notify_all
    clear-WellFormed m wf =
        elim (settle m [] (memory_objs m.objects) wf (Owned-all dec (memory_objs m.objects))) [
          | inl (h, freed, unique, live) ↦
              rw (freed, clear) (inl (_, refl, record { unique = unique; live = live }))
          | inr (raised, none_dead, nothing) ↦ rw (raised, clear) (inr (refl, none_dead, nothing))
        ]

    refuse_all-objects :
        (now : ℕ) (err : L1Error) (ps : List (K × Bool))
        (s : Loop K a.MemoryObj (L1OperationResult a.MemoryObj))
        → (refuse_all dec now err ps s).objects ≡ s.objects
    unfolding refuse_all
    refuse_all-objects now err ps s =
        for_each_inv (λ t. t.objects ≡ s.objects) _ (λ p t h. h) ps s refl

    moved_heap : {h h' : a.Heap} {os : List a.MemoryObj} → h ≡ h' → laws.Live h' os → laws.Live h os
    moved_heap {os = os} e live = subst (λ h. laws.Live h os) (sym e) live

    reserve_new_cases :
        (now : ℕ) (layout : a.Layout) (m : Manager dec a lis)
        (s : Loop K a.MemoryObj (L1OperationResult a.MemoryObj))
        → WellFormed m
        → Owned dec (memory_objs m.objects) s.objects []
        → Absent dec s.need_to_allocate s.objects
        → Distinct dec key_of s.need_to_allocate
        → 0 < length s.need_to_allocate
        → (r : Option (List a.MemoryObj)) (h : a.Heap)
        → a.batched_allocate layout (length s.need_to_allocate) m.heap ≡ (r, h)
        → Step-WellFormed [] m (state_of (reserve_new dec a lis now layout m s))
    unfolding Step-WellFormed reserve_new allocate install free_partial notify_all
    reserve_new_cases now layout m s wf o absent distinct some_keys none h e =
        let (unique, _) = settle_nil m s.objects [] refl wf o in
        let (_, same) = IsUnique-of_Owned dec _ _ [] o in
        let live = moved_heap (ap (λ p. p.1) e) (
          laws.Live-perm h (rw (append-nil (memory_objs s.objects)) at same)
            (laws.refuse-Live layout _ m.heap wf.live e)) in
        rw (e, reserve_new, allocate, install, free_partial)
          (inl (
            _,
            refl,
            record {
              unique = rw (refuse_all-objects now out_of_memory s.need_to_allocate s) unique;
              live = rw (refuse_all-objects now out_of_memory s.need_to_allocate s) live;
            },
          ))
    reserve_new_cases now layout m s wf o absent distinct some_keys (some objs) h e =
        let (live, count) = laws.allocate-Live layout _ m.heap wf.live some_keys e in
        let installed =
          install-Owned dec now m.write_ttl_seconds m.read_ttl_seconds (memory_objs m.objects)
            s.need_to_allocate objs s count absent distinct o in
        let (unique, same) = IsUnique-of_Owned dec _ _ [] installed in
        rw (e, reserve_new, allocate, install)
          (inl (
            _,
            refl,
            record {
              unique = unique;
              live =
                  moved_heap (ap (λ p. p.1) e)
                    (laws.Live-perm h (rw (append-nil (memory_objs _)) at same) live);
            },
          ))

    reserve_new-WellFormed :
        (now : ℕ) (layout : a.Layout) (m : Manager dec a lis)
        (s : Loop K a.MemoryObj (L1OperationResult a.MemoryObj))
        → WellFormed m
        → Owned dec (memory_objs m.objects) s.objects []
        → Absent dec s.need_to_allocate s.objects
        → Distinct dec key_of s.need_to_allocate
        → 0 < length s.need_to_allocate
        → Step-WellFormed [] m (state_of (reserve_new dec a lis now layout m s))
    reserve_new-WellFormed now layout m s wf o absent distinct some_keys =
        let (r, h, e) = Pair-cases (a.batched_allocate layout (length s.need_to_allocate) m.heap) in
        reserve_new_cases now layout m s wf o absent distinct some_keys r h e

    reserve_missing-WellFormed :
        (now : ℕ) (mode : Mode) (layout : a.Layout) (m : Manager dec a lis) (ps : List (K × Bool))
        (s : Loop K a.MemoryObj (L1OperationResult a.MemoryObj))
        → WellFormed m
        → Owned dec (memory_objs m.objects) s.objects []
        → Absent dec s.need_to_allocate s.objects
        → Distinct dec key_of s.need_to_allocate
        → length ps ≡ length s.need_to_allocate
        → Step-WellFormed [] m (state_of (reserve_missing dec a lis now mode layout m ps s))
    unfolding Step-WellFormed reserve_missing
    reserve_missing-WellFormed now mode layout m [] s wf o absent distinct keys =
        let (unique, live) = settle_nil m s.objects [] refl wf o in
        inl (_, refl, record { unique = unique; live = live })
    reserve_missing-WellFormed now update layout m (p ∷ ps) s wf o absent distinct keys =
        let (unique, live) = settle_nil m s.objects [] refl wf o in
        inl (_, refl, record { unique = unique; live = live })
    reserve_missing-WellFormed now new layout m (p ∷ ps) s wf o absent distinct keys =
        reserve_new-WellFormed now layout m s wf o absent distinct (omega arith)
    reserve_missing-WellFormed now all layout m (p ∷ ps) s wf o absent distinct keys =
        reserve_new-WellFormed now layout m s wf o absent distinct (omega arith)

    pub reserve_write-WellFormed :
        (now : ℕ) (ks : List K) (ts : List Bool) (layout : a.Layout) (mode : Mode)
        (m : Manager dec a lis)
        → Distinct dec (λ (k : K). k) ks
        → WellFormed m
        → Step-WellFormed [] m (state_of (reserve_write dec a lis now ks ts layout mode m))
    unfolding Step-WellFormed reserve_write
    reserve_write-WellFormed now ks ts layout mode m d wf =
        let s : Loop K a.MemoryObj (L1OperationResult a.MemoryObj) =
          for_each (reserve_write_key dec now mode) (zip ks ts) (start m.objects) in
        let (absent, distinct) =
          reserve_write-Absent dec now mode (zip ks ts) (start m.objects) (Distinct-zip dec ks ts d)
            (Apart-nil dec (zip ks ts)) tt tt in
        let frees =
          for_each_inv (λ s. s.need_to_free ≡ []) _ (reserve_write_key-frees dec now mode)
            (zip ks ts) (start m.objects) refl in
        reserve_missing-WellFormed now mode layout m s.need_to_allocate s wf
          (subst (Owned dec (memory_objs m.objects) s.objects) frees
            (loop _ (reserve_write_key-Keeps dec now mode) m (zip ks ts) wf))
          absent distinct refl
