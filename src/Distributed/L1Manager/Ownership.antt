-- ===== src/Distributed/L1Manager/Ownership.antt =====
-- The memory objects that the cache holds, through the writes to its dictionary.
use mathlib.Core.List.{Perm, append_assoc, append-nil, perm_append_singleton}
use mathlib.Core.List.Perm
use serverless_lmcache.Common.{
  ℕ, ◌≡◌, refl, subst, none, some, List, [], ◌∷◌, ◌++◌, ◌∙◌, arith, for_each, for_each_inv, if_pos,
  if_neg,
}
use serverless_lmcache.Common.Dict.{
  Dict, get, get-insert, insert, erase, IsUnique, erase_absent, insert-IsUnique, erase-IsUnique,
}
use serverless_lmcache.Distributed.L1Manager.{L1ObjectState, Loop}
use serverless_lmcache.Distributed.L1Manager.Read.{reserve_read_key, finish_read_key, leave_key}
use serverless_lmcache.Distributed.L1Manager.Write.{Mode, reserve_write_key, finish_write_key}
use serverless_lmcache.Distributed.L1Manager.Remove.{memory_objs, delete_key}

module _ {K M : Type 0} (dec : Discrete K) where
  pub memory_objs-insert_same :
      (k : K) (e e' : L1ObjectState M) (d : Dict K (L1ObjectState M))
      → get dec k d ≡ some e
      → e'.memory_obj ≡ e.memory_obj
      → memory_objs (insert dec k e' d) ≡ memory_objs d
  unfolding insert get
  memory_objs-insert_same k e e' [] h p = cc
  memory_objs-insert_same k e e' ((j, w) ∷ d) h p = ground (arith, memory_objs-insert_same k e e' d)

  pub memory_objs-insert_new :
      (k : K) (e : L1ObjectState M) (d : Dict K (L1ObjectState M))
      → get dec k d ≡ none
      → memory_objs (insert dec k e d) ≡ memory_objs d ++ (e.memory_obj ∷ [])
  unfolding insert get
  memory_objs-insert_new k e [] h = refl
  memory_objs-insert_new k e ((j, w) ∷ d) h = ground (arith, memory_objs-insert_new k e d)

  pub memory_objs-erase :
      (k : K) (e : L1ObjectState M) (d : Dict K (L1ObjectState M))
      → IsUnique dec d
      → get dec k d ≡ some e
      → Perm (memory_objs d) (e.memory_obj ∷ memory_objs (erase dec k d))
  unfolding erase get
  memory_objs-erase k e [] u h = cc
  memory_objs-erase k e ((j, w) ∷ d) u h = elim (dec j k) [
    | yes p ↦
        rw (if_pos (dec j k) p, erase_absent dec k d (subst (λ x. get dec x d ≡ none) p u.0))
          (Perm.cons' (ground arith) (Perm.refl (memory_objs d)))
    | no p ↦ rw (if_neg (dec j k) p) (
        Perm.trans (Perm.cons w.memory_obj (memory_objs-erase k e d u.1 (ground arith)))
          (Perm.swap e.memory_obj w.memory_obj (memory_objs (erase dec k d))))
  ]

  -- The objects in the cache and those about to be freed are together those of the list `os`, each
  -- as often.
  pub Owned : List M → Dict K (L1ObjectState M) → List M → Type 0
  Owned os objects dead = IsUnique dec objects × Perm os (memory_objs objects ++ dead)

  pub Owned-insert :
      (os : List M) (k : K) (e e' : L1ObjectState M) (d : Dict K (L1ObjectState M)) (dead : List M)
      → get dec k d ≡ some e
      → e'.memory_obj ≡ e.memory_obj
      → Owned os d dead
      → Owned os (insert dec k e' d) dead
  unfolding Owned
  Owned-insert os k e e' d dead h p o =
      (insert-IsUnique dec k e' d o.0, rw (memory_objs-insert_same k e e' d h p) o.1)

  pub Owned-erase :
      (os : List M) (k : K) (e : L1ObjectState M) (d : Dict K (L1ObjectState M)) (dead : List M)
      → get dec k d ≡ some e
      → Owned os d dead
      → Owned os (erase dec k d) (dead ++ (e.memory_obj ∷ []))
  unfolding Owned
  Owned-erase os k e d dead h o = (
    erase-IsUnique dec k d o.0,
    Perm.trans o.1 (
        Perm.trans (Perm.append_right dead (memory_objs-erase k e d o.0 h))
          (moved e.memory_obj (memory_objs (erase dec k d)) dead)),
  )
    where
      moved : (x : M) (xs ys : List M) → Perm (x ∷ (xs ++ ys)) (xs ++ (ys ++ (x ∷ [])))
      moved x xs ys =
          Perm.trans (Perm.symm (perm_append_singleton x (xs ++ ys)))
            (rw (append_assoc xs ys (x ∷ [])) (Perm.refl _))

  Owned-erase-insert :
      (os : List M) (k : K) (e e' : L1ObjectState M) (d : Dict K (L1ObjectState M)) (dead : List M)
      → get dec k d ≡ some e
      → e'.memory_obj ≡ e.memory_obj
      → Owned os d dead
      → Owned os (erase dec k (insert dec k e' d)) (dead ++ (e.memory_obj ∷ []))
  Owned-erase-insert os k e e' d dead h p o = rw (← p) (
      Owned-erase os k e' (insert dec k e' d) dead
        (get-insert dec k k e' d ∙ if_pos (dec k k) refl _ _) (Owned-insert os k e e' d dead h p o))

  -- A loop over keys only moves objects from the cache to the list of those to free.
  abbrev pub Keeps : {R X : Type 0} → (X → Loop K M R → Loop K M R) → Type 0
  Keeps {R} {X} body =
      (os : List M) (x : X) (s : Loop K M R)
      → Owned os s.objects s.need_to_free
      → Owned os (body x s).objects (body x s).need_to_free

  module _ (now : ℕ) where
    pub reserve_read_key-Keeps : Keeps (reserve_read_key {M = M} dec now)
    unfolding reserve_read_key
    reserve_read_key-Keeps os key s o = grind (arith, Owned-insert os)

    pub finish_read_key-Keeps : Keeps (finish_read_key {M = M} dec now)
    unfolding finish_read_key leave_key
    finish_read_key-Keeps os key s o = grind (arith, Owned-insert os, Owned-erase-insert os)

    pub reserve_write_key-Keeps : (mode : Mode) → Keeps (reserve_write_key {M = M} dec now mode)
    unfolding reserve_write_key
    reserve_write_key-Keeps mode os key s o = grind (arith, Owned-insert os)

    pub finish_write_key-Keeps : Keeps (finish_write_key {M = M} dec now)
    unfolding finish_write_key
    finish_write_key-Keeps os key s o = grind (arith, Owned-insert os)

    pub delete_key-Keeps : Keeps (delete_key {M = M} dec now)
    unfolding delete_key
    delete_key-Keeps os key s o = grind (arith, Owned-erase os)

  pub for_each-Keeps :
      {R X : Type 0} (body : X → Loop K M R → Loop K M R)
      → Keeps body
      → (os : List M) (xs : List X) (s : Loop K M R) → Owned os s.objects s.need_to_free
      → Owned os (for_each body xs s).objects (for_each body xs s).need_to_free
  for_each-Keeps body keep os =
      for_each_inv (λ s. Owned os s.objects s.need_to_free) body (λ x s. keep os x s)

  pub Owned-nil : (d : Dict K (L1ObjectState M)) → IsUnique dec d → Owned (memory_objs d) d []
  unfolding Owned
  Owned-nil d u = (u, rw (append-nil (memory_objs d)) (Perm.refl _))

  -- Everything is freed.
  pub Owned-all : (os : List M) → Owned os [] os
  unfolding Owned
  Owned-all os = (tt, Perm.refl os)

  pub IsUnique-of_Owned :
      (os : List M) (d : Dict K (L1ObjectState M)) (dead : List M)
      → Owned os d dead
      → IsUnique dec d × Perm os (memory_objs d ++ dead)
  unfolding Owned
  IsUnique-of_Owned os d dead o = o

  -- A new key takes its new object along.
  pub Owned-insert_new :
      (os : List M) (k : K) (e : L1ObjectState M) (d : Dict K (L1ObjectState M))
      → get dec k d ≡ none
      → Owned os d []
      → Owned (os ++ (e.memory_obj ∷ [])) (insert dec k e d) []
  unfolding Owned
  Owned-insert_new os k e d h o = (
    insert-IsUnique dec k e d o.0,
    rw (memory_objs-insert_new k e d h, append-nil (memory_objs d ++ (e.memory_obj ∷ [])))
        (Perm.append_right (e.memory_obj ∷ []) (rw (append-nil (memory_objs d)) at o.1)),
  )
