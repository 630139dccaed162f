-- ===== src/Memory/TensorAllocator/Shares.antt =====
-- The memory objects of `TensorMemoryAllocator` as regions of its address manager, through batches
-- that are allocated and freed in any order.
use native.Mathlib.Nat.{mul-suc}
use mathlib.Core.List.{Permᴰ}
use mathlib.Core.List.Permᴰ
use serverless_lmcache.Common.{
  ℕ, zero, suc, ◌+◌, ◌*◌, ◌<◌, ◌≡◌, refl, sym, ap, subst, ◌∙◌, inl, inr, Bool-cases, Option-cases,
  ◌==◌, true, none, some, List, [], ◌∷◌, ◌++◌, map, arith, for_each, All, leb, length,
}
use serverless_lmcache.Memory.FreeBlock.{SortedList, SortedListLaws}
use serverless_lmcache.Memory.AddressManager.{AddressManager, compute_aligned_size}
use serverless_lmcache.Memory.AddressManager.Aligned.{compute_aligned_size_again}
use serverless_lmcache.Memory.AddressManager.Consistent.{allocate-Allocation}
use serverless_lmcache.Memory.AddressManager.History.Kept.{aligned_pos, allocate-Ledger}
use serverless_lmcache.Memory.AddressManager.History.{Ledger}
use serverless_lmcache.Memory.AddressManager.History.Shares.{
  All-perm, Ledger-perm, cut-Ledger, join-Ledger, free_first-Ledger,
}
use serverless_lmcache.Memory.MemoryObj.{TensorMemoryObj}
use serverless_lmcache.Memory.TensorAllocator.Batches.{batched_allocate-some}
use serverless_lmcache.Memory.TensorAllocator.{
  TensorMemoryAllocator, memory_obj, memory_objs_from, insert_by_address, sort_by_address,
  Coalescing, extend, coalesced, blocks_of, free_block, batched_allocate, batched_free,
}

abbrev pub region : TensorMemoryObj → ℕ × ℕ
region o = (o.address, o.phy_size)

abbrev block_region : ℕ × ℕ × ℕ → ℕ × ℕ
block_region (start, size, count) = (start, size)

abbrev pub IsValid : TensorMemoryObj → Type 0
IsValid o = o.valid ≡ true

-- The regions of the blocks found so far, and `rs`.
abbrev held : Coalescing → List (ℕ × ℕ) → List (ℕ × ℕ)
held c rs = elim c.curr [
  | none ↦ map block_region c.coalesced_blocks ++ rs
  | some block ↦ block_region block ∷ (map block_region c.coalesced_blocks ++ rs)
]

insert_by_address-perm :
    (x : TensorMemoryObj) (l : List TensorMemoryObj) → Permᴰ (x ∷ l) (insert_by_address x l)
unfolding insert_by_address
insert_by_address-perm x [] = Permᴰ.refl (x ∷ [])
insert_by_address-perm x (y ∷ l) = elim (Bool-cases (leb x.address y.address)) [
  | inl before ↦ rw (before, insert_by_address) (Permᴰ.refl (x ∷ y ∷ l))
  | inr behind ↦
      rw (behind, insert_by_address)
        (Permᴰ.trans (Permᴰ.swap refl refl) (Permᴰ.cons refl (insert_by_address-perm x l)))
]

sort_by_address-perm : (l : List TensorMemoryObj) → Permᴰ l (sort_by_address l)
unfolding sort_by_address
sort_by_address-perm [] = Permᴰ.nil
sort_by_address-perm (x ∷ l) =
    Permᴰ.trans (Permᴰ.cons refl (sort_by_address-perm l))
      (insert_by_address-perm x (sort_by_address l))

pub map-perm :
    {A B : Type 0} (f : A → B) {xs ys : List A} → Permᴰ xs ys → Permᴰ (map f xs) (map f ys)
map-perm f Permᴰ.nil = Permᴰ.nil
map-perm f (Permᴰ.cons e d) = Permᴰ.cons (ap f e) (map-perm f d)
map-perm f (Permᴰ.swap e g) = Permᴰ.swap (ap f e) (ap f g)
map-perm f (Permᴰ.trans d g) = Permᴰ.trans (map-perm f d) (map-perm f g)

held-perm :
    (c : Coalescing) (r : ℕ × ℕ) (rs : List (ℕ × ℕ)) → Permᴰ (held c (r ∷ rs)) (r ∷ held c rs)
held-perm c r rs = elim (Option-cases c.curr) [
  | inl e ↦ rw e (Permᴰ.middle r (map block_region c.coalesced_blocks) rs)
  | inr (b, e) ↦ rw e (
      Permᴰ.trans (Permᴰ.cons refl (Permᴰ.middle r (map block_region c.coalesced_blocks) rs))
        (Permᴰ.swap refl refl))
]

blocks_behind :
    (b : ℕ × ℕ × ℕ) (bs : List (ℕ × ℕ × ℕ)) (rs : List (ℕ × ℕ))
    → Permᴰ (block_region b ∷ (map block_region bs ++ rs)) (map block_region (bs ++ (b ∷ [])) ++ rs)
blocks_behind b [] rs = Permᴰ.refl (block_region b ∷ rs)
blocks_behind b (x ∷ bs) rs =
    Permᴰ.trans (Permᴰ.swap refl refl) (Permᴰ.cons refl (blocks_behind b bs rs))

coalesced-perm :
    (c : Coalescing) (rs : List (ℕ × ℕ)) → Permᴰ (held c rs) (map block_region (coalesced c) ++ rs)
unfolding coalesced
coalesced-perm c rs = elim (Option-cases c.curr) [
  | inl e ↦ rw (e, coalesced) (Permᴰ.refl _)
  | inr (b, e) ↦ rw (e, coalesced) (blocks_behind b c.coalesced_blocks rs)
]

module _ (e : ℕ) (m : AddressManager) where
  extend-Ledger :
      (o : TensorMemoryObj) (c : Coalescing) (rs : List (ℕ × ℕ))
      → o.valid ≡ true
      → Ledger e m (region o ∷ held c rs)
      → Ledger e m (held (extend o c) rs)
  unfolding extend
  extend-Ledger o c rs v w = elim (Option-cases c.curr) [
    | inl empty ↦ rw (v, empty, extend) (rw empty at w)
    | inr ((start, size, count), found) ↦ elim (Bool-cases (start + size == o.address)) [
      | inl y ↦
          rw (v, found, y, extend)
            (join-Ledger e m start size o.address o.phy_size _ (ground (arith, y))
              (Ledger-perm e m (Permᴰ.swap refl refl) (rw found at w)))
      | inr n ↦
          rw (v, found, n, extend)
            (Ledger-perm e m
              (Permᴰ.cons refl (blocks_behind (start, size, count) c.coalesced_blocks rs))
              (rw found at w))
    ]
  ]

  extend_all-Ledger :
      (os : List TensorMemoryObj) (c : Coalescing) (rs : List (ℕ × ℕ))
      → All IsValid os
      → Ledger e m (held c (map region os ++ rs))
      → Ledger e m (held (for_each extend os c) rs)
  extend_all-Ledger [] c rs v w = w
  extend_all-Ledger (o ∷ os) c rs v w = extend_all-Ledger os (extend o c) rs v.1 (
      extend-Ledger o c (map region os ++ rs) v.0
        (Ledger-perm e m (held-perm c (region o) (map region os ++ rs)) w))

  blocks_of-Ledger :
      (os : List TensorMemoryObj) (rs : List (ℕ × ℕ))
      → All IsValid os
      → Ledger e m (map region os ++ rs)
      → Ledger e m (map block_region (blocks_of os) ++ rs)
  unfolding blocks_of
  blocks_of-Ledger os rs v w =
      Ledger-perm e m (coalesced-perm _ rs)
        (extend_all-Ledger os (record { coalesced_blocks = []; curr = none }) rs v w)

  -- A region seen as the objects of a batch.
  pub memory_objs_from-Ledger :
      (u s n : ℕ) (rs : List (ℕ × ℕ))
      → 0 < u
      → Ledger e m ((s, u * suc n) ∷ rs)
      → Ledger e m (map region (memory_objs_from u s (suc n)) ++ rs)
  unfolding memory_objs_from memory_obj
  memory_objs_from-Ledger u s zero rs pos w = subst (λ z. Ledger e m ((s, z) ∷ rs)) (omega arith) w
  memory_objs_from-Ledger u s (suc n) rs pos w =
      let two : u * suc (suc n) ≡ u + u * suc n = omega (arith, mul-suc u (suc n)) in
      let rest : 0 < u * suc n = omega (arith, mul-suc u n) in
      let both =
        cut-Ledger e m s u (u * suc n) rs pos rest (subst (λ z. Ledger e m ((s, z) ∷ rs)) two w) in
      Ledger-perm e m (Permᴰ.middle (s, u) (map region (memory_objs_from u (s + u) (suc n))) rs) (
        memory_objs_from-Ledger u (s + u) n ((s, u) ∷ rs) pos
          (Ledger-perm e m (Permᴰ.swap refl refl) both))

memory_objs_from-IsValid : (u s n : ℕ) → All IsValid (memory_objs_from u s n)
unfolding memory_objs_from memory_obj
memory_objs_from-IsValid u s zero = tt
memory_objs_from-IsValid u s (suc n) = (refl, memory_objs_from-IsValid u (s + u) n)

length-memory_objs_from : (u s n : ℕ) → length (memory_objs_from u s n) ≡ n
unfolding memory_objs_from
length-memory_objs_from u s zero = refl
length-memory_objs_from u s (suc n) = omega (arith, length-memory_objs_from u (s + u) n)

module _ (sl : SortedList) (laws : SortedListLaws sl) (e : ℕ) where
  free_blocks-Ledger :
      (bs : List (ℕ × ℕ × ℕ)) (rs : List (ℕ × ℕ)) (t : TensorMemoryAllocator)
      → Ledger e t.address_manager (map block_region bs ++ rs)
      → Ledger e (for_each (free_block sl) bs t).address_manager rs
  unfolding free_block
  free_blocks-Ledger [] rs t w = w
  free_blocks-Ledger ((start, size, count) ∷ bs) rs t w =
      free_blocks-Ledger bs rs (free_block sl (start, size, count) t)
        (free_first-Ledger sl laws e t.address_manager start size (map block_region bs ++ rs) w)

  -- Valid objects go back as a batch, in any order.
  pub batched_free-Ledger :
      (os : List TensorMemoryObj) (rs : List (ℕ × ℕ)) (t : TensorMemoryAllocator)
      → All IsValid os
      → Ledger e t.address_manager (map region os ++ rs)
      → Ledger e (batched_free sl os t).1.address_manager rs
  unfolding batched_free
  batched_free-Ledger os rs t v w =
      let d = sort_by_address-perm os in
      free_blocks-Ledger (blocks_of (sort_by_address os)) rs t (
        blocks_of-Ledger e t.address_manager (sort_by_address os) rs (All-perm IsValid d v)
          (Ledger-perm e t.address_manager (Permᴰ.append_right rs (map-perm region d)) w))

module _ (sl : SortedList) (laws : SortedListLaws sl) (chunks : ℕ → ℕ → ℕ)
    (chunks_lem : (b n : ℕ) → 0 < b → 0 < n → chunks (b * n) n ≡ n) (e : ℕ) where
  -- A batch is allocated as one region.
  pub batched_allocate-Ledger :
      (raw n : ℕ) (t t' : TensorMemoryAllocator) (os : List TensorMemoryObj) (rs : List (ℕ × ℕ))
      → 0 < raw
      → 0 < n
      → Ledger e t.address_manager rs
      → batched_allocate sl chunks raw n t ≡ some (os, t')
      → Ledger e t'.address_manager (map region os ++ rs) × All IsValid os × (length os ≡ n)
  batched_allocate-Ledger raw zero t t' os rs some_raw some_n w found = absurd (omega arith)
  batched_allocate-Ledger raw (suc n) t t' os rs some_raw some_n w found =
      let u = compute_aligned_size t.address_manager.align raw in
      let (s, z, m, taken, objs, after) =
        batched_allocate-some sl laws chunks raw (suc n) t t' os found in
      let up = aligned_pos e raw w.align some_raw in
      let exact = objs ∙ ap (memory_objs_from u s) (chunks_lem u (suc n) up some_n) in
      let again : compute_aligned_size t.address_manager.align (u * suc n) ≡ u * suc n =
        subst
          (λ a.
            compute_aligned_size a (compute_aligned_size a raw * suc n)
            ≡ compute_aligned_size a raw * suc n)
          (sym w.align) (compute_aligned_size_again e raw (suc n)) in
      let same : z ≡ u * suc n =
        (allocate-Allocation sl laws (u * suc n) t.address_manager m s z w.kept taken).aligned
        ∙ again in
      let more : 0 < u * suc n = omega (arith, mul-suc u n, up) in
      let one = allocate-Ledger sl laws e (u * suc n) t.address_manager m rs s z more w taken in
      let shares =
        memory_objs_from-Ledger e m u s n rs up (subst (λ z. Ledger e m ((s, z) ∷ rs)) same one) in
      rw (after, exact)
        (shares, memory_objs_from-IsValid u s (suc n), length-memory_objs_from u s (suc n))
