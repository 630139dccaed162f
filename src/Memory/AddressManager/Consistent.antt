-- ===== src/Memory/AddressManager/Consistent.antt =====
-- What every operation of an address manager keeps, and what it does to the regions it hands out.
use mathlib.Core.Option.{some-injective}
use serverless_lmcache.Common.{
  ℕ, suc, ◌+◌, ◌-◌, ◌≤◌, ◌<◌, ◌≡◌, ◌≢◌, refl, sym, ap, subst, ◌∙◌, inl, inr, Bool-cases,
  Option-cases, true, none, some, List, [], ◌∷◌, arith, All, leb,
}
use serverless_lmcache.Memory.FreeBlock.{FreeBlock, can_be_coalesced, SortedList, SortedListLaws}
use serverless_lmcache.Memory.AddressManager.{
  AddressManager, compute_aligned_size, sum_sizes, check_coalesced, check_consistency, new,
  get_free_size, allocate, free, sbrk,
}
use serverless_lmcache.Memory.AddressManager.Reference.{Gapped, take_first, give_back}
use serverless_lmcache.Memory.AddressManager.Refines.{
  allocated, allocate-take_first, free-give_back, sbrk-give_back,
}
use serverless_lmcache.Memory.AddressManager.Regions.{Apart, take_first-Taken, give_back-Given}

-- The free blocks are in order, not empty, do not touch, lie in the address space, and their
-- bytes and the allocated ones make up the address space.
pub record Consistent (m : AddressManager) : Type 0 where
  pub gapped : Gapped 0 m.explicit_list
  pub fits : All (λ b. b.start + b.size ≤ m.size) m.explicit_list
  pub balanced : sum_sizes m.explicit_list + m.total_allocated_size ≡ m.size

check_coalesced-Gapped : (lo : ℕ) (l : List FreeBlock) → Gapped lo l → check_coalesced l ≡ true
unfolding check_coalesced can_be_coalesced
check_coalesced-Gapped lo [] g = refl
check_coalesced-Gapped lo (b ∷ []) g = refl
check_coalesced-Gapped lo (b ∷ c ∷ l) g =
    let rest = check_coalesced-Gapped (suc (b.start + b.size)) (c ∷ l) g.2 in
    ground (arith, rest, g.2.0)

-- The manager's self-check passes on every consistent manager.
pub check_consistency-Consistent : (m : AddressManager) → Consistent m → check_consistency m ≡ true
unfolding check_consistency
check_consistency-Consistent m c =
    ground (arith, check_coalesced-Gapped 0 m.explicit_list c.gapped, c.balanced)

-- A fresh manager of a nonempty address space is consistent.
pub new-Consistent : (size align : ℕ) → 0 < size → Consistent (new size align)
unfolding new sum_sizes
new-Consistent size align h = record {
  gapped = (omega arith, h, tt);
  fits = (omega arith, tt);
  balanced = omega arith;
}

take_first-none : (n : ℕ) (l : List FreeBlock) → take_first n l ≡ none → All (λ b. b.size < n) l
unfolding take_first
take_first-none n [] e = tt
take_first-none n (b ∷ l) e = elim (Bool-cases (leb n b.size)) [
  | inl y ↦ absurd (ground (arith, e, y))
  | inr f ↦ elim (Option-cases (take_first n l)) [
    | inl none_l ↦ (ground (arith, f), take_first-none n l none_l)
    | inr (p, some_l) ↦ absurd (ground (arith, e, f, some_l))
  ]
]

-- What a successful `allocate` of `n` bytes at `s` says of the managers before and after.
pub record Allocation (m : AddressManager) (n s k : ℕ) (m' : AddressManager) : Type 0 where
  pub aligned : k ≡ n
  pub inside : s + k ≤ m.size
  pub apart : All (Apart s k) m'.explicit_list
  pub counted : get_free_size m' + k ≡ get_free_size m
  pub kept : Consistent m'

-- The bytes that are free, by the counter, are those of the free blocks.
get_free_size-Consistent :
    (m : AddressManager) → Consistent m → get_free_size m ≡ sum_sizes m.explicit_list
unfolding get_free_size
get_free_size-Consistent m c = omega (arith, c.balanced)

-- No free block starts where a nonempty region apart from it starts.
pub Apart-starts :
    (s k lo : ℕ) (l : List FreeBlock)
    → 0 < k
    → Gapped lo l
    → All (Apart s k) l
    → All (λ b. b.start ≢ s) l
Apart-starts s k lo [] pos g a = tt
Apart-starts s k lo (b ∷ l) pos g a = (
  elim a.0 [ inl h ↦ omega arith | inr h ↦ omega arith ],
  Apart-starts s k (suc (b.start + b.size)) l pos g.2 a.1,
)

-- Blocks that end by `hi` start before it, and are apart from what is added behind.
pub ends_below :
    (lo hi n : ℕ) (l : List FreeBlock)
    → Gapped lo l
    → All (λ b. b.start + b.size ≤ hi) l
    → All (λ b. b.start < hi) l × All (Apart hi n) l × All (λ b. b.start + b.size ≤ hi + n) l
ends_below lo hi n [] g f = (tt, tt, tt)
ends_below lo hi n (b ∷ l) g f =
    let (x, y, z) = ends_below (suc (b.start + b.size)) hi n l g.2 f.1 in
    let h = f.0 in ((omega arith, x), (inl h, y), (omega arith, z))

module _ (sl : SortedList) (laws : SortedListLaws sl) where
  pub allocate-Taken :
      (size : ℕ) (m m' : AddressManager) (s k : ℕ)
      → Gapped 0 m.explicit_list
      → allocate sl size m ≡ some ((s, k), m')
      → let n = compute_aligned_size m.align size in
        (r : List FreeBlock) × (take_first n m.explicit_list ≡ some (s, r))
        × (k ≡ n)
        × (m' ≡ record m { explicit_list = r; total_allocated_size = m.total_allocated_size + n })
  allocate-Taken size m m' s k g e =
      let n = compute_aligned_size m.align size in
      let e' = sym (allocate-take_first sl laws size m g) ∙ e in
      elim (Option-cases (take_first n m.explicit_list)) [
        | inl none_l ↦ absurd (ground (arith, e', none_l))
        | inr ((s', r), some_l) ↦
            let q = some-injective _ _ (ap (allocated n m) (sym some_l) ∙ e') in
            let at_s : s' ≡ s = ap (λ p. p.0.0) q in
            (r, some_l ∙ ap (λ t. some (t, r)) at_s, sym (ap (λ p. p.0.1) q), sym (ap (λ p. p.1) q))
      ]

  -- A successful `allocate` from a consistent manager gives a region of the aligned size that lies
  -- in the address space and apart from every block that is still free; the free bytes drop by
  -- exactly that size, and the manager is consistent again.
  pub allocate-Allocation :
      (size : ℕ) (m m' : AddressManager) (s k : ℕ)
      → Consistent m
      → allocate sl size m ≡ some ((s, k), m')
      → Allocation m (compute_aligned_size m.align size) s k m'
  unfolding get_free_size
  allocate-Allocation size m m' s k c e =
      let n = compute_aligned_size m.align size in
      let (r, taken, at_k, at_m) = allocate-Taken size m m' s k c.gapped e in
      let t = take_first-Taken n 0 m.explicit_list c.gapped taken in
      let q = t.sizes in
      let b = c.balanced in
      let u = t.fits m.size c.fits in
      let done : AddressManager = record m {
        explicit_list = r;
        total_allocated_size = m.total_allocated_size + n;
      } in
      let base : Allocation m n s n done = record {
        aligned = refl;
        inside = u.0;
        apart = t.apart;
        counted = omega arith;
        kept = record { gapped = t.gapped; fits = u.1; balanced = omega arith };
      } in
      subst (λ k. Allocation m n s k m') (sym at_k) (subst (Allocation m n s n) (sym at_m) base)

  -- On free blocks that are in order, not empty and do not touch, `allocate` fails only when every
  -- free block is smaller than the aligned size.
  pub allocate_refused :
      (size : ℕ) (m : AddressManager)
      → Gapped 0 m.explicit_list
      → allocate sl size m ≡ none
      → All (λ b. b.size < compute_aligned_size m.align size) m.explicit_list
  allocate_refused size m g e =
      let n = compute_aligned_size m.align size in
      let e' = sym (allocate-take_first sl laws size m g) ∙ e in
      take_first-none n m.explicit_list (elim (Option-cases (take_first n m.explicit_list)) [
        | inl none_l ↦ none_l
        | inr (p, some_l) ↦ absurd (ground (arith, e', some_l))
      ])

  -- Freeing what was just allocated from a consistent manager, by its address and its aligned
  -- size, gives back the manager as it was before, where the aligned size is not 0.
  pub free-allocate :
      (size : ℕ) (m m' : AddressManager) (s k : ℕ)
      → Consistent m
      → 0 < k
      → allocate sl size m ≡ some ((s, k), m')
      → free sl s k m' ≡ m
  free-allocate size m m' s k c pos e =
      let n = compute_aligned_size m.align size in
      let a = allocate-Allocation size m m' s k c e in
      let (r, taken, at_k, at_m) = allocate-Taken size m m' s k c.gapped e in
      let t = take_first-Taken n 0 m.explicit_list c.gapped taken in
      let back =
        free-give_back sl laws s k m' a.kept.gapped pos
          (Apart-starts s k 0 m'.explicit_list pos a.kept.gapped a.apart) in
      let restored : give_back (record { start = s; size = k }) m'.explicit_list ≡ m.explicit_list =
        ap (λ k. give_back (record { start = s; size = k }) m'.explicit_list) at_k
        ∙ ap (λ m. give_back (record { start = s; size = n }) m.explicit_list) at_m
        ∙ t.restored (rw (sym at_k) pos) in
      let uncounted : m'.total_allocated_size - k ≡ m.total_allocated_size =
        let total = ap (λ m. m.total_allocated_size) at_m in omega arith in
      let swap : List FreeBlock → ℕ → AddressManager → AddressManager =
        λ l t x. record x { explicit_list = l; total_allocated_size = t } in
      back
      ∙ ap (λ l. swap l (m'.total_allocated_size - k) m') restored
      ∙ ap (λ t. swap m.explicit_list t m') uncounted
      ∙ ap (swap m.explicit_list m.total_allocated_size) at_m

  -- Freeing a region that is not empty, not larger than what is allocated, inside the address
  -- space and apart from the free blocks keeps a consistent manager consistent and adds its bytes
  -- to the free ones.
  pub free-Consistent :
      (address size : ℕ) (m : AddressManager)
      → Consistent m
      → 0 < size
      → size ≤ m.total_allocated_size
      → address + size ≤ m.size
      → All (Apart address size) m.explicit_list
      → Consistent (free sl address size m)
        × (get_free_size (free sl address size m) ≡ get_free_size m + size)
  unfolding get_free_size
  free-Consistent address size m c pos used top apart =
      let back =
        free-give_back sl laws address size m c.gapped pos
          (Apart-starts address size 0 m.explicit_list pos c.gapped apart) in
      let g =
        give_back-Given 0 m.size (record { start = address; size = size }) m.explicit_list c.gapped
          c.fits apart (omega arith) pos top in
      let q = g.sizes in
      let b = c.balanced in
      subst
        (λ x.
          Consistent x × (x.size - x.total_allocated_size ≡ m.size - m.total_allocated_size + size))
        (sym back)
        (record { gapped = g.gapped; fits = g.fits; balanced = omega arith }, omega arith)

  -- Growing a consistent manager by a size whose aligned size is not 0 keeps it consistent, and
  -- exactly the aligned size becomes free.
  pub sbrk-Consistent :
      (size : ℕ) (m : AddressManager)
      → Consistent m
      → 0 < compute_aligned_size m.align size
      → Consistent (sbrk sl size m)
        × (get_free_size (sbrk sl size m) ≡ get_free_size m + compute_aligned_size m.align size)
  unfolding get_free_size
  sbrk-Consistent size m c pos =
      let n = compute_aligned_size m.align size in
      let inside = ends_below 0 m.size n m.explicit_list c.gapped c.fits in
      let grown = sbrk-give_back sl laws size m c.gapped pos (inside.0) in
      let g =
        give_back-Given 0 (m.size + n) (record { start = m.size; size = n }) m.explicit_list
          c.gapped inside.2 inside.1 (omega arith) pos (omega arith) in
      let q = g.sizes in
      let b = c.balanced in
      subst
        (λ x.
          Consistent x × (x.size - x.total_allocated_size ≡ m.size - m.total_allocated_size + n))
        (sym grown)
        (record { gapped = g.gapped; fits = g.fits; balanced = omega arith }, omega arith)
