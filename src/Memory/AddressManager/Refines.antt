-- ===== src/Memory/AddressManager/Refines.antt =====
-- The methods of `AddressManager` compute the reference operations on the list of free blocks.
use mathlib.Core.List.{append-nil}
use serverless_lmcache.Common.{
  ℕ, suc, ◌+◌, ◌-◌, ◌≤◌, ◌<◌, ◌≡◌, ◌≢◌, refl, ap, subst, ◌∙◌, ◌⊎◌, inl, inr, leb, Bool-cases,
  Option, none, some, List, [], ◌∷◌, ◌++◌, arith, All, All-mono, get_elem?-length,
}
use serverless_lmcache.Memory.FreeBlock.{FreeBlock, SortedList, SortedListLaws}
use serverless_lmcache.Memory.AddressManager.{
  AddressManager, compute_aligned_size, find_fit, allocate, free, sbrk,
}
use serverless_lmcache.Memory.AddressManager.Reference.{
  Gapped, cut, take_first, give_back, Gapped-above, Gapped-IsAscending,
}
use serverless_lmcache.Memory.AddressManager.Placing.{placed, free_list}

-- The loop of `allocate`, with what stands before and behind the block that it finds.
find_fit-take_first :
    (n lo : ℕ) (l : List FreeBlock)
    → Gapped lo l
    → ((find_fit n l ≡ none) × (take_first n l ≡ none))
      ⊎ ((xs ys : List FreeBlock) × (b : FreeBlock) × (l ≡ xs ++ (b ∷ ys))
          × (n ≤ b.size)
          × (find_fit n l ≡ some b)
          × (take_first n l ≡ some (b.start, xs ++ cut n b ys)))
unfolding find_fit take_first
find_fit-take_first n lo [] g = inl (refl, refl)
find_fit-take_first n lo (b ∷ l) g = elim (Bool-cases (leb n b.size)) [
  | inl y ↦ inr ([], l, b, refl, ground (arith, y), ground (arith, y), ground (arith, y))
  | inr f ↦ elim (find_fit-take_first n (suc (b.start + b.size)) l g.2) [
    | inl (e, e') ↦ inl (ground (arith, f, e), ground (arith, f, e'))
    | inr (xs, ys, c, whole, fits, e, e') ↦
        inr (b ∷ xs, ys, c, ap (◌∷◌ b) whole, fits, ground (arith, f, e), ground (arith, f, e'))
  ]
]

below_at :
    (lo : ℕ) (xs ys : List FreeBlock) (b : FreeBlock)
    → Gapped lo (xs ++ (b ∷ ys))
    → All (λ c. c.start < b.start) xs
below_at lo [] ys b g = tt
below_at lo (x ∷ xs) ys b g =
    let r = at_mid xs g.2 in (omega arith, below_at (suc (x.start + x.size)) xs ys b g.2)
  where
    at_mid : (us : List FreeBlock) {m : ℕ} → Gapped m (us ++ (b ∷ ys)) → m ≤ b.start
    at_mid [] g = omega arith
    at_mid (u ∷ us) g = let r = at_mid us g.2 in omega arith

behind_at :
    (lo : ℕ) (xs ys : List FreeBlock) (b : FreeBlock)
    → Gapped lo (xs ++ (b ∷ ys))
    → All (λ c. b.start + b.size < c.start) ys
behind_at lo [] ys b g = Gapped-above ys (b.start + b.size) (omega arith) g.2
behind_at lo (x ∷ xs) ys b g = behind_at (suc (x.start + x.size)) xs ys b g.2

-- What `allocate` gives for a result of the reference.
abbrev pub allocated :
    ℕ → AddressManager → Option (ℕ × List FreeBlock) → Option ((ℕ × ℕ) × AddressManager)
allocated n m none = none
allocated n m (some (s, l)) =
    some ((s, n), record m { explicit_list = l; total_allocated_size = m.total_allocated_size + n })

module _ (sl : SortedList) (laws : SortedListLaws sl) where
  -- On free blocks that are in order, not empty and do not touch, `allocate` is first fit on their
  -- list, for the aligned size, and fails where first fit does.
  pub allocate-take_first :
      (size : ℕ) (m : AddressManager)
      → Gapped 0 m.explicit_list
      → allocate sl size m ≡ (
          let n = compute_aligned_size m.align size in allocated n m (take_first n m.explicit_list))
  unfolding allocate
  allocate-take_first size m g =
      let n = compute_aligned_size m.align size in
      elim (find_fit-take_first n 0 m.explicit_list g) [
        | inl (e, e') ↦ ground (arith, e, e')
        | inr (xs, ys, b, whole, fits, e, e') ↦
            let g' = subst (Gapped 0) whole g in
            let removed : sl.remove b m.explicit_list ≡ xs ++ ys =
              ap (sl.remove b) whole
              ∙ laws.remove_lem b xs ys (Gapped-IsAscending 0 (xs ++ (b ∷ ys)) g') in
            let rest : FreeBlock = record { start = b.start + n; size = b.size - n } in
            let below =
              All-mono _ (λ c. c.start ≤ rest.start) (λ c l. omega arith) xs
                (below_at 0 xs ys b g') in
            let above =
              All-mono _ (λ c. rest.start < c.start) (λ c l. omega arith) ys
                (behind_at 0 xs ys b g') in
            ground (arith, e, e', removed, laws.add_lem rest xs ys below above)
      ]

  -- On free blocks that are in order, not empty and do not touch, freeing a block that is not
  -- empty, and starts where none of them does, puts it at its place in the list, joined with the
  -- blocks that it touches, and subtracts its size from the allocated bytes.
  pub free-give_back :
      (address size : ℕ) (m : AddressManager)
      → Gapped 0 m.explicit_list
      → 0 < size
      → All (λ b. b.start ≢ address) m.explicit_list
      → free sl address size m ≡ record m {
        explicit_list = give_back (record { start = address; size = size }) m.explicit_list;
        total_allocated_size = m.total_allocated_size - size;
      }
  unfolding free
  free-give_back address size m g pos apart =
      let c : FreeBlock = record { start = address; size = size } in
      ap (λ l. record m { explicit_list = l; total_allocated_size = m.total_allocated_size - size })
        (free_list sl laws c 0 m.explicit_list g pos apart)

  -- On free blocks that are in order, not empty, do not touch and start inside the address space,
  -- growing it by a size whose aligned size is not 0 puts a block of that size at its end, joined
  -- with the block that it touches.
  pub sbrk-give_back :
      (size : ℕ) (m : AddressManager)
      → Gapped 0 m.explicit_list
      → 0 < compute_aligned_size m.align size
      → All (λ b. b.start < m.size) m.explicit_list
      → let n = compute_aligned_size m.align size in
        sbrk sl size m ≡ record m {
          explicit_list = give_back (record { start = m.size; size = n }) m.explicit_list;
          size = m.size + n;
        }
  unfolding sbrk
  sbrk-give_back size m g pos below =
      let n = compute_aligned_size m.align size in
      let c : FreeBlock = record { start = m.size; size = n } in
      let l = m.explicit_list in
      let here = placed sl laws c 0 l [] (rw (append-nil l) g) pos below tt in
      ap (λ l. record m { explicit_list = l; size = m.size + n })
        (rw (append-nil l, get_elem?-length l) at here)
