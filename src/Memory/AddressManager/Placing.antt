-- ===== src/Memory/AddressManager/Placing.antt =====
-- What coalescing does to the ordered list: the block lands at its place, joined with the blocks
-- that it touches.
use mathlib.Core.List.{append_assoc}
use serverless_lmcache.Common.{
  ℕ, suc, ◌+◌, ◌-◌, ◌≤◌, ◌<◌, ◌≡◌, ◌≢◌, refl, sym, ap, subst, ◌∙◌, ◌⊎◌, inl, inr, List, [], ◌∷◌,
  ◌++◌, arith, All, All-mono, length, length-append, get_elem?, get_elem?-append_length,
  set-append_length,
}
use serverless_lmcache.Memory.FreeBlock.{
  FreeBlock, can_be_coalesced, IsAscending, SortedList, SortedListLaws,
}
use serverless_lmcache.Memory.AddressManager.{
  can_merge_with_prev, can_merge_with_succ, block_before, grow_before, coalesce, add_unless,
}
use serverless_lmcache.Memory.AddressManager.Reference.{
  Gapped, give_back, give_back_skip, All-snoc_start, IsAscending-resize, get_elem?_second_none,
  get_elem?_second, IsAscending-drop_second, divide, Gapped-IsAscending,
}

last_view :
    (xs : List FreeBlock)
    → (xs ≡ []) ⊎ ((zs : List FreeBlock) × (p : FreeBlock) × (xs ≡ zs ++ (p ∷ [])))
last_view [] = inl refl
last_view (x ∷ xs) = elim (last_view xs) [
  | inl e ↦ inr ([], x, ap (◌∷◌ x) e)
  | inr (zs, p, e) ↦ inr (x ∷ zs, p, ap (◌∷◌ x) e)
]

All-last :
    (n : ℕ) (zs : List FreeBlock) (p : FreeBlock)
    → All (λ b. b.start < n) (zs ++ (p ∷ []))
    → p.start < n
All-last n [] p h = h.0
All-last n (z ∷ zs) p h = All-last n zs p h.1

All-behind :
    (n : ℕ) (xs ys : List FreeBlock)
    → All (λ b. b.start ≢ n) (xs ++ ys)
    → All (λ b. n ≤ b.start) ys
    → All (λ b. n < b.start) ys
All-behind n (x ∷ xs) ys h k = All-behind n xs ys h.1 k
All-behind n [] [] h k = tt
All-behind n [] (y ∷ ys) h k = (omega arith, All-behind n [] ys h.1 k.1)

module _ (sl : SortedList) (laws : SortedListLaws sl) where
  -- The laws at a list of which a block is known.
  remove_second :
      (zs : List FreeBlock) (p y : FreeBlock) (ys : List FreeBlock)
      → IsAscending (zs ++ (p ∷ y ∷ ys))
      → sl.remove y (zs ++ (p ∷ y ∷ ys)) ≡ zs ++ (p ∷ ys)
  remove_second zs p y ys a =
      rw (← append_assoc zs (p ∷ []) (y ∷ ys), ← append_assoc zs (p ∷ []) ys)
        (laws.remove_lem y (zs ++ (p ∷ [])) ys (rw (append_assoc zs (p ∷ []) (y ∷ ys)) a))

  add_second :
      (zs : List FreeBlock) (p c : FreeBlock) (ys : List FreeBlock)
      → IsAscending (zs ++ (p ∷ ys))
      → p.start ≤ c.start
      → All (λ b. c.start < b.start) ys
      → sl.add c (zs ++ (p ∷ ys)) ≡ zs ++ (p ∷ c ∷ ys)
  add_second zs p c ys a h above =
      rw (← append_assoc zs (p ∷ []) ys, ← append_assoc zs (p ∷ []) (c ∷ ys))
        (laws.add_lem c (zs ++ (p ∷ [])) ys (All-snoc_start c.start zs p ys a h) above)

  -- The block takes the place of its successor, which it touches.
  merged :
      (zs ys : List FreeBlock) (p c y : FreeBlock)
      → IsAscending (zs ++ (p ∷ y ∷ ys))
      → p.start < c.start
      → c.start + c.size ≡ y.start
      → sl.add (record { start = y.start - c.size; size = y.size + c.size }) (zs ++ (p ∷ ys))
        ≡ zs ++ (p ∷ record { start = c.start; size = c.size + y.size } ∷ ys)
  merged zs ys p c y a h e =
      let rest = IsAscending-drop_second zs ys p y a in
      let b1 : FreeBlock = record { start = y.start - c.size; size = y.size + c.size } in
      let b2 : FreeBlock = record { start = c.start; size = c.size + y.size } in
      let same : b1 ≡ b2 = ground arith in
      add_second zs p b1 ys rest.0 (omega arith) (All-mono _ _ (λ b l. omega arith) ys rest.1)
      ∙ ap (λ x. zs ++ (p ∷ x ∷ ys)) same

  -- What the code makes of a block behind `zs` and `p`, with `ys` from its place on.
  coalesce_behind :
      (c p : FreeBlock) (lo : ℕ) (zs ys : List FreeBlock)
      → Gapped lo (zs ++ (p ∷ ys))
      → 0 < c.size
      → p.start < c.start
      → All (λ b. c.start < b.start) ys
      → add_unless sl c (
          coalesce sl c
            (suc (length zs))
            (get_elem? (zs ++ (p ∷ ys)) (suc (length zs)))
            (zs ++ (p ∷ ys)))
        ≡ zs ++ give_back c (p ∷ ys)
  unfolding add_unless coalesce can_merge_with_succ can_merge_with_prev can_be_coalesced
      block_before grow_before give_back
  coalesce_behind c p lo zs [] g size h above =
      let p' : FreeBlock = record { start = p.start; size = p.size + c.size } in
      ground (
        arith,
        get_elem?-append_length zs p [],
        get_elem?_second_none zs p,
        set-append_length zs p p' [],
        add_second zs p c [] (Gapped-IsAscending lo _ g) (omega arith) tt,
      )
  coalesce_behind c p lo zs (y ∷ ys) g size h above =
      let asc = Gapped-IsAscending lo _ g in
      let p1 : FreeBlock = record { start = p.start; size = p.size + c.size } in
      let p2 : FreeBlock = record { start = p.start; size = p.size + (c.size + y.size) } in
      let c' : FreeBlock = record { start = y.start - c.size; size = y.size + c.size } in
      ground (
        arith,
        get_elem?-append_length zs p (y ∷ ys),
        get_elem?_second zs p y ys,
        set-append_length zs p p1 (y ∷ ys),
        set-append_length zs p p2 (y ∷ ys),
        remove_second zs p y ys asc,
        remove_second zs p2 y ys (IsAscending-resize zs (y ∷ ys) p p2 refl asc),
        add_second zs p c (y ∷ ys) asc (omega arith) above,
        merged zs ys p c y asc h,
      )

  front :
      (c y : FreeBlock) (ys : List FreeBlock)
      → IsAscending (y ∷ ys)
      → c.start + c.size ≡ y.start
      → sl.add (record { start = y.start - c.size; size = y.size + c.size }) ys
        ≡ record { start = c.start; size = c.size + y.size } ∷ ys
  front c y ys a e =
      let b1 : FreeBlock = record { start = y.start - c.size; size = y.size + c.size } in
      let b2 : FreeBlock = record { start = c.start; size = c.size + y.size } in
      let same : b1 ≡ b2 = ground arith in
      laws.add_lem b1 [] ys tt (All-mono _ _ (λ b l. omega arith) ys a.0) ∙ ap (λ x. x ∷ ys) same

  -- The same with no block before the place.
  coalesce_front :
      (c : FreeBlock) (lo : ℕ) (ys : List FreeBlock)
      → Gapped lo ys
      → 0 < c.size
      → All (λ b. c.start < b.start) ys
      → add_unless sl c (coalesce sl c 0 (get_elem? ys 0) ys) ≡ give_back c ys
  unfolding add_unless coalesce can_merge_with_succ can_merge_with_prev can_be_coalesced
      block_before give_back
  coalesce_front c lo [] g size above = laws.add_lem c [] [] tt tt
  coalesce_front c lo (y ∷ ys) g size above =
      let asc = Gapped-IsAscending lo (y ∷ ys) g in
      let c1 : FreeBlock = record { start = y.start - c.size; size = y.size + c.size } in
      ground
        (arith, laws.add_lem c [] (y ∷ ys) tt above, laws.remove_lem y [] ys asc, front c y ys asc)

  pub placed :
      (c : FreeBlock) (lo : ℕ) (xs ys : List FreeBlock)
      → Gapped lo (xs ++ ys)
      → 0 < c.size
      → All (λ b. b.start < c.start) xs
      → All (λ b. c.start < b.start) ys
      → add_unless sl c (coalesce sl c (length xs) (get_elem? (xs ++ ys) (length xs)) (xs ++ ys))
        ≡ give_back c (xs ++ ys)
  placed c lo xs ys g size below above = elim (last_view xs) [
    | inl e ↦ rw e (coalesce_front c lo ys (subst (λ zs. Gapped lo (zs ++ ys)) e g) size above)
    | inr (zs, p, e) ↦
        let l : (zs ++ (p ∷ [])) ++ ys ≡ zs ++ (p ∷ ys) = append_assoc zs (p ∷ []) ys in
        let n : length (zs ++ (p ∷ [])) ≡ suc (length zs) =
          omega (arith, length-append zs (p ∷ [])) in
        let g' = subst (Gapped lo) (ap (λ us. us ++ ys) e ∙ l) g in
        let h = All-last c.start zs p (subst (All (λ b. b.start < c.start)) e below) in
        rw (e, l, n)
          (coalesce_behind c p lo zs ys g' size h above ∙ sym (give_back_skip c p lo zs ys g' h))
  ]

  -- A block that starts where no free block does is put in its place and joined with what it
  -- touches.
  pub free_list :
      (c : FreeBlock) (lo : ℕ) (l : List FreeBlock)
      → Gapped lo l
      → 0 < c.size
      → All (λ b. b.start ≢ c.start) l
      → let index = sl.bisect_left c l in
        add_unless sl c (coalesce sl c index (get_elem? l index) l) ≡ give_back c l
  free_list c lo l g size apart =
      let s = divide c lo l g in
      let g' = subst (Gapped lo) s.whole g in
      let apart' = subst (All (λ b. b.start ≢ c.start)) s.whole apart in
      rw (s.whole, laws.bisect_left_lem c s.before s.behind s.smaller s.larger)
        (placed c lo s.before s.behind g' size s.smaller
          (All-behind c.start s.before s.behind apart' s.larger))
