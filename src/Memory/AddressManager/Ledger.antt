-- ===== src/Memory/AddressManager/Ledger.antt =====
-- Regions that are disjoint from each other and apart from the free blocks, and what first fit and
-- giving back do to them.
use mathlib.Core.Option.{some-injective}
use serverless_lmcache.Common.{
  ℕ, ◌+◌, ◌≤◌, ◌<◌, ◌≡◌, sym, subst, ◌⊎◌, inl, inr, Bool-cases, Option-cases, ltb, leb, ◌==◌, some,
  List, [], ◌∷◌, arith, All,
}
use serverless_lmcache.Memory.FreeBlock.{FreeBlock}
use serverless_lmcache.Memory.AddressManager.Reference.{cut, take_first, join_next, give_back}
use serverless_lmcache.Memory.AddressManager.Regions.{Apart}

-- Regions, as address and size.
abbrev pub Disjoint : ℕ × ℕ → ℕ × ℕ → Type 0
Disjoint r q = (r.0 + r.1 ≤ q.0) ⊎ (q.0 + q.1 ≤ r.0)

abbrev pub AllDisjoint : List (ℕ × ℕ) → Type 0
AllDisjoint [] = Unit
AllDisjoint (r ∷ l) = All (Disjoint r) l × AllDisjoint l

abbrev pub in_use : List (ℕ × ℕ) → ℕ
in_use [] = 0
in_use (r ∷ l) = r.1 + in_use l

-- A region apart from all free blocks is disjoint from what first fit takes, and apart from what
-- it leaves.
pub take_first-Apart :
    (n t k : ℕ) (l : List FreeBlock) {s : ℕ} {r : List FreeBlock}
    → take_first n l ≡ some (s, r)
    → All (Apart t k) l
    → All (Apart t k) r × Disjoint (s, n) (t, k)
unfolding take_first
take_first-Apart n t k [] e a = absurd (ground arith)
take_first-Apart n t k (b ∷ l) {s} {r} e a = elim (Bool-cases (leb n b.size)) [
  | inl y ↦
      let found : ℕ × List FreeBlock = (b.start, cut n b l) in
      let wanted : ℕ × List FreeBlock = (s, r) in
      let eq : some found ≡ some wanted = ground (arith, e, y) in
      subst (λ p. All (Apart t k) p.1 × Disjoint (p.0, n) (t, k)) (some-injective _ _ eq)
        (rest (ground (arith, y)), ground (arith, y, a.0))
  | inr f ↦ elim (Option-cases (take_first n l)) [
    | inl none_l ↦ absurd (ground (arith, e, f, none_l))
    | inr ((s', r'), some_l) ↦
        let found : ℕ × List FreeBlock = (s', b ∷ r') in
        let wanted : ℕ × List FreeBlock = (s, r) in
        let eq : some found ≡ some wanted = ground (arith, e, f, some_l) in
        let (later, apart) = take_first-Apart n t k l some_l a.1 in
        subst (λ p. All (Apart t k) p.1 × Disjoint (p.0, n) (t, k)) (some-injective _ _ eq)
          ((a.0, later), apart)
  ]
]
  where
    rest : n ≤ b.size → All (Apart t k) (cut n b l)
    rest h = elim (Bool-cases (ltb n b.size)) [
      | inl y ↦ rw y (ground (arith, a.0), a.1)
      | inr z ↦ rw z (a.1)
    ]

join_next-Apart :
    (t k : ℕ) (c : FreeBlock) (l : List FreeBlock)
    → 0 < k
    → Apart t k c
    → All (Apart t k) l
    → All (Apart t k) (join_next c l)
join_next-Apart t k c [] pos h a = (h, tt)
join_next-Apart t k c (b ∷ l) pos h a = elim (Bool-cases (c.start + c.size == b.start)) [
  | inl y ↦ rw y (ground (arith, y, h, a.0), a.1)
  | inr n ↦ rw n (h, a)
]

pub give_back-Apart :
    (t k : ℕ) (c : FreeBlock) (l : List FreeBlock)
    → 0 < k
    → Apart t k c
    → All (Apart t k) l
    → All (Apart t k) (give_back c l)
unfolding give_back
give_back-Apart t k c [] pos h a = (h, tt)
give_back-Apart t k c (b ∷ l) pos h a = elim (Bool-cases (ltb b.start c.start)) [
  | inl y ↦ elim (Bool-cases (b.start + b.size == c.start)) [
    | inl e ↦
        let joined : FreeBlock = record { start = b.start; size = b.size + c.size } in
        let here : give_back c (b ∷ l) ≡ join_next joined l = ground (arith, y, e) in
        subst (All (Apart t k)) (sym here)
          (join_next-Apart t k joined l pos (ground (arith, e, h, a.0)) a.1)
    | inr n ↦
        let there : give_back c (b ∷ l) ≡ b ∷ give_back c l = ground (arith, y, n) in
        subst (All (Apart t k)) (sym there) (a.0, give_back-Apart t k c l pos h a.1)
  ]
  | inr n ↦
      let here : give_back c (b ∷ l) ≡ join_next c (b ∷ l) = ground (arith, n) in
      subst (All (Apart t k)) (sym here) (join_next-Apart t k c (b ∷ l) pos h a)
]
