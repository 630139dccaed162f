-- ===== src/Memory/AddressManager/Regions.antt =====
-- First fit and giving back, region by region: what is taken was free, lies apart from what stays
-- free, and can be given back to the same list.
use mathlib.Core.Option.{some-injective}
use serverless_lmcache.Common.{
  ℕ, suc, ◌+◌, ◌≤◌, ◌<◌, ◌≡◌, refl, sym, subst, ◌⊎◌, inl, inr, Bool-cases, Option-cases, ltb, leb,
  ◌==◌, some, List, [], ◌∷◌, arith, All,
}
use serverless_lmcache.Memory.FreeBlock.{FreeBlock}
use serverless_lmcache.Memory.AddressManager.{sum_sizes}
use serverless_lmcache.Memory.AddressManager.Reference.{
  Gapped, cut, take_first, join_next, give_back, Gapped-mono,
}

-- The region of `n` bytes at `s` and the block share no byte.
abbrev pub Apart : ℕ → ℕ → FreeBlock → Type 0
Apart s n b = (b.start + b.size ≤ s) ⊎ (s + n ≤ b.start)

module _ (n : ℕ) where
  -- What a successful first fit says of its region `(s, n)` and of the rest `r`.
  pub record Taken (lo : ℕ) (l : List FreeBlock) (s : ℕ) (r : List FreeBlock) : Type 0 where
    pub above : lo ≤ s
    pub gapped : Gapped lo r
    pub sizes : sum_sizes r + n ≡ sum_sizes l
    pub apart : All (Apart s n) r
    pub fits :
        (hi : ℕ)
        → All (λ b. b.start + b.size ≤ hi) l
        → (s + n ≤ hi) × All (λ b. b.start + b.size ≤ hi) r
    pub restored : 0 < n → give_back (record { start = s; size = n }) r ≡ l

  Apart-behind : (s lo : ℕ) (l : List FreeBlock) → s + n ≤ lo → Gapped lo l → All (Apart s n) l
  Apart-behind s lo [] h g = tt
  Apart-behind s lo (b ∷ l) h g =
      (inr (omega arith), Apart-behind s (suc (b.start + b.size)) l (omega arith) g.2)

  give_back-cut :
      (lo : ℕ) (b : FreeBlock) (l : List FreeBlock)
      → Gapped lo (b ∷ l)
      → n ≤ b.size
      → 0 < n
      → give_back (record { start = b.start; size = n }) (cut n b l) ≡ b ∷ l
  unfolding give_back
  give_back-cut lo b [] g h pos = ground arith
  give_back-cut lo b (y ∷ l) g h pos = ground arith

  cut-Taken :
      (lo : ℕ) (b : FreeBlock) (l : List FreeBlock)
      → Gapped lo (b ∷ l)
      → n ≤ b.size
      → Taken lo (b ∷ l) b.start (cut n b l)
  unfolding sum_sizes
  cut-Taken lo b l g h = record {
    above = g.0;
    gapped = gap;
    sizes = ground arith;
    apart = free;
    fits = λ hi f. (omega (arith, f.0), under hi f);
    restored = give_back-cut lo b l g h;
  }
    where
      gap : Gapped lo (cut n b l)
      gap = elim (Bool-cases (ltb n b.size)) [
        | inl y ↦ rw y (omega arith, ground (arith, y), Gapped-mono l (omega arith) g.2)
        | inr f ↦ rw f (Gapped-mono l (omega arith) g.2)
      ]

      under :
          (hi : ℕ)
          → All (λ c. c.start + c.size ≤ hi) (b ∷ l)
          → All (λ c. c.start + c.size ≤ hi) (cut n b l)
      under hi f = elim (Bool-cases (ltb n b.size)) [
        | inl y ↦ rw y (omega (arith, f.0), f.1)
        | inr z ↦ rw z (f.1)
      ]

      free : All (Apart b.start n) (cut n b l)
      free =
          let rest = Apart-behind b.start (suc (b.start + b.size)) l (omega arith) g.2 in
          elim (Bool-cases (ltb n b.size)) [
            | inl y ↦ rw y (inr (omega arith), rest)
            | inr f ↦ rw f rest
          ]

  skip-Taken :
      (lo : ℕ) (b : FreeBlock) (l : List FreeBlock) (s : ℕ) (r : List FreeBlock)
      → Gapped lo (b ∷ l)
      → Taken (suc (b.start + b.size)) l s r
      → Taken lo (b ∷ l) s (b ∷ r)
  unfolding sum_sizes give_back
  skip-Taken lo b l s r g t =
      let a = t.above in
      let q = t.sizes in
      record {
        above = omega arith;
        gapped = (g.0, g.1, t.gapped);
        sizes = omega arith;
        apart = (inl (omega arith), t.apart);
        fits = λ hi f. let u = t.fits hi f.1 in (u.0, (f.0, u.1));
        restored = λ pos. ground (arith, t.restored pos);
      }

  pub take_first-Taken :
      (lo : ℕ) (l : List FreeBlock) {s : ℕ} {r : List FreeBlock}
      → Gapped lo l
      → take_first n l ≡ some (s, r)
      → Taken lo l s r
  unfolding take_first sum_sizes
  take_first-Taken lo [] g e = absurd (ground arith)
  take_first-Taken lo (b ∷ l) {s} {r} g e = elim (Bool-cases (leb n b.size)) [
    | inl y ↦
        let found : ℕ × List FreeBlock = (b.start, cut n b l) in
        let wanted : ℕ × List FreeBlock = (s, r) in
        let eq : some found ≡ some wanted = ground (arith, e, y) in
        subst (λ p. Taken lo (b ∷ l) p.0 p.1) (some-injective _ _ eq)
          (cut-Taken lo b l g (ground (arith, y)))
    | inr f ↦ elim (Option-cases (take_first n l)) [
      | inl none_l ↦ absurd (ground (arith, e, f, none_l))
      | inr ((s', r'), some_l) ↦
          let found : ℕ × List FreeBlock = (s', b ∷ r') in
          let wanted : ℕ × List FreeBlock = (s, r) in
          let eq : some found ≡ some wanted = ground (arith, e, f, some_l) in
          subst (λ p. Taken lo (b ∷ l) p.0 p.1) (some-injective _ _ eq)
            (skip-Taken lo b l s' r' g (take_first-Taken (suc (b.start + b.size)) l g.2 some_l))
    ]
  ]

-- Joining or putting a block among the free ones keeps them apart and adds its bytes.
pub record Given (lo hi : ℕ) (c : FreeBlock) (l r : List FreeBlock) : Type 0 where
  pub gapped : Gapped lo r
  pub sizes : sum_sizes r ≡ c.size + sum_sizes l
  pub fits : All (λ b. b.start + b.size ≤ hi) r

pub join_next-Given :
    (lo hi : ℕ) (c : FreeBlock) (l : List FreeBlock)
    → Gapped (c.start + c.size) l
    → All (λ b. b.start + b.size ≤ hi) l
    → lo ≤ c.start
    → 0 < c.size
    → c.start + c.size ≤ hi
    → Given lo hi c l (join_next c l)
unfolding sum_sizes
join_next-Given lo hi c [] g f h pos top = record {
  gapped = (h, pos, tt);
  sizes = refl;
  fits = (top, tt);
}
join_next-Given lo hi c (b ∷ l) g f h pos top = elim (Bool-cases (c.start + c.size == b.start)) [
  | inl y ↦ rw y record {
    gapped = (h, omega arith, Gapped-mono l (ground (arith, y)) g.2);
    sizes = ground arith;
    fits = (ground (arith, y), f.1);
  }
  | inr n ↦
      rw n
        record { gapped = (h, pos, (ground (arith, n), g.1, g.2)); sizes = refl; fits = (top, f) }
]

-- Blocks past the start of a region, and apart from it, are past its end.
Gapped-past :
    (c : FreeBlock) (l : List FreeBlock) {lo : ℕ}
    → c.start ≤ lo
    → Gapped lo l
    → All (Apart c.start c.size) l
    → Gapped (c.start + c.size) l
Gapped-past c [] h g a = tt
Gapped-past c (b ∷ l) h g a = (ground (arith, a.0), g.1, g.2)

pub give_back-Given :
    (lo hi : ℕ) (c : FreeBlock) (l : List FreeBlock)
    → Gapped lo l
    → All (λ b. b.start + b.size ≤ hi) l
    → All (Apart c.start c.size) l
    → lo ≤ c.start
    → 0 < c.size
    → c.start + c.size ≤ hi
    → Given lo hi c l (give_back c l)
unfolding give_back sum_sizes
give_back-Given lo hi c [] g f a h pos top = record {
  gapped = (h, pos, tt);
  sizes = refl;
  fits = (top, tt);
}
give_back-Given lo hi c (b ∷ l) g f a h pos top = elim (Bool-cases (ltb b.start c.start)) [
  | inl y ↦
      let before : b.start + b.size ≤ c.start = ground (arith, y, a.0) in
      elim (Bool-cases (b.start + b.size == c.start)) [
        | inl e ↦
            let touch : b.start + b.size ≡ c.start = ground (arith, e) in
            let joined : FreeBlock = record { start = b.start; size = b.size + c.size } in
            let t =
              join_next-Given lo hi joined l
                (Gapped-mono l (omega arith) (Gapped-past c l (omega arith) g.2 a.1)) f.1 g.0
                (omega arith) (omega arith) in
            let q = t.sizes in
            let here : give_back c (b ∷ l) ≡ join_next joined l = ground (arith, y, e) in
            subst (Given lo hi c (b ∷ l)) (sym here)
              record { gapped = t.gapped; sizes = omega arith; fits = t.fits }
        | inr n ↦
            let t =
              give_back-Given (suc (b.start + b.size)) hi c l g.2 f.1 a.1 (ground (arith, n)) pos
                top in
            let q = t.sizes in
            let there : give_back c (b ∷ l) ≡ b ∷ give_back c l = ground (arith, y, n) in
            subst (Given lo hi c (b ∷ l)) (sym there)
              record { gapped = (g.0, g.1, t.gapped); sizes = omega arith; fits = (f.0, t.fits) }
      ]
  | inr n ↦
      let here : give_back c (b ∷ l) ≡ join_next c (b ∷ l) = ground (arith, n) in
      subst (Given lo hi c (b ∷ l)) (sym here)
        (join_next-Given lo hi c (b ∷ l) (ground (arith, n, a.0), g.1, g.2) f h pos top)
]
