-- ===== src/Memory/AddressManager/Reference.antt =====
-- The same operations on the ordered list of free blocks by plain recursion, and that the code
-- computes them.

use serverless_lmcache.Common.{
  ℕ, suc, ◌+◌, ◌-◌, ◌≤◌, ◌<◌, ◌≡◌, refl, ap, inl, inr, true, false, ◌==◌, ltb, leb, if◌then◌else◌,
  Bool-cases, Option, none, some, List, [], ◌∷◌, ◌++◌, arith, All, length, get_elem?,
}
use serverless_lmcache.Memory.FreeBlock.{FreeBlock, IsAscending}

-- Free blocks from `lo` on, none empty, and no two that touch.
abbrev pub Gapped : ℕ → List FreeBlock → Type 0
Gapped lo [] = Unit
Gapped lo (b ∷ l) = (lo ≤ b.start) × (0 < b.size) × Gapped (suc (b.start + b.size)) l

-- What is left of a block when its first `n` bytes are taken.
abbrev pub cut : ℕ → FreeBlock → List FreeBlock → List FreeBlock
cut n b l = if ltb n b.size then record { start = b.start + n; size = b.size - n } ∷ l else l

-- First fit.
unfoldable pub take_first : ℕ → List FreeBlock → Option (ℕ × List FreeBlock)
take_first n [] = none
take_first n (b ∷ l) = elim (leb n b.size) [
  | true ↦ some (b.start, cut n b l)
  | false ↦ elim (take_first n l) [ none ↦ none | some (s, r) ↦ some (s, b ∷ r) ]
]

-- A block before the list, joined with the first one if they touch.
abbrev pub join_next : FreeBlock → List FreeBlock → List FreeBlock
join_next c [] = c ∷ []
join_next c (b ∷ l) =
    if c.start + c.size == b.start
    then record { start = c.start; size = c.size + b.size } ∷ l
    else c ∷ b ∷ l

-- The block put at its place, joined with its neighbours.
unfoldable pub give_back : FreeBlock → List FreeBlock → List FreeBlock
give_back c [] = c ∷ []
give_back c (b ∷ l) = elim (ltb b.start c.start) [
  | true ↦ elim (b.start + b.size == c.start) [
    | true ↦ join_next (record { start = b.start; size = b.size + c.size }) l
    | false ↦ b ∷ give_back c l
  ]
  | false ↦ join_next c (b ∷ l)
]

pub Gapped-mono : (l : List FreeBlock) {lo hi : ℕ} → lo ≤ hi → Gapped hi l → Gapped lo l
Gapped-mono [] h g = tt
Gapped-mono (b ∷ l) h g = (omega arith, g.1, g.2)

pub Gapped-above :
    (l : List FreeBlock) {lo : ℕ} (n : ℕ) → n < lo → Gapped lo l → All (λ c. n < c.start) l
Gapped-above [] n h g = tt
Gapped-above (b ∷ l) n h g = (omega arith, Gapped-above l n (omega arith) g.2)

pub Gapped-IsAscending : (lo : ℕ) (l : List FreeBlock) → Gapped lo l → IsAscending l
Gapped-IsAscending lo [] g = tt
Gapped-IsAscending lo (b ∷ l) g =
    (Gapped-above l b.start (omega arith) g.2, Gapped-IsAscending (suc (b.start + b.size)) l g.2)

-- The blocks before a place, and those from it on.
pub record Split (c : FreeBlock) (l : List FreeBlock) : Type 0 where
  pub before : List FreeBlock
  pub behind : List FreeBlock
  pub whole : l ≡ before ++ behind
  pub smaller : All (λ b. b.start < c.start) before
  pub larger : All (λ b. c.start ≤ b.start) behind

pub divide : (c : FreeBlock) (lo : ℕ) (l : List FreeBlock) → Gapped lo l → Split c l
divide c lo [] g = record { before = []; behind = []; whole = refl; smaller = tt; larger = tt }
divide c lo (b ∷ l) g = elim (Bool-cases (ltb b.start c.start)) [
  | inl y ↦
      let s = divide c (suc (b.start + b.size)) l g.2 in
      record {
        before = b ∷ s.before;
        behind = s.behind;
        whole = ap (◌∷◌ b) s.whole;
        smaller = (ground (arith, y), s.smaller);
        larger = s.larger;
      }
  | inr n ↦ record {
    before = [];
    behind = b ∷ l;
    whole = refl;
    smaller = tt;
    larger = (ground (arith, n), from c.start b l (ground (arith, n)) g);
  }
]
  where
    from :
        (n : ℕ) (b : FreeBlock) (l : List FreeBlock) {lo : ℕ}
        → n ≤ b.start
        → Gapped lo (b ∷ l)
        → All (λ x. n ≤ x.start) l
    from n b [] h g = tt
    from n b (x ∷ l) h g = (omega arith, from n x l (omega arith) g.2)

-- Everything below a block that lies before the place stays.
pub give_back_skip :
    (c p : FreeBlock) (lo : ℕ) (zs ys : List FreeBlock)
    → Gapped lo (zs ++ (p ∷ ys))
    → p.start < c.start
    → give_back c (zs ++ (p ∷ ys)) ≡ zs ++ give_back c (p ∷ ys)
unfolding give_back
give_back_skip c p lo [] ys g h = refl
give_back_skip c p lo (z ∷ zs) ys g h =
    let below = next_above zs g.2 in
    ground (arith, below, give_back_skip c p (suc (z.start + z.size)) zs ys g.2 h)
  where
    next_above : (us : List FreeBlock) {m : ℕ} → Gapped m (us ++ (p ∷ ys)) → m ≤ p.start
    next_above [] g = omega arith
    next_above (u ∷ us) g = let r = next_above us g.2 in omega arith

pub All-snoc_start :
    (n : ℕ) (zs : List FreeBlock) (p : FreeBlock) (ys : List FreeBlock)
    → IsAscending (zs ++ (p ∷ ys))
    → p.start ≤ n
    → All (λ b. b.start ≤ n) (zs ++ (p ∷ []))
All-snoc_start n [] p ys a h = (h, tt)
All-snoc_start n (z ∷ zs) p ys a h = (omega (arith, at_mid zs a.0), All-snoc_start n zs p ys a.1 h)
  where
    at_mid :
        (us : List FreeBlock) → All (λ b. z.start < b.start) (us ++ (p ∷ ys)) → z.start < p.start
    at_mid [] x = x.0
    at_mid (u ∷ us) x = at_mid us x.1

pub IsAscending-resize :
    (zs ys : List FreeBlock) (p p' : FreeBlock)
    → p'.start ≡ p.start
    → IsAscending (zs ++ (p ∷ ys))
    → IsAscending (zs ++ (p' ∷ ys))
IsAscending-resize [] ys p p' e a = (rw e a.0, a.1)
IsAscending-resize (z ∷ zs) ys p p' e a = (swap zs a.0, IsAscending-resize zs ys p p' e a.1)
  where
    swap :
        (us : List FreeBlock)
        → All (λ b. z.start < b.start) (us ++ (p ∷ ys))
        → All (λ b. z.start < b.start) (us ++ (p' ∷ ys))
    swap [] x = (rw e x.0, x.1)
    swap (u ∷ us) x = (x.0, swap us x.1)

pub get_elem?_second_none :
    (zs : List FreeBlock) (p : FreeBlock) → get_elem? (zs ++ (p ∷ [])) (suc (length zs)) ≡ none
get_elem?_second_none [] p = refl
get_elem?_second_none (z ∷ zs) p = get_elem?_second_none zs p

pub get_elem?_second :
    (zs : List FreeBlock) (p y : FreeBlock) (ys : List FreeBlock)
    → get_elem? (zs ++ (p ∷ y ∷ ys)) (suc (length zs)) ≡ some y
get_elem?_second [] p y ys = refl
get_elem?_second (z ∷ zs) p y ys = get_elem?_second zs p y ys

pub IsAscending-drop_second :
    (zs ys : List FreeBlock) (p y : FreeBlock)
    → IsAscending (zs ++ (p ∷ y ∷ ys))
    → IsAscending (zs ++ (p ∷ ys)) × All (λ b. y.start < b.start) ys
IsAscending-drop_second [] ys p y a = ((a.0.1, a.1.1), a.1.0)
IsAscending-drop_second (z ∷ zs) ys p y a =
    let rest = IsAscending-drop_second zs ys p y a.1 in ((less zs a.0, rest.0), rest.1)
  where
    less :
        (us : List FreeBlock)
        → All (λ b. z.start < b.start) (us ++ (p ∷ y ∷ ys))
        → All (λ b. z.start < b.start) (us ++ (p ∷ ys))
    less [] x = (x.0, x.1.1)
    less (u ∷ us) x = (x.0, less us x.1)
