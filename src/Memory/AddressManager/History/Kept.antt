-- ===== src/Memory/AddressManager/History/Kept.antt =====
-- The regions that are in use never overlap, and the manager counts them right.
use mathlib.Core.Option.{some-injective}
use serverless_lmcache.Common.{
  ℕ, ◌+◌, ◌^◌, ◌≤◌, ◌<◌, ◌≡◌, refl, sym, ap, subst, ◌∙◌, inl, inr, Bool-cases, Option-cases, ◌==◌,
  some, List, [], ◌∷◌, arith, All, All-mono,
}
use serverless_lmcache.Memory.FreeBlock.{FreeBlock, SortedList, SortedListLaws}
use serverless_lmcache.Memory.AddressManager.{
  AddressManager, compute_aligned_size, new, allocate, free, sbrk,
}
use serverless_lmcache.Memory.AddressManager.Refines.{free-give_back, sbrk-give_back}
use serverless_lmcache.Memory.AddressManager.Regions.{Apart}
use serverless_lmcache.Memory.AddressManager.Aligned.{compute_aligned_size_rounds_up}
use serverless_lmcache.Memory.AddressManager.Consistent.{
  new-Consistent, allocate-Taken, allocate-Allocation, free-Consistent, sbrk-Consistent,
  Apart-starts, ends_below,
}
use serverless_lmcache.Memory.AddressManager.Ledger.{
  Disjoint, AllDisjoint, in_use, take_first-Apart, give_back-Apart,
}
use serverless_lmcache.Memory.AddressManager.History.{
  Call, allocates, frees, grows, Book, take_out, Ledger, step, run, IsProper,
}

pub All-both :
    {A : Type 0} (P Q : A → Type 0) (xs : List A) → All P xs → All Q xs → All (λ x. P x × Q x) xs
All-both P Q [] p q = tt
All-both P Q (x ∷ xs) p q = ((p.0, q.0), All-both P Q xs p.1 q.1)

pub aligned_pos : (e n : ℕ) {a : ℕ} → a ≡ 2 ^ e → 0 < n → 0 < compute_aligned_size a n
aligned_pos e n align pos =
    subst (λ a. 0 < compute_aligned_size a n) (sym align)
      (omega (arith, (compute_aligned_size_rounds_up e n).1))

take_out-All :
    (P : ℕ × ℕ → Type 0) (address : ℕ) (l : List (ℕ × ℕ)) {r : ℕ × ℕ} {rest : List (ℕ × ℕ)}
    → take_out address l ≡ some (r, rest)
    → All P l
    → P r × All P rest
unfolding take_out
take_out-All P address [] e h = absurd (ground arith)
take_out-All P address (q ∷ l) {r} {rest} e h = elim (Bool-cases (q.0 == address)) [
  | inl y ↦
      let found : (ℕ × ℕ) × List (ℕ × ℕ) = (q, l) in
      let wanted : (ℕ × ℕ) × List (ℕ × ℕ) = (r, rest) in
      let eq : some found ≡ some wanted = ground (arith, e, y) in
      subst (λ p. P p.0 × All P p.1) (some-injective _ _ eq) (h.0, h.1)
  | inr n ↦ elim (Option-cases (take_out address l)) [
    | inl missing ↦ absurd (ground (arith, e, n, missing))
    | inr ((r', rest'), here) ↦
        let found : (ℕ × ℕ) × List (ℕ × ℕ) = (r', q ∷ rest') in
        let wanted : (ℕ × ℕ) × List (ℕ × ℕ) = (r, rest) in
        let eq : some found ≡ some wanted = ground (arith, e, n, here) in
        let (one, others) = take_out-All P address l here h.1 in
        subst (λ p. P p.0 × All P p.1) (some-injective _ _ eq) (one, (h.0, others))
  ]
]

take_out-AllDisjoint :
    (address : ℕ) (l : List (ℕ × ℕ)) {r : ℕ × ℕ} {rest : List (ℕ × ℕ)}
    → take_out address l ≡ some (r, rest)
    → AllDisjoint l
    → All (Disjoint r) rest × AllDisjoint rest × (in_use l ≡ r.1 + in_use rest)
unfolding take_out
take_out-AllDisjoint address [] e h = absurd (ground arith)
take_out-AllDisjoint address (q ∷ l) {r} {rest} e h = elim (Bool-cases (q.0 == address)) [
  | inl y ↦
      let found : (ℕ × ℕ) × List (ℕ × ℕ) = (q, l) in
      let wanted : (ℕ × ℕ) × List (ℕ × ℕ) = (r, rest) in
      let eq : some found ≡ some wanted = ground (arith, e, y) in
      subst (λ p. All (Disjoint p.0) p.1 × AllDisjoint p.1 × (in_use (q ∷ l) ≡ p.0.1 + in_use p.1))
        (some-injective _ _ eq) (h.0, h.1, refl)
  | inr n ↦ elim (Option-cases (take_out address l)) [
    | inl missing ↦ absurd (ground (arith, e, n, missing))
    | inr ((r', rest'), here) ↦
        let found : (ℕ × ℕ) × List (ℕ × ℕ) = (r', q ∷ rest') in
        let wanted : (ℕ × ℕ) × List (ℕ × ℕ) = (r, rest) in
        let eq : some found ≡ some wanted = ground (arith, e, n, here) in
        let (apart, others, sum) = take_out-AllDisjoint address l here h.1 in
        let (first, later) = take_out-All (Disjoint q) address l here h.0 in
        subst
          (λ p. All (Disjoint p.0) p.1 × AllDisjoint p.1 × (in_use (q ∷ l) ≡ p.0.1 + in_use p.1))
          (some-injective _ _ eq)
          ((ground (arith, first), apart), (later, others), omega (arith, sum))
  ]
]

module _ (sl : SortedList) (laws : SortedListLaws sl) (e : ℕ) where
  pub allocate-Ledger :
      (n : ℕ) (m m' : AddressManager) (regions : List (ℕ × ℕ)) (s k : ℕ)
      → 0 < n
      → Ledger e m regions
      → allocate sl n m ≡ some ((s, k), m')
      → Ledger e m' ((s, k) ∷ regions)
  allocate-Ledger n m m' regions s k pos w found =
      let (r, taken, at_k, at_m) = allocate-Taken sl laws n m m' s k w.kept.gapped found in
      let a = allocate-Allocation sl laws n m m' s k w.kept found in
      let z = compute_aligned_size m.align n in
      let size : m'.size ≡ m.size = ap (λ m. m.size) at_m in
      let total = ap (λ m. m.total_allocated_size) at_m in
      let up = aligned_pos e n w.align pos in
      let each =
        All-mono _ (λ q. All (Apart q.0 q.1) r × Disjoint (s, z) q)
          (λ q p. take_first-Apart z q.0 q.1 m.explicit_list taken p) regions w.spared in
      let c = w.counted in
      record {
        align = ap (λ m. m.align) at_m ∙ w.align;
        kept = a.kept;
        counted = omega arith;
        inside = (
          (omega arith, omega (arith, a.inside)),
          All-mono _ _ (λ q p. (p.0, omega (arith, p.1))) regions w.inside,
        );
        spared = (
          a.apart,
          All-mono _ _ (λ q p. subst (λ m. All (Apart q.0 q.1) m.explicit_list) (sym at_m) p.0)
              regions each,
        );
        disjoint = (
          All-mono _ _ (λ q p. subst (λ k. Disjoint (s, k) q) (sym at_k) p.1) regions each,
          w.disjoint,
        );
      }

  pub free-Ledger :
      (address : ℕ) (m : AddressManager) (regions rest : List (ℕ × ℕ)) (s k : ℕ)
      → Ledger e m regions
      → take_out address regions ≡ some ((s, k), rest)
      → Ledger e (free sl s k m) rest
  free-Ledger address m regions rest s k w out =
      let (apart, others, sum) = take_out-AllDisjoint address regions out w.disjoint in
      let (here, inside) = take_out-All _ address regions out w.inside in
      let (spared, later) = take_out-All _ address regions out w.spared in
      let c = w.counted in
      let kept = free-Consistent sl laws s k m w.kept here.0 (omega arith) here.1 spared in
      let back =
        free-give_back sl laws s k m w.kept.gapped here.0
          (Apart-starts s k 0 m.explicit_list here.0 w.kept.gapped spared) in
      let each = All-both _ _ rest (All-both _ _ rest inside later) apart in
      let block : FreeBlock = record { start = s; size = k } in
      record {
        align = ap (λ m. m.align) back ∙ w.align;
        kept = kept.0;
        counted = ap (λ m. m.total_allocated_size) back ∙ omega arith;
        inside =
            All-mono _ _ (λ q p. (p.0, subst (λ m. q.0 + q.1 ≤ m.size) (sym back) p.1)) rest inside;
        spared =
            All-mono _ _
              (λ q p.
                subst (λ m. All (Apart q.0 q.1) m.explicit_list) (sym back)
                  (give_back-Apart q.0 q.1 block m.explicit_list p.0.0.0 p.1 p.0.1))
              rest each;
        disjoint = others;
      }

  sbrk-Ledger :
      (n : ℕ) (m : AddressManager) (regions : List (ℕ × ℕ))
      → 0 < n
      → Ledger e m regions
      → Ledger e (sbrk sl n m) regions
  sbrk-Ledger n m regions pos w =
      let z = compute_aligned_size m.align n in
      let up = aligned_pos e n w.align pos in
      let kept = sbrk-Consistent sl laws n m w.kept up in
      let below = ends_below 0 m.size z m.explicit_list w.kept.gapped w.kept.fits in
      let grown = sbrk-give_back sl laws n m w.kept.gapped up below.0 in
      let each = All-both _ _ regions w.inside w.spared in
      let block : FreeBlock = record { start = m.size; size = z } in
      record {
        align = ap (λ m. m.align) grown ∙ w.align;
        kept = kept.0;
        counted = ap (λ m. m.total_allocated_size) grown ∙ w.counted;
        inside =
            All-mono _ _
              (λ q p. (p.0, subst (λ m. q.0 + q.1 ≤ m.size) (sym grown) (omega (arith, p.1))))
              regions w.inside;
        spared =
            All-mono _ _
              (λ q p.
                subst (λ m. All (Apart q.0 q.1) m.explicit_list) (sym grown)
                  (give_back-Apart q.0 q.1 block m.explicit_list p.0.0 (inr p.0.1) p.1))
              regions each;
        disjoint = w.disjoint;
      }

module _ (sl : SortedList) (laws : SortedListLaws sl) (e : ℕ) where
  step-Ledger :
      (c : Call) (bk : Book)
      → IsProper c
      → Ledger e bk.manager bk.regions
      → Ledger e (step sl c bk).manager (step sl c bk).regions
  unfolding step
  step-Ledger (allocates n) bk p w = elim (Option-cases (allocate sl n bk.manager)) [
    | inl refused ↦ rw (refused, step) w
    | inr (((s, k), m'), found) ↦
        rw (found, step) (allocate-Ledger sl laws e n bk.manager m' bk.regions s k p w found)
  ]
  step-Ledger (frees address) bk p w = elim (Option-cases (take_out address bk.regions)) [
    | inl missing ↦ rw (missing, step) w
    | inr (((s, k), rest), out) ↦
        rw (out, step) (free-Ledger sl laws e address bk.manager bk.regions rest s k w out)
  ]
  step-Ledger (grows n) bk p w = sbrk-Ledger sl laws e n bk.manager bk.regions p w

  -- Take a manager that is consistent, has a power of two as its alignment, counts as allocated
  -- what a list of regions takes up, and whose regions are not empty, inside the address space,
  -- disjoint from each other and apart from the free blocks. After any sequence of allocations and
  -- growths by sizes above 0, failed allocations included, and frees of regions that were given
  -- out, all that holds again.
  pub run-Ledger :
      (cs : List Call) (bk : Book)
      → All IsProper cs
      → Ledger e bk.manager bk.regions
      → Ledger e (run sl cs bk).manager (run sl cs bk).regions
  unfolding run
  run-Ledger [] bk p w = w
  run-Ledger (c ∷ cs) bk p w = run-Ledger cs (step sl c bk) p.1 (step-Ledger c bk p.0 w)

-- A fresh manager has given out nothing.
pub new-Ledger : (e size : ℕ) → 0 < size → Ledger e (new size (2 ^ e)) []
unfolding new
new-Ledger e size pos = record {
  align = refl;
  kept = new-Consistent size (2 ^ e) pos;
  counted = refl;
  inside = tt;
  spared = tt;
  disjoint = tt;
}
