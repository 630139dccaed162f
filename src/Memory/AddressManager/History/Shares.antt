-- ===== src/Memory/AddressManager/History/Shares.antt =====
-- The regions in use as callers may see them: in another order, cut in two, or joined.
use mathlib.Core.List.{Permᴰ}
use serverless_lmcache.Common.{
  ℕ, suc, ◌+◌, ◌<◌, ◌≡◌, refl, ap, subst, ◌∙◌, inl, some, List, [], ◌∷◌, arith, All, All-mono,
}
use serverless_lmcache.Memory.AddressManager.Reference.{Gapped}
use serverless_lmcache.Memory.FreeBlock.{FreeBlock, SortedList, SortedListLaws}
use serverless_lmcache.Memory.AddressManager.{AddressManager, free}
use serverless_lmcache.Memory.AddressManager.Ledger.{Disjoint, AllDisjoint, in_use}
use serverless_lmcache.Memory.AddressManager.History.{Ledger, take_out}
use serverless_lmcache.Memory.AddressManager.History.Kept.{free-Ledger, All-both}

pub All-perm : {A : Type 0} (P : A → Type 0) {xs ys : List A} → Permᴰ xs ys → All P xs → All P ys
All-perm P Permᴰ.nil h = tt
All-perm P (Permᴰ.cons e d) h = (subst P e h.0, All-perm P d h.1)
All-perm P (Permᴰ.swap e f) h = (subst P f h.1.0, (subst P e h.0, h.1.1))
All-perm P (Permᴰ.trans d f) h = All-perm P f (All-perm P d h)

AllDisjoint-perm : {rs qs : List (ℕ × ℕ)} → Permᴰ rs qs → AllDisjoint rs → AllDisjoint qs
AllDisjoint-perm Permᴰ.nil h = tt
AllDisjoint-perm (Permᴰ.cons {l₂ = l} e d) h =
    (subst (λ r. All (Disjoint r) l) e (All-perm (Disjoint _) d h.0), AllDisjoint-perm d h.1)
AllDisjoint-perm (Permᴰ.swap {a} {b} {a'} {b'} {l} e f) h =
    let other : Disjoint b a = ground (arith, h.0.0) in
    subst (λ r. AllDisjoint (a' ∷ r ∷ l)) e
      (subst (λ q. AllDisjoint (q ∷ a ∷ l)) f ((other, h.1.0), (h.0.1, h.1.1)))
AllDisjoint-perm (Permᴰ.trans d f) h = AllDisjoint-perm f (AllDisjoint-perm d h)

in_use-perm : {rs qs : List (ℕ × ℕ)} → Permᴰ rs qs → in_use rs ≡ in_use qs
in_use-perm Permᴰ.nil = refl
in_use-perm (Permᴰ.cons e d) = omega (arith, ap (λ r. r.1) e, in_use-perm d)
in_use-perm (Permᴰ.swap e f) = omega (arith, ap (λ r. r.1) e, ap (λ r. r.1) f)
in_use-perm (Permᴰ.trans d f) = in_use-perm d ∙ in_use-perm f

-- Gapped blocks are not empty.
sizes_above : (lo : ℕ) (l : List FreeBlock) → Gapped lo l → All (λ x. 0 < x.size) l
sizes_above lo [] g = tt
sizes_above lo (x ∷ l) g = (g.1, sizes_above (suc (x.start + x.size)) l g.2)

module _ (e : ℕ) (m : AddressManager) where
  pub Ledger-perm : {rs qs : List (ℕ × ℕ)} → Permᴰ rs qs → Ledger e m rs → Ledger e m qs
  Ledger-perm d w = record {
    align = w.align;
    kept = w.kept;
    counted = w.counted ∙ in_use-perm d;
    inside = All-perm _ d w.inside;
    spared = All-perm _ d w.spared;
    disjoint = AllDisjoint-perm d w.disjoint;
  }

  -- One region seen as two.
  pub cut-Ledger :
      (s a b : ℕ) (rs : List (ℕ × ℕ))
      → 0 < a
      → 0 < b
      → Ledger e m ((s, a + b) ∷ rs)
      → Ledger e m ((s, a) ∷ (s + a, b) ∷ rs)
  cut-Ledger s a b rs some_a some_b w = record {
    align = w.align;
    kept = w.kept;
    counted = omega (arith, w.counted);
    inside = (
      (some_a, omega (arith, w.inside.0.1)),
      ((some_b, omega (arith, w.inside.0.1)), w.inside.1),
    );
    spared = (
      All-mono _ _ (λ b h. ground (arith, h)) m.explicit_list w.spared.0,
      (All-mono _ _ (λ b h. ground (arith, h)) m.explicit_list w.spared.0, w.spared.1),
    );
    disjoint = (
      (inl (omega arith), All-mono _ _ (λ q h. ground (arith, h)) rs w.disjoint.0),
      (All-mono _ _ (λ q h. ground (arith, h)) rs w.disjoint.0, w.disjoint.1),
    );
  }

  -- Two regions that follow one another seen as one.
  pub join-Ledger :
      (s a t b : ℕ) (rs : List (ℕ × ℕ))
      → s + a ≡ t
      → Ledger e m ((s, a) ∷ (t, b) ∷ rs)
      → Ledger e m ((s, a + b) ∷ rs)
  join-Ledger s a t b rs next w = record {
    align = w.align;
    kept = w.kept;
    counted = omega (arith, w.counted);
    inside = ((omega (arith, w.inside.0.0), omega (arith, w.inside.1.0.1)), w.inside.1.1);
    spared = (
      All-mono _ _ (λ x h. ground (arith, h, next)) m.explicit_list
          (All-both _ _ m.explicit_list (All-both _ _ m.explicit_list w.spared.0 w.spared.1.0)
            (sizes_above 0 m.explicit_list w.kept.gapped)),
      w.spared.1.1,
    );
    disjoint = (
      All-mono _ _ (λ q h. ground (arith, h, next)) rs
          (All-both _ _ rs (All-both _ _ rs w.disjoint.0.1 w.disjoint.1.0) w.inside.1.1),
      w.disjoint.1.1,
    );
  }

module _ (sl : SortedList) (laws : SortedListLaws sl) (e : ℕ) where
  take_out_first : (s k : ℕ) (rs : List (ℕ × ℕ)) → take_out s ((s, k) ∷ rs) ≡ some ((s, k), rs)
  unfolding take_out
  take_out_first s k rs = ground arith

  pub free_first-Ledger :
      (m : AddressManager) (s k : ℕ) (rs : List (ℕ × ℕ))
      → Ledger e m ((s, k) ∷ rs)
      → Ledger e (free sl s k m) rs
  free_first-Ledger m s k rs w =
      free-Ledger sl laws e s m ((s, k) ∷ rs) rs s k w (take_out_first s k rs)
