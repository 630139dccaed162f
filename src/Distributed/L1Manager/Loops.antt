-- ===== src/Distributed/L1Manager/Loops.antt =====
-- The loops of L1Manager, key by key: a round that touches one key only makes the loop a number of
-- steps of that key's object, whatever the other keys are.
use serverless_lmcache.Common.{
  ℕ, zero, suc, ◌<◌, ◌≡◌, refl, ap, ◌∙◌, ite, Option, none, some, List, [], ◌∷◌, arith, for_each,
  iterate, count_key,
}
use serverless_lmcache.Common.Dict.{Dict, get}
use serverless_lmcache.Distributed.L1Manager.{L1ObjectState, Loop, start}

-- What is reported for a key after `n` steps of its object, from what was reported before.
abbrev pub replies :
    {E R : Type 0} → (E → E) → (E → Option R → Option R) → ℕ → E → Option R → Option R
replies act reply zero e r = r
replies act reply (suc n) e r = replies act reply n (act e) (reply e r)

module _ {K M R X : Type 0} (dec : Discrete K) (key : X → K) where
  -- A round for `x` changes the object of its key by `act` and the report on it by `reply`, and
  -- leaves all other keys as they are.
  pub record IsLocal (act : Option (L1ObjectState M) → Option (L1ObjectState M))
      (reply : Option (L1ObjectState M) → Option R → Option R) (body : X → Loop K M R → Loop K M R)
      : Type 0 where
    pub objects :
        (x : X) (j : K) (s : Loop K M R)
        → get dec j (body x s).objects
          ≡ ite (dec (key x) j) (act (get dec (key x) s.objects)) (get dec j s.objects)
    pub ret :
        (x : X) (j : K) (s : Loop K M R)
        → get dec j (body x s).ret
          ≡ ite
              (dec (key x) j)
              (reply (get dec (key x) s.objects) (get dec (key x) s.ret))
              (get dec j s.ret)

  module _ {act : Option (L1ObjectState M) → Option (L1ObjectState M)}
      {reply : Option (L1ObjectState M) → Option R → Option R} {body : X → Loop K M R → Loop K M R}
      (local : IsLocal act reply body) where
    pub objects-for_each :
        (j : K) (xs : List X) (s : Loop K M R)
        → get dec j (for_each body xs s).objects
          ≡ iterate (count_key dec key j xs) act (get dec j s.objects)
    objects-for_each j [] s = refl
    objects-for_each j (x ∷ xs) s =
        ground (arith, objects-for_each j xs (body x s), local.objects x j s)

    pub ret-for_each :
        (j : K) (xs : List X) (s : Loop K M R)
        → get dec j (for_each body xs s).ret
          ≡ replies act reply (count_key dec key j xs) (get dec j s.objects) (get dec j s.ret)
    ret-for_each j [] s = refl
    ret-for_each j (x ∷ xs) s =
        ground (arith, ret-for_each j xs (body x s), local.objects x j s, local.ret x j s)

module _ {E : Type 0} (act : E → E) (e : E) (fixed : act e ≡ e) where
  iterate_fixed : (n : ℕ) → iterate n act e ≡ e
  iterate_fixed zero = refl
  iterate_fixed (suc n) = ap (iterate n act) fixed ∙ iterate_fixed n

  pub replies_fixed :
      {R : Type 0} (reply : E → Option R → Option R) (v : R)
      → ((r : Option R) → reply e r ≡ some v)
      → (n : ℕ) (r : Option R) → 0 < n
      → replies act reply n e r ≡ some v
  replies_fixed reply v says zero r h = elim h [ ]
  replies_fixed reply v says (suc zero) r h = says r
  replies_fixed reply v says (suc (suc n)) r h =
      ap (λ x. replies act reply (suc n) x (reply e r)) fixed
      ∙ replies_fixed reply v says (suc n) (reply e r) (omega arith)

module _ {K M R X : Type 0} (dec : Discrete K) (key : X → K) where
  module _ {act : Option (L1ObjectState M) → Option (L1ObjectState M)}
      {reply : Option (L1ObjectState M) → Option R → Option R} {body : X → Loop K M R → Loop K M R}
      (local : IsLocal dec key act reply body) where
    -- An object on which a round does nothing but report `v` stays, and `v` is the answer.
    pub for_each_fixed :
        (j : K) (xs : List X) (s : Loop K M R) (e : Option (L1ObjectState M)) (v : R)
        → act e ≡ e
        → ((r : Option R) → reply e r ≡ some v)
        → get dec j s.objects ≡ e
        → 0 < count_key dec key j xs
        → (get dec j (for_each body xs s).objects ≡ e)
          × (get dec j (for_each body xs s).ret ≡ some v)
    for_each_fixed j xs s e v fixed says there asked =
        let n = count_key dec key j xs in
        (
          objects-for_each dec key local j xs s
              ∙ ap (iterate n act) there
              ∙ iterate_fixed act e fixed n,
          ret-for_each dec key local j xs s
              ∙ ap (λ x. replies act reply n x (get dec j s.ret)) there
              ∙ replies_fixed act e fixed reply v says n (get dec j s.ret) asked,
        )

    -- The same from the start of a method, where nothing is reported yet.
    pub ret-start :
        (j : K) (xs : List X) (objects : Dict K (L1ObjectState M)) {e : Option (L1ObjectState M)}
        → get dec j objects ≡ e
        → get dec j (for_each body xs (start objects)).ret
          ≡ replies act reply (count_key dec key j xs) e none
    unfolding get
    ret-start j xs objects there =
        ret-for_each dec key local j xs (start objects)
        ∙ ap (λ x. replies act reply (count_key dec key j xs) x none) there

    pub objects-start :
        (j : K) (xs : List X) (objects : Dict K (L1ObjectState M)) {e : Option (L1ObjectState M)}
        → get dec j objects ≡ e
        → get dec j (for_each body xs (start objects)).objects
          ≡ iterate (count_key dec key j xs) act e
    objects-start j xs objects there =
        objects-for_each dec key local j xs (start objects)
        ∙ ap (iterate (count_key dec key j xs) act) there
