-- ===== src/Common/Dict.antt =====
-- Python's insertion-ordered `dict` (and `OrderedDict`) as an association list: a write to a key
-- that is present keeps its place, a new key goes to the end.
use mathlib.Core.Path.{◌≡◌, refl, subst}
use mathlib.Core.Logic.{ite, if_pos, if_neg}
use mathlib.Core.Option.{Option, none, some}
use mathlib.Core.List.{List, [], ◌∷◌, map}
use native.Mathlib.Omega.{arith}

abbrev pub Dict {ℓ} : Type ℓ → Type ℓ → Type ℓ
Dict K V = List (K × V)

module _ {ℓ} {K V : Type ℓ} where
  abbrev pub keys : Dict K V → List K
  keys = map (λ e. e.0)

  abbrev pub values : Dict K V → List V
  values = map (λ e. e.1)

module _ {ℓ} {K V : Type ℓ} (dec : Discrete K) where
  -- `d.get(k, None)`
  unfoldable pub get : K → Dict K V → Option V
  get k [] = none
  get k ((j, v) ∷ d) = ite (dec j k) (some v) (get k d)

  -- `d[k] = v`
  unfoldable pub insert : K → V → Dict K V → Dict K V
  insert k v [] = (k, v) ∷ []
  insert k v ((j, w) ∷ d) = ite (dec j k) ((j, v) ∷ d) ((j, w) ∷ insert k v d)

  -- `del d[k]`; keys are unique in a dictionary
  unfoldable pub erase : K → Dict K V → Dict K V
  erase k [] = []
  erase k ((j, w) ∷ d) = ite (dec j k) (erase k d) ((j, w) ∷ erase k d)

  pub get-insert :
      (k j : K) (v : V) (d : Dict K V) → get j (insert k v d) ≡ ite (dec k j) (some v) (get j d)
  unfolding get insert
  get-insert k j v [] = refl
  get-insert k j v ((i, w) ∷ d) = ground (arith, get-insert k j v d)

  pub insert-insert : (k : K) (v w : V) (d : Dict K V) → insert k v (insert k w d) ≡ insert k v d
  unfolding insert
  insert-insert k v w [] = ground arith
  insert-insert k v w ((i, x) ∷ d) = ground (arith, insert-insert k v w d)

  pub get-erase : (k j : K) (d : Dict K V) → get j (erase k d) ≡ ite (dec k j) none (get j d)
  unfolding get erase
  get-erase k j [] = ground arith
  get-erase k j ((i, w) ∷ d) = ground (arith, get-erase k j d)

  -- Every key stands once, as Python's `dict` guarantees.
  abbrev pub IsUnique : Dict K V → Type ℓ
  IsUnique [] = Unit
  IsUnique ((k, v) ∷ d) = (get k d ≡ none) × IsUnique d

  pub insert-IsUnique : (k : K) (v : V) (d : Dict K V) → IsUnique d → IsUnique (insert k v d)
  unfolding insert get
  insert-IsUnique k v [] u = (refl, tt)
  insert-IsUnique k v ((j, w) ∷ d) u = ground (arith, insert-IsUnique k v d u.1, get-insert k j v d)

  pub erase-IsUnique : (k : K) (d : Dict K V) → IsUnique d → IsUnique (erase k d)
  unfolding erase
  erase-IsUnique k [] u = tt
  erase-IsUnique k ((j, w) ∷ d) u = ground (arith, erase-IsUnique k d u.1, get-erase k j d)

  pub erase_absent : (k : K) (d : Dict K V) → get k d ≡ none → erase k d ≡ d
  unfolding erase get
  erase_absent k [] h = refl
  erase_absent k ((j, w) ∷ d) h = ground (arith, erase_absent k d)

module _ {ℓ κ} {K V : Type ℓ} (dec : Discrete K) (F : K → Option V → Type κ) where
  -- A property of the entry under each key.
  pub each-insert :
      (k : K) (v : V) (d : Dict K V)
      → F k (some v)
      → ((j : K) → F j (get dec j d))
      → (j : K) → F j (get dec j (insert dec k v d))
  each-insert k v d new h j = rw (get-insert dec k j v d) (elim (dec k j) [
    | yes same ↦ rw (if_pos (dec k j) same) (subst (λ i. F i (some v)) same new)
    | no ne ↦ rw (if_neg (dec k j) ne) (h j)
  ])

  pub each-erase :
      (k : K) (d : Dict K V)
      → F k none
      → ((j : K) → F j (get dec j d))
      → (j : K) → F j (get dec j (erase dec k d))
  each-erase k d gone h j = rw (get-erase dec k j d) (elim (dec k j) [
    | yes same ↦ rw (if_pos (dec k j) same) (subst (λ i. F i none) same gone)
    | no ne ↦ rw (if_neg (dec k j) ne) (h j)
  ])
