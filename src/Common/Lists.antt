-- ===== src/Common/Lists.antt =====
-- Lists measured by native numbers, and a loop over a list with its invariant rule.
use Prim.Native.Nat.{ℕ, zero, suc, ◌+◌, min}
use mathlib.Core.Path.{◌≡◌, refl, ap}
use mathlib.Core.Bool.{Bool, true, false}
use mathlib.Core.Logic.{◌⊎◌, inl, inr, ite, if_pos, if_neg}
use mathlib.Core.List.{List, [], ◌∷◌, ◌++◌, map}
use mathlib.Core.Option.{Option, none, some}
use native.Mathlib.Omega.{arith}

module _ {ℓ} {A : Type ℓ} where
  abbrev pub length : List A → ℕ
  length [] = 0
  length (x ∷ xs) = suc (length xs)

  abbrev pub take : ℕ → List A → List A
  take zero xs = []
  take (suc n) [] = []
  take (suc n) (x ∷ xs) = x ∷ take n xs

  abbrev pub drop : ℕ → List A → List A
  drop zero xs = xs
  drop (suc n) [] = []
  drop (suc n) (x ∷ xs) = drop n xs

  pub length-append : (xs ys : List A) → length (xs ++ ys) ≡ length xs + length ys
  length-append [] ys = omega arith
  length-append (x ∷ xs) ys = omega (arith, length-append xs ys)

  pub length-take : (n : ℕ) (xs : List A) → length (take n xs) ≡ min n (length xs)
  length-take zero xs = omega arith
  length-take (suc n) [] = omega arith
  length-take (suc n) (x ∷ xs) = omega (arith, length-take n xs)

  pub take-append-drop : (n : ℕ) (xs : List A) → take n xs ++ drop n xs ≡ xs
  take-append-drop zero xs = refl
  take-append-drop (suc n) [] = refl
  take-append-drop (suc n) (x ∷ xs) = ap (◌∷◌ x) (take-append-drop n xs)

  -- `for x in xs: s = body(x, s)`
  abbrev pub for_each {κ} : {S : Type κ} → (A → S → S) → List A → S → S
  for_each body [] s = s
  for_each body (x ∷ xs) s = for_each body xs (body x s)

  pub for_each_inv {κ μ} :
      {S : Type κ} (P : S → Type μ) (body : A → S → S)
      → ((x : A) (s : S) → P s → P (body x s))
      → (xs : List A) (s : S) → P s
      → P (for_each body xs s)
  for_each_inv P body keep [] s h = h
  for_each_inv P body keep (x ∷ xs) s h = for_each_inv P body keep xs (body x s) (keep x s h)

module _ {ℓ} {A : Type ℓ} where
  -- `f` applied `n` times.
  abbrev pub iterate : ℕ → (A → A) → A → A
  iterate zero f a = a
  iterate (suc n) f a = iterate n f (f a)

module _ {ℓ} {A : Type ℓ} (dec : Discrete A) where
  -- How many elements of a list have the key `a`.
  abbrev pub count_key {κ} : {X : Type κ} → (X → A) → A → List X → ℕ
  count_key key a [] = 0
  count_key key a (x ∷ xs) = ite (dec (key x) a) (suc (count_key key a xs)) (count_key key a xs)

  -- How often `a` stands in a list.
  abbrev pub count : A → List A → ℕ
  count = count_key (λ x. x)

module _ {ℓ} {A : Type ℓ} (dec : Discrete A) where
  pub count_key-append {κ} :
      {X : Type κ} (key : X → A) (a : A) (xs ys : List X)
      → count_key dec key a (xs ++ ys) ≡ count_key dec key a xs + count_key dec key a ys
  count_key-append key a [] ys = omega arith
  count_key-append key a (x ∷ xs) ys = ground (arith, count_key-append key a xs ys)

  pub count-append :
      (a : A) (xs ys : List A) → count dec a (xs ++ ys) ≡ count dec a xs + count dec a ys
  count-append a [] ys = omega arith
  count-append a (x ∷ xs) ys = ground (arith, count-append a xs ys)

-- Python's `zip`, which stops at the shorter list.
abbrev pub zip {ℓ} : {A B : Type ℓ} → List A → List B → List (A × B)
zip [] ys = []
zip (x ∷ xs) [] = []
zip (x ∷ xs) (y ∷ ys) = (x, y) ∷ zip xs ys

module _ {ℓ} {A : Type ℓ} where
  -- A predicate on every element.
  abbrev pub All {κ} : (A → Type κ) → List A → Type κ
  All P [] = Unit
  All P (x ∷ xs) = P x × All P xs

  pub All-append {κ} : (P : A → Type κ) (xs ys : List A) → All P xs → All P ys → All P (xs ++ ys)
  All-append P [] ys hx hy = hy
  All-append P (x ∷ xs) ys hx hy = (hx.0, All-append P xs ys hx.1 hy)

  pub All-split {κ} : (P : A → Type κ) (xs ys : List A) → All P (xs ++ ys) → All P xs × All P ys
  All-split P [] ys h = (tt, h)
  All-split P (x ∷ xs) ys h = ((h.0, (All-split P xs ys h.1).0), (All-split P xs ys h.1).1)

  pub All-mono {κ μ} :
      (P : A → Type κ) (Q : A → Type μ)
      → ((x : A) → P x → Q x)
      → (xs : List A) → All P xs
      → All Q xs
  All-mono P Q f [] h = tt
  All-mono P Q f (x ∷ xs) h = (f x h.0, All-mono P Q f xs h.1)

module _ {ℓ} {A : Type ℓ} (dec : Discrete A) where
  -- `a in xs`
  abbrev pub contains : A → List A → Bool
  contains a [] = false
  contains a (x ∷ xs) = ite (dec x a) true (contains a xs)

  -- The list without `a`.
  unfoldable pub remove : A → List A → List A
  remove a [] = []
  remove a (x ∷ xs) = ite (dec x a) (remove a xs) (x ∷ remove a xs)

  pub All-remove {κ} : (P : A → Type κ) (a : A) (xs : List A) → All P xs → All P (remove a xs)
  unfolding remove
  All-remove P a [] h = tt
  All-remove P a (x ∷ xs) h = elim (dec x a) [
    | yes e ↦ rw (if_pos (dec x a) e) (All-remove P a xs h.1)
    | no ne ↦ rw (if_neg (dec x a) ne) (h.0, All-remove P a xs h.1)
  ]

module _ {ℓ} {A : Type ℓ} where
  abbrev pub get_elem? : List A → ℕ → Option A
  get_elem? [] i = none
  get_elem? (x ∷ xs) zero = some x
  get_elem? (x ∷ xs) (suc i) = get_elem? xs i

  abbrev pub set : List A → ℕ → A → List A
  set [] i v = []
  set (x ∷ xs) zero v = v ∷ xs
  set (x ∷ xs) (suc i) v = x ∷ set xs i v

  -- The place behind `xs`.
  pub get_elem?-append_length :
      (xs : List A) (y : A) (ys : List A) → get_elem? (xs ++ (y ∷ ys)) (length xs) ≡ some y
  get_elem?-append_length [] y ys = refl
  get_elem?-append_length (x ∷ xs) y ys = get_elem?-append_length xs y ys

  pub set-append_length :
      (xs : List A) (y v : A) (ys : List A) → set (xs ++ (y ∷ ys)) (length xs) v ≡ xs ++ (v ∷ ys)
  set-append_length [] y v ys = refl
  set-append_length (x ∷ xs) y v ys = ap (◌∷◌ x) (set-append_length xs y v ys)

  pub get_elem?-length : (xs : List A) → get_elem? xs (length xs) ≡ none
  get_elem?-length [] = refl
  get_elem?-length (x ∷ xs) = get_elem?-length xs

-- Python's `range(n)`, from `i` on.
unfoldable pub range_from : ℕ → ℕ → List ℕ
range_from i zero = []
range_from i (suc n) = i ∷ range_from (suc i) n

pub length-map : {A B : Type 0} (f : A → B) (xs : List A) → length (map f xs) ≡ length xs
length-map f [] = refl
length-map f (x ∷ xs) = ap suc (length-map f xs)

pub All-map :
    {A B : Type 0} (P : A → Type 0) (Q : B → Type 0) (f : A → B)
    → ((x : A) → P x → Q (f x))
    → (xs : List A) → All P xs
    → All Q (map f xs)
All-map P Q f step [] h = tt
All-map P Q f step (x ∷ xs) h = (step x h.0, All-map P Q f step xs h.1)

pub List-cases : {A : Type 0} (xs : List A) → (xs ≡ []) ⊎ ((x : A) × (ys : List A) × (xs ≡ x ∷ ys))
List-cases [] = inl refl
List-cases (x ∷ ys) = inr (x, ys, refl)
