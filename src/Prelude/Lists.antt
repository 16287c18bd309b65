-- ===== src/Prelude/Lists.antt =====
-- Lists measured by native numbers, and predicates over lists by recursion.
use Prim.Native.Nat.{ℕ, zero, suc, ◌+◌}
use mathlib.Core.Path.{◌≡◌, refl, ap, subst}
use mathlib.Core.Logic.{◌⊎◌, inl, inr}
use mathlib.Core.Bool.{Bool, true, false}
use mathlib.Core.Option.{Option, none, some}
use mathlib.Core.List.{List, [], ◌∷◌, ◌++◌, map}
use native.Mathlib.Omega.{arith}

module _ {ℓ} {A : Type ℓ} where
  abbrev pub length : List A → ℕ
  length [] = 0
  length (x ∷ xs) = suc (length xs)

  abbrev pub is_empty : List A → Bool
  is_empty [] = true
  is_empty (x ∷ xs) = false

  abbrev pub take : ℕ → List A → List A
  take zero xs = []
  take (suc n) [] = []
  take (suc n) (x ∷ xs) = x ∷ take n xs

  abbrev pub drop : ℕ → List A → List A
  drop zero xs = xs
  drop (suc n) [] = []
  drop (suc n) (x ∷ xs) = drop n xs

  abbrev pub get_elem? : List A → ℕ → Option A
  get_elem? [] n = none
  get_elem? (x ∷ xs) zero = some x
  get_elem? (x ∷ xs) (suc n) = get_elem? xs n

  -- An element in its place, changed.
  abbrev pub update_at : (A → A) → ℕ → List A → List A
  update_at f n [] = []
  update_at f zero (x ∷ xs) = f x ∷ xs
  update_at f (suc n) (x ∷ xs) = x ∷ update_at f n xs

  pub get_elem?-length : (xs ys : List A) (x : A) → get_elem? (xs ++ x ∷ ys) (length xs) ≡ some x
  get_elem?-length [] ys x = refl
  get_elem?-length (y ∷ xs) ys x = get_elem?-length xs ys x

  pub update_at-length :
      (f : A → A) (xs ys : List A) (x : A) → update_at f (length xs) (xs ++ x ∷ ys) ≡ xs ++ f x ∷ ys
  update_at-length f [] ys x = refl
  update_at-length f (y ∷ xs) ys x = ap (λ zs. y ∷ zs) (update_at-length f xs ys x)

  pub length-append : (xs ys : List A) → length (xs ++ ys) ≡ length xs + length ys
  length-append [] ys = omega arith
  length-append (x ∷ xs) ys = omega (arith, length-append xs ys)

-- Every element satisfies `P`; some element does.
module _ {ℓ κ} {A : Type ℓ} (P : A → Type κ) where
  abbrev pub All : List A → Type κ
  All [] = Unit
  All (x ∷ xs) = P x × All xs

  pub All-append : (xs ys : List A) → All xs → All ys → All (xs ++ ys)
  All-append [] ys h k = k
  All-append (x ∷ xs) ys (p, h) k = (p, All-append xs ys h k)

  pub All-append_left : (xs ys : List A) → All (xs ++ ys) → All xs
  All-append_left [] ys h = tt
  All-append_left (x ∷ xs) ys (p, h) = (p, All-append_left xs ys h)

  pub All-append_right : (xs ys : List A) → All (xs ++ ys) → All ys
  All-append_right [] ys h = h
  All-append_right (x ∷ xs) ys (p, h) = All-append_right xs ys h

module _ {ℓ} {A : Type ℓ} where
  pub take-append : (xs ys : List A) → take (length xs) (xs ++ ys) ≡ xs
  take-append [] ys = refl
  take-append (x ∷ xs) ys = rw (take-append xs ys)

  pub drop-append : (xs ys : List A) → drop (length xs) (xs ++ ys) ≡ ys
  drop-append [] ys = refl
  drop-append (x ∷ xs) ys = drop-append xs ys

pub length-map {ℓ κ} :
    {A : Type ℓ} {B : Type κ} (f : A → B) (xs : List A) → length (map f xs) ≡ length xs
length-map f [] = refl
length-map f (x ∷ xs) = ap suc (length-map f xs)

-- The list holds the element.
module _ {A : Type 0} where
  abbrev pub Member : A → List A → Type 0
  Member a [] = ⊥
  Member a (x ∷ xs) = (x ≡ a) ⊎ Member a xs

  pub Member-append_left : (a : A) (xs ys : List A) → Member a xs → Member a (xs ++ ys)
  Member-append_left a [] ys h = absurd h
  Member-append_left a (x ∷ xs) ys (inl e) = inl e
  Member-append_left a (x ∷ xs) ys (inr m) = inr (Member-append_left a xs ys m)

  pub Member-append_last : (a : A) (xs : List A) → Member a (xs ++ a ∷ [])
  Member-append_last a [] = inl refl
  Member-append_last a (x ∷ xs) = inr (Member-append_last a xs)

  pub All-Member {κ} : (P : A → Type κ) (xs : List A) (a : A) → All P xs → Member a xs → P a
  All-Member P [] a h m = absurd m
  All-Member P (x ∷ xs) a h (inl e) = subst P e h.0
  All-Member P (x ∷ xs) a h (inr m) = All-Member P xs a h.1 m

pub All-imp {ℓ κ} :
    {A : Type ℓ} (P Q : A → Type κ) (xs : List A) → ((x : A) → P x → Q x) → All P xs → All Q xs
All-imp P Q [] f h = tt
All-imp P Q (x ∷ xs) f h = (f x h.0, All-imp P Q xs f h.1)

-- `xs` is `ys` with elements left out.
pub data IsSubsequence {ℓ} {A : Type ℓ} : List A → List A → Type ℓ where
  done : IsSubsequence [] []
  keep : {xs ys : List A} (a : A) → IsSubsequence xs ys → IsSubsequence (a ∷ xs) (a ∷ ys)
  skip : {xs ys : List A} (a : A) → IsSubsequence xs ys → IsSubsequence xs (a ∷ ys)

pub IsSubsequence-nil {ℓ} : {A : Type ℓ} (xs : List A) → IsSubsequence [] xs
IsSubsequence-nil [] = done
IsSubsequence-nil (x ∷ xs) = skip x (IsSubsequence-nil xs)

pub IsSubsequence-skip_last {ℓ} :
    {A : Type ℓ} {xs ys : List A} (a : A) → IsSubsequence xs ys → IsSubsequence xs (ys ++ a ∷ [])
IsSubsequence-skip_last a done = skip a done
IsSubsequence-skip_last a (keep b s) = keep b (IsSubsequence-skip_last a s)
IsSubsequence-skip_last a (skip b s) = skip b (IsSubsequence-skip_last a s)

pub IsSubsequence-keep_last {ℓ} :
    {A : Type ℓ} {xs ys : List A} (a : A)
    → IsSubsequence xs ys
    → IsSubsequence (xs ++ a ∷ []) (ys ++ a ∷ [])
IsSubsequence-keep_last a done = keep a done
IsSubsequence-keep_last a (keep b s) = keep b (IsSubsequence-keep_last a s)
IsSubsequence-keep_last a (skip b s) = skip b (IsSubsequence-keep_last a s)
