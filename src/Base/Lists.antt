-- ===== src/Base/Lists.antt =====
-- Lists measured by native numbers, and predicates on all elements of a list.
use Prim.Native.Nat.{ℕ, zero, suc, ◌+◌, ◌-◌, min}
use mathlib.Core.Path.{◌≡◌, refl, ap, sym, subst, ◌∙◌}
use mathlib.Core.Logic.{◌↔◌, ◌⊎◌, inl, inr}
use mathlib.Core.Bool.{Bool, true, ◌&&◌}
use mathlib.Core.List.{List, [], ◌∷◌, ◌++◌}
use native.Mathlib.Omega.{arith}

module _ {ℓ} {A : Type ℓ} where
  abbrev pub length : List A → ℕ
  length [] = 0
  length (x ∷ xs) = suc (length xs)

  abbrev pub take : ℕ → List A → List A
  take zero xs = []
  take (suc n) [] = []
  take (suc n) (x ∷ xs) = x ∷ take n xs

  abbrev pub drop : ℕ → List A → List A
  drop zero xs = xs
  drop (suc n) [] = []
  drop (suc n) (x ∷ xs) = drop n xs

  pub length-append : (xs ys : List A) → length (xs ++ ys) ≡ length xs + length ys
  length-append [] ys = omega arith
  length-append (x ∷ xs) ys = omega (arith, length-append xs ys)

  pub take-append-drop : (n : ℕ) (xs : List A) → take n xs ++ drop n xs ≡ xs
  take-append-drop zero xs = refl
  take-append-drop (suc n) [] = refl
  take-append-drop (suc n) (x ∷ xs) = ap (λ t. x ∷ t) (take-append-drop n xs)

  pub length-take : (n : ℕ) (xs : List A) → length (take n xs) ≡ min n (length xs)
  length-take zero xs = omega arith
  length-take (suc n) [] = omega arith
  length-take (suc n) (x ∷ xs) = omega (arith, length-take n xs)

  pub length-drop : (n : ℕ) (xs : List A) → length (drop n xs) ≡ length xs - n
  length-drop zero xs = omega arith
  length-drop (suc n) [] = omega arith
  length-drop (suc n) (x ∷ xs) = omega (arith, length-drop n xs)

module _ {ℓ} {A : Type ℓ} where
  drop_nil : (n : ℕ) → ◌≡◌ {A = List A} [] (drop n [])
  drop_nil zero = refl
  drop_nil (suc n) = refl

  pub take-append_length : (xs ys : List A) → take (length xs) (xs ++ ys) ≡ xs
  take-append_length [] ys = refl
  take-append_length (x ∷ xs) ys = ap (λ t. x ∷ t) (take-append_length xs ys)

  pub drop-append_length : (xs ys : List A) → drop (length xs) (xs ++ ys) ≡ ys
  drop-append_length [] ys = refl
  drop-append_length (x ∷ xs) ys = drop-append_length xs ys

  pub drop-drop : (m n : ℕ) (xs : List A) → drop n (drop m xs) ≡ drop (m + n) xs
  drop-drop zero n xs = ap (λ k. drop k xs) (omega arith)
  drop-drop (suc m) zero [] = drop_nil (suc m + zero)
  drop-drop (suc m) (suc n) [] = drop_nil (suc m + suc n)
  drop-drop (suc m) n (x ∷ xs) =
      let e : suc (m + n) ≡ suc m + n = omega arith in
      drop-drop m n xs ∙ ap (λ k. drop k (x ∷ xs)) e

  abbrev pub all : (A → Bool) → List A → Bool
  all p [] = true
  all p (x ∷ xs) = p x && all p xs

module _ {ℓ κ} {A : Type ℓ} (P : A → Type κ) where
  abbrev pub All : List A → Type κ
  All [] = Unit
  All (x ∷ xs) = P x × All xs

  pub All-append : (xs ys : List A) → All xs → All ys → All (xs ++ ys)
  All-append [] ys h k = k
  All-append (x ∷ xs) ys (p, h) k = (p, All-append xs ys h k)

  pub All-append_iff : (xs ys : List A) → All (xs ++ ys) ↔ (All xs × All ys)
  All-append_iff [] ys = (λ h. (tt, h), λ h. h.1)
  All-append_iff (x ∷ xs) ys = (
    λ h. let (a, b) = (All-append_iff xs ys).0 h.1 in ((h.0, a), b),
    λ h. (h.0.0, (All-append_iff xs ys).1 (h.0.1, h.1)),
  )

module _ {ℓ κ μ} {A : Type ℓ} {P : A → Type κ} {Q : A → Type μ} where
  pub All-map : ((x : A) → P x → Q x) → (xs : List A) → All P xs → All Q xs
  All-map f [] h = tt
  All-map f (x ∷ xs) (p, h) = (f x p, All-map f xs h)

-- The type with no element, at every level.
pub data Never {ℓ} : Type ℓ where

module _ {ℓ} {A : Type ℓ} where
  abbrev pub In : A → List A → Type ℓ
  In a [] = Never
  In a (x ∷ xs) = (a ≡ x) ⊎ In a xs

  pub In-append_right : (a : A) (xs ys : List A) → In a ys → In a (xs ++ ys)
  In-append_right a [] ys h = h
  In-append_right a (x ∷ xs) ys h = inr (In-append_right a xs ys h)

  pub In-append_left : (a : A) (xs ys : List A) → In a xs → In a (xs ++ ys)
  In-append_left a [] ys h = elim h [ ]
  In-append_left a (x ∷ xs) ys (inl e) = inl e
  In-append_left a (x ∷ xs) ys (inr h) = inr (In-append_left a xs ys h)

  pub All-In {κ} : (P : A → Type κ) (a : A) (xs : List A) → All P xs → In a xs → P a
  All-In P a [] h i = elim i [ ]
  All-In P a (x ∷ xs) (p, h) (inl e) = subst P (sym e) p
  All-In P a (x ∷ xs) (p, h) (inr i) = All-In P a xs h i

module _ {ℓ κ} {A : Type ℓ} (R : A → A → Type κ) where
  -- Every two elements are related, the earlier one first.
  abbrev pub AllPairs : List A → Type κ
  AllPairs [] = Unit
  AllPairs (x ∷ xs) = All (R x) xs × AllPairs xs

  pub AllPairs-concat :
      (xs : List A) (a : A) → AllPairs xs → All (λ x. R x a) xs → AllPairs (xs ++ a ∷ [])
  AllPairs-concat [] a h k = (tt, tt)
  AllPairs-concat (x ∷ xs) a (h, hs) (k, ks) =
      (All-append (R x) xs (a ∷ []) h (k, tt), AllPairs-concat xs a hs ks)

  pub AllPairs-middle :
      (xs : List A) (a : A) (ys : List A) → AllPairs (xs ++ a ∷ ys) → All (λ x. R x a) xs
  AllPairs-middle [] a ys h = tt
  AllPairs-middle (x ∷ xs) a ys (h, hs) =
      (((All-append_iff (R x) xs (a ∷ ys)).0 h).1.0, AllPairs-middle xs a ys hs)

  pub AllPairs-remove :
      (before after : List A) (a : A) → AllPairs (before ++ a ∷ after) → AllPairs (before ++ after)
  AllPairs-remove [] after a (p, h) = h
  AllPairs-remove (b ∷ before) after a (p, h) =
      let (front, back) = (All-append_iff (R b) before (a ∷ after)).0 p in
      (All-append (R b) before after front back.1, AllPairs-remove before after a h)

  pub AllPairs-around :
      (before after : List A) (a : A)
      → ((x y : A) → R x y → R y x)
      → AllPairs (before ++ a ∷ after)
      → All (R a) (before ++ after)
  AllPairs-around [] after a flip (p, h) = p
  AllPairs-around (b ∷ before) after a flip (p, h) =
      let (front, back) = (All-append_iff (R b) before (a ∷ after)).0 p in
      (flip b a back.0, AllPairs-around before after a flip h)

pub All-remove {ℓ κ} :
    {A : Type ℓ} (P : A → Type κ) (before after : List A) (a : A)
    → All P (before ++ a ∷ after)
    → All P (before ++ after)
All-remove P before after a h =
    let (front, back) = (All-append_iff P before (a ∷ after)).0 h in
    All-append P before after front back.1

pub AllPairs-map {ℓ κ μ} :
    {A : Type ℓ} {R : A → A → Type κ} {S : A → A → Type μ}
    → ((x y : A) → R x y → S x y)
    → (xs : List A) → AllPairs R xs
    → AllPairs S xs
AllPairs-map f [] h = tt
AllPairs-map f (x ∷ xs) (p, h) = (All-map (f x) xs p, AllPairs-map f xs h)
