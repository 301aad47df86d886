-- ===== src/Base/Lists.antt =====
-- Lists measured by native numbers and filtered by Boolean tests, under the library's names.
use Prim.Native.Nat.{ℕ, zero, suc, ◌+◌, ◌-◌, ◌≤◌, min}
use mathlib.Core.Path.{◌≡◌, refl, sym, ap, ap₂, subst, ◌∙◌}
use mathlib.Core.Bool.{Bool, true, false, ◌&&◌}
use mathlib.Core.List.{List, [], ◌∷◌, ◌++◌, map, reverse, reverse-append}
use native.Mathlib.Omega.{arith}
use native.Mathlib.Decide.{dec_le}
use driftbrake.Base.Tests.{if◌then◌else◌}

module _ {ℓ} {A : Type ℓ} where
  abbrev pub length : List A → ℕ
  length [] = 0
  length (x ∷ xs) = suc (length xs)

  abbrev pub take : ℕ → List A → List A
  take zero xs = []
  take (suc n) [] = []
  take (suc n) (x ∷ xs) = x ∷ take n xs

  abbrev pub drop : ℕ → List A → List A
  drop zero xs = xs
  drop (suc n) [] = []
  drop (suc n) (x ∷ xs) = drop n xs

  abbrev pub replicate : ℕ → A → List A
  replicate zero a = []
  replicate (suc n) a = a ∷ replicate n a

  abbrev pub filter : (A → Bool) → List A → List A
  filter p [] = []
  filter p (x ∷ xs) = if p x then x ∷ filter p xs else filter p xs

  abbrev pub all : (A → Bool) → List A → Bool
  all p [] = true
  all p (x ∷ xs) = p x && all p xs

  abbrev pub All {κ} : (A → Type κ) → List A → Type κ
  All P [] = Unit {κ}
  All P (x ∷ xs) = P x × All P xs

module _ {ℓ} {A : Type ℓ} where
  pub length-append : (xs ys : List A) → length (xs ++ ys) ≡ length xs + length ys
  length-append [] ys = omega arith
  length-append (x ∷ xs) ys = omega (arith, length-append xs ys)

  pub length-take : (n : ℕ) (xs : List A) → length (take n xs) ≡ min n (length xs)
  length-take zero xs = omega arith
  length-take (suc n) [] = omega arith
  length-take (suc n) (x ∷ xs) = omega (arith, length-take n xs)

  pub length-drop : (n : ℕ) (xs : List A) → length (drop n xs) ≡ length xs - n
  length-drop zero xs = omega arith
  length-drop (suc n) [] = omega arith
  length-drop (suc n) (x ∷ xs) = omega (arith, length-drop n xs)

  pub length-replicate : (n : ℕ) (a : A) → length (replicate n a) ≡ n
  length-replicate zero a = refl
  length-replicate (suc n) a = ap suc (length-replicate n a)

  pub take-append-drop : (n : ℕ) (xs : List A) → take n xs ++ drop n xs ≡ xs
  take-append-drop zero xs = refl
  take-append-drop (suc n) [] = refl
  take-append-drop (suc n) (x ∷ xs) = ap (λ (l : List A). x ∷ l) (take-append-drop n xs)

  pub take-append : (n : ℕ) (xs ys : List A) → length xs ≡ n → take n (xs ++ ys) ≡ xs
  take-append zero [] ys h = refl
  take-append zero (x ∷ xs) ys h = absurd (omega arith)
  take-append (suc n) [] ys h = absurd (omega arith)
  take-append (suc n) (x ∷ xs) ys h = ap (λ (l : List A). x ∷ l) (take-append n xs ys (omega arith))

  pub drop-append : (n : ℕ) (xs ys : List A) → length xs ≡ n → drop n (xs ++ ys) ≡ ys
  drop-append zero [] ys h = refl
  drop-append zero (x ∷ xs) ys h = absurd (omega arith)
  drop-append (suc n) [] ys h = absurd (omega arith)
  drop-append (suc n) (x ∷ xs) ys h = drop-append n xs ys (omega arith)

  -- A prefix that is long enough is all that `take` looks at.
  pub take-append_le : (n : ℕ) (xs ys : List A) → n ≤ length xs → take n (xs ++ ys) ≡ take n xs
  take-append_le zero xs ys h = refl
  take-append_le (suc n) [] ys h = absurd (omega arith)
  take-append_le (suc n) (x ∷ xs) ys h =
      ap (λ (l : List A). x ∷ l) (take-append_le n xs ys (omega arith))

  pub length-reverse : (xs : List A) → length (reverse xs) ≡ length xs
  length-reverse [] = refl
  length-reverse (x ∷ xs) =
      ap length (reverse-append (x ∷ []) xs)
      ∙ omega (arith, length-append (reverse xs) (x ∷ []), length-reverse xs)

  pub reverse-snoc : (xs : List A) (x : A) → reverse (xs ++ (x ∷ [])) ≡ x ∷ reverse xs
  reverse-snoc xs x = reverse-append xs (x ∷ [])

  pub filter-append :
      (p : A → Bool) (xs ys : List A) → filter p (xs ++ ys) ≡ filter p xs ++ filter p ys
  filter-append p [] ys = refl
  filter-append p (x ∷ xs) ys = ground (arith, filter-append p xs ys)

  pub all-append : (p : A → Bool) (xs ys : List A) → all p (xs ++ ys) ≡ (all p xs && all p ys)
  all-append p [] ys = refl
  all-append p (x ∷ xs) ys = ground (arith, all-append p xs ys)

  pub All-append {κ} : (P : A → Type κ) (xs ys : List A) → All P xs → All P ys → All P (xs ++ ys)
  All-append P [] ys hx hy = hy
  All-append P (x ∷ xs) ys hx hy = (hx.0, All-append P xs ys hx.1 hy)

  pub filter-reverse : (p : A → Bool) (xs : List A) → filter p (reverse xs) ≡ reverse (filter p xs)
  filter-reverse p [] = refl
  filter-reverse p (x ∷ xs) =
      ap (filter p) (reverse-append (x ∷ []) xs)
      ∙ filter-append p (reverse xs) (x ∷ [])
      ∙ ap₂ ◌++◌ (filter-reverse p xs) singleton
      ∙ sym (reverse-append (filter p (x ∷ [])) (filter p xs))
      ∙ ap reverse (sym (filter-append p (x ∷ []) xs))
    where
      singleton : filter p (x ∷ []) ≡ reverse (filter p (x ∷ []))
      singleton = ground arith

  pub take_all : (n : ℕ) (xs : List A) → length xs ≤ n → take n xs ≡ xs
  take_all zero [] h = refl
  take_all zero (x ∷ xs) h = absurd (omega arith)
  take_all (suc n) [] h = refl
  take_all (suc n) (x ∷ xs) h = ap (λ (l : List A). x ∷ l) (take_all n xs (omega arith))

  -- The last `n` elements, in order.
  abbrev pub take_last : ℕ → List A → List A
  take_last n xs = drop (length xs - n) xs

  pub take-reverse : (n : ℕ) (xs : List A) → take n (reverse xs) ≡ reverse (take_last n xs)
  take-reverse n xs = elim (dec_le n (length xs)) [
    | yes h ↦ split h
    | no h ↦
        take_all n (reverse xs) (omega (arith, length-reverse xs))
        ∙ (let e : length xs - n ≡ 0 = omega arith in ap (λ (k : ℕ). reverse (drop k xs)) (sym e))
  ]
    where
      m : ℕ
      m = length xs - n

      split : n ≤ length xs → take n (reverse xs) ≡ reverse (drop m xs)
      split h =
          ap (λ (l : List A). take n (reverse l)) (sym (take-append-drop m xs))
          ∙ ap (take n) (reverse-append (take m xs) (drop m xs))
          ∙ take-append n (reverse (drop m xs)) (reverse (take m xs))
              (omega (arith, length-reverse (drop m xs), length-drop m xs))

  pub take_last_exact : (n : ℕ) (xs ys : List A) → length ys ≡ n → take_last n (xs ++ ys) ≡ ys
  take_last_exact n xs ys h =
      let e : length (xs ++ ys) - n ≡ length xs = omega (arith, length-append xs ys) in
      ap (λ (k : ℕ). drop k (xs ++ ys)) e ∙ drop-append (length xs) xs ys refl

  -- A suffix that is long enough is all that `take_last` looks at.
  pub take_last-append :
      (n : ℕ) (xs ys : List A) → n ≤ length ys → take_last n (xs ++ ys) ≡ take_last n ys
  take_last-append n [] ys h = refl
  take_last-append n (x ∷ xs) ys h =
      let e : length (x ∷ xs ++ ys) - n ≡ suc (length (xs ++ ys) - n) =
        omega (arith, length-append xs ys) in
      ap (λ (k : ℕ). drop k (x ∷ xs ++ ys)) e ∙ take_last-append n xs ys h

  pub length-filter-le : (p : A → Bool) (xs : List A) → length (filter p xs) ≤ length xs
  length-filter-le p [] = omega arith
  length-filter-le p (x ∷ xs) = ground (arith, length-filter-le p xs)

module _ {ℓ κ} {A : Type ℓ} (P : A → Type κ) where
  pub All-append_left : (xs ys : List A) → All P (xs ++ ys) → All P xs
  All-append_left [] ys h = tt
  All-append_left (x ∷ xs) ys h = (h.0, All-append_left xs ys h.1)

  pub All-append_right : (xs ys : List A) → All P (xs ++ ys) → All P ys
  All-append_right [] ys h = h
  All-append_right (x ∷ xs) ys h = All-append_right xs ys h.1

  pub All-filter : (p : A → Bool) (xs : List A) → All P xs → All P (filter p xs)
  All-filter p [] h = tt
  All-filter p (x ∷ xs) h = kept (p x) (All-filter p xs h.1)
    where
      kept : (b : Bool) → All P (filter p xs) → All P (if b then x ∷ filter p xs else filter p xs)
      kept true k = (h.0, k)
      kept false k = k

  pub All-reverse : (xs : List A) → All P xs → All P (reverse xs)
  All-reverse [] h = tt
  All-reverse (x ∷ xs) h =
      subst (All P) (sym (reverse-append (x ∷ []) xs))
        (All-append P (reverse xs) (x ∷ []) (All-reverse xs h.1) (h.0, tt))

module _ {ℓ κ} {A : Type ℓ} {B : Type κ} where
  pub length-map : (f : A → B) (xs : List A) → length (map f xs) ≡ length xs
  length-map f [] = refl
  length-map f (x ∷ xs) = ap suc (length-map f xs)

  pub map-reverse : (f : A → B) (xs : List A) → map f (reverse xs) ≡ reverse (map f xs)
  map-reverse f [] = refl
  map-reverse f (x ∷ xs) =
      ap (map f) (reverse-append (x ∷ []) xs)
      ∙ snoc (reverse xs) x
      ∙ ap (λ (l : List B). l ++ (f x ∷ [])) (map-reverse f xs)
      ∙ sym (reverse-append (f x ∷ []) (map f xs))
    where
      snoc : (l : List A) (a : A) → map f (l ++ (a ∷ [])) ≡ map f l ++ (f a ∷ [])
      snoc [] a = refl
      snoc (b ∷ l) a = ap (λ (t : List B). f b ∷ t) (snoc l a)

  pub all-map→All :
      (p : B → Bool) (f : A → B) (xs : List A)
      → all p (map f xs) ≡ true
      → All (λ a. p (f a) ≡ true) xs
  all-map→All p f [] h = tt
  all-map→All p f (x ∷ xs) h = (ground arith, all-map→All p f xs (ground arith))

  pub All→all-map :
      (p : B → Bool) (f : A → B) (xs : List A)
      → All (λ a. p (f a) ≡ true) xs
      → all p (map f xs) ≡ true
  All→all-map p f [] h = refl
  All→all-map p f (x ∷ xs) h = ground (arith, All→all-map p f xs h.1)
