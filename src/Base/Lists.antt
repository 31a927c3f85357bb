-- ===== src/Base/Lists.antt =====
-- Lists over the native numbers, under the library's names. About no code of its own.
use Prim.Native.Nat.{ℕ, zero, suc, ◌+◌, ◌≤◌}
use mathlib.Core.Path.{◌≡◌, refl, ap}
use mathlib.Core.List.{List, [], ◌∷◌, ◌++◌}
use native.Mathlib.Nat.{suc-add}
use native.Mathlib.Omega.{arith}

module _ {ℓ} {A : Type ℓ} where
  abbrev pub length : List A → ℕ
  length [] = 0
  length (x ∷ xs) = suc (length xs)

  abbrev pub get_or : List A → ℕ → A → A
  get_or [] i d = d
  get_or (x ∷ xs) zero d = x
  get_or (x ∷ xs) (suc i) d = get_or xs i d

  -- A write out of bounds changes nothing.
  abbrev pub set : List A → ℕ → A → List A
  set [] i v = []
  set (x ∷ xs) zero v = v ∷ xs
  set (x ∷ xs) (suc i) v = x ∷ set xs i v

  abbrev pub take : ℕ → List A → List A
  take zero xs = []
  take (suc n) [] = []
  take (suc n) (x ∷ xs) = x ∷ take n xs

  abbrev pub drop : ℕ → List A → List A
  drop zero xs = xs
  drop (suc n) [] = []
  drop (suc n) (x ∷ xs) = drop n xs

  abbrev pub replicate : ℕ → A → List A
  replicate zero a = []
  replicate (suc n) a = a ∷ replicate n a

  abbrev pub All {κ} : (A → Type κ) → List A → Type κ
  All P [] = Unit {κ}
  All P (x ∷ xs) = P x × All P xs

  pub length-append : (xs ys : List A) → length (xs ++ ys) ≡ length xs + length ys
  length-append [] ys = omega arith
  length-append (x ∷ xs) ys = omega (arith, length-append xs ys)

  pub length-take_le : (n : ℕ) (xs : List A) → n ≤ length xs → length (take n xs) ≡ n
  length-take_le zero xs h = refl
  length-take_le (suc n) [] h = absurd (omega arith)
  length-take_le (suc n) (x ∷ xs) h = ap suc (length-take_le n xs (omega arith))

  pub take-append : (xs ys : List A) → take (length xs) (xs ++ ys) ≡ xs
  take-append [] ys = refl
  take-append (x ∷ xs) ys = ap (◌∷◌ x) (take-append xs ys)

  pub drop-append : (xs ys : List A) → drop (length xs) (xs ++ ys) ≡ ys
  drop-append [] ys = refl
  drop-append (x ∷ xs) ys = drop-append xs ys

  pub take_all : (n : ℕ) (xs : List A) → length xs ≤ n → take n xs ≡ xs
  take_all zero [] h = refl
  take_all zero (x ∷ xs) h = absurd (omega arith)
  take_all (suc n) [] h = refl
  take_all (suc n) (x ∷ xs) h = ap (◌∷◌ x) (take_all n xs (omega arith))

  pub get_or-append :
      (xs ys : List A) (i j : ℕ) (d : A) → i ≡ length xs + j → get_or (xs ++ ys) i d ≡ get_or ys j d
  get_or-append [] ys i j d e = rw e (ap (λ k. get_or ys k d) (omega arith))
  get_or-append (x ∷ xs) ys zero j d e = absurd (omega arith)
  get_or-append (x ∷ xs) ys (suc i) j d e = get_or-append xs ys i j d (omega arith)

  pub All-append {κ} : (P : A → Type κ) (xs ys : List A) → All P xs → All P ys → All P (xs ++ ys)
  All-append P [] ys hx hy = hy
  All-append P (x ∷ xs) ys hx hy = (hx.0, All-append P xs ys hx.1 hy)

  pub All-take {κ} : (P : A → Type κ) (n : ℕ) (xs : List A) → All P xs → All P (take n xs)
  All-take P zero xs h = tt
  All-take P (suc n) [] h = tt
  All-take P (suc n) (x ∷ xs) h = (h.0, All-take P n xs h.1)

  pub All-drop {κ} : (P : A → Type κ) (n : ℕ) (xs : List A) → All P xs → All P (drop n xs)
  All-drop P zero xs h = h
  All-drop P (suc n) [] h = tt
  All-drop P (suc n) (x ∷ xs) h = All-drop P n xs h.1

  pub All-get_or {κ} :
      (P : A → Type κ) (xs : List A) (i : ℕ) (d : A) → All P xs → P d → P (get_or xs i d)
  All-get_or P [] i d h hd = hd
  All-get_or P (x ∷ xs) zero d h hd = h.0
  All-get_or P (x ∷ xs) (suc i) d h hd = All-get_or P xs i d h.1 hd

  pub drop-length_add : (xs ys : List A) (n : ℕ) → drop (length xs + n) (xs ++ ys) ≡ drop n ys
  drop-length_add [] ys n = ap (λ k. drop k ys) (omega arith)
  drop-length_add (x ∷ xs) ys n = rw suc-add (drop-length_add xs ys n)

  pub length-replicate : (n : ℕ) (a : A) → length (replicate n a) ≡ n
  length-replicate zero a = refl
  length-replicate (suc n) a = ap suc (length-replicate n a)

  drop_nil : (n : ℕ) → drop n [] ≡ []
  drop_nil zero = refl
  drop_nil (suc n) = refl

  pub drop_add : (m n : ℕ) (xs : List A) → drop (m + n) xs ≡ drop n (drop m xs)
  drop_add zero n xs = ap (λ k. drop k xs) (omega arith)
  drop_add (suc m) n [] = rw (drop_nil (suc m + n), drop_nil n) refl
  drop_add (suc m) n (x ∷ xs) = rw suc-add (drop_add m n xs)
