-- ===== src/Base/Lists.antt =====
-- Lists measured by native numbers, the universal predicate, and lists of handles as sets.
use Prim.Native.Nat.{ℕ, zero, suc, ◌+◌, ◌≤◌}
use mathlib.Core.Path.{◌≡◌, refl}
use mathlib.Core.Bool.{Bool, false, ◌||◌}
use mathlib.Core.List.{List, [], ◌∷◌, ◌++◌}
use native.Mathlib.Omega.{arith}
use go_tcp_tunnel.Base.Tests.{◌==◌, if◌then◌else◌}

module _ {ℓ} {A : Type ℓ} where
  abbrev pub length : List A → ℕ
  length [] = 0
  length (x ∷ xs) = suc (length xs)

  pub length-append : (xs ys : List A) → length (xs ++ ys) ≡ length xs + length ys
  length-append [] ys = omega arith
  length-append (x ∷ xs) ys = omega (arith, length-append xs ys)

  abbrev pub All {κ} : (A → Type κ) → List A → Type κ
  All P [] = Unit
  All P (x ∷ xs) = P x × All P xs

  pub All-append {κ} : (P : A → Type κ) (xs ys : List A) → All P xs → All P ys → All P (xs ++ ys)
  All-append P [] ys _ hy = hy
  All-append P (x ∷ xs) ys (px, hx) hy = (px, All-append P xs ys hx hy)

-- A handle (a connection, a listener) among others.
unfoldable pub holds : ℕ → List ℕ → Bool
holds n [] = false
holds n (m ∷ ms) = n == m || holds n ms

-- All occurrences of a handle go.
unfoldable pub discard : ℕ → List ℕ → List ℕ
discard n [] = []
discard n (m ∷ ms) = let rest = discard n ms in if n == m then rest else m ∷ rest

unfoldable pub discard_all : List ℕ → List ℕ → List ℕ
discard_all [] ms = ms
discard_all (n ∷ ns) ms = discard_all ns (discard n ms)

pub holds-discard :
    (k n : ℕ) (ms : List ℕ) → holds k (discard n ms) ≡ (if n == k then false else holds k ms)
unfolding holds discard
holds-discard k n [] = ground arith
holds-discard k n (m ∷ ms) = ground (arith, holds-discard k n ms)

pub holds-discard_all :
    (k : ℕ) (ns ms : List ℕ)
    → holds k (discard_all ns ms) ≡ (if holds k ns then false else holds k ms)
unfolding holds discard_all
holds-discard_all k [] ms = refl
holds-discard_all k (n ∷ ns) ms =
    ground (arith, holds-discard_all k ns (discard n ms), holds-discard k n ms)

pub holds-append : (k : ℕ) (ns ms : List ℕ) → holds k (ns ++ ms) ≡ (holds k ns || holds k ms)
unfolding holds
holds-append k [] ms = refl
holds-append k (n ∷ ns) ms = ground (arith, holds-append k ns ms)

pub discard_fresh : (n : ℕ) (ms : List ℕ) → holds n ms ≡ false → discard n ms ≡ ms
unfolding holds discard
discard_fresh n [] h = refl
discard_fresh n (m ∷ ms) h = ground (arith, discard_fresh n ms)

unfoldable pub take {ℓ} : {A : Type ℓ} → ℕ → List A → List A
take zero xs = []
take (suc n) [] = []
take (suc n) (x ∷ xs) = x ∷ take n xs

pub take-all {ℓ} : {A : Type ℓ} (n : ℕ) (xs : List A) → length xs ≤ n → take n xs ≡ xs
unfolding take
take-all zero [] h = refl
take-all zero (x ∷ xs) h = absurd (omega arith)
take-all (suc n) [] h = refl
take-all (suc n) (x ∷ xs) h = rw (take-all n xs (omega arith)) refl
