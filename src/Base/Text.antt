-- ===== src/Base/Text.antt =====
-- Go strings and byte slices: lists of bytes, with equality, search and trimming.
use go_tcp_tunnel.Base.Lists.{length, length-append}
use Prim.Native.Nat.{ℕ}
use Prim.Native.Char.{code}
use Prim.Native.String.{String}
use mathlib.Core.Path.{ap, ◌≡◌, refl}
use mathlib.Core.Logic.{◌↔◌, ◌≢◌, ◌⊎◌, inl, inr}
use mathlib.Core.Bool.{Bool, true, false, ◌&&◌, ◌||◌}
use mathlib.Core.Option.{Option, none, some}
use mathlib.Core.List.{List, [], ◌∷◌, ◌++◌}
use native.Mathlib.Omega.{arith}
use go_tcp_tunnel.Base.Tests.{◌==◌, if◌then◌else◌, Bool-cases, Option-cases}

abbrev pub Bytes : Type 0
Bytes = List ℕ

-- The code points of a literal: its bytes, when the text is ASCII.
abbrev pub codes : String → Bytes
codes String.[] = []
codes (String.◌∷◌ c s) = code c ∷ codes s

unfoldable pub beq : Bytes → Bytes → Bool
beq [] [] = true
beq [] (b ∷ t) = false
beq (a ∷ s) [] = false
beq (a ∷ s) (b ∷ t) = a == b && beq s t

pub beq_eq : (s t : Bytes) → beq s t ≡ true → s ≡ t
unfolding beq
beq_eq [] [] h = refl
beq_eq [] (b ∷ t) h = cc
beq_eq (a ∷ s) [] h = cc
beq_eq (a ∷ s) (b ∷ t) h = ground (arith, beq_eq s t)

pub beq_refl : (s : Bytes) → beq s s ≡ true
unfolding beq
beq_refl [] = refl
beq_refl (a ∷ s) = ground (arith, beq_refl s)

pub beq_iff : (s t : Bytes) → (beq s t ≡ true) ↔ (s ≡ t)
beq_iff s t = (beq_eq s t, λ e. rw e (beq_refl t))

pub beq-cases : (s t : Bytes) → ((beq s t ≡ true) × (s ≡ t)) ⊎ ((beq s t ≡ false) × (s ≢ t))
beq-cases s t = elim (Bool-cases (beq s t)) [
  | inl e ↦ inl (e, beq_eq s t e)
  | inr e ↦ inr (e, λ p. cc ((beq_iff s t).1 p, e))
]

unfoldable pub elem : Bytes → List Bytes → Bool
elem s [] = false
elem s (t ∷ ts) = beq s t || elem s ts

-- `s == ""`
abbrev pub is_empty : Bytes → Bool
is_empty [] = true
is_empty (c ∷ s) = false

-- Does a byte stand in the text?
unfoldable pub has_byte : ℕ → Bytes → Bool
has_byte c [] = false
has_byte c (b ∷ s) = c == b || has_byte c s

-- The parts before and behind the last occurrence of a byte.
unfoldable pub cut_last : ℕ → Bytes → Option (Bytes × Bytes)
cut_last c [] = none
cut_last c (b ∷ s) = elim (cut_last c s) [
  | some (before, behind) ↦ some (b ∷ before, behind)
  | none ↦ if c == b then some ([], s) else none
]

-- The parts before and behind the first occurrence of a byte.
unfoldable pub cut_first : ℕ → Bytes → Option (Bytes × Bytes)
cut_first c [] = none
cut_first c (b ∷ s) = elim (c == b) [
  | true ↦ some ([], s)
  | false ↦ elim (cut_first c s) [ none ↦ none | some (before, behind) ↦ some (b ∷ before, behind) ]
]

pub has_byte-append : (c : ℕ) (s t : Bytes) → has_byte c (s ++ t) ≡ (has_byte c s || has_byte c t)
unfolding has_byte
has_byte-append c [] t = refl
has_byte-append c (b ∷ s) t = ground (arith, has_byte-append c s t)

pub cut_last-none : (c : ℕ) (s : Bytes) → has_byte c s ≡ false → cut_last c s ≡ none
unfolding has_byte cut_last
cut_last-none c [] h = refl
cut_last-none c (b ∷ s) h = ground (arith, cut_last-none c s)

-- Behind a separator that does not return, the last occurrence is that separator.
pub cut_last-append :
    (c : ℕ) (s t : Bytes) → has_byte c t ≡ false → cut_last c (s ++ c ∷ t) ≡ some (s, t)
unfolding cut_last
cut_last-append c [] t h = ground (arith, cut_last-none c t h)
cut_last-append c (b ∷ s) t h = ground (arith, cut_last-append c s t h)

-- No occurrence is missed.
pub cut_last-none-has_byte : (c : ℕ) (s : Bytes) → cut_last c s ≡ none → has_byte c s ≡ false
unfolding has_byte cut_last
cut_last-none-has_byte c [] h = refl
cut_last-none-has_byte c (b ∷ s) h = ground (arith, cut_last-none-has_byte c s)

pub cut_last_sound :
    (c : ℕ) (s before behind : Bytes)
    → cut_last c s ≡ some (before, behind)
    → (s ≡ before ++ c ∷ behind) × (has_byte c behind ≡ false)
unfolding cut_last
cut_last_sound c [] before behind h = cc
cut_last_sound c (b ∷ s) before behind h = elim (Option-cases (cut_last c s)) [
  | inl e ↦ ground (arith, e, cut_last-none-has_byte c s e)
  | inr ((before', behind'), e) ↦ ground (arith, e, cut_last_sound c s before' behind' e)
]

unfoldable pub trim_left : ℕ → Bytes → Bytes
trim_left c [] = []
trim_left c (b ∷ s) = let rest = trim_left c s in if c == b then rest else b ∷ s

unfoldable pub trim_right : ℕ → Bytes → Bytes
trim_right c [] = []
trim_right c (b ∷ s) = let rest = trim_right c s in if is_empty rest && c == b then [] else b ∷ rest

-- `strings.Trim(s, c)` for a cut set of one character.
unfoldable pub trim : ℕ → Bytes → Bytes
unfolding trim_left trim_right
trim c s = trim_left c (trim_right c s)

-- `strings.TrimSuffix`.
unfoldable pub trim_suffix : Bytes → Bytes → Bytes
trim_suffix suffix [] = []
trim_suffix suffix (b ∷ s) =
    let rest = trim_suffix suffix s in if beq (b ∷ s) suffix then [] else b ∷ rest

pub beq_longer : (b : ℕ) (s suffix : Bytes) → beq (b ∷ (s ++ suffix)) suffix ≡ false
beq_longer b s suffix = elim (Bool-cases (beq (b ∷ (s ++ suffix)) suffix)) [
  | inl e ↦ absurd (omega (arith, ap length (beq_eq _ _ e), length-append s suffix))
  | inr e ↦ e
]

pub trim_suffix-append : (s suffix : Bytes) → trim_suffix suffix (s ++ suffix) ≡ s
unfolding trim_suffix
trim_suffix-append [] [] = refl
trim_suffix-append [] (b ∷ t) = rw (beq_refl (b ∷ t))
trim_suffix-append (b ∷ s) suffix = rw (beq_longer b s suffix, trim_suffix-append s suffix)

-- A byte before the first of the parts.
abbrev pub prefix_first : Bytes → List Bytes → List Bytes
prefix_first s [] = s ∷ []
prefix_first s (t ∷ ts) = (s ++ t) ∷ ts

-- `strings.SplitSeq(s, c)` for a separator of one character.
unfoldable pub split : ℕ → Bytes → List Bytes
split c [] = [] ∷ []
split c (b ∷ s) = let rest = split c s in if b == c then [] ∷ rest else prefix_first (b ∷ []) rest

pub split-last : (c : ℕ) (s : Bytes) → has_byte c s ≡ false → split c s ≡ s ∷ []
unfolding split has_byte
split-last c [] h = refl
split-last c (b ∷ s) h = ground (arith, split-last c s)

pub split-append :
    (c : ℕ) (s t : Bytes) → has_byte c s ≡ false → split c (s ++ c ∷ t) ≡ s ∷ split c t
unfolding split has_byte
split-append c [] t h = ground arith
split-append c (b ∷ s) t h = ground (arith, split-append c s t)
