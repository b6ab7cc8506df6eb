-- ===== src/Id/Letters.antt =====
-- The characters of an identifier's text, and what trimming, chunking and cleaning do to them.
use go_tcp_tunnel.Base.{◌&&◌}
use go_tcp_tunnel.Base.{
  ℕ, suc, ◌≤◌, ◌≡◌, ◌≢◌, ◌⊎◌, refl, arith, [], ◌∷◌, Bytes, ◌==◌, length, All, is_empty, trim,
  trim_left, trim_right, ap, ◌∙◌, Bool-cases, inl, inr,
}
use go_tcp_tunnel.Id.{chunks, remove, untypeoify, to_upper, hyphen, copy}

-- A character that is no separator, and one that may stand in an identifier's text.
abbrev pub IsLetter : ℕ → Type 0
IsLetter c = ((b'A' ≤ c) × (c ≤ b'Z')) ⊎ ((b'2' ≤ c) × (c ≤ b'7'))

abbrev pub IsText : ℕ → Type 0
IsText c = ((b'A' ≤ c) × (c ≤ b'Z')) ⊎ (((b'2' ≤ c) × (c ≤ b'7')) ⊎ (c ≡ hyphen))

abbrev pub Lacks : ℕ → Bytes → Type 0
Lacks c = All (λ b. c ≢ b)

pub All-map {ℓ κ} :
    (P : ℕ → Type ℓ) (Q : ℕ → Type κ) → ((c : ℕ) → P c → Q c) → (s : Bytes) → All P s → All Q s
All-map P Q f [] h = tt
All-map P Q f (c ∷ s) (p, h) = (f c p, All-map P Q f s h)

pub All-trim_left {ℓ} : (P : ℕ → Type ℓ) (c : ℕ) (s : Bytes) → All P s → All P (trim_left c s)
unfolding trim_left
All-trim_left P c [] h = tt
All-trim_left P c (b ∷ s) h = elim (Bool-cases (c == b)) [
  | inl e ↦ rw e (All-trim_left P c s h.1)
  | inr e ↦ rw e h
]

pub All-trim_right {ℓ} : (P : ℕ → Type ℓ) (c : ℕ) (s : Bytes) → All P s → All P (trim_right c s)
unfolding trim_right
All-trim_right P c [] h = tt
All-trim_right P c (b ∷ s) h = elim (Bool-cases (is_empty (trim_right c s) && c == b)) [
  | inl e ↦ rw e tt
  | inr e ↦ rw e (h.0, All-trim_right P c s h.1)
]

Letter-Text : (c : ℕ) → IsLetter c → IsText c
Letter-Text c h = ground arith

pub All-chunks : (s : Bytes) → All IsLetter s → All IsText (chunks s)
unfolding chunks
All-chunks (a ∷ b ∷ c ∷ d ∷ e ∷ f ∷ g ∷ s) (ha, (hb, (hc, (hd, (he, (hf, (hg, h))))))) = (
  Letter-Text a ha,
  (
    Letter-Text b hb,
    (
      Letter-Text c hc,
      (
        Letter-Text d hd,
        (
          Letter-Text e he,
          (Letter-Text f hf, (Letter-Text g hg, (inr (inr refl), All-chunks s h))),
        ),
      ),
    ),
  ),
)
All-chunks s h = All-map IsLetter IsText Letter-Text s h

trim_right-Lacks : (c : ℕ) (s : Bytes) → Lacks c s → trim_right c s ≡ s
unfolding trim_right
trim_right-Lacks c [] h = refl
trim_right-Lacks c (b ∷ s) h = ground (arith, trim_right-Lacks c s h.1)

pub trim_left-Lacks : (c : ℕ) (s : Bytes) → Lacks c s → trim_left c s ≡ s
unfolding trim_left
trim_left-Lacks c [] h = refl
trim_left-Lacks c (b ∷ s) h = ground arith

pub trim-Lacks : (c : ℕ) (s : Bytes) → Lacks c s → trim c s ≡ s
unfolding trim
trim-Lacks c s h = rw (trim_right-Lacks c s h) (trim_left-Lacks c s h)

remove-trim_left : (c : ℕ) (s : Bytes) → remove c (trim_left c s) ≡ remove c s
unfolding remove trim_left
remove-trim_left c [] = refl
remove-trim_left c (b ∷ s) = ground (arith, remove-trim_left c s)

remove-trim_right : (c : ℕ) (s : Bytes) → remove c (trim_right c s) ≡ remove c s
unfolding remove trim_right
remove-trim_right c [] = refl
remove-trim_right c (b ∷ s) = ground (arith, remove-trim_right c s)

pub remove-trim : (c : ℕ) (s : Bytes) → remove c (trim c s) ≡ remove c s
unfolding trim
remove-trim c s = remove-trim_left c (trim_right c s) ∙ remove-trim_right c s

pub remove-Lacks : (c : ℕ) (s : Bytes) → Lacks c s → remove c s ≡ s
unfolding remove
remove-Lacks c [] h = refl
remove-Lacks c (b ∷ s) h = ground (arith, remove-Lacks c s h.1)

pub remove-chunks : (s : Bytes) → remove hyphen (chunks s) ≡ remove hyphen s
unfolding remove chunks
remove-chunks (a ∷ b ∷ c ∷ d ∷ e ∷ f ∷ g ∷ s) = rw (remove-chunks s)
remove-chunks s = refl

pub to_upper-IsText : (s : Bytes) → All IsText s → to_upper s ≡ s
unfolding to_upper
to_upper-IsText [] h = refl
to_upper-IsText (c ∷ s) h = ground (arith, to_upper-IsText s h.1)

pub untypeoify-IsText : (s : Bytes) → All IsText s → untypeoify s ≡ s
unfolding untypeoify
untypeoify-IsText [] h = refl
untypeoify-IsText (c ∷ s) h = ground (arith, untypeoify-IsText s h.1)

pub copy_all : (dst src : Bytes) → length dst ≡ length src → copy dst src ≡ src
unfolding copy
copy_all [] [] h = refl
copy_all [] (b ∷ src) h = absurd (omega arith)
copy_all (d ∷ dst) [] h = absurd (omega arith)
copy_all (d ∷ dst) (b ∷ src) h = ap (◌∷◌ b) (copy_all dst src (omega arith))

pub length-copy : (dst src : Bytes) → length (copy dst src) ≡ length dst
unfolding copy
length-copy [] src = refl
length-copy (d ∷ dst) [] = refl
length-copy (d ∷ dst) (b ∷ src) = ap suc (length-copy dst src)
