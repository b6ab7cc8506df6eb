-- ===== src/Id/RoundTrip.antt =====
-- An identifier is read back from its text.
use go_tcp_tunnel.Base.{
  ℕ, ◌≡◌, ◌≢◌, refl, arith, some, [], ◌∷◌, ◌++◌, Bytes, codes, length, All, trim, trim_left,
  trim_right, ap, ◌∙◌, ok, sym,
}
use go_tcp_tunnel.Id.{
  to_string, unmarshal_text, canonical, decoded, chunks, chunkify, remove, unchunkify, hyphen,
}
use go_tcp_tunnel.Id.Letters.{
  IsText, IsLetter, Lacks, All-map, All-trim_left, All-trim_right, All-chunks, trim-Lacks,
  trim_left-Lacks, remove-trim, remove-Lacks, remove-chunks, to_upper-IsText, untypeoify-IsText,
  copy_all,
}
use go_tcp_tunnel.Id.Base32.{symbols, encode, decode_string, strip_newlines, pad}
use go_tcp_tunnel.Id.Base32.RoundTrip.{
  IsByte, symbols-IsSymbol, length-symbols, padding_four, decode_text-encode,
}

-- 32 bytes.
abbrev pub IsId : Bytes → Type 0
IsId s = (length s ≡ 32) × All IsByte s

letter-ne : (c : ℕ) → IsLetter c → (pad ≢ c) × (b' ' ≢ c) × (hyphen ≢ c)
letter-ne c h = (ground arith, ground arith, ground arith)

text-ne : (c : ℕ) → IsText c → pad ≢ c
text-ne c h = ground arith

strip_newlines_lem :
    (s : Bytes) → All IsLetter s → strip_newlines (s ++ codes "====") ≡ s ++ codes "===="
unfolding strip_newlines
strip_newlines_lem [] h = refl
strip_newlines_lem (c ∷ s) h = ground (arith, strip_newlines_lem s h.1)

trim_right-padded : (s : Bytes) → All IsLetter s → trim_right pad (s ++ codes "====") ≡ s
unfolding trim_right
trim_right-padded [] h = refl
trim_right-padded (c ∷ s) h = rw (trim_right-padded s h.1) (ground arith)

remove_lem :
    (s : Bytes)
    → Lacks hyphen s
    → Lacks b' ' s
    → remove b' ' (remove hyphen (trim hyphen (chunks s))) ≡ s
remove_lem s h k =
    rw (remove-trim hyphen (chunks s), remove-chunks s, remove-Lacks hyphen s h)
      (remove-Lacks b' ' s k)

canonical-nil : canonical [] ≡ []
unfolding canonical trim trim_left
canonical-nil = refl

module _ (identifier : Bytes) (v : IsId identifier) where
  letters : All IsLetter (symbols identifier)
  letters = symbols-IsSymbol identifier v.1

  encode_lem : encode identifier ≡ symbols identifier ++ codes "===="
  unfolding encode
  encode_lem = rw (padding_four identifier (omega (arith, v.0)))

  trim-encode : trim pad (encode identifier) ≡ symbols identifier
  unfolding trim trim_left
  trim-encode =
      rw (encode_lem, trim, trim_right-padded (symbols identifier) letters)
        (trim_left-Lacks pad (symbols identifier)
          (All-map IsLetter (λ b. pad ≢ b) (λ c h. (letter-ne c h).0) _ letters))

  pub to_string_lem : to_string identifier ≡ chunkify (symbols identifier)
  unfolding to_string
  to_string_lem = ap chunkify trim-encode

  pub to_string-IsText : All IsText (to_string identifier)
  unfolding chunkify trim
  to_string-IsText =
      rw to_string_lem
        (All-trim_left IsText hyphen _ (All-trim_right IsText hyphen _ (All-chunks _ letters)))

  -- Cleaning the text of an identifier gives its symbols.
  canonical-to_string : canonical (to_string identifier) ≡ symbols identifier
  unfolding canonical unchunkify chunkify
  canonical-to_string =
      rw
        (
          trim-Lacks pad (to_string identifier)
              (All-map IsText (λ b. pad ≢ b) text-ne _ to_string-IsText),
          to_upper-IsText (to_string identifier) to_string-IsText,
          untypeoify-IsText (to_string identifier) to_string-IsText,
          to_string_lem,
        )
        (remove_lem (symbols identifier)
          (All-map IsLetter (λ b. hyphen ≢ b) (λ c h. (letter-ne c h).2) _ letters)
          (All-map IsLetter (λ b. b' ' ≢ b) (λ c h. (letter-ne c h).1) _ letters))

  decode_string_lem : decode_string (symbols identifier ++ codes "====") ≡ some identifier
  unfolding decode_string
  decode_string_lem =
      rw (strip_newlines_lem (symbols identifier) letters, ← encode_lem)
        (decode_text-encode identifier v.1)

  -- Whatever identifier the receiver holds, reading the text of one replaces it by that one.
  pub unmarshal_text-to_string :
      (before : Bytes) → IsId before → unmarshal_text before (to_string identifier) ≡ ok identifier
  unfolding unmarshal_text
  unmarshal_text-to_string before w =
      rw (canonical-to_string, length-symbols identifier, v.0)
        (rw (decode_string_lem, decoded) (ap ok (copy_all before identifier (w.0 ∙ sym v.0))))

  pub to_string-ne-nil : to_string identifier ≢ []
  to_string-ne-nil e =
      let none_left : [] ≡ symbols identifier =
        sym canonical-nil ∙ (ap canonical (sym e) ∙ canonical-to_string) in
      omega (arith, ap length none_left, length-symbols identifier, v.0)
