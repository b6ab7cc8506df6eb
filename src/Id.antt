-- ===== src/Id.antt =====
-- id/id.go: client identifiers, their text and how it is read. Texts are ASCII.
pub mod Base32
pub mod Letters
pub mod RoundTrip
use go_tcp_tunnel.Base.{
  ℕ, zero, suc, ◌-◌, ◌&&◌, none, some, [], ◌∷◌, ◌++◌, Bytes, codes, leb, ◌==◌, if◌then◌else◌,
  length, Result, ok, err, map, trim,
}
use go_tcp_tunnel.Id.Base32.{encode, decode_string, pad}

pub data IdError : Type 0 where
  incorrect_length corrupt_input : IdError

zeros : ℕ → Bytes
zeros zero = []
zeros (suc n) = 0 ∷ zeros n

-- The zero value of `id.ID`, which is an array of 32 bytes.
unfoldable pub empty_id : Bytes
unfolding zeros
empty_id = zeros 32

-- Go's `copy(dst, src)`, as the new content of `dst`.
unfoldable pub copy : Bytes → Bytes → Bytes
copy [] src = []
copy (d ∷ dst) [] = d ∷ dst
copy (d ∷ dst) (b ∷ src) = b ∷ copy dst src

abbrev pub hyphen : ℕ
hyphen = b'-'

-- `chunkRegex.ReplaceAllString(s, "$1-")`: a hyphen behind every seven characters.
unfoldable pub chunks : Bytes → Bytes
chunks (a ∷ b ∷ c ∷ d ∷ e ∷ f ∷ g ∷ s) = a ∷ b ∷ c ∷ d ∷ e ∷ f ∷ g ∷ hyphen ∷ chunks s
chunks s = s

unfoldable pub chunkify : Bytes → Bytes
unfolding chunks
chunkify s = trim hyphen (chunks s)

-- `strings.Replace(s, c, "", -1)` for a text `c` of one character.
unfoldable pub remove : ℕ → Bytes → Bytes
remove c [] = []
remove c (b ∷ s) = let rest = remove c s in if c == b then rest else b ∷ rest

unfoldable pub unchunkify : Bytes → Bytes
unfolding remove
unchunkify s = remove b' ' (remove hyphen s)

-- `strings.Replace(s, old, new, -1)` for texts of one character.
abbrev pub replace : ℕ → ℕ → ℕ → ℕ
replace old new c = if c == old then new else c

unfoldable pub untypeoify : Bytes → Bytes
untypeoify s = map (replace b'8' b'B') (map (replace b'1' b'I') (map (replace b'0' b'O') s))

abbrev pub upper : ℕ → ℕ
upper c = if leb b'a' c && leb c b'z' then c - 32 else c

unfoldable pub to_upper : Bytes → Bytes
to_upper = map upper

unfoldable pub to_string : Bytes → Bytes
unfolding chunkify
to_string identifier = chunkify (trim pad (encode identifier))

unfoldable pub canonical : Bytes → Bytes
unfolding to_upper untypeoify unchunkify
canonical text = unchunkify (untypeoify (to_upper (trim pad text)))

decoded : Bytes → Bytes → Result IdError Bytes
decoded identifier text = elim (decode_string (text ++ codes "====")) [
  | none ↦ err corrupt_input
  | some bytes ↦ ok (copy identifier bytes)
]

-- The identifier is what the receiver holds before; an error leaves it as it was.
unfoldable pub unmarshal_text : Bytes → Bytes → Result IdError Bytes
unfolding decoded
unmarshal_text identifier text =
    let canonical_text = canonical text in
    if length canonical_text == 52 then decoded identifier canonical_text else err incorrect_length
