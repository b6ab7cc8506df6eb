-- ===== src/Id/Base32.antt =====
-- `encoding/base32.StdEncoding`, as id/id.go uses it: groups of five bytes become eight symbols of
-- five bits, and a shorter last group is padded by `=`.
pub mod RoundTrip
use go_tcp_tunnel.Base.{
  ℕ, ◌+◌, ◌-◌, ◌*◌, ◌/◌, ◌%◌, ◌&&◌, none, some, Option, [], ◌∷◌, ◌++◌, Bytes, codes, leb, ltb, ◌==◌,
  if◌then◌else◌, length,
}

abbrev pub pad : ℕ
pad = b'='

-- The symbol of a value below 32.
unfoldable pub symbol : ℕ → ℕ
symbol v = if ltb v 26 then b'A' + v else b'2' + (v - 26)

unfoldable pub symbol_value : ℕ → Option ℕ
symbol_value c =
    if leb b'A' c && leb c b'Z'
    then some (c - b'A')
    else if leb b'2' c && leb c b'7'
    then some (c - b'2' + 26)
    else none

-- The symbols of the text with no padding.
unfoldable pub symbols : Bytes → Bytes
symbols [] = []
symbols (a ∷ []) = symbol (a / 8) ∷ symbol (a % 8 * 4) ∷ []
symbols (a ∷ b ∷ []) =
    symbol (a / 8) ∷ symbol (a % 8 * 4 + b / 64) ∷ symbol (b / 2 % 32) ∷ symbol (b % 2 * 16) ∷ []
symbols (a ∷ b ∷ c ∷ []) =
    symbol (a / 8)
    ∷ symbol (a % 8 * 4 + b / 64)
    ∷ symbol (b / 2 % 32)
    ∷ symbol (b % 2 * 16 + c / 16)
    ∷ symbol (c % 16 * 2)
    ∷ []
symbols (a ∷ b ∷ c ∷ d ∷ []) =
    symbol (a / 8)
    ∷ symbol (a % 8 * 4 + b / 64)
    ∷ symbol (b / 2 % 32)
    ∷ symbol (b % 2 * 16 + c / 16)
    ∷ symbol (c % 16 * 2 + d / 128)
    ∷ symbol (d / 4 % 32)
    ∷ symbol (d % 4 * 8)
    ∷ []
symbols (a ∷ b ∷ c ∷ d ∷ e ∷ s) =
    symbol (a / 8)
    ∷ symbol (a % 8 * 4 + b / 64)
    ∷ symbol (b / 2 % 32)
    ∷ symbol (b % 2 * 16 + c / 16)
    ∷ symbol (c % 16 * 2 + d / 128)
    ∷ symbol (d / 4 % 32)
    ∷ symbol (d % 4 * 8 + e / 32)
    ∷ symbol (e % 32)
    ∷ symbols s

unfoldable pub padding : Bytes → Bytes
padding [] = []
padding (a ∷ []) = codes "======"
padding (a ∷ b ∷ []) = codes "===="
padding (a ∷ b ∷ c ∷ []) = codes "==="
padding (a ∷ b ∷ c ∷ d ∷ []) = codes "="
padding (a ∷ b ∷ c ∷ d ∷ e ∷ s) = padding s

unfoldable pub encode : Bytes → Bytes
unfolding symbols padding
encode s = symbols s ++ padding s

-- The bytes of 2, 4, 5, 7 or 8 symbols.
infixl 5 ◌>>=◌
abbrev ◌>>=◌ {ℓ κ} : {A : Type ℓ} {B : Type κ} → Option A → (A → Option B) → Option B
none >>= f = none
some a >>= f = f a

two_symbols : ℕ → ℕ → Option Bytes
two_symbols c0 c1 = do x0 ← symbol_value c0; x1 ← symbol_value c1; some ((x0 * 8 + x1 / 4) ∷ [])

four_symbols : ℕ → ℕ → ℕ → ℕ → Option Bytes
four_symbols c0 c1 c2 c3 = do
  x0 ← symbol_value c0
  x1 ← symbol_value c1
  x2 ← symbol_value c2
  x3 ← symbol_value c3
  some ((x0 * 8 + x1 / 4) ∷ (x1 % 4 * 64 + x2 * 2 + x3 / 16) ∷ [])

five_symbols : ℕ → ℕ → ℕ → ℕ → ℕ → Option Bytes
five_symbols c0 c1 c2 c3 c4 = do
  x0 ← symbol_value c0
  x1 ← symbol_value c1
  x2 ← symbol_value c2
  x3 ← symbol_value c3
  x4 ← symbol_value c4
  some ((x0 * 8 + x1 / 4) ∷ (x1 % 4 * 64 + x2 * 2 + x3 / 16) ∷ (x3 % 16 * 16 + x4 / 2) ∷ [])

seven_symbols : ℕ → ℕ → ℕ → ℕ → ℕ → ℕ → ℕ → Option Bytes
seven_symbols c0 c1 c2 c3 c4 c5 c6 = do
  x0 ← symbol_value c0
  x1 ← symbol_value c1
  x2 ← symbol_value c2
  x3 ← symbol_value c3
  x4 ← symbol_value c4
  x5 ← symbol_value c5
  x6 ← symbol_value c6
  some (
      (x0 * 8 + x1 / 4)
      ∷ (x1 % 4 * 64 + x2 * 2 + x3 / 16)
      ∷ (x3 % 16 * 16 + x4 / 2)
      ∷ (x4 % 2 * 128 + x5 * 4 + x6 / 8)
      ∷ [])

-- A full group, in front of what the rest of the text holds.
eight_symbols : ℕ → ℕ → ℕ → ℕ → ℕ → ℕ → ℕ → ℕ → Option Bytes → Option Bytes
eight_symbols c0 c1 c2 c3 c4 c5 c6 c7 rest = do
  x0 ← symbol_value c0
  x1 ← symbol_value c1
  x2 ← symbol_value c2
  x3 ← symbol_value c3
  x4 ← symbol_value c4
  x5 ← symbol_value c5
  x6 ← symbol_value c6
  x7 ← symbol_value c7
  bytes ← rest
  some (
      (x0 * 8 + x1 / 4)
      ∷ (x1 % 4 * 64 + x2 * 2 + x3 / 16)
      ∷ (x3 % 16 * 16 + x4 / 2)
      ∷ (x4 % 2 * 128 + x5 * 4 + x6 / 8)
      ∷ (x6 % 8 * 32 + x7)
      ∷ bytes)

-- A group that ends in padding is the last one; with `k` symbols in it, up to `k` bytes behind it
-- are not read.
padded : ℕ → Bytes → Option Bytes → Option Bytes
padded k rest bytes = if leb (length rest) k then bytes else none

unfoldable pub decode_text : Bytes → Option Bytes
unfolding two_symbols four_symbols five_symbols seven_symbols eight_symbols padded
decode_text [] = some []
decode_text (c0 ∷ c1 ∷ c2 ∷ c3 ∷ c4 ∷ c5 ∷ c6 ∷ c7 ∷ rest) =
    let more = decode_text rest in
    if c7 == pad
    then if c5 == pad && c6 == pad
      then if c4 == pad
        then if c2 == pad && c3 == pad
          then padded 2 rest (two_symbols c0 c1)
          else padded 4 rest (four_symbols c0 c1 c2 c3)
        else padded 5 rest (five_symbols c0 c1 c2 c3 c4)
      else padded 7 rest (seven_symbols c0 c1 c2 c3 c4 c5 c6)
    else eight_symbols c0 c1 c2 c3 c4 c5 c6 c7 more
decode_text _ = none

-- `DecodeString` drops the line breaks first.
unfoldable pub strip_newlines : Bytes → Bytes
strip_newlines [] = []
strip_newlines (c ∷ s) =
    let rest = strip_newlines s in if c == 10 then rest else if c == 13 then rest else c ∷ rest

unfoldable pub decode_string : Bytes → Option Bytes
unfolding strip_newlines decode_text
decode_string s = decode_text (strip_newlines s)
