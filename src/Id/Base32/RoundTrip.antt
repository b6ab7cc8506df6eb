-- ===== src/Id/Base32/RoundTrip.antt =====
-- Decoding undoes encoding, and the shape of an encoded text.
use go_tcp_tunnel.Base.{
  ℕ, ◌+◌, ◌*◌, ◌/◌, ◌%◌, ◌≤◌, ◌<◌, false, ◌≡◌, ◌⊎◌, refl, arith, some, [], ◌∷◌, Bytes, codes, ◌==◌,
  length, All,
}
use go_tcp_tunnel.Id.Base32.{
  pad, symbol, symbol_value, symbols, padding, encode, decode_text, two_symbols, four_symbols,
  five_symbols, seven_symbols, eight_symbols,
}

abbrev pub IsByte : ℕ → Type 0
IsByte b = b < 256

-- A letter or a digit of the alphabet.
abbrev pub IsSymbol : ℕ → Type 0
IsSymbol c = ((b'A' ≤ c) × (c ≤ b'Z')) ⊎ ((b'2' ≤ c) × (c ≤ b'7'))

pub symbol-IsSymbol : (v : ℕ) → v < 32 → IsSymbol (symbol v)
unfolding symbol
symbol-IsSymbol v h = ground arith

pub symbol_value-symbol : (v : ℕ) → v < 32 → symbol_value (symbol v) ≡ some v
unfolding symbol symbol_value
symbol_value-symbol v h = ground arith

pub length-symbols : (s : Bytes) → length (symbols s) ≡ (length s * 8 + 4) / 5
unfolding symbols
length-symbols [] = refl
length-symbols (a ∷ []) = refl
length-symbols (a ∷ b ∷ []) = refl
length-symbols (a ∷ b ∷ c ∷ []) = refl
length-symbols (a ∷ b ∷ c ∷ d ∷ []) = refl
length-symbols (a ∷ b ∷ c ∷ d ∷ e ∷ s) = omega (arith, length-symbols s)

pub padding_four : (s : Bytes) → length s % 5 ≡ 2 → padding s ≡ codes "===="
unfolding padding
padding_four [] h = absurd (omega arith)
padding_four (a ∷ []) h = absurd (omega arith)
padding_four (a ∷ b ∷ []) h = refl
padding_four (a ∷ b ∷ c ∷ []) h = absurd (omega arith)
padding_four (a ∷ b ∷ c ∷ d ∷ []) h = absurd (omega arith)
padding_four (a ∷ b ∷ c ∷ d ∷ e ∷ s) h = padding_four s (omega arith)

pub symbols-IsSymbol : (s : Bytes) → All IsByte s → All IsSymbol (symbols s)
unfolding symbols
symbols-IsSymbol [] h = tt
symbols-IsSymbol (a ∷ []) h =
    (symbol-IsSymbol _ (omega arith), (symbol-IsSymbol _ (omega arith), tt))
symbols-IsSymbol (a ∷ b ∷ []) h = (
  symbol-IsSymbol _ (omega arith),
  (
    symbol-IsSymbol _ (omega arith),
    (symbol-IsSymbol _ (omega arith), (symbol-IsSymbol _ (omega arith), tt)),
  ),
)
symbols-IsSymbol (a ∷ b ∷ c ∷ []) h = (
  symbol-IsSymbol _ (omega arith),
  (
    symbol-IsSymbol _ (omega arith),
    (
      symbol-IsSymbol _ (omega arith),
      (symbol-IsSymbol _ (omega arith), (symbol-IsSymbol _ (omega arith), tt)),
    ),
  ),
)
symbols-IsSymbol (a ∷ b ∷ c ∷ d ∷ []) h = (
  symbol-IsSymbol _ (omega arith),
  (
    symbol-IsSymbol _ (omega arith),
    (
      symbol-IsSymbol _ (omega arith),
      (
        symbol-IsSymbol _ (omega arith),
        (
          symbol-IsSymbol _ (omega arith),
          (symbol-IsSymbol _ (omega arith), (symbol-IsSymbol _ (omega arith), tt)),
        ),
      ),
    ),
  ),
)
symbols-IsSymbol (a ∷ b ∷ c ∷ d ∷ e ∷ s) h = (
  symbol-IsSymbol _ (omega arith),
  (
    symbol-IsSymbol _ (omega arith),
    (
      symbol-IsSymbol _ (omega arith),
      (
        symbol-IsSymbol _ (omega arith),
        (
          symbol-IsSymbol _ (omega arith),
          (
            symbol-IsSymbol _ (omega arith),
            (
              symbol-IsSymbol _ (omega arith),
              (symbol-IsSymbol _ (omega arith), symbols-IsSymbol s h.1.1.1.1.1),
            ),
          ),
        ),
      ),
    ),
  ),
)

two_symbols_lem :
    (a : ℕ) → IsByte a → two_symbols (symbol (a / 8)) (symbol (a % 8 * 4)) ≡ some (a ∷ [])
unfolding two_symbols
two_symbols_lem a ha = ground (arith, symbol_value-symbol (a / 8), symbol_value-symbol (a % 8 * 4))

four_symbols_lem :
    (a b : ℕ)
    → IsByte a
    → IsByte b
    → four_symbols
        (symbol (a / 8))
        (symbol (a % 8 * 4 + b / 64))
        (symbol (b / 2 % 32))
        (symbol (b % 2 * 16))
      ≡ some (a ∷ b ∷ [])
unfolding four_symbols
four_symbols_lem a b ha hb = ground (
  arith,
  symbol_value-symbol (a / 8),
  symbol_value-symbol (a % 8 * 4 + b / 64),
  symbol_value-symbol (b / 2 % 32),
  symbol_value-symbol (b % 2 * 16),
)

five_symbols_lem :
    (a b c : ℕ)
    → IsByte a
    → IsByte b
    → IsByte c
    → five_symbols
        (symbol (a / 8))
        (symbol (a % 8 * 4 + b / 64))
        (symbol (b / 2 % 32))
        (symbol (b % 2 * 16 + c / 16))
        (symbol (c % 16 * 2))
      ≡ some (a ∷ b ∷ c ∷ [])
unfolding five_symbols
five_symbols_lem a b c ha hb hc = ground (
  arith,
  symbol_value-symbol (a / 8),
  symbol_value-symbol (a % 8 * 4 + b / 64),
  symbol_value-symbol (b / 2 % 32),
  symbol_value-symbol (b % 2 * 16 + c / 16),
  symbol_value-symbol (c % 16 * 2),
)

seven_symbols_lem :
    (a b c d : ℕ)
    → IsByte a
    → IsByte b
    → IsByte c
    → IsByte d
    → seven_symbols
        (symbol (a / 8))
        (symbol (a % 8 * 4 + b / 64))
        (symbol (b / 2 % 32))
        (symbol (b % 2 * 16 + c / 16))
        (symbol (c % 16 * 2 + d / 128))
        (symbol (d / 4 % 32))
        (symbol (d % 4 * 8))
      ≡ some (a ∷ b ∷ c ∷ d ∷ [])
unfolding seven_symbols
seven_symbols_lem a b c d ha hb hc hd = ground (
  arith,
  symbol_value-symbol (a / 8),
  symbol_value-symbol (a % 8 * 4 + b / 64),
  symbol_value-symbol (b / 2 % 32),
  symbol_value-symbol (b % 2 * 16 + c / 16),
  symbol_value-symbol (c % 16 * 2 + d / 128),
  symbol_value-symbol (d / 4 % 32),
  symbol_value-symbol (d % 4 * 8),
)

eight_symbols_lem :
    (a b c d e : ℕ) (rest : Bytes)
    → IsByte a
    → IsByte b
    → IsByte c
    → IsByte d
    → IsByte e
    → eight_symbols
        (symbol (a / 8))
        (symbol (a % 8 * 4 + b / 64))
        (symbol (b / 2 % 32))
        (symbol (b % 2 * 16 + c / 16))
        (symbol (c % 16 * 2 + d / 128))
        (symbol (d / 4 % 32))
        (symbol (d % 4 * 8 + e / 32))
        (symbol (e % 32))
        (some rest)
      ≡ some (a ∷ b ∷ c ∷ d ∷ e ∷ rest)
unfolding eight_symbols
eight_symbols_lem a b c d e rest ha hb hc hd he = ground (
  arith,
  symbol_value-symbol (a / 8),
  symbol_value-symbol (a % 8 * 4 + b / 64),
  symbol_value-symbol (b / 2 % 32),
  symbol_value-symbol (b % 2 * 16 + c / 16),
  symbol_value-symbol (c % 16 * 2 + d / 128),
  symbol_value-symbol (d / 4 % 32),
  symbol_value-symbol (d % 4 * 8 + e / 32),
  symbol_value-symbol (e % 32),
)

symbol-ne-pad : (v : ℕ) → v < 32 → (symbol v == pad) ≡ false
unfolding symbol
symbol-ne-pad v h = ground arith

-- Every byte sequence is read back from its encoding, whatever padding its length needs.
pub decode_text-encode : (s : Bytes) → All IsByte s → decode_text (encode s) ≡ some s
unfolding decode_text encode
decode_text-encode [] h = refl
decode_text-encode (a ∷ []) h = two_symbols_lem a h.0
decode_text-encode (a ∷ b ∷ []) h =
    rw (symbol-ne-pad (b / 2 % 32) (omega arith)) (four_symbols_lem a b h.0 h.1.0)
decode_text-encode (a ∷ b ∷ c ∷ []) h =
    rw (symbol-ne-pad (c % 16 * 2) (omega arith)) (five_symbols_lem a b c h.0 h.1.0 h.1.1.0)
decode_text-encode (a ∷ b ∷ c ∷ d ∷ []) h =
    rw (symbol-ne-pad (d / 4 % 32) (omega arith))
      (seven_symbols_lem a b c d h.0 h.1.0 h.1.1.0 h.1.1.1.0)
decode_text-encode (a ∷ b ∷ c ∷ d ∷ e ∷ s) h =
    rw (symbol-ne-pad (e % 32) (omega arith), decode_text-encode s h.1.1.1.1.1)
      (eight_symbols_lem a b c d e s h.0 h.1.0 h.1.1.0 h.1.1.1.0 h.1.1.1.1.0)
