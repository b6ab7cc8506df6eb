-- ===== src/HostPort.antt =====
-- `net.SplitHostPort` and `strconv.Atoi` as the program uses them, `trimPort` (registry.go) and
-- `NormalizeAddress` (utils.go).
pub mod Laws
use go_tcp_tunnel.Base.{
  ℕ, ◌+◌, ◌-◌, ◌*◌, ◌^◌, Bool, false, ◌&&◌, none, some, [], ◌∷◌, ◌++◌, Bytes, codes, leb, ◌==◌,
  if◌then◌else◌, is_empty, has_byte, cut_first, cut_last, Result, ◌>>=◌, ok, err,
}

pub data AddrError : Type 0 where
  missing_port too_many_colons missing_bracket unexpected_open unexpected_close : AddrError

abbrev pub colon : ℕ
colon = b':'

-- `[host]:port`: what stands behind the opening bracket.
split_bracketed : Bytes → Result AddrError (Bytes × Bytes)
split_bracketed rest = elim (cut_first b']' rest) [
  | none ↦ err missing_bracket
  | some (host, []) ↦ err missing_port
  | some (host, d ∷ port) ↦
      if d == colon
      then if has_byte colon port
        then err too_many_colons
        else if has_byte b'[' rest
        then err unexpected_open
        else if has_byte b']' port
        then err unexpected_close
        else ok (host, port)
      else err missing_port
]

-- `host:port`, cut at the last colon.
split_plain : Bytes → Bytes → Bytes → Result AddrError (Bytes × Bytes)
split_plain text host port =
    if has_byte colon host
    then err too_many_colons
    else if has_byte b'[' text
    then err unexpected_open
    else if has_byte b']' text
    then err unexpected_close
    else ok (host, port)

split_at_colon : Bytes → Bytes → Bytes → Result AddrError (Bytes × Bytes)
unfolding split_bracketed split_plain
split_at_colon [] host port = split_plain [] host port
split_at_colon (c ∷ rest) host port =
    if c == b'[' then split_bracketed rest else split_plain (c ∷ rest) host port

unfoldable pub split_host_port : Bytes → Result AddrError (Bytes × Bytes)
unfolding split_at_colon
split_host_port text = elim (cut_last colon text) [
  | none ↦ err missing_port
  | some (host, port) ↦ split_at_colon text host port
]

trimmed : Bytes → Result AddrError (Bytes × Bytes) → Bytes
trimmed text (ok (host, _)) = if is_empty host then text else host
trimmed text (err _) = text

unfoldable pub trim_port : Bytes → Bytes
unfolding trimmed
trim_port text = trimmed text (split_host_port text)

-- The digits of a decimal number, read behind the value so far; `none` on another byte.
unfoldable pub decimal : Bytes → ℕ → Result (Unit {0}) ℕ
decimal [] n = ok n
decimal (c ∷ s) n =
    let rest = decimal s (n * 10 + (c - b'0')) in if leb b'0' c && leb c b'9' then rest else err tt

fits : ℕ → Result (Unit {0}) ℕ → Bool
fits limit (ok n) = leb n limit
fits limit (err _) = false

unsigned : ℕ → Bytes → Bool
unfolding fits decimal
unsigned limit [] = false
unsigned limit (c ∷ s) = fits limit (decimal (c ∷ s) 0)

-- Does `strconv.Atoi` read the text as a 64-bit `int`?
unfoldable pub is_int : Bytes → Bool
unfolding unsigned
is_int [] = false
is_int (c ∷ s) =
    if c == b'-'
    then unsigned (2 ^ 63) s
    else if c == b'+'
    then unsigned (2 ^ 63 - 1) s
    else unsigned (2 ^ 63 - 1) (c ∷ s)

abbrev pub loopback : Bytes
loopback = codes "127.0.0.1"

-- `fmt.Sprintf("%s:%s", host, port)`, with the loopback address for an empty host.
unfoldable pub with_host : Bytes × Bytes → Bytes
with_host (host, port) = (if is_empty host then loopback else host) ++ colon ∷ port

unfoldable pub normalize_address : Bytes → Result AddrError Bytes
unfolding is_int with_host
normalize_address addr = do
  parts ← split_host_port (if is_int addr then colon ∷ addr else addr)
  ok (with_host parts)
