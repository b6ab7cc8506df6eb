-- ===== src/Log.antt =====
-- The package log: which messages reach the logger at the bottom, and with which keys and values.
pub mod Filtered
use go_tcp_tunnel.Base.{
  ℕ, Bool, true, false, none, some, Option, List, [], ◌∷◌, ◌++◌, Bytes, codes, ltb, beq,
  if◌then◌else◌,
}

-- Go's `int`.
pub data ℤ : Type 0 where
  pos negsuc : ℕ → ℤ

-- `a > b`
unfoldable pub exceeds : ℤ → ℤ → Bool
exceeds (pos m) (pos n) = ltb n m
exceeds (pos m) (negsuc n) = true
exceeds (negsuc m) (pos n) = false
exceeds (negsuc m) (negsuc n) = ltb m n

-- A key or a value: a string, an int, or of another type.
pub data Any : Type 0 where
  text : Bytes → Any
  int : ℤ → Any
  other : Any

abbrev pub is_level : Any → Bool
is_level (text s) = beq s (codes "level")
is_level (int n) = false
is_level other = false

-- Is the value an int above the level? `none` is no int, at which the loop breaks.
abbrev pub above : ℤ → Any → Option Bool
above level (int n) = some (exceeds n level)
above level (text s) = none
above level other = none

-- The loop of `filterLogger.Log`: does it go on to the logger below?
unfoldable pub passes : ℤ → List Any → Bool
passes level [] = true
passes level (k ∷ []) = true
passes level (k ∷ v ∷ keyvals) =
    let rest = passes level keyvals in
    if is_level k
    then elim (above level v) [ none ↦ true | some too_high ↦ if too_high then false else rest ]
    else rest

-- A logger gives what the logger at the bottom is called with, if it is.
abbrev pub Logger : Type 0
Logger = List Any → Option (List Any)

unfoldable pub filter_log : ℤ → Logger → Logger
filter_log level logger keyvals = if passes level keyvals then logger keyvals else none

unfoldable pub nop_log : Logger
nop_log keyvals = none

unfoldable pub std_log : Logger
std_log keyvals = some keyvals

pub record Context : Type 0 where
  pub prefix : List Any
  pub suffix : List Any
  pub logger : Logger

unfoldable pub new_context : Logger → Context
new_context logger = record { prefix = []; suffix = []; logger = logger }

unfoldable pub with_suffix : List Any → Context → Context
with_suffix keyvals c = record c { suffix = c.suffix ++ keyvals }

unfoldable pub with_prefix : List Any → Context → Context
with_prefix keyvals c = record c { prefix = c.prefix ++ keyvals }

unfoldable pub context_log : Context → Logger
context_log c keyvals = c.logger ((c.prefix ++ keyvals) ++ c.suffix)
