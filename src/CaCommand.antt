-- ===== src/CaCommand.antt =====
-- cmd/ca/options.go, and CheckPrivateKeyPermissions of utils.go: the files that the `ca` command
-- reads and writes. Which of the writes fail, and with what left behind, is a parameter.
pub mod Files
pub mod Commands
use go_tcp_tunnel.Base.{
  ℕ, ◌*◌, ◌%◌, Bool, true, false, none, some, Option, List, [], ◌∷◌, Bytes, codes, ltb, ◌==◌, beq,
  elem, length, if◌then◌else◌, is_empty, Result, ok, err, ◌>>=◌, ◌>>◌, require, map_err, not,
}
use go_tcp_tunnel.Base.Dict.{Dict, lookup, insert, erase}
use go_tcp_tunnel.Ca.{CaError, Crypto, Draw, generate_ca, issue_cert}

pub record File : Type 0 where
  pub content : Bytes
  pub mode : ℕ

abbrev pub Files : Type 0
Files = Dict File

-- How `os.WriteFile` ends for a path: it may fail behind the creation of the file.
pub data Writing : Type 0 where
  written not_opened : Writing
  cut_short : Bytes → Writing

pub record Os : Type 0 where
  pub stats : Bytes → Bool  -- does `os.Stat` of an existing file succeed?
  pub writes : Bytes → Writing
  pub removes : Bytes → Bool
  pub makes_dir : Bytes → Bool
  pub masked : ℕ → ℕ  -- a mode without the bits of the umask
  pub join : Bytes → Bytes → Bytes  -- `filepath.Join`
  pub is_windows : Bool

pub data CommandError : Type 0 where
  write_failed already_exists mkdir_failed read_failed stat_failed open_permissions :
      Bytes → CommandError
  ca_error : CaError → CommandError
  unknown_command : Bytes → CommandError
  init_arguments name_missing issued_unreadable nil_block : CommandError
  bad_flags : List Bytes → CommandError

-- An existing file keeps its mode.
abbrev mode_at : Os → Bytes → ℕ → Files → ℕ
mode_at os path perm fs = elim (lookup path fs) [ none ↦ os.masked perm | some f ↦ f.mode ]

-- What the file holds then, if it was opened.
abbrev pub left_by : Writing → Bytes → Option Bytes
left_by written content = some content
left_by not_opened content = none
left_by (cut_short part) content = some part

abbrev pub is_written : Writing → Bool
is_written written = true
is_written not_opened = false
is_written (cut_short part) = false

unfoldable pub put : Os → Bytes → ℕ → Option Bytes → Files → Files
put os path perm none fs = fs
put os path perm (some content) fs =
    insert path (record { content = content; mode = mode_at os path perm fs }) fs

unfoldable pub write_file : Os → Bytes → Bytes → ℕ → Files → Bool × Files
write_file os path content perm fs =
    (is_written (os.writes path), put os path perm (left_by (os.writes path) content) fs)

unfoldable pub remove_file : Os → Bytes → Files → Files
remove_file os path fs = if os.removes path then erase path fs else fs

-- 0644 and 0600.
abbrev pub public_mode : ℕ
public_mode = 420

abbrev pub private_mode : ℕ
private_mode = 384

unfoldable pub write_key_pair :
    Os → Bytes → Bytes → Bytes × Bytes → Files → Result CommandError (Unit {0}) × Files
write_key_pair os crt_path key_path pair fs =
    let (crt_ok, fs1) = write_file os crt_path pair.0 public_mode fs in
    let (key_ok, fs2) = write_file os key_path pair.1 private_mode fs1 in
    if crt_ok
    then if key_ok then (ok tt, fs2) else (err (write_failed key_path), remove_file os crt_path fs2)
    else (err (write_failed crt_path), fs1)

-- `os.Stat`, with `none` for an error.
abbrev pub stat : Os → Bytes → Files → Option File
stat os path fs = elim (lookup path fs) [
  | none ↦ none
  | some f ↦ if os.stats path then some f else none
]

-- `perm&0077`: the lowest six bits.
unfoldable pub check_private_key_permissions : Os → Bytes → Files → Result CommandError (Unit {0})
check_private_key_permissions os path fs = if os.is_windows then ok tt else elim (stat os path fs) [
  | none ↦ err (stat_failed path)
  | some f ↦ if f.mode % 64 == 0 then ok tt else err (open_permissions path)
]

-- `os.Stat` without an error: any error is taken for absence.
exists : Os → Bytes → Files → Bool
exists os path fs = elim (stat os path fs) [ none ↦ false | some _ ↦ true ]

-- `os.MkdirAll` and `writeKeyPair`, behind the making of the pair.
create_pair :
    Os
    → Bytes
    → Bytes
    → Bytes
    → Result CommandError (Bytes × Bytes)
    → Files
    → Result CommandError (Bytes × Bytes) × Files
create_pair os dir crt_path key_path (err e) fs = (err e, fs)
create_pair os dir crt_path key_path (ok pair) fs =
    let (done, fs1) = write_key_pair os crt_path key_path pair fs in
    if os.makes_dir dir
    then elim done [ err e ↦ (err e, fs1) | ok _ ↦ (ok pair, fs1) ]
    else (err (mkdir_failed dir), fs)

abbrev pub ca_crt : Bytes
ca_crt = codes "ca.crt"

abbrev pub ca_key : Bytes
ca_key = codes "ca.key"

abbrev pub tls_crt : Bytes
tls_crt = codes "tls.crt"

abbrev pub tls_key : Bytes
tls_key = codes "tls.key"

-- Ten years, in nanoseconds.
abbrev pub validity : ℕ
validity = 10 * 365 * 24 * 3_600_000_000_000

abbrev pub ca_name : Bytes
ca_name = codes "go-stream-tunnel CA"

unfoldable pub execute_init :
    Os → Crypto → Draw → Bytes → Files → Result CommandError (Bytes × Bytes) × Files
unfolding exists create_pair
execute_init os c d ca_dir fs =
    let crt_path = os.join ca_dir ca_crt in
    let key_path = os.join ca_dir ca_key in
    if exists os crt_path fs
    then (err (already_exists crt_path), fs)
    else if exists os key_path fs
    then (err (already_exists key_path), fs)
    else create_pair os ca_dir crt_path key_path
        (map_err ca_error (generate_ca c d ca_name validity)) fs

unfoldable pub read_file : Bytes → Files → Result CommandError Bytes
read_file path fs = elim (lookup path fs) [ none ↦ err (read_failed path) | some f ↦ ok f.content ]

-- `executeIssue` up to the certificate.
unfoldable pub issued :
    Os → Crypto → Draw → Bytes → Bytes → Bytes → Files → Result CommandError (Bytes × Bytes)
issued os c d ca_dir name addr fs = do
  ca_cert ← read_file (os.join ca_dir ca_crt) fs
  check_private_key_permissions os (os.join ca_dir ca_key) fs
  ca_key_pem ← read_file (os.join ca_dir ca_key) fs
  map_err ca_error
      (issue_cert c d ca_cert ca_key_pem name (if is_empty addr then [] else addr ∷ []) validity)

-- The certificate is parsed again for its fingerprint; `nil_block` stands for the panic of
-- `block.Bytes`.
parses_back :
    Crypto
    → Result CommandError (Bytes × Bytes) × Files
    → Result CommandError (Bytes × Bytes) × Files
parses_back c (err e, fs) = (err e, fs)
parses_back c (ok pair, fs) = elim (c.pem_decode pair.0) [
  | none ↦ (err nil_block, fs)
  | some der ↦ elim (c.parse_certificate der) [
    | none ↦ (err issued_unreadable, fs)
    | some x ↦ (ok pair, fs)
  ]
]

unfoldable pub execute_issue :
    Os
    → Crypto
    → Draw
    → Bytes
    → Bytes
    → Bytes
    → Bytes
    → Files
    → Result CommandError (Bytes × Bytes) × Files
unfolding exists create_pair parses_back
execute_issue os c d ca_dir name addr out_dir fs = elim (issued os c d ca_dir name addr fs) [
  | err e ↦ (err e, fs)
  | ok pair ↦
      let crt_path = os.join out_dir tls_crt in
      let key_path = os.join out_dir tls_key in
      if exists os crt_path fs
      then (err (already_exists crt_path), fs)
      else if exists os key_path fs
      then (err (already_exists key_path), fs)
      else parses_back c (create_pair os out_dir crt_path key_path (ok pair) fs)
]

-- The flags of the command line that were set, the arguments behind them, and their values.
pub record Options : Type 0 where
  pub ca_dir : Bytes
  pub name : Bytes
  pub addr : Bytes
  pub out_dir : Bytes
  pub command : Bytes

-- The values of the flags that `Command` declares.
abbrev pub default_options : Options
default_options = record { ca_dir = codes "ca"; name = []; addr = []; out_dir = []; command = [] }

-- The flags that `init` does not use.
init_refuses : List Bytes → List Bytes
init_refuses [] = []
init_refuses (f ∷ fs) =
    if elem f (codes "name" ∷ codes "addr" ∷ codes "out-dir" ∷ [])
    then (b'-' ∷ f) ∷ init_refuses fs
    else init_refuses fs

first_arg : List Bytes → Bytes
first_arg [] = []
first_arg (a ∷ rest) = a

refused_flags : List Bytes → Result CommandError (Unit {0})
refused_flags [] = ok tt
refused_flags (f ∷ fs) = err (bad_flags (f ∷ fs))

unfoldable pub complete_args : List Bytes → List Bytes → Options → Result CommandError Options
unfolding init_refuses first_arg refused_flags
complete_args set_flags args o =
    let o' = record o { command = first_arg args } in
    if beq o'.command (codes "init")
    then (do
      require (not (ltb 1 (length args))) init_arguments
      refused_flags (init_refuses set_flags)
      ok o')
    else if beq o'.command (codes "issue")
    then if is_empty o.name
      then err name_missing
      else ok (record o' { out_dir = if is_empty o.out_dir then o.name else o.out_dir })
    else err (unknown_command o'.command)

unfoldable pub execute :
    Os → Crypto → Draw → Options → Files → Result CommandError (Bytes × Bytes) × Files
execute os c d o fs =
    if beq o.command (codes "init")
    then execute_init os c d o.ca_dir fs
    else if beq o.command (codes "issue")
    then execute_issue os c d o.ca_dir o.name o.addr o.out_dir fs
    else (err (unknown_command o.command), fs)
