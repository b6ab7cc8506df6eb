-- ===== src/CaCommand/Files.antt =====
-- What the `ca` command does to files.
use go_tcp_tunnel.Base.{
  ℕ, ◌≡◌, inl, inr, refl, ap, ◌∙◌, arith, true, false, none, some, Option, Bytes, beq, beq_iff,
  Result, ok, err, map_err, Result-cases,
}
use go_tcp_tunnel.Base.Dict.{lookup, lookup-insert, lookup-insert_self, lookup-erase}
use go_tcp_tunnel.Ca.{Crypto, Draw, generate_ca}
use go_tcp_tunnel.CaCommand.{
  File, Files, left_by, put, Os, CommandError, ca_error, mode_at, write_file, remove_file,
  public_mode, private_mode, write_key_pair, exists, create_pair, ca_crt, ca_key, tls_crt, tls_key,
  validity, ca_name, execute_init, issued, parses_back, execute_issue, Options, execute,
}

-- Every file of `fs` that `os.Stat` finds is in `fs'` as it was.
abbrev pub Keeps : Os → Files → Files → Type 0
Keeps os fs fs' =
    (q : Bytes) (f : File) → os.stats q ≡ true → lookup q fs ≡ some f → lookup q fs' ≡ some f

pub lookup-put :
    (os : Os) (path : Bytes) (perm : ℕ) (content : Option Bytes) (fs : Files) (q : Bytes)
    → beq path q ≡ false
    → lookup q (put os path perm content fs) ≡ lookup q fs
unfolding put
lookup-put os path perm none fs q ne = refl
lookup-put os path perm (some content) fs q ne =
    ground (
      arith,
      lookup-insert path q (record { content = content; mode = mode_at os path perm fs }) fs,
    )

mode_absent :
    (os : Os) (path : Bytes) (perm : ℕ) (fs : Files)
    → lookup path fs ≡ none
    → mode_at os path perm fs ≡ os.masked perm
mode_absent os path perm fs absent = ground arith

pub lookup-put_self :
    (os : Os) (path : Bytes) (perm : ℕ) (content : Bytes) (fs : Files)
    → lookup path fs ≡ none
    → lookup path (put os path perm (some content) fs)
      ≡ some (record { content = content; mode = os.masked perm })
unfolding put
lookup-put_self os path perm content fs absent =
    lookup-insert_self path (record { content = content; mode = mode_at os path perm fs }) fs
    ∙ ap (λ m. some (record { content = content; mode = m })) (mode_absent os path perm fs absent)

-- Only the two paths of the pair change.
write_key_pair_keeps :
    (os : Os) (crt key : Bytes) (pair : Bytes × Bytes) (fs : Files) (q : Bytes)
    → beq crt q ≡ false
    → beq key q ≡ false
    → lookup q (write_key_pair os crt key pair fs).1 ≡ lookup q fs
unfolding write_key_pair write_file remove_file
write_key_pair_keeps os crt key pair fs q nc nk =
    let fs1 = put os crt public_mode (left_by (os.writes crt) pair.0) fs in
    let fs2 = put os key private_mode (left_by (os.writes key) pair.1) fs1 in
    ground (
      arith,
      lookup-put os crt public_mode (left_by (os.writes crt) pair.0) fs q nc,
      lookup-put os key private_mode (left_by (os.writes key) pair.1) fs1 q nk,
      lookup-erase crt q fs2,
    )

create_pair-Keeps :
    (os : Os) (dir crt key : Bytes) (made : Result CommandError (Bytes × Bytes)) (fs : Files)
    → exists os crt fs ≡ false
    → exists os key fs ≡ false
    → Keeps os fs (create_pair os dir crt key made fs).1
unfolding create_pair exists
create_pair-Keeps os dir crt key (err e) fs nc nk q f there e' = e'
create_pair-Keeps os dir crt key (ok pair) fs nc nk q f there e' =
    ground (arith, write_key_pair_keeps os crt key pair fs q, beq_iff crt q, beq_iff key q)

execute_init-Keeps :
    (os : Os) (c : Crypto) (d : Draw) (ca_dir : Bytes) (fs : Files)
    → Keeps os fs (execute_init os c d ca_dir fs).1
unfolding execute_init
execute_init-Keeps os c d ca_dir fs q f there e =
    let crt = os.join ca_dir ca_crt in
    let key = os.join ca_dir ca_key in
    ground (
      arith,
      λ (a : exists os crt fs ≡ false) (b : exists os key fs ≡ false).
          create_pair-Keeps os ca_dir crt key (map_err ca_error (generate_ca c d ca_name validity))
            fs a b q f there e,
    )

parses_back_files :
    (c : Crypto) (r : Result CommandError (Bytes × Bytes) × Files) → (parses_back c r).1 ≡ r.1
unfolding parses_back
parses_back_files c (err e, fs) = refl
parses_back_files c (ok pair, fs) = ground arith

execute_issue-Keeps :
    (os : Os) (c : Crypto) (d : Draw) (ca_dir name addr out_dir : Bytes) (fs : Files)
    → Keeps os fs (execute_issue os c d ca_dir name addr out_dir fs).1
unfolding execute_issue
execute_issue-Keeps os c d ca_dir name addr out_dir fs q f there e =
    elim (Result-cases (issued os c d ca_dir name addr fs)) [
      | inl (x, failed) ↦ ground arith
      | inr (pair, made) ↦
          let crt = os.join out_dir tls_crt in
          let key = os.join out_dir tls_key in
          ground (
            arith,
            parses_back_files c (create_pair os out_dir crt key (ok pair) fs),
            λ (a : exists os crt fs ≡ false) (b : exists os key fs ≡ false).
                create_pair-Keeps os out_dir crt key (ok pair) fs a b q f there e,
          )
    ]

-- Whatever the ca command is asked for, and whichever of its writes fail, every file that was there
-- before is there afterwards with its content and its mode.
pub execute-Keeps :
    (os : Os) (c : Crypto) (d : Draw) (o : Options) (fs : Files) (q : Bytes) (f : File)
    → os.stats q ≡ true
    → lookup q fs ≡ some f
    → lookup q (execute os c d o fs).1 ≡ some f
unfolding execute
execute-Keeps os c d o fs q f there e = ground (
  arith,
  execute_init-Keeps os c d o.ca_dir fs q f there e,
  execute_issue-Keeps os c d o.ca_dir o.name o.addr o.out_dir fs q f there e,
)
