-- ===== src/Replay.antt =====
-- httphost.go: reading the host of a request off a connection without losing a byte. A reader is
-- the list of what its calls of Read return; when http.ReadRequest has seen enough is a parameter.
use go_tcp_tunnel.Base.{
  ◌≡◌, refl, sym, ap, ◌∙◌, arith, List, [], ◌∷◌, ◌++◌, Bytes, Result, ok, err, append_assoc,
  append-nil, ◌⊎◌, inl, inr, subst, Result-cases,
}

pub data Parsed : Type 0 where
  more malformed : Parsed
  request_for : Bytes → Parsed

pub data PeekError : Type 0 where
  bad_request unexpected_eof : PeekError

-- All the bytes of a reader.
unfoldable pub contents : List Bytes → Bytes
contents [] = []
contents (chunk ∷ chunks) = chunk ++ contents chunks

-- The reads of `http.ReadRequest` through the TeeReader, whose copy is `buf`.
unfoldable pub read_request :
    (Bytes → Parsed) → Bytes → List Bytes → Result PeekError (Bytes × (Bytes × List Bytes))
read_request parse buf [] = elim (parse buf) [
  | request_for host ↦ ok (host, (buf, []))
  | malformed ↦ err bad_request
  | more ↦ err unexpected_eof
]
read_request parse buf (chunk ∷ chunks) = elim (parse buf) [
  | request_for host ↦ ok (host, (buf, chunk ∷ chunks))
  | malformed ↦ err bad_request
  | more ↦ read_request parse (buf ++ chunk) chunks
]

-- `io.MultiReader(&buf, r)`
unfoldable pub multi_reader : Bytes × List Bytes → List Bytes
multi_reader (buf, rest) = buf ∷ rest

unfoldable pub peek_host_header :
    (Bytes → Parsed) → List Bytes → Result PeekError (Bytes × List Bytes)
peek_host_header parse r = elim (read_request parse [] r) [
  | err e ↦ err e
  | ok (host, read) ↦ ok (host, multi_reader read)
]

-- The reads of `io.Copy` through `replayConn`, and the writes to the client.
unfoldable pub transfer : List Bytes → Bytes → Bytes
transfer [] out = out
transfer (chunk ∷ chunks) out = transfer chunks (out ++ chunk)

pub transfer_lem :
    (chunks : List Bytes) (out : Bytes) → transfer chunks out ≡ out ++ contents chunks
unfolding transfer contents
transfer_lem [] out = sym (append-nil out)
transfer_lem (chunk ∷ chunks) out =
    transfer_lem chunks (out ++ chunk) ∙ append_assoc out chunk (contents chunks)

-- What was consumed and what is left make up what there was.
abbrev IsSplit : (Bytes → Parsed) → Bytes → Result PeekError (Bytes × (Bytes × List Bytes)) → Type 0
IsSplit parse whole (err e) = Unit
IsSplit parse whole (ok (host, (buf, rest))) =
    (parse buf ≡ request_for host) × (buf ++ contents rest ≡ whole)

Parsed-cases :
    (p : Parsed) → (p ≡ more) ⊎ ((p ≡ malformed) ⊎ ((host : Bytes) × (p ≡ request_for host)))
Parsed-cases more = inl refl
Parsed-cases malformed = inr (inl refl)
Parsed-cases (request_for host) = inr (inr (host, refl))

read_request-IsSplit :
    (parse : Bytes → Parsed) (buf : Bytes) (chunks : List Bytes)
    → IsSplit parse (buf ++ contents chunks) (read_request parse buf chunks)
unfolding read_request contents
read_request-IsSplit parse buf [] = elim (Parsed-cases (parse buf)) [
  | inl e ↦ rw (e, read_request) tt
  | inr (inl e) ↦ rw (e, read_request) tt
  | inr (inr (host, e)) ↦ rw (e, read_request) (e, refl)
]
read_request-IsSplit parse buf (chunk ∷ chunks) = elim (Parsed-cases (parse buf)) [
  | inl e ↦
      rw (e, read_request)
        (subst (λ w. IsSplit parse w (read_request parse (buf ++ chunk) chunks))
          (append_assoc buf chunk (contents chunks))
          (read_request-IsSplit parse (buf ++ chunk) chunks))
  | inr (inl e) ↦ rw (e, read_request) tt
  | inr (inr (host, e)) ↦ rw (e, read_request) (e, refl)
]

-- What a connection delivers to the client after its host was read is exactly what it delivered
-- from the beginning, however the bytes were cut into reads, and the host is the one that its
-- first bytes name.
pub transfer-peek_host_header :
    (parse : Bytes → Parsed) (r replayed : List Bytes) (host : Bytes)
    → peek_host_header parse r ≡ ok (host, replayed)
    → (transfer replayed [] ≡ contents r)
      × (buf : Bytes) × (rest : Bytes) × (parse buf ≡ request_for host)
      × (buf ++ rest ≡ contents r)
unfolding peek_host_header multi_reader
transfer-peek_host_header parse r replayed host e = elim (Result-cases (read_request parse [] r)) [
  | inl (x, failed) ↦ absurd (ground arith)
  | inr ((h, (buf, rest)), read) ↦
      let (found, whole) =
        subst (IsSplit parse (contents r)) read (read_request-IsSplit parse [] r) in
      let same : buf ∷ rest ≡ replayed = ground arith in
      let name : h ≡ host = ground arith in
      (
        ap (λ s. transfer s []) (sym same)
            ∙ (transfer_lem (buf ∷ rest) [] ∙ (unfold contents in whole)),
        buf,
        contents rest,
        found ∙ ap request_for name,
        whole,
      )
]
