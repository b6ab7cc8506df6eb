-- ===== src/Piping/Delivered.antt =====
-- What arrives of the bytes between a user and the local service: a beginning, unchanged.
use go_tcp_tunnel.Base.{
  subst, ℕ, zero, suc, ◌≤◌, ◌≡◌, ◌⊎◌, inl, inr, refl, sym, ap, ◌∙◌, arith, Bool, true, false, some,
  List, [], ◌∷◌, ◌++◌, Bytes, append_assoc, ok, length, take, take-all, leb, Bool-cases,
}
use go_tcp_tunnel.Proto.{ControlMessage}
use go_tcp_tunnel.StreamProxy.{StreamProxy}
use go_tcp_tunnel.Replay.{
  Parsed, contents, transfer, transfer_lem, peek_host_header, transfer-peek_host_header,
}
use go_tcp_tunnel.Piping.{
  Closed, user_conn, pipe_reader, pipe_writer, response_body, Exchange, done, proxy_conn, Written,
  bytes, flushed, flush_write, flush_transfer, Copied, Cuts, copied_by, proxy_stream,
}

-- The bytes that reach the other end.
abbrev pub received : List Written → Bytes
received [] = []
received (bytes p ∷ ws) = p ++ received ws
received (flushed ∷ ws) = received ws

received-flush_transfer :
    (can_flush : Bool) (chunks : List Bytes)
    → received (flush_transfer can_flush chunks) ≡ contents chunks
unfolding flush_transfer flush_write contents
received-flush_transfer can_flush [] = refl
received-flush_transfer true (chunk ∷ chunks) =
    ap (λ s. chunk ++ s) (received-flush_transfer true chunks)
received-flush_transfer false (chunk ∷ chunks) =
    ap (λ s. chunk ++ s) (received-flush_transfer false chunks)

prefix-take :
    (n : ℕ) (chunks : List Bytes)
    → (rest : Bytes) × (contents (take n chunks) ++ rest ≡ contents chunks)
unfolding take contents
prefix-take zero chunks = (contents chunks, refl)
prefix-take (suc n) [] = ([], refl)
prefix-take (suc n) (chunk ∷ chunks) =
    let (rest, e) = prefix-take n chunks in
    (rest, append_assoc chunk (contents (take n chunks)) rest ∙ ap (λ s. chunk ++ s) e)

contents-peek :
    (parse : Bytes → Parsed) (r replayed : List Bytes) (host : Bytes)
    → peek_host_header parse r ≡ ok (host, replayed)
    → contents replayed ≡ contents r
contents-peek parse r replayed host e =
    sym (transfer_lem replayed []) ∙ (transfer-peek_host_header parse r replayed host e).0

copied_parts :
    (dials : Bytes → Bool) (p : StreamProxy) (msg : ControlMessage) (cuts : Cuts) (can_flush : Bool)
    (body answers : List Bytes) (c : Copied)
    → proxy_stream dials p msg cuts can_flush body answers ≡ some c
    → (c.to_local ≡ transfer (take cuts.taken body) [])
      × (c.to_server ≡ flush_transfer can_flush (take cuts.answered answers))
unfolding proxy_stream copied_by
copied_parts dials p msg cuts can_flush body answers c e = ground arith

-- Everything was copied, or the copying was cut.
whole_or_cut :
    (n : ℕ) (chunks : List Bytes)
    → (contents (take n chunks) ≡ contents chunks) ⊎ (suc n ≤ length chunks)
whole_or_cut n chunks = elim (Bool-cases (leb (length chunks) n)) [
  | inl e ↦ inl (ap contents (take-all n chunks (ground (arith, e))))
  | inr e ↦ inr (ground (arith, e))
]

-- A beginning of what was sent, and all of it unless the copying was cut.
abbrev Arrives : Bytes → List Bytes → ℕ → Type 0
Arrives arrived chunks n =
    ((rest : Bytes) × (arrived ++ rest ≡ contents chunks))
    × ((arrived ≡ contents chunks) ⊎ (suc n ≤ length chunks))

take-Arrives :
    (arrived : Bytes) (n : ℕ) (chunks : List Bytes)
    → arrived ≡ contents (take n chunks)
    → Arrives arrived chunks n
take-Arrives arrived n chunks e =
    let (rest, split) = prefix-take n chunks in
    (
      (rest, ap (λ s. s ++ rest) e ∙ split),
      elim (whole_or_cut n chunks) [ inl whole ↦ inl (e ∙ whole) | inr cut ↦ inr cut ],
    )

proxy_conn_parts :
    (e : Exchange) (response : List Bytes)
    → e.made ≡ true
    → e.response ≡ some response
    → ((proxy_conn e).to_client ≡ transfer (take e.copied e.user) [])
      × ((proxy_conn e).to_user ≡ transfer (take e.returned response) [])
      × ((proxy_conn e).closed ≡ (response_body ∷ pipe_writer ∷ pipe_reader ∷ []) ++ user_conn ∷ [])
unfolding proxy_conn done
proxy_conn_parts e response made responds = ground (arith, made, responds)

-- What is copied twice: the first time from these reads, then from those that carry what arrived.
abbrev pub ArrivesVia : Bytes → Bytes → List Bytes → ℕ → List Bytes → ℕ → Type 0
ArrivesVia arrived sent first n second m =
    ((rest : Bytes) × (arrived ++ rest ≡ sent))
    × ((arrived ≡ sent) ⊎ ((suc n ≤ length first) ⊎ (suc m ≤ length second)))

Arrives-via :
    (arrived between : Bytes) (first second : List Bytes) (n m : ℕ)
    → Arrives between first n
    → contents second ≡ between
    → Arrives arrived second m
    → ArrivesVia arrived (contents first) first n second m
Arrives-via arrived between first second n m ((rest, split), whole) carried
      ((rest', split'), whole') =
    (
      (
        rest' ++ rest,
        sym (append_assoc arrived rest' rest) ∙ (ap (λ s. s ++ rest) (split' ∙ carried) ∙ split),
      ),
      elim whole [
        | inr cut ↦ inr (inl cut)
        | inl all ↦ elim whole' [
          | inr cut ↦ inr (inr cut)
          | inl all' ↦ inl (all' ∙ (carried ∙ all))
        ]
      ],
    )

-- A user's connection whose host was found is proxied to a client, which forwards it to a local
-- service that answers. The service receives the bytes that the user sent, those read on the way to
-- the host included, and the user the bytes of the service, each in their order: all of them, or a
-- beginning of them if one of the two copyings on the way was cut, by a write that fails, at the end
-- of the response, or by the cancel() that aborts the response when the user's side has ended. The
-- user's connection is the last thing to be closed. HTTP/2 is assumed to carry the bodies of the
-- request and of the response, in whatever pieces.
pub proxy_conn-proxy_stream :
    (parse : Bytes → Parsed) (r : List Bytes) (host : Bytes) (e : Exchange)
    → (dials : Bytes → Bool) (p : StreamProxy) (msg : ControlMessage) (cuts : Cuts)
    → (can_flush : Bool) (body answers response : List Bytes) (c : Copied)
    → peek_host_header parse r ≡ ok (host, e.user)
    → e.made ≡ true
    → e.response ≡ some response
    → contents body ≡ (proxy_conn e).to_client
    → proxy_stream dials p msg cuts can_flush body answers ≡ some c
    → contents response ≡ received c.to_server
    → ArrivesVia c.to_local (contents r) e.user e.copied body cuts.taken
      × ArrivesVia
          (proxy_conn e).to_user
          (contents answers)
          answers
          cuts.answered
          response
          e.returned
      × ((before : List Closed) × ((proxy_conn e).closed ≡ before ++ user_conn ∷ []))
proxy_conn-proxy_stream parse r host e dials p msg cuts can_flush body answers response c peeked
      made responds carried forwards returned =
    let (to_local, to_server) = copied_parts dials p msg cuts can_flush body answers c forwards in
    let (to_client, to_user, closed) = proxy_conn_parts e response made responds in
    (
      subst (λ sent. ArrivesVia c.to_local sent e.user e.copied body cuts.taken)
          (contents-peek parse r e.user host peeked)
          (Arrives-via c.to_local (proxy_conn e).to_client e.user body e.copied cuts.taken
            (take-Arrives (proxy_conn e).to_client e.copied e.user
              (to_client ∙ transfer_lem (take e.copied e.user) []))
            carried
            (take-Arrives c.to_local cuts.taken body
              (to_local ∙ transfer_lem (take cuts.taken body) []))),
      Arrives-via (proxy_conn e).to_user (received c.to_server) answers response cuts.answered
          e.returned
          (take-Arrives (received c.to_server) cuts.answered answers (
            ap received to_server ∙ received-flush_transfer can_flush (take cuts.answered answers)))
          returned
          (take-Arrives (proxy_conn e).to_user e.returned response
            (to_user ∙ transfer_lem (take e.returned response) [])),
      (response_body ∷ pipe_writer ∷ pipe_reader ∷ [], closed),
    )
