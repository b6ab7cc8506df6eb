-- ===== src/ClientIds.antt =====
-- cmd/server/options.go: the clients that `-client-ids` subscribes.
pub mod Listed
use go_tcp_tunnel.Base.{List, [], ◌∷◌, Bytes, if◌then◌else◌, is_empty, split, Result, ok, err}
use go_tcp_tunnel.Id.{IdError, empty_id, unmarshal_text}
use go_tcp_tunnel.Registry.{Registry, subscribe}

pub data OptionError : Type 0 where
  empty_client_id : OptionError
  invalid_identifier : Bytes → IdError → OptionError

unfoldable pub subscribe_ids : List Bytes → Registry → Result OptionError Registry
subscribe_ids [] r = ok r
subscribe_ids (c ∷ cs) r =
    if is_empty c then err empty_client_id else elim (unmarshal_text empty_id c) [
      | err e ↦ err (invalid_identifier c e)
      | ok identifier ↦ subscribe_ids cs (subscribe identifier r)
    ]

-- `Execute` from `NewServer` to `Start`. Without the flag the server subscribes clients itself.
unfoldable pub subscribe_listed : Bytes → Registry → Result OptionError Registry
subscribe_listed client_ids r =
    if is_empty client_ids then ok r else subscribe_ids (split b',' client_ids) r
