-- ===== src/Proto/Message.antt =====
-- Control messages survive the headers.
use go_tcp_tunnel.Base.{arith, ◌⊎◌, List, [], ◌≡◌, refl, ◌++◌, Bytes, if◌then◌else◌, beq}
use go_tcp_tunnel.Base.Dict.{Dict, insert, lookup-insert}
use go_tcp_tunnel.Proto.{
  ControlMessage, get, read_control_message, read_result, missing_if, write_to_header,
  header_action, header_forwarded_host, header_forwarded_proto,
}

get-insert :
    (j k v : Bytes) (h : Dict Bytes) → get j (insert k v h) ≡ (if beq k j then v else get j h)
unfolding get
get-insert j k v h = ground (arith, lookup-insert k j v h)

get_action :
    (msg : ControlMessage) (h : Dict Bytes) → get header_action (write_to_header msg h) ≡ msg.action
unfolding write_to_header
get_action msg h = simp get-insert (unfold beq in refl)

get_forwarded_host :
    (msg : ControlMessage) (h : Dict Bytes)
    → get header_forwarded_host (write_to_header msg h) ≡ msg.forwarded_host
unfolding write_to_header
get_forwarded_host msg h = simp get-insert (unfold beq in refl)

get_forwarded_proto :
    (msg : ControlMessage) (h : Dict Bytes)
    → get header_forwarded_proto (write_to_header msg h) ≡ msg.forwarded_proto
unfolding write_to_header
get_forwarded_proto msg h = simp get-insert (unfold beq in refl)

pub read_written :
    (msg : ControlMessage) (h : Dict Bytes) (remote : Bytes)
    → read_control_message (write_to_header msg h) remote
      ≡ read_result
          (record msg { remote_addr = remote })
          (missing_if msg.action header_action
            ++ (missing_if msg.forwarded_host header_forwarded_host
                ++ missing_if msg.forwarded_proto header_forwarded_proto))
unfolding read_control_message
read_written msg h remote =
    rw (get_action msg h, get_forwarded_host msg h, get_forwarded_proto msg h)

-- The header is that of an empty field.
abbrev pub IsEmptyField : ControlMessage → Bytes → Type 0
IsEmptyField msg k =
    ((k ≡ header_action) × (msg.action ≡ []))
    ⊎ (((k ≡ header_forwarded_host) × (msg.forwarded_host ≡ []))
        ⊎ ((k ≡ header_forwarded_proto) × (msg.forwarded_proto ≡ [])))

missing_of : ControlMessage → List Bytes
missing_of msg =
    missing_if msg.action header_action
    ++ (missing_if msg.forwarded_host header_forwarded_host
        ++ missing_if msg.forwarded_proto header_forwarded_proto)
