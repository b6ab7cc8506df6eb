-- ===== src/Examples/Texts.antt =====
-- Runs on texts: identifiers, addresses, labels, headers and host names.
use go_tcp_tunnel.Base.{ok, err}
use go_tcp_tunnel.Base.{
  ◌≡◌, ◌↔◌, refl, true, false, [], ◌∷◌, codes, ok, err, has_byte, trim, cut_last, cut_first,
}
use go_tcp_tunnel.HostPort.{split_host_port, normalize_address, decimal, too_many_colons}
use go_tcp_tunnel.Id.{to_string, unmarshal_text, canonical}
use go_tcp_tunnel.Id.RoundTrip.{unmarshal_text-to_string}
use go_tcp_tunnel.Proto.{
  ControlMessage, valid_subdomain_label, is_alnum, is_label_byte, action_proxy, http,
}
use go_tcp_tunnel.Proto.Label.{IsLabel, valid_subdomain_label_iff}
use go_tcp_tunnel.Examples.Data.{laptop, laptop-IsId, desktop, desktop-IsId}
use go_tcp_tunnel.Base.{elem, ◌||◌}
use go_tcp_tunnel.Base.{split}
use go_tcp_tunnel.ClientIds.{subscribe_listed}
use go_tcp_tunnel.ClientIds.Listed.{joined, subscribe_listed-joined}
use go_tcp_tunnel.Registry.{Registry, new_registry, is_subscribed}

unmarshal_text-to_string_example : unmarshal_text desktop (to_string laptop) ≡ ok laptop
unmarshal_text-to_string_example = unmarshal_text-to_string laptop laptop-IsId desktop desktop-IsId

valid_subdomain_label_iff_example :
    (valid_subdomain_label (codes "my-app-2") ≡ true) ↔ IsLabel (codes "my-app-2")
valid_subdomain_label_iff_example = valid_subdomain_label_iff (codes "my-app-2")

labels :
    (valid_subdomain_label (codes "my-app-2") ≡ true)
    × (valid_subdomain_label (codes "-app") ≡ false)
    × (valid_subdomain_label (codes "a.b") ≡ false)
    × (valid_subdomain_label (codes "App") ≡ false)
unfolding valid_subdomain_label is_alnum is_label_byte
labels = (refl, refl, refl, refl)

abbrev message : ControlMessage
message = record {
  action = action_proxy;
  forwarded_host = codes "myapp";
  forwarded_proto = http;
  remote_addr = [];
}

-- The identifier in the usage text of cmd/server/options.go, in lower case and with no hyphen at
-- one place, reads as itself.
usage_id :
    canonical (codes "ymbkt3v-ESUTZ2Z-7MRILIJT35FHGO-D2DHO7D-FXMGSSR-V4LBSZX-BNDONQ4")
    ≡ canonical (codes "YMBKT3V-ESUTZ2Z-7MRILIJ-T35FHGO-D2DHO7D-FXMGSSR-V4LBSZX-BNDONQ4")
unfolding canonical trim
usage_id = refl

-- A port alone is put on the loopback address, and an IPv6 host loses its brackets.
addresses :
    (normalize_address (codes "8080") ≡ ok (codes "127.0.0.1:8080"))
    × (normalize_address (codes "[::1]:80") ≡ ok (codes "::1:80"))
    × (normalize_address (codes "::1:80") ≡ err too_many_colons)
unfolding normalize_address split_host_port cut_last cut_first has_byte decimal
addresses = (refl, refl, refl)

subscribe_listed-joined_example :
    (r' : Registry) × (subscribe_listed (joined laptop (desktop ∷ [])) new_registry ≡ ok r')
    × (is_subscribed desktop r'
        ≡ (elem desktop (laptop ∷ desktop ∷ []) || is_subscribed desktop new_registry))
subscribe_listed-joined_example =
    subscribe_listed-joined laptop (desktop ∷ []) new_registry desktop laptop-IsId
      (desktop-IsId, tt)

-- A comma at the end leaves an empty identifier.
split_lists : split b',' (codes "A,B,") ≡ codes "A" ∷ codes "B" ∷ [] ∷ []
unfolding split
split_lists = refl
