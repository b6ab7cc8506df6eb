-- ===== src/HttpHost.antt =====
-- httphost.go: the public host names of http tunnels.
use go_tcp_tunnel.Base.{◌≡◌, ◌∷◌, ◌++◌, Bytes, trim_suffix, trim_suffix-append}

unfoldable pub http_full_host : Bytes → Bytes → Bytes
http_full_host base_domain slug = slug ++ b'.' ∷ base_domain

unfoldable pub http_slug_from_host : Bytes → Bytes → Bytes
http_slug_from_host base_domain full_host = trim_suffix (b'.' ∷ base_domain) full_host

-- The slug is recovered from every composed host, whatever bytes slug and base domain have.
pub http_slug_from_host-http_full_host :
    (base_domain slug : Bytes)
    → http_slug_from_host base_domain (http_full_host base_domain slug) ≡ slug
unfolding http_slug_from_host http_full_host
http_slug_from_host-http_full_host base_domain slug = trim_suffix-append slug (b'.' ∷ base_domain)
