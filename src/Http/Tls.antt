-- ===== src/Http/Tls.antt =====
-- network/http_net/server.go: how `serve` begins, with config/config.go, which asks for the two files.
use yaice.Base.{◌≡◌, ◌||◌, ◌⊎◌, true, false, some, arith}
use yaice.Base.Tests.{if◌then◌else◌}
use yaice.Config.{HttpConfig, NetworkConfig, Config, accepted, validate, is_empty}
use yaice.Config.Validation.{validate_iff}
use yaice.Utils.Tool.{Text}

-- What a goroutine of `serve` does with its listener: nothing, where a file is missing, or it serves with TLS
-- and the names of the two files, or without.
pub data Serving : Type 0 where
  gives_up plainly : Serving
  over_tls : Text → Text → Serving

-- The part of `serve` before the server is called.
unfoldable pub serving_of : HttpConfig → Serving
unfolding is_empty
serving_of h =
    if h.enable_tls
    then (if is_empty h.cert_file || is_empty h.key_file
        then gives_up
        else over_tls h.cert_file h.key_file)
    else plainly

-- Under an accepted configuration an enabled HTTP server serves with TLS exactly where it is asked to, under
-- the two names of the configuration, and never gives up for a missing file.
pub serving_of-accepted :
    (c : Config) (n : NetworkConfig) (h : HttpConfig)
    → (validate (record { config = some c })).1 ≡ accepted
    → c.network ≡ some n
    → n.http ≡ some h
    → h.enabled ≡ true
    → ((h.enable_tls ≡ true) × (serving_of h ≡ over_tls h.cert_file h.key_file))
      ⊎ ((h.enable_tls ≡ false) × (serving_of h ≡ plainly))
unfolding serving_of is_empty
serving_of-accepted c n h ok network http on = let fits = (validate_iff c).0 ok in ground arith
