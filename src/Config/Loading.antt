-- ===== src/Config/Loading.antt =====
-- loadClientConfigFromFile and resolveConfigPath of cmd/client/config.go. The YAML decoder is a
-- parameter; it starts with the defaults of the backoff.
use go_tcp_tunnel.Base.{
  ℕ, Bool, ◌||◌, none, some, Option, Bytes, if◌then◌else◌, is_empty, Result, ok, err, ◌>>=◌,
  map_err,
}
use go_tcp_tunnel.Base.Dict.{Dict}
use go_tcp_tunnel.CaCommand.{Files, read_file}
use go_tcp_tunnel.CaCommand
use go_tcp_tunnel.Config.{Tunnel, ConfigError, load_client_config}

pub data LoadError : Type 0 where
  not_read : CaCommand.CommandError → LoadError
  not_parsed : LoadError
  config_error : ConfigError → LoadError

-- Durations in nanoseconds, and the multiplier as a fraction.
pub record BackoffConfig : Type 0 where
  pub interval : ℕ
  pub multiplier : ℕ × ℕ
  pub max_interval : ℕ
  pub max_time : ℕ

abbrev default_backoff : BackoffConfig
default_backoff = record {
  interval = 500_000_000;
  multiplier = (3, 2);
  max_interval = 60_000_000_000;
  max_time = 900_000_000_000;
}

-- The fields of `backoff.ExponentialBackOff` that the client sets, and the interval that it starts
-- with.
pub record ExponentialBackOff : Type 0 where
  pub initial_interval : ℕ
  pub multiplier : ℕ × ℕ
  pub max_interval : ℕ
  pub max_elapsed_time : ℕ
  pub current_interval : ℕ

-- `made` is what `NewExponentialBackOff` gives, which has been reset with the library's own initial
-- interval; nothing resets it again here.
unfoldable pub exp_backoff : ExponentialBackOff → BackoffConfig → ExponentialBackOff
exp_backoff made c = record made {
  initial_interval = c.interval;
  multiplier = c.multiplier;
  max_interval = c.max_interval;
  max_elapsed_time = c.max_time;
}

-- `ClientConfig` of the command: `T` is a tunnel, or a pointer that may be nil before the loop over
-- the tunnels.
pub record Configuration {ℓ} (T : Type ℓ) : Type ℓ where
  pub server_addr : Bytes
  pub tls_crt : Bytes
  pub tls_key : Bytes
  pub ca_crt : Bytes
  pub backoff : BackoffConfig
  pub tunnels : Dict T

abbrev pub Loaded : Type 0
Loaded = Configuration Tunnel

-- `yaml.Unmarshal`
abbrev pub Yaml : Type 0
Yaml = BackoffConfig → Bytes → Option (Configuration (Option Tunnel))

-- `path/filepath`
pub record Paths : Type 0 where
  pub is_abs : Bytes → Bool
  pub dir : Bytes → Bytes
  pub join : Bytes → Bytes → Bytes

unfoldable pub resolve_config_path : Paths → Bytes → Bytes → Bytes
resolve_config_path paths config_file p =
    if is_empty p || paths.is_abs p then p else paths.join (paths.dir config_file) p

parsed {ℓ} : {A : Type ℓ} → Option A → Result LoadError A
parsed none = err not_parsed
parsed (some c) = ok c

unfoldable pub load_client_config_from_file : Paths → Yaml → Files → Bytes → Result LoadError Loaded
unfolding parsed
load_client_config_from_file paths yaml fs file = do
  buf ← map_err not_read (read_file file fs)
  c ← parsed (yaml default_backoff buf)
  checked ← map_err config_error (load_client_config c.server_addr c.tunnels)
  ok (record {
    server_addr = checked.0;
    tls_crt = resolve_config_path paths file c.tls_crt;
    tls_key = resolve_config_path paths file c.tls_key;
    ca_crt = resolve_config_path paths file c.ca_crt;
    backoff = c.backoff;
    tunnels = checked.1;
  })
