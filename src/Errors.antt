-- ===== src/Errors.antt =====
-- src/error.rs: what may be wrong with a route's configuration.
use symphony.Prelude.{Bytes}

-- What is wrong with a configuration, in place of the text that says so.
pub data ConfigError : Type 0 where
  no_carrier undeclared_protocol bad_source_network no_cert no_key : ConfigError
  x_forwarded_for_with_h2 h2_passthrough all_h2 no_upstreams : ConfigError

-- What the library, the system and the standard library say is left out.
pub data SymphonyError : Type 0 where
  tls io addr_parse : SymphonyError
  no_route : Bytes → SymphonyError
  config : ConfigError → SymphonyError
