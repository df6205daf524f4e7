-- ===== src/Config/Net.antt =====
-- What src/config.rs takes from outside its own sources to read an address: `reqwest::Url`, the
-- parsers of `std::net`, and the escaping of `{:?}` on a text.
use osv_proxy.Common.{ℕ, Bool, Option, Text}

-- The parts of a `reqwest::Url` that are read: `scheme`, `host_str`, `username`, `password`, `path`,
-- `query`, `fragment` and `port`.
pub record Url : Type 0 where
  pub scheme : Text
  pub host_str : Option Text
  pub username : Text
  pub password : Option Text
  pub path : Text
  pub query : Option Text
  pub fragment : Option Text
  pub port : Option ℕ

-- The outcome of `Url::parse`.
pub data UrlParse : Type 0 where
  url : Url → UrlParse
  failed : Text → UrlParse

pub record Net : Type 0 where
  pub parse_url : Text → UrlParse
  -- `parse::<SocketAddr>().is_ok()`.
  pub is_socket_addr : Text → Bool
  -- `parse::<IpAddr>().is_ok_and(|address| address.is_unspecified())`.
  pub is_unspecified_ip : Text → Bool
  pub show_debug : Text → Text
