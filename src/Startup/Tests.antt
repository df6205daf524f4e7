-- ===== src/Startup/Tests.antt =====
-- The guarantees of an accepted configuration, at a concrete one.
use osv_proxy.Common.{
  ℕ, ◌≡◌, ◌≤◌, ◌↔◌, refl, true, false, none, some, [], codes, arith, split_parts, rsplit_once,
  text_eq, digits_value,
}
use osv_proxy.Config.Net.{Net, Url, UrlParse}
use osv_proxy.Config.Validate.{
  ok, validate_limits, validate_metadata_cache, validate_osv, is_valid_dns_hostname,
}
use osv_proxy.Config.Addresses.{validate, validate_bind, validate_http_url, is_u16}
use osv_proxy.Policy.{evaluate_with_malicious_result}
use osv_proxy.Policy.Gates.{Admits}
use osv_proxy.Policy.Decisions.{Decision, Scope}
use osv_proxy.Policy.Tests.{std, config, left_pad, clean, scope}
use osv_proxy.MetadataCache.StoreLaws.{Cells, Holds}
use osv_proxy.MetadataCache.System.{Looked}
use osv_proxy.MetadataCache.Tests.{key_a, led_cache, one_leader, one_leader-Reachable}
use osv_proxy.Startup.{accepted-decides, accepted-Looked}

abbrev registry : Url
registry = record {
  scheme = codes "https";
  host_str = some (codes "registry.npmjs.org");
  username = [];
  password = none;
  path = codes "/";
  query = none;
  fragment = none;
  port = none;
}

-- Every URL is the registry's, and no text is a socket address.
abbrev net : Net
net = record {
  parse_url = λ value. UrlParse.url registry;
  is_socket_addr = λ value. false;
  is_unspecified_ip = λ host. false;
  show_debug = λ value. value;
}

accepted : validate net std config ≡ ok
unfolding validate validate_bind rsplit_once is_valid_dns_hostname split_parts is_u16 digits_value
    validate_http_url text_eq validate_limits validate_metadata_cache validate_osv
accepted = refl

accepted-decides_example :
    (d : Decision ℕ) × (scope' : Scope) × (evaluate_with_malicious_result std config left_pad 250
        clean scope
      ≡ some (d, scope'))
    × ((d.allowed ≡ true) ↔ Admits std config left_pad 250 clean)
accepted-decides_example =
    accepted-decides net std config accepted left_pad 250 clean scope (omega arith)

accepted-Looked_example :
    (l : Cells) × Holds led_cache.state l
    × (led_cache.state.total_weight ≤ 4294967296)
    × Looked key_a 6 l one_leader.leaders led_cache
accepted-Looked_example =
    accepted-Looked net std config accepted 10 10 one_leader key_a 6 one_leader-Reachable
