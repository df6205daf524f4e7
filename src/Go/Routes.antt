-- ===== src/Go/Routes.antt =====
-- Of src/go.rs: `parse_route`.
use osv_proxy.Common.{
  Option, none, some, ok, err, Text, codes, text_eq, if◌then◌else◌, ◌||◌, strip_prefix,
  split_once_text, rsplit_once, trim_start,
}
use osv_proxy.Common.Equality.{◌>>=◌}
use osv_proxy.Go.Escape.{Outcome, unescape_module_path, validate_version}

pub data GoRoute : Type 0 where
  list_route latest_route : GoRoute
  info_route : Text → GoRoute
  content_route : Text → Text → GoRoute

-- `Result::ok`.
abbrev to_option : {A : Type 0} → Outcome A → Option A
to_option (ok a) = some a
to_option (err e) = none

abbrev file_route : Text → Text → Text → Option (Text × GoRoute)
file_route m version ext =
    if text_eq ext (codes "info")
    then some (m, info_route version)
    else if text_eq ext (codes "mod") || text_eq ext (codes "zip")
    then some (m, content_route version ext)
    else none

-- The match on the suffix.
unfoldable pub suffix_route : Text → Text → Option (Text × GoRoute)
unfolding strip_prefix rsplit_once validate_version text_eq
suffix_route m suffix =
    if text_eq suffix (codes "v/list")
    then some (m, list_route)
    else if text_eq suffix (codes "latest")
    then some (m, latest_route)
    else (do
      file ← strip_prefix suffix (codes "v/")
      parts ← rsplit_once b'.' file
      _ ← to_option (validate_version parts.0)
      file_route m parts.0 parts.1)

unfoldable pub parse_route : Text → Option (Text × GoRoute)
unfolding suffix_route split_once_text strip_prefix trim_start unescape_module_path
parse_route path = do
  raw ← strip_prefix path (codes "/go/")
  parts ← split_once_text (codes "/@") (trim_start b'/' raw)
  m ← to_option (unescape_module_path parts.0)
  suffix_route m parts.1
