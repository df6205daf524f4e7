-- ===== src/Artifact/Tests.antt =====
-- Runs of src/artifact.rs.
use osv_proxy.Common.{
  ℕ, ◌≡◌, ◌≢◌, refl, arith, [], ◌∷◌, codes, Text, ascii_lowercase, split_once, split_parts,
  parse_u64_digits, digits_value, show_u64, join, trim_start, trim_end,
}
use osv_proxy.Artifact.{
  PackageIdentity, nuget, normalize_name, normalize_version, parse_package_identity,
  package_identity, ok, normalize_nuget_version, normalize_pypi_name,
}
use osv_proxy.Artifact.Names.{lower_all, squeeze}
use osv_proxy.Artifact.RoundTrip.{parse_package_identity-package_identity}

abbrev lowercase : ℕ → Text
lowercase c = ascii_lowercase (c ∷ [])

abbrev newtonsoft : PackageIdentity
newtonsoft = record {
  ecosystem = nuget;
  name = codes "Newtonsoft.Json";
  version = codes "13.0.1.0-Beta+build";
}

normalized : normalize_version nuget newtonsoft.version ≡ ok (codes "13.0.1-beta")
unfolding normalize_version normalize_nuget_version parse_u64_digits split_parts split_once
    digits_value join show_u64
normalized = refl

flask : normalize_pypi_name lowercase (codes "-Flask__SQL.Alchemy-") ≡ codes "flask-sql-alchemy"
unfolding normalize_pypi_name trim_end trim_start squeeze lower_all
flask = refl

named : newtonsoft.name ≢ []
named e = ground arith

versioned : newtonsoft.version ≢ []
versioned e = ground arith

parse_package_identity-package_identity_example :
    parse_package_identity lowercase (package_identity newtonsoft)
    ≡ ok (record {
      ecosystem = nuget;
      name = normalize_name lowercase nuget newtonsoft.name;
      version = codes "13.0.1-beta";
    })
parse_package_identity-package_identity_example =
    parse_package_identity-package_identity lowercase newtonsoft (codes "13.0.1-beta") named
      versioned refl normalized
