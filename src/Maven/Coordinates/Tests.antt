-- ===== src/Maven/Coordinates/Tests.antt =====
-- Runs on the paths of src/maven.rs, and their theorems at concrete inputs.
use osv_proxy.Common.{◌≡◌, refl, ok, err, codes, Text}
use osv_proxy.Maven.Errors.{invalid_artifact_path, snapshots_unsupported}
use osv_proxy.Maven.Coordinates.{MavenReleaseRoute, parse_release_path, parse_package_name, pom_url}
use osv_proxy.Maven.Coordinates.Paths.{PartsOf, parse_release_path-PartsOf}

abbrev path : Text
path = codes "org/slf4j/slf4j-api/2.0.9/slf4j-api-2.0.9-sources.jar"

abbrev route : MavenReleaseRoute
route = record {
  relative_path = path;
  group_id = codes "org.slf4j";
  artifact_id = codes "slf4j-api";
  version = codes "2.0.9";
  filename = codes "slf4j-api-2.0.9-sources.jar";
}

reads : parse_release_path path ≡ ok route
unfolding parse_release_path
reads = refl

refuses_traversal :
    parse_release_path (codes "org/../a/1/a-1.jar")
    ≡ err (invalid_artifact_path (codes "org/../a/1/a-1.jar"))
unfolding parse_release_path
refuses_traversal = refl

refuses_snapshots :
    parse_release_path (codes "org/a/1-snapshot/a-1-snapshot.jar")
    ≡ err (snapshots_unsupported (codes "1-snapshot"))
unfolding parse_release_path
refuses_snapshots = refl

reads_name :
    parse_package_name (codes "org.slf4j:slf4j-api") ≡ ok (codes "org.slf4j", codes "slf4j-api")
unfolding parse_package_name
reads_name = refl

poms :
    pom_url (codes "https://repo/maven2/") (codes "org.slf4j") (codes "slf4j-api") (codes "2.0.9")
    ≡ codes "https://repo/maven2/org/slf4j/slf4j-api/2.0.9/slf4j-api-2.0.9.pom"
unfolding pom_url
poms = refl

parse_release_path-PartsOf_example : PartsOf path route
parse_release_path-PartsOf_example = parse_release_path-PartsOf path route reads
