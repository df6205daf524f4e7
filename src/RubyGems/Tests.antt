-- ===== src/RubyGems/Tests.antt =====
-- Runs of src/rubygems.rs.
use osv_proxy.Common.{◌≡◌, refl, Ordering, codes, split_once, split_parts, trim_start, text_cmp}
use osv_proxy.RubyGems.{compare_versions, parse, ok}
use osv_proxy.RubyGems.Laws.{compare_versions-reverse}

prerelease_first : compare_versions (codes "1.0.0-rc1") (codes " 1.0") ≡ ok Ordering.lt
unfolding compare_versions parse split_once split_parts trim_start text_cmp
prerelease_first = refl

by_number : compare_versions (codes "1.10") (codes "1.9.3") ≡ ok Ordering.gt
unfolding compare_versions parse split_once split_parts trim_start text_cmp
by_number = refl

compare_versions-reverse_example :
    compare_versions (codes " 1.0") (codes "1.0.0-rc1") ≡ ok Ordering.gt
compare_versions-reverse_example =
    compare_versions-reverse (codes "1.0.0-rc1") (codes " 1.0") Ordering.lt prerelease_first
