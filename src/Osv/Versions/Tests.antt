-- ===== src/Osv/Versions/Tests.antt =====
-- Runs of the orders of versions of src/malicious.rs.
use osv_proxy.Common.{◌≡◌, refl, reverse, Ordering, codes}
use osv_proxy.Osv.Versions.{compare_normalized}

numeric_part_first : compare_normalized (codes "1.0.0-rc.2") (codes "1.0.0-rc.beta") ≡ Ordering.lt
unfolding compare_normalized osv_proxy.Common.digits_value osv_proxy.Common.text_cmp
numeric_part_first = refl

prerelease_first : compare_normalized (codes "1.0.0-RC") (codes "1.0.0") ≡ Ordering.lt
unfolding compare_normalized osv_proxy.Common.digits_value
prerelease_first = refl
