-- ===== src/Maven/Version/Tests.antt =====
-- Runs of the order of versions of src/maven.rs, and its theorems at concrete inputs.
use osv_proxy.Common.{◌≡◌, refl, Ordering, ok, codes}
use osv_proxy.Maven.Version.{compare_versions}
use osv_proxy.Maven.Version.Order.{compare_versions_swap}

alpha_first : compare_versions (codes "1.0-alpha-1") (codes "1.0") ≡ ok Ordering.lt
unfolding compare_versions osv_proxy.Common.text_cmp
alpha_first = refl

final_is_empty : compare_versions (codes "1.0.0-ga") (codes "1") ≡ ok Ordering.eq
unfolding compare_versions osv_proxy.Common.text_cmp
final_is_empty = refl

transition : compare_versions (codes "1.0a1") (codes "1.0-ALPHA-1") ≡ ok Ordering.eq
unfolding compare_versions osv_proxy.Common.text_cmp
transition = refl

numbers : compare_versions (codes "1.10") (codes "1.9") ≡ ok Ordering.gt
unfolding compare_versions osv_proxy.Common.text_cmp
numbers = refl

-- The order is not transitive: these three make a cycle.
cycle₁ : compare_versions (codes "1-alpha") (codes "1") ≡ ok Ordering.lt
unfolding compare_versions osv_proxy.Common.text_cmp
cycle₁ = refl

cycle₂ : compare_versions (codes "1") (codes "1.foo") ≡ ok Ordering.lt
unfolding compare_versions osv_proxy.Common.text_cmp
cycle₂ = refl

cycle₃ : compare_versions (codes "1.foo") (codes "1-alpha") ≡ ok Ordering.lt
unfolding compare_versions osv_proxy.Common.text_cmp
cycle₃ = refl

compare_versions_swap_example :
    (compare_versions (codes "1.0") (codes "1.0-alpha-1") ≡ ok Ordering.gt)
    × (compare_versions (codes "1.0-alpha-1") (codes "1.0-alpha-1") ≡ ok Ordering.eq)
compare_versions_swap_example =
    compare_versions_swap (codes "1.0-alpha-1") (codes "1.0") Ordering.lt alpha_first
