-- ===== src/Artifact/Equality.antt =====
-- The derived equality of ecosystems, and membership of a text in a list of texts.
use osv_proxy.Common.{◌≡◌, ◌↔◌, true, List, [], ◌∷◌, arith, any, In, Text, text_eq, text_eq_iff}
use osv_proxy.Artifact.{Ecosystem, ecosystem_eq}

pub ecosystem_eq→≡ : (a b : Ecosystem) → ecosystem_eq a b ≡ true → a ≡ b
unfolding ecosystem_eq
ecosystem_eq→≡ a b h = ground arith

pub ecosystem_eq_refl : (a : Ecosystem) → ecosystem_eq a a ≡ true
unfolding ecosystem_eq
ecosystem_eq_refl a = ground arith

pub any-text_eq_iff : (xs : List Text) (t : Text) → (any (λ x. text_eq x t) xs ≡ true) ↔ In t xs
any-text_eq_iff [] t = ground arith
any-text_eq_iff (x ∷ xs) t = ground (arith, text_eq_iff x t, any-text_eq_iff xs t)
