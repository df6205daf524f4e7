-- ===== src/Config/Hosts.antt =====
-- Which hosts and ports the validation of src/config.rs takes in `server.bind`, character by
-- character.
use osv_proxy.Common.{
  ℕ, ◌≤◌, ◌<◌, ◌≡◌, ◌≢◌, ◌↔◌, ◌⊎◌, refl, arith, inl, inr, Bool, true, false, not, ◌||◌, ◌==◌, ltb,
  none, some, List, [], ◌∷◌, ◌++◌, any, all, is_empty, Text, In, Option-cases, contains, byte_len,
  is_ascii_digit, is_ascii_alphanumeric, rsplit_once, split, digits_value,
}
use osv_proxy.Config.Validate.{
  is_valid_label, is_valid_dns_hostname, without_last, first_is, last_is,
}
use osv_proxy.Config.Addresses.{without_plus, is_u16}

pub all-In :
    {A : Type 0} (p : A → Bool) (xs : List A) → (all p xs ≡ true) ↔ ((x : A) → In x xs → p x ≡ true)
all-In p [] = ((λ h x i. elim i [ ]), (λ h. refl))
all-In p (y ∷ xs) = (
  (λ h x i. elim i [ inl e ↦ ground (arith, e) | inr j ↦ (all-In p xs).0 (ground arith) x j ]),
  (λ h. ground (arith, h y (inl refl), (all-In p xs).1 (λ x i. h x (inr i)))),
)

pub any-In :
    {A : Type 0} (p : A → Bool) (xs : List A)
    → (any p xs ≡ false) ↔ ((x : A) → In x xs → p x ≡ false)
any-In p [] = ((λ h x i. elim i [ ]), (λ h. refl))
any-In p (y ∷ xs) = (
  (λ h x i. elim i [ inl e ↦ ground (arith, e) | inr j ↦ (any-In p xs).0 (ground arith) x j ]),
  (λ h. ground (arith, h y (inl refl), (any-In p xs).1 (λ x i. h x (inr i)))),
)

-- The last place where a character stands.
rsplit_once-absent : (c : ℕ) (s : Text) → (rsplit_once c s ≡ none) ↔ (contains s c ≡ false)
unfolding rsplit_once
rsplit_once-absent c [] = ((λ h. refl), (λ h. refl))
rsplit_once-absent c (x ∷ s) = elim (Option-cases (rsplit_once c s)) [
  | inl e ↦ ground (arith, rsplit_once-absent c s)
  | inr (p, e) ↦ ground (arith, rsplit_once-absent c s)
]

rsplit_once-append :
    (c : ℕ) (s t : Text) → contains t c ≡ false → rsplit_once c (s ++ c ∷ t) ≡ some (s, t)
unfolding rsplit_once
rsplit_once-append c [] t h = ground (arith, (rsplit_once-absent c t).1 h)
rsplit_once-append c (x ∷ s) t h = ground (arith, rsplit_once-append c s t h)

rsplit_once-parts :
    (c : ℕ) (s h p : Text)
    → rsplit_once c s ≡ some (h, p)
    → (s ≡ h ++ c ∷ p) × (contains p c ≡ false)
unfolding rsplit_once
rsplit_once-parts c [] h p e = ground arith
rsplit_once-parts c (x ∷ s) h p e = elim (Option-cases (rsplit_once c s)) [
  | inl k ↦ ground (arith, (rsplit_once-absent c s).0 k)
  | inr ((h', p'), k) ↦ ground (arith, rsplit_once-parts c s h' p' k)
]

-- A label of a host name.
pub record IsLabel (l : Text) : Type 0 where
  pub nonempty : l ≢ []
  pub short : byte_len l ≤ 63
  pub first : first_is b'-' l ≡ false
  pub last : last_is b'-' l ≡ false
  pub each : (c : ℕ) → In c l → (is_ascii_alphanumeric c ≡ true) ⊎ (c ≡ b'-')

pub record IsHostname (host : Text) : Type 0 where
  pub nonempty : host ≢ []
  pub short : byte_len host ≤ 253
  pub ascii : (c : ℕ) → In c host → c < 128
  pub plain : (c : ℕ) → In c host → (c ≢ b':') × (c ≢ b'/') × (c ≢ b'[') × (c ≢ b']')
  pub rooted : without_last b'.' host ≢ []
  pub labels : (l : Text) → In l (split b'.' (without_last b'.' host)) → IsLabel l

-- A number below 2 ^ 16 in digits, after a plus sign or not.
pub record IsPort (port : Text) : Type 0 where
  pub nonempty : without_plus port ≢ []
  pub digits : (c : ℕ) → In c (without_plus port) → is_ascii_digit c ≡ true
  pub bound : digits_value 0 (without_plus port) < 65536

is_empty_iff : (s : Text) → (is_empty s ≡ false) ↔ (s ≢ [])
is_empty_iff [] = ((λ h. ground arith), (λ h. absurd (h refl)))
is_empty_iff (c ∷ s) = ((λ h e. ground arith), (λ h. refl))

label_char :
    (c : ℕ)
    → ((is_ascii_alphanumeric c || c == b'-') ≡ true)
      ↔ ((is_ascii_alphanumeric c ≡ true) ⊎ (c ≡ b'-'))
label_char c = ground arith

is_valid_label_iff : (l : Text) → (is_valid_label l ≡ true) ↔ IsLabel l
unfolding is_valid_label
is_valid_label_iff l = (
  (λ h. record {
    nonempty = (is_empty_iff l).0 (ground arith);
    short = ground arith;
    first = ground arith;
    last = ground arith;
    each = λ c i.
        (label_char c).0
          ((all-In (λ c. is_ascii_alphanumeric c || c == b'-') l).0 (ground arith) c i);
  }),
  (λ h.
      let named = (is_empty_iff l).1 h.nonempty in
      let each =
        (all-In (λ c. is_ascii_alphanumeric c || c == b'-') l).1
          (λ c i. (label_char c).1 (h.each c i)) in
      ground (arith, named, h.short, h.first, h.last, each)),
)

is_u16_iff : (port : Text) → (is_u16 port ≡ true) ↔ IsPort port
unfolding is_u16
is_u16_iff port = (
  (λ h. record {
    nonempty = (is_empty_iff (without_plus port)).0 (ground arith);
    digits = (all-In is_ascii_digit (without_plus port)).0 (ground arith);
    bound = ground arith;
  }),
  (λ h.
      let named = (is_empty_iff (without_plus port)).1 h.nonempty in
      let digits = (all-In is_ascii_digit (without_plus port)).1 h.digits in
      ground (arith, named, digits, h.bound)),
)

abbrev is_special : ℕ → Bool
is_special c = c == b':' || c == b'/' || c == b'[' || c == b']'

is_special_iff :
    (c : ℕ) → (is_special c ≡ false) ↔ ((c ≢ b':') × (c ≢ b'/') × (c ≢ b'[') × (c ≢ b']'))
is_special_iff c =
    ((λ h. (ground arith, ground arith, ground arith, ground arith)), (λ h. ground arith))

labels_iff :
    (bare : Text)
    → (all is_valid_label (split b'.' bare) ≡ true)
      ↔ ((l : Text) → In l (split b'.' bare) → IsLabel l)
labels_iff bare = (
  (λ h l i. (is_valid_label_iff l).0 ((all-In is_valid_label (split b'.' bare)).0 h l i)),
  (λ h. (all-In is_valid_label (split b'.' bare)).1 (λ l i. (is_valid_label_iff l).1 (h l i))),
)

ascii_iff : (host : Text) → (all (λ c. ltb c 128) host ≡ true) ↔ ((c : ℕ) → In c host → c < 128)
ascii_iff host = (
  (λ h c i. let each = (all-In (λ c. ltb c 128) host).0 h c i in ground (arith, each)),
  (λ h. (all-In (λ c. ltb c 128) host).1 (λ c i. ground (arith, h c i))),
)

plain_iff :
    (host : Text)
    → (any is_special host ≡ false)
      ↔ ((c : ℕ) → In c host → (c ≢ b':') × (c ≢ b'/') × (c ≢ b'[') × (c ≢ b']'))
plain_iff host = (
  (λ h c i. (is_special_iff c).0 ((any-In is_special host).0 h c i)),
  (λ h. (any-In is_special host).1 (λ c i. (is_special_iff c).1 (h c i))),
)

is_valid_dns_hostname_iff : (host : Text) → (is_valid_dns_hostname host ≡ true) ↔ IsHostname host
unfolding is_valid_dns_hostname
is_valid_dns_hostname_iff host = (
  (λ h. record {
    nonempty = (is_empty_iff host).0 (ground arith);
    short = ground arith;
    ascii = (ascii_iff host).0 (ground arith);
    plain = (plain_iff host).0 (ground arith);
    rooted = (is_empty_iff (without_last b'.' host)).0 (ground arith);
    labels = (labels_iff (without_last b'.' host)).0 (ground arith);
  }),
  (λ h.
      let named = (is_empty_iff host).1 h.nonempty in
      let ascii = (ascii_iff host).1 h.ascii in
      let plain = (plain_iff host).1 h.plain in
      let rooted = (is_empty_iff (without_last b'.' host)).1 h.rooted in
      let labels = (labels_iff (without_last b'.' host)).1 h.labels in
      ground (arith, named, ascii, plain, rooted, labels, h.short)),
)

-- A host name and a port, around the last colon.
pub record IsHostPort (value : Text) : Type 0 where
  pub host : Text
  pub port : Text
  pub split_at : value ≡ host ++ b':' ∷ port
  pub last_colon : contains port b':' ≡ false
  pub named : IsHostname host
  pub numbered : IsPort port

pub refuse_host-IsPort_iff :
    (host port : Text)
    → ((not (is_valid_dns_hostname host) || not (is_u16 port)) ≡ false)
      ↔ (IsHostname host × IsPort port)
refuse_host-IsPort_iff host port = (
  (λ h. ((is_valid_dns_hostname_iff host).0 (ground arith), (is_u16_iff port).0 (ground arith))),
  (λ (h, p). ground (arith, (is_valid_dns_hostname_iff host).1 h, (is_u16_iff port).1 p)),
)

pub rsplit_once-some :
    (value host port : Text)
    → (rsplit_once b':' value ≡ some (host, port))
      ↔ ((value ≡ host ++ b':' ∷ port) × (contains port b':' ≡ false))
rsplit_once-some value host port =
    (rsplit_once-parts b':' value host port, (λ (e, h). rw e (rsplit_once-append b':' host port h)))
