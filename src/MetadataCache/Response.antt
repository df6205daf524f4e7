-- ===== src/MetadataCache/Response.antt =====
-- `MetadataCacheKey`, `CachedResponse` and `MetadataFill` of src/metadata_cache.rs. Bytes are
-- numbers, and a header is its name and its value. The sizes that the compiler gives the two structs
-- are parameters of the weights.
use osv_proxy.Common.{
  ℕ, ◌+◌, ◌≡◌, ◌↔◌, Bool, true, false, ◌&&◌, ◌==◌, Option, none, some, List, [], ◌∷◌, arith, length,
  Text, text_eq, text_eq_iff, and_true, byte_len, map_option,
}
use osv_proxy.Common.Equality.{Eq}
use osv_proxy.Artifact.{Ecosystem, ecosystem_eq}
use osv_proxy.Artifact.Equality.{ecosystem_eq→≡, ecosystem_eq_refl}

abbrev pub Bytes : Type 0
Bytes = List ℕ

pub record MetadataCacheKey : Type 0 where
  pub ecosystem : Ecosystem
  pub revision : Option ℕ
  pub path : Text
  pub accept : Option Bytes
  pub if_none_match : Option Bytes
  pub if_modified_since : Option Bytes
  pub range : Option Bytes
  pub if_range : Option Bytes

unfoldable pub option_len : Option Bytes → ℕ
option_len none = 0
option_len (some value) = length value

-- `MetadataCacheKey::weight`.
unfoldable pub key_weight : ℕ → MetadataCacheKey → ℕ
unfolding option_len
key_weight key_size key =
    key_size
    + byte_len key.path
    + option_len key.accept
    + option_len key.if_none_match
    + option_len key.if_modified_since
    + option_len key.range
    + option_len key.if_range

abbrev option_eq : {A : Type 0} → (A → A → Bool) → Option A → Option A → Bool
option_eq p none none = true
option_eq p none (some b) = false
option_eq p (some a) none = false
option_eq p (some a) (some b) = p a b

option_eq_iff :
    {A : Type 0} (p : A → A → Bool) (h : (a b : A) → (p a b ≡ true) ↔ (a ≡ b)) (x y : Option A)
    → (option_eq p x y ≡ true) ↔ (x ≡ y)
option_eq_iff p h none none = ground arith
option_eq_iff p h none (some b) = ground arith
option_eq_iff p h (some a) none = ground arith
option_eq_iff p h (some a) (some b) = ground (arith, h a b)

number_eq_iff : (a b : ℕ) → ((a == b) ≡ true) ↔ (a ≡ b)
number_eq_iff a b = ground arith

-- The derived `PartialEq`.
unfoldable pub key_eq : MetadataCacheKey → MetadataCacheKey → Bool
key_eq a b =
    ecosystem_eq a.ecosystem b.ecosystem
    && option_eq ◌==◌ a.revision b.revision
    && text_eq a.path b.path
    && option_eq text_eq a.accept b.accept
    && option_eq text_eq a.if_none_match b.if_none_match
    && option_eq text_eq a.if_modified_since b.if_modified_since
    && option_eq text_eq a.range b.range
    && option_eq text_eq a.if_range b.if_range

key_eq→≡ : (a b : MetadataCacheKey) → key_eq a b ≡ true → a ≡ b
unfolding key_eq
key_eq→≡ a b h =
    let (t₇, h₈) = and_true _ _ h in
    let (t₆, h₇) = and_true _ _ t₇ in
    let (t₅, h₆) = and_true _ _ t₆ in
    let (t₄, h₅) = and_true _ _ t₅ in
    let (t₃, h₄) = and_true _ _ t₄ in
    let (t₂, h₃) = and_true _ _ t₃ in
    let (h₁, h₂) = and_true _ _ t₂ in
    let e₁ = ecosystem_eq→≡ a.ecosystem b.ecosystem h₁ in
    let e₂ = (option_eq_iff ◌==◌ number_eq_iff a.revision b.revision).0 h₂ in
    let e₃ = (text_eq_iff a.path b.path).0 h₃ in
    let e₄ = (option_eq_iff text_eq text_eq_iff a.accept b.accept).0 h₄ in
    let e₅ = (option_eq_iff text_eq text_eq_iff a.if_none_match b.if_none_match).0 h₅ in
    let e₆ = (option_eq_iff text_eq text_eq_iff a.if_modified_since b.if_modified_since).0 h₆ in
    let e₇ = (option_eq_iff text_eq text_eq_iff a.range b.range).0 h₇ in
    let e₈ = (option_eq_iff text_eq text_eq_iff a.if_range b.if_range).0 h₈ in
    λ i. record {
      ecosystem = e₁ i;
      revision = e₂ i;
      path = e₃ i;
      accept = e₄ i;
      if_none_match = e₅ i;
      if_modified_since = e₆ i;
      range = e₇ i;
      if_range = e₈ i;
    }

key_eq_refl : (a : MetadataCacheKey) → key_eq a a ≡ true
unfolding key_eq
key_eq_refl a = ground (
  arith,
  ecosystem_eq_refl a.ecosystem,
  option_eq_iff ◌==◌ number_eq_iff a.revision a.revision,
  text_eq_iff a.path a.path,
  option_eq_iff text_eq text_eq_iff a.accept a.accept,
  option_eq_iff text_eq text_eq_iff a.if_none_match a.if_none_match,
  option_eq_iff text_eq text_eq_iff a.if_modified_since a.if_modified_since,
  option_eq_iff text_eq text_eq_iff a.range a.range,
  option_eq_iff text_eq text_eq_iff a.if_range a.if_range,
)

pub key_eq_iff : (a b : MetadataCacheKey) → (key_eq a b ≡ true) ↔ (a ≡ b)
key_eq_iff a b = (key_eq→≡ a b, λ e. rw e (key_eq_refl b))

abbrev pub key_equality : Eq MetadataCacheKey
key_equality = record { beq = key_eq; beq_iff = key_eq_iff }

pub record CachedResponse : Type 0 where
  pub status : ℕ
  pub version : ℕ
  pub headers : List (Text × Bytes)
  pub body : Bytes
  pub overloaded : Bool

abbrev headers_weight : List (Text × Bytes) → ℕ
headers_weight [] = 0
headers_weight ((name, value) ∷ headers) = byte_len name + length value + headers_weight headers

-- `CachedResponse::weight`.
unfoldable pub response_weight : ℕ → CachedResponse → ℕ
response_weight response_size r = response_size + length r.body + headers_weight r.headers

-- An `http` response: `buffered` is the `BufferedResponseBody` among its extensions, if it is there.
pub record HttpResponse : Type 0 where
  pub status : ℕ
  pub version : ℕ
  pub headers : List (Text × Bytes)
  pub body : Bytes
  pub buffered : Option Bytes

pub record MetadataFill : Type 0 where
  pub response : HttpResponse
  pub overloaded : Bool
  pub valid_until : Option ℕ
  pub policy_cacheable : Bool

-- `CachedResponse::from_fill`.
unfoldable pub from_fill : MetadataFill → Option CachedResponse
from_fill fill =
    map_option
      (λ body. record {
        status = fill.response.status;
        version = fill.response.version;
        headers = fill.response.headers;
        body = body;
        overloaded = fill.overloaded;
      })
      fill.response.buffered

-- `CachedResponse::to_http_response`.
unfoldable pub to_http_response : CachedResponse → HttpResponse
to_http_response r = record {
  status = r.status;
  version = r.version;
  headers = r.headers;
  body = r.body;
  buffered = some r.body;
}
