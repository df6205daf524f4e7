-- ===== src/Cargo/Index.antt =====
-- Of src/cargo.rs: the records of the index, its responses, and the delivery of a crate. The `String`
-- of a body is a text; `stable_hash` reads its UTF-8 bytes.
use osv_proxy.Common.{
  ℕ, zero, suc, ◌+◌, ◌*◌, ◌/◌, ◌%◌, ◌^◌, Bool, false, not, ◌||◌, ltb, Option, none, some, List, [],
  ◌∷◌, ◌++◌, map, filter, find, any, if◌then◌else◌, Text, codes, text_eq, is_empty, ascii_lowercase,
  trim, trim_end, lines, join, split, split_parts, Result, ok, err, ◌>>=◌, collect,
}
use osv_proxy.Common.Equality
use osv_proxy.Platform.{Platform}
use osv_proxy.Config.{Config}
use osv_proxy.Artifact.{Artifact, artifact_package, crates_io, normalize_cargo_name}
use osv_proxy.Policy.Decisions.{Decision, Scope}
use osv_proxy.Policy.{Checked, evaluate}
use osv_proxy.Policy.Batch.{Batched, cargo_evaluate_artifacts}
use osv_proxy.Response.{RegistryResponse}
use osv_proxy.Cargo.Paths.{Outcome, invalid_index, version_not_found, denied, sparse_path}

pub record IndexRecord : Type 0 where
  pub name : Text
  pub vers : Text
  pub cksum : Text
  pub pubtime : Option Text

-- The UTF-8 bytes of a text.
abbrev utf8_char : ℕ → List ℕ
utf8_char c =
    if ltb c 128
    then c ∷ []
    else if ltb c 2048
    then (192 + c / 64) ∷ (128 + c % 64) ∷ []
    else if ltb c 65536
    then (224 + c / 4096) ∷ (128 + c / 64 % 64) ∷ (128 + c % 64) ∷ []
    else (240 + c / 262144) ∷ (128 + c / 4096 % 64) ∷ (128 + c / 64 % 64) ∷ (128 + c % 64) ∷ []

unfoldable pub utf8 : Text → List ℕ
utf8 [] = []
utf8 (c ∷ s) = utf8_char c ++ utf8 s

-- `^` on numbers of the given number of bits.
unfoldable pub xor : ℕ → ℕ → ℕ → ℕ
xor zero a b = 0
xor (suc bits) a b = (a + b) % 2 + 2 * xor bits (a / 2) (b / 2)

unfoldable pub hash_from : ℕ → List ℕ → ℕ
unfolding xor
hash_from hash [] = hash
hash_from hash (byte ∷ bytes) = hash_from (xor 64 hash byte * 1099511628211 % 2 ^ 64) bytes

unfoldable pub stable_hash : Text → ℕ
unfolding utf8 hash_from
stable_hash body = hash_from 14695981039346656037 (utf8 body)

abbrev hex_digit : ℕ → ℕ
hex_digit d = if ltb d 10 then d + 48 else d + 87

-- `{:016x}`: so many digits.
unfoldable pub show_hex : ℕ → ℕ → Text
show_hex zero n = []
show_hex (suc digits) n = show_hex digits (n / 16) ++ hex_digit (n % 16) ∷ []

unfoldable pub etag_of : Text → Text
unfolding stable_hash show_hex
etag_of body = b'"' ∷ (show_hex 16 (stable_hash body) ++ (b'"' ∷ []))

-- The body of an index entry, from the lines that are kept.
unfoldable pub index_body : List Text → Text
unfolding join
index_body retained = if is_empty retained then [] else join (codes "\n") retained ++ codes "\n"

unfoldable pub index_entry : List Text → RegistryResponse
unfolding etag_of index_body
index_entry retained = record {
  status = 200;
  headers =
      (codes "content-type", codes "text/plain")
      ∷ (codes "etag", etag_of (index_body retained))
      ∷ [];
  body = index_body retained;
}

abbrev pub retained_lines : {F : Type 0} → List Text → List (Decision F) → List Text
retained_lines (line ∷ lines') (d ∷ ds) =
    if d.allowed then line ∷ retained_lines lines' ds else retained_lines lines' ds
retained_lines _ _ = []

-- `apply_if_none_match`.
abbrev pub header_of : Text → List (Text × Text) → Option Text
header_of name headers = elim (find (λ h. text_eq (ascii_lowercase h.0) name) headers) [
  | none ↦ none
  | some h ↦ some h.1
]

abbrev pub is_tag : Option Text → Text → Bool
is_tag none candidate = false
is_tag (some etag) candidate = text_eq candidate etag

abbrev pub matches_tag : Option Text → Option Text → Bool
matches_tag etag none = false
matches_tag etag (some value) =
    any (λ candidate. text_eq candidate (codes "*") || is_tag etag candidate)
      (map trim (split b',' value))

unfoldable pub apply_if_none_match : RegistryResponse → Option Text → RegistryResponse
unfolding text_eq split_parts
apply_if_none_match response if_none_match =
    if matches_tag (header_of (codes "etag") response.headers) if_none_match
    then record response { status = 304; body = [] }
    else response

module _ {F : Type 0} (std : Platform F) (config : Config F)
    (parse_json : Text → Result Text IndexRecord) (parse_rfc3339 : Text → Result Text ℕ) where
  unfoldable pub parse_record : Text → Outcome F IndexRecord
  parse_record line = elim (parse_json line) [ ok r ↦ ok r | err e ↦ err (invalid_index e) ]

  unfoldable pub parse_records : Text → Outcome F (List IndexRecord)
  unfolding lines parse_record collect
  parse_records raw = collect parse_record (filter (λ line. not (is_empty (trim line))) (lines raw))

  abbrev published : Option Text → Outcome F (Option ℕ)
  published none = ok none
  published (some value) = elim (parse_rfc3339 value) [
    | ok t ↦ ok (some t)
    | err e ↦ err (invalid_index (codes "invalid pubtime " ++ (value ++ (codes ": " ++ e))))
  ]

  unfoldable pub record_to_artifact : Text → IndexRecord → Outcome F Artifact
  unfolding normalize_cargo_name artifact_package trim_end text_eq
  record_to_artifact expected_name r =
      if not (text_eq (normalize_cargo_name r.name) expected_name)
      then err (
          invalid_index (
            codes "record name "
            ++ (r.name ++ (codes " does not match requested crate " ++ expected_name))))
      else (published r.pubtime >>= (λ published_at.
          ok (record (artifact_package std.lowercase crates_io expected_name r.vers published_at) {
            filename = some (expected_name ++ (b'-' ∷ (r.vers ++ codes ".crate")));
            upstream_url = some (
                trim_end b'/' config.upstreams.cargo_download_url
                ++ (b'/'
                    ∷ (expected_name
                        ++ (b'/' ∷ (expected_name ++ (b'-' ∷ (r.vers ++ codes ".crate")))))));
            hashes = record { sha256 = some r.cksum; sha512 = none; integrity = none };
          })))

  -- The loop of `index_response` over the lines.
  unfoldable pub read_entries : Text → List Text → Outcome F (List (Text × Artifact))
  unfolding parse_record record_to_artifact
  read_entries name [] = ok []
  read_entries name (line ∷ rest) = if is_empty (trim line) then read_entries name rest else (do
    r ← parse_record line
    artifact ← record_to_artifact name r
    entries ← read_entries name rest
    ok ((line, artifact) ∷ entries))

  module _ (fetch_index : Text → Outcome F Text) where
    unfoldable pub lookup_artifact : Text → Text → Outcome F Artifact
    unfolding sparse_path parse_records record_to_artifact
    lookup_artifact name version = do
      path ← sparse_path (normalize_cargo_name name)
      raw ← fetch_index path
      records ← parse_records raw
      elim (find (λ r. text_eq r.vers version) records) [
        | none ↦ err (version_not_found (normalize_cargo_name name ++ (b'@' ∷ version)))
        | some r ↦ record_to_artifact (normalize_cargo_name name) r
      ]

    -- The lines of an entry with their artifacts.
    unfoldable pub index_entries : Text → Outcome F (List (Text × Artifact))
    unfolding sparse_path lines read_entries
    index_entries name = do
      path ← sparse_path (normalize_cargo_name name)
      raw ← fetch_index path
      read_entries (normalize_cargo_name name) (lines raw)

    unfoldable pub index_response :
        (List Artifact → Batched F) → Text → ℕ → Scope → Option (Outcome F RegistryResponse × Scope)
    unfolding index_entries cargo_evaluate_artifacts index_entry
    index_response check_many name now scope = elim (index_entries name) [
      | err e ↦ some (err e, scope)
      | ok entries ↦
          Equality.◌>>=◌
            (cargo_evaluate_artifacts std config check_many now (map (λ e. e.1) entries) scope)
            (λ r. some (ok (index_entry (retained_lines (map (λ e. e.0) entries) r.0)), r.1))
    ]

    -- `artifact_delivery_response`; `deliver` takes the URL, and an artifact without one is a panic.
    abbrev decided :
        {R : Type 0}
        → (Text → Outcome F R)
        → Option Text
        → Decision F × Scope
        → Option (Outcome F R × Scope)
    decided deliver upstream_url (d, scope) =
        if not d.allowed
        then some (err (denied d), scope)
        else elim upstream_url [ none ↦ none | some u ↦ some (deliver u, scope) ]

    unfoldable pub artifact_delivery_response :
        {R : Type 0}
        → (Artifact → Checked F)
        → (Text → Outcome F R)
        → Text
        → Text
        → ℕ
        → Scope
        → Option (Outcome F R × Scope)
    unfolding lookup_artifact evaluate
    artifact_delivery_response check deliver name version now scope =
        elim (lookup_artifact name version) [
          | err e ↦ some (err e, scope)
          | ok artifact ↦
              Equality.◌>>=◌ (evaluate std config check artifact now scope)
                (decided deliver artifact.upstream_url)
        ]
