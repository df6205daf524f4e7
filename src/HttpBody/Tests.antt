-- ===== src/HttpBody/Tests.antt =====
-- Runs of src/http_body.rs.
use osv_proxy.Common.{ℕ, ◌≡◌, ◌≤◌, ◌↔◌, some, List, [], ◌∷◌, arith, length, codes}
use osv_proxy.HttpBody.{Chunk, bytes, ok, collect_bytes}
use osv_proxy.HttpBody.Laws.{collect_bytes-ok_iff, contents, IsWhole, IsWithin}

abbrev stream : List Chunk
stream = bytes (1 ∷ 2 ∷ []) ∷ bytes (3 ∷ []) ∷ []

abbrev body : List ℕ
body = 1 ∷ 2 ∷ 3 ∷ []

collect_bytes-ok_iff_example : (collect_bytes (some 3) stream 4 (codes "page") ≡ ok body) ↔ (
    IsWithin 4 (some 3)
    × IsWhole stream
    × (length (contents stream) ≤ 4)
    × (body ≡ contents stream))
collect_bytes-ok_iff_example =
    collect_bytes-ok_iff 4 (codes "page") (omega arith) (some 3) stream body
