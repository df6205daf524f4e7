-- ===== src/HttpBody/Laws.antt =====
-- Which bodies `collect_bytes` of src/http_body.rs accepts.
use osv_proxy.Common.{
  ℕ, ◌+◌, ◌≤◌, ◌<◌, ◌≡◌, ◌↔◌, refl, sym, ◌∙◌, ap, false, ltb, Option, none, some, List, [], ◌∷◌,
  ◌++◌, arith, length, Text, Bool-cases, inl, inr,
}
use osv_proxy.Common.Equality.{usize_max}
use osv_proxy.HttpBody.{
  ok, err, Chunk, bytes, broken, ensure_content_length, ensure_streamed_size, collect_chunks,
  collect_stream, collect_bytes, streamed_too_large,
}

-- What the chunks hold.
abbrev pub contents : List Chunk → List ℕ
contents [] = []
contents (bytes chunk ∷ stream) = chunk ++ contents stream
contents (broken message ∷ stream) = contents stream

abbrev pub IsWhole : List Chunk → Type 0
IsWhole [] = Unit
IsWhole (bytes chunk ∷ stream) = IsWhole stream
IsWhole (broken message ∷ stream) = ⊥

abbrev pub IsWithin : ℕ → Option ℕ → Type 0
IsWithin limit none = Unit
IsWithin limit (some size) = size ≤ limit

length-append : (a b : List ℕ) → length (a ++ b) ≡ length a + length b
length-append [] b = omega arith
length-append (x ∷ a) b = omega (arith, length-append a b)

append_nil : (a : List ℕ) → a ++ [] ≡ a
append_nil [] = refl
append_nil (x ∷ a) = ap (λ l. x ∷ l) (append_nil a)

append_assoc : (a b c : List ℕ) → (a ++ b) ++ c ≡ a ++ (b ++ c)
append_assoc [] b c = refl
append_assoc (x ∷ a) b c = ap (λ l. x ∷ l) (append_assoc a b c)

module _ (limit : ℕ) (kind : Text) (max : limit < usize_max) where
  too_large :
      (body chunk : List ℕ)
      → limit < length body + length chunk
      → ensure_streamed_size (length body) (length chunk) limit kind
        ≡ err (streamed_too_large kind limit)
  unfolding ensure_streamed_size
  too_large body chunk h = ground arith

  fits :
      (body chunk : List ℕ)
      → length body + length chunk ≤ limit
      → ensure_streamed_size (length body) (length chunk) limit kind ≡ ok tt
  unfolding ensure_streamed_size
  fits body chunk h = ground arith

  collect_chunks-ok :
      (body : List ℕ) (stream : List Chunk)
      → IsWhole stream
      → length body + length (contents stream) ≤ limit
      → collect_chunks body limit kind stream ≡ ok (body ++ contents stream)
  unfolding collect_chunks
  collect_chunks-ok body [] w h = ap ok (sym (append_nil body))
  collect_chunks-ok body (broken message ∷ stream) w h = absurd w
  collect_chunks-ok body (bytes chunk ∷ stream) w h =
      rw (fits body chunk (omega (arith, length-append chunk (contents stream)))) (
        collect_chunks-ok (body ++ chunk) stream w
          (omega (arith, length-append chunk (contents stream), length-append body chunk))
        ∙ ap ok (append_assoc body chunk (contents stream)))

  collect_chunks-IsWhole :
      (body : List ℕ) (stream : List Chunk) (r : List ℕ)
      → length body ≤ limit
      → collect_chunks body limit kind stream ≡ ok r
      → IsWhole stream × (length body + length (contents stream) ≤ limit)
  unfolding collect_chunks
  collect_chunks-IsWhole body [] r b h = (tt, omega arith)
  collect_chunks-IsWhole body (broken message ∷ stream) r b h = absurd (ground arith)
  collect_chunks-IsWhole body (bytes chunk ∷ stream) r b h =
      elim (Bool-cases (ltb limit (length body + length chunk))) [
        | inl big ↦ absurd (ground (arith, too_large body chunk (ground arith)))
        | inr small ↦
            let (w, k) =
              collect_chunks-IsWhole (body ++ chunk) stream r
                (omega (arith, length-append body chunk, big_of small))
                (ground (arith, fits body chunk (big_of small))) in
            (w, omega (arith, length-append body chunk, length-append chunk (contents stream)))
      ]
    where
      big_of : ltb limit (length body + length chunk) ≡ false → length body + length chunk ≤ limit
      big_of e = ground arith

  ok_injective : (a b : List ℕ) → ok a ≡ ok b → a ≡ b
  ok_injective a b e = ground arith

  collect_stream-ok_iff :
      (stream : List Chunk) (body : List ℕ)
      → (collect_stream stream limit kind ≡ ok body)
        ↔ (IsWhole stream × (length (contents stream) ≤ limit) × (body ≡ contents stream))
  unfolding collect_stream
  collect_stream-ok_iff stream body = (
    (λ h.
        let (w, k) = collect_chunks-IsWhole [] stream body (omega arith) h in
        (
          w,
          omega (arith, k),
          ok_injective body (contents stream) (sym h ∙ collect_chunks-ok [] stream w k),
        )),
    (λ h. collect_chunks-ok [] stream h.0 (omega (arith, h.1)) ∙ ap ok (sym h.2)),
  )

  -- `collect_bytes` returns a body exactly where the declared length, if there is one, and the
  -- length of all chunks are within the limit and no chunk is an error; the body is then all the
  -- chunks, in their order.
  pub collect_bytes-ok_iff :
      (content_length : Option ℕ) (stream : List Chunk) (body : List ℕ)
      → (collect_bytes content_length stream limit kind ≡ ok body) ↔ (
          IsWithin limit content_length
          × IsWhole stream
          × (length (contents stream) ≤ limit)
          × (body ≡ contents stream))
  unfolding collect_bytes ensure_content_length
  collect_bytes-ok_iff none stream body =
      let (f, g) = collect_stream-ok_iff stream body in
      ((λ h. let (w, k, b) = f h in (tt, w, k, b)), (λ h. g (h.1, h.2, h.3)))
  collect_bytes-ok_iff (some size) stream body =
      let (f, g) = collect_stream-ok_iff stream body in
      elim (Bool-cases (ltb limit size)) [
        | inl big ↦ ((λ h. absurd (ground arith)), (λ h. absurd (ground (arith, h.0))))
        | inr small ↦ (
          (λ h. let (w, k, b) = f (rw small at h) in (ground arith, w, k, b)),
          (λ h. rw small (g (h.1, h.2, h.3))),
        )
      ]
