-- ===== src/HttpBody.antt =====
-- src/http_body.rs: bodies of upstream responses, collected up to a limit. A stream is the list of
-- what it yields. UTF-8, JSON and temporary files are not modelled.
pub mod Laws
mod Tests
use osv_proxy.Common.{
  ℕ, ◌+◌, Bool, true, false, ltb, Option, none, some, List, [], ◌∷◌, ◌++◌, if◌then◌else◌, length,
  is_some_and, Text,
}
use osv_proxy.Common.Equality.{saturating_add}

-- The constructors of `HttpBodyError` that are raised here.
pub data HttpBodyError : Type 0 where
  declared_too_large streamed_too_large : Text → ℕ → HttpBodyError
  read : Text → Text → HttpBodyError

pub data Collected (A : Type 0) : Type 0 where
  ok : A → Collected A
  err : HttpBodyError → Collected A

infixl 5 ◌>>=◌
abbrev pub ◌>>=◌ : {A B : Type 0} → Collected A → (A → Collected B) → Collected B
ok a >>= f = f a
err e >>= f = err e

-- An item of the stream: a chunk, or the message of an error.
pub data Chunk : Type 0 where
  bytes : List ℕ → Chunk
  broken : Text → Chunk

unfoldable pub ensure_content_length : Option ℕ → ℕ → Text → Collected (Unit {0})
ensure_content_length content_length limit kind =
    if is_some_and content_length (λ size. ltb limit size)
    then err (declared_too_large kind limit)
    else ok tt

unfoldable pub ensure_streamed_size : ℕ → ℕ → ℕ → Text → Collected (Unit {0})
ensure_streamed_size current additional limit kind =
    if ltb limit (saturating_add current additional)
    then err (streamed_too_large kind limit)
    else ok tt

-- The loop of `collect_stream_with_capacity`, with the body so far.
unfoldable pub collect_chunks : List ℕ → ℕ → Text → List Chunk → Collected (List ℕ)
unfolding ensure_streamed_size
collect_chunks body limit kind [] = ok body
collect_chunks body limit kind (broken message ∷ stream) = err (read kind message)
collect_chunks body limit kind (bytes chunk ∷ stream) =
    let rest = collect_chunks (body ++ chunk) limit kind stream in
    ensure_streamed_size (length body) (length chunk) limit kind >>= (λ _. rest)

unfoldable pub collect_stream : List Chunk → ℕ → Text → Collected (List ℕ)
unfolding collect_chunks
collect_stream stream limit kind = collect_chunks [] limit kind stream

-- `collect_bytes` of a response with this `content_length` and this stream.
unfoldable pub collect_bytes : Option ℕ → List Chunk → ℕ → Text → Collected (List ℕ)
unfolding ensure_content_length collect_stream
collect_bytes content_length stream limit kind =
    ensure_content_length content_length limit kind >>= (λ _. collect_stream stream limit kind)
