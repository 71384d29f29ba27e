-- ===== src/Transport/Cover.antt =====
-- internal/transport/chunks.go: the bytes that the chunks carry, one after another.
use relayra.Prelude.{
  ℕ, zero, suc, ◌*◌, ◌<◌, ◌≡◌, ap, sym, ◌∙◌, List, [], ◌∷◌, ◌++◌, arith, length, take, drop, min,
  length-drop, take-add, take_of_length-le,
}
use relayra.Transport.{total_chunks, chunk_bytes}
use relayra.Transport.Bounds.{total_chunks_bounds}

-- where two counts are equal, the prefixes are
take_of_eq : (xs : List ℕ) {m n : ℕ} → m ≡ n → take m xs ≡ take n xs
take_of_eq xs e = ap (λ k. take k xs) e

take-min-length : (n : ℕ) (xs : List ℕ) → take (min n (length xs)) xs ≡ take n xs
take-min-length zero xs = take_of_eq xs {m = min 0 (length xs)} {n = 0} (omega arith)
take-min-length (suc n) [] = take_of_eq [] {m = min (suc n) 0} {n = 0} (omega arith)
take-min-length (suc n) (x ∷ xs) =
    take_of_eq (x ∷ xs) {m = min (suc n) (suc (length xs))} {n = suc (min n (length xs))}
      (omega arith)
    ∙ ap (◌∷◌ x) (take-min-length n xs)

pub chunk_bytes_lem :
    (payload : List ℕ) (size i : ℕ)
    → chunk_bytes payload size i ≡ take size (drop (i * size) payload)
unfolding chunk_bytes
chunk_bytes_lem payload size i =
    ap (λ k. take k (drop (i * size) payload)) (omega (arith, length-drop (i * size) payload))
    ∙ take-min-length size (drop (i * size) payload)

-- One more chunk extends the prefix that has been sent by one chunk.
pub take-chunk_bytes :
    (payload : List ℕ) (size i : ℕ)
    → take (i * size) payload ++ chunk_bytes payload size i ≡ take (suc i * size) payload
take-chunk_bytes payload size i =
    rw chunk_bytes_lem
      (sym (take-add (i * size) size payload) ∙ ap (λ k. take k payload) (omega arith))

-- what the first `n` chunks carry
abbrev pub first_chunks : List ℕ → ℕ → ℕ → List ℕ
first_chunks payload size zero = []
first_chunks payload size (suc n) = first_chunks payload size n ++ chunk_bytes payload size n

pub first_chunks-take :
    (payload : List ℕ) (size n : ℕ) → first_chunks payload size n ≡ take (n * size) payload
first_chunks-take payload size zero = sym (take_of_eq payload {m = 0 * size} {n = 0} (omega arith))
first_chunks-take payload size (suc n) =
    rw (first_chunks-take payload size n) (take-chunk_bytes payload size n)

-- With a chunk size that is not 0, what the chunks of a payload carry, from the first to the last,
-- is the whole payload.
pub chunks_cover :
    (payload : List ℕ) (size : ℕ)
    → 0 < size
    → first_chunks payload size (total_chunks (length payload) size) ≡ payload
chunks_cover payload size h =
    first_chunks-take payload size (total_chunks (length payload) size)
    ∙ take_of_length-le _ payload (total_chunks_bounds (length payload) size h).1
