-- ===== src/Transport/Bounds.antt =====
-- internal/transport/chunks.go: how many chunks there are, and how long each is.
use relayra.Prelude.{ℕ, ◌-◌, ◌*◌, ◌≤◌, ◌<◌, arith, length, length-take, length-drop, List}
use relayra.Transport.{total_chunks, chunk_bytes}

-- With a chunk size that is not 0 there is at least one chunk, and that many chunks of that size
-- are no shorter than the payload.
pub total_chunks_bounds :
    (len size : ℕ) → 0 < size → (1 ≤ total_chunks len size) × (len ≤ total_chunks len size * size)
unfolding total_chunks
total_chunks_bounds len size h = grind arith

pub total_chunks-needed : (len size : ℕ) → 0 < size → (total_chunks len size - 1) * size ≤ len
unfolding total_chunks
total_chunks-needed len size h = grind arith

pub length-chunk_bytes-le :
    (content : List ℕ) (size i : ℕ) → length (chunk_bytes content size i) ≤ size
unfolding chunk_bytes
length-chunk_bytes-le content size i = omega (arith, length-take {0}, length-drop {0})
