-- ===== src/Stream/Request/Ids.antt =====
-- The two spaces of message IDs of internal/stream/message.go.
use gorums.Prelude.{ℕ, ◌+◌, ◌*◌, ◌<◌, ◌≡◌, refl, true, false, arith}
use gorums.Stream.Request.{server_bit, is_server_sequence_number, server_sequence_number}

below : (n : ℕ) → n < server_bit → is_server_sequence_number n ≡ false
unfolding is_server_sequence_number
below n h = ground arith

above : (n : ℕ) → n < server_bit → is_server_sequence_number (n + server_bit) ≡ true
unfolding is_server_sequence_number
above n h = ground arith

-- On counters below 2^63: the server's message IDs have the high bit, the clients' have not, and
-- the server's IDs differ for different counters and fit 64 bits.
pub server_ids :
    (n m : ℕ)
    → n < server_bit
    → m < server_bit
    → (is_server_sequence_number (server_sequence_number n) ≡ true)
      × (is_server_sequence_number m ≡ false)
      × (server_sequence_number n ≡ server_sequence_number m → n ≡ m)
      × (server_sequence_number n < 2 * server_bit)
unfolding server_sequence_number
server_ids n m h g =
    rw (below n h, below m g) (above n h, refl, (λ e. omega (arith, e)), omega arith)
