-- ===== src/Rpc/Packets.antt =====
-- sonnet-rpc-v2/internal/transport/tcp_connection.go: the packet buffer, and the packets that
-- `TCPConnection.Read` takes from it while chunks of bytes arrive.
pub mod Stream
use sonnet_pro.Prelude.{
  ℕ, zero, suc, ◌+◌, ◌*◌, ◌^◌, List, [], ◌∷◌, ◌++◌, Option, none, some, length, take, drop, ltb,
  if◌then◌else◌,
}

-- `totalLen`, from the first 10 bytes; `none` where there are fewer.
unfoldable pub total_len : List ℕ → Option ℕ
total_len (_ ∷ _ ∷ a ∷ b ∷ c ∷ d ∷ e ∷ f ∷ g ∷ h ∷ _) =
    some
      (10 + (a * 2 ^ 24 + b * 2 ^ 16 + c * 2 ^ 8 + d) + (e * 2 ^ 24 + f * 2 ^ 16 + g * 2 ^ 8 + h))
total_len _ = none

-- `PacketBuffer.Write`.
unfoldable pub write : List ℕ → List ℕ → List ℕ
write buf data_ = buf ++ data_

-- `PacketBuffer.Read`: a packet and the bytes that are left, or nil.
unfoldable pub read : List ℕ → Option (List ℕ × List ℕ)
unfolding total_len
read buf = elim (total_len buf) [
  | none ↦ none
  | some total ↦ if ltb (length buf) total then none else some (take total buf, drop total buf)
]

-- The packets of repeated calls of `Read` until the buffer holds no whole packet, and the bytes
-- left. Every packet has 10 bytes or more, so the length of the buffer is fuel enough.
unfoldable pub drain : ℕ → List ℕ → List (List ℕ) × List ℕ
drain zero buf = ([], buf)
drain (suc fuel) buf = elim (read buf) [
  | none ↦ ([], buf)
  | some (packet, rest) ↦ let (packets, left) = drain fuel rest in (packet ∷ packets, left)
]

-- The loop of `TCPConnection.Read` over the chunks that the socket returns: the packets that the
-- calls return, in order, and the bytes left in the buffer.
unfoldable pub feed : List ℕ → List (List ℕ) → List (List ℕ) × List ℕ
feed buf [] = drain (length buf) buf
feed buf (chunk ∷ chunks) =
    let (packets, left) = drain (length buf) buf in
    let (packets', left') = feed (write left chunk) chunks in (packets ++ packets', left')
