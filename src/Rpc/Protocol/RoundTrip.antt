-- ===== src/Rpc/Protocol/RoundTrip.antt =====
-- sonnet-rpc-v2/internal/protocol/message.go: `Decode` after `Encode`.
use mathlib.Core.List.{append_assoc}
use sonnet_pro.Prelude.{
  ℕ, zero, suc, ◌+◌, ◌^◌, ◌<◌, List, [], ◌∷◌, ◌++◌, ◌≡◌, ◌∙◌, arith, some, length, ltb, leb,
  Option-cases, inl, inr, true, false, Option, none, Bool, ◌==◌, ◌&&◌, if◌then◌else◌,
}
use sonnet_pro.Rpc.Protocol.{
  Compression, plain, gzip, other, Header, Codecs, ok, compress, decompress, encode_with, encode,
  decode,
}
use sonnet_pro.Rpc.Protocol.Frames.{framed, frame-framed, opened, decode-framed}

-- The first byte of a UTF-8 sequence: how many bytes follow, and the bounds of the next one.
abbrev pub lead : ℕ → Option (ℕ × ℕ × ℕ)
lead b =
    if ltb b 0x80
    then some (0, 0x80, 0xBF)
    else if ltb b 0xC2
    then none
    else if ltb b 0xE0
    then some (1, 0x80, 0xBF)
    else if b == 0xE0
    then some (2, 0xA0, 0xBF)
    else if b == 0xED
    then some (2, 0x80, 0x9F)
    else if ltb b 0xF0
    then some (2, 0x80, 0xBF)
    else if b == 0xF0
    then some (3, 0x90, 0xBF)
    else if ltb b 0xF4
    then some (3, 0x80, 0xBF)
    else if b == 0xF4
    then some (3, 0x80, 0x8F)
    else none

-- Valid UTF-8, where `n` bytes of a sequence are still to come, the next one within its bounds.
abbrev pub is_utf8_from : ℕ → ℕ → ℕ → List ℕ → Bool
is_utf8_from zero lo hi [] = true
is_utf8_from (suc n) lo hi [] = false
is_utf8_from zero lo hi (b ∷ bytes) = elim (lead b) [
  | none ↦ false
  | some (n, lo', hi') ↦ is_utf8_from n lo' hi' bytes
]
is_utf8_from (suc n) lo hi (b ∷ bytes) = leb lo b && leb b hi && is_utf8_from n 0x80 0xBF bytes

abbrev pub is_utf8 : List ℕ → Bool
is_utf8 = is_utf8_from 0 0 0

-- A compression byte; `other` is for those that have no name.
abbrev pub is_compression : Compression → Bool
is_compression plain = true
is_compression gzip = true
is_compression (other b) = ltb 1 b && ltb b 256

-- A header as Go has it, its numbers in the range of their types, whose strings are valid UTF-8.
pub record IsText (h : Header) : Type 0 where
  pub id : h.request_id < 2 ^ 64
  pub service : is_utf8 h.service_name ≡ true
  pub method : is_utf8 h.method_name ≡ true
  pub error : is_utf8 h.error ≡ true
  pub codec : h.codec_type < 256
  pub compression : is_compression h.compression ≡ true

-- What the libraries document: the JSON codec reads back a header whose strings are valid UTF-8, which
-- it does not alter, and gzip restores what it has compressed.
pub record IsLawful (c : Codecs) : Type 0 where
  pub reads_back :
      (h : Header) (bytes : List ℕ)
      → IsText h
      → c.marshal h ≡ some bytes
      → c.unmarshal bytes ≡ some h
  pub restores : (body bytes : List ℕ) → c.deflate body ≡ some bytes → c.inflate bytes ≡ some body

module _ (c : Codecs) (laws : IsLawful c) where
  decompress-compress :
      (t : Compression) (body bytes : List ℕ)
      → compress c t body ≡ ok bytes
      → decompress c t bytes ≡ ok body
  unfolding compress decompress
  decompress-compress plain body bytes e = cc
  decompress-compress gzip body bytes e = elim (Option-cases (c.deflate body)) [
    | inl q ↦ absurd (ground arith)
    | inr (d, q) ↦ let same : d ≡ bytes = ground arith in rw (← same, laws.restores body d q)
  ]
  decompress-compress (other t) body bytes e = absurd (cc)

  -- A message whose header has strings of valid UTF-8 and numbers in the range of their Go types and
  -- marshals, whose body compresses and whose frame is shorter than 2^32 bytes is encoded, and `Decode`
  -- gives it back from its bytes, whatever bytes follow them.
  pub decode-encode :
      (h : Header) (body header_bytes body_bytes rest : List ℕ)
      → IsText h
      → c.marshal h ≡ some header_bytes
      → compress c h.compression body ≡ ok body_bytes
      → 10 + length header_bytes + length body_bytes < 2 ^ 32
      → (bytes : List ℕ) × (encode c (record { header = some h; body = body }) ≡ ok bytes)
        × (decode c (bytes ++ rest) ≡ ok (record { header = some h; body = body }))
  unfolding encode encode_with
  decode-encode h body header_bytes body_bytes rest text m z fits =
      let hl = length header_bytes in
      let bl = length body_bytes in
      let bytes = framed hl bl header_bytes body_bytes in
      let longer : bytes ++ rest ≡ framed hl bl header_bytes (body_bytes ++ rest) =
        unfold framed in simp append_assoc in
      let opens : opened c header_bytes body_bytes ≡ ok (record { header = some h; body = body }) =
        unfold opened in
        rw (
          laws.reads_back h header_bytes text m,
          decompress-compress h.compression body body_bytes z,
        ) in
      (
        bytes,
        rw (z, m) (frame-framed c header_bytes body_bytes fits),
        rw longer (decode-framed c header_bytes body_bytes rest fits ∙ opens),
      )
