-- ===== src/Rpc/Protocol.antt =====
-- sonnet-rpc-v2/internal/protocol and internal/codec/compress.go: the frame of a message. Bytes are
-- numbers below 256. The JSON codec of the header and the gzip compressor are not this program's:
-- they are the parameter `Codecs`.
pub mod Frames
pub mod RoundTrip
use sonnet_pro.Prelude.{
  ℕ, suc, ◌+◌, ◌-◌, ◌*◌, ◌/◌, ◌%◌, ◌^◌, List, [], ◌∷◌, ◌++◌, Bool, Option, none, some, length, take,
  drop, replicate, ltb, leb, ◌==◌, if◌then◌else◌, Text,
}

-- `CompressionNone` and `CompressionGzip`; a byte that is neither is kept as it is.
pub data Compression : Type 0 where
  plain gzip : Compression
  other : ℕ → Compression

-- `Header`; `codec_type` is the byte of `CodecType`.
pub record Header : Type 0 where
  pub request_id : ℕ
  pub service_name : Text
  pub method_name : Text
  pub error : Text
  pub codec_type : ℕ
  pub compression : Compression

pub record Message : Type 0 where
  pub header : Option Header
  pub body : List ℕ

-- Of the two libraries: what they return, `none` where they report an error.
pub record Codecs : Type 0 where
  pub marshal : Header → Option (List ℕ)
  pub unmarshal : List ℕ → Option Header
  pub deflate : List ℕ → Option (List ℕ)
  pub inflate : List ℕ → Option (List ℕ)

pub data Error : Type 0 where
  nil_header too_short bad_magic incomplete no_compressor bad_codec : Error

-- `panic` is a run-time panic: a slice that is out of range.
pub data Result (A : Type 0) : Type 0 where
  ok : A → Result A
  err : Error → Result A
  panic : Result A

infixl 5 ◌>>=◌
abbrev pub ◌>>=◌ : {A B : Type 0} → Result A → (A → Result B) → Result B
ok a >>= f = f a
err e >>= f = err e
panic >>= f = panic

abbrev pub from_option : {A : Type 0} → Error → Option A → Result A
from_option e none = err e
from_option e (some a) = ok a

-- `binary.BigEndian.PutUint16`, `PutUint32` and `Uint32`, on the low digits of a number.
unfoldable pub be16 : ℕ → List ℕ
be16 n = (n / 2 ^ 8 % 256) ∷ (n % 256) ∷ []

unfoldable pub be32 : ℕ → List ℕ
be32 n = (n / 2 ^ 24 % 256) ∷ (n / 2 ^ 16 % 256) ∷ (n / 2 ^ 8 % 256) ∷ (n % 256) ∷ []

unfoldable pub read16 : List ℕ → Result ℕ
read16 (a ∷ b ∷ _) = ok (a * 2 ^ 8 + b)
read16 _ = panic

unfoldable pub read32 : List ℕ → Result ℕ
read32 (a ∷ b ∷ c ∷ d ∷ _) = ok (a * 2 ^ 24 + b * 2 ^ 16 + c * 2 ^ 8 + d)
read32 _ = panic

-- `data[lo:hi]`.
unfoldable pub slice : List ℕ → ℕ → ℕ → Result (List ℕ)
slice data_ lo hi =
    if leb lo hi
    then (if leb hi (length data_) then ok (take (hi - lo) (drop lo data_)) else panic)
    else panic

-- `copy(dst, src)`, which stops where either ends.
unfoldable pub overwrite : List ℕ → List ℕ → List ℕ
overwrite [] src = []
overwrite (b ∷ dst) [] = b ∷ dst
overwrite (b ∷ dst) (x ∷ src) = x ∷ overwrite dst src

-- `copy(buf[at:], src)`.
unfoldable pub copy_at : List ℕ → ℕ → List ℕ → Result (List ℕ)
unfolding overwrite
copy_at buf at src =
    if leb at (length buf) then ok (take at buf ++ overwrite (drop at buf) src) else panic

-- `const Magic`.
abbrev pub magic : ℕ
magic = 0x1234

module _ (c : Codecs) where
  -- `Compress` and `Decompress`, behind the test for `CompressionNone`.
  unfoldable pub compress : Compression → List ℕ → Result (List ℕ)
  compress plain body = ok body
  compress gzip body = from_option bad_codec (c.deflate body)
  compress (other t) body = err no_compressor

  unfoldable pub decompress : Compression → List ℕ → Result (List ℕ)
  decompress plain body = ok body
  decompress gzip body = from_option bad_codec (c.inflate body)
  decompress (other t) body = err no_compressor

  -- `Encode` from the two byte strings on: the lengths are `uint32`, and so is their sum. The two
  -- fixed writes reach index 9, so they panic in a buffer of fewer than 10 bytes.
  unfoldable pub frame : List ℕ → List ℕ → Result (List ℕ)
  frame header body =
      let header_len = length header % 2 ^ 32 in
      let body_len = length body % 2 ^ 32 in
      let total = (2 + 4 + 4 + header_len + body_len) % 2 ^ 32 in
      let buf : List ℕ = replicate total 0 in
      if ltb total 10 then panic else (do
        buf ← copy_at buf 0 (be16 magic)
        buf ← copy_at buf 2 (be32 header_len)
        buf ← copy_at buf 6 (be32 body_len)
        buf ← copy_at buf 10 header
        copy_at buf ((10 + header_len) % 2 ^ 32) body)

  unfoldable pub encode_with : Option Header → List ℕ → Result (List ℕ)
  encode_with none body = err nil_header
  encode_with (some h) body = do
    body_bytes ← compress h.compression body
    header_bytes ← from_option bad_codec (c.marshal h)
    frame header_bytes body_bytes

  -- `Encode`.
  unfoldable pub encode : Message → Result (List ℕ)
  encode msg = encode_with msg.header msg.body

  -- `Decode`, behind the two lengths.
  unfoldable pub decode_parts : List ℕ → ℕ → ℕ → Result Message
  decode_parts data_ header_len body_len =
      if ltb (length data_) (10 + header_len + body_len) then err incomplete else (do
        let header_end = (10 + header_len) % 2 ^ 32
        header_bytes ← slice data_ 10 header_end
        header ← from_option bad_codec (c.unmarshal header_bytes)
        body_bytes ← slice data_ header_end ((header_end + body_len) % 2 ^ 32)
        body ← decompress header.compression body_bytes
        ok (record { header = some header; body = body }))

  -- `Decode`, behind the test of the magic number.
  unfoldable pub decode_lengths : List ℕ → Result Message
  decode_lengths data_ = do
    header_len_bytes ← slice data_ 2 6
    header_len ← read32 header_len_bytes
    body_len_bytes ← slice data_ 6 10
    body_len ← read32 body_len_bytes
    decode_parts data_ header_len body_len

  -- `Decode`.
  unfoldable pub decode : List ℕ → Result Message
  decode data_ = if ltb (length data_) 10 then err too_short else (do
    magic_bytes ← slice data_ 0 2
    m ← read16 magic_bytes
    if m == magic then decode_lengths data_ else err bad_magic)
