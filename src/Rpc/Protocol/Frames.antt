-- ===== src/Rpc/Protocol/Frames.antt =====
-- sonnet-rpc-v2/internal/protocol/message.go: what `Decode` reads from a frame that `Encode` writes.
use mathlib.Core.List.{append-nil, append_assoc}
use sonnet_pro.Prelude.{
  ℕ, zero, suc, ◌+◌, ◌-◌, ◌%◌, ◌^◌, ◌<◌, List, [], ◌∷◌, ◌++◌, ◌≡◌, refl, sym, ap, ◌∙◌, arith, some,
  length, replicate, take-append, drop-append, length-append, ltb, leb, true, false,
}
use sonnet_pro.Rpc.Protocol.{
  Message, Codecs, Result, ok, ◌>>=◌, from_option, be16, be32, read16, read32, slice, overwrite,
  copy_at, magic, decompress, frame, decode_parts, decode_lengths, decode, bad_codec,
}

overwrite_exact :
    (dst post src : List ℕ) → length dst ≡ length src → overwrite (dst ++ post) src ≡ src ++ post
unfolding overwrite
overwrite_exact [] [] [] h = refl
overwrite_exact [] (x ∷ post) [] h = refl
overwrite_exact [] post (x ∷ src) h = absurd (omega arith)
overwrite_exact (d ∷ dst) post [] h = absurd (omega arith)
overwrite_exact (d ∷ dst) post (x ∷ src) h = ap (◌∷◌ x) (overwrite_exact dst post src (omega arith))

copy_at_exact :
    (buf : List ℕ) (n : ℕ) (pre dst post src : List ℕ)
    → buf ≡ pre ++ (dst ++ post)
    → n ≡ length pre
    → length dst ≡ length src
    → copy_at buf n src ≡ ok (pre ++ (src ++ post))
unfolding copy_at
copy_at_exact buf n pre dst post src e at h =
    let fits : leb n (length (pre ++ (dst ++ post))) ≡ true =
      ground (arith, length-append pre (dst ++ post)) in
    rw (
      e,
      fits,
      at,
      take-append pre (dst ++ post),
      drop-append pre (dst ++ post),
      overwrite_exact dst post src h,
    )

length-replicate : (n : ℕ) → length (replicate {A = ℕ} n 0) ≡ n
length-replicate zero = refl
length-replicate (suc n) = ap suc (length-replicate n)

pub be16_size : (n : ℕ) → length (be16 n) ≡ 2
unfolding be16
be16_size n = refl

pub be32_size : (n : ℕ) → length (be32 n) ≡ 4
unfolding be32
be32_size n = refl

replicate-add : (m n : ℕ) → replicate {A = ℕ} (m + n) 0 ≡ replicate m 0 ++ replicate n 0
replicate-add zero n = ap (λ k. replicate k 0) (omega arith)
replicate-add (suc m) n =
    let e : suc m + n ≡ suc (m + n) = omega arith in rw e (ap (◌∷◌ 0) (replicate-add m n))

-- The five writes of `frame` fill the buffer.
fill :
    (m a b header body : List ℕ)
    → length m ≡ 2
    → length a ≡ 4
    → length b ≡ 4
    → (do
      buf ←
          copy_at
            (replicate 2 0
              ++ (replicate 4 0
                  ++ (replicate 4 0 ++ (replicate (length header) 0 ++ replicate (length body) 0))))
            0
            m
      buf ← copy_at buf 2 a
      buf ← copy_at buf 6 b
      buf ← copy_at buf 10 header
      copy_at buf (10 + length header) body)
      ≡ ok (m ++ (a ++ (b ++ (header ++ body))))
fill m a b header body hm ha hb =
    let z : ℕ → List ℕ = λ n. replicate n 0 in
    let zh = z (length header) in
    let zb = z (length body) in
    let rest = zh ++ zb in
    let ma = m ++ a in
    let mab = ma ++ b in
    let mabh = mab ++ header in
    let s1 : copy_at (z 2 ++ (z 4 ++ (z 4 ++ rest))) 0 m ≡ ok (m ++ (z 4 ++ (z 4 ++ rest))) =
      copy_at_exact (z 2 ++ (z 4 ++ (z 4 ++ rest))) 0 [] (z 2) (z 4 ++ (z 4 ++ rest)) m refl refl
        (sym hm) in
    let s2 : copy_at (m ++ (z 4 ++ (z 4 ++ rest))) 2 a ≡ ok (m ++ (a ++ (z 4 ++ rest))) =
      copy_at_exact (m ++ (z 4 ++ (z 4 ++ rest))) 2 m (z 4) (z 4 ++ rest) a refl (sym hm)
        (sym ha) in
    let s3 : copy_at (m ++ (a ++ (z 4 ++ rest))) 6 b ≡ ok (ma ++ (b ++ rest)) =
      copy_at_exact (m ++ (a ++ (z 4 ++ rest))) 6 ma (z 4) rest b (simp append_assoc)
        (omega (arith, length-append m a, hm, ha)) (sym hb) in
    let s4 : copy_at (ma ++ (b ++ rest)) 10 header ≡ ok (mab ++ (header ++ zb)) =
      copy_at_exact (ma ++ (b ++ rest)) 10 mab zh zb header (simp append_assoc)
        (omega (arith, length-append m a, length-append ma b, hm, ha, hb))
        (length-replicate (length header)) in
    let s5 : copy_at (mab ++ (header ++ zb)) (10 + length header) body ≡ ok (mabh ++ (body ++ [])) =
      copy_at_exact (mab ++ (header ++ zb)) (10 + length header) mabh zb [] body
        (simp (append_assoc, append-nil))
        (omega (arith, length-append m a, length-append ma b, length-append mab header, hm, ha, hb))
        (length-replicate (length body)) in
    rw (s1, s2, s3, s4, s5) (ap ok (simp (append_assoc, append-nil)))

-- The bytes of a frame.
unfoldable pub framed : ℕ → ℕ → List ℕ → List ℕ → List ℕ
framed header_len body_len header body =
    be16 magic ++ (be32 header_len ++ (be32 body_len ++ (header ++ body)))

-- `frame` lays out the magic number, the two lengths, the header and the body, where all of it is
-- shorter than 2^32 bytes.
pub frame-framed :
    (c : Codecs) (header body : List ℕ)
    → 10 + length header + length body < 2 ^ 32
    → frame c header body ≡ ok (framed (length header) (length body) header body)
unfolding frame framed
frame-framed c header body h =
    let hl = length header in
    let bl = length body in
    let z : ℕ → List ℕ = λ n. replicate n 0 in
    let e_h : hl % 2 ^ 32 ≡ hl = omega arith in
    let e_b : bl % 2 ^ 32 ≡ bl = omega arith in
    let e_t : (2 + 4 + 4 + hl + bl) % 2 ^ 32 ≡ 2 + (4 + (4 + (hl + bl))) = omega arith in
    let e_at : (10 + hl) % 2 ^ 32 ≡ 10 + hl = omega arith in
    let long : ltb (2 + (4 + (4 + (hl + bl)))) 10 ≡ false = ground arith in
    let zeros : z (2 + (4 + (4 + (hl + bl)))) ≡ z 2 ++ (z 4 ++ (z 4 ++ (z hl ++ z bl))) =
      replicate-add 2 (4 + (4 + (hl + bl)))
      ∙ ap (λ l. z 2 ++ l)
          (replicate-add 4 (4 + (hl + bl))
            ∙ ap (λ l. z 4 ++ l)
                (replicate-add 4 (hl + bl) ∙ ap (λ l. z 4 ++ l) (replicate-add hl bl))) in
    rw (e_h, e_b, e_t, e_at, long, zeros)
      (fill (be16 magic) (be32 hl) (be32 bl) header body (be16_size magic) (be32_size hl)
        (be32_size bl))

slice_exact :
    (data_ : List ℕ) (lo hi : ℕ) (pre mid post : List ℕ)
    → data_ ≡ pre ++ (mid ++ post)
    → lo ≡ length pre
    → hi ≡ length pre + length mid
    → slice data_ lo hi ≡ ok mid
unfolding slice
slice_exact data_ lo hi pre mid post e at_lo at_hi =
    let sizes = length-append pre (mid ++ post) in
    let sizes' = length-append mid post in
    let ordered : leb (length pre) (length pre + length mid) ≡ true = ground arith in
    let inside : leb (length pre + length mid) (length (pre ++ (mid ++ post))) ≡ true =
      ground (arith, sizes, sizes') in
    let width : length pre + length mid - length pre ≡ length mid = omega arith in
    rw
      (e, at_lo, at_hi, ordered, inside, width, drop-append pre (mid ++ post), take-append mid post)

read16-magic : read16 (be16 magic) ≡ ok magic
unfolding read16 be16
read16-magic = refl

pub read32-be32 : (n : ℕ) → n < 2 ^ 32 → read32 (be32 n) ≡ ok n
unfolding read32 be32
read32-be32 n h = ap ok (omega arith)

module _ (c : Codecs) where
  -- What `Decode` reads from a frame.
  unfoldable pub opened : List ℕ → List ℕ → Result Message
  opened header body = do
    h ← from_option bad_codec (c.unmarshal header)
    b ← decompress c h.compression body
    ok (record { header = some h; body = b })

  decode_parts-framed :
      (header body rest : List ℕ)
      → 10 + length header + length body < 2 ^ 32
      → decode_parts c
          (framed (length header) (length body) header (body ++ rest))
          (length header)
          (length body)
        ≡ opened header body
  unfolding decode_parts opened framed
  decode_parts-framed header body rest h =
      let hl = length header in
      let bl = length body in
      let m = be16 magic in
      let a = be32 hl in
      let b = be32 bl in
      let mab = m ++ a ++ b in
      let data_ = m ++ (a ++ (b ++ (header ++ (body ++ rest)))) in
      let e_10 : 10 ≡ length mab = omega (
        arith,
        length-append m a,
        length-append (m ++ a) b,
        be16_size magic,
        be32_size hl,
        be32_size bl,
      ) in
      let e_1 : data_ ≡ mab ++ (header ++ (body ++ rest)) = simp append_assoc in
      let e_2 : data_ ≡ mab ++ header ++ (body ++ rest) = simp append_assoc in
      let size : length data_ ≡ 10 + hl + bl + length rest =
        ap length e_1
        ∙ omega (
          arith,
          length-append mab (header ++ (body ++ rest)),
          length-append header (body ++ rest),
          length-append body rest,
        ) in
      let long : ltb (length data_) (10 + hl + bl) ≡ false = ground (arith, size) in
      let w_1 : (10 + hl) % 2 ^ 32 ≡ 10 + hl = omega arith in
      let w_2 : (10 + hl + bl) % 2 ^ 32 ≡ 10 + hl + bl = omega arith in
      let s_1 : slice data_ 10 (10 + hl) ≡ ok header =
        slice_exact data_ 10 (10 + hl) mab header (body ++ rest) e_1 e_10 (omega (arith, e_10)) in
      let s_2 : slice data_ (10 + hl) (10 + hl + bl) ≡ ok body =
        slice_exact data_ (10 + hl) (10 + hl + bl) (mab ++ header) body rest e_2
          (omega (arith, e_10, length-append mab header))
          (omega (arith, e_10, length-append mab header)) in
      rw (long, w_1, w_2, s_1, s_2)

  -- `Decode` of a frame with a header shorter than 2^32 bytes together with the body, whatever
  -- bytes follow it, opens the header and the body of that frame.
  pub decode-framed :
      (header body rest : List ℕ)
      → 10 + length header + length body < 2 ^ 32
      → decode c (framed (length header) (length body) header (body ++ rest)) ≡ opened header body
  unfolding decode decode_lengths
  decode-framed header body rest h =
      let hl = length header in
      let bl = length body in
      let m = be16 magic in
      let a = be32 hl in
      let b = be32 bl in
      let tail = header ++ (body ++ rest) in
      let data_ = m ++ (a ++ (b ++ tail)) in
      let same : framed hl bl header (body ++ rest) ≡ data_ = unfold framed in refl in
      let s_m : slice data_ 0 2 ≡ ok m =
        slice_exact data_ 0 2 [] m (a ++ (b ++ tail)) refl refl (omega (arith, be16_size magic)) in
      let s_a : slice data_ 2 6 ≡ ok a =
        slice_exact data_ 2 6 m a (b ++ tail) refl (omega (arith, be16_size magic))
          (omega (arith, be16_size magic, be32_size hl)) in
      let s_b : slice data_ 6 10 ≡ ok b =
        slice_exact data_ 6 10 (m ++ a) b tail (simp append_assoc)
          (omega (arith, length-append m a, be16_size magic, be32_size hl))
          (omega (arith, length-append m a, be16_size magic, be32_size hl, be32_size bl)) in
      let long : ltb (length data_) 10 ≡ false = ground (
        arith,
        length-append m (a ++ (b ++ tail)),
        length-append a (b ++ tail),
        length-append b tail,
        be16_size magic,
        be32_size hl,
        be32_size bl,
      ) in
      let parts : decode_parts c data_ hl bl ≡ opened header body =
        rw same at (decode_parts-framed header body rest h) in
      rw (
        same,
        long,
        s_m,
        read16-magic,
        s_a,
        read32-be32 hl (omega arith),
        s_b,
        read32-be32 bl (omega arith),
        parts,
      )
