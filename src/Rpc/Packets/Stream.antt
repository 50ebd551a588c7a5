-- ===== src/Rpc/Packets/Stream.antt =====
-- sonnet-rpc-v2/internal/transport/tcp_connection.go: the packets of a stream do not depend on how
-- it is cut into chunks, and those of a stream of frames are the frames.
use mathlib.Core.List.{append-nil, append_assoc}
use sonnet_pro.Prelude.{
  ℕ, zero, suc, ◌+◌, ◌^◌, ◌≤◌, ◌<◌, List, [], ◌∷◌, ◌++◌, ◌≡◌, refl, sym, ap, ◌∙◌, arith, none, some,
  length, take, drop, take-append, drop-append, length-append, length-drop, take_append_le,
  drop_append_le, ltb, Option-cases, inl, inr, false, All,
}
use sonnet_pro.Rpc.Protocol.{be16, be32}
use sonnet_pro.Rpc.Protocol.Frames.{framed}
use sonnet_pro.Rpc.Packets.{total_len, write, read, drain, feed}

total_len-append :
    (buf more : List ℕ) {n : ℕ} → total_len buf ≡ some n → total_len (buf ++ more) ≡ some n
unfolding total_len
total_len-append (_ ∷ _ ∷ a ∷ b ∷ c ∷ d ∷ e ∷ f ∷ g ∷ h ∷ _) more q = q
total_len-append _ more q = absurd (cc)

total_len-ge : (buf : List ℕ) {n : ℕ} → total_len buf ≡ some n → 10 ≤ n
unfolding total_len
total_len-ge (_ ∷ _ ∷ a ∷ b ∷ c ∷ d ∷ e ∷ f ∷ g ∷ h ∷ _) q = ground arith
total_len-ge _ q = absurd (cc)

-- What a successful read says.
pub record Reads (buf packet rest : List ℕ) : Type 0 where
  pub size : ℕ
  pub known : total_len buf ≡ some size
  pub fits : size ≤ length buf
  pub first : packet ≡ take size buf
  pub later : rest ≡ drop size buf

read-Reads : (buf packet rest : List ℕ) → read buf ≡ some (packet, rest) → Reads buf packet rest
unfolding read
read-Reads buf packet rest e = elim (Option-cases (total_len buf)) [
  | inl q ↦ absurd (ground arith)
  | inr (n, q) ↦ record {
    size = n;
    known = q;
    fits = ground arith;
    first = ground arith;
    later = ground arith;
  }
]

-- More bytes behind a whole packet change nothing of it.
pub read-append :
    (buf packet rest more : List ℕ)
    → read buf ≡ some (packet, rest)
    → read (buf ++ more) ≡ some (packet, rest ++ more)
unfolding read
read-append buf packet rest more e =
    let r = read-Reads buf packet rest e in
    let n = r.size in
    let long : ltb (length (buf ++ more)) n ≡ false =
      ground (arith, length-append buf more, r.fits) in
    rw (
      total_len-append buf more r.known,
      long,
      take_append_le n buf more r.fits,
      drop_append_le n buf more r.fits,
      r.first,
      r.later,
      read,
    )

read_shrinks :
    (buf packet rest : List ℕ) → read buf ≡ some (packet, rest) → length rest < length buf
read_shrinks buf packet rest e =
    let r = read-Reads buf packet rest e in
    omega (arith, ap length r.later, length-drop r.size buf, total_len-ge buf r.known, r.fits)

read_nil : read [] ≡ none
unfolding read total_len
read_nil = refl

drain_stop : (f : ℕ) (buf : List ℕ) → read buf ≡ none → drain f buf ≡ ([], buf)
unfolding drain
drain_stop zero buf q = refl
drain_stop (suc f) buf q = rw (q, drain)

drain_step :
    (f : ℕ) (buf packet rest : List ℕ)
    → read buf ≡ some (packet, rest)
    → drain (suc f) buf ≡ (packet ∷ (drain f rest).0, (drain f rest).1)
unfolding drain
drain_step f buf packet rest q = rw (q, drain)

read_short : (buf : List ℕ) → length buf ≤ 0 → read buf ≡ none
read_short [] h = read_nil
read_short (b ∷ buf) h = absurd (omega arith)

drain_fuel : (f g : ℕ) (buf : List ℕ) → length buf ≤ f → length buf ≤ g → drain f buf ≡ drain g buf
drain_fuel zero g buf hf hg =
    drain_stop zero buf (read_short buf hf) ∙ sym (drain_stop g buf (read_short buf hf))
drain_fuel (suc f) zero buf hf hg =
    drain_stop (suc f) buf (read_short buf hg) ∙ sym (drain_stop zero buf (read_short buf hg))
drain_fuel (suc f) (suc g) buf hf hg = elim (Option-cases (read buf)) [
  | inl q ↦ drain_stop (suc f) buf q ∙ sym (drain_stop (suc g) buf q)
  | inr ((packet, rest), q) ↦
      let smaller = read_shrinks buf packet rest q in
      let ih = drain_fuel f g rest (omega (arith, smaller)) (omega (arith, smaller)) in
      rw (drain_step f buf packet rest q, drain_step g buf packet rest q, ih)
]

drain_left : (f : ℕ) (buf : List ℕ) → length (drain f buf).1 ≤ length buf
drain_left zero buf = unfold drain in omega arith
drain_left (suc f) buf = elim (Option-cases (read buf)) [
  | inl q ↦ rw (drain_stop (suc f) buf q) (omega arith)
  | inr ((packet, rest), q) ↦
      rw (drain_step f buf packet rest q)
        (omega (arith, read_shrinks buf packet rest q, drain_left f rest))
]

-- The packets of one buffer, then those of the bytes left of it with `more` behind them.
abbrev then_drain : ℕ → List (List ℕ) × List ℕ → List ℕ → List (List ℕ) × List ℕ
then_drain fuel r more = let next = drain fuel (r.1 ++ more) in (r.0 ++ next.0, next.1)

drain-append :
    (f : ℕ) (buf more : List ℕ)
    → length buf + length more ≤ f
    → drain f (buf ++ more) ≡ then_drain f (drain f buf) more
drain-append zero buf more h = unfold drain in refl
drain-append (suc f) buf more h = elim (Option-cases (read buf)) [
  | inl q ↦ rw (drain_stop (suc f) buf q)
  | inr ((packet, rest), q) ↦
      let smaller = read_shrinks buf packet rest q in
      let left = (drain f rest).1 in
      let ih = drain-append f rest more (omega (arith, smaller)) in
      let sizes = length-append left more in
      let same : drain f (left ++ more) ≡ drain (suc f) (left ++ more) =
        drain_fuel f (suc f) (left ++ more) (omega (arith, sizes, smaller, drain_left f rest))
          (omega (arith, sizes, smaller, drain_left f rest)) in
      rw (
        drain_step f (buf ++ more) packet (rest ++ more) (read-append buf packet rest more q),
        drain_step f buf packet rest q,
        ih,
        same,
      )
]

abbrev pub flat : List (List ℕ) → List ℕ
flat [] = []
flat (c ∷ cs) = c ++ flat cs

-- The packets that the calls of `Read` return, and the bytes left in the buffer, are those of the
-- whole stream read at once: they do not depend on how the stream is cut into chunks.
pub feed-drain :
    (chunks : List (List ℕ)) (buf : List ℕ)
    → feed buf chunks ≡ drain (length (buf ++ flat chunks)) (buf ++ flat chunks)
unfolding feed write
feed-drain [] buf = rw (append-nil buf)
feed-drain (chunk ∷ chunks) buf =
    let more = chunk ++ flat chunks in
    let n = length (buf ++ more) in
    let left = (drain (length buf) buf).1 in
    let sizes = length-append buf more in
    let sizes' = length-append left more in
    let shorter = drain_left (length buf) buf in
    let e : left ++ chunk ++ flat chunks ≡ left ++ more = append_assoc left chunk (flat chunks) in
    let rest : feed (left ++ chunk) chunks ≡ drain n (left ++ more) =
      feed-drain chunks (left ++ chunk)
      ∙ ap (λ l. drain (length l) l) e
      ∙ drain_fuel (length (left ++ more)) n (left ++ more) (omega arith)
          (omega (arith, sizes, sizes', shorter)) in
    let whole : drain n (buf ++ more) ≡ then_drain n (drain n buf) more =
      drain-append n buf more (omega (arith, sizes)) in
    let same : drain n buf ≡ drain (length buf) buf =
      drain_fuel n (length buf) buf (omega (arith, sizes)) (omega arith) in
    rw (rest, whole, same)

-- A packet whose first bytes announce its own length.
abbrev pub IsFrame : List ℕ → Type 0
IsFrame packet = total_len packet ≡ some (length packet)

read_frame : (packet rest : List ℕ) → IsFrame packet → read (packet ++ rest) ≡ some (packet, rest)
unfolding read
read_frame packet rest h =
    let long : ltb (length (packet ++ rest)) (length packet) ≡ false =
      ground (arith, length-append packet rest) in
    rw
      (total_len-append packet rest h, long, take-append packet rest, drop-append packet rest, read)

drain_frames :
    (f : ℕ) (packets : List (List ℕ)) (tail : List ℕ)
    → All IsFrame packets
    → read tail ≡ none
    → length (flat packets ++ tail) ≤ f
    → drain f (flat packets ++ tail) ≡ (packets, tail)
drain_frames f [] tail h t le = drain_stop f tail t
drain_frames zero (p ∷ packets) tail h t le = absurd (
    omega (
      arith,
      total_len-ge p h.0,
      length-append (p ++ flat packets) tail,
      length-append p (flat packets),
    ))
drain_frames (suc f) (p ∷ packets) tail h t le =
    let rest = flat packets ++ tail in
    let e : p ++ flat packets ++ tail ≡ p ++ rest = append_assoc p (flat packets) tail in
    let ih =
      drain_frames f packets tail h.1 t
        (omega (arith, ap length e, length-append p rest, total_len-ge p h.0)) in
    rw (e, drain_step f (p ++ rest) p rest (read_frame p rest h.0), ih)

-- Where the chunks make up a stream of frames and an incomplete rest, the calls of `Read` return
-- exactly the frames, in order, and the rest is left in the buffer.
pub feed_frames :
    (chunks packets : List (List ℕ)) (tail : List ℕ)
    → All IsFrame packets
    → read tail ≡ none
    → flat chunks ≡ flat packets ++ tail
    → feed [] chunks ≡ (packets, tail)
feed_frames chunks packets tail h t e =
    feed-drain chunks []
    ∙ ap (λ l. drain (length l) l) e
    ∙ drain_frames (length (flat packets ++ tail)) packets tail h t (omega arith)

-- The bytes that `Encode` makes are such a packet.
pub framed-IsFrame :
    (header body : List ℕ)
    → 10 + length header + length body < 2 ^ 32
    → IsFrame (framed (length header) (length body) header body)
unfolding framed be16 be32 total_len
framed-IsFrame header body h = ap some (omega (arith, length-append header body))
