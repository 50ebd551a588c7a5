-- ===== src/Tests/Rpc.antt =====
-- sonnet-rpc-v2 on small inputs.
use mathlib.Core.Logic.{if_pos, if_neg}
use sonnet_pro.Prelude.Int.{ℤ, pos, ◌-ℤ◌}
use sonnet_pro.Prelude.{
  ℕ, List, [], ◌∷◌, ◌++◌, ◌≡◌, ◌<◌, ◌≤◌, refl, arith, Option, none, some, true, false, Bool, All,
  codes, get_elem?, ◌+◌, ◌*◌, leb, sym, ap, ◌∙◌, ite, ℕ_discrete,
}
use sonnet_pro.Rpc.Breaker.{Breaker, open_state, half_open, closed, new_breaker, record_failure}
use sonnet_pro.Rpc.Breaker.Laws
use sonnet_pro.Rpc.Breaker.Traces
use sonnet_pro.Rpc.Breaker.Traces.{ask, fail, succeed, run}
use sonnet_pro.Rpc.Limiter.{TokenBucket}
use sonnet_pro.Rpc.Limiter.Laws.{tick, request, allowed, ticks, allowed-le}
use sonnet_pro.Rpc.Balance.{
  Instance, chosen, WeightedRr, new_weighted, select_rr, select_weighted, scan, finish, sub_at,
}
use sonnet_pro.Rpc.Balance.RoundRobin.{turn, turns, select_rr-turn}
use sonnet_pro.Rpc.Balance.Weighted
use sonnet_pro.Rpc.Balance.Weighted.{Picks, sum}
use sonnet_pro.Rpc.Protocol.{
  Header, Codecs, Compression, gzip, ok, compress, encode, decode, be16, be32,
}
use sonnet_pro.Rpc.Protocol.Frames.{framed}
use sonnet_pro.Rpc.Protocol.RoundTrip.{IsText, is_utf8, IsLawful, decode-encode}
use sonnet_pro.Rpc.Packets.{total_len, read, drain, feed, write}
use sonnet_pro.Rpc.Packets.Stream.{feed-drain, feed_frames}

-- A rate of six in ten or more trips.
abbrev trips : ℕ → ℕ → Bool
trips failures total = leb (6 * total) (10 * failures)

abbrev opened : Breaker
opened = record {
  state = open_state;
  failure_count = 0;
  success_count = 0;
  window_size = 3;
  open_timeout = 50;
  last_change = 100;
  half_open_probe = false;
}

abbrev probing : Breaker
probing = record opened { state = half_open; half_open_probe = true }

abbrev fresh : Breaker
fresh = record opened { state = closed }

run-open_state_example :
    ((run trips (ask 110 ∷ fail 120 ∷ ask 150 ∷ []) opened).0 ≡ opened)
    × All (λ a. a ≡ false) (run trips (ask 110 ∷ fail 120 ∷ ask 150 ∷ []) opened).1
run-open_state_example =
    Traces.run-open_state trips (ask 110 ∷ fail 120 ∷ ask 150 ∷ []) opened refl (omega arith)

run-asks_example :
    ((run trips (ask 151 ∷ ask 152 ∷ ask 999 ∷ []) opened).1 ≡ true ∷ true ∷ false ∷ [])
    × ((run trips (ask 151 ∷ ask 152 ∷ ask 999 ∷ []) opened).0.state ≡ half_open)
run-asks_example = Traces.run-asks trips opened 151 152 (999 ∷ []) refl (omega arith)

record_failure-IsValid_example : Laws.IsValid (record_failure trips 5 (new_breaker 0 10 50))
record_failure-IsValid_example =
    Laws.record_failure-IsValid trips 5 (new_breaker 0 10 50) (Laws.new_breaker-IsValid 0 10 50)

abbrev bucket : TokenBucket
bucket = record { tokens = 2; rate = 2 }

allowed-le_example :
    allowed (request ∷ request ∷ request ∷ tick ∷ request ∷ []) bucket
    ≤ 2 + ticks (request ∷ request ∷ request ∷ tick ∷ request ∷ []) * 2
allowed-le_example = allowed-le (request ∷ request ∷ request ∷ tick ∷ request ∷ []) bucket

abbrev servers : List Instance
servers =
    record { addr = codes "a" } ∷ record { addr = codes "b" } ∷ record { addr = codes "c" } ∷ []

select_rr-turn_example :
    (x : Instance) × (get_elem? servers (turn 1 5 servers) ≡ some x)
    × ((select_rr (turns 1 5 servers) servers).1 ≡ chosen x)
    × ((m : ℕ) → m < 3 → turn m 5 servers ≡ turn 1 5 servers → m ≡ 1)
select_rr-turn_example = select_rr-turn 5 1 servers (omega arith) (omega arith)

abbrev weights : List ℤ
weights = pos 5 ∷ pos 1 ∷ pos 1 ∷ []

balancer : WeightedRr
balancer = new_weighted weights

balancer-IsValid : Weighted.IsValid balancer
unfolding balancer
balancer-IsValid = Weighted.new_weighted-IsValid weights (omega arith)

select_weighted-IsValid_example :
    Picks balancer servers × Weighted.IsValid (select_weighted balancer servers).0
unfolding balancer new_weighted
select_weighted-IsValid_example =
    Weighted.select_weighted-IsValid balancer servers balancer-IsValid refl (λ e. cc)

weighted : Unit {0}
unfolding select_weighted new_weighted sub_at scan finish ◌-ℤ◌
weighted = tt

abbrev after : ℕ → WeightedRr → WeightedRr
after ℕ.zero w = w
after (ℕ.suc n) w = after n (select_weighted w servers).0

weighted_round :
    ((select_weighted (after 0 balancer) servers).1 ≡ chosen (record { addr = codes "a" }))
    × ((select_weighted (after 2 balancer) servers).1 ≡ chosen (record { addr = codes "b" }))
    × ((select_weighted (after 4 balancer) servers).1 ≡ chosen (record { addr = codes "c" }))
unfolding weighted balancer
weighted_round = (refl, refl, refl)

abbrev head : Header
head = record {
  request_id = 7;
  service_name = codes "S";
  method_name = codes "M";
  error = [];
  codec_type = 1;
  compression = gzip;
}

Compression-discrete : Discrete Compression
Compression-discrete = hlevel ℕ_discrete

Header-discrete : Discrete Header
Header-discrete = hlevel (ℕ_discrete, Compression-discrete)

-- A codec for this one header, and a compressor that adds a byte.
abbrev drop_first : List ℕ → Option (List ℕ)
drop_first [] = none
drop_first (x ∷ xs) = some xs

abbrev sample : Codecs
sample = record {
  marshal = λ h. ite (Header-discrete h head) (some (123 ∷ 125 ∷ [])) none;
  unmarshal = λ bytes. some head;
  deflate = λ body. some (0 ∷ body);
  inflate = drop_first;
}

sample-IsLawful : IsLawful sample
sample-IsLawful = record {
  reads_back = λ h bytes text e. elim (Header-discrete h head) [
    | yes p ↦ ap some (sym p)
    | no p ↦ absurd (let q = sym (if_neg (Header-discrete h head) p _ _) in cc (q ∙ e))
  ];
  restores = λ body bytes e. ground arith;
}

-- "é", and a byte that starts nothing.
utf8_test : (is_utf8 (0xC3 ∷ 0xA9 ∷ []) ≡ true) × (is_utf8 (0x80 ∷ []) ≡ false)
utf8_test = (refl, refl)

head-IsText : IsText head
head-IsText = record {
  id = omega arith;
  service = refl;
  method = refl;
  error = refl;
  codec = omega arith;
  compression = refl;
}

sample-marshal : sample.marshal head ≡ some (123 ∷ 125 ∷ [])
sample-marshal = if_pos (Header-discrete head head) refl _ _

decode-encode_example :
    (bytes : List ℕ) × (encode sample (record { header = some head; body = 1 ∷ 2 ∷ [] }) ≡ ok bytes)
    × (decode sample (bytes ++ 9 ∷ []) ≡ ok (record { header = some head; body = 1 ∷ 2 ∷ [] }))
unfolding compress
decode-encode_example =
    decode-encode sample sample-IsLawful head (1 ∷ 2 ∷ []) (123 ∷ 125 ∷ []) (0 ∷ 1 ∷ 2 ∷ [])
      (9 ∷ []) head-IsText sample-marshal refl (omega arith)

abbrev packet : List ℕ
packet = 18 ∷ 52 ∷ 0 ∷ 0 ∷ 0 ∷ 2 ∷ 0 ∷ 0 ∷ 0 ∷ 1 ∷ 123 ∷ 125 ∷ 9 ∷ []

packet_bytes : framed 2 1 (123 ∷ 125 ∷ []) (9 ∷ []) ≡ packet
unfolding framed be16 be32
packet_bytes = refl

chunks_test :
    feed [] ((18 ∷ 52 ∷ 0 ∷ []) ∷ (0 ∷ 0 ∷ 2 ∷ 0 ∷ 0 ∷ 0 ∷ 1 ∷ 123 ∷ 125 ∷ 9 ∷ 18 ∷ []) ∷ [])
    ≡ (packet ∷ [], 18 ∷ [])
unfolding feed drain read write total_len
chunks_test = refl

feed-drain_example :
    feed [] ((18 ∷ 52 ∷ 0 ∷ []) ∷ (0 ∷ 0 ∷ 2 ∷ []) ∷ []) ≡ drain 6 (18 ∷ 52 ∷ 0 ∷ 0 ∷ 0 ∷ 2 ∷ [])
feed-drain_example = feed-drain ((18 ∷ 52 ∷ 0 ∷ []) ∷ (0 ∷ 0 ∷ 2 ∷ []) ∷ []) []

feed_frames_example :
    feed [] ((18 ∷ 52 ∷ 0 ∷ []) ∷ (0 ∷ 0 ∷ 2 ∷ 0 ∷ 0 ∷ 0 ∷ 1 ∷ 123 ∷ 125 ∷ 9 ∷ 18 ∷ []) ∷ [])
    ≡ (packet ∷ [], 18 ∷ [])
unfolding total_len read
feed_frames_example =
    feed_frames ((18 ∷ 52 ∷ 0 ∷ []) ∷ (0 ∷ 0 ∷ 2 ∷ 0 ∷ 0 ∷ 0 ∷ 1 ∷ 123 ∷ 125 ∷ 9 ∷ 18 ∷ []) ∷ [])
      (packet ∷ []) (18 ∷ []) (refl, tt) refl refl
