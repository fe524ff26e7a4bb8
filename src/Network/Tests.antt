-- ===== src/Network/Tests.antt =====
-- common/WHAPacket.h and common/network/WHAJitterBuffer.h: the model on concrete packets.
use win_hook_audio.Prelude.{◌≡◌, ◌↔◌, refl, arith, none, List, [], ◌∷◌, ◌++◌, length, map}
use win_hook_audio.Prelude.Int.{negsuc}
use win_hook_audio.Network.Payload.{i16_bytes, i16_of_bytes}
use win_hook_audio.Network.Packet.{PacketHeader, validate_whaa_header}
use win_hook_audio.Network.Packet.Accept.{Accepted, validate_whaa_header_lem}
use win_hook_audio.Network.Jitter.{make}
use win_hook_audio.Network.Jitter.Fifo.{
  Op, push_op, pop_op, delivered_by, accepted_by, run, queue, run-fifo,
}

-- Two channels of 64 float frames on stream 3.
abbrev header : PacketHeader
header = record {
  magic = 1094797399;
  version = 5;
  packet_type = 0;
  codec = 0;
  channels = 2;
  frames = 64;
  stream_id = 3;
  sequence = 9;
  qpc = 0;
  payload_bytes = 512;
}

validate_whaa_header_example : (validate_whaa_header header ≡ none) ↔ Accepted header
validate_whaa_header_example = validate_whaa_header_lem header

header_passes : validate_whaa_header header ≡ none
unfolding validate_whaa_header
header_passes = refl

abbrev calls : List Op
calls =
    push_op header (1 ∷ 2 ∷ []) 2 1000
    ∷ push_op header (3 ∷ []) 1 1500
    ∷ pop_op 3 1010 1000
    ∷ pop_op 3 1030 1000
    ∷ []

sized : length (make 20 48000).queues ≡ 8
unfolding make
sized = refl

run-fifo_example :
    delivered_by 3 (make 20 48000) calls ++ queue (run (make 20 48000) calls) 3
    ≡ queue (make 20 48000) 3 ++ accepted_by 3 calls
run-fifo_example = run-fifo (make 20 48000) calls 3 sized (omega arith)

-- The first pop comes within the jitter delay and the second after it.
one_delivered : map (λ p. p.payload) (delivered_by 3 (make 20 48000) calls) ≡ (1 ∷ 2 ∷ []) ∷ []
unfolding delivered_by make
one_delivered = refl

minus_two : i16_bytes (negsuc 1) ≡ 254 ∷ 255 ∷ []
unfolding i16_bytes
minus_two = refl

minus_two_back : i16_of_bytes 254 255 ≡ negsuc 1
unfolding i16_of_bytes
minus_two_back = refl
