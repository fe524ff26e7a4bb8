-- ===== src/Network/Jitter.antt =====
-- common/network/WHAJitterBuffer.h: the receiver's queues, one for each Network Stream.
pub mod Fifo
use win_hook_audio.Prelude.{
  ℕ, zero, suc, ◌+◌, ◌*◌, ◌/◌, Bool, true, false, not, ◌&&◌, ◌||◌, Option, none, some, List, [],
  ◌∷◌, ◌++◌, ltb, leb, ◌==◌, if◌then◌else◌, get_or, set, take, replicate, length,
}
use win_hook_audio.Prelude.Words.{u64, sub64}
use win_hook_audio.Table.Data.{k_net_streams}
use win_hook_audio.Network.Packet.{
  PacketHeader, is_valid_network_channels, is_valid_whaa_codec, k_whaa_max_payload,
}

pub record JitterPacket : Type 0 where
  pub header : PacketHeader
  pub payload : List ℕ
  pub enqueue_qpc : ℕ

pub record JitterBuffer : Type 0 where
  pub jitter_ms : ℕ
  pub sample_rate : ℕ
  pub queues : List (List JitterPacket)

-- The constructor.
unfoldable pub make : ℕ → ℕ → JitterBuffer
make jitter_ms sample_rate = record {
  jitter_ms = jitter_ms;
  sample_rate = sample_rate;
  queues = replicate k_net_streams [];
}

unfoldable pub set_jitter_ms : JitterBuffer → ℕ → JitterBuffer
set_jitter_ms b ms = record b { jitter_ms = ms }

unfoldable pub set_sample_rate : JitterBuffer → ℕ → JitterBuffer
set_sample_rate b sr = record b { sample_rate = sr }

-- The four guards of `push`.
unfoldable pub admits : PacketHeader → ℕ → Bool
unfolding is_valid_whaa_codec is_valid_network_channels
admits header payload_bytes =
    is_valid_whaa_codec header.codec
    && is_valid_network_channels header.codec header.channels
    && leb payload_bytes k_whaa_max_payload
    && not (leb k_net_streams header.stream_id)

-- The packet that `push` queues.
unfoldable pub packet : PacketHeader → List ℕ → ℕ → ℕ → JitterPacket
packet header payload payload_bytes qpc = record {
  header = header;
  payload = take payload_bytes payload;
  enqueue_qpc = qpc;
}

unfoldable pub push : JitterBuffer → PacketHeader → List ℕ → ℕ → ℕ → JitterBuffer
unfolding admits packet
push b header payload payload_bytes qpc =
    let s = header.stream_id in
    if admits header payload_bytes
    then record b {
      queues =
          set b.queues s (get_or b.queues s [] ++ packet header payload payload_bytes qpc ∷ []);
    }
    else b

-- The packet must wait: the jitter delay has not passed since it was queued.
unfoldable pub held : JitterBuffer → JitterPacket → ℕ → ℕ → Bool
held b p now_qpc qpc_freq =
    not (now_qpc == 0)
    && not (qpc_freq == 0)
    && ltb (sub64 now_qpc p.enqueue_qpc) (u64 (b.jitter_ms * qpc_freq) / 1000)

-- `pop(streamId, out, nowQpc, qpcFreq)`: the packet, when there is one to give, and the buffer.
unfoldable pub pop : JitterBuffer → ℕ → ℕ → ℕ → Option JitterPacket × JitterBuffer
unfolding held
pop b s now_qpc qpc_freq = if leb k_net_streams s then (none, b) else elim (get_or b.queues s []) [
  | [] ↦ (none, b)
  | p ∷ rest ↦
      if held b p now_qpc qpc_freq
      then (none, b)
      else (some p, record b { queues = set b.queues s rest })
]

-- The first stream from `i` on with a packet, with `rounds` left to look at.
unfoldable pub first_waiting :
    List (List JitterPacket) → ℕ → ℕ → Option (ℕ × JitterPacket × List JitterPacket)
first_waiting queues i zero = none
first_waiting queues i (suc rounds) =
    let later = first_waiting queues (i + 1) rounds in
    elim (get_or queues i []) [ [] ↦ later | p ∷ rest ↦ some (i, p, rest) ]

-- `pop(out)`: the oldest packet of the first stream that has one.
unfoldable pub pop_any : JitterBuffer → Option JitterPacket × JitterBuffer
unfolding first_waiting
pop_any b = elim (first_waiting b.queues 0 k_net_streams) [
  | none ↦ (none, b)
  | some (i, p, rest) ↦ (some p, record b { queues = set b.queues i rest })
]

-- The sum of `size()` over some queues.
unfoldable pub total : List (List JitterPacket) → ℕ
total [] = 0
total (q ∷ queues) = length q + total queues

unfoldable pub size : JitterBuffer → ℕ
unfolding total
size b = total b.queues

unfoldable pub stream_size : JitterBuffer → ℕ → ℕ
stream_size b s = if leb k_net_streams s then 0 else length (get_or b.queues s [])

unfoldable pub empty : JitterBuffer → Bool
unfolding size
empty b = size b == 0

unfoldable pub clear : JitterBuffer → JitterBuffer
clear b = record b { queues = replicate k_net_streams [] }
