-- ===== src/Json/Streams/RoundTrip.antt =====
-- common/WHASlotsJson.h: what `NetworkStreamToJson` writes is read back by `ParseNetworkStream`.
use win_hook_audio.Prelude.{
  ℕ, suc, ◌^◌, ◌%◌, ◌<◌, ◌≡◌, refl, ap, ◌∙◌, true, false, Option, some, [], ◌∷◌, ◌++◌, leb, length,
  arith,
}
use win_hook_audio.Prelude.Int.{pos}
use win_hook_audio.Table.Text.{Chars, codes, c_string}
use win_hook_audio.Table.Data.{NetworkStream}
use win_hook_audio.Table.Names.{decimal}
use win_hook_audio.Json.{
  escape_byte, escape_bytes, eq_text, escape_json_string, expect, comma, rbrace, parse_string,
  parse_uint, parse_float, skip_ws, with_rest,
}
use win_hook_audio.Json.Strings.{parse_string-escape_json_string}
use win_hook_audio.Json.Numbers.{is_number_end, parse_uint-decimal}
use win_hook_audio.Json.Decimals.{IsDecimalText, parse_float-decimal}
use win_hook_audio.Json.Objects.{ok, bind, members, object}
use win_hook_audio.Json.Objects.Steps.{or_fail-read, members-comma, members-last}
use win_hook_audio.Json.Streams.{
  StreamParse, network_stream_to_json, stream_member, new_stream, stream_messages, put_ip, put_port,
  put_codec, put_quality, put_channels, finish_stream, parse_network_stream, copy_ip,
}

module _ {Quality : Type 0} (quality_text : Quality → Chars) (stof : Chars → Option Quality) where
  -- A stream as the program keeps it: numbers of its widths, an address shorter than its array with
  -- zeros after it, and a quality that its text without an exponent keeps.
  pub record IsStream (n : NetworkStream Quality) : Type 0 where
    pub ip_range : length (c_string n.ip) < 16
    pub ip_padded : copy_ip (c_string n.ip) ≡ n.ip
    pub port_range : n.port < 2 ^ 16
    pub codec_range : n.codec < 2 ^ 32
    pub quality_form : IsDecimalText (quality_text n.quality)
    pub quality_kept : stof (quality_text n.quality) ≡ some n.quality
    pub channels_range : n.channels < 2 ^ 32

module _ {Quality : Type 0} (stof : Chars → Option Quality) (default_quality : Quality) where
  -- Each member, with text after its value that ends a number.
  ip_member :
      (st : StreamParse Quality) (v rest : Chars)
      → stream_member stof default_quality (codes "ip") st (escape_json_string v ++ rest)
        ≡ ok (put_ip st v) rest
  unfolding stream_member eq_text
  ip_member st v rest =
      or_fail-read "net ip parse" parse_string (λ w. ok (put_ip st w))
        (escape_json_string v ++ rest) rest v (parse_string-escape_json_string v rest)

  port_member :
      (st : StreamParse Quality) (n : ℕ) (rest : Chars)
      → n < 2 ^ 16
      → is_number_end rest ≡ true
      → stream_member stof default_quality (codes "port") st (decimal (pos n) ++ rest)
        ≡ ok (put_port st n) rest
  unfolding stream_member eq_text
  port_member st n rest h e =
      or_fail-read "net port parse" parse_uint (λ v. ok (put_port st v)) (decimal (pos n) ++ rest)
        rest n (parse_uint-decimal n rest (omega arith) e)

  codec_member :
      (st : StreamParse Quality) (n : ℕ) (rest : Chars)
      → n < 2 ^ 32
      → is_number_end rest ≡ true
      → stream_member stof default_quality (codes "codec") st (decimal (pos n) ++ rest)
        ≡ ok (put_codec st n) rest
  unfolding stream_member eq_text
  codec_member st n rest h e =
      or_fail-read "net codec parse" parse_uint (λ v. ok (put_codec st v)) (decimal (pos n) ++ rest)
        rest n (parse_uint-decimal n rest h e)

  channels_member :
      (st : StreamParse Quality) (n : ℕ) (rest : Chars)
      → n < 2 ^ 32
      → is_number_end rest ≡ true
      → stream_member stof default_quality (codes "channels") st (decimal (pos n) ++ rest)
        ≡ ok (put_channels st n) rest
  unfolding stream_member eq_text
  channels_member st n rest h e =
      or_fail-read "net channels parse" parse_uint (λ v. ok (put_channels st v))
        (decimal (pos n) ++ rest) rest n (parse_uint-decimal n rest h e)

  quality_member :
      (st : StreamParse Quality) (q : Quality) (text rest : Chars)
      → IsDecimalText text
      → stof text ≡ some q
      → stream_member stof default_quality (codes "quality") st (text ++ comma ∷ rest)
        ≡ ok (put_quality st q) (comma ∷ rest)
  unfolding stream_member eq_text
  quality_member st q text rest form kept =
      or_fail-read "net quality parse" (parse_float stof) (λ v. ok (put_quality st v))
        (text ++ comma ∷ rest) (comma ∷ rest) q
        (parse_float-decimal stof text rest form ∙ ap (λ o. with_rest o (comma ∷ rest)) kept)

module _ {Quality : Type 0} (quality_text : Quality → Chars) (stof : Chars → Option Quality)
    (default_quality : Quality) (n : NetworkStream Quality) (rest : Chars) where
  -- What is written from each member on.
  channels_text : Chars
  unfolding decimal
  channels_text = codes "\"channels\":" ++ (decimal (pos n.channels) ++ rbrace ∷ rest)

  quality_member_text : Chars
  unfolding channels_text
  quality_member_text = codes "\"quality\":" ++ (quality_text n.quality ++ comma ∷ channels_text)

  codec_text : Chars
  unfolding quality_member_text decimal
  codec_text = codes "\"codec\":" ++ (decimal (pos n.codec) ++ comma ∷ quality_member_text)

  port_text : Chars
  unfolding codec_text decimal
  port_text = codes "\"port\":" ++ (decimal (pos n.port) ++ comma ∷ codec_text)

  -- The local variables after the members.
  stream_state : StreamParse Quality
  unfolding new_stream put_ip put_port
  stream_state =
      put_channels
        (put_quality
          (put_codec (put_port (put_ip (new_stream stof default_quality) (c_string n.ip)) n.port)
            n.codec)
          n.quality)
        n.channels

  members-stream :
      (fuel : ℕ)
      → IsStream quality_text stof n
      → members stream_messages
          (stream_member stof default_quality)
          (suc (suc (suc (suc (suc (suc fuel))))))
          (new_stream stof default_quality)
          (codes "\"ip\":" ++ (escape_json_string (c_string n.ip) ++ comma ∷ port_text))
        ≡ ok stream_state rest
  unfolding escape_json_string escape_bytes escape_byte channels_text quality_member_text codec_text
      port_text stream_state
  members-stream fuel h =
      let member = stream_member stof default_quality in
      let st0 = new_stream stof default_quality in
      let st1 = put_ip st0 (c_string n.ip) in
      let st2 = put_port st1 n.port in
      let st3 = put_codec st2 n.codec in
      let st4 = put_quality st3 n.quality in
      members-comma stream_messages member (suc (suc (suc (suc (suc fuel))))) (codes "ip")
        (escape_json_string (c_string n.ip) ++ comma ∷ port_text) st0 st1 port_text
        (ip_member stof default_quality st0 (c_string n.ip) (comma ∷ port_text))
      ∙ members-comma stream_messages member (suc (suc (suc (suc fuel)))) (codes "port")
          (decimal (pos n.port) ++ comma ∷ codec_text) st1 st2 codec_text
          (port_member stof default_quality st1 n.port (comma ∷ codec_text) h.port_range refl)
      ∙ members-comma stream_messages member (suc (suc (suc fuel))) (codes "codec")
          (decimal (pos n.codec) ++ comma ∷ quality_member_text) st2 st3 quality_member_text
          (codec_member stof default_quality st2 n.codec (comma ∷ quality_member_text) h.codec_range
            refl)
      ∙ members-comma stream_messages member (suc (suc fuel)) (codes "quality")
          (quality_text n.quality ++ comma ∷ channels_text) st3 st4 channels_text
          (quality_member stof default_quality st3 n.quality (quality_text n.quality) channels_text
            h.quality_form h.quality_kept)
      ∙ members-last stream_messages member fuel (codes "channels")
          (decimal (pos n.channels) ++ rbrace ∷ rest) st4 stream_state rest
          (channels_member stof default_quality st4 n.channels (rbrace ∷ rest) h.channels_range
            refl)

same_stream :
    {Quality : Type 0} (n : NetworkStream Quality) (ip : Chars) (port : ℕ)
    → ip ≡ n.ip
    → port ≡ n.port
    → record n { ip = ip; port = port } ≡ n
same_stream n ip port i p =
    ap (λ v. record n { ip = v; port = port }) i ∙ ap (λ v. record n { port = v }) p

short_ip : (n : ℕ) → n < 16 → leb 16 n ≡ false
short_ip n h = ground arith

module _ {Quality : Type 0} (quality_text : Quality → Chars) (stof : Chars → Option Quality)
    (default_quality : Quality) (n : NetworkStream Quality) (rest : Chars)
    (h : IsStream quality_text stof n) where
  finish_stream-stream_state :
      finish_stream (stream_state quality_text stof default_quality n rest) rest ≡ ok n rest
  unfolding finish_stream stream_state put_ip put_port new_stream
  finish_stream-stream_state = rw (short_ip (length (c_string n.ip)) h.ip_range) (
      ap (λ v. ok v rest)
        (same_stream n (copy_ip (c_string n.ip)) (n.port % 2 ^ 16) h.ip_padded
          (omega (arith, h.port_range))))

  -- ParseNetworkStream on what NetworkStreamToJson wrote for a stream as the program keeps it, whose
  -- quality is the number that its text stands for, with any text after it, gives that stream and
  -- leaves that text.
  pub parse_network_stream-to_json :
      parse_network_stream stof default_quality (network_stream_to_json quality_text n rest)
      ≡ ok n rest
  unfolding parse_network_stream network_stream_to_json object expect skip_ws channels_text
      quality_member_text codec_text port_text escape_json_string
  parse_network_stream-to_json =
      ap (λ r. bind r finish_stream)
        (members-stream quality_text stof default_quality n rest
          (suc (
            length (
              (escape_bytes (c_string n.ip) ++ 34 ∷ [])
              ++ comma ∷ port_text quality_text stof default_quality n rest)))
          h)
      ∙ finish_stream-stream_state
