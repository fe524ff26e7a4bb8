-- ===== src/Json/Streams.antt =====
-- common/WHASlotsJson.h: a network stream of slots.json, written by `NetworkStreamToJson` and read by
-- `ParseNetworkStream`. The text of a quality (`%.6g`), `std::stof` and the default quality are
-- arguments.
pub mod RoundTrip
use win_hook_audio.Prelude.{
  ℕ, ◌-◌, ◌%◌, ◌^◌, Bool, true, false, ◌&&◌, ◌||◌, Option, List, [], ◌∷◌, ◌++◌, leb, length, take,
  replicate, if◌then◌else◌,
}
use win_hook_audio.Prelude.Int.{pos}
use Prim.Native.String.{String}
use win_hook_audio.Table.Text.{Chars, codes, c_string}
use win_hook_audio.Table.Data.{NetworkStream}
use win_hook_audio.Table.Names.{decimal}
use win_hook_audio.Table.Defaults.{default_stream}
use win_hook_audio.Json.{
  eq_text, escape_json_string, expect, lbrace, parse_string, parse_uint, parse_float,
}
use win_hook_audio.Json.Objects.{
  Result, ok, failed, Parser, ◌>>=◌, ◌>>◌, run, or_fail, fail, Messages, object,
}

module _ {Quality : Type 0} (quality_text : Quality → Chars) where
  unfoldable pub network_stream_to_json : NetworkStream Quality → Chars → Chars
  unfolding decimal escape_json_string c_string
  network_stream_to_json n rest =
      codes "{\"ip\":"
      ++ (escape_json_string (c_string n.ip)
          ++ (codes ",\"port\":"
              ++ (decimal (pos n.port)
                  ++ (codes ",\"codec\":"
                      ++ (decimal (pos n.codec)
                          ++ (codes ",\"quality\":"
                              ++ (quality_text n.quality
                                  ++ (codes ",\"channels\":"
                                      ++ (decimal (pos n.channels) ++ (codes "}" ++ rest))))))))))

-- The loops that copy an address into `ip`.
unfoldable pub copy_ip : Chars → Chars
copy_ip v = let head = take 15 v in head ++ replicate (16 - length head) 0

-- The local variables of `ParseNetworkStream`.
pub record StreamParse (Quality : Type 0) : Type 0 where
  pub stream : NetworkStream Quality
  pub have_ip : Bool
  pub have_port : Bool
  pub have_codec : Bool
  pub have_quality : Bool
  pub have_channels : Bool
  pub raw_ip_too_long : Bool

abbrev pub stream_messages : Messages
stream_messages = record {
  no_key = "net key parse";
  no_colon = "net expected :";
  no_comma = "net object";
}

module _ {Quality : Type 0} where
  -- The assignments of the members.
  unfoldable pub put_ip : StreamParse Quality → Chars → StreamParse Quality
  unfolding copy_ip
  put_ip st v = record st {
    stream = record (st.stream) { ip = copy_ip v };
    have_ip = true;
    raw_ip_too_long = st.raw_ip_too_long || leb 16 (length v);
  }

  unfoldable pub put_port : StreamParse Quality → ℕ → StreamParse Quality
  put_port st v = record st { stream = record (st.stream) { port = v % 2 ^ 16 }; have_port = true }

  abbrev pub put_codec : StreamParse Quality → ℕ → StreamParse Quality
  put_codec st v = record st { stream = record (st.stream) { codec = v }; have_codec = true }

  abbrev pub put_quality : StreamParse Quality → Quality → StreamParse Quality
  put_quality st v = record st { stream = record (st.stream) { quality = v }; have_quality = true }

  abbrev pub put_channels : StreamParse Quality → ℕ → StreamParse Quality
  put_channels st v = record st {
    stream = record (st.stream) { channels = v };
    have_channels = true;
  }

  -- The tests after the loop.
  unfoldable pub finish_stream : StreamParse Quality → Parser (NetworkStream Quality)
  finish_stream st =
      if st.have_ip && st.have_port && st.have_codec && st.have_quality && st.have_channels
      then (if st.raw_ip_too_long then fail "net ip too long" else ok st.stream)
      else fail "net missing fields"

module _ {Quality : Type 0} (stof : Chars → Option Quality) (default_quality : Quality) where
  unfoldable pub new_stream : StreamParse Quality
  unfolding default_stream
  new_stream = record {
    stream = default_stream default_quality;
    have_ip = false;
    have_port = false;
    have_codec = false;
    have_quality = false;
    have_channels = false;
    raw_ip_too_long = false;
  }

  unfoldable pub stream_member : Chars → StreamParse Quality → Parser (StreamParse Quality)
  unfolding eq_text put_ip put_port parse_string parse_uint parse_float
  stream_member key st =
      if eq_text key (codes "ip")
      then (or_fail "net ip parse" parse_string >>= λ v. ok (put_ip st v))
      else if eq_text key (codes "port")
      then (or_fail "net port parse" parse_uint >>= λ v. ok (put_port st v))
      else if eq_text key (codes "codec")
      then (or_fail "net codec parse" parse_uint >>= λ v. ok (put_codec st v))
      else if eq_text key (codes "quality")
      then (or_fail "net quality parse" (parse_float stof) >>= λ v. ok (put_quality st v))
      else if eq_text key (codes "channels")
      then (or_fail "net channels parse" parse_uint >>= λ v. ok (put_channels st v))
      else fail "net unknown key"

  unfoldable pub parse_network_stream : Parser (NetworkStream Quality)
  unfolding expect object stream_member new_stream finish_stream
  parse_network_stream = do
    or_fail "net expected {" (expect lbrace)
    st ← object stream_messages stream_member new_stream
    finish_stream st
