-- ===== src/Json/General/Values.antt =====
-- common/WHASlotsJson.h: the numbers, strings and the bridge buffers of "general", read as they are
-- written.
use win_hook_audio.Prelude.{
  ℕ, ◌^◌, ◌<◌, ◌≡◌, refl, ap, ◌∙◌, true, false, some, [], ◌∷◌, ◌++◌, leb, length, if◌then◌else◌,
}
use Prim.Native.String.{String}
use win_hook_audio.Prelude.Int.{pos}
use win_hook_audio.Table.Text.{Chars, codes, c_string, truncate_copy}
use win_hook_audio.Table.Data.{k_endpoint_id_len}
use win_hook_audio.Table.Names.{decimal}
use win_hook_audio.Json.{
  eq_text, skip_ws, expect, lbracket, rbracket, escape_json_string, parse_string, parse_uint,
}
use win_hook_audio.Json.Strings.{parse_string-escape_json_string}
use win_hook_audio.Json.Numbers.{is_number_end, parse_uint-decimal}
use win_hook_audio.Json.Arrays.{from}
use win_hook_audio.Json.Objects.{ok, lift, bind, ◌>>=◌, or_fail, fail}
use win_hook_audio.Json.Objects.Chains.{ReadsTo}
use win_hook_audio.Json.Objects.Entries.{fixed_list-entries}
use win_hook_audio.Json.Objects.Steps.{or_fail-read}
use win_hook_audio.Json.Writer.{number, entries}
use win_hook_audio.Json.General.Lists.{bridge_values}
use win_hook_audio.Json.General.{
  uint, short_string, bridge_array, general_member, number_member, string_member, list_member,
}
use win_hook_audio.Json.General.State.{
  GeneralParse, put_virtual_name, put_render_id, put_capture_id, put_bridge_buffer,
}

pub uint-number :
    {S : Type 0} (e : String) (put : ℕ → S) (n : ℕ) (rest : Chars)
    → n < 2 ^ 32
    → is_number_end rest ≡ true
    → uint e put (number n rest) ≡ ok (put n) rest
unfolding number
uint-number e put n rest h end =
    or_fail-read e parse_uint (λ v. ok (put v)) (decimal (pos n) ++ rest) rest n
      (parse_uint-decimal n rest h end)

short_string-escape :
    (e too_long : String) (limit : ℕ) (v rest : Chars)
    → leb limit (length v) ≡ false
    → short_string e too_long limit (escape_json_string v ++ rest) ≡ ok v rest
unfolding short_string
short_string-escape e too_long limit v rest h =
    or_fail-read e parse_string (λ w. if leb limit (length w) then fail too_long else ok w)
      (escape_json_string v ++ rest) rest v (parse_string-escape_json_string v rest)
    ∙ rw h refl

-- The string in an array of `n` places, shorter than it, with zeros after it.
pub record IsPadded (n : ℕ) (place : Chars) : Type 0 where
  pub shorter : leb n (length (c_string place)) ≡ false
  pub padded : truncate_copy [] n (some (c_string place)) ≡ place

abbrev pub write_string : Chars → Chars → Chars
write_string place rest = escape_json_string (c_string place) ++ rest

module _ {Quality : Type 0} (st : GeneralParse Quality) (place : Chars) where
  pub virtual_name-reads :
      IsPadded 32 place
      → ReadsTo general_member
          (codes "virtualName")
          (write_string place)
          st
          (put_virtual_name st place)
  unfolding general_member number_member string_member truncate_copy eq_text
  virtual_name-reads h rest e =
      ap (λ r. bind r (λ v. ok (put_virtual_name st (truncate_copy [] 32 (some v)))))
        (short_string-escape "virtualName" "virtualName too long" 32 (c_string place) rest
          h.shorter)
      ∙ ap (λ p. ok (put_virtual_name st p) rest) h.padded

  pub render_id-reads :
      IsPadded k_endpoint_id_len place
      → ReadsTo general_member (codes "hwRenderId") (write_string place) st (put_render_id st place)
  unfolding general_member number_member string_member truncate_copy eq_text
  render_id-reads h rest e =
      ap (λ r. bind r (λ v. ok (put_render_id st (truncate_copy [] 64 (some v)))))
        (short_string-escape "hwRenderId" "endpoint id too long" 64 (c_string place) rest h.shorter)
      ∙ ap (λ p. ok (put_render_id st p) rest) h.padded

  pub capture_id-reads :
      IsPadded k_endpoint_id_len place
      → ReadsTo general_member
          (codes "hwCaptureId")
          (write_string place)
          st
          (put_capture_id st place)
  unfolding general_member number_member string_member truncate_copy eq_text
  capture_id-reads h rest e =
      ap (λ r. bind r (λ v. ok (put_capture_id st (truncate_copy [] 64 (some v)))))
        (short_string-escape "hwCaptureId" "endpoint id too long" 64 (c_string place) rest
          h.shorter)
      ∙ ap (λ p. ok (put_capture_id st p) rest) h.padded

-- "bridgeBuffer" with the values `f 0` to `f 3`.
abbrev pub write_bridge : (ℕ → ℕ) → Chars → Chars
write_bridge f rest = lbracket ∷ entries (λ i. number (f i)) 4 0 (rbracket ∷ rest)

module _ {Quality : Type 0} (st : GeneralParse Quality) (f : ℕ → ℕ)
    (range : (i : ℕ) → f i < 2 ^ 32) where
  bridge_values-entries :
      (rest : Chars)
      → bridge_values 4 (entries (λ i. number (f i)) 4 0 (rbracket ∷ rest))
        ≡ ok (from f 4 0) (rbracket ∷ rest)
  unfolding bridge_values number
  bridge_values-entries =
      fixed_list-entries (or_fail "bridgeBuffer val" parse_uint) "bridgeBuffer ,"
        (λ i. number (f i)) f
        (λ i rest end. ap (lift "bridgeBuffer val") (parse_uint-decimal (f i) rest (range i) end)) 4

  pub bridge_buffer-reads :
      ReadsTo general_member
        (codes "bridgeBuffer")
        (write_bridge f)
        st
        (put_bridge_buffer st (from f 4 0))
  unfolding general_member number_member string_member list_member bridge_array eq_text expect
      skip_ws
  bridge_buffer-reads rest e =
      ap
        (λ r.
          bind (bind r λ vs. or_fail "bridgeBuffer ]" (expect rbracket) >>= λ _. ok vs)
            λ vs. ok (put_bridge_buffer st vs))
        (bridge_values-entries rest)
