-- ===== src/Json/Loader/GeneralTotal.antt =====
-- common/WHASlotsJson.h: the parser of "general" leaves no more text than it is given.
use win_hook_audio.Prelude.{ℕ, Bool, true, false, ◌-◌, leb, length}
use Prim.Native.String.{String}
use win_hook_audio.Table.Text.{Chars, codes}
use win_hook_audio.Table.Data.{SlotTable, k_hw_devices, k_virtual_slot_cables, k_endpoint_id_len}
use win_hook_audio.Json.{eq_text, lbrace, lbracket, rbracket}
use win_hook_audio.Json.Objects.{Parser}
use win_hook_audio.Json.General.{
  number_member, string_member, list_member, general_member, have_general, parse_general,
  bridge_array, device_array, mode_array, cable_array, short_string, general_messages, uint,
}
use win_hook_audio.Json.General.State.{GeneralParse, put_table, new_general}
use win_hook_audio.Json.Lengths.{
  Keeps, bind-Keeps, or_fail-Keeps, ok-Keeps, fail-Keeps, if-Keeps, blanks-Keeps,
}
use win_hook_audio.Json.Lengths.Readers.{parse_uint-LeavesNoMore, object-Keeps}
use win_hook_audio.Json.Lengths.Parts.{
  store-Keeps, parse_string-LeavesNoMore, expect-Keeps, bridge_values-Keeps, device_list-Keeps,
  mode_list-Keeps, cable_list-Keeps,
}

pub short_string-Keeps : (e too_long : String) (limit : ℕ) → Keeps (short_string e too_long limit)
unfolding short_string
short_string-Keeps e too_long limit =
    bind-Keeps (or_fail-Keeps e parse_string-LeavesNoMore)
      λ v. if-Keeps (leb limit (length v)) (fail-Keeps too_long) (ok-Keeps v)

pub uint-Keeps : {S : Type 0} (e : String) (put : ℕ → S) → Keeps (uint e put)
uint-Keeps e put = store-Keeps e put parse_uint-LeavesNoMore

pub bridge_array-Keeps : Keeps bridge_array
unfolding bridge_array
bridge_array-Keeps = bind-Keeps (expect-Keeps "bridgeBuffer [" lbracket) λ _.
    bind-Keeps (bridge_values-Keeps 4)
      λ vs. bind-Keeps (expect-Keeps "bridgeBuffer ]" rbracket) λ _. ok-Keeps vs

module _ {Quality : Type 0} where
  pub number_member-Keeps :
      (key : Chars) (st : GeneralParse Quality) {other : Parser (GeneralParse Quality)}
      → Keeps other
      → Keeps (number_member key st other)
  unfolding number_member
  number_member-Keeps key st h =
      if-Keeps (eq_text key (codes "sampleRate")) (uint-Keeps "sampleRate" _) (
        if-Keeps (eq_text key (codes "bitDepth")) (uint-Keeps "bitDepth" _) (
          if-Keeps (eq_text key (codes "asioBuffer")) (uint-Keeps "asioBuffer" _) (
            if-Keeps (eq_text key (codes "hwBuffer")) (uint-Keeps "hwBuffer" _) (
              if-Keeps (eq_text key (codes "virtualBuffer")) (uint-Keeps "virtualBuffer" _) (
                if-Keeps (eq_text key (codes "networkPcmBuffer")) (uint-Keeps "networkPcmBuffer" _)
                  (if-Keeps (eq_text key (codes "networkVorbisBuffer"))
                    (uint-Keeps "networkVorbisBuffer" _)
                    (if-Keeps (eq_text key (codes "jitterPcm")) (uint-Keeps "jitterPcm" _) (
                      if-Keeps (eq_text key (codes "jitterVorbis")) (uint-Keeps "jitterVorbis" _) (
                        if-Keeps (eq_text key (codes "virtualCables"))
                          (uint-Keeps "virtualCables" _) h)))))))))

  pub string_member-Keeps :
      (key : Chars) (st : GeneralParse Quality) {other : Parser (GeneralParse Quality)}
      → Keeps other
      → Keeps (string_member key st other)
  unfolding string_member
  string_member-Keeps key st h =
      let id = λ (e : String). short_string-Keeps e "endpoint id too long" k_endpoint_id_len in
      if-Keeps (eq_text key (codes "virtualName"))
        (bind-Keeps (short_string-Keeps "virtualName" "virtualName too long" 32) λ v. ok-Keeps _)
        (if-Keeps (eq_text key (codes "hwRenderId")) (bind-Keeps (id "hwRenderId") λ v. ok-Keeps _)
          (if-Keeps (eq_text key (codes "hwCaptureId"))
            (bind-Keeps (id "hwCaptureId") λ v. ok-Keeps _) h))

  pub device_array-Keeps :
      (is_input : Bool) (t : SlotTable Quality) → Keeps (device_array is_input t)
  unfolding device_array
  device_array-Keeps is_input t = bind-Keeps (expect-Keeps "HW device list [" lbracket) λ _.
      bind-Keeps blanks-Keeps λ _.
        bind-Keeps (device_list-Keeps is_input (k_hw_devices - 1) t)
          λ u. bind-Keeps (expect-Keeps "HW device list ]" rbracket) λ _. ok-Keeps u

  pub mode_array-Keeps : (is_input : Bool) (t : SlotTable Quality) → Keeps (mode_array is_input t)
  unfolding mode_array
  mode_array-Keeps is_input t = bind-Keeps (expect-Keeps "HW mode list [" lbracket) λ _.
      bind-Keeps blanks-Keeps λ _.
        bind-Keeps (mode_list-Keeps is_input k_hw_devices t)
          λ u. bind-Keeps (expect-Keeps "HW mode list ]" rbracket) λ _. ok-Keeps u

  pub cable_array-Keeps : (t : SlotTable Quality) → Keeps (cable_array t)
  unfolding cable_array
  cable_array-Keeps t = bind-Keeps (expect-Keeps "cables [" lbracket) λ _.
      bind-Keeps (cable_list-Keeps k_virtual_slot_cables t)
        λ u. bind-Keeps (expect-Keeps "cables ]" rbracket) λ _. ok-Keeps u

  pub list_member-Keeps :
      (key : Chars) (st : GeneralParse Quality) {other : Parser (GeneralParse Quality)}
      → Keeps other
      → Keeps (list_member key st other)
  unfolding list_member
  list_member-Keeps key st h =
      let devices =
        λ (b : Bool). bind-Keeps (device_array-Keeps b st.table) λ t. ok-Keeps (put_table st t) in
      let modes =
        λ (b : Bool). bind-Keeps (mode_array-Keeps b st.table) λ t. ok-Keeps (put_table st t) in
      if-Keeps (eq_text key (codes "bridgeBuffer")) (bind-Keeps bridge_array-Keeps λ vs. ok-Keeps _)
        (if-Keeps (eq_text key (codes "hwRenderMore")) (devices false) (
          if-Keeps (eq_text key (codes "hwCaptureMore")) (devices true) (
            if-Keeps (eq_text key (codes "hwRenderModes")) (modes false) (
              if-Keeps (eq_text key (codes "hwCaptureModes")) (modes true) (
                if-Keeps (eq_text key (codes "cables"))
                  (bind-Keeps (cable_array-Keeps st.table) λ t. ok-Keeps _) h)))))

  pub general_member-Keeps :
      (key : Chars) (st : GeneralParse Quality) → Keeps (general_member key st)
  unfolding general_member
  general_member-Keeps key st =
      number_member-Keeps key st
        (string_member-Keeps key st (list_member-Keeps key st (fail-Keeps "unknown general key")))

  pub parse_general-Keeps :
      (t : SlotTable Quality) (have_cables : Bool) → Keeps (parse_general t have_cables)
  unfolding parse_general
  parse_general-Keeps t have_cables = bind-Keeps (expect-Keeps "general expected {" lbrace) λ _.
      bind-Keeps
        (object-Keeps general_messages general_member general_member-Keeps
          (new_general t have_cables))
        λ st. if-Keeps (have_general st) (ok-Keeps st) (fail-Keeps "general missing fields")
