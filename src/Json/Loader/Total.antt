-- ===== src/Json/Loader/Total.antt =====
-- common/WHASlotsJson.h: DeserializeSlots on every text.
use win_hook_audio.Json.Loader.GeneralTotal.{uint-Keeps, parse_general-Keeps}
use win_hook_audio.Prelude.{
  ℕ, zero, suc, ◌≤◌, ◌<◌, ◌≢◌, [], ◌∷◌, Bool, not, Option, none, some, ◌==◌, drop, length,
  length-drop, if_both, arith,
}
use Prim.Native.String.{String}
use win_hook_audio.Table.Text.{Chars, codes}
use win_hook_audio.Table.Data.{SlotTable, k_max, k_net_streams}
use win_hook_audio.Table.Validate.{validate_slots}
use win_hook_audio.Table.Defaults.{default_stream}
use win_hook_audio.Json.{
  parse_string, quote, eq_text, skip_ws, starts, lbrace, comma, lbracket, rbracket,
}
use win_hook_audio.Json.Objects.{Result}
use win_hook_audio.Json.Loader.{
  Load, load_messages, load_member, new_load, slot_array, parse_slots, stream_values, parse_streams,
  load, finish_load, deserialize_slots, Loaded, loaded, invalid, unfinished, have_all, loaded_table,
  validated,
}
use win_hook_audio.Json.Strings.Ends.{StringRun, parse_string_ends}
use win_hook_audio.Json.Lengths.{
  Within, within, refused, Within-weaken, Within-bind, Keeps, bind-Keeps, ok-Keeps, fail-Keeps,
  if-Keeps, length-skip_ws, blanks-Keeps,
}
use win_hook_audio.Json.Lengths.Readers.{object-Keeps}
use win_hook_audio.Json.Lengths.Parts.{
  expect-Keeps, parse_slot-Keeps, parse_network_stream-Keeps, fixed_list-Keeps,
}

module _ (too_many bad_array : String) where
  slot_array-Keeps : (room : ℕ) → Keeps (slot_array too_many bad_array room)
  unfolding slot_array
  slot_array-Keeps zero = record { keeps = λ s. refused }
  slot_array-Keeps (suc room) = record {
    keeps = λ s. Within-bind (parse_slot-Keeps.keeps s) λ slot u h.
        let v = skip_ws u in
        let fewer : length (drop 1 v) < suc (length s) =
          omega (arith, length-drop 1 v, length-skip_ws u) in
        if_both (Within (suc (length s))) (starts comma v)
          (Within-bind ((slot_array-Keeps room).keeps (drop 1 v))
            λ slots rest k. within (omega arith))
          (if_both (Within (suc (length s))) (starts rbracket v) (within fewer) refused);
  }

  parse_slots-Keeps : (no_bracket : String) → Keeps (parse_slots no_bracket too_many bad_array)
  unfolding parse_slots
  parse_slots-Keeps no_bracket = record {
    keeps = λ s. Within-bind ((expect-Keeps no_bracket lbracket).keeps s) λ _ u h.
        let v = skip_ws u in
        let same : length v < suc (length s) = omega (arith, length-skip_ws u) in
        let fewer : length (drop 1 v) < suc (length s) = omega (arith, length-drop 1 v) in
        if_both (Within (suc (length s))) (starts rbracket v) (within fewer)
          (Within-weaken ((slot_array-Keeps k_max).keeps v) same);
  }

module _ {Quality : Type 0} (stof : Chars → Option Quality) (default_quality : Quality) where
  stream_values-Keeps : (e : String) (n : ℕ) → Keeps (stream_values stof default_quality e n)
  unfolding stream_values
  stream_values-Keeps e n = fixed_list-Keeps e n (parse_network_stream-Keeps stof default_quality)

  parse_streams-Keeps :
      (no_bracket no_comma no_end : String)
      → Keeps (parse_streams stof default_quality no_bracket no_comma no_end)
  unfolding parse_streams
  parse_streams-Keeps no_bracket no_comma no_end =
      bind-Keeps (expect-Keeps no_bracket lbracket) λ _.
        bind-Keeps (stream_values-Keeps no_comma k_net_streams)
          λ streams. bind-Keeps (expect-Keeps no_end rbracket) λ _. ok-Keeps streams

  pub load_member-Keeps :
      (key : Chars) (st : Load Quality) → Keeps (load_member stof default_quality key st)
  unfolding load_member
  load_member-Keeps key st =
      if-Keeps (eq_text key (codes "version")) (uint-Keeps "version parse" _) (
        if-Keeps (eq_text key (codes "masterInCount")) (uint-Keeps "masterInCount parse" _) (
          if-Keeps (eq_text key (codes "masterIn"))
            (bind-Keeps (parse_slots-Keeps _ _ _) λ slots. ok-Keeps _)
            (if-Keeps (eq_text key (codes "masterOutCount")) (uint-Keeps "masterOutCount parse" _) (
              if-Keeps (eq_text key (codes "masterOut"))
                (bind-Keeps (parse_slots-Keeps _ _ _) λ slots. ok-Keeps _)
                (if-Keeps (eq_text key (codes "general"))
                  (bind-Keeps (parse_general-Keeps st.table st.have_cables) λ g. ok-Keeps _)
                  (if-Keeps (eq_text key (codes "netTx"))
                    (bind-Keeps (parse_streams-Keeps "netTx [" "netTx ," "netTx ]")
                      λ streams. ok-Keeps _)
                    (if-Keeps (eq_text key (codes "netRx"))
                      (bind-Keeps (parse_streams-Keeps "netRx [" "netRx ," "netRx ]")
                        λ streams. ok-Keeps _)
                      (fail-Keeps "unknown top key"))))))))

  load-Keeps : Keeps (load stof default_quality)
  unfolding load
  load-Keeps = bind-Keeps blanks-Keeps λ _. bind-Keeps (expect-Keeps "expected {" lbrace) λ _.
      object-Keeps load_messages (load_member stof default_quality) load_member-Keeps
        (new_load stof default_quality)

module _ {Quality : Type 0} (below_min above_max : Quality → Bool) (default_quality : Quality) where
  validated_finishes :
      (t : SlotTable Quality) → validated below_min above_max default_quality t ≢ unfinished
  unfolding validated
  validated_finishes t =
      elim (validate_slots below_min above_max (default_stream default_quality) t)
        as (λ o. elim o [ none ↦ loaded t | some e ↦ invalid e ] ≢ unfinished) [
          | none ↦ λ e. cc
          | some x ↦ λ e. cc
        ]

  finish_load_finishes :
      {n : ℕ} {r : Result (Load Quality)}
      → Within n r
      → finish_load below_min above_max default_quality r ≢ unfinished
  unfolding finish_load
  finish_load_finishes refused = λ e. cc
  finish_load_finishes (within {a = st} {rest} h) =
      let done = λ (l : Loaded Quality). l ≢ unfinished in
      if_both done (not (length (skip_ws rest) == 0)) (λ e. cc)
        (if_both done (not (have_all st)) (λ e. cc)
          (if_both done (not (length st.tmp_in == st.tmp_in_count)) (λ e. cc)
            (if_both done (not (length st.tmp_out == st.tmp_out_count)) (λ e. cc)
              (validated_finishes (loaded_table st)))))

module _ {Quality : Type 0} (below_min above_max : Quality → Bool) (stof : Chars → Option Quality)
    (default_quality : Quality) where
  -- DeserializeSlots comes to an end on every text: it never runs out of the rounds for the loops
  -- over members. Nor does ParseString run out of its own: past any opening quote, a run of its
  -- loop ends by itself, with the result of ParseString, in at most a round for each byte and one.
  pub deserialize_slots_finishes :
      (s t : Chars)
      → (deserialize_slots below_min above_max stof default_quality s ≢ unfinished)
        × (n : ℕ) × StringRun [] t n (parse_string (quote ∷ t))
        × (n ≤ suc (length t))
  unfolding deserialize_slots
  deserialize_slots_finishes s t =
      let (n, run, le) = parse_string_ends t in
      (
        finish_load_finishes below_min above_max default_quality
            ((load-Keeps stof default_quality).keeps s),
        n,
        run,
        le,
      )
