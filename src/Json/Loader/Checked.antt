-- ===== src/Json/Loader/Checked.antt =====
-- common/WHASlotsJson.h: what DeserializeSlots accepts.
use win_hook_audio.Prelude.{◌≡◌, refl, subst, Bool, not, Option, none, some, ◌==◌, length, if_both}
use win_hook_audio.Table.Text.{Chars}
use win_hook_audio.Table.Data.{SlotTable}
use win_hook_audio.Table.Defaults.{default_stream}
use win_hook_audio.Table.Validate.{TableError, validate_slots}
use win_hook_audio.Table.Validate.Accept.{TableOk, validate_slots_lem}
use win_hook_audio.Json.{skip_ws}
use win_hook_audio.Json.Objects.{Result, ok, failed, out_of_fuel}
use win_hook_audio.Json.Loader.{
  Load, Loaded, loaded, invalid, have_all, loaded_table, validated, finish_load, load,
  deserialize_slots,
}

loaded-injective : {Quality : Type 0} (t u : SlotTable Quality) → loaded t ≡ loaded u → t ≡ u
loaded-injective t u e = cc

module _ {Quality : Type 0} (below_min above_max : Quality → Bool) (default_quality : Quality)
    (t : SlotTable Quality) where
  abbrev Passed : SlotTable Quality → Type 0
  Passed u = validate_slots below_min above_max (default_stream default_quality) u ≡ none

  outcome-Passed :
      (u : SlotTable Quality) (o : Option TableError)
      → validate_slots below_min above_max (default_stream default_quality) u ≡ o
      → elim o [ none ↦ loaded u | some e ↦ invalid e ] ≡ loaded t
      → Passed t
  outcome-Passed u none v h = subst Passed (loaded-injective u t h) v
  outcome-Passed u (some e) v h = cc

  validated-Passed :
      (u : SlotTable Quality)
      → validated below_min above_max default_quality u ≡ loaded t
      → Passed t
  unfolding validated
  validated-Passed u =
      outcome-Passed u (validate_slots below_min above_max (default_stream default_quality) u) refl

  finish_load-Passed :
      (r : Result (Load Quality))
      → finish_load below_min above_max default_quality r ≡ loaded t
      → Passed t
  unfolding finish_load
  finish_load-Passed (failed e) h = cc
  finish_load-Passed out_of_fuel h = cc
  finish_load-Passed (ok st rest) h =
      let passed = λ (l : Loaded Quality). l ≡ loaded t → Passed t in
      (if_both passed (not (length (skip_ws rest) == 0)) (λ e. cc)
          (if_both passed (not (have_all st)) (λ e. cc)
            (if_both passed (not (length st.tmp_in == st.tmp_in_count)) (λ e. cc)
              (if_both passed (not (length st.tmp_out == st.tmp_out_count)) (λ e. cc)
                (validated-Passed (loaded_table st))))))
        h

-- Whatever text DeserializeSlots is given, a table that it accepts is in range: both counts from 1 to
-- 512, every slot up to them in range, the Master Clock's settings among the allowed, every string
-- ended in its array, and every device mode, cable, Bridge buffer and stream in range.
pub deserialize_slots-TableOk :
    {Quality : Type 0} (below_min above_max : Quality → Bool) (stof : Chars → Option Quality)
    (default_quality : Quality) (s : Chars) (t : SlotTable Quality)
    → deserialize_slots below_min above_max stof default_quality s ≡ loaded t
    → TableOk below_min above_max (default_stream default_quality) t
unfolding deserialize_slots
deserialize_slots-TableOk below_min above_max stof default_quality s t h =
    (validate_slots_lem below_min above_max (default_stream default_quality) t).0
      (finish_load-Passed below_min above_max default_quality t (load stof default_quality s) h)
