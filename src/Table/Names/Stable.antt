-- ===== src/Table/Names/Stable.antt =====
-- common/WHASlotTable.h: what the DAW is not asked to reset for leaves its channel names alone, up to
-- the sources that `DawVisibleChanged` does not compare.
use win_hook_audio.Prelude.{
  ℕ, zero, suc, ◌≤◌, ◌<◌, ◌≡◌, ◌≢◌, ◌⊎◌, inl, inr, refl, sym, ap, ap₂, subst, ◌∙◌, Bool, true,
  false, not, ◌&&◌, ◌||◌, Option, some, List, [], ◌∷◌, ◌==◌, if◌then◌else◌, get_or, drop, min,
  arith, Bool-cases, ==_iff,
}
use win_hook_audio.Prelude.Int.{ℤ, eq_ℤ→eq}
use win_hook_audio.Table.Text.{Chars, codes, strncmp_eq, copied, truncate_copy}
use win_hook_audio.Table.Data.{
  Slot, SlotTable, slot_none, slot_hw, slot_virtual, slot_network, k_max,
}
use win_hook_audio.Table.Access.{hw_device_of}
use win_hook_audio.Table.Names.{daw_channel_name, auto_slot_name, source_name, is_placeholder_name}
use win_hook_audio.Table.Names.Visible.{
  slot_differs, slots_differ, any_below, daw_visible_changed, blank_slot, is_bridge_type,
}

or_false : (a b : Bool) → (a || b) ≡ false → (a ≡ false) × (b ≡ false)
or_false true b h = ground arith
or_false false b h = (refl, h)

not-false : (a : Bool) → not a ≡ false → a ≡ true
not-false a h = ground arith

strncmp_eq-parts :
    (n : ℕ) (x y : Chars)
    → strncmp_eq (suc n) x y ≡ true
    → (get_or x 0 0 ≡ get_or y 0 0)
      × ((get_or x 0 0 ≡ 0) ⊎ (strncmp_eq n (drop 1 x) (drop 1 y) ≡ true))
unfolding strncmp_eq
strncmp_eq-parts n x y h = ground arith

copied-head :
    (n : ℕ) (x : Chars)
    → copied (suc n) x ≡ (if get_or x 0 0 == 0 then [] else get_or x 0 0 ∷ copied n (drop 1 x))
unfolding copied
copied-head n [] = refl
copied-head n (c ∷ x) = refl

strncmp_eq-copied : (n : ℕ) (x y : Chars) → strncmp_eq (suc n) x y ≡ true → copied n x ≡ copied n y
unfolding copied
strncmp_eq-copied zero x y h = refl
strncmp_eq-copied (suc n) x y h =
    let (e, more) = strncmp_eq-parts (suc n) x y h in
    copied-head n x
    ∙ rw e (elim more [
      | inl z ↦ let z' : get_or y 0 0 ≡ 0 = sym e ∙ z in rw z' refl
      | inr m ↦
          ap (λ t. if get_or y 0 0 == 0 then [] else get_or y 0 0 ∷ t)
            (strncmp_eq-copied n (drop 1 x) (drop 1 y) m)
    ])
    ∙ sym (copied-head n y)

strncmp_eq-cong :
    (n : ℕ) (x y l : Chars) → strncmp_eq n x y ≡ true → strncmp_eq n x l ≡ strncmp_eq n y l
unfolding strncmp_eq
strncmp_eq-cong zero x y l h = refl
strncmp_eq-cong (suc n) x y l h =
    let (e, more) = strncmp_eq-parts n x y h in
    rw e (elim more [
      | inl z ↦ let z' : get_or y 0 0 ≡ 0 = sym e ∙ z in rw z' refl
      | inr m ↦
          ap
            (λ t.
              if get_or y 0 0 == get_or l 0 0
              then (if get_or y 0 0 == 0 then true else t)
              else false)
            (strncmp_eq-cong n (drop 1 x) (drop 1 y) (drop 1 l) m)
    ])

strncmp_eq-first :
    (n : ℕ) (x y : Chars) → strncmp_eq (suc n) x y ≡ true → get_or x 0 0 ≡ get_or y 0 0
strncmp_eq-first n x y h = let (e, more) = strncmp_eq-parts n x y h in e

-- A name is copied, and judged a placeholder, by what strncmp compares.
same_copy :
    (x y : Chars)
    → strncmp_eq 32 x y ≡ true
    → truncate_copy [] 32 (some x) ≡ truncate_copy [] 32 (some y)
unfolding truncate_copy
same_copy x y h = rw (strncmp_eq-copied 31 x y h) refl

same_placeholder :
    (x y : Chars) → strncmp_eq 32 x y ≡ true → is_placeholder_name x ≡ is_placeholder_name y
unfolding is_placeholder_name
same_placeholder x y h =
    ap₂ (λ c b. (c == 0) || b) (strncmp_eq-first 31 x y h)
      (strncmp_eq-cong 32 x y (codes "- empty -") h)

-- What an unchanged slot keeps.
record Agrees (x y : Slot) : Type 0 where
  kind : x.kind ≡ y.kind
  name : strncmp_eq 32 x.name y.name ≡ true
  device : x.kind ≡ slot_hw → hw_device_of x ≡ hw_device_of y
  channel : is_bridge_type x.kind || (x.kind == slot_virtual) ≡ true → x.src_channel ≡ y.src_channel

and_false : (a b : Bool) → a && not b ≡ false → a ≡ true → b ≡ true
and_false a b h k = ground arith

slot_differs-Agrees : (x y : Slot) → slot_differs x y ≡ false → Agrees x y
unfolding slot_differs
slot_differs-Agrees x y h =
    let (h₁, hc) = or_false _ _ h in
    let (h₂, hd) = or_false _ _ h₁ in
    let (h₃, hn) = or_false _ _ h₂ in
    let (hk, he) = or_false _ _ h₃ in
    let same_kind : (x.kind == y.kind) ≡ true = not-false _ hk in
    record {
      kind = (==_iff x.kind y.kind).0 same_kind;
      name = not-false _ hn;
      device = λ k.
          (==_iff (hw_device_of x) (hw_device_of y)).0
            (and_false _ _ hd ((==_iff x.kind slot_hw).1 k));
      channel = λ k. eq_ℤ→eq x.src_channel y.src_channel (and_false _ _ hc k);
    }

-- The parts of a source that `DawVisibleChanged` compares give the name, for the known types but
-- NETWORK.
source_name-same :
    (kind d e : ℕ) (c c' n n' : ℤ) (is_input : Bool) (friendly : ℕ → Option Chars)
    → kind ≤ 7
    → kind ≢ slot_network
    → (kind ≡ slot_hw → (d ≡ e) × (c ≡ c'))
    → (is_bridge_type kind || (kind == slot_virtual) ≡ true → c ≡ c')
    → source_name kind c n d is_input friendly ≡ source_name kind c' n' e is_input friendly
unfolding source_name is_bridge_type
source_name-same kind d e c c' n n' is_input friendly known wired hw other =
    elim (Bool-cases (kind == 0)) [
      | inl k₀ ↦ rw k₀ refl
      | inr k₀ ↦ elim (Bool-cases (kind == 1)) [
        | inl k₁ ↦
            let (same_d, same_c) = hw ((==_iff kind 1).0 k₁) in rw (k₀, k₁, same_d, same_c) refl
        | inr k₁ ↦ elim (Bool-cases (kind == 2)) [
          | inl k₂ ↦
              let routed : is_bridge_type kind || (kind == slot_virtual) ≡ true = ground arith in
              let same_c = other routed in rw (k₀, k₁, k₂, same_c) refl
          | inr k₂ ↦
              let k₃ : (kind == 3) ≡ false = ground arith in
              let routed : is_bridge_type kind || (kind == slot_virtual) ≡ true = ground arith in
              let same_c = other routed in rw (k₀, k₁, k₂, k₃, same_c) refl
        ]
      ]
    ]

choose-same :
    {k k' : ℕ} {b b' : Bool} {t t' u u' : Chars}
    → k ≡ k'
    → b ≡ b'
    → t ≡ t'
    → u ≡ u'
    → (if not (k == slot_none) && not b then t else u)
      ≡ (if not (k' == slot_none) && not b' then t' else u')
choose-same hk hb ht hu = rw (hk, hb, ht, hu) refl

daw_channel_name-same :
    (x y : Slot) (is_input : Bool) (friendly : ℕ → Option Chars)
    → Agrees x y
    → x.kind ≤ 7
    → x.kind ≢ slot_network
    → (x.kind ≡ slot_hw → x.src_channel ≡ y.src_channel)
    → daw_channel_name x is_input friendly ≡ daw_channel_name y is_input friendly
unfolding daw_channel_name auto_slot_name
daw_channel_name-same x y is_input friendly same known wired hw =
    choose-same same.kind (same_placeholder x.name y.name same.name)
      (same_copy x.name y.name same.name)
      (source_name-same x.kind (hw_device_of x) (hw_device_of y) x.src_channel y.src_channel
          x.stream_id y.stream_id is_input friendly known wired (λ k. (same.device k, hw k))
          same.channel
        ∙ ap (λ k. source_name k y.src_channel y.stream_id (hw_device_of y) is_input friendly)
            same.kind)

any_below-false :
    (n : ℕ) (test : ℕ → Bool) → any_below n test ≡ false → (i : ℕ) → i < n → test i ≡ false
unfolding any_below
any_below-false zero test h i below = absurd (omega arith)
any_below-false (suc n) test h i below =
    let (rest, last) = or_false (any_below n test) (test n) h in
    elim (Bool-cases (i == n)) [
      | inl e ↦ subst (λ k. test k ≡ false) (sym ((==_iff i n).0 e)) last
      | inr e ↦ let before : i < n = ground arith in any_below-false n test rest i before
    ]

-- One list of slots, and how many of it are in use.
abbrev pub slot_list : {Quality : Type 0} → Bool → SlotTable Quality → List Slot
slot_list true t = t.master_in
slot_list false t = t.master_out

abbrev pub slot_count : {Quality : Type 0} → Bool → SlotTable Quality → ℕ
slot_count true t = t.master_in_count
slot_count false t = t.master_out_count

slots_differ-Agrees :
    (n : ℕ) (xs ys : List Slot)
    → slots_differ n xs ys ≡ false
    → (i : ℕ) → i < n
    → i < k_max
    → Agrees (get_or xs i blank_slot) (get_or ys i blank_slot)
unfolding slots_differ
slots_differ-Agrees n xs ys h i below small =
    slot_differs-Agrees _ _ (any_below-false (min n k_max) _ h i (omega arith))

unchanged_slots :
    {Quality : Type 0} (a b : SlotTable Quality)
    → daw_visible_changed a b ≡ false
    → (is_input : Bool)
    → slots_differ (slot_count is_input a) (slot_list is_input a) (slot_list is_input b) ≡ false
unfolding daw_visible_changed
unchanged_slots a b h true =
    let (h₁, outs) = or_false _ _ h in let (h₂, ins) = or_false _ _ h₁ in ins
unchanged_slots a b h false = let (h₁, outs) = or_false _ _ h in outs

-- When DawVisibleChanged is false, a slot in use keeps the channel name the DAW gets, if its type is
-- a known one other than NETWORK and, for a HW slot, its srcChannel is the same.
pub unchanged-daw_channel_name :
    {Quality : Type 0} (a b : SlotTable Quality) (is_input : Bool) (i : ℕ)
    (friendly : ℕ → Option Chars)
    → daw_visible_changed a b ≡ false
    → i < slot_count is_input a
    → i < k_max
    → let x = get_or (slot_list is_input a) i blank_slot in
      let y = get_or (slot_list is_input b) i blank_slot in
      x.kind ≤ 7
      → x.kind ≢ slot_network
      → (x.kind ≡ slot_hw → x.src_channel ≡ y.src_channel)
      → daw_channel_name x is_input friendly ≡ daw_channel_name y is_input friendly
unchanged-daw_channel_name a b is_input i friendly h used small known wired hw =
    daw_channel_name-same _ _ is_input friendly
      (slots_differ-Agrees _ _ _ (unchanged_slots a b h is_input) i used small) known wired hw
