-- ===== src/Cable/Ring/Refine.antt =====
-- The array implements the queue: each operation of a valid ring is the operation of `Spec` on the
-- list of its queued frames.
use win_hook_audio.Prelude.{
  ℕ, ◌+◌, ◌-◌, ◌*◌, ◌^◌, ◌≤◌, ◌<◌, ◌≡◌, refl, sym, ap, subst, ◌∙◌, Option, none, some, List, [],
  ◌++◌, ltb, if◌then◌else◌, get_or, tabulate, length, drop, arith, length-tabulate, length-append,
  length-drop, drop-append, drop-append_past, drop-tabulate, tabulate-cong, inl, inr, Bool-cases,
}
use win_hook_audio.Prelude.Words.{u32, sub32}
use win_hook_audio.Prelude.Circular.{window, length-window, window-mod, drop-window, window-put_all}
use win_hook_audio.Cable.Format.{k_cable_channels}
use win_hook_audio.Cable.Ring.{
  k_frames, Ring, Frame, drop_oldest, source_frame, write, make_room, append, clip_channels,
}
use win_hook_audio.Cable.Ring.Inv.{IsValid, put_frames-put_all, make_room-IsValid, make_room_fits}
use win_hook_audio.Cable.Ring.Spec
use win_hook_audio.Cable.Ring.Spec.{Queue, view, lose, source_frames}

clip_channels-le : (channels : ℕ) → clip_channels channels ≤ k_cable_channels
unfolding clip_channels
clip_channels-le channels = ground arith

module _ {ℓ} {A : Type ℓ} where
  abbrev pub queued : Ring A → List (Frame A)
  queued r = window [] k_frames r.buf r.read_pos r.fill

  pub length-queued : (r : Ring A) → length (queued r) ≡ r.fill
  length-queued r = length-window [] k_frames r.buf r.read_pos r.fill

  queued-drop_oldest :
      (r : Ring A) (over : ℕ)
      → IsValid r
      → over ≤ r.fill
      → queued (drop_oldest r over) ≡ drop over (queued r)
  unfolding drop_oldest
  queued-drop_oldest r over v h =
      let e : u32 (r.read_pos + over) ≡ r.read_pos + over = omega arith in
      let e' : sub32 r.fill over ≡ r.fill - over = omega arith in
      rw (e, e', window-mod [] k_frames r.buf (r.read_pos + over) (r.fill - over))
        (sym (drop-window [] k_frames r.buf over r.read_pos r.fill))

  pub drop_oldest_refines :
      (r : Ring A) (over : ℕ)
      → IsValid r
      → over ≤ r.fill
      → view (drop_oldest r over) ≡ lose (view r) over
  unfolding drop_oldest
  drop_oldest_refines r over v h =
      ap (λ fs. record (lose (view r) over) { items = fs }) (queued-drop_oldest r over v h)

  queued-append :
      (r : Ring A) (n : ℕ) (fs : List (Frame A))
      → IsValid r
      → length fs ≡ n
      → r.fill + n ≤ k_frames
      → queued (append r n fs) ≡ queued r ++ fs
  unfolding append
  queued-append r n fs v e h =
      rw (put_frames-put_all r.buf (r.read_pos + r.fill) fs, ← e)
        (window-put_all [] k_frames fs r.buf r.read_pos r.fill (r.read_pos + r.fill) (omega arith)
          refl (omega arith))

  pub make_room_refines :
      (r : Ring A) (n : ℕ)
      → IsValid r
      → n ≤ k_frames
      → view (make_room r n) ≡ lose (view r) (r.fill + n - k_frames)
  unfolding make_room
  make_room_refines r n v h = elim (Bool-cases (ltb k_frames (r.fill + n))) [
    | inl e ↦ rw e (drop_oldest_refines r (r.fill + n - k_frames) v (omega arith))
    | inr e ↦
        let z : r.fill + n - k_frames ≡ 0 = ground arith in
        let d : r.drops ≡ u32 (r.drops + 0) = omega arith in
        rw (e, z) (ap (λ k. record (view r) { drops = k }) d)
  ]

  -- The second half of `write`, where the block fits the ring.
  pub write_fits :
      (r : Ring A) (n : ℕ) (fs : List (Frame A))
      → IsValid r
      → length fs ≡ n
      → n ≤ k_frames
      → view (append (make_room r n) n fs) ≡ Spec.write (view r) fs
  unfolding Spec.write append
  write_fits r n fs v e h =
      let r' = make_room r n in
      let lost = r.fill + n - k_frames in
      let all : length (queued r ++ fs) - k_frames ≡ lost =
        omega (arith, length-append (queued r) fs, length-queued r) in
      let none_lost : lost - length (queued r) ≡ 0 = omega (arith, length-queued r) in
      let kept : drop lost (queued r ++ fs) ≡ drop lost (queued r) ++ fs =
        drop-append lost (queued r) fs ∙ rw none_lost refl in
      ap (λ l. record (view r') { items = l })
        (queued-append r' n fs (make_room-IsValid r n h v) e (make_room_fits r n h v))
      ∙ ap (λ (q : Queue A). record q { items = q.items ++ fs }) (make_room_refines r n v h)
      ∙ rw (all, kept)

  -- A block longer than the ring: losing its head first, then the rest, is losing them together.
  write_late :
      (q : Queue A) (fs : List (Frame A)) (late : ℕ)
      → k_frames + late ≡ length fs
      → Spec.write (record q { drops = u32 (q.drops + late) }) (drop late fs) ≡ Spec.write q fs
  unfolding Spec.write
  write_late q fs late e =
      let have = length q.items in
      let kept : length (drop late fs) ≡ k_frames = omega (arith, length-drop late fs) in
      let lost₁ : length (q.items ++ drop late fs) - k_frames ≡ have =
        omega (arith, length-append q.items (drop late fs)) in
      let lost₂ : length (q.items ++ fs) - k_frames ≡ have + late =
        omega (arith, length-append q.items fs) in
      let items₁ : drop have (q.items ++ drop late fs) ≡ drop late fs =
        drop-append_past 0 have q.items (drop late fs) (omega arith) in
      let items₂ : drop (have + late) (q.items ++ fs) ≡ drop late fs =
        drop-append_past late (have + late) q.items fs (omega arith) in
      rw (lost₁, lost₂, items₁, items₂)
        (ap (λ d. record q { items = drop late fs; drops = d }) (omega arith))

module _ {ℓ} {A : Type ℓ} (silence : A) where
  source_frame-skip :
      (src : Option (List A)) (off channels i k : ℕ)
      → off ≡ channels * k
      → source_frame silence src off channels i ≡ source_frame silence src 0 channels (i + k)
  unfolding source_frame
  source_frame-skip none off channels i k e = refl
  source_frame-skip (some src) off channels i k e =
      tabulate-cong k_cable_channels _ _ λ c _.
        ap (λ j. if ltb c channels then get_or src (j + c) silence else silence) (omega arith)

  -- The code's offset into a long block is the block without its head.
  late_frames :
      (src : Option (List A)) (n width late : ℕ)
      → width ≤ k_cable_channels
      → n * k_cable_channels < 2 ^ 32
      → k_frames + late ≡ n
      → tabulate k_frames (source_frame silence src (u32 (width * late)) width)
        ≡ drop late (tabulate n (source_frame silence src 0 width))
  late_frames src n width late w h e =
      let small : width * late ≤ k_cable_channels * late = grind arith in
      let m : n - late ≡ k_frames = omega arith in
      tabulate-cong k_frames _ _
        (λ i _. source_frame-skip src (u32 (width * late)) width i late (omega arith))
      ∙ sym (
          subst
            (λ t.
              drop late (tabulate n (source_frame silence src 0 width))
              ≡ tabulate t (λ i. source_frame silence src 0 width (i + late)))
            m (drop-tabulate late n (source_frame silence src 0 width)))

  -- `write` on the array is `write` on the queue. The block's samples fit an `unsigned`.
  pub write_refines :
      (r : Ring A) (src : Option (List A)) (n channels : ℕ)
      → IsValid r
      → n * k_cable_channels < 2 ^ 32
      → view (write silence r src n channels)
        ≡ Spec.write (view r) (source_frames silence src n channels)
  unfolding write
  write_refines r src n channels v h = elim (Bool-cases (ltb k_frames n)) [
    | inl e ↦
        let late = n - k_frames in
        let width = clip_channels channels in
        let F = source_frames silence src n channels in
        let v' : IsValid (record r { drops = u32 (r.drops + late) }) = record {
          storage = v.storage;
          read_in = v.read_in;
          fill_in = v.fill_in;
          drops_in = omega arith;
        } in
        rw e (
          write_fits (record r { drops = u32 (r.drops + late) }) k_frames _ v'
            (length-tabulate k_frames _) (omega arith)
          ∙ ap (Spec.write (record (view r) { drops = u32 (r.drops + late) }))
              (late_frames src n width late (clip_channels-le channels) h (ground arith))
          ∙ write_late (view r) F late
              (ground (arith, length-tabulate n (source_frame silence src 0 width))))
    | inr e ↦ rw e (write_fits r n _ v (length-tabulate n _) (ground arith))
  ]
