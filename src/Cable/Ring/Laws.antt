-- ===== src/Cable/Ring/Laws.antt =====
-- What the queue of a cable ring promises its two sides: blocks of exactly the asked size, the
-- oldest frames in order and nothing lost below the limit, a bounded adaptive latency.
use win_hook_audio.Prelude.{
  ltb→lt, lt→ltb, ltb_false→le, get_or-tabulate, tabulate-get_or, drop-drop, take-append-drop, ℕ,
  zero, suc, ◌+◌, ◌-◌, ◌*◌, ◌^◌, ◌≤◌, ◌<◌, ◌≡◌, sym, ap, ap₂, ◌∙◌, ◌⊎◌, true, not, ◌&&◌, ◌||◌, some,
  List, [], ◌∷◌, ◌++◌, ltb, ◌==◌, if◌then◌else◌, get_or, replicate, tabulate, length, take, drop,
  arith, length-append, length-replicate, length-drop, length-take, drop-append_past, drop_all,
  take_all, inl, inr, Bool-cases, length-tabulate, tabulate-cong,
}
use win_hook_audio.Cable.Format.{k_cable_channels}
use win_hook_audio.Cable.Ring.{
  k_frames, Ring, Frame, interleave, output_frame, source_frame, effective_prime, read, write,
  clip_channels,
}
use win_hook_audio.Cable.Ring.Inv.{IsValid}
use win_hook_audio.Cable.Ring.Spec
use win_hook_audio.Cable.Ring.Spec.{Queue, view, lose, source_frames}
use win_hook_audio.Cable.Ring.Refine.{queued, length-queued, write_refines}
use win_hook_audio.Cable.Ring.Read.{read_refines}
use win_hook_audio.Cable.Ring.Runs.{write-IsValid}

taken : {A : Type 0} (n : ℕ) (xs : List A) → length xs < n → length (take n xs) ≡ length xs
taken n xs h = omega (arith, length-take n xs)

full : {A : Type 0} (n : ℕ) (xs : List A) → n ≤ length xs → length (take n xs) ≡ n
full n xs h = omega (arith, length-take n xs)

clip_small : (channels : ℕ) → channels ≤ k_cable_channels → clip_channels channels ≡ channels
unfolding clip_channels
clip_small channels h = ground arith

rest : (n m : ℕ) → m < n → m + (n - m) ≡ n
rest n m h = omega arith

module _ {A : Type 0} (silence : A) where
  length-interleave :
      (channels : ℕ) (fs : List (Frame A))
      → length (interleave silence channels fs) ≡ channels * length fs
  unfolding interleave output_frame
  length-interleave channels [] = omega arith
  length-interleave channels (f ∷ fs) = omega (
    arith,
    length-append (output_frame silence channels f) (interleave silence channels fs),
    length-tabulate channels (λ c. if ltb c k_cable_channels then get_or f c silence else silence),
    length-interleave channels fs,
  )

  deliver-length :
      (q : Queue A) (n channels base grow max_prime : ℕ)
      → length (Spec.deliver silence q n channels base grow max_prime).0 ≡ n * channels
  unfolding Spec.deliver
  deliver-length q n channels base grow max_prime = elim (Bool-cases (ltb (length q.items) n)) [
    | inl b ↦ rw b (
        omega (
          arith,
          length-append (interleave silence channels (take n q.items))
              (replicate (channels * (n - length q.items)) silence),
          length-interleave channels (take n q.items),
          length-take n q.items,
          length-replicate (channels * (n - length q.items)) silence,
          ap (λ t. channels * t) (taken n q.items (ltb→lt (length q.items) n b)),
          ap (λ t. channels * t) (rest n (length q.items) (ltb→lt (length q.items) n b)),
        ))
    | inr b ↦ rw b (
        omega (
          arith,
          length-interleave channels (take n q.items),
          length-take n q.items,
          ap (λ t. channels * t) (full n q.items (ltb_false→le (length q.items) n b)),
        ))
  ]

  spec_length-read :
      (q : Queue A) (n channels base slack grow max_prime : ℕ)
      → length (Spec.read silence q n channels base slack grow max_prime).0 ≡ n * channels
  unfolding Spec.read
  spec_length-read q n channels base slack grow max_prime =
      let prime = effective_prime base q.extra in
      let have = length q.items in
      elim (Bool-cases (not q.primed && (ltb have prime || have == 0))) [
        | inl b ↦ rw b (length-replicate (n * channels) silence)
        | inr b ↦ rw b (deliver-length _ n channels base grow max_prime)
      ]

  -- A read stores exactly `n * channels` samples, whatever is queued.
  pub length-read :
      (r : Ring A) (n channels base slack grow max_prime : ℕ)
      → IsValid r
      → slack < 2 ^ 31
      → length (read silence r n channels base slack grow max_prime).0 ≡ n * channels
  length-read r n channels base slack grow max_prime v h =
      ap (λ (p : List A × Queue A). length p.0)
        (read_refines silence r n channels base slack grow max_prime v h)
      ∙ spec_length-read (view r) n channels base slack grow max_prime

  -- The first `n` queued frames come out and the rest stay, where the reader has started or may
  -- start, the queue is not above prime + slack and holds the `n` frames.
  spec_read_oldest :
      (q : Queue A) (n channels base slack grow max_prime : ℕ)
      → (q.primed ≡ true) ⊎ (effective_prime base q.extra ≤ length q.items)
      → 0 < n
      → n ≤ length q.items
      → length q.items ≤ effective_prime base q.extra + slack
      → let (out, q') = Spec.read silence q n channels base slack grow max_prime in
        (out ≡ interleave silence channels (take n q.items))
        × (q'.items ≡ drop n q.items)
        × (q'.drops ≡ q.drops)
        × (q'.underruns ≡ q.underruns)
  unfolding Spec.read Spec.start Spec.trim_drift Spec.deliver
  spec_read_oldest q n channels base slack grow max_prime p pos h t = ground arith

  output-source :
      (src : List A) (off channels i : ℕ)
      → channels ≤ k_cable_channels
      → off + channels * i + channels ≤ length src
      → output_frame silence channels (source_frame silence (some src) off channels i)
        ≡ take channels (drop (off + channels * i) src)
  unfolding output_frame source_frame
  output-source src off channels i h l =
      tabulate-cong channels _ _ (λ c l'. rw (
        lt→ltb c k_cable_channels (omega arith),
        get_or-tabulate k_cable_channels
            (λ k. if ltb k channels then get_or src (off + channels * i + k) silence else silence) c
            silence (omega arith),
        lt→ltb c channels l',
      ))
      ∙ tabulate-get_or channels (off + channels * i) src silence l

  later :
      (src : List A) (off channels i : ℕ)
      → source_frame silence (some src) off channels (suc i)
        ≡ source_frame silence (some src) (off + channels) channels i
  unfolding source_frame
  later src off channels i =
      let e : off + channels * suc i ≡ off + channels + channels * i = omega arith in rw e

  -- Packing a block into frames and taking it out with as many channels gives the block.
  interleave-source :
      (n : ℕ) (src : List A) (off channels : ℕ)
      → channels ≤ k_cable_channels
      → length src ≡ off + n * channels
      → interleave silence channels (tabulate n (source_frame silence (some src) off channels))
        ≡ drop off src
  unfolding interleave tabulate
  interleave-source zero src off channels h e = sym (drop_all off src (omega arith))
  interleave-source (suc n) src off channels h e =
      let at : off + channels * 0 ≡ off = omega arith in
      let next = interleave-source n src (off + channels) channels h (omega arith) in
      ap₂ ◌++◌
        (output-source src off channels 0 h (omega arith) ∙ ap (λ k. take channels (drop k src)) at)
        (ap (interleave silence channels) (tabulate-cong n _ _ (λ i _. later src off channels i))
          ∙ next
          ∙ sym (drop-drop channels off src))
      ∙ take-append-drop channels (drop off src)

  spec_write_empty :
      (q : Queue A) (fs : List (Frame A))
      → length q.items ≡ 0
      → length fs ≤ k_frames
      → (Spec.write q fs).items ≡ fs
  unfolding Spec.write
  spec_write_empty q fs e h =
      let lost : length (q.items ++ fs) - k_frames ≡ 0 = omega (arith, length-append q.items fs) in
      rw lost (drop-append_past 0 0 q.items fs (omega arith))

  -- What one side writes the other reads, sample for sample: on an empty ring, a block of up to 8
  -- channels that fits the ring, reaches the prime and is not above prime + slack comes back whole
  -- from a read of its size, and leaves the ring empty.
  pub read-write :
      (r : Ring A) (src : List A) (n channels base slack grow max_prime : ℕ)
      → IsValid r
      → r.fill ≡ 0
      → 0 < n
      → n ≤ k_frames
      → channels ≤ k_cable_channels
      → length src ≡ n * channels
      → effective_prime base r.extra ≤ n
      → n ≤ effective_prime base r.extra + slack
      → slack < 2 ^ 31
      → let (out, r') =
          read silence
            (write silence r (some src) n channels)
            n
            channels
            base
            slack
            grow
            max_prime in
        (out ≡ src) × (r'.fill ≡ 0)
  unfolding Spec.write
  read-write r src n channels base slack grow max_prime v z pos fits ch len reach below sl =
      let w = write silence r (some src) n channels in
      let F = source_frames silence (some src) n channels in
      let wr = write_refines silence r (some src) n channels v (omega arith) in
      let items : queued w ≡ F =
        ap (λ (q : Queue A). q.items) wr
        ∙ spec_write_empty (view r) F (omega (arith, length-queued r)) (
            omega (
              arith,
              length-tabulate n (source_frame silence (some src) 0 (clip_channels channels)),
            )) in
      let size : length (queued w) ≡ n = ap length items ∙ length-tabulate n _ in
      let extra : w.extra ≡ r.extra = ap (λ (q : Queue A). q.extra) wr in
      let prime : effective_prime base w.extra ≡ effective_prime base r.extra =
        ap (effective_prime base) extra in
      let rd =
        read_refines silence w n channels base slack grow max_prime
          (write-IsValid silence r (some src) n channels v) sl in
      let old =
        spec_read_oldest (view w) n channels base slack grow max_prime (inr (omega arith)) pos
          (omega arith) (omega arith) in
      let r' = (read silence w n channels base slack grow max_prime).1 in
      let left : queued r' ≡ drop n (queued w) =
        ap (λ (p : List A × Queue A). p.1.items) rd ∙ old.1 in
      (
        ap (λ (p : List A × Queue A). p.0) rd
            ∙ old.0
            ∙ ap (interleave silence channels) (
                take_all n (queued w) (omega arith)
                ∙ items
                ∙ ap (λ c. tabulate n (source_frame silence (some src) 0 c))
                    (clip_small channels ch))
            ∙ interleave-source n src 0 channels ch (omega arith),
        sym (length-queued r') ∙ ap length left ∙ omega (arith, length-drop n (queued w)),
      )
