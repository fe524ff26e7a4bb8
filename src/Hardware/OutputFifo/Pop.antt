-- ===== src/Hardware/OutputFifo/Pop.antt =====
-- asio-master/HwOutputFifo.h: what is still to come, the owed silence and the queue, and `pop`.
use win_hook_audio.Prelude.Padding.{
  replicate-split, take-replicate, take-replicate_less, take-append, drop-padded,
}
use win_hook_audio.Prelude.{
  ℕ, zero, suc, ◌+◌, ◌-◌, ◌≤◌, ◌<◌, ◌≡◌, refl, sym, ap, ap₂, ◌∙◌, true, false, List, [], ◌∷◌, ◌++◌,
  ltb, ◌==◌, if◌then◌else◌, replicate, length, length-replicate, length-append, length-take, get_or,
  take, drop, drop-drop, drop_all, take_all, append_assoc, arith, if_cases,
}
use win_hook_audio.Hardware.Floats.{Floats}
use win_hook_audio.Hardware.Queue.{FrameQueue, lose}
use win_hook_audio.Hardware.Queue.Refine.{frame_at-entries, entries, entries-lose, length-entries}
use win_hook_audio.Hardware.OutputFifo.{OutputFifo, skip, pop_frames, pop}

module _ {A : Type 0} where
  first-taken :
      (xs : List (List A)) (n : ℕ)
      → 0 < length xs
      → get_or xs 0 [] ∷ take n (drop 1 xs) ≡ take (suc n) xs
  first-taken [] n h = absurd (omega arith)
  first-taken (x ∷ xs) n h = refl

  nothing_taken : (n : ℕ) (xs : List (List A)) → length xs ≤ 0 → ([] ≡ take n xs) × (xs ≡ drop n xs)
  nothing_taken n [] h = (sym (take_all n [] (omega arith)), sym (drop_all n [] (omega arith)))
  nothing_taken n (x ∷ xs) h = absurd (omega arith)

  -- The loop of pop takes the oldest frames.
  pop_frames-entries :
      (n : ℕ) (q : FrameQueue (List A))
      → ((pop_frames n q).0 ≡ take n (entries [] q))
        × (entries [] (pop_frames n q).1 ≡ drop n (entries [] q))
  unfolding pop_frames
  pop_frames-entries zero q = (refl, refl)
  pop_frames-entries (suc n) q =
      let (h, t) = pop_frames-entries n (lose q 1) in
      let es = entries [] q in
      let after = entries-lose [] q 1 in
      let len = length-entries [] q in
      let index : 1 + n ≡ suc n = omega arith in
      if_cases
        (λ (r : List (List A) × FrameQueue (List A)).
          (r.0 ≡ take (suc n) es) × (entries [] r.1 ≡ drop (suc n) es))
        (q.count == 0) (λ (empty : q.count == 0 ≡ true). nothing_taken (suc n) es (ground arith))
        (λ (some_left : q.count == 0 ≡ false).
          let first : 0 < q.count = ground arith in
          (
            ap₂ (λ (x : List A) (xs : List (List A)). x ∷ xs) (frame_at-entries [] q 0 first)
                  (h ∙ ap (take n) after)
                ∙ first-taken es n (omega arith),
            t ∙ ap (drop n) after ∙ drop-drop n 1 es ∙ ap (λ k. drop k es) index,
          ))

module _ {R A S : Type 0} ⦃F : Floats R⦄ where
  -- What is still to come: the owed silence, then the queue.
  abbrev pub upcoming : A → OutputFifo R A S → List (List A)
  upcoming silence f = replicate f.silence_due (replicate f.channels silence) ++ entries [] f.queue

  -- A pop of n frames gives the first n of what is still to come, and silence after its end; what is
  -- still to come afterwards is the rest.
  pub pop-upcoming :
      (silence : A) (f : OutputFifo R A S) (n : ℕ)
      → let (out, f') = pop silence f n in
        (out ≡ take n (upcoming silence f ++ replicate n (replicate f.channels silence)))
        × (upcoming silence f' ≡ drop n (upcoming silence f))
  unfolding pop
  pop-upcoming silence f n =
      let quiet = replicate f.channels silence in
      let due = f.silence_due in
      let owed = if ltb n due then n else due in
      let es = entries [] f.queue in
      let (h, t) = pop_frames-entries (n - owed) f.queue in
      let rest : n - owed ≡ n - due = ground arith in
      let left : due - owed ≡ due - n = ground arith in
      let len_due = length-replicate due quiet in
      let skip_due = ap (λ k. n - k) len_due in
      let len_up = length-append (replicate due quiet) es in
      let pad : n - owed - length (pop_frames (n - owed) f.queue).0
          ≡ n - length (upcoming silence f) =
        ground (arith, ap length h, length-take (n - owed) es, len_up, len_due) in
      (
        ap₂ (λ (fs ps : List (List A)). replicate owed quiet ++ fs ++ ps)
              (h ∙ ap (λ k. take k es) rest)
              (ap (λ k. replicate k quiet) pad
                ∙ sym (take-replicate (n - length (upcoming silence f)) n quiet (omega arith)))
            ∙ ap₂
                (λ (xs ys : List (List A)).
                  xs ++ ys ++ take (n - length (upcoming silence f)) (replicate n quiet))
                (sym (take-replicate_less n due quiet)) (ap (λ k. take k es) (sym skip_due))
            ∙ ap
                (λ (xs : List (List A)).
                  xs ++ take (n - length (upcoming silence f)) (replicate n quiet))
                (sym (take-append n (replicate due quiet) es))
            ∙ sym (take-append n (upcoming silence f) (replicate n quiet)),
        ap₂ (λ k (xs : List (List A)). replicate k quiet ++ xs) left (t ∙ ap (λ k. drop k es) rest)
            ∙ sym (drop-padded n due quiet es),
      )

  -- Silence skipped to stands before all that was still to come.
  pub skip-upcoming :
      (silence : A) (f : OutputFifo R A S) (n : ℕ)
      → upcoming silence (skip f n)
        ≡ replicate n (replicate f.channels silence) ++ upcoming silence f
  unfolding skip
  skip-upcoming silence f n =
      let quiet = replicate f.channels silence in
      let swap : f.silence_due + n ≡ n + f.silence_due = omega arith in
      ap (λ (xs : List (List A)). xs ++ entries [] f.queue)
        (ap (λ k. replicate k quiet) swap ∙ replicate-split n f.silence_due quiet)
      ∙ append_assoc (replicate n quiet) (replicate f.silence_due quiet) (entries [] f.queue)
