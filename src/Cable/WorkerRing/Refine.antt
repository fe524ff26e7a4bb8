-- ===== src/Cable/WorkerRing/Refine.antt =====
-- The Worker's ring against a queue of at most `k_ring_buffer_frames` frames.
use win_hook_audio.Prelude.{
  ℕ, ◌+◌, ◌-◌, ◌%◌, ◌≤◌, ◌<◌, ◌≡◌, refl, sym, ap, ◌∙◌, Bool, true, false, ◌||◌, List, [], ◌++◌, ltb,
  ◌==◌, if◌then◌else◌, tabulate, length, take, drop, arith, length-tabulate, Bool-cases, inl, inr,
}
use win_hook_audio.Prelude.Words.{u32, sub32}
use win_hook_audio.Prelude.Circular.{
  window, put_all, length-put_all, window-put_all, window-mod, take-window, drop-window,
  length-window, put_all-mod,
}
use win_hook_audio.Cable.WorkerRing.{
  RingBuffer, k_ring_buffer_frames, available, block_frame, write, flat, read,
}

module _ {ℓ} {A : Type ℓ} where
  pub record IsValid (b : RingBuffer A) : Type 0 where
    pub storage : length b.buffer ≡ k_ring_buffer_frames
    pub read_in : b.read_pos < k_ring_buffer_frames
    pub size_in : b.size ≤ k_ring_buffer_frames
    pub write_at : b.write_pos ≡ (b.read_pos + b.size) % k_ring_buffer_frames

  abbrev pub queued : RingBuffer A → List (List A)
  queued b = window [] k_ring_buffer_frames b.buffer b.read_pos b.size

  -- A bounded queue that takes a block whole or not at all.
  unfoldable pub push_all : List (List A) → List (List A) → Bool × List (List A)
  push_all q fs =
      if length fs == 0 || ltb (k_ring_buffer_frames - length q) (length fs)
      then (false, q)
      else (true, q ++ fs)

  -- It gives `n` frames or none.
  unfoldable pub pop_all : List (List A) → ℕ → List (List A) × Bool × List (List A)
  pop_all q n = if n == 0 || ltb (length q) n then ([], false, q) else (take n q, true, drop n q)

  queued-put_all :
      (b : RingBuffer A) (fs : List (List A))
      → IsValid b
      → b.size + length fs ≤ k_ring_buffer_frames
      → window [] k_ring_buffer_frames
          (put_all [] k_ring_buffer_frames b.buffer b.write_pos fs)
          b.read_pos
          (b.size + length fs)
        ≡ queued b ++ fs
  queued-put_all b fs v h =
      rw (v.write_at, put_all-mod [] k_ring_buffer_frames b.buffer (b.read_pos + b.size) fs)
        (window-put_all [] k_ring_buffer_frames fs b.buffer b.read_pos b.size (b.read_pos + b.size)
          (omega arith) refl h)

module _ {A : Type 0} (silence : A) where
  written :
      (b : RingBuffer A) (block : List A) (frames : ℕ)
      → IsValid b
      → 0 < frames
      → frames ≤ k_ring_buffer_frames - b.size
      → let (done, b') = write silence b block frames in
        (done ≡ true)
        × (queued b' ≡ queued b ++ tabulate frames (block_frame silence block))
        × IsValid b'
  unfolding write
  written b block frames v pos h =
      let fs = tabulate frames (block_frame silence block) in
      let n : length fs ≡ frames = length-tabulate frames (block_frame silence block) in
      let e₁ : (frames == 0 || ltb k_ring_buffer_frames frames) ≡ false = ground arith in
      let e₂ : ltb (sub32 k_ring_buffer_frames b.size) frames ≡ false = ground arith in
      let e₃ : u32 (b.size + frames) ≡ b.size + length fs = omega arith in
      let fits : b.size + length fs ≤ k_ring_buffer_frames = omega arith in
      rw (e₁, e₂, e₃)
        (
          refl,
          queued-put_all b fs v fits,
          record {
            storage = length-put_all [] k_ring_buffer_frames b.buffer b.write_pos fs ∙ v.storage;
            read_in = v.read_in;
            size_in = fits;
            write_at = omega arith;
          },
        )

  write-refused :
      (b : RingBuffer A) (block : List A) (frames : ℕ)
      → IsValid b
      → (frames == 0 || ltb (k_ring_buffer_frames - b.size) frames) ≡ true
      → write silence b block frames ≡ (false, b)
  unfolding write
  write-refused b block frames v e =
      elim (Bool-cases (frames == 0 || ltb k_ring_buffer_frames frames)) [
        | inl t ↦ rw t
        | inr t ↦
            let u : ltb (sub32 k_ring_buffer_frames b.size) frames ≡ true = ground arith in
            rw (t, u)
      ]

  read-refused :
      (b : RingBuffer A) (frames : ℕ)
      → IsValid b
      → (frames == 0 || ltb b.size frames) ≡ true
      → read silence b frames ≡ ([], false, b)
  unfolding read
  read-refused b frames v e = elim (Bool-cases (frames == 0 || ltb k_ring_buffer_frames frames)) [
    | inl t ↦ rw t
    | inr t ↦ let u : ltb b.size frames ≡ true = ground arith in rw (t, u)
  ]

  -- `write` is `push_all` on the queued frames: it takes a block exactly when the block is not empty
  -- and there is room for all of it, and a refusal changes nothing. The ring stays valid.
  pub write_refines :
      (b : RingBuffer A) (block : List A) (frames : ℕ)
      → IsValid b
      → let (done, b') = write silence b block frames in
        let (done', q) = push_all (queued b) (tabulate frames (block_frame silence block)) in
        (done ≡ done') × (queued b' ≡ q) × IsValid b'
  unfolding push_all write available
  write_refines b block frames v =
      let size : length (queued b) ≡ b.size =
        length-window [] k_ring_buffer_frames b.buffer b.read_pos b.size in
      let n : length (tabulate frames (block_frame silence block)) ≡ frames =
        length-tabulate frames (block_frame silence block) in
      rw (n, size)
        (elim (Bool-cases (frames == 0 || ltb (k_ring_buffer_frames - b.size) frames)) [
          | inl e ↦ rw (e, write-refused b block frames v e) (refl, refl, v)
          | inr e ↦ rw e (written b block frames v (ground arith) (ground arith))
        ])

  -- `read` is `pop_all` on the queued frames: it gives exactly the oldest frames when at least one is
  -- asked for and all are there, and a refusal changes nothing. The ring stays valid.
  pub read_refines :
      (b : RingBuffer A) (frames : ℕ)
      → IsValid b
      → let (out, done, b') = read silence b frames in
        let (fs, done', q) = pop_all (queued b) frames in
        (out ≡ flat silence fs) × (done ≡ done') × (queued b' ≡ q) × IsValid b'
  unfolding read pop_all flat
  read_refines b frames v =
      let size : length (queued b) ≡ b.size =
        length-window [] k_ring_buffer_frames b.buffer b.read_pos b.size in
      rw size (elim (Bool-cases (frames == 0 || ltb b.size frames)) [
        | inl e ↦ rw (e, read-refused b frames v e) (refl, refl, refl, v)
        | inr e ↦
            let h : frames ≤ b.size = ground arith in
            let pos : 0 < frames = ground arith in
            let e₁ : (frames == 0 || ltb k_ring_buffer_frames frames) ≡ false = ground arith in
            let e₂ : ltb b.size frames ≡ false = ground arith in
            let e₃ : sub32 b.size frames ≡ b.size - frames = omega arith in
            let e₄ : u32 (b.read_pos + frames) ≡ b.read_pos + frames = omega arith in
            rw (e, e₁, e₂, e₃, e₄)
              (
                ap (flat silence)
                    (sym (take-window [] k_ring_buffer_frames b.buffer frames b.read_pos b.size h)),
                refl,
                window-mod [] k_ring_buffer_frames b.buffer (b.read_pos + frames) (b.size - frames)
                    ∙ sym (drop-window [] k_ring_buffer_frames b.buffer frames b.read_pos b.size),
                omega arith,
              )
      ])
