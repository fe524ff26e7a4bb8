-- ===== src/Cable/Ring/Inv.antt =====
-- The representation invariant of the cable ring, and that every operation keeps it.
use win_hook_audio.Prelude.{
  ℕ, zero, suc, ◌+◌, ◌-◌, ◌%◌, ◌^◌, ◌≤◌, ◌<◌, ◌≡◌, refl, ap, ◌∙◌, List, [], ◌∷◌, set, length, arith,
  length-set,
}
use win_hook_audio.Prelude.Circular.{put_all, window}
use win_hook_audio.Cable.Ring.{
  k_frames, Ring, Frame, clear, drop_oldest, next_place, put_frames, get_frames, make_room, append,
}

module _ {ℓ} {A : Type ℓ} where
  pub record IsValid (r : Ring A) : Type 0 where
    pub storage : length r.buf ≡ k_frames
    pub read_in : r.read_pos < k_frames
    pub fill_in : r.fill ≤ k_frames
    pub drops_in : r.drops < 2 ^ 32

  -- The write loop is a write at increasing indices round the array.
  pub put_frames-put_all :
      (buf : List (Frame A)) (p : ℕ) (fs : List (Frame A))
      → put_frames buf (p % k_frames) fs ≡ put_all [] k_frames buf p fs
  unfolding put_frames put_all
  put_frames-put_all buf p [] = refl
  put_frames-put_all buf p (f ∷ fs) =
      let e : next_place (p % k_frames) ≡ (p + 1) % k_frames = ground arith in
      ap (λ q. put_frames (set buf (p % k_frames) f) q fs) e
      ∙ put_frames-put_all (set buf (p % k_frames) f) (p + 1) fs

  -- The read loop gives the window from its place on, and ends just past it.
  pub get_frames-window :
      (buf : List (Frame A)) (p n : ℕ)
      → get_frames buf (p % k_frames) n ≡ (window [] k_frames buf p n, (p + n) % k_frames)
  unfolding get_frames window
  get_frames-window buf p zero = let e : p + 0 ≡ p = omega arith in rw e
  get_frames-window buf p (suc n) =
      let e : next_place (p % k_frames) ≡ (p + 1) % k_frames = ground arith in
      let e' : p + 1 + n ≡ p + suc n = omega arith in rw (e, get_frames-window buf (p + 1) n, e')

  pub clear-IsValid : (r : Ring A) → IsValid r → IsValid (clear r)
  unfolding clear
  clear-IsValid r v = omega arith

  pub drop_oldest-IsValid :
      (r : Ring A) (over : ℕ) → over ≤ r.fill → IsValid r → IsValid (drop_oldest r over)
  unfolding drop_oldest
  drop_oldest-IsValid r over h v = omega arith

  pub length-put_frames :
      (buf : List (Frame A)) (w : ℕ) (fs : List (Frame A))
      → length (put_frames buf w fs) ≡ length buf
  unfolding put_frames
  length-put_frames buf w [] = refl
  length-put_frames buf w (f ∷ fs) =
      length-put_frames (set buf w f) (next_place w) fs ∙ length-set buf w f

  pub make_room-IsValid : (r : Ring A) (n : ℕ) → n ≤ k_frames → IsValid r → IsValid (make_room r n)
  unfolding make_room
  make_room-IsValid r n h v = ground (arith, drop_oldest-IsValid r (r.fill + n - k_frames))

  pub make_room_fits :
      (r : Ring A) (n : ℕ) → n ≤ k_frames → IsValid r → (make_room r n).fill + n ≤ k_frames
  unfolding make_room drop_oldest
  make_room_fits r n h v = ground arith

  pub append-IsValid :
      (r : Ring A) (n : ℕ) (fs : List (Frame A))
      → r.fill + n ≤ k_frames
      → IsValid r
      → IsValid (append r n fs)
  unfolding append
  append-IsValid r n fs h v =
      omega (arith, length-put_frames r.buf ((r.read_pos + r.fill) % k_frames) fs)
