-- ===== src/Hardware/Queue/Refine.antt =====
-- asio-master/HwInputFifo.h and HwOutputFifo.h: the circular queue as a list.
use win_hook_audio.Prelude.{
  ℕ, suc, ◌+◌, ◌-◌, ◌%◌, ◌≤◌, ◌<◌, ◌≡◌, refl, sym, ap, ◌∙◌, inl, inr, List, [], ◌∷◌, ◌++◌, ◌==◌,
  get_or, set, drop, length, length-set, length-append, length-drop, drop-append, drop-drop, arith,
  Bool-cases, append-nil, append_assoc, ==_iff, if_both,
}
use win_hook_audio.Prelude.Circular.{
  window, length-window, window-mod, drop-window, window-set, get_or-window,
}
use win_hook_audio.Hardware.Queue.{FrameQueue, lose, make_room, append, put, put_all, frame_at}

module _ {A : Type 0} where
  -- The newest `n` of a list.
  abbrev pub newest : ℕ → List A → List A
  newest n xs = drop (length xs - n) xs

  pub record IsValid (q : FrameQueue A) : Type 0 where
    pub room : 0 < q.cap
    pub storage : length q.buf ≡ q.cap
    pub count_in : q.count ≤ q.cap

  pub lose-IsValid : (q : FrameQueue A) (n : ℕ) → IsValid q → IsValid (lose q n)
  unfolding lose
  lose-IsValid q n v = omega arith

  make_room-IsValid : (q : FrameQueue A) → IsValid q → IsValid (make_room q)
  unfolding make_room
  make_room-IsValid q v = if_both IsValid (q.count == q.cap) (lose-IsValid q 1 v) v

  make_room_fits : (q : FrameQueue A) → IsValid q → (make_room q).count < (make_room q).cap
  unfolding make_room lose
  make_room_fits q v = ground arith

  append-IsValid : (q : FrameQueue A) (x : A) → q.count < q.cap → IsValid q → IsValid (append q x)
  unfolding append
  append-IsValid q x h v = omega (arith, length-set q.buf ((q.read_pos + q.count) % q.cap) x)

  pub put-IsValid : (q : FrameQueue A) (x : A) → IsValid q → IsValid (put q x)
  unfolding put
  put-IsValid q x v = append-IsValid (make_room q) x (make_room_fits q v) (make_room-IsValid q v)

  pub put_all-IsValid : (q : FrameQueue A) (xs : List A) → IsValid q → IsValid (put_all q xs)
  unfolding put_all
  put_all-IsValid q [] v = v
  put_all-IsValid q (x ∷ xs) v = put_all-IsValid (put q x) xs (put-IsValid q x v)

module _ {A : Type 0} (blank : A) where
  -- The frames queued, oldest first.
  abbrev pub entries : FrameQueue A → List A
  entries q = window blank q.cap q.buf q.read_pos q.count

  pub length-entries : (q : FrameQueue A) → length (entries q) ≡ q.count
  length-entries q = length-window blank q.cap q.buf q.read_pos q.count

  pub entries-lose : (q : FrameQueue A) (n : ℕ) → entries (lose q n) ≡ drop n (entries q)
  unfolding lose
  entries-lose q n =
      window-mod blank q.cap q.buf (q.read_pos + n) (q.count - n)
      ∙ sym (drop-window blank q.cap q.buf n q.read_pos q.count)

  entries-append :
      (q : FrameQueue A) (x : A)
      → IsValid q
      → q.count < q.cap
      → entries (append q x) ≡ entries q ++ x ∷ []
  unfolding append
  entries-append q x v h =
      let e : q.count + 1 ≡ suc q.count = omega arith in
      ap (window blank q.cap (set q.buf ((q.read_pos + q.count) % q.cap) x) q.read_pos) e
      ∙ window-set blank q.cap q.buf x q.read_pos q.count (omega arith) h

  entries-make_room :
      (q : FrameQueue A)
      → IsValid q
      → entries (make_room q) ≡ drop (q.count + 1 - q.cap) (entries q)
  unfolding make_room
  entries-make_room q v = elim (Bool-cases (q.count == q.cap)) [
    | inl e ↦
        let full = (==_iff q.count q.cap).0 e in
        let one : q.count + 1 - q.cap ≡ 1 = omega arith in rw (e, one) (entries-lose q 1)
    | inr e ↦ let all : q.count + 1 - q.cap ≡ 0 = ground arith in rw (e, all) refl
  ]

  drop_prefix : (k : ℕ) (xs ys : List A) → k ≤ length xs → drop k (xs ++ ys) ≡ drop k xs ++ ys
  drop_prefix k xs ys h =
      let e : k - length xs ≡ 0 = omega arith in
      drop-append k xs ys ∙ ap (λ m. drop k xs ++ drop m ys) e

  -- What a first block loses, it loses all the same when a second follows.
  pub newest-append : (n : ℕ) (xs ys : List A) → newest n (newest n xs ++ ys) ≡ newest n (xs ++ ys)
  newest-append n xs ys =
      let k = length xs - n in
      let e = sym (drop_prefix k xs ys (omega arith)) in
      let total = length-append xs ys in
      let m = length (drop k (xs ++ ys)) - n in
      let sum : k + m ≡ length (xs ++ ys) - n = omega (arith, length-drop k (xs ++ ys)) in
      ap (newest n) e ∙ drop-drop m k (xs ++ ys) ∙ ap (λ j. drop j (xs ++ ys)) sum

  pub entries-put :
      (q : FrameQueue A) (x : A)
      → IsValid q
      → entries (put q x) ≡ newest q.cap (entries q ++ x ∷ [])
  unfolding put
  entries-put q x v =
      let k = q.count + 1 - q.cap in
      let len = length-entries q in
      let total : k ≡ length (entries q ++ x ∷ []) - q.cap =
        omega (arith, length-append (entries q) (x ∷ [])) in
      entries-append (make_room q) x (make_room-IsValid q v) (make_room_fits q v)
      ∙ ap (λ es. es ++ x ∷ []) (entries-make_room q v)
      ∙ sym (drop_prefix k (entries q) (x ∷ []) (omega arith))
      ∙ ap (λ j. drop j (entries q ++ x ∷ [])) total

  cap-put : (q : FrameQueue A) (x : A) → (put q x).cap ≡ q.cap
  unfolding put append make_room lose
  cap-put q x = ground arith

  -- The loop of push keeps the newest frames, as many as the queue holds.
  pub entries-put_all :
      (xs : List A) (q : FrameQueue A)
      → IsValid q
      → entries (put_all q xs) ≡ newest q.cap (entries q ++ xs)
  unfolding put_all
  entries-put_all [] q v =
      let len = length-entries q in
      let none_lost : length (entries q) - q.cap ≡ 0 = omega arith in
      sym (rw append-nil (rw none_lost refl))
  entries-put_all (x ∷ xs) q v =
      entries-put_all xs (put q x) (put-IsValid q x v)
      ∙ ap (λ c. newest c (entries (put q x) ++ xs)) (cap-put q x)
      ∙ ap (λ es. newest q.cap (es ++ xs)) (entries-put q x v)
      ∙ newest-append q.cap (entries q ++ x ∷ []) xs
      ∙ ap (newest q.cap) (append_assoc (entries q) (x ∷ []) xs)

  pub cap-put_all : (xs : List A) (q : FrameQueue A) → (put_all q xs).cap ≡ q.cap
  unfolding put_all
  cap-put_all [] q = refl
  cap-put_all (x ∷ xs) q = cap-put_all xs (put q x) ∙ cap-put q x

  pub frame_at-entries :
      (q : FrameQueue A) (i : ℕ) → i < q.count → frame_at blank q i ≡ get_or (entries q) i blank
  unfolding frame_at
  frame_at-entries q i h = sym (get_or-window blank q.cap q.buf q.read_pos q.count i h)
