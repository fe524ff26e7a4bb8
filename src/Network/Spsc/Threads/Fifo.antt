-- ===== src/Network/Spsc/Threads/Fifo.antt =====
-- The two threads together move every frame once and in order.
use win_hook_audio.Prelude.{
  ℕ, ◌+◌, ◌-◌, ◌^◌, ◌≤◌, ◌<◌, ◌≡◌, refl, sym, ap, ap₂, subst, ◌∙◌, none, some, List, [], ◌∷◌, ◌++◌,
  arith, length, take, length-take, append_assoc, zero, suc,
}
use win_hook_audio.Prelude.Words.{u64}
use win_hook_audio.Prelude.Circular.{
  put_all, window, window-append, window-put_all, length-put_all, length-window, take-window,
}
use win_hook_audio.Network.Spsc.{Ring, publish_head, publish_tail}
use win_hook_audio.Network.Spsc.Threads.{
  System, counted, copied, publish, free, Step, copies_in, stores_head, copies_out, discards,
  stores_tail, Reach, here, next, pending, Inv,
}
use win_hook_audio.Network.Spsc.Threads.Counts.{writes_lem, reads_lem, discards_lem}

take-append {ℓ} :
    {A : Type ℓ} (xs ys : List A) (m : ℕ) → m ≤ length xs → take m (xs ++ ys) ≡ take m xs
take-append [] ys zero h = refl
take-append [] ys (suc m) h = absurd (omega arith)
take-append (x ∷ xs) ys zero h = refl
take-append (x ∷ xs) ys (suc m) h = ap (λ l. x ∷ l) (take-append xs ys m (omega arith))

module _ {ℓ} {A : Type ℓ} (blank : A) where
  -- Frames copied in behind `n` others leave those, and are the ones after them.
  before-put_all :
      (cap : ℕ) (buf fs : List A) (h n m : ℕ)
      → cap ≤ length buf
      → n + length fs ≤ cap
      → m ≤ n
      → window blank cap (put_all blank cap buf (h + n) fs) h m ≡ window blank cap buf h m
  before-put_all cap buf fs h n m le fit in_front =
      let new = put_all blank cap buf (h + n) fs in
      sym (take-window blank cap new m h (n + length fs) (omega arith))
      ∙ ap (take m) (window-put_all blank cap fs buf h n (h + n) le refl fit)
      ∙ take-append (window blank cap buf h n) fs m (omega (arith, length-window blank cap buf h n))
      ∙ take-window blank cap buf m h n in_front

  behind-put_all :
      (cap : ℕ) (buf fs : List A) (h : ℕ)
      → cap ≤ length buf
      → length fs ≤ cap
      → window blank cap (put_all blank cap buf h fs) h (length fs) ≡ fs
  unfolding window
  behind-put_all cap buf fs h le fit =
      let none_before : 0 + length fs ≡ length fs = omega arith in
      ap (window blank cap (put_all blank cap buf h fs) h) (sym none_before)
      ∙ window-put_all blank cap fs buf h 0 h le (omega arith) (omega arith)

  -- A consumer whose copy is done.
  reading-Inv :
      (k : ℕ) (s : System A) (seen n : ℕ)
      → Inv blank k s
      → seen ≤ s.ring.head
      → s.ring.tail + n ≤ seen
      → Inv blank k (record s {
        seen_head = seen;
        reading = some (n, window blank s.ring.capacity s.ring.buf s.ring.tail n);
      })
  reading-Inv k s seen n v b fit = record {
    power = v.power;
    small = v.small;
    storage = v.storage;
    behind = v.behind;
    filled = v.filled;
    room = v.room;
    ahead = fit;
    known = b;
    count = v.count;
    staged = v.staged;
    taken = refl;
    fifo = v.fifo;
  }

  writing-Inv :
      (k : ℕ) (s : System A) (seen n : ℕ) (fs : List A)
      → Inv blank k s
      → seen ≤ s.ring.tail
      → s.seen_tail ≤ seen
      → length fs ≡ n
      → s.ring.head + n ≤ seen + s.ring.capacity
      → s.ring.head + n < 2 ^ 64
      → Inv blank k (record s {
        ring = record (s.ring) { buf = put_all blank s.ring.capacity s.ring.buf s.ring.head fs };
        seen_tail = seen;
        writing = some (n, fs);
      })
  writing-Inv k s seen n fs v b later len fit small =
      let r = s.ring in
      let d = r.head - r.tail in
      let new = put_all blank r.capacity r.buf r.head fs in
      let head : r.tail + d ≡ r.head = omega (arith, v.filled) in
      let kept = λ (m : ℕ) (le : m ≤ d).
        ap (λ h. window blank r.capacity (put_all blank r.capacity r.buf h fs) r.tail m) (sym head)
        ∙ before-put_all r.capacity r.buf fs r.tail d m (omega (arith, v.storage)) (omega arith)
            le in
      record {
        power = v.power;
        small = v.small;
        storage = length-put_all blank r.capacity r.buf r.head fs ∙ v.storage;
        behind = b;
        filled = v.filled;
        room = fit;
        ahead = v.ahead;
        known = v.known;
        count = small;
        staged =
            ap (window blank r.capacity new r.head) (sym len)
            ∙ behind-put_all r.capacity r.buf fs r.head (omega (arith, v.storage))
                (omega (arith, v.filled));
        taken = kept (counted s.reading) (omega (arith, v.ahead, v.known)) ∙ v.taken;
        fifo = v.fifo ∙ ap (λ l. s.got ++ l) (sym (kept d (omega arith)));
      }

  published-Inv :
      (k : ℕ) (s : System A) (n : ℕ) (fs : List A)
      → s.writing ≡ some (n, fs)
      → Inv blank k s
      → Inv blank k (publish blank s n fs)
  unfolding publish_head window
  published-Inv k s n fs e v =
      let r = s.ring in
      let w = window blank r.capacity r.buf in
      let m : counted s.writing ≡ n = ap counted e in
      let store : u64 (r.head + n) ≡ r.head + n = omega (arith, v.count, m) in
      let frames : w r.head n ≡ fs = ap (w r.head) (sym m) ∙ v.staged ∙ ap copied e in
      let far : r.head + n - r.tail ≡ r.head - r.tail + n = omega (arith, v.filled) in
      let head : r.tail + (r.head - r.tail) ≡ r.head = omega (arith, v.filled) in
      record {
        power = v.power;
        small = v.small;
        storage = v.storage;
        behind = v.behind;
        filled = omega (arith, store, v.filled);
        room = omega (arith, store, v.room, m);
        ahead = v.ahead;
        known = omega (arith, store, v.known);
        count = omega (arith, store, v.count, m);
        staged = refl;
        taken = v.taken;
        fifo =
            ap (λ l. l ++ fs) v.fifo
            ∙ append_assoc s.got (pending blank s) fs
            ∙ ap (λ l. s.got ++ l)
                (ap (λ l. w r.tail (r.head - r.tail) ++ l) (sym frames ∙ ap (λ h. w h n) (sym head))
                  ∙ sym (window-append blank r.capacity r.buf r.tail (r.head - r.tail) n)
                  ∙ ap (w r.tail) (sym far ∙ ap (λ h. h - r.tail) (sym store)));
      }

  freed-Inv :
      (k : ℕ) (s : System A) (n : ℕ) (fs : List A)
      → s.reading ≡ some (n, fs)
      → Inv blank k s
      → Inv blank k (free blank s n fs)
  unfolding publish_tail window
  freed-Inv k s n fs e v =
      let r = s.ring in
      let w = window blank r.capacity r.buf in
      let m : counted s.reading ≡ n = ap counted e in
      let store : u64 (r.tail + n) ≡ r.tail + n = omega (arith, v.count, v.ahead, v.known, m) in
      let frames : w r.tail n ≡ fs = ap (w r.tail) (sym m) ∙ v.taken ∙ ap copied e in
      let split : r.head - r.tail ≡ n + (r.head - (r.tail + n)) =
        omega (arith, v.ahead, v.known, m) in
      record {
        power = v.power;
        small = v.small;
        storage = v.storage;
        behind = omega (arith, store, v.behind);
        filled = omega (arith, store, v.ahead, v.known, m);
        room = v.room;
        ahead = omega (arith, store, v.ahead, m);
        known = v.known;
        count = v.count;
        staged = v.staged;
        taken = refl;
        fifo =
            v.fifo
            ∙ ap (λ l. s.got ++ l)
                (ap (w r.tail) split
                  ∙ window-append blank r.capacity r.buf r.tail n (r.head - (r.tail + n))
                  ∙ ap₂ (λ l p. l ++ w p (r.head - p)) frames (sym store))
            ∙ sym (append_assoc s.got fs (w (u64 (r.tail + n)) (r.head - u64 (r.tail + n))));
      }

  Step-Inv : (k : ℕ) {s t : System A} → Step blank s t → Inv blank k s → Inv blank k t
  Step-Inv k (copies_in s seen src frames e a b l f small) v =
      let (n, written, le, fit) = writes_lem blank k s seen src frames v e a b l small in
      subst
        (λ (p : ℕ × Ring A).
          Inv blank k
            (record s { ring = p.1; seen_tail = seen; writing = some (p.0, take p.0 src) }))
        (sym written)
        (writing-Inv k s seen n (take n src) v b a (omega (arith, length-take n src)) fit
          (omega arith))
  Step-Inv k (stores_head s n fs e) v = published-Inv k s n fs e v
  Step-Inv k (copies_out s seen frames e a b f) v =
      let (n, copy, fit) = reads_lem blank k s seen frames v a b in
      subst (λ (p : ℕ × List A). Inv blank k (record s { seen_head = seen; reading = some p }))
        (sym copy) (reading-Inv k s seen n v b fit)
  Step-Inv k (discards s seen frames e a b f) v =
      let (n, count, fit) = discards_lem blank k s seen frames v a b in
      subst
        (λ n'. Inv blank k (record s {
          seen_head = seen;
          reading = some (n', window blank s.ring.capacity s.ring.buf s.ring.tail n');
        }))
        (sym count) (reading-Inv k s seen n v b fit)
  Step-Inv k (stores_tail s n fs e) v = freed-Inv k s n fs e v

  -- A ring of a power of two of up to 2^31 frames, just reset, nothing sent.
  pub record IsFresh (k : ℕ) (s : System A) : Type ℓ where
    pub power : s.ring.capacity ≡ 2 ^ k
    pub small : k ≤ 31
    pub storage : length s.ring.buf ≡ s.ring.capacity
    pub zeroed : (s.ring.head ≡ 0) × (s.ring.tail ≡ 0) × (s.seen_head ≡ 0) × (s.seen_tail ≡ 0)
    pub at_rest : (s.writing ≡ none) × (s.reading ≡ none)
    pub nothing : (s.sent ≡ []) × (s.got ≡ [])

  Fresh-Inv : (k : ℕ) (s : System A) → IsFresh k s → Inv blank k s
  unfolding window
  Fresh-Inv k s f =
      let none_yet : s.ring.head - s.ring.tail ≡ 0 = omega (arith, f.zeroed) in
      let no_write : counted s.writing ≡ 0 = ap counted f.at_rest.0 in
      let no_read : counted s.reading ≡ 0 = ap counted f.at_rest.1 in
      let w = window blank s.ring.capacity s.ring.buf in
      record {
        power = f.power;
        small = f.small;
        storage = f.storage;
        behind = omega (arith, f.zeroed);
        filled = omega (arith, f.zeroed);
        room = omega (arith, f.zeroed, no_write);
        ahead = omega (arith, f.zeroed, no_read);
        known = omega (arith, f.zeroed);
        count = omega (arith, f.zeroed, no_write);
        staged = ap (w s.ring.head) no_write ∙ sym (ap copied f.at_rest.0);
        taken = ap (w s.ring.tail) no_read ∙ sym (ap copied f.at_rest.1);
        fifo = f.nothing.0 ∙ sym (ap₂ (λ g m. g ++ w s.ring.tail m) f.nothing.1 none_yet);
      }

  Reach-Inv : (k : ℕ) {s t : System A} → Inv blank k s → Reach blank s t → Inv blank k t
  Reach-Inv k v here = v
  Reach-Inv k v (next r st) = Step-Inv k st (Reach-Inv k v r)

  -- With a call of each thread cut between its copy and its store, the pieces in any order and with
  -- any loads that the memory order allows, the frames taken out are the frames published, in order
  -- and without loss or repetition, up to those still in the ring. Those and the frames copied in
  -- but not yet published are never more than the capacity.
  pub Reach-fifo :
      (k : ℕ) (s t : System A)
      → IsFresh k s
      → Reach blank s t
      → (t.sent ≡ t.got ++ pending blank t)
        × (length (pending blank t) + counted t.writing ≤ t.ring.capacity)
  Reach-fifo k s t f r =
      let v = Reach-Inv k (Fresh-Inv k s f) r in
      (
        v.fifo,
        omega (
          arith,
          length-window blank t.ring.capacity t.ring.buf t.ring.tail (t.ring.head - t.ring.tail),
          v.room,
          v.behind,
        ),
      )
