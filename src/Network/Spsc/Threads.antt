-- ===== src/Network/Spsc/Threads.antt =====
-- The producer and the consumer side by side. A call is two steps: the load of the other thread's
-- counter with the copy, then the store of the thread's own counter; the steps of the two threads come
-- in any order, so that one copies or stores between the other's copy and store. A load returns any
-- value between the one the thread saw last and the present one (loads of one counter are in its
-- order, and an acquire load that returns a value sees the frames published with it). A load before its
-- copy is a load at the copy that returns an older value. The steps do not divide one copy.
mod Counts
pub mod Fifo
use win_hook_audio.Prelude.{
  ℕ, ◌+◌, ◌-◌, ◌^◌, ◌≤◌, ◌<◌, ◌≡◌, Option, none, some, List, [], ◌++◌, length, take,
}
use win_hook_audio.Prelude.Circular.{window}
use win_hook_audio.Network.Spsc.{
  Ring, write_frames, read_frames, discard_frames, publish_head, publish_tail,
}

-- A call of a thread between its copy and its store: the frames it counts and those it copied.
module _ {ℓ} {A : Type ℓ} where
  abbrev pub counted : Option (ℕ × List A) → ℕ
  counted none = 0
  counted (some (n, fs)) = n

  abbrev pub copied : Option (ℕ × List A) → List A
  copied none = []
  copied (some (n, fs)) = fs

-- The ring, what each thread saw last of the other's counter, their calls under way, the frames
-- published so far and the frames taken out (handed over or discarded) so far, oldest first.
pub record System {ℓ} (A : Type ℓ) : Type ℓ where
  pub ring : Ring A
  pub seen_tail : ℕ
  pub seen_head : ℕ
  pub writing : Option (ℕ × List A)
  pub reading : Option (ℕ × List A)
  pub sent : List A
  pub got : List A

module _ {ℓ} {A : Type ℓ} (blank : A) where
  abbrev pub fill_in : System A → ℕ → List A → ℕ → System A
  fill_in s seen src frames =
      let (n, r) = write_frames seen s.ring src frames in
      record s { ring = r; seen_tail = seen; writing = some (n, take n src) }

  abbrev pub publish : System A → ℕ → List A → System A
  publish s n fs = record s { ring = publish_head s.ring n; writing = none; sent = s.sent ++ fs }

  abbrev pub take_out : System A → ℕ → ℕ → System A
  take_out s seen frames = record s {
    seen_head = seen;
    reading = some (read_frames blank seen s.ring frames);
  }

  -- The frames that a discard passes over count as taken.
  abbrev pub pass_over : System A → ℕ → ℕ → System A
  pass_over s seen frames =
      let n = discard_frames seen s.ring frames in
      record s {
        seen_head = seen;
        reading = some (n, window blank s.ring.capacity s.ring.buf s.ring.tail n);
      }

  abbrev pub free : System A → ℕ → List A → System A
  free s n fs = record s { ring = publish_tail s.ring n; reading = none; got = s.got ++ fs }

  pub data Step : System A → System A → Type ℓ where
    copies_in :
        (s : System A) (seen : ℕ) (src : List A) (frames : ℕ)
        → s.writing ≡ none
        → s.seen_tail ≤ seen
        → seen ≤ s.ring.tail
        → frames ≤ length src
        → frames < 2 ^ 32
        → s.ring.head + frames < 2 ^ 64
        → Step s (fill_in s seen src frames)
    stores_head :
        (s : System A) (n : ℕ) (fs : List A) → s.writing ≡ some (n, fs) → Step s (publish s n fs)
    copies_out :
        (s : System A) (seen frames : ℕ)
        → s.reading ≡ none
        → s.seen_head ≤ seen
        → seen ≤ s.ring.head
        → frames < 2 ^ 32
        → Step s (take_out s seen frames)
    discards :
        (s : System A) (seen frames : ℕ)
        → s.reading ≡ none
        → s.seen_head ≤ seen
        → seen ≤ s.ring.head
        → frames < 2 ^ 32
        → Step s (pass_over s seen frames)
    stores_tail :
        (s : System A) (n : ℕ) (fs : List A) → s.reading ≡ some (n, fs) → Step s (free s n fs)

  pub data Reach (s : System A) : System A → Type ℓ where
    here : Reach s s
    next : {t u : System A} → Reach s t → Step t u → Reach s u

  -- The frames published and not yet taken.
  abbrev pub pending : System A → List A
  pending s = window blank s.ring.capacity s.ring.buf s.ring.tail (s.ring.head - s.ring.tail)

  pub record Inv (k : ℕ) (s : System A) : Type ℓ where
    pub power : s.ring.capacity ≡ 2 ^ k
    pub small : k ≤ 31
    pub storage : length s.ring.buf ≡ s.ring.capacity
    pub behind : s.seen_tail ≤ s.ring.tail
    pub filled : s.ring.tail ≤ s.ring.head
    pub room : s.ring.head + counted s.writing ≤ s.seen_tail + s.ring.capacity
    pub ahead : s.ring.tail + counted s.reading ≤ s.seen_head
    pub known : s.seen_head ≤ s.ring.head
    pub count : s.ring.head + counted s.writing < 2 ^ 64
    pub staged :
        window blank s.ring.capacity s.ring.buf s.ring.head (counted s.writing) ≡ copied s.writing
    pub taken :
        window blank s.ring.capacity s.ring.buf s.ring.tail (counted s.reading) ≡ copied s.reading
    pub fifo : s.sent ≡ s.got ++ pending s
