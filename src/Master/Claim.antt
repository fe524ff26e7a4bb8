-- ===== src/Master/Claim.antt =====
-- asio-master/MasterClaim.h: one app uses the Master at a time. The processes of a Windows session are
-- numbered by their ids and share one named mapping, which lives while some process has a handle to
-- it. The mutex lets one call at a time into a process's state, so a process is idle or in one call.
pub mod Exclusion
pub mod Attempts
pub mod Retries
use win_hook_audio.Prelude.{
  ℕ, zero, suc, ◌+◌, ◌-◌, ◌≡◌, Bool, true, false, not, ◌&&◌, ◌||◌, ltb, ◌==◌, if◌then◌else◌,
}

abbrev pub k_attempts : ℕ
k_attempts = 5

-- Where a process stands in `acquire`: before attempt n's CreateFileMapping, or with its handle and
-- the answer whether the mapping existed.
pub data Phase : Type 0 where
  idle : Phase
  trying : ℕ → Phase
  looking : ℕ → Bool → Phase

-- `State` of a process (`mapping` and `owner` are set while `count` is not 0), and what its last
-- `acquire` gave.
pub record Process : Type 0 where
  pub count : ℕ
  pub phase : Phase
  pub acquired : Bool

-- `owner` is the `pid` in the mapping, 0 before it is filled in.
pub record Session : Type 0 where
  pub process : ℕ → Process
  pub owner : ℕ

abbrev pub put_process : Session → ℕ → Process → Session
put_process s p v = record s { process = λ q. if q == p then v else s.process q }

-- `acquire` up to its loop: a process that has the claim shares it.
unfoldable pub begin : Process → Process
begin v =
    if ltb 0 v.count
    then record v { count = v.count + 1; acquired = true }
    else record v { phase = trying 0 }

-- A return of false.
unfoldable pub refuse : Process → Process
refuse v = record v { phase = idle; acquired = false }

-- The mapping is this process's own.
unfoldable pub claim : Process → Process
claim v = record v { count = 1; phase = idle; acquired = true }

-- After the look at another's mapping and the close of the handle: again when its owner is gone, at
-- most `k_attempts` times, else false.
unfoldable pub look_away : Process → ℕ → ℕ → Bool → Process
unfolding refuse
look_away v attempt seen alive =
    if not (seen == 0) && (not alive && ltb (attempt + 1) k_attempts)
    then record v { phase = trying (attempt + 1) }
    else refuse v

-- `release`
unfoldable pub release : Process → Process
release v = record v { count = v.count - 1 }

abbrev pub has_handle : Process → Bool
has_handle v =
    ltb 0 v.count || (elim v.phase [ idle ↦ false | trying n ↦ false | looking n exists ↦ true ])

abbrev pub ended : Process
ended = record { count = 0; phase = idle; acquired = false }

-- What a session does next: a call of a process, a system call of one, or the end of one, whose
-- handles go with it. CreateFileMapping makes a mapping of zeroes where no process has a handle to
-- one, and opens the one there where some process has.
pub data Step (s : Session) : Session → Type 0 where
  call_acquire :
      (p : ℕ) → (s.process p).phase ≡ idle → Step s (put_process s p (begin (s.process p)))
  create_failed :
      (p n : ℕ) → (s.process p).phase ≡ trying n → Step s (put_process s p (refuse (s.process p)))
  created :
      (p n : ℕ)
      → (s.process p).phase ≡ trying n
      → ((q : ℕ) → has_handle (s.process q) ≡ false)
      → Step s (record (put_process s p (record (s.process p) { phase = looking n false })) {
        owner = 0;
      })
  opened :
      (p n q : ℕ)
      → (s.process p).phase ≡ trying n
      → has_handle (s.process q) ≡ true
      → Step s (put_process s p (record (s.process p) { phase = looking n true }))
  map_failed :
      (p n : ℕ) (exists : Bool)
      → (s.process p).phase ≡ looking n exists
      → Step s (put_process s p (refuse (s.process p)))
  claimed :
      (p n : ℕ)
      → (s.process p).phase ≡ looking n false
      → Step s (record (put_process s p (claim (s.process p))) { owner = p })
  looked :
      (p n : ℕ) (alive : Bool)
      → (s.process p).phase ≡ looking n true
      → Step s (put_process s p (look_away (s.process p) n s.owner alive))
  call_release :
      (p : ℕ) → (s.process p).phase ≡ idle → Step s (put_process s p (release (s.process p)))
  exited : (p : ℕ) → Step s (put_process s p ended)

abbrev pub started : Session
started = record { process = λ p. ended; owner = 0 }

-- The sessions that can come about.
pub data Reach (s : Session) : Session → Type 0 where
  here : Reach s s
  next : {t u : Session} → Reach s t → Step t u → Reach s u
