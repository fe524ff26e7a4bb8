-- ===== src/Master/Claim/Retries.antt =====
-- asio-master/MasterClaim.h: an `acquire` that meets the mapping of a process that is gone.
use win_hook_audio.Prelude.{ℕ, ◌≡◌, false, ◌==◌}
use win_hook_audio.Master.Claim.{trying, Session}

-- The process `p` is before attempt `a`, the mapping of `q` names an owner, and the other processes are
-- as in `s`.
record Waiting (s : Session) (p q a : ℕ) (t : Session) : Type 0 where
  at : (t.process p).phase ≡ trying a
  holds_none : (t.process p).count ≡ 0
  known : t.owner == 0 ≡ false
  others : (r : ℕ) → r == p ≡ false → t.process r ≡ s.process r
