-- ===== src/Master/Claim/Exclusion.antt =====
-- asio-master/MasterClaim.h: the processes that hold the Master.
use win_hook_audio.Prelude.{
  ℕ, ◌+◌, ◌-◌, ◌≤◌, ◌<◌, ◌≡◌, refl, sym, ap, subst, ◌∙◌, Bool, true, false, not, ◌&&◌, ◌||◌, ltb,
  ◌==◌, if◌then◌else◌, if_both, if_cases, ==_iff, arith,
}
use win_hook_audio.Master.Claim.{
  k_attempts, Phase, idle, trying, looking, Process, Session, put_process, begin, refuse, claim,
  look_away, release, has_handle, ended, Step, call_acquire, create_failed, created, opened,
  map_failed, claimed, looked, call_release, exited, started, Reach, here, next,
}

-- The process has the claim, or has made the mapping and is about to have it.
abbrev pub creates : Phase → Bool
creates idle = false
creates (trying n) = false
creates (looking n exists) = not exists

abbrev is_creator : Process → Bool
is_creator v = ltb 0 v.count || creates v.phase

pub record IsExclusive (s : Session) : Type 0 where
  pub one : (p q : ℕ) → is_creator (s.process p) ≡ true → is_creator (s.process q) ≡ true → p ≡ q
  pub named : (p : ℕ) → 0 < (s.process p).count → s.owner ≡ p

abbrev CreatorAt : Session → ℕ → Type 0
CreatorAt s a = is_creator (s.process a) ≡ true

abbrev HoldsAt : Session → ℕ → Type 0
HoldsAt s a = 0 < (s.process a).count

-- Where the change of one process makes no creator there is none new, and so with holders.
creator_before :
    (s : Session) (p : ℕ) (v : Process)
    → (is_creator v ≡ true → CreatorAt s p)
    → (a : ℕ) → CreatorAt (put_process s p v) a
    → CreatorAt s a
creator_before s p v creator a =
    if_cases (λ (w : Process). is_creator w ≡ true → CreatorAt s a) (a == p)
      (λ (e : a == p ≡ true) h. subst (CreatorAt s) (sym ((==_iff a p).0 e)) (creator h)) (λ e h. h)

holder_before :
    (s : Session) (p : ℕ) (v : Process)
    → (0 < v.count → HoldsAt s p)
    → (a : ℕ) → HoldsAt (put_process s p v) a
    → HoldsAt s a
holder_before s p v holder a =
    if_cases (λ (w : Process). 0 < w.count → HoldsAt s a) (a == p)
      (λ (e : a == p ≡ true) h. subst (HoldsAt s) (sym ((==_iff a p).0 e)) (holder h)) (λ e h. h)

narrowed :
    (s : Session) (p : ℕ) (v : Process)
    → (is_creator v ≡ true → CreatorAt s p)
    → (0 < v.count → HoldsAt s p)
    → IsExclusive s
    → IsExclusive (put_process s p v)
narrowed s p v creator holder x = record {
  one = λ a b ha hb.
      x.one a b (creator_before s p v creator a ha) (creator_before s p v creator b hb);
  named = λ a ha. x.named a (holder_before s p v holder a ha);
}

kept : (a b c : Bool) → b ≡ false → a || b ≡ true → a || c ≡ true
kept a b c e h = ground arith

-- A process that moves on without making the mapping or the claim.
moved-IsExclusive :
    (s : Session) (p : ℕ) (phase : Phase) (acquired : Bool)
    → creates phase ≡ false
    → IsExclusive s
    → IsExclusive (put_process s p (record (s.process p) { phase = phase; acquired = acquired }))
moved-IsExclusive s p phase acquired e x =
    narrowed s p (record (s.process p) { phase = phase; acquired = acquired })
      (λ h. kept (ltb 0 (s.process p).count) (creates phase) (creates (s.process p).phase) e h)
      (λ h. h) x

holding : (c : ℕ) (b : Bool) → ltb 0 c ≡ true → ltb 0 c || b ≡ true
holding c b e = ground arith

begin-IsExclusive :
    (s : Session) (p : ℕ) → IsExclusive s → IsExclusive (put_process s p (begin (s.process p)))
unfolding begin
begin-IsExclusive s p x =
    let v = s.process p in
    narrowed s p (begin v)
      (if_cases (λ (w : Process). is_creator w ≡ true → is_creator v ≡ true) (ltb 0 v.count)
        (λ (e : ltb 0 v.count ≡ true) h. holding v.count (creates v.phase) e)
        (λ (e : ltb 0 v.count ≡ false) h. kept (ltb 0 v.count) false (creates v.phase) refl h))
      (if_cases (λ (w : Process). 0 < w.count → 0 < v.count) (ltb 0 v.count)
        (λ (e : ltb 0 v.count ≡ true) h. ground arith) (λ e h. h))
      x

release-IsExclusive :
    (s : Session) (p : ℕ) → IsExclusive s → IsExclusive (put_process s p (release (s.process p)))
unfolding release
release-IsExclusive s p x =
    let v = s.process p in
    narrowed s p (release v) (more v.count (creates v.phase)) (λ h. omega arith) x
  where
    more : (c : ℕ) (b : Bool) → ltb 0 (c - 1) || b ≡ true → ltb 0 c || b ≡ true
    more c b h = ground arith

look_away-IsExclusive :
    (s : Session) (p n seen : ℕ) (alive : Bool)
    → IsExclusive s
    → IsExclusive (put_process s p (look_away (s.process p) n seen alive))
unfolding look_away refuse
look_away-IsExclusive s p n seen alive x =
    if_both (λ (v : Process). IsExclusive (put_process s p v))
      (not (seen == 0) && (not alive && ltb (n + 1) k_attempts))
      (moved-IsExclusive s p (trying (n + 1)) (s.process p).acquired refl x)
      (moved-IsExclusive s p idle false refl x)

-- Without handles there is no creator and no holder.
no_handle : (v : Process) → has_handle v ≡ false → (is_creator v ≡ false) × (v.count ≡ 0)
no_handle v h = split v.count v.phase h
  where
    split :
        (c : ℕ) (phase : Phase)
        → ltb 0 c || (elim phase [ idle ↦ false | trying n ↦ false | looking n exists ↦ true ])
          ≡ false
        → (ltb 0 c || creates phase ≡ false) × (c ≡ 0)
    split c idle h = ground arith
    split c (trying n) h = ground arith
    split c (looking n exists) h = ground arith

-- Then a process that makes the mapping is the only creator.
created-IsExclusive :
    (s : Session) (p n : ℕ)
    → ((q : ℕ) → has_handle (s.process q) ≡ false)
    → IsExclusive
        (record (put_process s p (record (s.process p) { phase = looking n false })) { owner = 0 })
created-IsExclusive s p n none_open = record {
  one = λ a b ha hb. only a ha ∙ sym (only b hb);
  named = λ a ha. absurd (omega (arith, no_holder a ha));
}
  where
    made : Process
    made = record (s.process p) { phase = looking n false }

    clash : (b : Bool) {A : Type 0} → b ≡ false → b ≡ true → A
    clash b e h = ground arith

    only : (a : ℕ) → is_creator (if a == p then made else s.process a) ≡ true → a ≡ p
    only a =
        if_cases (λ (w : Process). is_creator w ≡ true → a ≡ p) (a == p)
          (λ (e : a == p ≡ true) h. (==_iff a p).0 e)
          (λ e h. clash (is_creator (s.process a)) (no_handle (s.process a) (none_open a)).0 h)

    no_holder : (a : ℕ) → 0 < (if a == p then made else s.process a).count → 1 ≤ 0
    no_holder a =
        if_both (λ (w : Process). 0 < w.count → 1 ≤ 0) (a == p)
          (λ h. omega (arith, (no_handle (s.process p) (none_open p)).1))
          (λ h. omega (arith, (no_handle (s.process a) (none_open a)).1))

-- The process that made the mapping becomes its owner.
claimed-IsExclusive :
    (s : Session) (p n : ℕ)
    → (s.process p).phase ≡ looking n false
    → IsExclusive s
    → IsExclusive (record (put_process s p (claim (s.process p))) { owner = p })
unfolding claim
claimed-IsExclusive s p n e x = record {
  one = λ a b ha hb.
      x.one a b (creator_before s p (claim (s.process p)) (λ h. mine) a ha)
        (creator_before s p (claim (s.process p)) (λ h. mine) b hb);
  named = λ a ha. owned a ha;
}
  where
    or_right : (a b : Bool) → b ≡ true → a || b ≡ true
    or_right a b h = ground arith

    mine : CreatorAt s p
    mine = or_right (ltb 0 (s.process p).count) (creates (s.process p).phase) (ap creates e)

    owned :
        (a : ℕ)
        → 0
          < (if a == p
              then record (s.process p) { count = 1; phase = idle; acquired = true }
              else s.process a).count
        → p ≡ a
    owned a =
        if_cases (λ (w : Process). 0 < w.count → p ≡ a) (a == p)
          (λ (e : a == p ≡ true) h. sym ((==_iff a p).0 e))
          (λ e h.
            x.one p a mine
              (holding (s.process a).count (creates (s.process a).phase) (ground arith)))

Step-IsExclusive : {s t : Session} → Step s t → IsExclusive s → IsExclusive t
unfolding refuse
Step-IsExclusive {s} (call_acquire p e) x = begin-IsExclusive s p x
Step-IsExclusive {s} (create_failed p n e) x = moved-IsExclusive s p idle false refl x
Step-IsExclusive {s} (created p n e none_open) x = created-IsExclusive s p n none_open
Step-IsExclusive {s} (opened p n q e held) x =
    moved-IsExclusive s p (looking n true) (s.process p).acquired refl x
Step-IsExclusive {s} (map_failed p n exists e) x = moved-IsExclusive s p idle false refl x
Step-IsExclusive {s} (claimed p n e) x = claimed-IsExclusive s p n e x
Step-IsExclusive {s} (looked p n alive e) x = look_away-IsExclusive s p n s.owner alive x
Step-IsExclusive {s} (call_release p e) x = release-IsExclusive s p x
Step-IsExclusive {s} (exited p) x = narrowed s p ended (λ h. ground arith) (λ h. omega arith) x

Reach-IsExclusive : {s t : Session} → IsExclusive s → Reach s t → IsExclusive t
Reach-IsExclusive x here = x
Reach-IsExclusive x (next r step) = Step-IsExclusive step (Reach-IsExclusive x r)

started-IsExclusive : IsExclusive started
started-IsExclusive = record { one = λ p q h k. ground arith; named = λ p h. omega arith }

-- However the calls, the system calls and the ends of processes interleave, two processes that hold
-- the Master are one, and its id is the one in the mapping that others are told.
pub Reach-holder :
    {s : Session} (p q : ℕ)
    → Reach started s
    → 0 < (s.process p).count
    → 0 < (s.process q).count
    → (p ≡ q) × (s.owner ≡ p)
Reach-holder {s} p q r hp hq =
    let x = Reach-IsExclusive started-IsExclusive r in
    (
      x.one p q (holding (s.process p).count (creates (s.process p).phase) (ground arith))
          (holding (s.process q).count (creates (s.process q).phase) (ground arith)),
      x.named p hp,
    )
