-- ===== src/Bridge/Places.antt =====
-- common/WHABridgeShared.h: claiming and giving back the four client places of a Bridge.
use win_hook_audio.Prelude.{
  ℕ, zero, suc, ◌+◌, ◌≤◌, ◌<◌, ◌≡◌, ◌≢◌, ◌⊎◌, inl, inr, refl, sym, ap, subst, ◌∙◌, Bool, true,
  false, none, some, List, [], ◌∷◌, ltb, leb, ◌==◌, if◌then◌else◌, get_or, set, length, arith,
  Bool-cases, get_or-set_self, get_or-set_ne, ==_iff,
}
use win_hook_audio.Prelude.Int.{ℤ, pos, eq_ℤ, eq_ℤ→eq}
use win_hook_audio.Bridge.{
  BridgeShared, is_free, count_owned, first_free, count_bridge_clients, try_add_bridge_client,
  remove_bridge_client,
}

not_both : (b : Bool) → b ≡ true → b ≡ false → ⊥
not_both b h k = ground arith

-- No place among `i`, ..., `i + rounds - 1` is free, or `k` is the first that is.
abbrev pub NoneFree : List ℤ → ℕ → ℕ → Type 0
NoneFree owner i end = (j : ℕ) → i ≤ j → j < end → is_free owner j ≡ false

first_free-cases :
    (owner : List ℤ) (i rounds : ℕ)
    → ((first_free owner i rounds ≡ none) × NoneFree owner i (i + rounds))
      ⊎ ((k : ℕ) × (first_free owner i rounds ≡ some k)
          × (i ≤ k)
          × (k < i + rounds)
          × (is_free owner k ≡ true)
          × NoneFree owner i k)
unfolding first_free
first_free-cases owner i zero = inl (refl, λ j lo hi. absurd (omega arith))
first_free-cases owner i (suc n) = elim (Bool-cases (is_free owner i)) [
  | inl f ↦ rw f (inr (i, refl, omega arith, omega arith, f, λ j lo hi. absurd (omega arith)))
  | inr f ↦ elim (first_free-cases owner (i + 1) n) [
    | inl (e, others) ↦
        rw (f, e)
          (inl (refl, λ j lo hi. widen owner i j f (λ past. others j past (omega arith)) lo))
    | inr (k, e, lo, hi, found, others) ↦
        rw (f, e)
          (inr (
            k,
            refl,
            omega arith,
            omega arith,
            found,
            λ j from below. widen owner i j f (λ past. others j past below) from,
          ))
  ]
]
  where
    widen :
        (owner : List ℤ) (i j : ℕ)
        → is_free owner i ≡ false
        → (i + 1 ≤ j → is_free owner j ≡ false)
        → i ≤ j
        → is_free owner j ≡ false
    widen owner i j f later lo = elim (Bool-cases (i == j)) [
      | inl e ↦ subst (λ k. is_free owner k ≡ false) ((==_iff i j).0 e) f
      | inr e ↦ later (ground arith)
    ]

count_owned-full : (owner : List ℤ) (n : ℕ) → NoneFree owner 0 n → count_owned owner n ≡ n
unfolding count_owned
count_owned-full owner zero h = refl
count_owned-full owner (suc n) h =
    rw (h n (omega arith) (omega arith), count_owned-full owner n (λ j lo hi. h j lo (omega arith)))
      (omega arith)

is_free-set_ne :
    (owner : List ℤ) (i j : ℕ) (v : ℤ) → i ≢ j → is_free (set owner i v) j ≡ is_free owner j
unfolding is_free
is_free-set_ne owner i j v ne = rw (get_or-set_ne owner v (pos 0) ne) refl

is_free-set_self :
    (owner : List ℤ) (i : ℕ) (v : ℤ) → i < length owner → is_free (set owner i v) i ≡ eq_ℤ v (pos 0)
unfolding is_free
is_free-set_self owner i v h = rw (get_or-set_self owner i v (pos 0) h) refl

-- A claimed place counts once, in the rounds that look at it.
count_owned-claim :
    (owner : List ℤ) (n i : ℕ) (v : ℤ)
    → i < length owner
    → is_free owner i ≡ true
    → eq_ℤ v (pos 0) ≡ false
    → count_owned (set owner i v) n
      ≡ (if ltb i n then count_owned owner n + 1 else count_owned owner n)
unfolding count_owned
count_owned-claim owner zero i v h free claimed = ground arith
count_owned-claim owner (suc n) i v h free claimed =
    let rest = count_owned-claim owner n i v h free claimed in
    elim (Bool-cases (i == n)) [
      | inl e ↦
          let same = (==_iff i n).0 e in
          let now =
            subst (λ k. is_free (set owner i v) k ≡ false) same
              (is_free-set_self owner i v h ∙ claimed) in
          let before = subst (λ k. is_free owner k ≡ true) same free in
          let inside : ltb i (suc n) ≡ true = ground arith in
          let outside : ltb i n ≡ false = ground arith in
          rw (now, before, inside, rest, outside) (omega arith)
      | inr e ↦
          let ne : i ≢ n = λ p. not_both (i == n) ((==_iff i n).1 p) e in
          let inside : ltb i (suc n) ≡ ltb i n = ground arith in
          rw (is_free-set_ne owner i n v ne, inside, rest)
            (elim (Bool-cases (ltb i n)) [ inl f ↦ rw f (omega arith) | inr f ↦ rw f refl ])
    ]

try_add-none :
    {A : Type 0} (b : BridgeShared A) (pid : ℤ)
    → first_free b.owner 0 4 ≡ none
    → try_add_bridge_client b pid ≡ (none, b)
unfolding try_add_bridge_client
try_add-none b pid e =
    ap
      (λ o. elim o [ none ↦ (none, b) | some i ↦ (some i, record b { owner = set b.owner i pid }) ])
      e

try_add-some :
    {A : Type 0} (b : BridgeShared A) (pid : ℤ) (i : ℕ)
    → first_free b.owner 0 4 ≡ some i
    → try_add_bridge_client b pid ≡ (some i, record b { owner = set b.owner i pid })
unfolding try_add_bridge_client
try_add-some b pid i e =
    ap
      (λ o. elim o [ none ↦ (none, b) | some k ↦ (some k, record b { owner = set b.owner k pid }) ])
      e

set-set : (xs : List ℤ) (i : ℕ) (v w : ℤ) → set (set xs i v) i w ≡ set xs i w
set-set [] i v w = refl
set-set (x ∷ xs) zero v w = refl
set-set (x ∷ xs) (suc i) v w = ap (λ t. x ∷ t) (set-set xs i v w)

eq_zero : (z : ℤ) → eq_ℤ z (pos 0) ≡ true → z ≡ pos 0
eq_zero z h = eq_ℤ→eq z (pos 0) h

set_free :
    (xs : List ℤ) (i : ℕ) → i < length xs → get_or xs i (pos 0) ≡ pos 0 → set xs i (pos 0) ≡ xs
set_free [] i h e = refl
set_free (x ∷ xs) zero h e = ap (λ t. t ∷ xs) (sym e)
set_free (x ∷ xs) (suc i) h e = ap (λ t. x ∷ t) (set_free xs i (omega arith) e)

removed-owner :
    {A : Type 0} (b : BridgeShared A) (pid : ℤ) (i : ℕ)
    → i < 4
    → length b.owner ≡ 4
    → is_free b.owner i ≡ true
    → (remove_bridge_client (record b { owner = set b.owner i pid }) (pos i)).owner ≡ b.owner
unfolding remove_bridge_client is_free
removed-owner b pid i h places free =
    let near : leb 4 i ≡ false = ground arith in
    rw near (
      set-set b.owner i pid (pos 0)
      ∙ set_free b.owner i (subst (λ n. i < n) (sym places) h) (eq_zero _ free))

-- A process that joins a Bridge gets the first free place and one more client is counted, or all four
-- places were taken and nothing changes; giving the place back restores the owners.
pub try_add_bridge_client_lem :
    {A : Type 0} (b : BridgeShared A) (pid : ℤ)
    → length b.owner ≡ 4
    → eq_ℤ pid (pos 0) ≡ false
    → let (place, b') = try_add_bridge_client b pid in
      ((place ≡ none) × (b' ≡ b) × (count_bridge_clients b ≡ 4))
      ⊎ ((i : ℕ) × (place ≡ some i)
          × (i < 4)
          × (is_free b.owner i ≡ true)
          × NoneFree b.owner 0 i
          × (count_bridge_clients b' ≡ count_bridge_clients b + 1)
          × ((remove_bridge_client b' (pos i)).owner ≡ b.owner))
unfolding count_bridge_clients
try_add_bridge_client_lem b pid places claimed = elim (first_free-cases b.owner 0 4) [
  | inl (e, taken) ↦ rw (try_add-none b pid e) (inl (refl, refl, count_owned-full b.owner 4 taken))
  | inr (i, e, lo, hi, free, others) ↦
      let inside : ltb i 4 ≡ true = ground arith in
      let joined =
        count_owned-claim b.owner 4 i pid (subst (λ n. i < n) (sym places) hi) free claimed in
      rw (try_add-some b pid i e) (
        inr (
          i,
          refl,
          hi,
          free,
          others,
          rw (joined, inside) refl,
          removed-owner b pid i hi places free,
        ))
]
