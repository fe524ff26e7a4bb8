-- ===== src/Table/Text.antt =====
-- C strings in fixed char arrays: a list of bytes, read up to its first 0.
pub mod Copy
use win_hook_audio.Prelude.{
  ℕ, zero, suc, ◌-◌, Bool, true, false, Option, none, some, List, [], ◌∷◌, ◌++◌, ◌==◌,
  if◌then◌else◌, get_or, take, drop, replicate, length,
}
use Prim.Native.String.{String}
use Prim.Native.Char.{code}

abbrev pub Chars : Type 0
Chars = List ℕ

-- The bytes of a literal (ASCII).
abbrev pub codes : String → Chars
codes String.[] = []
codes (String.◌∷◌ c s) = code c ∷ codes s

-- The string in an array: the bytes before the first 0 (an array without one is read to its end).
unfoldable pub c_string : Chars → Chars
c_string [] = []
c_string (c ∷ cs) = if c == 0 then [] else c ∷ c_string cs

-- `strncmp(a, b, n) == 0`
unfoldable pub strncmp_eq : ℕ → Chars → Chars → Bool
strncmp_eq zero a b = true
strncmp_eq (suc n) a b =
    let x = get_or a 0 0 in
    let y = get_or b 0 0 in
    let rest = strncmp_eq n (drop 1 a) (drop 1 b) in
    if x == y then (if x == 0 then true else rest) else false

-- The bytes that the first loop of `TruncateCopy` copies: at most `room`, up to the 0.
unfoldable pub copied : ℕ → Chars → Chars
copied zero src = []
copied (suc room) [] = []
copied (suc room) (c ∷ src) = if c == 0 then [] else c ∷ copied room src

-- `TruncateCopy(dst, dstLen, src)`, the array after it; `none` is a null `src`.
unfoldable pub truncate_copy : Chars → ℕ → Option Chars → Chars
unfolding copied
truncate_copy dst zero src = dst
truncate_copy dst (suc n) none = replicate (suc n) 0
truncate_copy dst (suc n) (some src) =
    let head = copied n src in head ++ replicate (suc n - length head) 0
