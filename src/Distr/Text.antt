-- ===== src/Distr/Text.antt =====
-- Strings of the standard library, as their UTF-8 bytes.
use zestors.Base.{
  ℕ, zero, suc, Bool, true, false, ◌&&◌, Option, none, some, [], ◌∷◌, leb, ltb, ◌==◌, if◌then◌else◌,
}
use zestors.Distr.Bytes.{Bytes}

abbrev between : ℕ → ℕ → ℕ → Bool
between lo hi b = leb lo b && leb b hi

-- How many bytes follow a first byte, and the range of the next one. `none` is not a first byte.
abbrev follows : ℕ → Option (ℕ × ℕ × ℕ)
follows b =
    if ltb b 128
    then some (0, 128, 191)
    else if between 194 223 b
    then some (1, 128, 191)
    else if b == 224
    then some (2, 160, 191)
    else if b == 237
    then some (2, 128, 159)
    else if between 225 239 b
    then some (2, 128, 191)
    else if b == 240
    then some (3, 144, 191)
    else if between 241 243 b
    then some (3, 128, 191)
    else if b == 244
    then some (3, 128, 143)
    else none

-- Whether the bytes go on as UTF-8 when `n` more are due, the next of them in a range.
utf8_from : ℕ → ℕ → ℕ → Bytes → Bool
utf8_from zero lo hi [] = true
utf8_from (suc n) lo hi [] = false
utf8_from zero lo hi (b ∷ bs) = elim (follows b) [
  | none ↦ false
  | some (n, lo', hi') ↦ utf8_from n lo' hi' bs
]
utf8_from (suc n) lo hi (b ∷ bs) = let rest = utf8_from n 128 191 bs in between lo hi b && rest

unfoldable pub is_utf8 : Bytes → Bool
unfolding utf8_from
is_utf8 bs = utf8_from 0 128 191 bs

-- `str::from_utf8`.
unfoldable pub from_utf8 : Bytes → Option Bytes
unfolding is_utf8
from_utf8 bs = if is_utf8 bs then some bs else none

-- `String::from_utf8_lossy`, with `replace` for what it makes of other bytes.
unfoldable pub from_utf8_lossy : (Bytes → Bytes) → Bytes → Bytes
unfolding is_utf8
from_utf8_lossy replace bs = if is_utf8 bs then bs else replace bs
