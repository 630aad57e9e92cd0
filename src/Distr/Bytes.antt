-- ===== src/Distr/Bytes.antt =====
-- Numbers as bytes, most significant first, as `put_u16`, `put_u64` and `put_u128` of `bytes::BufMut` write
-- them and their counterparts of `bytes::Buf` read them. A byte is a number below 256.
use zestors.Base.{
  ℕ, zero, suc, ◌+◌, ◌*◌, ◌/◌, ◌%◌, ◌<◌, ◌≡◌, ap, Option, none, some, List, [], ◌∷◌, ◌++◌,
  append_assoc, arith,
}

abbrev pub Bytes : Type 0
Bytes = List ℕ

-- The low bytes of a number: what an `as` cast to that width keeps.
unfoldable pub put : ℕ → ℕ → Bytes
put zero v = []
put (suc n) v = put n (v / 256) ++ (v % 256) ∷ []

abbrev last_byte : ℕ × Bytes → Option (ℕ × Bytes)
last_byte (v, []) = none
last_byte (v, b ∷ bs) = some (v * 256 + b, bs)

unfoldable pub get : ℕ → Bytes → Option (ℕ × Bytes)
get zero bs = some (0, bs)
get (suc n) bs = elim (get n bs) [ none ↦ none | some r ↦ last_byte r ]

-- The number has no more bytes than that.
abbrev pub Fits : ℕ → ℕ → Type 0
Fits zero v = v ≡ 0
Fits (suc n) v = Fits n (v / 256)

pub get-put : (n v : ℕ) (bs : Bytes) → Fits n v → get n (put n v ++ bs) ≡ some (v, bs)
unfolding get put
get-put zero v bs f = ground arith
get-put (suc n) v bs f =
    let e : put (suc n) v ++ bs ≡ put n (v / 256) ++ (v % 256) ∷ bs =
      append_assoc (put n (v / 256)) ((v % 256) ∷ []) bs in
    let whole : (v / 256) * 256 + v % 256 ≡ v = omega arith in
    rw (e, get, get-put n (v / 256) ((v % 256) ∷ bs) f) (ap (λ x. some (x, bs)) whole)

pub Fits-u16 : (v : ℕ) → v < 65536 → Fits 2 v
Fits-u16 v h = omega arith

-- `split_to`, after the test that so many bytes remain.
unfoldable pub split_to : ℕ → Bytes → Option (Bytes × Bytes)
split_to zero bs = some ([], bs)
split_to (suc n) [] = none
split_to (suc n) (b ∷ bs) = elim (split_to n bs) [
  | none ↦ none
  | some (front, rest) ↦ some (b ∷ front, rest)
]
