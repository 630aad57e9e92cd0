-- ===== src/Distr/Tests.antt =====
-- The round trip of concrete frames.
use zestors.Base.{◌≡◌, refl, some, none, [], ◌∷◌, arith}
use zestors.Distr.Bytes.{get, split_to}
use zestors.Distr.Text.{is_utf8}
use zestors.Distr.Frame.{Frame, message, encode, decode}
use zestors.Distr.Frame.RoundTrip.{FrameFits, decode-encode}

-- A call of the actor "hé" with two requests.
abbrev call : Frame
call = message (some 70_000) (104 ∷ 195 ∷ 169 ∷ []) 300 (5 ∷ 6 ∷ []) (1 ∷ 2 ∷ [])

call-FrameFits : FrameFits call
unfolding is_utf8
call-FrameFits = (
  omega arith,
  record {
    name_utf8 = refl;
    name_length = omega arith;
    id_fits = omega arith;
    count = omega arith;
    requests_fit = (omega arith, (omega arith, tt));
  },
)

-- Bytes that are no text are not decoded to a frame.
unreadable : decode (λ bs. bs) (1 ∷ 0 ∷ 0 ∷ 1 ∷ 255 ∷ []) ≡ none
unfolding decode get is_utf8 split_to
unreadable = refl

decode-encode_example : decode (λ bs. bs) (encode call) ≡ some call
decode-encode_example = decode-encode (λ bs. bs) call call-FrameFits
