-- ===== src/Distr/Frame/RoundTrip.antt =====
-- Decoding a frame that was encoded.
use zestors.Base.{
  ℕ, ◌<◌, ◌≡◌, refl, ap, ◌∙◌, true, Option, none, some, ok, err, List, [], ◌∷◌, ◌++◌, append_assoc,
  length, All,
}
use zestors.Distr.Bytes.{Bytes, put, Fits, Fits-u16, get-put, split_to}
use zestors.Distr.Text.{is_utf8, from_utf8, from_utf8_lossy}
use zestors.Distr.Frame.{
  RemoteError, unknown_message, no_such_actor, not_accepted, closed, overloaded, no_reply,
  too_large, unknown, decode_error, encode_error, Frame, message, reply, put_requests, get_requests,
  put_target, get_target, put_error, get_error, put_call_id, get_call_id, encode, decode, ◌>>?◌,
}

pub split_to-append : (xs ys : Bytes) → split_to (length xs) (xs ++ ys) ≡ some (xs, ys)
unfolding split_to
split_to-append [] ys = refl
split_to-append (x ∷ xs) ys = rw (split_to, split_to-append xs ys) refl

get_requests-put_requests :
    (rs : List ℕ) (bs : Bytes)
    → All (Fits 8) rs
    → get_requests (length rs) (put_requests rs ++ bs) ≡ some (rs, bs)
get_requests-put_requests [] bs a = refl
get_requests-put_requests (r ∷ rs) bs a =
    rw
      (
        append_assoc (put 8 r) (put_requests rs) bs,
        get-put 8 r (put_requests rs ++ bs) a.0,
        get_requests-put_requests rs bs a.1,
      )
      refl

-- A target that fits its fields: the name is UTF-8 of less than 2 ^ 16 bytes, the message id fits 16 bytes,
-- and there are less than 2 ^ 16 requests, each of which fits 8 bytes.
pub record TargetFits (target : Bytes) (msg : ℕ) (requests : List ℕ) : Type 0 where
  pub name_utf8 : is_utf8 target ≡ true
  pub name_length : length target < 65536
  pub id_fits : Fits 16 msg
  pub count : length requests < 65536
  pub requests_fit : All (Fits 8) requests

regroup :
    (a b c d e f : Bytes) → (a ++ (b ++ (c ++ (d ++ e)))) ++ f ≡ a ++ (b ++ (c ++ (d ++ (e ++ f))))
regroup a b c d e f =
    append_assoc a (b ++ (c ++ (d ++ e))) f
    ∙ ap (λ x. a ++ x) (append_assoc b (c ++ (d ++ e)) f)
    ∙ ap (λ x. a ++ (b ++ x)) (append_assoc c (d ++ e) f)
    ∙ ap (λ x. a ++ (b ++ (c ++ x))) (append_assoc d e f)

put_target-append :
    (target : Bytes) (msg : ℕ) (requests : List ℕ) (bs : Bytes)
    → put_target target msg requests ++ bs
      ≡ put 2 (length target)
        ++ (target ++ (put 16 msg ++ (put 2 (length requests) ++ (put_requests requests ++ bs))))
unfolding put_target
put_target-append target msg requests bs =
    regroup (put 2 (length target)) target (put 16 msg) (put 2 (length requests))
      (put_requests requests) bs

get_target-put_target :
    (target : Bytes) (msg : ℕ) (requests : List ℕ) (bs : Bytes)
    → TargetFits target msg requests
    → get_target (put_target target msg requests ++ bs) ≡ some (target, msg, requests, bs)
unfolding get_target from_utf8
get_target-put_target target msg requests bs f =
    let tail4 = put_requests requests ++ bs in
    let tail3 = put 2 (length requests) ++ tail4 in
    let tail2 = put 16 msg ++ tail3 in
    rw
      (
        put_target-append target msg requests bs,
        get_target,
        get-put 2 (length target) (target ++ tail2) (Fits-u16 (length target) f.name_length),
        split_to-append target tail2,
        f.name_utf8,
        get-put 16 msg tail3 f.id_fits,
        get-put 2 (length requests) tail4 (Fits-u16 (length requests) f.count),
        get_requests-put_requests requests bs f.requests_fit,
      )
      refl

-- An error whose reason is UTF-8.
abbrev pub ErrorFits : RemoteError → Type 0
ErrorFits (decode_error reason) = is_utf8 reason ≡ true
ErrorFits (encode_error reason) = is_utf8 reason ≡ true
ErrorFits e = Unit

abbrev pub CallFits : Option ℕ → Type 0
CallFits none = Unit
CallFits (some id) = Fits 8 id

abbrev pub FrameFits : Frame → Type 0
FrameFits (message call_id target msg requests payload) =
    CallFits call_id × TargetFits target msg requests
FrameFits (reply call_id (ok payload)) = Fits 8 call_id
FrameFits (reply call_id (err e)) = Fits 8 call_id × ErrorFits e

module _ (replace : Bytes → Bytes) where
  get_error-put_error : (e : RemoteError) → ErrorFits e → get_error replace (put_error e) ≡ some e
  unfolding get_error put_error from_utf8_lossy
  get_error-put_error (decode_error reason) f = rw (get_error, f) refl
  get_error-put_error (encode_error reason) f = rw (get_error, f) refl
  get_error-put_error unknown_message f = refl
  get_error-put_error no_such_actor f = refl
  get_error-put_error not_accepted f = refl
  get_error-put_error closed f = refl
  get_error-put_error overloaded f = refl
  get_error-put_error no_reply f = refl
  get_error-put_error too_large f = refl
  get_error-put_error unknown f = refl

  get_call_id-put_call_id :
      (id : Option ℕ) (bs : Bytes)
      → CallFits id
      → get_call_id replace (put_call_id id ++ bs) ≡ some (id, bs)
  get_call_id-put_call_id none bs f = refl
  get_call_id-put_call_id (some id) bs f = rw (get-put 8 id bs f) refl

  decode-message :
      (bs : Bytes)
      → decode replace (1 ∷ bs) ≡ (
          get_call_id replace bs >>? λ (call_id, bs').
          (get_target bs' >>? λ (target, msg, requests, payload).
          some (message call_id target msg requests payload)))
  unfolding decode
  decode-message bs = refl

  -- A frame whose fields fit their encoding is decoded to itself: a call id or a request is below 2 ^ 64, a
  -- message id below 2 ^ 128, the name and the reason of an error are UTF-8, and the name and the list
  -- of requests are shorter than 2 ^ 16.
  pub decode-encode : (f : Frame) → FrameFits f → decode replace (encode f) ≡ some f
  unfolding decode encode
  decode-encode (message call_id target msg requests payload) h =
      decode-message (put_call_id call_id ++ (put_target target msg requests ++ payload))
      ∙ rw
          (
            get_call_id-put_call_id call_id (put_target target msg requests ++ payload) h.0,
            get_target-put_target target msg requests payload h.1,
          )
          refl
  decode-encode (reply call_id (ok payload)) h = rw (decode, get-put 8 call_id (0 ∷ payload) h) refl
  decode-encode (reply call_id (err e)) h =
      rw (decode, get-put 8 call_id (1 ∷ put_error e) h.0, get_error-put_error e h.1) refl
