-- ===== src/Distr/Frame.antt =====
-- crates/distr/src/messaging/frame.rs: how messages between actors are laid out.
pub mod RoundTrip
use zestors.Base.{
  ℕ, zero, suc, ◌%◌, ◌*◌, Bool, true, false, Option, none, some, Result, ok, err, List, [], ◌∷◌,
  ◌++◌, length, ltb, ◌==◌, if◌then◌else◌,
}
use zestors.Distr.Bytes.{Bytes, put, get, split_to}
use zestors.Distr.Text.{from_utf8, from_utf8_lossy}

-- `RemoteError` of crates/distr/src/messaging/error.rs.
pub data RemoteError : Type 0 where
  unknown_message no_such_actor not_accepted closed overloaded no_reply : RemoteError
  decode_error encode_error : Bytes → RemoteError
  too_large unknown : RemoteError

-- `call_id`, `target`, `msg`, `requests` and `payload`; `call_id` and `result`. A message id is the number
-- of its UUID.
pub data Frame : Type 0 where
  message : Option ℕ → Bytes → ℕ → List ℕ → Bytes → Frame
  reply : ℕ → Result Bytes RemoteError → Frame

abbrev pub put_requests : List ℕ → Bytes
put_requests [] = []
put_requests (r ∷ rs) = put 8 r ++ put_requests rs

unfoldable pub put_target : Bytes → ℕ → List ℕ → Bytes
put_target target msg requests =
    put 2 (length target)
    ++ (target ++ (put 16 msg ++ (put 2 (length requests) ++ put_requests requests)))

unfoldable pub put_error : RemoteError → Bytes
put_error unknown_message = 1 ∷ []
put_error no_such_actor = 2 ∷ []
put_error not_accepted = 3 ∷ []
put_error closed = 4 ∷ []
put_error overloaded = 5 ∷ []
put_error no_reply = 6 ∷ []
put_error (decode_error reason) = 7 ∷ reason
put_error (encode_error reason) = 8 ∷ reason
put_error too_large = 9 ∷ []
put_error unknown = 0 ∷ []

abbrev pub put_call_id : Option ℕ → Bytes
put_call_id none = 0 ∷ []
put_call_id (some id) = 1 ∷ put 8 id

abbrev put_result : Result Bytes RemoteError → Bytes
put_result (ok payload) = 0 ∷ payload
put_result (err e) = 1 ∷ put_error e

unfoldable pub encode : Frame → Bytes
unfolding put_target put_error
encode (message call_id target msg requests payload) =
    1 ∷ (put_call_id call_id ++ (put_target target msg requests ++ payload))
encode (reply call_id result) = 2 ∷ (put 8 call_id ++ put_result result)

infixl 4 ◌>>?◌
abbrev pub ◌>>?◌ : {A B : Type 0} → Option A → (A → Option B) → Option B
none >>? f = none
some a >>? f = f a

abbrev pub get_requests : ℕ → Bytes → Option (List ℕ × Bytes)
get_requests zero bs = some ([], bs)
get_requests (suc n) bs =
    get 8 bs >>? λ (r, bs'). (get_requests n bs' >>? λ (rs, rest). some (r ∷ rs, rest))

unfoldable pub get_target : Bytes → Option (Bytes × ℕ × List ℕ × Bytes)
unfolding from_utf8
get_target bs = get 2 bs >>? λ (len, bs1).
    (split_to len bs1 >>? λ (front, bs2).
    (from_utf8 front >>? λ name.
    (get 16 bs2 >>? λ (id, bs3).
    (get 2 bs3 >>? λ (count, bs4).
    (get_requests count bs4 >>? λ (requests, rest). some (name, id, requests, rest))))))

module _ (replace : Bytes → Bytes) where
  abbrev error_of : ℕ → Bytes → RemoteError
  error_of kind bs =
      if kind == 1
      then unknown_message
      else if kind == 2
      then no_such_actor
      else if kind == 3
      then not_accepted
      else if kind == 4
      then closed
      else if kind == 5
      then overloaded
      else if kind == 6
      then no_reply
      else if kind == 7
      then decode_error (from_utf8_lossy replace bs)
      else if kind == 8
      then encode_error (from_utf8_lossy replace bs)
      else if kind == 9
      then too_large
      else unknown

  unfoldable pub get_error : Bytes → Option RemoteError
  unfolding from_utf8_lossy
  get_error [] = none
  get_error (kind ∷ bs) = some (error_of kind bs)

  abbrev pub get_call_id : Bytes → Option (Option ℕ × Bytes)
  get_call_id [] = none
  get_call_id (kind ∷ bs) =
      if kind == 0
      then some (none, bs)
      else if kind == 1
      then (get 8 bs >>? λ (id, rest). some (some id, rest))
      else none

  abbrev get_result : Bytes → Option (Result Bytes RemoteError)
  get_result [] = none
  get_result (kind ∷ bs) =
      if kind == 0
      then some (ok bs)
      else if kind == 1
      then (get_error bs >>? λ e. some (err e))
      else none

  unfoldable pub decode : Bytes → Option Frame
  unfolding get_target get_error
  decode [] = none
  decode (kind ∷ bs) =
      if kind == 1
      then (get_call_id bs >>? λ (call_id, bs').
          (get_target bs' >>? λ (target, msg, requests, payload).
          some (message call_id target msg requests payload)))
      else if kind == 2
      then (get 8 bs >>? λ (call_id, bs').
          (get_result bs' >>? λ result. some (reply call_id result)))
      else none
