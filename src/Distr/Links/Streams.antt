-- ===== src/Distr/Links/Streams.antt =====
-- crates/distr/src/link/wire.rs, and read_stream of mod.rs: how messages are laid out on streams. A stream
-- that is read is the bytes that come until it ends.
pub mod RoundTrip
use zestors.Base.{
  ℕ, zero, suc, Bool, true, false, Option, none, some, List, [], ◌∷◌, ◌++◌, length, ltb, ◌==◌,
  if◌then◌else◌,
}
use zestors.Distr.Bytes.{Bytes, put, get, split_to}

abbrev pub max_message_size : ℕ
max_message_size = 4194304

abbrev pub max_hello_size : ℕ
max_hello_size = 1024

-- The length is cast to a u32.
unfoldable pub write_frame : Bytes → Bytes
write_frame payload = put 4 (length payload) ++ payload

-- A frame and what comes after it, the end of the stream between two frames, or an error.
pub data Read : Type 0 where
  frame : Bytes → Bytes → Read
  ended failed : Read

abbrev pub read_payload : Option (Bytes × Bytes) → Read
read_payload none = failed
read_payload (some (payload, rest)) = frame payload rest

abbrev pub read_length : ℕ → Option (ℕ × Bytes) → Read
read_length max none = failed
read_length max (some (len, rest)) =
    if ltb max len then failed else read_payload (split_to len rest)

unfoldable pub read_frame : ℕ → Bytes → Read
read_frame max [] = ended
read_frame max (b ∷ bs) = read_length max (get 4 (b ∷ bs))

unfoldable pub write_hello : ℕ → Bytes
unfolding write_frame
write_hello generation = write_frame (put 8 generation)

-- `<[u8; 8]>::try_from` and `from_be_bytes`.
abbrev pub eight_bytes : Option (ℕ × Bytes) → Option ℕ
eight_bytes none = none
eight_bytes (some (v, [])) = some v
eight_bytes (some (v, b ∷ bs)) = none

abbrev pub hello_in : Read → Option ℕ
hello_in (frame payload rest) = eight_bytes (get 8 payload)
hello_in ended = none
hello_in failed = none

unfoldable pub read_hello : Bytes → Option ℕ
unfolding read_frame
read_hello bs = hello_in (read_frame max_hello_size bs)

-- What is handed on from a stream: the payloads, and whether it was read to its end. The fuel is the
-- rounds of the loop.
abbrev pub deliver_next : Read → (Bytes → List Bytes × Bool) → List Bytes × Bool
deliver_next ended more = ([], true)
deliver_next failed more = ([], false)
deliver_next (frame payload rest) more = let (ps, whole) = more rest in (payload ∷ ps, whole)

unfoldable pub read_frames : ℕ → Bytes → List Bytes × Bool
unfolding read_frame
read_frames zero bs = ([], false)
read_frames (suc fuel) bs =
    deliver_next (read_frame max_message_size bs) (λ rest. read_frames fuel rest)

-- The protocol that the messages are for, and the messages.
unfoldable pub read_stream : ℕ → Bytes → Option (ℕ × (List Bytes × Bool))
unfolding read_frames
read_stream fuel [] = none
read_stream fuel (protocol ∷ bs) = some (protocol, read_frames fuel bs)

abbrev pub write_frames : List Bytes → Bytes
write_frames [] = []
write_frames (p ∷ ps) = write_frame p ++ write_frames ps

-- What `send_ordered` writes to a stream that it opened, for one message after another.
abbrev pub write_stream : ℕ → List Bytes → Bytes
write_stream protocol ps = protocol ∷ write_frames ps
