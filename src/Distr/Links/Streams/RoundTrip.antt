-- ===== src/Distr/Links/Streams/RoundTrip.antt =====
-- Reading a stream that was written.
use zestors.Base.{
  ℕ, zero, suc, ◌<◌, ◌≤◌, ◌≡◌, refl, ◌∙◌, ap, true, false, some, List, [], ◌∷◌, ◌++◌, append_assoc,
  append-nil, length, length-append, sym, ◌/◌, ◌%◌, ltb, All, arith,
}
use zestors.Distr.Bytes.{Bytes, put, get, Fits, get-put}
use zestors.Distr.Frame.RoundTrip.{split_to-append}
use zestors.Distr.Links.Streams.{
  max_message_size, max_hello_size, write_frame, frame, read_length, read_frame, write_hello,
  eight_bytes, hello_in, read_hello, read_frames, read_stream, write_frames, write_stream,
}

Fits-u32 : (v : ℕ) → v < 4294967296 → Fits 4 v
Fits-u32 v h = omega arith

-- Reading never stops for lack of a first byte where a length follows.
read_frame-length :
    (max : ℕ) (bs rest : Bytes) (len : ℕ)
    → get 4 bs ≡ some (len, rest)
    → read_frame max bs ≡ read_length max (some (len, rest))
unfolding read_frame get
read_frame-length max [] rest len h = cc
read_frame-length max (b ∷ bs) rest len h = ap (read_length max) h

read_frame-write_frame :
    (max : ℕ) (p rest : Bytes)
    → length p ≤ max
    → max < 4294967296
    → read_frame max (write_frame p ++ rest) ≡ frame p rest
unfolding write_frame
read_frame-write_frame max p rest h k =
    let small : ltb max (length p) ≡ false = ground arith in
    rw (append_assoc (put 4 (length p)) p rest) (
      read_frame-length max (put 4 (length p) ++ (p ++ rest)) (p ++ rest) (length p)
        (get-put 4 (length p) (p ++ rest) (Fits-u32 (length p) (omega arith)))
      ∙ rw (small, split_to-append p rest) refl)

-- Short enough to be sent.
abbrev pub IsShort : Bytes → Type 0
IsShort p = length p ≤ max_message_size

read_frames-write_frames :
    (ps : List Bytes)
    → All IsShort ps
    → read_frames (suc (length ps)) (write_frames ps) ≡ (ps, true)
unfolding read_frames read_frame
read_frames-write_frames [] a = refl
read_frames-write_frames (p ∷ ps) a =
    rw
      (
        read_frame-write_frame max_message_size p (write_frames ps) a.0 (omega arith),
        read_frames-write_frames ps a.1,
      )
      refl

-- The messages that are written to a stream for a protocol, each within the size limit, are read from it
-- for that protocol, all of them and in their order, and then its end; one round of the loop for each
-- message and one more are enough.
pub read_stream-write_stream :
    (protocol : ℕ) (ps : List Bytes)
    → All IsShort ps
    → read_stream (suc (length ps)) (write_stream protocol ps) ≡ some (protocol, (ps, true))
unfolding read_stream
read_stream-write_stream protocol ps a =
    ap (λ r. some (protocol, r)) (read_frames-write_frames ps a)

length-put : (n v : ℕ) → length (put n v) ≡ n
unfolding put
length-put zero v = refl
length-put (suc n) v =
    length-append (put n (v / 256)) ((v % 256) ∷ []) ∙ omega (arith, length-put n (v / 256))

-- The generation that a node says hello with is the one that the peer reads, if it is below 2 ^ 64.
pub read_hello-write_hello : (g : ℕ) → Fits 8 g → read_hello (write_hello g) ≡ some g
unfolding read_hello write_hello
read_hello-write_hello g f =
    let whole : get 8 (put 8 g) ≡ some (g, []) =
      ap (get 8) (sym (append-nil (put 8 g))) ∙ get-put 8 g [] f in
    rw (sym (append-nil (write_frame (put 8 g)))) (
      ap hello_in (
        read_frame-write_frame max_hello_size (put 8 g) [] (omega (arith, length-put 8 g))
          (omega arith))
      ∙ ap eight_bytes whole)
