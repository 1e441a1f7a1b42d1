-- ===== src/Transport/Connection/Stream.antt =====
-- Frames come out of `Receive` as they were sent, however the stream cuts their bytes.
use campiello.Common.{
  ℕ, zero, suc, ◌+◌, ◌<◌, ◌≡◌, ◌≢◌, refl, sym, ap, ◌∙◌, true, Bool-cases, inl, inr, Option, none,
  some, List, [], ◌∷◌, ◌++◌, append_assoc, ltb, length, length-append, drop-drop, append-split, All,
  arith,
}
use campiello.Wire.Frame.{Frame, FrameParser, feed, encode_frame}
use campiello.Wire.Frame.Header.{IsFrame}
use campiello.Wire.Frame.Prefix.{buffered, next-encode_frame, next-front}
use campiello.Transport.Connection.{
  Recv, received, interrupted, failed, end_of_stream, Connection, new_connection, Outcome,
  delivered, refused, blocked, pull_result, pull, read_more, receive,
}

-- The bytes of a sequence of frames, and the bytes that a socket still delivers.
unfoldable pub encodings : List Frame → List ℕ
encodings [] = []
encodings (f ∷ fs) = encode_frame f ++ encodings fs

unfoldable pub bytes_of : List Recv → List ℕ
bytes_of [] = []
bytes_of (received bytes ∷ net) = bytes ++ bytes_of net
bytes_of (interrupted ∷ net) = bytes_of net
bytes_of (failed ∷ net) = []
bytes_of (end_of_stream ∷ net) = []

-- The frames `fs` are still to come: partly in the parser, partly on the socket.
pub record Pending (net : List Recv) (c : Connection) (fs : List Frame) : Type 0 where
  pub is_open : c.is_open ≡ true
  pub sound : c.parser.error ≡ none
  pub stream : buffered c.parser ++ bytes_of net ≡ encodings fs

buffered-feed : (bytes : List ℕ) (p : FrameParser) → buffered (feed bytes p) ≡ buffered p ++ bytes
unfolding feed
buffered-feed bytes p = elim (Bool-cases (ltb 0 p.read_pos)) [
  | inl moved ↦ rw (moved, feed) refl
  | inr at_start ↦ let e : p.read_pos ≡ 0 = ground arith in rw (at_start, feed) (rw e refl)
]

feed-error : (bytes : List ℕ) (p : FrameParser) → (feed bytes p).error ≡ p.error
unfolding feed
feed-error bytes p = ground arith

-- `f` was delivered, and the other frames are still to come.
Delivers : Frame → List Frame → Outcome → Type 0
Delivers f fs o = (net : List Recv) × (c : Connection) × (o ≡ delivered f net c) × Pending net c fs

pull-Delivers :
    (more : Connection → Outcome) (net : List Recv) (c : Connection) (f : Frame) (fs : List Frame)
    → IsFrame f
    → Pending net c (f ∷ fs)
    → (length (buffered c.parser) < length (encode_frame f) → Delivers f fs (more c))
    → Delivers f fs (pull more net c)
unfolding pull Delivers encodings
pull-Delivers more net c f fs v p wait =
    elim (Bool-cases (ltb (length (buffered c.parser)) (length (encode_frame f)))) [
      | inl part ↦
          let short : length (buffered c.parser) < length (encode_frame f) = ground arith in
          let split =
            append-split (encode_frame f) (encodings fs) (buffered c.parser) (bytes_of net)
              (sym p.stream) (omega arith) in
          let waits =
            next-front f (buffered c.parser) _ c.parser v p.sound refl (sym split.0) short in
          let (net', c', e, rest) = wait short in
          (net', c', ap (pull_result more net c) waits ∙ e, rest)
      | inr whole ↦
          let split =
            append-split (buffered c.parser) (bytes_of net) (encode_frame f) (encodings fs) p.stream
              (ground arith) in
          let found = next-encode_frame f _ c.parser v p.sound split.0 in
          (
            net,
            record c {
              parser = record c.parser { read_pos = c.parser.read_pos + length (encode_frame f) };
            },
            ap (pull_result more net c) found,
            record {
              is_open = p.is_open;
              sound = p.sound;
              stream =
                  ap (λ (l : List ℕ). l ++ bytes_of net)
                    (drop-drop (length (encode_frame f)) c.parser.read_pos c.parser.buffer)
                  ∙ split.1;
            },
          )
    ]

-- A socket that ends inside a frame would contradict what is still to come.
ends_inside :
    (net : List Recv) (c : Connection) (f : Frame) (fs : List Frame)
    → Pending net c (f ∷ fs)
    → length (buffered c.parser) < length (encode_frame f)
    → bytes_of net ≢ []
unfolding encodings
ends_inside net c f fs p short e = omega (
  arith,
  ap length p.stream,
  ap length e,
  length-append (buffered c.parser) (bytes_of net),
  length-append (encode_frame f) (encodings fs),
)

read_more-Delivers :
    (net : List Recv) (c : Connection) (f : Frame) (fs : List Frame)
    → IsFrame f
    → Pending net c (f ∷ fs)
    → length (buffered c.parser) < length (encode_frame f)
    → Delivers f fs (read_more net c)
unfolding read_more bytes_of
read_more-Delivers [] c f fs v p short = absurd (ends_inside [] c f fs p short refl)
read_more-Delivers (received bytes ∷ net) c f fs v p short =
    let c' = record c { parser = feed bytes c.parser } in
    let pending : Pending net c' (f ∷ fs) = record {
      is_open = p.is_open;
      sound = feed-error bytes c.parser ∙ p.sound;
      stream =
          ap (λ (l : List ℕ). l ++ bytes_of net) (buffered-feed bytes c.parser)
          ∙ append_assoc (buffered c.parser) bytes (bytes_of net)
          ∙ p.stream;
    } in
    pull-Delivers (read_more net) net c' f fs v pending
      (λ short'. read_more-Delivers net c' f fs v pending short')
read_more-Delivers (interrupted ∷ net) c f fs v p short =
    read_more-Delivers net c f fs v
      (record { is_open = p.is_open; sound = p.sound; stream = p.stream }) short
read_more-Delivers (failed ∷ net) c f fs v p short =
    absurd (ends_inside (failed ∷ net) c f fs p short refl)
read_more-Delivers (end_of_stream ∷ net) c f fs v p short =
    absurd (ends_inside (end_of_stream ∷ net) c f fs p short refl)

receive-Delivers :
    (net : List Recv) (c : Connection) (f : Frame) (fs : List Frame)
    → IsFrame f
    → Pending net c (f ∷ fs)
    → Delivers f fs (receive net c)
unfolding receive Delivers
receive-Delivers net c f fs v p =
    let (net', c', e, rest) =
      pull-Delivers (read_more net) net c f fs v p (read_more-Delivers net c f fs v p) in
    (net', c', ground (arith, p.is_open, e), rest)

abbrev put_first :
    Frame
    → Option (List Frame × List Recv × Connection)
    → Option (List Frame × List Recv × Connection)
put_first f none = none
put_first f (some (fs, net, c)) = some (f ∷ fs, net, c)

abbrev received_first :
    (List Recv → Connection → Option (List Frame × List Recv × Connection))
    → Outcome
    → Option (List Frame × List Recv × Connection)
received_first rest (delivered f net c) = put_first f (rest net c)
received_first rest (refused net c) = none
received_first rest (blocked c) = none

-- `n` calls of `Receive`, all of which must deliver.
unfoldable pub receive_many :
    ℕ → List Recv → Connection → Option (List Frame × List Recv × Connection)
receive_many zero net c = some ([], net, c)
receive_many (suc n) net c = received_first (receive_many n) (receive net c)

receive_many-Pending :
    (fs : List Frame) (net : List Recv) (c : Connection)
    → All IsFrame fs
    → Pending net c fs
    → (net' : List Recv) × (c' : Connection) × (receive_many (length fs) net c
        ≡ some (fs, net', c'))
      × Pending net' c' []
unfolding receive_many Delivers
receive_many-Pending [] net c v p = (net, c, refl, p)
receive_many-Pending (f ∷ fs) net c v p =
    let (n1, c1, e1, p1) = receive-Delivers net c f fs v.0 p in
    let (n2, c2, e2, p2) = receive_many-Pending fs n1 c1 v.1 p1 in
    (n2, c2, ap (received_first (receive_many (length fs))) e1 ∙ ap (put_first f) e2, p2)

-- However the socket cuts and interrupts a stream that carries the encodings of frames, a new
-- connection delivers exactly these frames, in order, and no byte of them is left or lost.
pub receive-encodings :
    (fs : List Frame) (net : List Recv)
    → All IsFrame fs
    → bytes_of net ≡ encodings fs
    → (net' : List Recv) × (c : Connection) × (receive_many (length fs) net new_connection
        ≡ some (fs, net', c))
      × (buffered c.parser ++ bytes_of net' ≡ [])
unfolding encodings
receive-encodings fs net v e =
    let (net', c, run, p) =
      receive_many-Pending fs net new_connection v
        (record { is_open = refl; sound = refl; stream = e }) in
    (net', c, run, p.stream)
