-- ===== src/Transport/Connection.antt =====
-- src/traghetto/transport/Connection.cpp, `Send`, `WriteAll`, `ReadMore` and `Receive`. What the
-- socket's `recv` and `send` will return are lists of results, and what `send` has taken so far is a
-- list of bytes, the wire.
pub mod Stream
pub mod Writes
use campiello.Common.{
  ℕ, zero, suc, Bool, true, false, Option, none, some, List, [], ◌∷◌, ◌++◌, if◌then◌else◌, take,
  drop,
}
use campiello.Wire.Frame.{
  Frame, FrameParser, ParseError, ParseResult, frame, need_more, feed, next, new_parser,
  encode_frame_into,
}
use campiello.Wire.Frame

-- What one `recv` returns: bytes (at most 4096), EINTR, another error, or 0 at the end of the stream.
pub data Recv : Type 0 where
  received : List ℕ → Recv
  interrupted failed end_of_stream : Recv

-- The values of `fError`.
pub data ConnectionError : Type 0 where
  connection_closed payload_too_large write_error read_error closed_by_peer : ConnectionError
  protocol : Option ParseError → ConnectionError

pub record Connection : Type 0 where
  pub is_open : Bool
  pub parser : FrameParser
  pub error : Option ConnectionError

-- `explicit Connection(int fd)` on a valid descriptor.
abbrev pub new_connection : Connection
new_connection = record { is_open = true; parser = new_parser; error = none }

-- How `Receive` ends; `blocked` means that it waits for the socket.
pub data Outcome : Type 0 where
  delivered : Frame → List Recv → Connection → Outcome
  refused : List Recv → Connection → Outcome
  blocked : Connection → Outcome

abbrev pub with_error : ConnectionError → Connection → Connection
with_error e c = record c { error = some e }

-- One round of `Receive`: `more` goes on with `ReadMore`.
abbrev pub pull_result :
    (Connection → Outcome) → List Recv → Connection → ParseResult × FrameParser → Outcome
pull_result more net c (frame f, p) = delivered f net (record c { parser = p })
pull_result more net c (need_more, p) = more (record c { parser = p })
pull_result more net c (ParseResult.error, p) =
    refused net (with_error (protocol p.error) (record c { parser = p }))

unfoldable pub pull : (Connection → Outcome) → List Recv → Connection → Outcome
pull more net c = pull_result more net c (next c.parser)

-- `ReadMore`, and the loop of `Receive` behind it.
unfoldable pub read_more : List Recv → Connection → Outcome
read_more [] c = blocked c
read_more (received bytes ∷ net) c =
    pull (read_more net) net (record c { parser = feed bytes c.parser })
read_more (interrupted ∷ net) c = read_more net c
read_more (failed ∷ net) c = refused net (with_error read_error c)
read_more (end_of_stream ∷ net) c = refused net (with_error closed_by_peer c)

-- `Receive`
unfoldable pub receive : List Recv → Connection → Outcome
receive net c =
    if c.is_open then pull (read_more net) net c else refused net (with_error connection_closed c)

-- What one `send` returns: the count of bytes taken, EINTR or another error.
pub data SendResult : Type 0 where
  taken : ℕ → SendResult
  send_interrupted send_failed : SendResult

-- How a write ends, with the results not yet used and the bytes on the wire; `waiting` means that it
-- waits for the socket.
pub data Written : Type 0 where
  finished broken : List SendResult → List ℕ → Written
  waiting : List ℕ → Written

-- `WriteAll`: the second list is what is left from `offset` on.
unfoldable pub write_all : List SendResult → List ℕ → List ℕ → Written
write_all sends [] wire = finished sends wire
write_all [] (b ∷ rest) wire = waiting wire
write_all (taken zero ∷ sends) (b ∷ rest) wire = broken sends wire
write_all (taken (suc n) ∷ sends) (b ∷ rest) wire =
    write_all sends (drop n rest) (wire ++ (b ∷ take n rest))
write_all (send_interrupted ∷ sends) (b ∷ rest) wire = write_all sends (b ∷ rest) wire
write_all (send_failed ∷ sends) (b ∷ rest) wire = broken sends wire

-- How `Send` ends.
pub data Sent : Type 0 where
  sent unsent : List SendResult → List ℕ → Connection → Sent
  stalled : List ℕ → Connection → Sent

abbrev pub sent_result : Connection → Written → Sent
sent_result c (finished sends wire) = sent sends wire c
sent_result c (broken sends wire) = unsent sends wire (with_error write_error c)
sent_result c (waiting wire) = stalled wire c

abbrev pub send_bytes : List SendResult → List ℕ → Connection → Option (List ℕ) → Sent
send_bytes sends wire c none = unsent sends wire (with_error payload_too_large c)
send_bytes sends wire c (some bytes) = sent_result c (write_all sends bytes wire)

-- `Send`
unfoldable pub send : Frame → List SendResult → List ℕ → Connection → Sent
send f sends wire c =
    if c.is_open
    then send_bytes sends wire c (encode_frame_into f [])
    else unsent sends wire (with_error connection_closed c)
