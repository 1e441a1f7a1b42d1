-- ===== src/Tests/Frames.antt =====
-- Frames and their stream at concrete bytes.
use campiello.Common.{◌+◌, ◌≡◌, refl, none, some, List, [], ◌∷◌, ◌++◌, length, arith}
use campiello.Wire.Word.{be_bytes}
use campiello.Wire.MessageType
use campiello.Wire.Frame.{Frame, FrameParser, frame, encode_frame_into, encode_frame, next}
use campiello.Wire.Frame.Prefix.{buffered, next-encode_frame}
use campiello.Transport.Connection.{
  Recv, Connection, received, interrupted, new_connection, SendResult, taken, send_interrupted,
  send_failed, write_all, send,
}
use campiello.Transport.Connection.Writes.{SendEnds, send-Ends, send_many, receive_many-send_many}
use campiello.Transport.Connection.Stream.{encodings, bytes_of, receive_many}

abbrev ping : Frame
ping = record { version = 1; type = MessageType.close; request_id = 7; payload = 0xa0 ∷ [] }

ping_bytes : encode_frame ping ≡ 0x43 ∷ 0x4e ∷ 1 ∷ 0x15 ∷ 0 ∷ 0 ∷ 0 ∷ 7 ∷ 0 ∷ 0 ∷ 0 ∷ 1 ∷ 0xa0 ∷ []
unfolding encode_frame encode_frame_into be_bytes
ping_bytes = refl

-- The parser that was fed a frame and the first byte of the next one.
abbrev fed : FrameParser
fed = record { buffer = encode_frame ping ++ (0x43 ∷ []); read_pos = 0; error = none }

next-encode_frame_example :
    next fed ≡ (frame ping, record fed { read_pos = 0 + length (encode_frame ping) })
next-encode_frame_example = next-encode_frame ping (0x43 ∷ []) fed (omega arith) refl refl

abbrev partly : FrameParser
partly = record { buffer = 0x43 ∷ 0x4e ∷ 1 ∷ []; read_pos = 0; error = none }

-- Two frames, cut inside a header and between the two, with an interrupted read.
abbrev cuts : List Recv
cuts =
    received (0x43 ∷ 0x4e ∷ 1 ∷ 0x15 ∷ 0 ∷ [])
    ∷ interrupted
    ∷ received (0 ∷ 0 ∷ 7 ∷ 0 ∷ 0 ∷ 0 ∷ 1 ∷ 0xa0 ∷ 0x43 ∷ [])
    ∷ received (0x4e ∷ 1 ∷ 0x15 ∷ 0 ∷ 0 ∷ 0 ∷ 7 ∷ 0 ∷ 0 ∷ 0 ∷ 1 ∷ 0xa0 ∷ [])
    ∷ []

-- A send in two parts with an interruption, a send that breaks, and the stream of two frames.
abbrev sends : List SendResult
sends = taken 5 ∷ send_interrupted ∷ taken 8 ∷ taken 13 ∷ []

send-Ends_example :
    SendEnds ping [] new_connection (send ping (taken 5 ∷ send_failed ∷ []) [] new_connection)
send-Ends_example = send-Ends ping (taken 5 ∷ send_failed ∷ []) [] new_connection

receive_many-send_many_example :
    (net : List Recv) × (c : Connection) × (receive_many 2 cuts new_connection
      ≡ some (ping ∷ ping ∷ [], net, c))
    × (buffered c.parser ++ bytes_of net ≡ [])
unfolding encodings bytes_of encode_frame encode_frame_into be_bytes send_many send write_all
receive_many-send_many_example =
    receive_many-send_many (ping ∷ ping ∷ []) sends new_connection new_connection
      (encode_frame ping ++ encode_frame ping) cuts (omega arith) refl refl
