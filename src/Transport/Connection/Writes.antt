-- ===== src/Transport/Connection/Writes.antt =====
-- What `Send` puts on the wire, and that frames sent are the frames received.
use campiello.Common.{
  ℕ, zero, suc, ◌≡◌, ◌≢◌, refl, sym, ap, ◌∙◌, true, Bool-cases, inl, inr, Option, none, some, List,
  [], ◌∷◌, ◌++◌, append_assoc, take, drop, length, take-append-drop, All, subst,
}
use campiello.Wire.Frame.{Frame, encode_frame_into, encode_frame}
use campiello.Wire.Frame.Header.{IsFrame}
use campiello.Wire.Frame.Prefix.{buffered}
use campiello.Transport.Connection.{
  Recv, Connection, new_connection, SendResult, taken, send_interrupted, send_failed, Written,
  finished, broken, waiting, write_all, Sent, sent, unsent, stalled, sent_result, send_bytes, send,
}
use campiello.Transport.Connection.Stream.{encodings, bytes_of, receive_many, receive-encodings}

abbrev encoded : Option (List ℕ) → List ℕ
encoded none = []
encoded (some out) = out

-- A write that finishes has put all of the data on the wire, one that does not has put a proper front
-- of it there.
Fronts : List ℕ → List ℕ → Type 0
Fronts whole wire = (rest : List ℕ) × (wire ++ rest ≡ whole) × (rest ≢ [])

Wrote : List ℕ → Written → Type 0
Wrote whole (finished sends wire) = wire ≡ whole
Wrote whole (broken sends wire) = Fronts whole wire
Wrote whole (waiting wire) = Fronts whole wire

append_nil : (xs : List ℕ) → xs ++ [] ≡ xs
append_nil [] = refl
append_nil (x ∷ xs) = ap (◌∷◌ x) (append_nil xs)

write_all-Wrote :
    (sends : List SendResult) (bytes wire : List ℕ)
    → Wrote (wire ++ bytes) (write_all sends bytes wire)
unfolding write_all Wrote Fronts
write_all-Wrote sends [] wire = sym (append_nil wire)
write_all-Wrote [] (b ∷ rest) wire = (b ∷ rest, refl, λ e. cc)
write_all-Wrote (taken zero ∷ sends) (b ∷ rest) wire = (b ∷ rest, refl, λ e. cc)
write_all-Wrote (taken (suc n) ∷ sends) (b ∷ rest) wire =
    subst (λ (w : List ℕ). Wrote w (write_all sends (drop n rest) (wire ++ (b ∷ take n rest))))
      (append_assoc wire (b ∷ take n rest) (drop n rest)
        ∙ ap (λ (l : List ℕ). wire ++ (b ∷ l)) (take-append-drop n rest))
      (write_all-Wrote sends (drop n rest) (wire ++ (b ∷ take n rest)))
write_all-Wrote (send_interrupted ∷ sends) (b ∷ rest) wire = write_all-Wrote sends (b ∷ rest) wire
write_all-Wrote (send_failed ∷ sends) (b ∷ rest) wire = (b ∷ rest, refl, λ e. cc)

-- How a call of `Send` may end: all of the frame is on the wire and the connection is as it was; or it
-- failed, or waits, with a front of the frame on the wire, and a failure is on record.
unfoldable pub SendEnds : Frame → List ℕ → Connection → Sent → Type 0
SendEnds f wire c (sent sends wire' c') =
    (c.is_open ≡ true) × (wire' ≡ wire ++ encode_frame f) × (c' ≡ c)
SendEnds f wire c (unsent sends wire' c') =
    (rest : List ℕ) × (wire' ++ rest ≡ wire ++ encode_frame f)
    × (c'.error ≢ none)
    × (c'.parser ≡ c.parser)
SendEnds f wire c (stalled wire' c') =
    (rest : List ℕ) × (wire' ++ rest ≡ wire ++ encode_frame f) × (rest ≢ []) × (c' ≡ c)

sent_result-Ends :
    (f : Frame) (wire : List ℕ) (c : Connection) (o : Written)
    → c.is_open ≡ true
    → Wrote (wire ++ encode_frame f) o
    → SendEnds f wire c (sent_result c o)
unfolding SendEnds Wrote Fronts
sent_result-Ends f wire c (finished sends wire') h w = (h, w, refl)
sent_result-Ends f wire c (broken sends wire') h w = (w.0, w.1, λ e. cc, refl)
sent_result-Ends f wire c (waiting wire') h w = (w.0, w.1, w.2, refl)

send_bytes-Ends :
    (f : Frame) (sends : List SendResult) (wire : List ℕ) (c : Connection) (o : Option (List ℕ))
    → c.is_open ≡ true
    → encode_frame_into f [] ≡ o
    → SendEnds f wire c (send_bytes sends wire c o)
unfolding SendEnds encode_frame
send_bytes-Ends f sends wire c none h e =
    ([], ap (λ (l : List ℕ). wire ++ l) (sym (ap encoded e)), λ e. cc, refl)
send_bytes-Ends f sends wire c (some bytes) h e =
    sent_result-Ends f wire c (write_all sends bytes wire) h (
      subst (λ (l : List ℕ). Wrote (wire ++ l) (write_all sends bytes wire)) (sym (ap encoded e))
        (write_all-Wrote sends bytes wire))

-- Every call of `Send` on a connection, whatever the socket takes of it, ends in one of three ways:
-- true, with exactly the encoding of the frame appended to the wire; false, with an error on record
-- and at most a front of the encoding appended; or it waits, with a proper front appended.
pub send-Ends :
    (f : Frame) (sends : List SendResult) (wire : List ℕ) (c : Connection)
    → SendEnds f wire c (send f sends wire c)
unfolding send SendEnds
send-Ends f sends wire c = elim (Bool-cases c.is_open) [
  | inl open_ ↦ simp open_ (send_bytes-Ends f sends wire c (encode_frame_into f []) open_ refl)
  | inr closed ↦ simp closed (encode_frame f, refl, λ e. cc, refl)
]

-- Calls of `Send` in a row, all of which must succeed.
abbrev pub sent_first :
    (List SendResult → List ℕ → Connection → Option (List ℕ × Connection))
    → Sent
    → Option (List ℕ × Connection)
sent_first rest (sent sends wire c) = rest sends wire c
sent_first rest (unsent sends wire c) = none
sent_first rest (stalled wire c) = none

unfoldable pub send_many :
    List Frame → List SendResult → List ℕ → Connection → Option (List ℕ × Connection)
send_many [] sends wire c = some (wire, c)
send_many (f ∷ fs) sends wire c = sent_first (send_many fs) (send f sends wire c)

send_first-wire :
    (f : Frame) (fs : List Frame) (wire : List ℕ) (c : Connection) (o : Sent) (wire' : List ℕ)
    (c' : Connection)
    → ((sends : List SendResult) (w : List ℕ) (c1 : Connection)
        → send_many fs sends w c1 ≡ some (wire', c')
        → wire' ≡ w ++ encodings fs)
    → SendEnds f wire c o
    → sent_first (send_many fs) o ≡ some (wire', c')
    → wire' ≡ wire ++ encodings (f ∷ fs)
unfolding SendEnds encodings
send_first-wire f fs wire c (sent sends w c1) wire' c' more p e =
    more sends w c1 e
    ∙ ap (λ (l : List ℕ). l ++ encodings fs) p.1
    ∙ append_assoc wire (encode_frame f) (encodings fs)
send_first-wire f fs wire c (unsent sends w c1) wire' c' more p e = cc
send_first-wire f fs wire c (stalled w c1) wire' c' more p e = cc

send_many-wire :
    (fs : List Frame) (sends : List SendResult) (wire : List ℕ) (c : Connection) (wire' : List ℕ)
    (c' : Connection)
    → send_many fs sends wire c ≡ some (wire', c')
    → wire' ≡ wire ++ encodings fs
unfolding send_many encodings
send_many-wire [] sends wire c wire' c' e = cc (append_nil wire)
send_many-wire (f ∷ fs) sends wire c wire' c' e =
    send_first-wire f fs wire c (send f sends wire c) wire' c'
      (λ s w c1. send_many-wire fs s w c1 wire' c') (send-Ends f sends wire c) e

-- Frames that were sent on one connection are the frames that the other end receives, in order,
-- however send and recv cut and interrupt the stream between them: where the bytes that the receiving
-- socket will deliver are those that the calls of Send put on the wire, and the frames are of the
-- current version and fit.
pub receive_many-send_many :
    (fs : List Frame) (sends : List SendResult) (c c' : Connection) (wire : List ℕ)
    (net : List Recv)
    → All IsFrame fs
    → send_many fs sends [] c ≡ some (wire, c')
    → bytes_of net ≡ wire
    → (net' : List Recv) × (peer : Connection) × (receive_many (length fs) net new_connection
        ≡ some (fs, net', peer))
      × (buffered peer.parser ++ bytes_of net' ≡ [])
receive_many-send_many fs sends c c' wire net v e h =
    receive-encodings fs net v (h ∙ send_many-wire fs sends [] c wire c' e)
