-- ===== src/Asgi.antt =====
-- The messages of the ASGI protocol that an HTTP response is made of, by their "type". A key that the
-- program reads with a default is an `Option`.
use rustlette.Prelude.{
  ℕ, Bool, false, Option, none, some, List, [], ◌∷◌, ◌++◌, Text, Bytes, if◌then◌else◌,
}
use rustlette.Headers.{RawHeaders}

pub data HttpMessage : Type 0 where
  response_start : ℕ → RawHeaders → HttpMessage
  response_body : Option Bytes → Option Bool → HttpMessage
  response_pathsend : Text → HttpMessage
  other : Text → HttpMessage

-- `message.get("body", b"")`
abbrev pub body_of : Option Bytes → Bytes
body_of none = []
body_of (some body) = body

-- `message.get("more_body", False)`
abbrev pub more_of : Option Bool → Bool
more_of none = false
more_of (some more) = more

abbrev pub prepend : Bytes → Option Bytes → Option Bytes
prepend b none = none
prepend b (some rest) = some (b ++ rest)

abbrev pub at_end : Bytes → List HttpMessage → Option Bytes
at_end body [] = some body
at_end body (_ ∷ _) = none

-- What a client assembles from the messages behind the start of a response: the bodies, if each but
-- the last announces another one, the last does not, and nothing follows it.
abbrev pub received : List HttpMessage → Option Bytes
received (response_body body more ∷ messages) =
    let rest = received messages in
    if more_of more then prepend (body_of body) rest else at_end (body_of body) messages
received _ = none
