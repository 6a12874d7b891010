-- ===== src/Sessions/Tests.antt =====
-- Sessions at concrete inputs, with a signer that puts a letter before what it signs.
use rustlette.Prelude.{
  ℕ, ◌≡◌, refl, true, false, Option, none, some, List, [], ◌∷◌, ◌++◌, Text, Bytes, codes, is_space,
  text_eq,
}
use rustlette.Prelude.Exec.{ok}
use rustlette.Asgi.{response_start}
use rustlette.Sessions.{
  Middleware, init, send_wrapper, load, call, sends, changes, utf8, header_value, max_age_text,
}
use rustlette.Sessions.RoundTrip.{request_with, kept, load-send_wrapper}

abbrev sign : Bytes → Text
sign bytes = b's' ∷ bytes

abbrev unsign : Bytes → Option Bytes
unsign [] = none
unsign (c ∷ bytes) = some bytes

-- A session here is a list of one letter at most.
abbrev dumps : List (Text × ℕ) → Bytes
dumps [] = []
dumps ((key, n) ∷ session) = n ∷ []

abbrev loads : Bytes → Option (List (Text × ℕ))
loads [] = some []
loads (n ∷ bytes) = some ((codes "user", n) ∷ [])

abbrev middleware : Middleware
middleware = init (codes "session") (some 60) (codes "/") (codes "lax") true none

load-send_wrapper_example :
    (value : Bytes) × (c : Text × Text) × (send_wrapper sign unsign dumps loads middleware
        ((codes "user", b'u') ∷ [])
        true
        (response_start 200 [])
      ≡ ok (response_start 200 ([] ++ (codes "set-cookie", value) ∷ [])))
    × (kept value ≡ some c)
    × (load sign unsign dumps loads middleware
          (request_with ((codes "a", codes "1") ∷ [] ++ c ∷ []))
        ≡ ok ((codes "user", b'u') ∷ [], false))
unfolding init utf8 is_space text_eq header_value max_age_text
load-send_wrapper_example =
    load-send_wrapper sign unsign dumps loads middleware (codes "user", b'u') [] true 200 []
      ((codes "a", codes "1") ∷ []) refl refl (refl, refl, refl) refl ((refl, refl, refl), tt) refl

-- The header of a session, and of one that has been cleared.
stored :
    call sign unsign dumps loads middleware
      (λ s. changes ((codes "user", b'u') ∷ []) ∷ sends (response_start 200 []) ∷ [])
      []
    ≡ ok (
      response_start 200 (
            (
              codes "set-cookie",
              codes "session=su; path=/; Max-Age=60; httponly; samesite=lax; secure",
            )
            ∷ [])
          ∷ [],
      none,
    )
unfolding call init rustlette.Headers.Encoding.header_name rustlette.Headers.Encoding.lower_char
    rustlette.Headers.Encoding.encode rustlette.Headers.append_raw
stored = refl
