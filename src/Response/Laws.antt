-- ===== src/Response/Laws.antt =====
-- The headers that a response adds to those of its caller.
use rustlette.Prelude.{
  ℕ, ◌≡◌, refl, ap, ◌∙◌, false, Option, none, some, [], ◌∷◌, ◌++◌, append_assoc, append-nil, Text,
  Bytes, codes, length, text_eq, if◌then◌else◌, arith, Bool-cases, inl, inr,
}
use rustlette.Prelude.Decimal.{str}
use rustlette.Prelude.Exec.{ok}
use rustlette.Headers.{RawHeaders, contains_raw, getlist_raw}
use rustlette.Headers.Encoding.{encode, then_ok-eq-ok}
use rustlette.Response.{has_no_body, add_content_length, add_content_type, with_charset, init_raw}

getlist_raw-append :
    (name : Bytes) (xs ys : RawHeaders)
    → getlist_raw name (xs ++ ys) ≡ getlist_raw name xs ++ getlist_raw name ys
unfolding getlist_raw
getlist_raw-append name [] ys = refl
getlist_raw-append name ((k, v) ∷ xs) ys = ground (arith, getlist_raw-append name xs ys)

getlist_raw_missing :
    (name : Bytes) (l : RawHeaders) → contains_raw name l ≡ false → getlist_raw name l ≡ []
unfolding getlist_raw contains_raw
getlist_raw_missing name [] h = refl
getlist_raw_missing name ((k, v) ∷ l) h = ground (arith, getlist_raw_missing name l)

-- The pairs that a response adds: a content length unless the caller gave one or the status has no
-- body, and a content type unless the caller gave one.
abbrev pub added_length : ℕ → Bytes → RawHeaders → RawHeaders
added_length status body given =
    if contains_raw (codes "content-length") given
    then []
    else if has_no_body status
    then []
    else (codes "content-length", str (length body)) ∷ []

add_content_length-eq :
    (status : ℕ) (body : Bytes) (given : RawHeaders)
    → add_content_length status (some body) given ≡ given ++ added_length status body given
unfolding add_content_length
add_content_length-eq status body given = ground (arith, append-nil given)

add_content_type_cases :
    (media_type : Option Text) (given l raw : RawHeaders)
    → add_content_type media_type given l ≡ ok raw
    → (more : RawHeaders) × (raw ≡ l ++ more) × (getlist_raw (codes "content-length") more ≡ [])
unfolding add_content_type getlist_raw text_eq
add_content_type_cases none given l raw h = ([], ground (arith, append-nil l), refl)
add_content_type_cases (some media_type) given l raw h =
    elim (Bool-cases (contains_raw (codes "content-type") given)) [
      | inl there ↦ ([], ground (arith, append-nil l), refl)
      | inr missing ↦
          let (value, encoded, h') =
            then_ok-eq-ok (encode (with_charset media_type))
              (λ value. ok (l ++ (codes "content-type", value) ∷ []))
              (rw (missing, add_content_type) at h) in
          ((codes "content-type", value) ∷ [], ground arith, refl)
    ]

-- A response's headers begin with those of its caller, unchanged and in their order; the content
-- lengths among them are the caller's, if it gave any, or else the length of the body in decimal, or
-- none if the status has no body (1xx, 204 and 304).
pub init_raw_lem :
    (status : ℕ) (body : Bytes) (media_type : Option Text) (given raw : RawHeaders)
    → init_raw status (some body) media_type given ≡ ok raw
    → ((more : RawHeaders) × (raw ≡ given ++ more))
      × (getlist_raw (codes "content-length") raw ≡ (
          if contains_raw (codes "content-length") given
          then getlist_raw (codes "content-length") given
          else if has_no_body status
          then []
          else str (length body) ∷ []))
unfolding init_raw getlist_raw text_eq
init_raw_lem status body media_type given raw h =
    let added = added_length status body given in
    let (more, split, silent) =
      add_content_type_cases media_type given (add_content_length status (some body) given) raw h in
    let whole : raw ≡ given ++ (added ++ more) =
      split
      ∙ ap (λ l. l ++ more) (add_content_length-eq status body given)
      ∙ append_assoc given added more in
    (
      (added ++ more, whole),
      ap (getlist_raw (codes "content-length")) whole
          ∙ getlist_raw-append (codes "content-length") given (added ++ more)
          ∙ ap (λ l. getlist_raw (codes "content-length") given ++ l)
              (getlist_raw-append (codes "content-length") added more
                ∙ ap (λ l. getlist_raw (codes "content-length") added ++ l) silent)
          ∙ elim (Bool-cases (contains_raw (codes "content-length") given)) [
            | inl there ↦ rw there (append-nil _)
            | inr missing ↦
                rw (missing, getlist_raw_missing (codes "content-length") given missing)
                  (elim (Bool-cases (has_no_body status)) [
                    | inl bare ↦ rw bare
                    | inr full ↦ rw full
                  ])
          ],
    )
