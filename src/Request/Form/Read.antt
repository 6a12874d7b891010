-- ===== src/Request/Form/Read.antt =====
-- The form of a request whose messages have all come.
use rustlette.Prelude.{
  ℕ, zero, suc, ◌+◌, ◌<◌, ◌≡◌, refl, ap, ◌∙◌, Bool, true, false, Option, none, some, List, [], ◌∷◌,
  ◌++◌, Text, Bytes, codes, text_eq, text_eq_instance, length, arith,
}
use rustlette.Prelude.Exec.{ok}
use rustlette.Asgi.{body_of, more_of}
use rustlette.Headers.{get_raw}
use rustlette.MultiDict.{from_items}
use rustlette.Form.MultiPart
use rustlette.Form.UrlEncoded
use rustlette.Form.UrlEncoded.Fields.{Piece, decoded, field_calls, Emits, parse-field_calls}
use rustlette.Request.{
  Event, request_event, Request, init, pull, pull_chunk, resume_loop, start, next,
}
use rustlette.Request.Body.{frames, length-frames}
use rustlette.Request.Form.{
  fields_data, FormRequest, chunk_before, chunks_behind, chunks_of, streamed, stored, fields_ended,
  read_form, form_or, get_form,
}

-- the chunk of a body, if it is not empty, before others
shown : Bytes → List (Option Bytes) → List (Option Bytes)
shown [] chunks = chunks
shown (c ∷ chunk) chunks = some (c ∷ chunk) ∷ chunks

-- The chunks of a stream: the bodies that are not empty, and an empty chunk at the end.
unfoldable pub chunks_shown : List (Option Bytes) → Option Bytes → List (Option Bytes)
unfolding shown
chunks_shown [] last = shown (body_of last) (some [] ∷ [])
chunks_shown (b ∷ bs) last = shown (body_of b) (chunks_shown bs last)

chunks_last :
    (body : Bytes) (rest : List Event) (fuel : ℕ) (r : Request)
    → chunks_behind (chunks_of (suc (suc fuel))) (pull_chunk body false rest (pull rest) r)
      ≡ (shown body (some [] ∷ []), none, record r { inbox = rest; stream_consumed = true })
unfolding pull_chunk chunks_behind chunks_of next shown
chunks_last [] rest fuel r = refl
chunks_last (c ∷ chunk) rest fuel r = refl

resume_unread :
    (consumed : Bool) (r : Request) → consumed ≡ false → resume_loop consumed r ≡ pull r.inbox r
unfolding resume_loop
resume_unread false r e = refl
resume_unread true r e = cc

module _ (last : Option Bytes) (more : Option Bool) (rest : List Event)
    (final : more_of more ≡ false) where
  chunks_frames :
      (bs : List (Option Bytes)) (fuel : ℕ) (r : Request)
      → length bs + 1 < fuel
      → r.stream_consumed ≡ false
      → chunks_behind (chunks_of fuel) (pull (frames bs ++ request_event last more ∷ rest) r)
        ≡ (chunks_shown bs last, none, record r { inbox = rest; stream_consumed = true })
  unfolding pull chunks_behind chunks_of next pull_chunk chunks_shown chunk_before shown
  chunks_frames bs zero r enough unread = absurd (omega arith)
  chunks_frames bs (suc zero) r enough unread = absurd (omega arith)
  chunks_frames [] (suc (suc fuel)) r enough unread =
      rw final (chunks_last (body_of last) rest fuel r)
  chunks_frames (none ∷ bs) (suc (suc fuel)) r enough unread =
      chunks_frames bs (suc (suc fuel)) r (omega arith) unread
  chunks_frames (some [] ∷ bs) (suc (suc fuel)) r enough unread =
      chunks_frames bs (suc (suc fuel)) r (omega arith) unread
  chunks_frames (some (c ∷ chunk) ∷ bs) (suc (suc fuel)) r enough unread =
      let r' = record r { inbox = frames bs ++ request_event last more ∷ rest } in
      ap (λ q. chunk_before (c ∷ chunk) (chunks_behind (chunks_of (suc fuel)) q))
        (resume_unread r'.stream_consumed r' unread)
      ∙ ap (chunk_before (c ∷ chunk)) (chunks_frames bs (suc fuel) r' (omega arith) unread)

  streamed-init :
      (bs : List (Option Bytes))
      → streamed (init (frames bs ++ request_event last more ∷ rest)) ≡ (
        chunks_shown bs last,
        none,
        record { inbox = rest; stream_consumed = true; is_disconnected = false; body = none },
      )
  unfolding streamed chunks_of next init start
  streamed-init bs =
      let few = length-frames bs (request_event last more ∷ rest) in
      let r = init (frames bs ++ request_event last more ∷ rest) in
      chunks_frames bs (suc (suc (length r.inbox))) r (omega arith) refl

module _ (parse_options_header : Option Bytes → Bytes × List (Bytes × Bytes))
    (decode : Text → Bytes → Option Text) (max_files max_fields max_part_size : ℕ) {Z : Type 0}
    (make : Bytes → Z) (write : Z → Bytes → List MultiPart.Callback × Option Z)
    (unquote_plus : Text → Text) {Y : Type 0} (form_parser : Y)
    (write_form : Y → Bytes → List UrlEncoded.Callback × Option Y)
    (finalize : Y → List UrlEncoded.Callback × Option Y) where
  -- A request with URL-encoded content whose messages have all come has the form of its fields: where
  -- python-multipart announces some fields for the bodies that are not empty and the end behind them,
  -- however it cuts them, the form has these fields in order, and it is kept, so that another call gives
  -- it again and reads nothing.
  pub get_form_lem :
      (s : FormRequest) (bs : List (Option Bytes)) (last : Option Bytes) (more : Option Bool)
      (rest : List Event) (fields : List (List Piece × List Piece))
      → more_of more ≡ false
      → s.form ≡ none
      → s.request ≡ init (frames bs ++ request_event last more ∷ rest)
      → (parse_options_header (get_raw (codes "content-type") s.headers)).0
        ≡ codes "application/x-www-form-urlencoded"
      → Emits unquote_plus write_form finalize
          (chunks_shown bs last)
          form_parser
          (field_calls fields)
      → let form = fields_data (from_items (decoded unquote_plus fields)) in
        let gets =
          get_form parse_options_header decode max_files max_fields max_part_size make write
            unquote_plus form_parser write_form finalize in
        (s' : FormRequest) × (gets s ≡ (ok form, s'))
        × (gets s' ≡ (ok form, s'))
        × (s'.request.inbox ≡ rest)
  unfolding get_form form_or read_form fields_ended stored text_eq
  get_form_lem s bs last more rest fields final unread begun typed emits =
      let form = fields_data (from_items (decoded unquote_plus fields)) in
      let read : Request = record {
        inbox = rest;
        stream_consumed = true;
        is_disconnected = false;
        body = none;
      } in
      (
        record s { request = read; form = some form },
        rw
            (
              unread,
              typed,
              begun,
              streamed-init last more rest final bs,
              parse-field_calls unquote_plus write_form finalize (chunks_shown bs last) form_parser
                  fields emits,
            )
            refl,
        refl,
        refl,
      )
