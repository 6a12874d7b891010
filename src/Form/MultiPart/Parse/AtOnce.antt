-- ===== src/Form/MultiPart/Parse/AtOnce.antt =====
-- `MultiPartParser.parse` against a parser that makes every write at once.
use rustlette.Prelude.{
  ℕ, ◌≡◌, refl, ap, sym, ◌∙◌, arith, Bool, true, ◌&&◌, Option, some, List, [], ◌∷◌, ◌++◌, Text,
  Bytes,
}
use rustlette.Prelude.Exec.{Result, ok, err, Exec, resume}
use rustlette.Form.MultiPart.{
  Callback, MultiPartException, Error, multipart_exception, State, init, Action, flush,
}
use rustlette.Form.MultiPart.Callbacks.{callback, callbacks}
use rustlette.Form.MultiPart.Callbacks.Settled.{
  IsSound, permitted, after, settled, settled-callback,
}
use rustlette.Form.MultiPart.Callbacks.Kept.{IsKept, flush-IsSound, callback-IsKept}
use rustlette.Form.MultiPart.Parse.{after_write, feed}

-- whether the data of a part come between its begin and its end
abbrev pub in_order : Bool → List Callback → Bool
in_order is_open [] = true
in_order is_open (c ∷ cs) = permitted is_open c && in_order (after is_open c) cs

abbrev pub after_all : Bool → List Callback → Bool
after_all is_open [] = is_open
after_all is_open (c ∷ cs) = after_all (after is_open c) cs

in_order-append :
    (is_open : Bool) (cs ds : List Callback)
    → in_order is_open (cs ++ ds) ≡ in_order is_open cs && in_order (after_all is_open cs) ds
in_order-append is_open [] ds = refl
in_order-append is_open (c ∷ cs) ds = ground (arith, in_order-append (after is_open c) cs ds)

-- `next` behind a callback that does not raise
resume-settled :
    {E : Type 0} (is_open : Bool) (v : Result E (Unit {0}) × State)
    (next now : Exec State E (Unit {0}))
    → IsKept is_open v
    → ((s : State) → IsSound is_open s → settled (next s) ≡ now (flush s))
    → settled (resume v (λ _. next)) ≡ resume (settled v) (λ _. now)
unfolding IsKept
resume-settled is_open (ok tt, s) next now h k = k s h
resume-settled is_open (err e, s) next now h k = refl

resume-IsKept :
    {E A : Type 0} (before is_open : Bool) (v : Result E (Unit {0}) × State) (next : Exec State E A)
    → IsKept before v
    → ((s : State) → IsSound before s → IsKept is_open (next s))
    → IsKept is_open (resume v (λ _. next))
unfolding IsKept
resume-IsKept before is_open (ok tt, s) next h k = k s h
resume-IsKept before is_open (err e, s) next h k = tt

resume_both :
    {E : Type 0} (v : Result E (Unit {0}) × State) (f g h : Exec State E (Unit {0}))
    → ((s : State) → f s ≡ resume (g s) (λ _. h))
    → resume v (λ _. f) ≡ resume (resume v (λ _. g)) (λ _. h)
resume_both (ok tt, s) f g h k = k s
resume_both (err e, s) f g h k = refl

-- what `parse` raises for what a callback raises
abbrev pub raised :
    {Z : Type 0} → Z → Result MultiPartException (Unit {0}) × State → Result Error Z × State
raised z (ok tt, s) = (ok z, s)
raised z (err e, s) = (err (multipart_exception e), s)

module _ (hdr : Option Bytes → Bytes × List (Bytes × Bytes)) (dec : Text → Bytes → Option Text)
    (mfi mfe mps : ℕ) where
  -- The reference: behind every callback its writes are made.
  abbrev pub at_once : List Callback → Action (Unit {0})
  at_once [] s = (ok tt, s)
  at_once (c ∷ cs) s = resume (settled (callback hdr dec mfi mfe mps c s)) (λ _. at_once cs)

  at_once-append :
      (cs ds : List Callback) (s : State)
      → at_once (cs ++ ds) s ≡ resume (at_once cs s) (λ _. at_once ds)
  at_once-append [] ds s = refl
  at_once-append (c ∷ cs) ds s =
      resume_both (settled (callback hdr dec mfi mfe mps c s)) (at_once (cs ++ ds)) (at_once cs)
        (at_once ds) (at_once-append cs ds)

  settled-callbacks :
      (cs : List Callback) (is_open : Bool) (s : State)
      → IsSound is_open s
      → in_order is_open cs ≡ true
      → settled (callbacks hdr dec mfi mfe mps cs s) ≡ at_once cs (flush s)
  unfolding callbacks
  settled-callbacks [] is_open s h q = refl
  settled-callbacks (c ∷ cs) is_open s h q =
      let allowed : permitted is_open c ≡ true = ground arith in
      let rest : in_order (after is_open c) cs ≡ true = ground arith in
      resume-settled (after is_open c) (callback hdr dec mfi mfe mps c s)
        (callbacks hdr dec mfi mfe mps cs) (at_once cs)
        (callback-IsKept hdr dec mfi mfe mps c s is_open h allowed)
        (λ t k. settled-callbacks cs (after is_open c) t k rest)
      ∙ ap (λ v. resume v (λ _. at_once cs))
          (settled-callback hdr dec mfi mfe mps c s is_open h allowed)

  callbacks-IsKept :
      (cs : List Callback) (is_open : Bool) (s : State)
      → IsSound is_open s
      → in_order is_open cs ≡ true
      → IsKept (after_all is_open cs) (callbacks hdr dec mfi mfe mps cs s)
  unfolding callbacks IsKept
  callbacks-IsKept [] is_open s h q = h
  callbacks-IsKept (c ∷ cs) is_open s h q =
      let allowed : permitted is_open c ≡ true = ground arith in
      let rest : in_order (after is_open c) cs ≡ true = ground arith in
      resume-IsKept (after is_open c) (after_all is_open (c ∷ cs))
        (callback hdr dec mfi mfe mps c s) (callbacks hdr dec mfi mfe mps cs)
        (callback-IsKept hdr dec mfi mfe mps c s is_open h allowed)
        (λ t k. callbacks-IsKept cs (after is_open c) t k rest)

  module _ {Z : Type 0} (make : Bytes → Z) (write : Z → Bytes → List Callback × Option Z) where
    -- The callbacks that python-multipart makes for the chunks of a stream, in order, where neither it
    -- nor the stream raises, and its state behind them.
    pub data Emits : List (Option Bytes) → Z → List Callback → Z → Type 0 where
      at_end : {z : Z} → Emits [] z [] z
      at_chunk :
          {chunk : Bytes} {stream : List (Option Bytes)} {z z' z'' : Z} {cs ds : List Callback}
          → write z chunk ≡ (cs, some z')
          → Emits stream z' ds z''
          → Emits (some chunk ∷ stream) z (cs ++ ds) z''

    settled-after_write :
        (is_open : Bool) (rest : Z → Exec State Error Z)
        (v : Result MultiPartException (Unit {0}) × State) (z z' : Z) (now : Action (Unit {0}))
        → IsKept is_open v
        → ((s : State) → IsSound is_open s → settled (rest z s) ≡ raised z' (now (flush s)))
        → settled (after_write hdr dec mfi mfe mps make write rest v (some z))
          ≡ raised z' (resume (settled v) (λ _. now))
    unfolding after_write IsKept
    settled-after_write is_open rest (ok tt, s) z z' now h k =
        k (flush s) (flush-IsSound is_open s h)
    settled-after_write is_open rest (err e, s) z z' now h k = refl

    pub settled-feed :
        (stream : List (Option Bytes)) (z z' : Z) (cs : List Callback) (is_open : Bool) (s : State)
        → Emits stream z cs z'
        → in_order is_open cs ≡ true
        → IsSound is_open s
        → settled (feed hdr dec mfi mfe mps make write stream z s)
          ≡ raised z' (at_once cs (flush s))
    unfolding feed
    settled-feed stream z z' cs is_open s at_end q h = refl
    settled-feed stream z z' cs is_open s
          (at_chunk {chunk = chunk} {stream = rest} {z' = next} {cs = first} {ds = ds} w e) q h =
        let both = sym (in_order-append is_open first ds) ∙ q in
        let before : in_order is_open first ≡ true = ground arith in
        let behind : in_order (after_all is_open first) ds ≡ true = ground arith in
        rw (w, at_once-append first ds (flush s), sym (settled-callbacks first is_open s h before))
          (settled-after_write (after_all is_open first) (feed hdr dec mfi mfe mps make write rest)
            (callbacks hdr dec mfi mfe mps first s) next z' (at_once ds)
            (callbacks-IsKept first is_open s h before)
            (λ t k. settled-feed rest next z' ds (after_all is_open first) t e behind k))

    -- Where neither the stream nor python-multipart raises, and a part's data come before its end, the
    -- loop comes to what it comes to if every write is made when its data come: the same exception or
    -- none, the same items, and, once the writes that are left are made, the same uploads.
    pub feed-at_once :
        (stream : List (Option Bytes)) (boundary : Bytes) (charset : Text) (z : Z)
        (cs : List Callback)
        → Emits stream (make boundary) cs z
        → in_order true cs ≡ true
        → settled (feed hdr dec mfi mfe mps make write stream (make boundary) (init charset))
          ≡ raised z (at_once cs (init charset))
    unfolding init IsSound flush
    feed-at_once stream boundary charset z cs e q =
        settled-feed stream (make boundary) z cs true (init charset) e q (refl, refl, refl)
