-- ===== src/TrustedHost/Accepted.antt =====
-- Which requests the middleware lets through.
use mathlib.Core.List.{reverse, reverse-append, reverse-reverse}
use rustlette.Prelude.{
  ◌≡◌, ◌∙◌, refl, Bool, true, false, ◌&&◌, ◌||◌, List, [], ◌∷◌, ◌++◌, Text, codes, text_eq, text_in,
  any, if◌then◌else◌, arith, Bool-cases, inl, inr, ◌⊎◌, sym, ap, subst, text_eq_iff, starts_with,
  ends_with, drop,
}
use rustlette.Headers.{RawHeaders}
use rustlette.TrustedHost.{
  TrustedHost, is_pattern, fits, look_up, host_of, handling, passed_on, redirected_to_www,
  invalid_host,
}

look_up-fits :
    (host : Text) (patterns : List Text) (found : Bool)
    → (look_up host patterns found).0 ≡ any (fits host) patterns
unfolding look_up
look_up-fits host [] found = refl
look_up-fits host (p ∷ ps) found = elim (Bool-cases (fits host p)) [
  | inl e ↦ rw e refl
  | inr e ↦ rw e (look_up-fits host ps (text_eq (codes "www." ++ host) p || found))
]

look_up_www :
    (host : Text) (patterns : List Text) (found : Bool)
    → any (fits host) patterns ≡ false
    → (look_up host patterns found).1 ≡ (text_in (codes "www." ++ host) patterns || found)
unfolding look_up text_in
look_up_www host [] found h = refl
look_up_www host (p ∷ ps) found h = elim (Bool-cases (fits host p)) [
  | inl e ↦ absurd (ground arith)
  | inr e ↦
      let www = text_eq (codes "www." ++ host) p in
      rw e (
        look_up_www host ps (www || found) (ground arith)
        ∙ or_swap www (text_in (codes "www." ++ host) ps) found)
]
  where
    or_swap : (a b c : Bool) → (b || (a || c)) ≡ ((a || b) || c)
    or_swap a b c = ground arith

-- A connection of a server that does not allow every host is passed on if its host fits one of the
-- patterns; if it fits none, it is sent to the host with "www." before it where that is a pattern
-- itself and such redirects are on, and refused otherwise.
pub handling_lem :
    (t : TrustedHost) (request : RawHeaders)
    → t.allow_any ≡ false
    → handling t true request ≡ (
        if any (fits (host_of request)) t.allowed_hosts
        then passed_on
        else if text_in (codes "www." ++ host_of request) t.allowed_hosts && t.www_redirect
        then redirected_to_www
        else invalid_host)
unfolding handling
handling_lem t request h = elim (Bool-cases (any (fits (host_of request)) t.allowed_hosts)) [
  | inl e ↦ rw (h, e, look_up-fits (host_of request) t.allowed_hosts false, e) refl
  | inr e ↦
      rw
        (
          h,
          e,
          look_up-fits (host_of request) t.allowed_hosts false,
          e,
          look_up_www (host_of request) t.allowed_hosts false e,
        )
        (ground arith)
]

starts_with-append : (s p : Text) → starts_with s p ≡ true → (rest : Text) × (s ≡ p ++ rest)
unfolding starts_with
starts_with-append s [] h = (s, refl)
starts_with-append [] (b ∷ p) h = absurd (ground arith)
starts_with-append (a ∷ s) (b ∷ p) h =
    let (rest, e) = starts_with-append s p (ground arith) in (rest, ground arith)

ends_with-append : (s p : Text) → ends_with s p ≡ true → (front : Text) × (s ≡ front ++ p)
unfolding ends_with
ends_with-append s p h =
    let (rest, e) = starts_with-append (reverse s) (reverse p) h in
    (
      reverse rest,
      sym (reverse-reverse s)
          ∙ ap reverse e
          ∙ reverse-append (reverse p) rest
          ∙ ap (λ q. reverse rest ++ q) (reverse-reverse p),
    )

-- A host that fits a pattern which the middleware accepts is the pattern itself, or the pattern is
-- "*", or it is "*." and a domain, and the host is a name, a dot and that domain.
pub fits_lem :
    (host pattern : Text)
    → is_pattern pattern ≡ true
    → fits host pattern ≡ true
    → (host ≡ pattern)
      ⊎ ((pattern ≡ codes "*")
          ⊎ ((domain : Text) × (name : Text) × (pattern ≡ codes "*." ++ domain)
              × (host ≡ name ++ (codes "." ++ domain))))
unfolding is_pattern fits
fits_lem host pattern valid fit = elim (Bool-cases (text_eq host pattern)) [
  | inl e ↦ inl ((text_eq_iff host pattern).0 e)
  | inr other ↦ elim (Bool-cases (text_eq pattern (codes "*"))) [
    | inl e ↦ inr (inl ((text_eq_iff pattern (codes "*")).0 e))
    | inr named ↦
        let dotted : starts_with pattern (codes "*.") ≡ true = ground arith in
        let (domain, e) = starts_with-append pattern (codes "*.") dotted in
        let below : ends_with host (drop 1 pattern) ≡ true = ground arith in
        let (name, e') =
          ends_with-append host (codes "." ++ domain)
            (subst (λ q. ends_with host (drop 1 q) ≡ true) e below) in
        inr (inr (domain, name, e, e'))
  ]
]
