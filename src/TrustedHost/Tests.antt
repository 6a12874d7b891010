-- ===== src/TrustedHost/Tests.antt =====
-- The middleware at concrete inputs.
use rustlette.Prelude.{
  ◌≡◌, refl, true, false, some, [], ◌∷◌, codes, text_eq, text_in, starts_with, ends_with,
  contains_char, split,
}
use rustlette.Headers.{get_raw}
use rustlette.TrustedHost.{TrustedHost, init, fits, host_of, handling, redirected_to_www}
use rustlette.TrustedHost.Accepted.{handling_lem}

abbrev hosts : TrustedHost
hosts = record {
  allowed_hosts = codes "www.a.b" ∷ codes "*.c.d" ∷ [];
  allow_any = false;
  www_redirect = true;
}

built : init (some (codes "www.a.b" ∷ codes "*.c.d" ∷ [])) true ≡ some hosts
unfolding init text_eq text_in starts_with contains_char
built = refl

handling_lem_example : handling hosts true ((codes "host", codes "a.b:80") ∷ []) ≡ redirected_to_www
unfolding fits host_of get_raw split text_eq text_in starts_with ends_with
handling_lem_example = handling_lem hosts ((codes "host", codes "a.b:80") ∷ []) refl
