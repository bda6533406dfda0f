-- ===== src/Auth/Sent.antt =====
-- The cookies that an answer sends.
use howdah.Base.{◌≡◌, List, [], ◌∷◌, ◌++◌, Bool, true, not, arith}
use howdah.Base.Bytes.{Bytes}
use howdah.Auth.{Cookie, Effect, sent, too_large, logged, asked, redirected, replied, set_cookie}
use howdah.Auth.Login.Landing.{redirects}

abbrev pub sent_cookies : List Effect → List Cookie
sent_cookies [] = []
sent_cookies (sent c ∷ effects) = c ∷ sent_cookies effects
sent_cookies (redirected code to ∷ effects) = sent_cookies effects
sent_cookies (replied code text ∷ effects) = sent_cookies effects
sent_cookies (asked call ∷ effects) = sent_cookies effects
sent_cookies (too_large n ∷ effects) = sent_cookies effects
sent_cookies (logged level e ∷ effects) = sent_cookies effects

pub set_cookie-sent :
    (rendered : Cookie → Bytes) (k : Cookie) (insecure : Bool) (effects : List Effect)
    → (sent_cookies (set_cookie rendered k insecure ++ effects)
        ≡ record k { http_only = true; lax = true; secure = not insecure } ∷ sent_cookies effects)
      × (redirects (set_cookie rendered k insecure ++ effects) ≡ redirects effects)
unfolding set_cookie
set_cookie-sent rendered k insecure effects = ground arith
