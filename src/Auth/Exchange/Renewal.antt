-- ===== src/Auth/Exchange/Renewal.antt =====
-- What a refresh of the access token gives.
use howdah.Base.{
  ◌≡◌, ◌≢◌, [], ◌∷◌, Bool, true, false, Option, refl, arith, ◌==◌, ==_iff, nat_eq, Bool-cases, inl,
  inr, ap, ◌∙◌, ◌+◌, ◌*◌, if◌then◌else◌,
}
use howdah.Base.Bytes.{Bytes, bytes_eq}
use howdah.Clock.{Time, is_zero_time, minute}
use howdah.Errors.{
  Error, Result, ok, err, wrapped, lit, is, refresh_rejected, >>=-eq-ok, wrapped-eq-ok,
}
use howdah.Session.{OauthToken}
use howdah.Token.{
  Formats, Response, ErrorDetail, do_token_round_trip, require_access, limited, answer_of,
  failure_status,
}
use howdah.Auth.Exchange.{
  Client, TokenRequest, kept_refresh_token, or_request_error, refresh_request, detached_deadline,
  token_refresh_timeout, exchange_refresh_token, as_rejected, exchange_token,
}
use howdah.Auth.Login.{assume_token_expiry}

require_access-access :
    (f : Formats) (failed : Bool) (tok' : OauthToken) (detail : ErrorDetail) (tok : OauthToken)
    → require_access f failed (tok', detail) ≡ ok tok
    → tok.access_token ≢ []
require_access-access f failed tok' detail tok h = ground (arith, ==_iff tok'.access_token [])

round_trip-access :
    (f : Formats) (now : Time) (response : Result Response) (tok : OauthToken)
    → do_token_round_trip f now response ≡ ok tok
    → tok.access_token ≢ []
unfolding do_token_round_trip
round_trip-access f now response tok h =
    let (r, _, h1) = >>=-eq-ok response _ h in
    let (body, _, h2) = >>=-eq-ok (limited r.body) _ h1 in
    let ((tok', detail), _, h3) =
      >>=-eq-ok (answer_of f now (failure_status f r.status) (f.media_type r.content_type) body) _
        h2 in
    require_access-access f (failure_status f r.status) tok' detail tok h3

-- A token's expiry, or five minutes from now where it has none.
abbrev pub expiry_or_assumed : Time → Time → Time
expiry_or_assumed at expiry = if is_zero_time expiry then at + 5 * minute else expiry

assume-expiry :
    (at : Time) (tok : OauthToken)
    → ((assume_token_expiry at tok).1.expiry ≡ expiry_or_assumed at tok.expiry)
      × (is_zero_time (assume_token_expiry at tok).1.expiry ≡ false)
unfolding assume_token_expiry
assume-expiry at tok = ground arith

assume-access :
    (at : Time) (tok : OauthToken)
    → ((assume_token_expiry at tok).1.access_token ≡ tok.access_token)
      × ((assume_token_expiry at tok).1.refresh_token ≡ tok.refresh_token)
unfolding assume_token_expiry
assume-access at tok = ground arith

kept-access :
    (old : Bytes) (tok : OauthToken)
    → ((kept_refresh_token old tok).access_token ≡ tok.access_token)
      × ((kept_refresh_token old tok).expiry ≡ tok.expiry)
      × (old ≢ [] → (kept_refresh_token old tok).refresh_token ≢ [])
kept-access old tok = elim (Bool-cases (tok.refresh_token == [])) [
  | inl gone ↦ rw gone (refl, refl, λ n. n)
  | inr there ↦ rw there (refl, refl, λ n e. cc ((==_iff tok.refresh_token []).1 e, there))
]

module _ (f : Formats) (k : Client) (request_error : Bytes → Option Error)
    (send_request : TokenRequest → Result Response) where
  as_rejected-ok :
      (r : Result OauthToken) (tok : OauthToken)
      → as_rejected f k request_error send_request r ≡ ok tok
      → r ≡ ok tok
  as_rejected-ok (ok t) tok h = h
  as_rejected-ok (err e) tok h = cc

  as_rejected-err :
      (r : Result OauthToken) (e : Error)
      → as_rejected f k request_error send_request r ≡ err e
      → is e refresh_rejected ≡ true
  unfolding is
  as_rejected-err (ok t) e h = cc
  as_rejected-err (err d) e h = ground arith

  -- A token that is exchanged for a new one: every failure ends the session, and a success is what the
  -- endpoint answered to one request. It has the access token of that answer, which is not empty; the
  -- expiry of the answer, or five minutes from now where that has none; and a refresh token to go on
  -- with where the old one had any, whether the endpoint issued a new one or not.
  pub exchange_token-renews :
      (now at : Time) (parent : Option Time) (old : OauthToken)
      → ((new : OauthToken)
          → exchange_token f k request_error send_request now at parent old ≡ ok new
          → (request : TokenRequest) × (tok : OauthToken) × (do_token_round_trip f at
                (send_request request)
              ≡ ok tok)
            × (new.access_token ≡ tok.access_token)
            × (new.access_token ≢ [])
            × (new.expiry ≡ expiry_or_assumed at tok.expiry)
            × (is_zero_time new.expiry ≡ false)
            × (old.refresh_token ≢ [] → new.refresh_token ≢ []))
        × ((e : Error)
            → exchange_token f k request_error send_request now at parent old ≡ err e
            → is e refresh_rejected ≡ true)
  unfolding exchange_token exchange_refresh_token
  exchange_token-renews now at parent old = (
    λ new h.
        let (r, _, h1) =
          >>=-eq-ok
            (or_request_error f k request_error send_request
              (refresh_request f k request_error send_request old.refresh_token
                (detached_deadline now parent token_refresh_timeout))
              (request_error k.token_url))
            _ (as_rejected-ok _ new h) in
        let (tok, trip, h2) =
          >>=-eq-ok
            (wrapped (lit "token endpoint round trip" ∷ [])
              (do_token_round_trip f at (send_request r)))
            _ h1 in
        let access = round_trip-access f at (send_request r) tok (wrapped-eq-ok _ _ trip) in
        let renewed = kept_refresh_token old.refresh_token tok in
        let same : (assume_token_expiry at renewed).1 ≡ new = ground (arith, h2) in
        let (kept, lasts, again) = kept-access old.refresh_token tok in
        let (access', again') = assume-access at renewed in
        let (expires, lives) = assume-expiry at renewed in
        rw (← same) (
          r,
          tok,
          wrapped-eq-ok _ _ trip,
          cc (access', kept),
          λ e. access (cc (e, access', kept)),
          expires ∙ ap (expiry_or_assumed at) lasts,
          lives,
          λ n e. again n (cc (e, again')),
        ),
    λ e h. as_rejected-err _ e h,
  )
