-- ===== src/CookieStore/Reading.antt =====
-- What a read of a session cookie answers.
use howdah.Base.{◌≡◌, ◌≤◌, refl, Bool, true, arith, some, inl, inr, length, Option-cases}
use howdah.Base.Bytes.{Bytes, IsBytes}
use howdah.Base.Int.{int_eq}
use howdah.Clock.{Time}
use howdah.Crypto.{Crypto, IsAead}
use howdah.Envelope.{seal, open_value, session_kind_payload}
use howdah.Envelope.Cookie.{open_kind-seal_kind}
use howdah.Errors.{Error, ok, err, is, no_session, Result-cases}
use howdah.Keyring.Acceptance.{IsKeyring}
use howdah.Session.{OauthToken, without_extra, StoredToken}
use howdah.CookieStore.{
  SessionPayload, Codec, IsCodec, session_payload_v1, CookieTokenStore, seal_session, get, resolved,
  seal_session_with,
}

module _ (c : Crypto) (j : Codec) (s : CookieTokenStore) (now : Time) where
  -- Every failure of a read says that there is no session.
  pub get-no_session :
      (handle : Bytes) (e : Error) → get c j s now handle ≡ err e → is e no_session ≡ true
  unfolding get is
  get-no_session handle e h = ground arith

module _ (c : Crypto) (j : Codec) (s : CookieTokenStore) where
  -- The session's handle was sealed at `now` around a payload that says it began at `start`.
  pub record IsSession (start now : Time) (t : StoredToken) : Type 0 where
    pub tok : OauthToken
    pub text : Bytes
    pub nonce : Bytes
    pub token : t.token ≡ some tok
    pub issued : t.issued_at ≡ start
    pub full : length nonce ≡ 12
    pub nonce_bytes : IsBytes nonce
    pub marshalled :
        j.marshal (record {
          version = session_payload_v1;
          issued_at = start;
          token = some tok;
          subject = t.subject;
        })
        ≡ ok text
    pub sealed : seal c (some s.keyring) now s.domain text (ok nonce) ≡ ok t.handle

  abbrev payload_of : StoredToken → OauthToken → SessionPayload
  payload_of t tok = record {
    version = session_payload_v1;
    issued_at = t.issued_at;
    token = some tok;
    subject = t.subject;
  }

  seal_session_with-IsSession :
      (now : Time) (t u : StoredToken) (tok : OauthToken) (nonce text value : Bytes)
      → length nonce ≡ 12
      → IsBytes nonce
      → j.marshal (payload_of t tok) ≡ ok text
      → seal c (some s.keyring) now s.domain text (ok nonce) ≡ ok value
      → seal_session_with c j s now t (ok nonce) (some tok) ≡ ok u
      → IsSession t.issued_at now u × (u.subject ≡ t.subject)
  seal_session_with-IsSession now t u tok nonce text value full nb made put h =
      let same : u.subject ≡ t.subject = ground arith in
      (
        record {
          tok = tok;
          text = text;
          nonce = nonce;
          token = ground arith;
          issued = ground arith;
          full = full;
          nonce_bytes = nb;
          marshalled = rw same made;
          sealed = ground arith;
        },
        same,
      )

  pub seal_session-IsSession :
      (now : Time) (t u : StoredToken) (nonce : Bytes)
      → length nonce ≡ 12
      → IsBytes nonce
      → seal_session c j s now (some t) (ok nonce) ≡ ok u
      → IsSession t.issued_at now u × (u.subject ≡ t.subject)
  unfolding seal_session
  seal_session-IsSession now t u nonce full nb h = elim (Option-cases t.token) [
    | inl nothing ↦ absurd (ground arith)
    | inr (tok, has) ↦ elim (Result-cases (j.marshal (payload_of t tok))) [
      | inr (e, failed) ↦ absurd (ground arith)
      | inl (text, made) ↦
          elim (Result-cases (seal c (some s.keyring) now s.domain text (ok nonce))) [
            | inr (e, failed) ↦ absurd (ground arith)
            | inl (value, put) ↦
                seal_session_with-IsSession now t u tok nonce text value full nb made put
                  (rw has at h)
          ]
    ]
  ]

  pub read :
      (start now later : Time) (t : StoredToken)
      → IsAead c
      → IsCodec j
      → IsKeyring s.keyring
      → now ≤ later
      → IsSession start now t
      → (current : Bool) × (tok : OauthToken) × (t.token ≡ some tok)
        × (get c j s later t.handle
            ≡ resolved c j s later t.handle current
                (record {
                  version = session_payload_v1;
                  issued_at = start;
                  token = some (without_extra tok);
                  subject = t.subject;
                })
                (some (without_extra tok)))
  unfolding get
  read start now later t v m w le q =
      let ((current, opens), _) =
        open_kind-seal_kind c s.keyring now later session_kind_payload s.domain q.text q.nonce
          t.handle v w (inl refl) q.full q.nonce_bytes (m.marshal-IsBytes _ q.text q.marshalled) le
          (unfold seal in q.sealed) in
      let opened : open_value c (some s.keyring) later s.domain t.handle ≡ ok (q.text, current) =
        unfold open_value in opens in
      (current, q.tok, q.token, ground (arith, opened, m.unmarshal-marshal _ q.text q.marshalled))
