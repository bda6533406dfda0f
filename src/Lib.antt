-- ===== src/Lib.antt =====
-- Howdah: sealed session cookies and the parts of a server-rendered web application around them.
--
-- The program's parts, with the module that models each:
--   * Keyring (cookie_keyring.go): the keys that cookies are sealed under, their construction, and the
--     choice of the key to seal with at each call; Keyring.Env reads them from the environment.
--   * Envelope (cookie_crypto.go): the sealed value, its writer and its reader; Envelope.Domain has the
--     labels that tell the cookies of two applications apart.
--   * Sealer (session_sealer.go): handles and payloads of stores outside the package.
--   * Session and CookieStore (token_store.go, token_store_cookie.go): the store that keeps the whole
--     session in the cookie. It reads and writes values through Envelope and Keyring.
--   * BasePath (base_path.go; resolveRedirect of application.go, safeRedirectPath of
--     application_auth.go): the mount point and the redirects that are resolved against it.
--     BasePath.Location is what http.Redirect makes of an address before it writes the Location; a
--     redirect among the effects of a handler is the call of http.Redirect, with its argument.
--   * Auth (application_auth.go, cookies.go): the session cookie, as the effects on the response of
--     setting it, of reading it through a store and of refusing it. Its children model OIDCAuth:
--     Auth.Options NewOIDCAuth and its options, Auth.Contexts what a request's context carries,
--     Auth.Guard RequireAuth, OptionalAuth, its middleware and Keepalive with the check of the token's
--     expiry, Auth.Exchange the exchange of a refresh token, Auth.Login the pages, redirect, callback
--     and logout of a login, Auth.Registration its routes, its menu hook and its cookie security, and
--     Auth.CookieBacked the cookie store of CookieStore as the TokenStore of NewOIDCAuth.
--   * Token (token.go): the round trip to the token endpoint and the reading of its answer.
--   * Menu (menu.go) and Rendering (page.go): hooks, the sorted menu, and the renderer of pages, whose
--     response is the list of what is written; Rendering.Texts localizes.
--   * Application (application.go): NewApplication over its components, and the set-language page. It
--     takes the security of its cookie from the OIDCAuth among the components.
--   * PgStore (tokenstore/pgstore/): the token store on Postgres. PgStore.Rows has the statements of
--     postgres/queries.sql on a table that is a list of rows, PgStore.Store and PgStore.Changes the
--     operations, PgStore.Lifetimes any sequence of them, PgStore.Refresh the refresh of one call as a
--     loop over the answers of its statements whose output is the calls of the exchange, and
--     PgStore.Leases the refreshers of the whole fleet as steps on one row. Time may pass there however
--     long a refresher takes; Leases.InTime says which of them are within their two timeouts. It seals
--     through Sealer.
--   * PageMux (page_mux.go): routes that serve pages, guarded by the check of the requesting site.
--   * Docform (docform/): forms whose components each manage some blocks of a document.
--   * Errors, Errors.Http (http_err.go, elements.go): the error values that the parts return.
--
-- How the code is read. An error is a value of Errors.Error, a fallible function returns a Result.
-- Go's time is a natural number of nanoseconds since the zero Time (Clock), passed to each function
-- that calls time.Now; the bytes of rand.Read are an argument, a Result since the read can fail.
-- Strings and byte slices are lists of bytes. A number or time formatted into an error text is left
-- out of the text, and a quoted one stands without its quotes. Code outside the repository is a
-- parameter: AES-GCM and SHA-256 are the record Crypto with the laws IsAead and IsHash,
-- encoding/json on the session payload is CookieStore.Codec with IsCodec, on that of a row
-- PgStore.RowCodec with Store.Reading.IsRowCodec, and time.Parse and url.Parse are arguments.
-- encoding/json replaces invalid UTF-8, so the laws of the codecs are those of payloads whose
-- strings are valid UTF-8. html/template is an argument that gives the texts that a template writes
-- and the error that it ends with. The identity provider (authorization URL, code exchange, ID token
-- verifier) and the i18n bundle are arguments as well, and Token.Formats is the JSON decoder, the
-- media type and query parsers. The standard library's base64, hex and query escaping are written
-- out in Encoding, strconv's numbers in Token.Numbers, and the wrap-around of int32 and int64 in
-- Base.Words. A handler of Auth is a step: its effects in order, and a result. The check of a
-- token's expiry takes an instant for each of its calls of time.Now (Guard.Instants); a handler of
-- Auth.Login takes one for all of its calls.
-- A loop over a list is structural recursion. The refresh loop of pgstore runs over the list of what
-- its passes find, which ends it in no way of its own; that it does end is one of the results.
--
-- Not modelled: docform targets other than the two constants; the migrations
-- (tokenstore/pgstore/migrate.go, schema/), which run SQL files through a library; the code that
-- sqlc generates (tokenstore/pgstore/postgres/), since the statements themselves are modelled; and
-- the build tasks (magefiles/).
pub mod Application
pub mod Auth
pub mod Base
pub mod BasePath
pub mod Clock
pub mod CookieStore
pub mod Crypto
pub mod Docform
pub mod Encoding
pub mod Envelope
pub mod Errors
pub mod Keyring
pub mod Menu
pub mod PageMux
pub mod PgStore
pub mod Rendering
pub mod Sealer
pub mod Session
pub mod Tests
pub mod Token
