-- ===== src/Lib.antt =====
-- A model of fastapi-better-auth, the library that authenticates FastAPI requests against Better
-- Auth sessions (src/fastapi_better_auth/_internal/), and the theorems about it.
--
-- How the parts interact. A route depends on `current_session`, `optional_session`, `require` or
-- `require_membership` (core.py, authz.py). The dispatcher asks every configured verifier for a
-- credential, refuses several, and has the one that found its credential verify it. The cookie verifier
-- (cookie_verifier.py) finds the session cookie in the Cookie header, puts its chunks together, takes
-- the signed value apart (cookie_parsing.py), asks the CSRF policy (csrf.py), compares the signature
-- with every secret of its keyring (signing.py) and reads the session from the store, whose failures
-- an outage latch reports (stores/outage.py). A store is a database (stores/sqlalchemy_store.py) or
-- Better Auth's secondary storage (stores/redis_store.py). The remote verifier (remote_verifier.py) asks
-- the server in place of a store, after a cache of dead cookies (negative_cache.py), a backoff latch
-- (remote_backoff.py) and a probe (remote_probe.py). The JWT verifier (jwt_verifier.py) checks a bearer
-- token against a key that the JWKS client (jwks.py) fetches and keeps. The gates of authz.py then ask
-- the application's rule.
-- Whatever is raised on the way is judged by its class (errors.py, containment.py).
--
-- Which file models what:
--   Errors           errors.py, containment.py: the exceptions as data, `unwrapped`; in Errors/Declare
--                    `SessionError.__init_subclass__`, in Errors/Refusal `AuthorizationRefused` and
--                    `judge_refusal`
--   Exec             a method that changes a state and may raise
--   Text, Codec      the str, bytes, base64 and percent-decoding of the language that the parts call
--   Cookies          cookie_parsing.py: cookie pairs, chunks (Cookies/Chunks), signed values
--                    (Cookies/Signed)
--   Secret           shared_secret.py: the values that are accepted
--   Signing          signing.py
--   Csrf             csrf.py; Csrf/Options is what the policies' constructors accept
--   Latches          once.py, remote_backoff.py; Latches/Outage is stores/outage.py
--   NegativeCache    negative_cache.py
--   CookieVerifier   cookie_verifier.py, with the records of stores/records.py
--   Sql              Sql/Plan and Sql/Rows are stores/sqlalchemy_core.py, Sql/Store is
--                    stores/sqlalchemy_store.py, Sql/Store/Pool its bound on worker threads
--   Redis            stores/redis_store.py
--   Jwks             jwks.py: the client; Jwks/Parse is the parsing of a published key set
--   Jwt              jwt_verifier.py: Jwt/Claims is the mappings, Jwt/Token the checks of a token, of its
--                    header and of its claims, Jwt/Options those of the constructor
--   Remote           the verifier that asks the server: Remote/Verifier and Remote/Rungs are
--                    remote_verifier.py, Remote/Response is remote_response.py, Remote/Document is
--                    stores/session_document.py with stores/upstream.py, Remote/Probe is
--                    remote_probe.py
--   Transport        transport.py, httpx_transports.py: a fetch
--   Urls             urls.py: canonical origins; Urls/Split is the language's urlsplit
--   Labels           labels.py
--   Models           the constraint of `UserId` in models.py
--   Dispatcher       core.py; Dispatcher/Configure is what the constructor checks
--   Authz            authz.py
--   Tests            concrete inputs
--
-- State is passed explicitly: a method is a function from a state to a result and the next state, and
-- what was written before a raise stays written. A verifier, a store, a policy and a rule are records
-- of functions or functions, so each theorem holds for every one of them. HMAC-SHA256, SHA-256, the
-- user model, the store, json.loads, int(), datetime.fromisoformat, datetime.fromtimestamp, PyJWT,
-- SQLAlchemy's engine, the Redis client, the HTTP client, ipaddress.ip_address and the transport, where a
-- verifier uses one, are parameters. Moments are natural numbers on
-- one UTC scale; the numbers of a token's claims are integers, in the smallest unit of time that they
-- tell apart.
--
-- Text is a list of code points, none of them a lone surrogate where pydantic would read it. lower,
-- upper and casefold are those of Latin-1, since a header's bytes are decoded as Latin-1; a label and a
-- response's media type are taken to be within it, as is a configured URL's host, and a secret's casefold is a parameter. Loops run
-- over lists; the two on fuel are the decimal of a number, on the number plus one, and the dropping of
-- cookie prefixes, on the length of the name, and no prefix is left when it ends.
--
-- FastAPI resolves a dependency before the function that depends on it runs, and an exception of the
-- dependency is the request's: the model composes the two by sequence. Locks, log texts, the scrubbing
-- of locals and the timing of comparisons are not modelled, nor are the transports' constructors, the
-- reflection of a schema, the remote verifier's configuration and the OpenAPI parts.
pub mod Base
pub mod Text
pub mod Errors
pub mod Codec
pub mod Cookies
pub mod Secret
pub mod Signing
pub mod Jwks
pub mod Jwt
pub mod Labels
pub mod Models
pub mod Csrf
pub mod Latches
pub mod NegativeCache
pub mod Exec
pub mod CookieVerifier
pub mod Remote
pub mod Sql
pub mod Redis
pub mod Transport
pub mod Urls
pub mod Dispatcher
pub mod Authz
pub mod Tests
