-- ===== src/Lib.antt =====
-- A verification library for Ory Kratos, an identity server: logins, sessions, recovery and the
-- delivery of mails.
--
-- The parts and the code they model:
-- - Base: booleans, lists, Go's maps and errors, rows of a table.
-- - Identity: identity/identity.go, credentials.go and aal.go, with Identity.Equality for
--   CredentialsEqual, Identity.Nid for ValidateNID, Identity.Manager for identity/manager.go and
--   Identity.Addresses for extension_verify.go and extension_recovery.go. Identity.Persister is
--   persistence/sql/persister_identity.go.
-- - Http: the parts of a request that are read, and session/helper.go.
-- - Session: session/session.go, Session.Persister for persistence/sql/persister_session.go,
--   Session.Manager and Session.Manager.Cookie for session/manager_http.go,
--   Session.Api for session/handler.go. Session.Persister.Runs has the sequences of statements, with
--   the specification that they are compared with.
-- - Courier: courier/message.go and persistence/sql/persister_courier.go, with Courier.Dispatch for
--   courier/courier.go.
-- - Flow: selfservice/flow/request.go, and Flow.State for the state.go of recovery and verification.
-- - Login: selfservice/flow/login, with Login.Gate for the switches on the session in handler.go,
--   Login.Submit for submitFlow and Login.Hook for hook.go.
-- - Hook: address_verifier.go and session_destroyer.go of selfservice/hook, which run after a login,
--   with Hook.Registered for session_issuer.go and verification.go. Login.Destroyed is a login that
--   runs the session destroyer.
-- - Lookup: selfservice/strategy/lookup, the one-time recovery codes, with Lookup.Login for login.go.
-- - Link: selfservice/strategy/link/token_recovery.go and persistence/sql/persister_recovery.go.
--   Link.Verification is the redemption of a verification link in strategy_verification.go, with
--   Link.Verification.Token for token_verification.go and persistence/sql/persister_verification.go
--   and Link.Verification.Flow for selfservice/flow/verification/flow.go, and Link.Verification.Submit
--   for Verify and the submission of the form. Link.Sender and
--   Link.Sender.Recovery are selfservice/strategy/link/sender.go.
-- - Recovery: the redemption of a recovery link in selfservice/strategy/link/strategy_recovery.go, with
--   Recovery.Flow for selfservice/flow/recovery/flow.go and Recovery.Submit for Recover, the submission
--   of the form and the links that administrators create.
-- - Settings: selfservice/flow/settings/flow.go and persistence/sql/persister_settings.go, with
--   Settings.Handler for handler.go, Settings.Hook for hook.go, Settings.Written for error.go and
--   Settings.Resumed for strategy_helper.go.
-- - Hash: hash/hash_comparator.go and the three hashers beside it.
-- - Cipher: cipher/noop.go, with Cipher.Aes for cipher/aes.go and Cipher.Chacha for
--   cipher/chacha20.go.
-- - Continuity: continuity/manager.go and manager_cookie.go, with Continuity.Table for container.go and
--   persistence/sql/persister_continuity.go and Continuity.Cookie for x/cookie.go.
-- - Logout: selfservice/flow/logout/handler.go.
-- - Password: selfservice/strategy/password/validator.go, with Password.Similar for its longest common
--   substring.
-- - Redirect: x/http_secure_redirect.go.
--
-- How they interact: a request's token is looked up by Session.Manager in the table of
-- Session.Persister. Login.Gate and Login.Submit start from the session that it fetches, run the
-- strategies, of which Lookup.Login is one, and end in Login.Hook, which activates a session, runs
-- the configured hooks, such as those of Hook, on the session and the table, writes the session to
-- what they leave and issues a cookie by Session.Manager.Cookie. What a session is worth is Identity.Aal's level.
-- Identity.Manager guards every change of an identity by Identity.Equality. Session.Api and Logout are
-- clients of Session.Manager. The tokens that Link.Sender mails are those that Link.Verification and
-- Link redeem. Recovery redeems a token of Link, issues a session by Session.Manager.Cookie and begins
-- a flow of Settings, whose hook writes the identity by Identity.Manager.
--
-- How state is modelled: a table is the list of its rows, and an operation takes it and gives it
-- back. Each statement takes what the database answers as an Option of an error: `none`, or the
-- error that ends the operation with the table unchanged. Errors are the constructors of Err that
-- the code tells apart, and a run-time panic is the error `panic`. A time is a number of
-- nanoseconds, a uuid a number with 0 for uuid.Nil, raw JSON its text. The clock, random tokens,
-- configuration, the cookie store, the mail server, nosurf, net/url and encoding/json are parameters.
-- The identity pool is the interface of Identity.Manager.Pool. The session manager, Recovery and
-- Settings take what the pool answers as a function of the id.
--
-- Every loop is structural recursion on the list it runs over. The one function that calls itself,
-- Password.validate, counts its calls down, and two are enough. The only other bound is the limit of
-- ten messages for a round of the courier, which is the code's own.
--
-- Not modelled: user interface nodes, logging, JSON output, SQL itself, the registration flow and the
-- remaining strategies of selfservice, the handlers that begin and show recovery and verification
-- flows, the generated client in internal/httpclient, and the wiring in driver and cmd.
pub mod Base
pub mod Identity
pub mod Hook
pub mod Hash
pub mod Http
pub mod Session
pub mod Settings
pub mod Cipher
pub mod Continuity
pub mod Courier
pub mod Flow
pub mod Login
pub mod Lookup
pub mod Link
pub mod Logout
pub mod Password
pub mod Redirect
pub mod Recovery
