-- ===== src/Lib.antt =====
-- A model of the NestJS framework template: its OAuth server, the sessions of its pages, and the
-- cluster that runs it.
--
-- The program's parts, and the files that model them:
--
-- - OAuth tokens. `POST oauth/token` (src/auth/controllers/oauth/oauth.controller.ts: `token`) is
--   guarded by LoginAccessTokenGuard over the passport strategy AccessTokenService, which validates
--   the body as an AccessTokenDto and hands it to the grant type that it names; the handler then
--   stores an access token and a refresh token in a managed transaction and signs their ids.
--   `POST oauth/refresh` is guarded by RefreshAccessTokenGuard over RefreshTokenService, and its
--   handler rotates the pair (`consumeToken`). Auth/Dto is src/auth/dtos, Auth/Grants is
--   src/auth/grant-types, Auth/Strategies is src/auth/strategies, Auth/Guards is src/auth/guards,
--   Auth/OauthController is the two routes: `post_token` and `post_refresh` are the guard and then
--   the handler under `intercept`. Auth/AuthService is src/auth/services/auth. Auth/Authorization is
--   the login attempt that creates codes, with the client id validator; Auth/LoginStrategy is
--   src/auth/strategies/authorization-login-strategy with its DTOs, and the route of a login;
--   Auth/PasswordFlow is the password page with the guards that open it. Auth/Redirectors is where
--   the pages lead to (`showLogin`, src/auth/redirections, src/auth/redirectors and the interceptor
--   AppendFormActionHeader), and Auth/LoginSession how a login reaches the session
--   (`mapSessionWithUser`, MapUserToSessionInterceptor, RedirectRouteInterceptor), over an interface to
--   express-session. Auth/HashEncrypt is src/auth/services/hash-encrypt; Auth/Keys is
--   src/auth/services/jwt-token-manager with src/cli-commands/commands/oauth/generate-private-keys.
-- - Repositories. Repos/UserRepo is src/repositories/user; Repos/ClientRepo, Repos/AccessTokenRepo and
--   Repos/RefreshTokenRepo are src/auth/services/oauth; Repos/ChallengeRepo is
--   src/auth/services/authorization-challenge-repo, and its child Base64 is what
--   `Buffer.from(_, 'base64')` does.
-- - The database. Models is src/databases/models. sequelize is not part of the repository: Database
--   is an interface of a table, its operations with the laws that the code relies on, and
--   Database/ListTable implements it, so the laws can hold. Transactions is src/transaction-manager
--   over a connection whose rollback restores the tables. World is the state that the services
--   share: the tables, the number of random draws and the number of clock readings; its `Runtime`
--   holds bcrypt, jsonwebtoken with the contents of the two key files, node:crypto and the clock as
--   parameters.
-- - Sessions of pages. Session has an interface to connect-flash; Session/IntendManager is
--   src/session-manager/services/intend-manager, Session/WebGuard is src/auth/guards/web with the
--   interceptor RedirectIfAuthenticated, Session/Interceptors is src/session-manager/interceptors and
--   src/session-manager/filters. Session/ErrorPages is how a refused form comes back to its page:
--   `catch` of src/helpers/filters/error-validation-format and the two interceptors that read it.
-- - The cluster. Cluster is SetupClusterService (src/cluster/services/setup-cluster): the primary,
--   its workers and their restarts; Cluster/Launch is `clusterStart` of src/main.ts, one process from
--   its start to its exit, with the workers that are alive in its child Staffing; Cluster/Reachability is its states as a step relation, and
--   Cluster/Audit the audit of a worker's health, whose inputs are the results of the checks and
--   the timer of `auditTime`. Messaging is src/common/services/process-messaging and
--   src/cluster/communication-commands.ts; Messaging/HealthCheck is one health check, from the
--   primary's request through src/health/controllers/health in the worker to the answer.
-- - Lists of rows. Pagination is src/paginate-overwrite; Pagination/Crawl is a client that follows its
--   pages, at most `fuel` of them, and gives none where they do not end within that; one page for each
--   row is enough.
-- - Settings and commands. Environment is src/environment/configs, with the read and write hosts in
--   Environment/Databases and, with src/mail/services/mail-config, the mailer in Environment/Mail.
--   CommandLine/MakeMigration is the name that src/cli-commands/commands/make-migration gives a
--   migration, CommandLine/GenerateClient is src/cli-commands/commands/oauth/generate-client, over the
--   tables and the log.
-- - What every request and call goes through. Helpers is the middleware MethodChangeMiddleware
--   (src/helpers/middlewares) and, behind it, ContextInterceptor (src/helpers/interceptors). Logging is
--   src/services/logging and src/common/decorators/logging.decorator.ts, on a method that is any
--   function of the state.
-- - Texts. UrlBuilder is src/url-management; ErrorFormat is `formattedErrors` of
--   src/helpers/filters/error-validation-format.
--
-- How code is modelled: a method that awaits, throws or changes state is an `Action`, a function from
-- the state to a result, `ok` with a value or `err` with an exception, each with the state that was
-- reached (Effect). A rejected promise keeps what it did until the transaction around it restores the
-- tables. `Promise.all` runs its two parts in order, which is the order in which they issue their
-- statements. Texts are strings where they are only compared, and lists of UTF-16 units where they
-- are searched or cut. Dates are milliseconds. Every loop of the code is a structural recursion, so
-- there is no fuel: `start_from` counts down the workers that are left to start. Only `decimal`, the
-- digits of a page number, takes fuel, one more than the number, and `crawl`.
--
-- Not modelled: what is wired; what is logged, but for Logging and the client that is generated. The
-- values of a request's body that are neither texts nor missing are one value `other`; of `_method`
-- it is kept whether they count as true. Settings of the cluster are natural numbers, where the code
-- also reads fractions. Handlers are not interleaved: each runs to its end, but for
-- Repos/ChallengeRepo/Race, where the statements of two calls of `consumeCode` are. The percentage of
-- the health audit is floating-point, and is a parameter that is monotone in the checks passed.
-- A decrypted token is what JSON can hold, `Parsed`: null, an object, an array, or any other value;
-- where the login is restarted with a token that is an array or a text, its fields by index are left
-- out. The class `URL`, connect-flash, express-session, terminus, JSON and the ciphers are interfaces with
-- the laws that the code relies on. The environment's numbers are natural numbers or NaN. Prefixes of
-- migrations are those of years with four digits. The parts without a file here are the views, the
-- sending of mails, the factories that hand settings to libraries, and the commands around umzug.
pub mod Prelude
pub mod Effect
pub mod Database
pub mod Models
pub mod World
pub mod Transactions
pub mod Repos
pub mod Validation
pub mod Auth
pub mod Cluster
pub mod CommandLine
pub mod Environment
pub mod ErrorFormat
pub mod Helpers
pub mod Logging
pub mod Messaging
pub mod Pagination
pub mod Session
pub mod UrlBuilder
pub mod Examples
