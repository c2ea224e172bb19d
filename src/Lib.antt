-- ===== src/Lib.antt =====
-- seta-training: auth-service, the service of accounts and tokens, and core-service, the service of
-- teams and assets (auth-service/internal and core-service/internal).
--
-- The program. Users register and log in at auth-service, or are imported from a file by a pool of
-- workers; it signs pairs of an access token and a refresh token that is good for one rotation,
-- keeps the refresh tokens in PostgreSQL and the access tokens of ended sessions on a blacklist in
-- Redis, publishes its key, and announces the users on Kafka. core-service checks access tokens
-- under the published key and against the blacklist. It keeps a projection of the users, teams with
-- their members, and a tree of folders and notes with grants, in PostgreSQL; it caches lists of
-- members, assets and grants in Redis for 300 seconds and announces changes on Kafka. A handler
-- calls a method of a service, the service checks the caller, calls its repository, publishes an
-- event and drops cached entries; a repository runs queries.
--
-- The files. Prelude has the shared helpers: texts and conditionals (Tests), tables as lists of
-- rows (Lists), and Go functions on shared state that return a value or an error (Effects).
-- Core/Db: the tables (Tables, of db/models.go) and a function per query (Users, Teams, Assets,
-- Acl, of db/*.sql.go), which returns `none` where a constraint refuses a write; with the laws of
-- the writes on members (Membership), grants (Grants), the cascade of a deletion (Cascade) and the
-- tree (Tree). Core/World: the servers and their calls (State, Calls), the keys of Redis (Keys, of
-- cache/keys.go), the rules by which an action keeps an invariant of the tables (Keeps) or leads
-- from one condition to another (Triple), and the calls while none fails (Working, Redis).
-- Core/Team: team/service.go, over Repository (team/repository.go and model.go); the requests as
-- data (Requests), who may make them (Access), what they leave (Consistent, Effects, Roles), and
-- the cached lists of members (Coherence, Filling, Cache, Reads). Core/Asset: asset/service.go,
-- over Repository (asset/repository.go and model.go); the requests (Requests), who may make them
-- (Access, Reading, Rules), what they leave (Structure, Sharing, Forest), and the cached assets and
-- grants (Fresh: Reads, Answers, Changes, Writes, Grants, Shares, Deletes, Requests) and the
-- messages (Published: Requests, Shares, Run); Checks has what look-ups and checks leave alone.
-- Core/Audit: the consumers of initialize/audit_consumer.go (with db/audit.sql.go, Db/Audit), their
-- log (Trail), and with the asset service before them (Changes). Core/Producer: calls of Publish of
-- initialize/kafka_producer.go that run at once, and the writers that they share (Shared).
-- Core/Http, and Handler and Routes of each service: the answers to requests, of handler.go,
-- response/response.go, middleware/context.go and router/router.go. Core/UserEvents: the consumer
-- of initialize/kafka.go, and what it makes of the users (Projection). Core/Samples has small
-- tables, on which the Tests run the rest.
--
-- Auth: auth-service. Auth/Db: its tables and queries (db/*.sql.go), with the order of the pages
-- (Order, Sorted, Texts) and the refresh tokens that are spent (Spent). World: its servers and the
-- rules by which an action keeps an invariant of them. Libraries: what bcrypt and golang-jwt
-- promise. Users: user/service.go and user/repository.go. Tokens: auth/service.go and
-- auth/repository.go, with what a token that is parsed promises (Parsing). Requests: the calls as
-- data. Middleware: middleware/jwt.go. Handler and Pages: auth/handler.go and user/handler.go. What
-- they do: Replay and Logout (of tokens), Identity (who passes), Accounts (the hashes that are
-- stored), Pages/Walk (a client that follows the cursors, over Rows), Race (rotations whose calls
-- interleave). Import: the pool of user/service.go as a step relation, with the file (Csv, Trim),
-- and what it leaves (Pool, Progress, Summary, Cancelled), and the whole import and its handler
-- (Run). Config: config/config.go, and what the services may rely on of it (Usable). Samples and
-- Tests as above. Jwks: the key set that auth-service publishes and core-service reads, over base64
-- (Base64), and read back as the same (RoundTrip). Jwks/Client: the keys that core-service has
-- read; Check: its middleware/jwt.go; Admission: whom it lets pass with a token of auth-service.
-- Announcements: the messages of auth-service as the consumer of core-service reads them, and the
-- projection (Projection).
--
-- The correspondence. Functions, fields and constants keep the names of the source in snake_case. A
-- method is an action: from the servers to a result or an error, and the servers. Every call of
-- PostgreSQL, Redis and Kafka takes the next entry of `outages`, which says whether it fails, so a
-- theorem with no hypothesis on them holds whichever calls fail. A call that fails does nothing,
-- and a transaction that fails leaves the database as it began. Where the source drops an error, so
-- does the action. Ids of new rows and the collation are parameters, fields of the database.
--
-- Bounds. The recursive query of the descendants ends 20 levels down, as in the source. The cascade
-- of a deletion runs for as many rounds as the table has rows, which is enough, as each round that
-- goes on removes a row. The offset of a page is taken modulo 2 ^ 32, as its conversion does. The
-- pages of users need one request more than there are users at most. A pool of workers takes at
-- most as many steps as its effort counts. Lists that a number is written to have as many places as
-- the number.
--
-- The tokens. A token is whatever the library signs; its header and its claims are what the library
-- reads. The payloads of the audit log are what the server stores of a text in a column of JSONB, a
-- parameter. A salt is named by the number of ids that have been issued, and ids are compared as
-- canonical texts. A step of the import's pool registers a row as a whole. The publisher is there,
-- as the start-up sets it.
--
-- Not modelled: the logs, the ids of requests and the start-up of both services. The routes of
-- core-service are given the caller that the check of the token leaves. What Gin makes of a body
-- and a query is given with the request. Requests run one after the other, but for the rotations of
-- Race, the pool of Import and what hypotheses leave open; the clock stands still within a request.
pub mod Prelude
pub mod Core
pub mod Auth
pub mod Jwks
pub mod Announcements
