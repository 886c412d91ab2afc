-- ===== src/Lib.antt =====
-- A model of the Django Ninja RBAC authentication service: a user registers and logs in with an address
-- and a password, gets a signed access token and a refresh token, exchanges the refresh token for a new
-- pair, and is authorized by the permissions that its roles are granted. Administrators manage users and
-- roles; every step is recorded in an audit trail.
--
-- The parts, from the bottom up, with the files of the repository that they model:
--   Errors (apps/common/exceptions.py): the domain errors, and the other exceptions that the code raises.
--   Effects (apps/common/db.py): methods as functions from a state to a result and a state. What was
--     written before a raise stays written; `run_in_transaction` takes it back.
--   RefreshTokens (apps/authz/repositories/refresh_tokens.py, models.py, repositories/dtos.py): the
--     table of refresh tokens and `arotate`, which exchanges one. `rotate_found` is `_rotate` from the
--     point where the row is known. Cases lists the ways it ends; Valid and History have the invariant,
--     Replay, Outcomes and Total what a rotation promises. Concurrent requests are a list of operations:
--     the row lock makes each one step. Refinement has the abstract view of the table: families are
--     sessions; Simulation has sequences of operations in that view, Families the lemmas on it, and
--     Endings the sessions that end when rows are revoked or deleted.
--   Redis, Blocklist (apps/authz/security/blocklist.py): revoked access tokens and revocation epochs.
--     Keys, Laws and Epoch are about the keys, single tokens and epochs. Redis.Clients
--     (apps/common/redis.py): the client of each event loop.
--   Metadata (apps/audit/services.py): the sanitizer of audit metadata and its two regular expressions.
--   Users (apps/accounts/models.py, apps/accounts/repositories), Rbac (apps/authz/models.py,
--     apps/authz/repositories/rbac.py), AuditLogs (apps/audit/actions.py, dtos.py, models.py,
--     repositories.py): the other tables, each a list of rows in the order of their keys, and their
--     repositories. AuditLogs.Listing is about the listing of the audit trail.
--   Registration: the operations that write to several tables, `acreate_user_with_role` and `adelete`.
--   Platform: what comes from outside the repository. World: the state of a running installation, that
--     is the tables, Redis, and the number of answers that the outside has given so far; the clock,
--     random values and failures are functions of that number.
--   AuditService (apps/audit/services.py): recording an event, which never fails its caller.
--   Jwt (apps/authz/security/jwt.py) and Guard (apps/authz/api/auth.py): building and reading access
--     tokens, the bearer check with the blocklist, and the permission check in front of a view.
--   AuthService and Sessions (apps/authz/services/auth.py, security/passwords.py, security/binding.py):
--     `register` is `register_user`, `logout` is `logout_user`; the other methods keep their names. The
--     branches of `login` and `refresh` are functions of their own (`decide_login`, `after_rotation`).
--     AuthService.Enrolment leads from registering to logging in.
--   AdminService (apps/accounts/services/admin.py): managing users, roles and their listings;
--     Assignment, Deactivation and Deletion are about `assign_role`, `update_user` and
--     `delete_user`.
--   ClientIp (apps/audit/context.py): the audit context of a request, with the client's address behind
--     trusted proxies (`client_ip` is `_client_ip`, `first_client` its loop).
--   Api (config/api.py, apps/common/api, apps/authz/api/schemas.py and routers): the views with their
--     schemas, each between the permission check and the service it calls, and the exception handlers.
--     A function `…_view` is a view behind its decorator. Guards has all administrative routes
--     together; Pages, Failures and LogoutEffect are about listings, errors and the logout.
--   Config (config/settings/base.py, prod.py): the settings from environment variables; Ttl is about
--     durations, Boot about what a process can rely on that has started.
--   Throttling (apps/common/throttling.py): the rate and the bucket of a throttle.
--   Asgi (config/asgi.py): the lifespan protocol of the server.
--   Commands (apps/common/management/commands): `bootstrap` is `bootstrap_admin`; WaitForDb.
--   Migrations (apps/authz/permissions.py, data migrations 0002, 0005 and 0006): the permission
--     catalogue and the rows that the migrations write; Agreement compares them, Reversal is about
--     taking 0006 back.
--   Schema: what the models declare, and the migrations of apps/accounts, apps/audit and apps/authz as
--     data. Accounts, Audit and Authz have both of an app, Models the names of the models. History has
--     the order that dependencies ask for, Run what a run of migrations does; Chains, Replay and
--     Lookups lead to Agreement, which compares the result with the models. Widths is about rows that
--     fit their columns, AdminSite about apps/accounts/admin.py.
--   Decimal: Python's `str` and `int` of numbers. Prelude: tests and lemmas that all parts share.
--   Tests: a concrete installation, at which the theorems are applied.
--
-- Instants and durations are microseconds since 1970, as natural numbers. Two definitions run on fuel: the
-- digits of `str_of` get one more unit than the number itself, and the loop of `wait_for_db` as many as
-- sleeps fit into the timeout, and two more. Sets are lists of which only membership and the sorted order
-- are used.
--
-- Parameters, with their documented behaviour as laws where a theorem needs it: Redis (SET with EX, GET),
-- PyJWT (encode, decode), Django's password hashers, SHA-256, `lower` and `strip`, Python's `ipaddress`
-- module, pydantic's `EmailStr` and Booleans, `dj_database_url`, the clock and random values,
-- Django's migration state, and the fields of the base classes of `User`. The model itself
-- checks uniqueness constraints and, where a user is registered, the foreign key to the role; elsewhere the
-- code has looked up the keys that it stores.
--
-- Not modelled: failures of the database outside audit recording, foreign keys violated by a concurrent
-- deletion, gaps in key sequences, digits other than 0 to 9 and the length limit in `int`, the rounding
-- of `total_seconds`; Ninja's routing, its parsing of requests and its second validation of responses (a
-- key or an instant in a request is a natural number) and its counting of requests; the
-- constants of the framework's configuration.
pub mod Prelude
pub mod Errors
pub mod Effects
pub mod Decimal
pub mod RefreshTokens
pub mod Redis
pub mod Blocklist
pub mod Metadata
pub mod Platform
pub mod Users
pub mod Rbac
pub mod AuditLogs
pub mod World
pub mod AuditService
pub mod Jwt
pub mod Guard
pub mod Registration
pub mod AuthService
pub mod Schema
pub mod Sessions
pub mod AdminService
pub mod ClientIp
pub mod Api
pub mod Throttling
pub mod Asgi
pub mod Config
pub mod Commands
pub mod Migrations
pub mod Tests
