-- ===== src/Lib.antt =====
-- The program is an MCP server (services/server) that lets a chat host work on a user's repository
-- and hand jobs to devices. Six of its parts are modelled.
--
-- OAuth (services/server/src/oauth). A host obtains an authorization code by the user's consent,
-- exchanges it for an access and a refresh token, and rotates the refresh token. OAuth/Records has
-- the rows of store.ts; OAuth/Store and OAuth/Tokens have its methods (approveConsentAndIssueCode,
-- denyConsent, consumeCodeAndIssueTokens, rotateRefreshTokenAndIssueTokens, ...), a transaction
-- being a function that returns its result with the new database, or the old one. OAuth/Scope and
-- OAuth/Service have the methods of service.ts over a small monad of results and state; Identity
-- has the queries of identity/store.ts that the service asks. OAuth/History runs any sequence of
-- store calls, and its children, with Families, Retired, Live and Decisions, say what such a
-- sequence keeps. OAuth/Grants says what the service's methods do.
--
-- Jobs (services/server/src/jobs). A job is created in Redis, claimed by a device as an attempt,
-- started, and ended by a report or by an operator's cancellation; a delete fence keeps a target
-- free of new work. Jobs/Records has the records of v2-schema.ts and the Redis state; Jobs/Scripts
-- has one module for each Lua script of v2-assignment-script.ts, named for it (Create, Claim,
-- Start, Report, Cancel, Record), with Fences for the fence operations of v2-store.ts and its touch
-- script, and Queue for pruneTargetQueue. A script is atomic: it reads the state, decides (a reply
-- or an error), and writes. Jobs/Machine has the moves of a job and of an attempt as indexed data
-- types, Calls the sequences of calls, and its other children that every call is a move, or leaves
-- a field as it is. Jobs/History, Claims, Final, Reports, Fenced, Progress and Consistent follow
-- sequences of calls. Jobs/Submit has createJob of v2-store.ts, which calls the create script and
-- then reads the job behind an existing request.
--
-- TargetDelete has the deletion of a target (jobs/target-delete.ts): World the store as an
-- asynchronous function sees it, with the calls of others that run at each `await`, Scan
-- verifyTargetQuiescence, and Coordinator the rest of the class: who may delete, the fence and its
-- takeover, the row and the release, either call of which may throw. The children of Scan say how
-- much fuel is enough (Fuel) and what a quiescent verdict means (Quiet), those of Coordinator what
-- a deletion does to the rows (Deleted) and under what fence it deletes (Fenced). The scan's cursor
-- counts the entries that are behind.
--
-- JobService has cancelJobForDevice of jobs/v2-service.ts, which reads the job and its attempt and
-- calls the cancel script, up to three times when another call comes in between, in the same World.
-- Cancelled says what it does to the store.
--
-- Connector (services/server/src/connector/enrollment-store.ts) enrols devices. Connector/UserCode
-- has the codes that a user types, Symbols what reading one symbol gives, and Typed how a drawn
-- code is read; Connector/Enrollments has the store with its three maps and createEnrollment,
-- Methods the other methods, Calls the sequences of calls. Moves says how a method changes one
-- enrolment; Bounds, Codes, Purged, Consistent, Histories, Final and Found are what follows for the
-- size, the drawing loop, the purge, the maps and the decisions.
--
-- Onboarding (services/server/src/onboarding) leads a user from a GitHub installation to a
-- workspace that is ready. Onboarding has the flow, Store the methods of store.ts, and Service
-- those of service.ts. A method that awaits another service is cut there into parts
-- (start_provisioning and finish_provisioning for provisionWorkspace, and so on), and Calls runs
-- parts in any order, so that anything may come between them, with the store's own updateFlow,
-- which the routers call, and deleteFlow. Changes says which patch each part writes, Opened how
-- opening and writing a flow end; Opening, Active, Histories, Workspace, Provisioned, Ready and
-- Restricted are what follows.
--
-- Base has the shared names, texts and numbers tests, list lemmas, SQL tables as lists (Base/Sql),
-- Redis keys as functions (Base/Redis) and JavaScript maps as lists of entries (Base/Map). Tests
-- runs the theorems at concrete inputs.
--
-- Times and counts are natural numbers; a time or duration of a report that is negative or of
-- another type is the constructor `invalid`, which the scripts refuse. Redis keys with different
-- prefixes are different families, so they never meet. A key with a lifetime carries the time of
-- its end. A stored text that is no JSON is `malformed`. The hashes, the URL parser, the client
-- resolver and random values are arguments, and so are the answers of GitHub and of the repository
-- and bootstrap services to onboarding. The drawing of a user code loops over the bytes that are
-- drawn: one more than the codes in use, all different, is enough. The loop of the target scan is
-- on fuel: a round for each 128 entries that the stream has or may get is enough. All other loops
-- are over lists.
--
-- Not modelled: opening, closing and migrating the SQLite file, the order of rows beyond what a
-- query asks, the texts of messages, HTTP routing, logging, a Redis or SQLite connection that fails
-- (but for the release of a fence), the encoding of records as JSON (a decode error of an argument
-- that the caller has just encoded cannot happen, so the scripts' MALFORMED_REPORT,
-- MALFORMED_RESULT and create's MALFORMED_JOB_RECORD have no branch), and the parts that the
-- components' notes name.
pub mod Base
pub mod Identity
pub mod OAuth
pub mod Jobs
pub mod Tests
pub mod TargetDelete
pub mod Connector
pub mod Onboarding
pub mod JobService
