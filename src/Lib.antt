-- ===== src/Lib.antt =====
-- Hermes Infi WebUI: the core logic of its backend.
--
-- The backend has two processes. The API (backend/app) takes a message, stores it and enqueues a
-- prompt; the runner (backend/agent_runner) takes the prompt, works it off with an agent in a
-- subprocess, publishes what the agent sends as events and stores the answer. They share the
-- database, the store of objects and Redis.
--
-- The files, and the code each is about:
--   Governance   backend/app/core/governance.py: the permissions of a team's roles
--   Rbac         backend/app/core/rbac.py: the roles of the platform
--   Files        backend/app/core/files.py: upload cap and safe paths
--   Acp          backend/agent_runner/acp_client.py: JSON-RPC with an agent. Acp/Dispatch takes a
--                message, Acp/Approve decides a permission request, Acp/Sessions has the session
--                calls
--   Pool         backend/agent_runner/session_pool.py: one client for each conversation
--   Workspace    backend/agent_runner/storage.py, and the file versions of
--                backend/app/services/conversation_service.py
--   Groups       backend/app/services/conversation_service.py: the members of group chats;
--                Groups/Mentions resolves mentions
--   Routing      backend/app/services/conversation_service.py: from a message to a prompt.
--                Routing/Sending has send_message and its like, Routing/Dispatch who is to answer
--   Runner       backend/agent_runner/runner.py: one prompt of one agent, from the updates of the
--                agent to the row of its answer (Runner/Single); Runner/Clarify is about
--                backend/agent_runner/runner_clarify.py
--   Roundtable   backend/agent_runner/runner_roundtable.py: several agents, and their merge
--   Auth         backend/app/services/auth_service.py: local login, refresh tokens and logout
--   Memory       backend/agent_runner/runner_memory.py and backend/app/services/memory_service.py
--   Teams        backend/app/services/team_service.py and backend/app/api/v1/teams.py: the tables of
--                teams and what they own. Teams/Requests has the requests that change them, without
--                creating a team, uploading knowledge and documents and clearing the channel,
--                and who may make them
--   Conversations  the queries of backend/app/services/conversation_service.py and the handlers of
--                backend/app/api/v1/conversations.py: who sees a conversation, pages of messages,
--                forks, and the list with its cache (Conversations/Cached)
--   Redis        backend/app/core/ratelimit.py (Redis/Limits), the event stream of
--                backend/app/core/redis.py with its clients (Redis/Stream), the answers to a run's
--                questions (Redis/Wakeup), and the lock and heartbeat of
--                backend/agent_runner/runner.py (Redis/Lock)
--   Identity     backend/app/services/identity_service.py: users that come from a directory, and its
--                configuration
--   Profiles     backend/app/api/v1/agents.py: profiles, and the scans for agents
--   Admin        backend/app/api/v1/admin.py: the matrix of permissions, users and MCP servers
-- Http has the replies of handlers, a value or the status of an error.
-- Prelude, Dict, Texts and Json are shared: lists over the native numbers, Python's dicts and
-- strings, and JSON values.
--
-- How the code is written here. A method of a class, or a function that changes rows, takes the
-- state and gives the new one; an exception is `none` or a constructor of a result type. A table
-- is the list of its rows, and a query reads them in their order. Two processes that share Redis
-- are one sequence of commands, each of one side, in any order. A string that the code walks
-- through is a list of code points (Text), another is a String. A UUID is a number, and the ids
-- of new rows are arguments. Where several rows match, `scalar_one_or_none` raises: Groups and
-- the files of Workspace have it so, and Identity and Teams take the first row, which is the same where
-- at most one matches.
--
-- Parameters, with what is assumed of them: the store of objects (a read gives what was last
-- written), os.path.realpath and expanduser, os.path.dirname, which directories there are, the order in which Python lists a
-- set (it has the elements of the set), the outcomes of an agent's calls, the regular expressions
-- that find files in an answer, the check and the hash of passwords, the reading and signing of
-- tokens, the rounding of a floating point product (it does not exceed the exact product), and
-- Redis: its counters, streams, channels, keys that run out, and the cache over it, each with the
-- laws of the commands that are used, and the order of texts and the search of the database.
--
-- Recursion is structural throughout. `digits` has its number as fuel: each step divides it by
-- ten, so that many steps are enough.
--
-- Left out of what is modelled: exceptions of Redis and of the database, but where a step may fail by
-- its definition; in Acp, fields of a message of a type that no agent sends, which end the reader, and
-- that `stop` raises what its reader died of; and the time at which the event stream and the answer to a
-- question run out. Deleting a team or a project takes it from
-- its conversations, which Conversations leaves out.
--
-- Not modelled: the frontend and the migrations; the API's schemas; the calls of LDAP and WeCom;
-- subprocess pipes, disk writes, metrics and logs; the runner's control messages and its reclaiming
-- of pending prompts; the channel of a team and the uploads of documents; the API of users and the
-- file browser; and the extraction of tasks from a conversation.
mod Prelude
mod Dict
mod Texts
mod Json
mod Http
pub mod Governance
pub mod Rbac
pub mod Files
pub mod Acp
pub mod Pool
pub mod Workspace
pub mod Groups
pub mod Routing
pub mod Runner
pub mod Auth
pub mod Memory
pub mod Roundtable
pub mod Teams
pub mod Conversations
pub mod Redis
pub mod Identity
pub mod Profiles
pub mod Admin
