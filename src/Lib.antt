-- ===== src/Lib.antt =====
-- A model of the services of Pulsyr, a backlog and delivery tool: an item has a status and arcs to
-- other items, an account has a plan with limits, and slow work goes through a job queue in the
-- database. Each function of a service is one function here, with the tables that it reads and
-- writes as an argument and a result, and a raised exception as the `err` of Common/Raising.antt.
--
-- The parts, and where they are:
-- - Common: lists, texts (a str is the list of its code points), outcomes, integers and counting.
-- - Items/Status and Items/Relation: the constants of app/enums.py. A text that is none of the
--   constants is `other`, since the services take any str.
-- - Items/Lifecycle: app/items/lifecycle.py. A history is the relation `Reach`.
-- - Items/Topology: `topological_order` of app/items/graph.py. Its children prove, in this order,
--   what the building of the arcs, the loop and its end do.
-- - Items/Graph: the queries of app/items/graph.py on blockers.
-- - Items/Model: the rows of app/items/models.py, with the fields that these services use, and the
--   session `Db` of items, arcs, comments and events.
-- - Items/Service: the mutations of app/items/service.py, which ask Lifecycle whether a change is
--   allowed and Graph what a closure unblocks. Editing has `update_item` and `add_comment`.
-- - Items/Relationships: app/items/relationships.py.
-- - Accounts/Plans and Accounts/Capacity: app/accounts/plans.py. Plans has the limits and the row
--   that the events of Paddle write, Capacity the counts and the guards before a write.
-- - Jobs/Run and Jobs/Worker: app/jobs/models.py and app/jobs/worker.py. A transaction is one
--   Operation on the table, and a list of them is an interleaving of the workers and the callers.
-- - Projects/Access: app/projects/access.py, and `set_grant` of app/accounts/members.py. It takes the
--   rows of projects and users from Accounts/Capacity.
-- - Projects/Modules: app/projects/modules.py.
-- - Projects/Service: app/projects/service.py, which calls the guard of Accounts/Capacity and the start
--   of Projects/Modules.
-- - Threads: app/threads/models.py and the changes of the stage in app/threads/service.py, which ask
--   Items/Status whether a linked item is closed.
-- - Scopes: `resolve_scope` of app/scopes/service.py, which finds the area of a name or creates it.
-- - Incidents: app/webhooks/service.py on the issues that Sentry reports. It creates and closes items
--   through Items/Service.
-- - Github: `process_github_push` of app/webhooks/service.py, which closes items through Items/Service.
-- - Auth/RateLimit: app/auth/rate_limit.py.
-- - Auth/Tokens: the API tokens of app/auth/service.py, behind the token guard of Accounts/Capacity.
-- - Billing: `is_downgrade` of app/billing/service.py, on the plans of Accounts/Plans.
-- - Management/Gantt: bars and milestones of app/management/gantt.py, on given columns.
-- - Management: app/management/service.py. Model has the rows, Plan the tree of plan tasks, Pendings
--   the open questions, Compartments the folders by name, Versions and Deliverables the documents
--   with their numbered versions, Edits the changes of single fields.
--
-- An id is a number in place of a UUID, and a time is a number. What the code takes from the clock
-- or draws at random, and how a job's handler ends, is an argument. A table is a list of rows; a
-- query that stops or orders does so here, and a primary key is kept where rows are inserted.
--
-- The loop of `topological_order` runs on fuel, one more than the number of distinct nodes: each
-- round takes a node that never comes back. The walk from a plan task up its parents runs on one more
-- than the number of tasks, which is enough where the plan has no cycle, since no task comes twice.
-- All other recursion is on the data.
--
-- Parameters stand for what is not in this repository: `lower` for the case mapping of Python,
-- `is_word` for its class of word characters and `sha256` for the digest.
--
-- Not modelled: the routers and pages under app/*/router.py and app/ui, the tools of app/mcp and the
-- middleware, which call the services; the clients of third-party services in app/ai and
-- app/billing; the queries that only read for a view; the parsing and the signatures of payloads and
-- commit messages, and the calls to the service of Sentry; the registration of users and the login
-- by another service; the creation and the editing of scopes; and the limits that the columns of the
-- database put on lengths and small integers, other than the names that the code cuts itself.
pub mod Common
pub mod Items
pub mod Accounts
pub mod Jobs
pub mod Projects
pub mod Auth
pub mod Management
pub mod Threads
pub mod Billing
pub mod Scopes
pub mod Incidents
pub mod Github
