-- ===== src/Lib.antt =====
-- The server of the organisation directory plugin for Mattermost: a tree of departments with their
-- members, kept in the server's database and synchronised with external sources.
--
-- The parts and how they interact. server/model has the records; server/store writes and reads them
-- by SQL; server/permissions.go and server/configuration.go decide who may do what;
-- server/api_node.go, api_member.go, api_tree.go and api_search.go are the handlers behind the router
-- of server/api.go: each tests permissions, calls the stores, publishes an event and writes an audit
-- log; server/api_sync.go takes a request of an external source, sorts its nodes, and calls the
-- stores, and answers queries of the source; server/command.go shows the tree in the chat.
--
-- The files.
-- Model: the records of server/model, with PreSave and IsValid; Model/Sync those of sync.go.
--
-- Store/Db: the tables, and what the store takes from the server. A method of SQLStore is a
-- function from the tables to its answer or error and the tables that it leaves; the methods keep
-- their names (CreateNode is create_node). Common/Sql has the SELECT, UPDATE and ORDER BY of the
-- queries, Common/Outcome the errors and transactions, Common/Text the text functions of Go and
-- LIKE.
--
-- Store/Nodes: server/store/node_store.go (Save, Move, Delete, Queries). Store/Tree: the invariant
-- of the tree (Invariant), what each method does to it, and depths (Below). Store/Frame: what the
-- methods of one table leave of the other. Store/Failed and Store/Stopped: what a failed method
-- leaves. Store/Schema: the migrations of server/store/sql_store.go, where KVGet, KVSet and the
-- statements may fail; History and Resume have the laws.
--
-- Store/Members: server/store/member_store.go (Rows, Save, Queries), with the laws in Keys, Add,
-- Remove, Upsert, Relate, Table and Unique (the constraints of the table) and Queries/Single; Roles
-- is the directory of roles that the methods implement. Store/Mappings:
-- server/store/user_mapping_store.go. Store/Logs: server/store/sync_store.go.
--
-- Plugin/Config: server/configuration.go. Plugin/Permissions: server/permissions.go.
--
-- Plugin/Sync: executeSyncRequest of server/api_sync.go. State has its variables, Order the sort,
-- Nodes and Members the loops, Users resolveMMUser, Execute the whole, Dto the nodes that queries
-- answer; Order/Ids, Drain, Counted, Sorted and Cycle, Tree, Stale, Counts, Dto/Known and
-- Dto/Pool the laws.
--
-- Plugin/Api: the handlers. Http has the world of a handler (the store and the published events)
-- and its answer; Nodes, Members, Trees and Search follow server/api_node.go, api_member.go,
-- api_tree.go and api_search.go (handleGetMembers is in Search); Sync, with Reads and Users, has
-- the handlers of server/api_sync.go, Wanted and Listing its laws. A handler keeps its name
-- (handleMoveNode is handle_move_node), and takes the user, the path variables and query
-- parameters, and the decoded body. Serve is the writing routes behind checkAuth; Refused,
-- Answers, Partial, Atomic, Consistent, Kept and Reach are its laws. Plugin/Command:
-- server/command.go.
--
-- Tests: runs of the model, and each result at concrete data.
--
-- Bounds and fuel. Loops are recursion on lists, but for three. The loop over the queue of
-- topologicalSortNodes need not end; where external ids are distinct, fuel for as many rounds as
-- there are payloads is enough. buildTreeNode and renderTreeText call themselves on the children
-- that the store finds; on a well-formed tree, fuel that exceeds the length of the longest path is
-- enough. Counters are natural numbers and depths are integers, without the bounds of the
-- database's types. A time of 0 means "not deleted".
--
-- Errors of the database. The errors of the constraints and of rows that are missing are modelled at
-- every statement. An UPDATE that fails for another reason is modelled where the code makes several
-- without a transaction and returns at the first error, in ReorderNodes and ReorderMembers: whether
-- and how each of them fails is a parameter (update_error of Store/Db). A single UPDATE that fails,
-- or one inside a transaction, leaves the rows as they were; these failures, those of the connection
-- and those that a loop of the synchronisation only counts are not modelled.
--
-- Not modelled: replicas that lag behind, the lengths of columns, JSON, the matching of paths by the
-- router, the timing log, the locks of the configuration, the tools of the build, the web application.
-- The clock, new ids, the collation of ORDER BY and LOWER(), the users of the server and the text of a
-- database error are parameters, with the hypothesis that the host is sane (IsSane of Store/Db): the
-- clock is after 1970, and an id is a non-empty text of ASCII without slashes and without what LIKE
-- treats specially, as model.NewId makes them. Some results suppose that a new id is not in the table
-- yet (IsFresh).
pub mod Common
pub mod Model
pub mod Store
pub mod Plugin
pub mod Tests
