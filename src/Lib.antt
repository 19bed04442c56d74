-- ===== src/Lib.antt =====
-- The omniflow-go backend: a library of files as a tree of nodes in PostgreSQL, with its use cases.
--
-- Parts and files. The repository of nodes (internal/repository/postgres/impl/node) reads and writes
-- the table `nodes`; the use cases (internal/usecase) call it inside transactions and map its errors.
--
-- - Prelude, Result, Text: lists, orders and tests; the sentinel errors of internal/usecase and
--   internal/repository/repoerr as values, and `Result` for Go's pair of a value and an error;
--   strings as lists of code points, with the functions of `strings` and `strconv` that are used.
-- - Natural: naturalCompare of node_sort.go. A round of its loop is a round of `natural_loop` on
--   what stands at the two indices; unicode.IsDigit and unicode.ToLower are the record `Tables`.
--   The fuel is one more than the runes of both names, of which each round takes at least one.
--   Sort is SortDirectChildrenByName, with sort.SliceStable as a parameter that sorts by what is an
--   order; Sort/Order says when the comparison is one, Assigned what the loop writes.
-- - Names: visible names and automatic renaming, internal/usecase/node_name_conflict.go, and the
--   repository's own visible name. The fuel of `rename_loop` is the source's bound of attempts.
-- - Create: createInExistingTransaction and resolveCreateParentID of internal/usecase/node.go, and
--   CreateNode of node_write.go with the reads behind it; the other tables, the authorisation and the
--   conversion to int32, of which only the range that fits is known, are the parameter `Outside`.
--   Reads says what the queries tell, Node what CreateNode does, Whole the creation.
-- - Rename: Rename of internal/usecase/node.go behind its lookup, and RenameNode; Renamed says what it
--   does to the table.
-- - MoveBatch: MoveBatch of internal/usecase/node.go, over MoveNode and the ancestors' query, which is
--   the parameter `Ancestors`; Memory is an instance of it, Selected and Moved say what is moved.
-- - Store: the rows of `nodes`, and a transaction of PostgreSQL as the parameter `Database`: queries
--   that may fail, with the documented meaning of WHERE, ORDER BY, INSERT, UPDATE, DELETE, COUNT and
--   WITH RECURSIVE as laws. Store/Memory is an instance with rows in a list. Keys are positive,
--   times are numbers.
-- - Move: MoveNode of node_write.go with all that it calls, over any `Database`. `move_node` takes
--   the locks, `move_locked` is what stands behind them. Reindex, Keeps, Before and Placed say
--   what the writes do to the rows, Forest and Acyclic that the rows stay a tree, Concurrent what two
--   moves do together, Node is the whole, Under what it has written.
-- - Delete: DeleteTree of node_delete.go, over any `Database`; the queries of the tables `node_files`
--   and `storage_objects`, which it only counts, are parameters. Subtree says what is deleted.
-- - Recycle: RestoreTree and HardDeleteTree of node_recycle.go, over any `Database`. Restore says
--   what
--   a restoring writes, RoundTrip what it does behind a deletion, Erase what is taken out of the
--   table.
-- - Root: EnsureLibraryRootNodeID and repairParentReferences of node_root.go, over any `Database`.
--   Repaired is the repair of one row, Sound the whole.
-- - Authz: Authorize of internal/authz/library_authorizer.go; the owner of a library is looked up
--   by a
--   parameter. A key is parsed as strconv.ParseUint does it with 10 and 64.
-- - Storage: the configuration of the object stores (internal/config/storage_config.go), the routing
--   rules (internal/storage/routing.go) and the registry (internal/storage/registry.go). A Go map is
--   a
--   list of entries in the order of its iteration, which Go leaves open; the factory of the clients
--   is a parameter, and the runes' cases are the record `Letters`. Reload is the swap of the
--   registry, Kept what it keeps entry by entry, Promises the whole.
-- - Bookmarks: browser bookmarks, internal/usecase/browser_bookmark.go and the queries of
--   internal/repository/postgres/impl/browserbookmark/repository.go, over a table that is the
--   parameter
--   `Table`, with the laws of its queries; Memory is an instance. An int32 is shifted up by 2 ^ 31.
--   Order is the order of the siblings, Cycle the check of a target, whose loop runs on fuel and says
--   `none` while it is still running, Move is Move and Create; their children say what is written.
--   Normal is
--   the normalisation of what a client sends, with net/url as the parameter `Urls`, and Import the
--   import.
-- - Migration: the migration of objects to another store, internal/usecase/migration.go and
--   migration_worker.go with internal/repository/postgres/impl/migration. Actions is a world of the
--   tables and of what is outside, where every statement, BEGIN, COMMIT and call of a store may fail,
--   and Holds says what holds before and after. Process is processItem, Stages follows it and
--   Swapped its transaction; Contents, Found, Readings and Invisible say what the files read; a
--   COMMIT is applied, or refused, or applied while its answer is lost.
--   Requests is Enqueue, Cancel and tickOnce, Good and Enqueued what Enqueue writes. Steps is the relation of
--   the statements on one task, Counts and Bounded are its counts.
-- - Copy: node_copy.go. The plan's fuel is one more than the 1000 nodes that it allows, of which each
--   round takes one; Queue and Plan follow its loop, Whole is the plan, Name the name of the copy.
--   Objects is Copy behind the plan, over calls that are parameters, Created the rows that it has created, and
--   Single and Bytes what the stores hold.
-- - Uploads: upload sessions of internal/usecase/upload_session.go and upload_session_completion.go.
--   A statement of the repository works on the row with the session's key; the transactions of
--   claimCompletion, claimAbort and Complete are functions on it. Steps is the relation of what
--   requests and the janitor commit in turn, with the storage calls that remove the object counted;
--   Views and Claims say who holds a session, Safety what the relation excludes,
--   Parts the sizes and lists of parts. What createInExistingTransaction returns is a parameter there and in Copy.
--
-- Sort orders are natural numbers, since every one that the program writes is positive; differences
-- are only taken of an order and one that is not smaller. An advisory lock is an operation of the
-- database after which other transactions may have committed; only the primary key is known to stay.
--
-- Not modelled: the transport (HTTP, CLI, MCP), wiring, other configuration, generated code, and the parts
-- of the program that no file above names.
pub mod Prelude
pub mod Result
pub mod Text
pub mod Natural
pub mod Names
pub mod Create
pub mod Rename
pub mod MoveBatch
pub mod Store
pub mod Move
pub mod Uploads
pub mod Delete
pub mod Storage
pub mod Recycle
pub mod Root
pub mod Authz
pub mod Bookmarks
mod Tests
pub mod Migration
pub mod Copy
