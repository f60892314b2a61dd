-- ===== src/Lib.antt =====
-- A model of the storage, locking and query core of MudopDB, a relational database engine in the
-- manner of SimpleDB, with theorems about it.
--
-- The program's parts, from the disk up. The file manager reads and writes the blocks of files; a page
-- is a block in memory. The log manager fills pages from their end with records and writes them to the
-- log file. A buffer holds one block's page, with a count of its pins and the transaction that changed
-- it; the buffer manager keeps a pool of them, and every buffer shares its file manager and its log
-- manager. The lock table is shared by all transactions, each of which has a concurrency manager with
-- the locks it took. Log records describe changes and are read back for undo. A transaction holds a
-- list of the blocks that it has pinned; it locks a block before it reads or writes it, logs the old
-- value before a write, and commits, rolls back or recovers. A record page divides a pinned block into
-- slots, and a table scan walks over the slots of the blocks of a file. A schema names the fields of a
-- table, and a layout places them in a slot. Scans run through records; selection, projection and
-- product are scans over scans, and predicates are what selections test and planners analyse. The
-- parser turns the text of a statement into its data, and a query has a text again, which is what the
-- catalogue keeps of a view. A plan estimates what its scan will cost, and the heuristic planner joins
-- the plans of the tables by those estimates. The metadata manager keeps the catalogue of tables and
-- views in tables of its own, and statistics of all tables, which the plans ask for. The update planner
-- runs the statements that change records. Sort scans, group-by scans and merge-join scans work on
-- sorted runs of records.
--
-- Files and the code that they model:
--   Page.antt        include/file/page.hpp, src/file/page.cpp (Page)
--   BlockId.antt     include/file/blockid.hpp, src/file/blockid.cpp (BlockId)
--   File.antt        include/file/filemgr.hpp, src/file/filemgr.cpp (FileMgr): read, write, append,
--                    and file_length for length
--   Log.antt         include/log/logmgr.hpp, src/log/logmgr.cpp (LogMgr): append, flush, open_log for
--                    the constructor; Log/Iterator.antt has logiterator.cpp and LogMgr::iterator
--   Buffer.antt      include/buffer/buffer.hpp, src/buffer/buffer.cpp (Buffer): a method acts on a
--                    State, the buffer beside the managers that it shares
--   Pool.antt        include/buffer/buffermgr.hpp, src/buffer/buffermgr.cpp (BufferMgr)
--   Lock.antt        include/tx/concurrency/*.hpp, src/tx/concurrency/*.cpp: table_s_lock and
--                    table_unlock are LockTable::s_lock and unlock; s_lock, x_lock and release are
--                    those of ConcurrencyMgr
--   Recovery.antt    include/tx/recovery/*.hpp, src/tx/recovery/*record.cpp: encode_… for
--                    write_to_log, read_… for the constructors from a page, create_log_record.
--                    Recovery/Collect.antt has the loops over the log of Transaction::do_rollback and
--                    do_recover
--   BufferList.antt  include/tx/bufferlist.hpp, src/tx/bufferlist.cpp (BufferList)
--   Transaction.antt include/tx/transaction.hpp, src/tx/transaction.cpp (Transaction),
--                    src/tx/recovery/recoverymgr.cpp: log_int, log_string and commit_log for set_int,
--                    set_string and commit of RecoveryMgr; undo and write_to_log of the log records
--   Schema.antt      include/record/schema.hpp, src/record/schema.cpp (Schema): add_from for add
--   Layout.antt      include/record/layout.hpp, src/record/layout.cpp (Layout)
--   RecordPage.antt  include/record/recordpage.hpp, src/record/recordpage.cpp (RecordPage)
--   Rid.antt         include/record/rid.hpp, src/record/rid.cpp (RID)
--   TableScan.antt   include/record/tablescan.hpp, src/record/tablescan.cpp (TableScan)
--   Constant.antt    include/query/constant.hpp, src/query/constant.cpp (Constant)
--   Query/Scan.antt  include/query/scan.hpp: the virtual methods as a record over a state, and what a
--                    scan of a list of rows promises, which the three scans take and rely on
--   Query/Predicate.antt  include/query/{expression,term,predicate}.hpp and their .cpp files
--   Query/Select.antt, Query/Project.antt, Query/Product.antt
--                    src/query/selectscan.cpp, projectscan.cpp and productscan.cpp; Query/Update.antt
--                    has include/query/updatescan.hpp and the updates of a selection
--   Query/Text.antt  to_string of constants, expressions, terms and predicates
--   Parse/Words.antt, Parse/Lexer.antt
--                    include/parse/lexer.hpp, src/parse/lexer.cpp (Lexer): the lexer is its token and
--                    the bytes that are left
--   Parse/Data.antt  include/parse/*data.hpp, src/parse/parsedata.cpp
--   Parse/Parser.antt  include/parse/parser.hpp, src/parse/parser.cpp (Parser): a method is a function
--                    of the lexer; list_loop is the recursion of the four lists
--   Plan.antt        include/plan/*plan.hpp, src/plan/*plan.cpp (the subclasses of Plan as constructors),
--                    src/metadata/statinfo.cpp, src/plan/basicqueryplanner.cpp (create_basic_plan)
--   Optimiser.antt   include/opt/*.hpp, src/opt/*.cpp (TablePlanner, HeuristicQueryPlanner): get_lowest
--                    is the loop of the three get_lowest_…_plan
--   Materialize/Compare.antt  src/materialize/recordcomparator.cpp (RecordComparator)
--   Materialize/SortScan.antt  include/materialize/sortscan.hpp, src/materialize/sortscan.cpp (SortScan)
--   Materialize/Aggregate.antt  src/materialize/aggregates.cpp (CountFn, MaxFn, GroupValue): the two
--                    subclasses of AggregationFn as constructors
--   Materialize/GroupBy.antt, Materialize/MergeJoin.antt
--                    src/materialize/groupbyscan.cpp and mergejoinscan.cpp
--   Materialize/Cost.antt  the estimates of src/materialize/{materialize,sort,groupby,mergejoin}plan.cpp
--   Metadata/Tables.antt, Metadata/Views.antt, Metadata/Stats.antt, Metadata/Manager.antt
--                    src/metadata/tablemgr.cpp, viewmgr.cpp, statmgr.cpp and metadatamgr.cpp over the
--                    transaction of the call; Metadata/Scanning.antt has the local table scans
--   Update.antt      src/plan/basicupdateplanner.cpp over any scan with updates; Update/Dispatch.antt has
--                    its statements for the metadata manager and src/plan/planner.cpp (Planner)
--   Exec.antt, Prelude.antt  state with exceptions, and what the parts share: numbers, byte lists,
--                    results. Examples.antt has concrete inputs for the theorems.
--
-- Conventions. A byte is a number below 256, and a string or a page is the list of its bytes. An
-- int32_t is its bit pattern, a number below 2 ^ 32, and int32_lt compares patterns as signed numbers.
-- A size_t is a number below 2 ^ 64, and sums and products wrap where the code can reach that. An
-- exception is an error value, undefined behaviour is the error `undefined`, and a state is kept as it
-- was when the exception was thrown. A directory is a function from file names to contents.
--
-- Bounds and fuel. The loop of SelectScan::next takes fuel, and so does a client's loop over a scan;
-- the theorems give both more fuel than there are rows, which is enough. BufferMgr::pin takes the list
-- of its sleeps, each with what other threads do meanwhile, in place of the clock. Pin counts and lock
-- values are assumed to stay below 2 ^ 31, where int32_t would overflow. Every wait for a buffer below
-- a transaction is given the same list. The parser's recursions take as fuel one more than the bytes
-- that are left, which is proved enough. The search for a slot takes fuel, and one more than the bytes
-- of the block is enough; the loops of a table scan over blocks, of `format` and of rollback and
-- recovery over the log take fuel as an argument, and so does the expansion of views, which may refer
-- to each other. The loops of a group-by scan, a merge join and an update statement take fuel; for the
-- first more fuel than there are records is proved enough. The loops of the
-- metadata managers over their tables take fuel as an argument. The loop of the heuristic planner takes
-- as fuel the number of its tables, which is proved enough.
--
-- Not modelled: the constructor of the file manager (directory handling), the opening of plans,
-- temporary tables and the runs that a sort plan fills, the API, the server and the application, and the text
-- output of the other parts. What the metadata manager answers to the planners of queries is an
-- argument of theirs, and the update planner takes the opening of a table as an argument.
pub mod Prelude
pub mod Page
pub mod BlockId
pub mod Exec
pub mod File
pub mod Log
pub mod Buffer
pub mod Pool
pub mod Lock
pub mod Schema
pub mod Layout
pub mod Constant
pub mod Query
pub mod BufferList
pub mod Transaction
pub mod RecordPage
pub mod Rid
pub mod TableScan
pub mod Recovery
pub mod Parse
pub mod Plan
pub mod Materialize
pub mod Metadata
pub mod Update
pub mod Optimiser
pub mod Examples
