-- ===== src/Lib.antt =====
-- simple_db: a model of the transactions, the buffer pool and the tables of this database.
--
-- The program has two halves that do not meet. The first simulates a distributed transaction
-- protocol. A runtime keeps a queue of timed messages and a list of actors. In each round it moves
-- the messages that are due into the inbox of their actor, and then lets every actor handle its
-- inbox and send. The actors are servers, which hold a versioned key-value store and one state
-- machine for each transaction, and clients, which follow a specification of puts and a commit. The
-- second half stores rows on pages: a table page is a row of slots, a row is written as bytes, and
-- the pages of files are cached in frames that a clock sweep reuses. A store
-- opens tables by name, which share one pool of frames.
--
-- The files and the code:
--   Base            lists, signed integers, maps and results that all parts share.
--   Tx.Types        src/tx/types.h.
--   Tx.Clock, Tx.Generator, Tx.Discovery, Tx.Retrier, Tx.Proxy
--                   src/tx/clock, generator, discovery, retrier, runtime/proxy_runtime.
--   Tx.Msg          src/tx/msg: payloads, messages and the CreateMsg functions. Equal is about their
--                   operator ==, Order about operator <, Print is their text.
--   Tx.Storage      src/tx/storage. Last is about get_last.
--   Tx.ServerTx     src/tx/server/server_tx.cpp. Commit is about the conflict test and the writes of a
--                   commit, Effect and Faults about one message.
--   Tx.Server       src/tx/server/server.cpp. Isolation and Snapshot are about all transactions of a
--                   server, over the states that its ticks reach.
--   Tx.Print        the text of a storage's entry and of a server's transaction.
--   Tx.Client       src/tx/client: Spec is tx_spec.h, Requests is requests_manager.cpp, Participant is
--                   tx_participant.cpp, Transaction is client_tx.cpp, and the module itself client.cpp. Print is their text.
--   Tx.Runtime      src/tx/runtime/runtime.cpp and src/tx/actor.h. Delivery is about
--                   fill_destination_actor_messages, Ticks and Timely about a round of run. Queue is
--                   the interface of std::priority_queue.
--   BufferPool      src/buffer_pool: Page is fwd.h, File is file.cpp, ClockCache is clock_cache.h, and
--                   FramePool is frame_pool.cpp with frame.h, pool_page.cpp and buffer_pool.cpp.
--                   FramePool.Coherent states the invariant of a pool and what a page holds. Acquire, Place,
--                   Count and Write are about one page in use, Flush about the destructor.
--   Table           src/table: Schema is schema.h, Row is row.h, FixedTablePage is
--                   fixed_table_page.cpp, Table is table.cpp. Pages is the interface of the file and
--                   the buffer pool to a table, and Pooled fills it with the file and the frame pool.
--   Store           src/store/store.cpp. Served is about a table among others that share its pool,
--                   Connect about a new table, Rows about inserts and reads, Reopen and Durable about a new
--                   store on the files of an old one, Typed about the types of rows.
--   Transform.Marshal
--                   src/transform/marshal.cpp. Transform.PageProvider is fixed_page_provider.cpp.
--                   Typed is about the types of what marshal.cpp reads.
--   Database        src/db/database.cpp, a store behind operations that are still empty.
--   Log             src/common/log.
--   Example         example/main.cpp. Fails is about its end.
--   Tests           runs of the models, and the theorems at inputs that meet their hypotheses. Two of
--                   the runs are those of tests/test_full_tx.cpp, from the registration of the actors
--                   to the state of the clients' transactions.
--
-- State is passed explicitly. An object is a record with the fields of its class. A method is a
-- function of the same name that takes the object and gives it back changed. An object that several
-- others point to, such as a retrier, the storage or the clock, is passed along by the function that
-- owns it. The counters of src/tx/generator belong to the process and are passed along as well. A
-- thrown exception, a failed assert, and an access that C++ leaves undefined are values of Fault, and
-- a call that ends in one has no other result.
--
-- An int64_t is an integer without bounds, since only a clock that ticks past 2^63 would tell. MsgID
-- wraps around at 2^32. A std::unordered_map is an association list, and where the order of a loop
-- over one matters (Server::on_tick) the order is an argument. A pointer into a page is an offset. A
-- number is stored with its low byte first, and the byte of a null attribute is an argument.
--
-- Three loops have fuel. ClockCache::put sweeps at most as long as its fuel lasts, and out_of_fuel says
-- that it did not. Runtime::fill_destination_actor_messages has one round more than there are
-- messages, since each round takes one off. Table::insert_row needs a round for each page from the
-- current one on, and one for a new page.
--
-- The system calls of file.cpp are a parameter, Os. What the theorems on the pool rely on of them is
-- LawfulOs: a pwrite over bytes that a file has writes them all, there and nowhere else, and a
-- fallocate behind the end of a file adds zeros there, on a file system that has room. The calls of
-- std::filesystem are the parameter FileSystem. LawfulFileSystem is about open(2) where it creates a
-- file: the descriptor was not open before, the file is empty, and no other file changes. It does not
-- say that the call succeeds. Tests.Memory has files for which both hold.
--
-- The tables of a store have a pointer to one pool. The state of the store has the pool, and a call
-- of a table is lent it. A page is in use for one call of a table alone, as in table.cpp, so between
-- calls no frame is referenced, and the sweep for a frame always ends: sweep_rounds bounds it.
--
-- The operators << are functions to the text that they write, with the text of a number as a
-- parameter. Which calls log, and what, is left out of their models.
--
-- Not modelled: src/common/random, which nothing uses; src/utils, which makes a protected constructor
-- public; the hash of a RowID; closing a descriptor.
pub mod Base
pub mod Log
pub mod Tx
pub mod BufferPool
pub mod Table
pub mod Transform
pub mod Store
pub mod Database
pub mod Example
pub mod Tests
