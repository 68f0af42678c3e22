-- ===== src/Lib.antt =====
-- Verification of 9n-mpc: private set intersection between two parties, and the data join service.
--
-- Private set intersection (src/PSI). Two parties agree on parameters, each sends its identifiers
-- encrypted, sends the other's back encrypted twice, and keeps the rows whose double cipher is
-- among the other's.
--   Psi/Session, Psi/Messages: the state of `Context` (src/PSI/psi/interconnection_psi/config.py)
--     and the messages of the handshake.
--   Psi/Base: base.py. Psi/Handshake: the handshake in config.py and `shakehand_flow` of flow.py.
--   Psi/Accepted, Psi/Negotiation: what the handshake answers.
--   Psi/Curve: the operations of the Rust crate src/PSI/crypto, over parameters for SHAKE-256 and
--     the multiplication of points. Psi/Transport: their round trips.
--   Psi/Cipher: cipher_store.py. Psi/Flow: flow.py, its threads as functions from what they receive
--     to what they send and what comes of them (they return, wait for ever, or raise).
--   Psi/Streams, Psi/Received, Psi/Checked, Psi/Exchange: the streams of batches, and one party's flow.
--   Psi/Api, Psi/Joint: psi_sender and psi_receiver of api.py, run against each other.
--
-- The data join service (src/DataJoin/data_join).
--   DataJoin/Records, DataJoin/Files: messages, constants of config.py, and a directory of files.
--   DataJoin/BlockManager: data_block_manager.py; DataJoin/Search, DataJoin/Saved, DataJoin/Update
--     and DataJoin/Restarted are about it.
--   DataJoin/BlockMaker: data_block_maker.py; DataJoin/Made is about it.
--   DataJoin/Finished: what a finished block leaves behind.
--   DataJoin/Joiner: data_joiner_builder/data_joiner.py and memory_data_joiner.py. DataJoin/Blocks
--     specifies the blocks; DataJoin/Opened, DataJoin/Yielded, DataJoin/Joining,
--     DataJoin/Joined and DataJoin/Messages refine it.
--   DataJoin/ExampleIds: example_id_producer.py, example_id_consumer.py, example_id_appender.py;
--     DataJoin/Delivery and DataJoin/Joins follow the ids into the queue and into blocks.
--   DataJoin/RawData: raw_data_loader.py; DataJoin/Loaded says what is in memory then.
--   DataJoin/Saver: data_block_saver.py and data_block_consumer.py, the party that saves the
--     blocks it is sent; DataJoin/SavedBlocks and DataJoin/Buffered are about it.
--   DataJoin/BlockConsumer: the consumer about the saver. DataJoin/Manager: data_join_manager.py,
--     the calls of the service; DataJoin/Closed is about it. DataJoin/BlockProducer:
--     data_block_producer.py; DataJoin/Acquired is about the blocks it looks up, and
--     DataJoin/Produced follows them to the saver, DataJoin/Stored makes them all, with
--     DataJoin/Older about the files that stay, and DataJoin/Pipeline composes the parts, with
--     DataJoin/Indexed about the buffer of the manager and DataJoin/Copies about the blocks of two
--     parties.
--
-- The actors (src/PSI/psi_actors.py). Actors/Dispatch: `BlockDispatchActor`. Actors/Dispatched: the
-- order in which it gives out its blocks. Actors/Schedule: the jobs of `run_app`; Actors/Counting,
-- Actors/Scheduled, Actors/Rounds, Actors/Waited and Actors/Started are about any order of their
-- ends. Actors/Paths, Actors/Inputs: the files of the input. Actors/Output: the output file, with
-- Actors/Written. Actors/Repartition: how a single file is cut into blocks, with Actors/Buckets,
-- Actors/Split, Actors/Tagged and Actors/Repartitioned about the blocks of two parties. Actors/App:
-- `run_app` from the path of the input to the report; Actors/Tracked follows each block through the
-- jobs, Actors/Collected its output and counts, and Actors/Result, Actors/Ran and Actors/Whole put
-- the run together. Actors/Columns, Actors/Reading, Actors/Action: the columns of a block, how it
-- is read, and `PsiPirActor`; Actors/Joined is about one actor, Actors/Parties about one at each
-- party. The library of tables, the readers of files and the hash functions are parameters; types
-- that only widen (large strings) and chunks of columns are left out.
--
-- The training worker (src/Trainer/fl_comm_libs). Trainer/TfConfig, Trainer/Config: the
-- configuration in flenv.py, about which are Trainer/WorkerIds, Trainer/Configured and
-- Trainer/Placed. Trainer/Pairing: fl_rpc_utils.py, with Trainer/Paired. Trainer/Run: `run_cluster`
-- and the start of the main function, with Trainer/Running. Trainer/Connect: the session of
-- fl_estimator.py, with Trainer/Connected. Trainer/CheckIds: `verify_example_ids`. The answers of
-- the coordinator are lists, one entry for each call, and those of the peer functions of the number
-- of the call.
--
-- State is passed on explicitly; an exception is an `err` of Prelude/Result, in a method together
-- with the state it leaves. Python's integers are the natural numbers where they cannot be
-- negative, else Prelude/Int. Loops without a structural bound run on fuel: `send_from` has one
-- round for each identifier and one more, the search for the last saved block 64 rounds for a range
-- of 2 ^ 53, and the removal from the buffer a round for each entry. `save_data_blocks` is given
-- the number of its rounds.
--
-- Not modelled: link_py, Redis, HTTP and gRPC transport, pyarrow and TensorFlow beyond the lists
-- and files they hold, generated messages, the C++ services, the Lua proxy, examples and
-- deployment; of the PSI service its command line and licence check, jobs that end with an
-- exception, as those of PIR always do, and the sort it copies from Ray, whose result on a column
-- of numbers below the number of blocks is a hypothesis of the theorem about repartitioning.
pub mod Prelude
pub mod Psi
pub mod DataJoin
pub mod Actors
pub mod Trainer
