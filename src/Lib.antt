-- ===== src/Lib.antt =====
-- A model of the core of the V2V blockchain node: its Merkle trees, its blocks and transactions, the
-- chain that stores them, its transaction pool, its PBFT consensus engine, and the services for messages
-- between vehicles and for platoons.
--
-- The parts, and how they interact:
--
-- - Merkle (internal/core/blockchain/merkle.go, CalculateMerkleRoot of types.go): trees over data or
--   hashes, proofs and their verification. `get_proof`, `verify_proof`, `get_root` are GetProof,
--   Verify and GetRoot. A block's header takes its root from here.
-- - Block (internal/core/blockchain/types.go): headers and transactions as records with the source's
--   fields, their byte encodings, hashes and signatures. A byte is a number, an array or slice of bytes
--   is a list; that arrays have their size and integers their range is a hypothesis where it matters
--   (IsHeader, IsTransaction, IsHash). A panic is an outcome of its own (Prelude.Calls). Deserialize is
--   given what the array holds behind its data as well, since slicing is bounded by the capacity.
-- - Chain.Storage and Chain (internal/core/blockchain/storage.go and chain.go): the keys and
--   entries that blocks are stored under, and AddBlock with its validation and its lock.
-- - Chain.Forks (internal/core/blockchain/fork.go): the forks that a node has seen, and which blocks
--   count as confirmed. It reads the chain through its getters.
-- - Consensus.ValidatorSet (internal/core/consensus/types.go): the members, the quorum and the primary.
-- - Consensus.Message, Consensus.State (the same file): messages with their signatures and payloads,
--   and the record of votes for one sequence number.
-- - Consensus.Checkpoints (internal/core/consensus/checkpoint.go): the checkpoint manager.
-- - Consensus.Engine, Consensus.Handlers, Consensus.ViewChange (internal/core/consensus/pbft.go): the
--   engine as one record. Every handler is a function from an engine to an outcome and an engine, split
--   at its early returns; handle_pre_prepare is handlePrePrepare, and so on. An error, a panic and a
--   call that waits for ever for a lock are outcomes, with the state that they leave. The states' mutex
--   and the view change mutex are fields, since handlers call each other while they hold them.
-- - Consensus.Run: the sequences of calls that the node makes of one engine, in any order. The local
--   message handler is HandleMessage itself (cmd/v2v-node/start.go); node_handler bounds how deep its
--   calls nest, and two is deep enough for every message (Consensus.Run.Depth).
-- - Messages (internal/service/message/types.go and service.go): messages, their signatures and age.
--   Messages.Trackers has the sequence numbers and the cache of ids, Messages.Service CreateMessage and
--   VerifyMessage (`create_message`, `verify_received`) with the audit log, Messages.GroupKeys the
--   encryption. The identity service's answers at a call are a parameter (Identities).
-- - Platoons (internal/service/platoon/types.go): a platoon as a record, with its methods (add_member is
--   AddMember, and so on). Platoons.Service and its children (service.go): the service as a record with
--   its map of platoons, join requests, history, emitted events and store. Each operation is a function
--   from a service to an outcome and a service; the platoon that GetPlatoon finds is a shared pointer in
--   the source, so its changes are saved back to the map before anything else can fail. Runs has the
--   sequences of calls.
-- - TxPool (internal/core/txpool/pool.go): the pool of pending transactions. `add_tx`, `get_pending`,
--   `remove_tx`, `cleanup_expired` are AddTx, GetPending, RemoveTx and cleanupExpired. The loop that
--   empties a queue has the queue's length as fuel (TxPool.Draining).
--
-- What the program takes from elsewhere is a parameter: Keccak-256, signing and recovery of go-ethereum
-- (Crypto), SHA-256 (sum256), encoding/json (Consensus.Message.Codec, Chain.Storage.BlockCodec,
-- Messages.Formats, Platoons.Service.PlatoonCodec), LevelDB (Chain.Storage.Database), container/heap
-- (TxPool.Heaps), key pairs and their encoding (Messages.GroupKeys.KeyPairs), the time (now), and what the engine calls of the blockchain
-- (Consensus.Handlers.ChainCalls). Instances to compute with are in Tests.Samples. A map is a list of its
-- keys and values without a key twice; where Go iterates over a map, the order is that of the list.
-- The calls of a service or a pool come one after another; races between them are not modelled.
--
-- Fuel: building a tree, making a proof and computing a root recurse on the length of the list, which
-- each level halves; the theorems about them show that a result comes out.
--
-- Not modelled: the chain's constructor and ranges of blocks, the search for the common ancestor of two
-- forks, the world state, the services for identity and state, and the network. Timers, logs and
-- metrics, the HTTP server and the command line are input and output around the modelled parts.
pub mod Prelude
pub mod Bytes
pub mod Crypto
pub mod Merkle
pub mod Block
pub mod Chain
pub mod Consensus
pub mod Messages
pub mod Platoons
pub mod TxPool
pub mod Tests
