-- ===== src/Lib.antt =====
-- A model of scrig, a miner for the Snap Coin chain, and what is proved of it.
--
-- The program. A miner fetches a block candidate (from a node or a Stratum pool), builds the
-- byte string that the proof of work hashes, writes one nonce after the other into that string
-- in place, hashes it with RandomX and compares the hash with a target that depends on the
-- number of transactions. Around this stand the codecs of the chain's data: base 36, bincode and
-- JSON. With a pool it speaks the Stratum protocol: lines of JSON over a socket, in which
-- replies to requests and notifications of new jobs are mixed.
--
-- The files. `Types` has the structs of include/scrig/types.hpp, `Types.Equality` their
-- operators (src/types.cpp), `Types.Wellformed` the statement that fields fit their C++ types.
-- `Base36` has encode_base36 and decode_base36 of src/types.cpp. `Json` is src/json.cpp: the
-- value and its accessors, the lexical level (`Json.Text`), the class Parser (`Json.Parser`) and
-- to_json (`Json.Printer`); `Codec` has the JSON forms of src/types.cpp. The rest is
-- src/crypto.cpp: `Bincode` the class BincodeWriter and the encode_ functions, `Sha256` the
-- function sha256, `Pow` the buffers of the proof of work and the patching of their nonce,
-- `Difficulty` the scaling of a target and the test of a hash against it, `Consensus.Merkle`,
-- `Consensus.Filter`, `Consensus.Trim` and `Consensus.Reward` the functions build_merkle_root,
-- build_address_filter, trim_expired_transactions and build_reward_transaction (with
-- get_block_reward of src/types.cpp). `Miner` is src/miner.cpp: `Miner.Mempool` filter_mempool,
-- `Miner.Nonce` where a search starts and the bytes of a nonce, `Miner.Worker` the rounds of
-- mining_worker_loop with the pipeline of src/crypto.cpp as it is without RandomX, and
-- `Miner.Share` the rounds of run_pool_stratum's workers that make shares, and `Miner.Pool` its
-- loop that submits them. `Node` is the class NodeClient
-- of src/node_client.cpp: its connection and frames, and in `Node.Requests` its requests.
-- `Config` is src/config.cpp. `Stratum` is src/stratum_client.cpp: `Stratum` itself the
-- hexadecimal text (with bytes_to_hex of src/miner.cpp), `Stratum.Text` what is read from single
-- JSON values, `Stratum.Job` the jobs in messages, `Stratum.Network` the loops over the socket,
-- `Stratum.Client` the class StratumClient with its lines, messages, requests and queue of jobs,
-- `Stratum.Login` the five protocols of login, and `Stratum.Submit` submit_share. A child module
-- has the lemmas on its parent; `Stratum.Network.Stream` has the lines of a stream,
-- `Stratum.Client.Reply` how a request ends on lines, and `Node.Requests.Paging` the pages that
-- follow one another, each as a description of its own that the code is compared with. `Base` is shared by all: tests, lists, byte strings, bits,
-- errors, and methods that change their object and may fail (`Base.Action`). `Examples` has
-- concrete values and tests.
--
-- The correspondence. An operation has the name that it has in the source. A std::array or a
-- std::vector of bytes is a list of numbers; a w-bit integer is a natural number, and where the
-- source's arithmetic can wrap the model takes the remainder by 2 ^ w. An optional is an
-- `Option`. A reference that a function changes is an argument and a part of the result: a
-- BincodeWriter is the list of its bytes. A function that throws gives a `Result`. A loop over
-- indices counts the rounds left and the index; build_merkle_root's loop and encode_base36's
-- have a bound on the rounds and give `none` beyond it: the number of leaves, since each round
-- shortens them, and two digits for each byte, since 36 * 36 exceeds 256. The parser's mutual
-- recursion has a bound of three calls for each character of the text, and three more: a value,
-- its array or object, and the loop in that. The loops of the Stratum client that read messages
-- until one fits have as their bound the bytes that are still to come, and one more, since a
-- message has a byte at least.
--
-- The network. A method of StratumClient is an action on the client's record: it returns, fails
-- with the text of *error_message, or throws. The network is a part of that record: a connection
-- is the list of what each send takes and of what each wait brings (silence, an end, or a chunk
-- of bytes), and the next calls of connect_tcp_socket have their results in a list, so that a
-- theorem for all clients is one for all behaviours of the pool. A time-out is an arrival of
-- silence; the number of milliseconds is not modelled. A connection to a node is the stream of
-- its bytes, with the most that each call transfers; the loop of mempool_all has as its bound
-- the bytes that all connections will bring, and one more, since a page takes some of them.
--
-- Parameters. What the source computes with floating-point numbers (the size of the address
-- filter, the factor of the difficulty, the developer's fee, the numbers with a fraction in
-- JSON) and with RandomX (hash_data) is an argument of the definitions. So is kStratumAgent,
-- which has the version that the build sets.
--
-- Not modelled: the RandomX machine of src/crypto.cpp, the branch of multiply_divide_target for
-- a compiler without 128-bit integers, the system calls under src/stratum_client.cpp and
-- src/node_client.cpp with interrupt_all, the rest of src/miner.cpp, the text and the files of
-- src/config.cpp, the terminal interface, the tuning and the platform layers.
pub mod Base
pub mod Types
pub mod Bincode
pub mod Sha256
pub mod Pow
pub mod Difficulty
pub mod Consensus
pub mod Base36
pub mod Json
pub mod Codec
pub mod Config
pub mod Miner
pub mod Node
pub mod Stratum
pub mod Examples
