-- ===== src/Lib.antt =====
-- EChain, a simplified Bitcoin network in Go: a model of its packages and what is proved of it.
--
-- The program. Full nodes keep a chain of blocks and the set of unspent outputs in a LevelDB
-- database, and talk to each other over TCP in messages coded by gob; miners are full nodes that
-- make blocks; SPV nodes keep headers only and check single transactions by merkle proofs; a wallet
-- makes transactions. The package blockchain has the data and the database, network the nodes.
--
-- Which file models what:
--   Base.antt                        numbers, lists, byte strings, maps and results of Go code
--   Types.antt                       the structs of the package blockchain
--   Platform.antt, LevelDb.antt      SHA-256, RIPEMD-160, base58, ECDSA, gob and goleveldb, which
--                                    are parameters: records of operations with their laws
--   Blockchain/Utils.antt            blockchain/utils.go
--   Blockchain/Transaction.antt      blockchain/transaction.go
--   Blockchain/Block.antt            blockchain/block.go
--   Blockchain/Merkle.antt           blockchain/merkle.go (SetMerkleRoot, GetMerkleProof) and the
--                                    fold of handleMerkleblockMsg of network/spv.go
--   Blockchain/UtxoSet.antt          blockchain/utxoset.go (UTXOSet)
--   Blockchain/Iterator.antt, Blockchain/Chain.antt and Blockchain/ChainHeader.antt
--                                    blockchain/blockchain.go (BlockChainIterator, BlockChain of a
--                                    full node, BlockChainHeader of an SPV node)
--   Network/Messages.antt            network/message.go, network/network.go
--   Network/Peers.antt               P2PNode of network/network.go
--   Network/Utils.antt               network/utils.go
--   Network/Wire.antt                gob at the types of messages, and what a node sends
--   Network/Script.antt              the check of an input in network/fullnode.go
--   Network/FullNode.antt            network/fullnode.go: Verify (verifyTransaction, verifyBlock,
--                                    storeNewBlock), NewTxn (handleNewTxnMsg), Sync (the handlers
--                                    of getblocks, getheaders, getdata, and the batches of inv),
--                                    Handshake (version, verack, addr, filterload),
--                                    Blockdata (handleBlockdataMsg), Inventory (handleInvMsg up to
--                                    its goroutines and after them), Workers (these goroutines and
--                                    their mutex), Connection (handleConnection), Updates (the
--                                    assignments without a lock), System (the node with all its
--                                    connections)
--   Network/Miner.antt               network/miner.go (mineBlock, startMining); Connection has the
--                                    handlers of a miner and its handleConnection
--   Network/Spv.antt                 network/spv.go: Handshake, Headers (getheaders and headers),
--                                    MerkleBlock (handleMerkleblockMsg), Connection (the addresses
--                                    of wallets, the unspent outputs, new transactions,
--                                    handleConnection), Updates (the assignments without a lock),
--                                    System (the node with all its connections, and the handlers
--                                    that wait for a header)
--   Wallet/Address.antt              wallet/wallet.go
--   Wallet/Keys.antt                 wallet/wallet.go (createWallet)
--   Wallet/Wallets.antt              wallet/wallets.go (the key store, its file, the messages to
--                                    the nodes, getUTXOs)
--   Wallet/Transfer.antt             wallet/wallets.go (Transfer, GetBalance), wallet/utils.go
--   Tests.antt                       a concrete platform, database and coder, and examples
-- The children of a module have its theorems, each file under what it proves.
--
-- How the code is read. A method on a pointer becomes a function from the state before to the state
-- afterwards: BlockChain and UTXOSet share one database, so that the functions of both take and
-- give it back. GetHash writes the merkle root into its block, and so returns the block too. An int
-- is a 64-bit pattern that wraps (Base/GoInt.antt). A slice expression or an index out of range
-- is a panic (Base/Outcome.antt), as is a missing map entry whose outputs are indexed. An error of
-- gob or of Get is dropped where the code drops it, and leaves the zero value. A map is a list of
-- entries; where Go ranges over one, in an order that it does not fix, the model takes the order of
-- the list. What a handler sends is
-- a list of addresses, message types and payloads.
--
-- Goroutines. A goroutine that only sends a message runs as it is started. Those of handleInvMsg
-- share an index under a mutex: Workers has every interleaving of their steps, from Lock to
-- wg.Done, where a send is one step that returns: the peer closes the connection on which
-- sendMessageBlocking waits. System has the handlers of a node interleaved. A handler runs in one
-- step up to the point at which it waits (wg.Wait of handleInvMsg; the sleep and the receive of
-- handleMerkleblockMsg), and in another after it. The code has no lock around the fields of a node,
-- so that a handler may also stop, with the others running, between its check and its assignment to
-- a list of peers, of addresses or of transactions or to the filter, and between the read and the
-- write of that assignment: these are steps of System too, and FullNode/Updates.antt and
-- Spv/Updates.antt have the assignments. Where a theorem takes two such handlers not to overlap, it
-- says so; System/Overlap.antt has what comes of two that do. The stops inside the updates of the database are not modelled.
--
-- Loops. A loop over the chain or over the levels of a merkle tree has fuel, the number of rounds
-- that it may make; `timeout` is a loop that makes more. On a chain (Linked, LinkedHeaders) one round
-- for each block is enough, and two rounds for a merkle tree of at most two transactions. The search
-- for a nonce has one round for each nonce that it tries.
--
-- getUTXOs looks for an answer in 11 rounds, the number after which its counter passes 10. A run of
-- the goroutines of handleInvMsg needs no fuel: its length is bounded.
--
-- Not modelled: the sockets, so also a peer that cannot be dialled and the accept loop of
-- StartP2PNode; the sleeps, whose lengths order nothing here; the file of LoadWallets and SaveFile
-- (its content is an argument or a result) and encoding/json, which is a parameter with its law;
-- ecdsa.GenerateKey, whose results are arguments, and ecdsa.Sign, which is a function of the hash
-- that is an argument; what is printed; and main.go, which starts a node. All of these are the environment of the program. Blocks that hold nil pointers,
-- which gob cannot send, do not arise.
pub mod Base
pub mod Types
pub mod Platform
pub mod LevelDb
pub mod Blockchain
pub mod Network
pub mod Wallet
pub mod Tests
