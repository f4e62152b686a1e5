-- ===== src/Lib.antt =====
-- HyDFS is a replicated file store on a hash ring. Every node keeps a list of the members of the
-- group, sorted by the hashes of their addresses, learns of the others by gossip or by pings,
-- and suspects and forgets those that fall silent. A file belongs to the first alive node whose
-- hash is not below the hash of its name, and to the successors of that node; a client writes
-- it, and its appends, to all of them. Every node keeps the metadata of its files, with the
-- appends of each.
--
-- Files, and the source files of the repository's root that they are about:
--   Config      config.go: the protocols, the suspicion modes, the configuration; `handleSwitch` of
--               cli.go and `SwitchProtocol` that change it.
--   Member      member.go and utils.go: members, their IDs, hashes and addresses.
--   Metadata    metadata.go: files and appends, and their JSON; `UpdateAppendOrder` and
--               `GetFileMetadata` of rpc_server.go.
--   Membership  membership_list.go: the operations on the list of members.
--   Detection   membership_list.go, `MarkSuspectIfNeeded`: the failure detector.
--   Merge       membership_merge.go: a received list merged into the own one.
--   Bandwidth   bandwidth.go: the counters.
--   Server      server.go: the state of a node, its start and heartbeat; `leaveGroup` of cli.go.
--   Ring        ring.go, and `findTargetNodes` of hydfs_operations.go: key ranges and targets.
--   Gossip      protocols.go: the round robin over the members, what they are sent, and what they
--               make of it; the broadcast of `handleSwitch` of cli.go; and a group over time, by
--               the loops, requests and commands of server.go, rpc_server.go and cli.go.
--   Command     cli.go: command lines.
--   Transfer    grpc_client.go and grpc_server.go: files and appends sent in chunks and stored, and
--               sent back, and the address that a node listens on.
--   Cluster     hydfs_operations.go: the commands on several nodes, over the calls of
--               grpc_client.go; `MultiAppend` of rpc_server.go.
--   Stabilization
--               ring.go, `stabilizeRing` and what it calls: files exchanged with the successors.
--   FileMerge   hydfs_operations.go: `merge` over the successors of a primary.
--   Rpc         rpc_server.go and rpc_types.go: joining, the requests that a node serves, its start;
--               rpc_client.go: the calls, alone and with the process that serves them.
--   Sync        hydfs_operations.go: append orders compared and synchronised.
--   Garbage     ring.go, `deleteFilesOutsideMyRange`: the garbage collector.
--   System      the cluster over time: every command and exchange of hydfs_operations.go and ring.go
--               as a step, with nodes that start and stop.
--   Console     logger.go, and what membership_list.go, metadata.go and cli.go show with it.
--   Program     main.go, and the loops of server.go.
--   Prelude     lists, maps, texts and decimal numbers that the others share.
--   Tests       the theorems at concrete inputs.
-- A Go function has the name of its definition in camel case: `mergeMembership` is
-- `merge_membership`.
--
-- How the code is modelled. A text is the list of its bytes, as native numbers. A Go map is an
-- association list, and a missing key reads as the code reads it: the zero value, or false in
-- the second result. A method with a pointer receiver takes the state and returns the new one.
-- An error is `none` or `false`; a panic is `panics`. The clock is an argument, read once in
-- each operation, in nanoseconds. An operation on the state of a node is one step, so steps of
-- one node interleave as whole operations; only `AppendToFile`, whose locks let others in between
-- its lookup of the lock, its read and its write, is taken apart, in Metadata/Interleaving and as
-- the step `interleaves` of a cluster. A goroutine that an operation starts is recorded in the
-- field `started` of the server. A command that calls other nodes is a
-- step on a `Cluster`, the nodes that run by their addresses. A `Network` says which addresses a
-- call gets through to, in time and within the 4096 bytes of a UDP buffer, and what each node
-- can write; it does not change during a command. What a call does within those bytes, and beyond
-- them, is in Rpc.Client, for one caller and one process. A transfer arrives whole or not at all.
-- Goroutines that call different nodes work on different parts of the cluster, and stand in the
-- order of the targets. The counters count transfers of files at both ends; the bytes of UDP
-- requests are counted where a datagram is served and by the caller in Rpc.Client, and not by the
-- steps that take a call as one that gets through, as the broadcast of a switch does.
--
-- The disk of a node holds the entries of its directory. The program joins the directory with a
-- name, which cleans the name; the model of what is written, read and removed is for names that are
-- entries of a directory (`is_entry_name`), and the theorems on stored contents ask for them.
--
-- Numbers that wrap in Go are taken modulo 2 ^ 64. A `big.Int` hash is a number. SHA-1,
-- `rand.Shuffle` and the file system are parameters.
--
-- Bounds. `alive_predecessor` runs for as many rounds as there are members, `successor_loop` for
-- one fewer, as the loops of the source do; `target_loop` for the number of replicas;
-- `window_loop` for one fewer. `pieces` has a round for each byte, and needs no more, since each
-- round takes at least one. All other loops go down a list.
--
-- The nodes over time are steps in any order: a `GroupStep` for the members that processes know, a
-- `Step` for what nodes store. The two do not share a state: in a `Step` the node that runs a
-- command may know any members.
--
-- Not modelled: the JSON encoding and decoding, floating-point numbers and the sockets, which are
-- parameters; the code that protoc generates (proto); the reading of standard input (cli.go); and
-- the timers that run the loops.
pub mod Prelude
pub mod Config
pub mod Member
pub mod Metadata
pub mod Membership
pub mod Bandwidth
pub mod Server
pub mod Detection
pub mod Merge
pub mod Ring
pub mod Command
pub mod Gossip
pub mod Transfer
pub mod Sync
pub mod System
pub mod Console
pub mod Program
pub mod Garbage
pub mod Cluster
pub mod Stabilization
pub mod FileMerge
pub mod Rpc
pub mod Tests
