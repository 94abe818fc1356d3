-- ===== src/Lib.antt =====
-- sleepy: a reliable UDP protocol (package sleepy, the repository's root) and a pool of TCP
-- connections (package sleepytcp), both in Go.
--
-- The protocol sends a payload either as one compact packet, a packet header and the payload, or
-- as fragments, each behind a fragment header. Both ends keep rings of slots indexed by 16-bit
-- sequence numbers that wrap: the sent packets that wait for an ACK, the received packets from
-- which the ACK bitset is computed, the packets under reassembly, and the window of a channel.
--
-- Seq models utils.go, the order on sequence numbers. Packet/Header models PacketHeaderFlag and
-- PacketHeader of packet.go with AppendTo and UnmarshalPacketHeader, Packet/Fragment models
-- Fragment, MarkReceived and FragmentHeader. Buffer models buffer.go and memset.go; Buffer/Slots
-- models the shape that buffer_packet.go, buffer_recv.go, buffer_sent.go and buffer_fragment.go
-- repeat for four entry types (their operations in Go differ in the type alone), and Buffer/Types
-- has the four instances, with NextACK. Endpoint models config.go and the state of endpoint.go,
-- Endpoint/Write its WritePacket, Endpoint/Read its ReadPacket with the reassembly of fragments
-- and processACKs, Endpoint/Statistics its Update. Endpoint/Read/Assembly follows the fragments of
-- one payload into the entry of their packet, in any order, and Endpoint/Fragmented joins the two
-- sides. Channel models channel.go: the dispatcher that a Channel is for its endpoint, with a
-- window of the sent datagrams and a queue of those that wait; Channel/Update has NewChannel and
-- Update.
--
-- A Client of sleepytcp keeps a HostClient for each address, and a HostClient idle TCP
-- connections, the number of its connections and a queue of requests that wait for one. Tcp/Queue
-- models the waitingCallerQueue of sleepytcp/client_wait.go and Tcp/Caller its waitingCaller.
-- Tcp/Host has the critical sections of sleepytcp/client_host.go as functions on a HostClient, and
-- Tcp/System all that runs on one HostClient: the requests (tryAcquireClientConn, and
-- destroyClientConn or tryRecycleClientConn after use), the dials for waiting callers
-- (tryDialForWaitingCaller) and the cleaner (cleanupIdleConnections), as tasks of which one makes
-- a step at a time. A step is one critical section, one dial or one operation of a waitingCaller;
-- dials, timers and uses of a connection may end in any way. A connection gives up its slot in one
-- step and is closed in a later one. Tcp/Host/Usage has its atomic counters, which Do changes
-- outside the lock. Tcp/System/Store and Invariant say what every state keeps, Tcp/System/Amount
-- to Steps weigh what each task holds and Tcp/System/Totals draws the conclusions,
-- Tcp/System/Returns is about panics and loops, and Tcp/System/Popped to Forgotten are about the
-- callers that wait. Tcp/Request models HostClient.do and the loop of HostClient.Do, and
-- Tcp/Client models client.go.
--
-- Tcp/Dial models sleepytcp/dial_tcp.go and dial.go. Tcp/Dial/Resolve has resolveTCPAddrs,
-- Tcp/Dial/Addrs the cache of addresses: each function is what getTCPAddrs or tcpAddrsClean does
-- under the lock once, and Tcp/Dial/Reach lets goroutines make these steps in any order, and
-- Tcp/Dial/Meanwhile and Tcp/Dial/Pending follow an entry while its address is resolved anew.
-- Tcp/Dial itself has tryDial, the rounds of dial, the methods of TCPDialer and dialAddr. What the
-- clock, concurrencyCh and net.DialTCP do around a try is an argument (Events); Tcp/Dial/Tokens
-- follows the goroutines of all the tries of a dialer and the tokens of concurrencyCh as steps in
-- any order. The answers of the net and strconv packages are a record (Net). The entries of the
-- cache are a list that grows, and a pointer is a place in it.
--
-- Tcp/Frame models sleepytcp/rpc.go: a store of frames and bodies, which are found by their
-- numbers, and the pools of both. Tcp/Timer models sleepytcp/timer.go, the pool of timers, with
-- timers that fire at any moment, and whose time is on its way to the channel until it is sent.
-- Tcp/Pool is sync.Pool for both: the place of what a pool gives is an argument, since the pool
-- chooses.
--
-- Numbers are natural numbers with their wrap-around written out; a byte is a number below 256, a
-- slice a list, a pointer into an array its index, and nil `none`. A Go call returns a Result: a
-- value, an error, or panic for an index or slice out of range, a nil dereference and a division
-- by zero. Values that Go returns beside an error are dropped, as every caller does. Records are
-- values: a method that changes its receiver returns the new one.
--
-- github.com/lithdew/bytesutil is not in the repository: Bytes has its operations as a record,
-- which the functions that call it take, and its documented behaviour as the record IsBigEndian, a
-- hypothesis of the theorems that need it. float64 is a type of the record Floats, or a bare type
-- parameter where values are only stored.
--
-- The dispatcher of an endpoint is a record of three operations over a state of its own. Process
-- and ACK get the endpoint too, since they may write packets while ReadPacket runs, as Channel
-- does. The buffers of the endpoint's pool are empty when they are taken. ReadPacket returns its
-- error beside the state, since an error can come after a change. The capacity of a slice that is
-- sliced up is taken to be its length. Lengths of slices are taken to be below 2^64.
--
-- Loops over a fixed number of rounds recur on the rounds left. The loop of clearFront takes fuel:
-- one round more than the queue's length, and so do the loops that look for a waiting caller; the
-- theorems about them show that they end. The loop of HostClient.Do takes any fuel that exceeds
-- the number of the attempt that ends it. The loops of a Channel over sequence numbers get fuel
-- for 65537 rounds, one more than there are numbers.
--
-- The Go channels of a Channel are lists and never full: what Read and Write put in are arguments
-- of Update, and what Out gives is the list out_queue.
--
-- A connection is its number among those that its HostClient has opened, although the clientConn
-- objects are pooled. Each operation of a waitingCaller, and each section under the lock of a
-- HostClient, is taken to run at once; `waiting`, which takes no lock, may answer for any moment
-- of the section that asks it. The limits of a HostClient do not change. An address is a number.
--
-- Not modelled: sockets, DNS, the pools of bufio readers and writers and of clientConns; isEOF of
-- error.go, which nothing calls; the programs under cmd, which only call the library.
pub mod Prelude
pub mod Seq
pub mod Bytes
pub mod Floats
pub mod Packet
pub mod Buffer
pub mod Endpoint
pub mod Channel
pub mod Tcp
