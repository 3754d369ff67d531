-- ===== src/Lib.antt =====
-- A model of the NetVirt switch, of its agent, and of the parts of libnvcore that they stand on.
--
-- nvswitch connects agents to virtual Ethernet networks. Each agent has a session; a session that
-- has authenticated is a member of a virtual network, which numbers its members from a pool of
-- bits, learns which station stands behind which member, forwards frames between members, and
-- introduces two members to one another when the first frame passes between them, so that they can
-- go on without the switch. Which pairs have been introduced is kept in the link state. An agent
-- registers with the switch, is provisioned by the controller through it, and comes online once it
-- is admitted. All that they say to one another are messages of one protocol, which they write and
-- read by accessors.
--
-- Files, and the code that they are about:
--   Bitmap, Bitpool    libnvcore/src/bitv.c: bits of a byte array, and the pool of identifiers
--   Linkst             nvswitch/src/linkst.c: the triangular matrix of introduced pairs
--   Inet               nvswitch/src/inet.c: the fields of a frame
--   Links              doubly linked lists of C structs, for the session list
--   Tables             nvswitch/src/ctable.c and libnvcore/src/ftable.c
--   Session, Vnetwork  nvswitch/src/session.c, session.h, vnetwork.c and vnetwork.h
--   Cert               libnvcore/src/cert.c: the names in certificates
--   Ippool             nvctrler/src/ippool.c: the pool of addresses of the controller
--   Switch             the state that the handlers of nvswitch/src/switch.c and request.c share
--   Switch/Forward     forward_ethernet of switch.c and p2pRequest of request.c
--   Switch/Handlers    authRequest and provRequest of request.c, and on_connect, on_secure,
--                      on_disconnect and handle_netinfo_request of switch.c
--   Switch/Input       dispatch_operation and on_input of nvswitch/src/switch.c
--   Dnds               libnvcore/src/dnds.c: the messages (Types, Unions, Members), the checks and
--                      copies that the accessors share (Access), the accessors (Message, Dn, Ds,
--                      Search, Contexts, Nodes, Clients), and their fields by kind (Fields)
--   Mbuf               libnvcore/src/mbuf.c: the queues of messages of a connection
--   Agent              nvagent/src/agent.c, p2p.c and session.h: the state of an agent
--   Agent/Messages     the messages that agent, switch and nvswitch/src/control.c make, and
--                      what they read from them
--   Agent/Peers, Ports nvagent/src/p2p.c, and the text of a port there
--   Agent/Connection   nvagent/src/agent.c: sending, and a connection that comes up or goes down
--   Agent/Handlers     nvagent/src/agent.c: what an agent does with a message
--   Prelude, Tests     shared lemmas, and the theorems at concrete inputs
-- A function of the code has the name it has there, in snake case (p2p_request for p2pRequest),
-- with agent_ before it where the switch has one of that name (agent_on_input). A
-- pointer to a shared object is a number, NULL is 0, and the objects stand in functions from
-- numbers; what a function writes through a pointer it returns. Fixed-width counters wrap where
-- the code's do. A setter of a message returns its code and the message as it is then, a getter
-- its code and what it wrote. The structures that asn1c makes of the protocol are records, and a
-- union of theirs is the member that was written last: reading another is an error of its own
-- (`wild`), reading it before any was written gives zeros. A message sent or a call of a library
-- is an event, in the order of the calls; the switch keeps what it sends in the short form Msg. The host is little-endian where its byte order matters
-- (Inet).
--
-- Loops: the loop of an allocation that looks for a clear bit has eight rounds of fuel, and the
-- walk of a flood along the session list and the loop of mbuf_free have the fuel that their caller
-- passes; `none` is a loop that outlives its fuel. An allocation never does, a flood does not if
-- its fuel exceeds the number of members, and mbuf_free does not if its fuel is that of the
-- buffers or more. All other loops are structural.
--
-- Parameters: the hash table of libnvcore/src/jsw_hlib.c, which another project wrote, is the
-- record HashTable with the laws of its functions. inet_pton and inet_ntop are the record
-- AddressText, and the two functions of asn1c's run-time library that change a set are the record
-- AsnSet, each with the laws that the code relies on. What the agent finds around it (its
-- addresses, what its files allow, whether a message can be encoded and flushed, where the passport
-- made of three files stands) is the record Surroundings; what calloc returns
-- to it comes with a message; the size of an unsigned long is an argument of the setters that
-- store one; what rand and time return, and the names that OpenSSL reads from a
-- certificate, are arguments.
--
-- Not modelled: the disabling of networks, allocation failure, logging, threads, the start and end
-- of the programs, the transports, OpenSSL, the encoders that asn1c generates, the control link to
-- the controller but for one message of it, the rest of the controller, and of dnds.c the printing
-- of messages, the names of codes, the freeing of messages and the object types of a search
-- request.
pub mod Prelude
pub mod Bitmap
pub mod Bitpool
pub mod Linkst
pub mod Inet
pub mod Links
pub mod Tables
pub mod Session
pub mod Vnetwork
pub mod Cert
pub mod Ippool
pub mod Switch
pub mod Agent
pub mod Dnds
pub mod Mbuf
pub mod Tests
