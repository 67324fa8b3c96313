-- ===== src/Lib.antt =====
-- Models and proofs for the TCP/IP stack.
--
-- Base holds the shared names: tests on numbers, arrays as lists, and C strings (Base.CString), where
-- `strncmp` reads a list of bytes up to its first NUL.
--
-- Net (net.h, net.c, graph.h): an interface is a record of the fields that the modelled code uses;
-- a node's `intf[]` is a list of slots, and a pointer to an interface is the number of its slot.
--
-- Layer2 (Layer2/layer2.h, Layer2/layer2.c, Layer2/l2switch.c): Frame has frames and VLAN tags, Mode
-- the commands that set the mode and the VLANs of an interface, Qualify the acceptance of a frame,
-- MacTable the table that a switch learns, and Switch the way of a frame from `layer2_frame_recv` to
-- the calls of `send_pkt_out`, which are the output. A failed `assert` is `none`.
--
-- Net.Ip (utils.c, net.c): IPv4 addresses as 32-bit numbers in host order and as dotted text, read and
-- printed as the C library does it, and masks applied to the text. Net.Tlv (utils.c, utils.h): buffers of
-- TLVs; the search runs on one round of fuel more than the buffer has bytes, and each round passes
-- two bytes at least.
--
-- Layer2.Arp (Layer2/arp.c, Layer2/arp.h): the ARP table; Resolve has the packets that wait and the replies
-- that release them, Message the requests and replies as bytes. Layer2.Forward (Layer2/layer2.c) is
-- the way of an IP packet that layer 3 hands down. The time left on an expiration timer is not
-- modelled, only that it runs.
--
-- Layer3 (Layer3/layer3.c, Layer3/layer3.h): Nexthops has the array of nexthops of a route, RtTable the
-- routing table with its exact lookup and its longest prefix match, Addresses the commands that set
-- and unset the address of an interface, Packet the way of an IP packet through reception, delivery
-- and forwarding, and Demote that of a payload from the layers above down to layer 2. What C leaves undefined, the
-- shift by 32 bits for mask 0, is a parameter.
--
-- Gluethread (gluethread/glthread.c, gluethread/glthread.h): the intrusive lists, on a memory that gives the
-- `left` and `right` pointers at each address, 0 for NULL. Gluethread.Linked has the predicate `IsList` of the
-- sequence that a base stands for; Insert, Remove, Loops and Sorted prove the operations against it. The
-- loops run on fuel for the length of the list. The other parts take such lists as lists, from the base on.
--
-- WheelTimer (libtimer/WheelTimer.c, libtimer/WheelTimer.h): the timer wheel, whose slots are lists of
-- addresses of elements. WheelTimer.Requests has the requests of the applications, WheelTimer.Tick the function
-- that runs at each tick, with fuel for the elements of the slot; the jobs given to the event dispatcher are
-- its output. The other modules are proofs: Slots and Schedule on the order of the slots, Due, Rest, Expiry,
-- Step, Fires, OneTick, Liveness and Periodic on the tick, Pending, Carried, Registered and Removed on requests. The
-- counters are natural numbers, since the overflow of an `int` is undefined; a failed `assert` is `none`.
-- The wheel and its requests interact by `reschd_list`, which `wheel_fn` works off at the end of a tick.
--
-- Spf (Layer5/spf_algo/spf.c): Topology has the links of the nodes and the walks along them, Arrays the arrays
-- of pointers to shared nexthops on a heap with reference counts, Compute a run from one node; the fields of the
-- `spf_data_t` of all nodes are stores by node, and the queue is a list of nodes that
-- `glthread_priority_insert` orders. The loop runs on fuel for the nodes of the graph and one round more; an assertion that fails and a
-- pointer into free memory give `none`. Refs, Counted and Steps are about the counts, Queue, Relax, Explore, Process, Direct
-- and Shortest about the metrics, Routes about the routing table that a run leaves. The metrics wrap at 32 bits, the counts do not.
--
-- Isis (Layer5/isis/isis_adjacency.c, isis_flood.c, isis_layer2map.c): Node has the counters of a node and its
-- reconciliation phase, Adjacency the states of an adjacency with its timers, Hello what a hello does to the
-- adjacencies of an interface; calls of other parts are the output. States, Update and Receive prove that the
-- timers follow the states. The TLVs of a hello are read on fuel for the bytes of its buffer. Lspdb (isis_lspdb.c,
-- isis_pkt.c) is the database of LSPs, a function from router ids, and what a new LSP does to it, with the flood that its on-demand
-- TLV asks for, where a call holds the packet as it is then and the counts of references are left out; Newest, Settled
-- and Arrival are about the LSPs that stay in it. The timer wheel of a node ticks in seconds, and its assertions on the
-- interval of a timer are those of `is_whole_ticks`.
--
-- Logging, printing, sockets, threads and the command line are not modelled.
pub mod Base
pub mod Net
pub mod Layer2
pub mod Layer3
pub mod Gluethread
pub mod Isis
pub mod Spf
pub mod WheelTimer
mod Tests
