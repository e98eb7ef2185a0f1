-- ===== src/Lib.antt =====
-- A verification library for ferrumnet, a userspace TCP/IP stack in Rust (tcp-core and tcp-tun).
--
-- The stack is driven without I/O: the backend feeds received datagrams and the time to
-- tcp-core/src/iface.rs, which hands segments to one control block per connection
-- (tcp-core/src/tcb.rs). A control block keeps its sequence numbers (tcp-core/src/seq.rs), a send
-- and a receive ring (tcp-core/src/buffers.rs), a retransmission timer (tcp-core/src/rtt.rs), the
-- out-of-order data (tcp-core/src/reasm.rs), a SACK scoreboard (tcp-core/src/sack.rs) and a
-- congestion controller, and speaks the wire formats under tcp-core/src/wire.
--
-- Files. Prelude holds what all share: tests on the native numbers, lists, machine words. Seq, Time,
-- Buffers, Rtt, Reasm and Isn each model the source file of that name, function by function under the
-- source's names. Runs and Sack model sack.rs: Runs the sorted lists of spans with their insertion
-- and trimming, Sack the scoreboard on them. Wire.Checksum, Wire.Ipv4, Wire.Icmp and Wire.Tcp model the
-- files of tcp-core/src/wire; Wire.Tcp holds the view of a received segment and Wire.Tcp.Emit the
-- segment that is emitted. Datagram is `build_segment` of iface.rs, the two headers together.
-- Congestion states the contract of tcp-core/src/congestion.rs as a record of operations on a
-- controller's state, and Congestion.Reno, Dctcp, Prague, Learned and Synth implement it, the last four
-- on Congestion.Scalable, the fields and methods that they share. Congestion.Machine is the register
-- machine that runs Synth's programs. Congestion.Dispatch is `Cc`, which holds any
-- of them. Congestion.Float is `f64`: a record of operations that the
-- controllers take as a parameter, with the laws of IEEE 754 and of Rust's casts that theorems name;
-- Congestion.Fixed is an instance of it, with which definitions run and the laws hold. Bbr is the
-- sampler of the delivery rate of tcp-core/src/bbr.rs and its filter, and Bbr.Model the controller on
-- top of them, with Bbr.Model.Ack for on_ack_sample. Bmc is the sweep of the congestion controllers of
-- tcp-core/src/bmc.rs, Bmc.Genomes that of a grid of genomes, Bmc.Stock that of `Cc`, Bmc.Options and
-- Bmc.Splits those of option strings and of ACK splits. Runtime is the state that the sockets
-- of tcp-core/src/runtime/socket.rs share with the reactor, their polls, and dispatch_wakeups of
-- tcp-core/src/runtime/reactor.rs. State is state.rs. Tcb is the state of tcb.rs,
-- over an arbitrary controller, with Tcb.Open (new_syn_received and the segments in SYN-SENT),
-- Tcb.Window (the tests on a segment), Tcb.Receive (the numbered steps of on_segment) and Tcb.Segment
-- (their order), Tcb.Ack (process_ack), Tcb.Closing (recompute_closing_state), Tcb.Timers (arming and
-- firing), Tcb.Build (the advertised window and the segments that are built), Tcb.Transmit
-- (transmit_data_or_fin) and Tcb.Poll (poll_transmit). Iface is the stack of iface.rs, which hands
-- datagrams to connections. The child modules that are named for a property hold the lemmas and the
-- theorems, and Tests and Examples the concrete runs.
--
-- Conventions. A method on `&mut self` returns the new state beside its result. Integers are natural
-- numbers, with the wrap or the saturation of the source written out; a sequence number is below
-- 2 ^ 32 where a theorem says so. Loops recurse on their list, or on fuel: scans of the window have one
-- round for each byte in flight and one more, of which each round but the last moves right; the cap on
-- the runs has a round for each run; a fold of a checksum has two, after which no carry is left; Reno's
-- credit loop has as many rounds as bytes of credit, of which each takes one at least, as have those of
-- the other controllers; the option walker
-- has a round for each byte; the drain of the reassembly has a round for each run and one more; the
-- search of a port has two rounds, since the listening port is one. The loops of the stack's
-- poll_transmit are relations with a step for each datagram. Inside tcb.rs a datagram that is sent is a
-- Frame, the description with its payload, and `frame_bytes` gives its bytes. The hash map of the
-- connections is the list of its entries, in the order in which it is walked. A panic is
-- `none` where the source can reach it, and a read out of range gives 0 where a check before it
-- excludes that.
--
-- Not modelled: the accessors of tcb.rs that only tests use. CUBIC, which is any implementation of the
-- contract in Congestion.Dispatch, as the controller of a connection is in Tcb. Of bmc.rs, the sweep of
-- the scoreboard. The executor of the runtime and the turn of its reactor, which calls the device. The
-- simulator and the TUN binary are harness, glue or device I/O. That the loop of poll_transmit comes to
-- an end rests on the controller, and is not shown.
pub mod Prelude
pub mod Seq
pub mod Time
pub mod Runs
pub mod Sack
pub mod Wire
pub mod Rtt
pub mod Buffers
pub mod State
pub mod Congestion
pub mod Reasm
pub mod Datagram
pub mod Isn
pub mod Tcb
pub mod Iface
pub mod Bbr
pub mod Bmc
pub mod Runtime
