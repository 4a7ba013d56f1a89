-- ===== src/Lib.antt =====
-- dtn7-go, a delay-tolerant networking daemon that speaks the Bundle Protocol Version 7.
--
-- The program's parts. pkg/bpv7 has the data model of bundles: endpoints, timestamps, the primary block,
-- canonical blocks with extension blocks, their CBOR form, validity, and fragmentation. pkg/storage keeps
-- bundles and fragments, pkg/routing decides where they go, pkg/cla sends and receives them over
-- convergence layers, among them the Bundle Broadcasting Connector in pkg/cla/bbc, which cuts a compressed
-- bundle into fragments of a few bytes for a LoRa modem and puts them together again.
--
-- Which file models what.
--   Prelude        names, lists, results, integers, sorting and bits that all parts share
--   Bpv7.Errors    the errors of pkg/bpv7, one constructor for each kind of message
--   Bpv7.Flags     pkg/bpv7/bundle_control_flags.go, block_control_flags.go
--   Bpv7.Endpoint  pkg/bpv7/endpoint.go, endpoint_dtn.go, endpoint_ipn.go: an EndpointID is an option, with
--                  nothing for a nil EndpointType; the regular expression is written as a matcher
--   Bpv7.Uri       the same files: NewEndpointID and the texts of endpoints; the expressions for URIs are
--                  matchers, decimal numbers have at most 20 digits
--   Bpv7.Time      pkg/bpv7/time.go
--   Bpv7.Block     pkg/bpv7/canonical_block.go and extension_block_*.go
--   Bpv7.Primary   pkg/bpv7/primary_block.go; Rules says what its CheckValid checks
--   Bpv7.Bundle    pkg/bpv7/bundle.go, bundle_id.go, canonical_block_sort.go; Order, Numbers, Removal,
--                  Payload and Validity are about sortBlocks, AddExtensionBlock,
--                  RemoveExtensionBlockByBlockNumber, the place of the payload block, and CheckValid
--   Bpv7.Reassembly  pkg/bpv7/fragmentation.go from prepareReassembly on; Merge and Whole are about
--                  accepted fragments, Nested about the ones on which ReassembleFragments panics
--   Bpv7.Fragmentation  pkg/bpv7/fragmentation.go up to fragmentExtensionBlocksLen; Pieces is about one round
--                  of the loop of Fragment, Whole about the loop and the way back
--   Bpv7.AdministrativeRecord  pkg/bpv7/administrative_record.go, administrative_record_status_report.go, and the
--                  CBOR form of a BundleID; Ids and RoundTrip are about both directions, Reports about
--                  NewStatusReport
--   Bpv7.Builder   pkg/bpv7/bundle_builder.go: an argument of type interface{} is a data type of what the methods
--                  tell apart; Built is about Build, Flags about the methods' flags
--   Bpv7.Codec     MarshalCbor and UnmarshalCbor of endpoints, timestamps, blocks and bundles, and
--                  pkg/bpv7/crc.go
--   Bbc.Fragment, Bbc.Transmission, Bbc.Connector  pkg/cla/bbc/transmission_fragment.go,
--                  transmission.go and connector.go; Sending is about Send against the receiver,
--                  Interleaving about the fragments of several transmissions
--   Tcpcl.Transfer  pkg/cla/tcpclv4/internal/utils/transfer_out.go, transfer_in.go, transfer_manager.go:
--                  next_segment and receive_segment are the two NextSegment, send_segments the goroutine
--                  in Send, handle a round of TransferManager.handle; Sending is about both together
--   Tcpcl.Words, Tcpcl.Messages  pkg/cla/tcpclv4/internal/msgs: Reading has the Unmarshal methods and ReadMessage;
--                  RoundTrip is about both directions, Accepted about any octets
--   Tcpcl.Switch   pkg/cla/tcpclv4/internal/utils/message_switch_readerwriter.go: handleIn and handleOut
--   Tcpcl.Stages   pkg/cla/tcpclv4/internal/stages/contact.go, sess_init.go, stage.go: a stage is what it sends
--                  before it waits, and what it does with its input; Agreement is about two peers
--   Tcpcl.Stages.Established  pkg/cla/tcpclv4/internal/stages/sess_established.go: a round of the loop is an event
--                  with its instant; Exchange, Ending, Keepalive and Regular are about runs of the loop
--   Storage        pkg/storage/store.go and bundle_item.go: items under scrubbed IDs, and files; Push,
--                  Pushed and Outcomes are about Store.Push, Load about BundleItem.Load and IsComplete
--   Routing.IdKeeper  pkg/routing/id_keeper.go
--   Routing.Descriptor  pkg/routing/bundle_descriptor.go, constraint.go; Sync is about its method on a stored bundle
--   Routing.Core   the state and the endpoints of pkg/routing/core.go, and the interface Algorithm of algorithm.go
--   Routing.Processing  pkg/routing/processing.go, and SendStatusReport and the case of a received bundle of
--                  core.go: a world is the store, the algorithm's state, the ID keeper and what was sent
--                  and delivered. State has the node, Blocks the blocks that forward changes, Reports
--                  SendStatusReport and inspectStatusReport, Forwarding forward; Known is about bundles of
--                  which something is stored, Retention about bundles that reach nobody, Nesting with
--                  Primary and Records about the calls of SendBundle inside one another
--   Routing.Epidemic  pkg/routing/algorithm_epidemic.go and filterCLAs of algorithm.go; Flooding is about the chosen
--                  peers, Keeping about what the algorithm leaves as it is
--   Routing.Dtlsr  pkg/routing/algorithm_dtlsr.go: its maps, jobs and the choice of the next hop; Handlers has what
--                  processing calls, Indices, Tracking and Tables are about the numbers of nodes and the
--                  routing table, Runs about all calls together, Hops about the next hop
--   Routing.Mule   pkg/routing/algorithm_sensornetwork.go; Filtering is about the senders that stay
--   Routing.Spray  pkg/routing/algorithm_spray.go, on the entry of one bundle; Copies is about
--                  SprayAndWait, Halves about BinarySpray
--
-- How code is modelled. Go's words are natural numbers with the wrap-around of their width written out.
-- Bytes, strings and slices are lists of numbers, times are nanoseconds since the Unix epoch. A function
-- with an error returns a result, which is a value, an error, or a panic; CheckValid returns its list of
-- errors. A method on a pointer returns the new value. Goroutines and channels of the connector are
-- sequences of events: a round of Send's select, or a fragment that arrives. The time is a parameter.
-- sort.Sort and sort.Slice keep the order of elements of which neither is less, as Go does in slices of
-- at most 12 elements and does not promise for longer ones. The peers of DTLSR's own data, which a broadcast hands out as
-- a Go map, stay the map that later calls change.
--
-- Parameters. The library github.com/dtn7/cboring is the record Codec.Cbor of readers and writers, with the
-- law that a reader gives back what the writer wrote and leaves what follows; its Booleans, Booleans of
-- Bpv7.AdministrativeRecord, are a second one. The two checksums are any functions. Decompression and
-- parsing of a received transmission are one function of the connector, and UnmarshalCbor of a received
-- bundle is one function of the transfer manager. The store's database
-- is a map from scrubbed IDs, and the path of a bundle's file, which is a hash, is any function of its ID.
-- The largest allocation of the Go runtime is a number, above which make panics. A node has time.ParseDuration,
-- its two clocks, which stand still while one bundle is processed, and the outcome of each transmission
-- after what was done before as parameters. DTLSR has the library for shortest paths, the peer data in
-- a bundle and the sensor network mule a regular expression as parameters. The octets that
-- cboring.WriteByteStringLen writes for a length are any function of it.
--
-- Bounds and fuel. The search for a free block number runs on as many steps as there are blocks and one
-- more, which is enough since each step but the last meets a number in use. The loop of
-- Bundle.UnmarshalCbor runs on fuel, and one more than the number of blocks is enough. The goroutine of
-- TransferManager.Send runs on fuel, and two more than the number of full segments are enough. The loop
-- of Bundle.Fragment runs on one round more than the payload has octets, and handleIn on one more than
-- the stream has; both are enough, since each round takes at least one. SendBundle sends status
-- reports by calling itself; the depth of these calls is bounded, and two are enough. The loop of
-- Connector.Send runs on its events.
--
-- Not modelled: JSON and most String methods; the stage handler and client of TCPCLv4; of
-- pkg/routing the algorithm PRoPHET, the bundles in which DTLSR broadcasts, the pipeline, timers, and
-- in core.go the pending bundles and the reports on peers; the CBOR forms of the extension blocks of
-- routing algorithms, and signatures; BuildFromMap; agents, discovery, the other convergence layers and
-- the commands, which mostly do input and output.
pub mod Prelude
pub mod Bpv7
pub mod Bbc
pub mod Tcpcl
pub mod Storage
pub mod Routing
