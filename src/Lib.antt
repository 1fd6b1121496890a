-- ===== src/Lib.antt =====
-- The host side of semantos-edge, in TypeScript: tools/templog-bridge, and the light bridge of
-- tools/x402-bridge with its cells.
--
-- The temperature logger's host bridge takes batches of readings from field nodes, stores them in
-- a journal of JSON lines, and answers each with the seq through which the node may let its
-- readings go.
--
-- - Templog/Text, Templog/Mac: the hexadecimal text and the MAC addresses of
--   tools/templog-bridge/codec.ts. A JavaScript string is the list of its code units.
-- - Templog/Batch: the decoded batch of codec.ts.
-- - Templog/Store/Records, Plan, Rebuild, Ingest: tools/templog-bridge/store.ts; `planBatch` is
--   `plan_batch`, `rebuild` is `rebuild`, the methods of `TempLogStore` are `ingest`, `through` and
--   `summary` over the record `Store`, and Store/Glued is about a journal behind a torn write. A `Map` is the list of its entries in insertion order
--   (Base/Map), a `Set<number>` that of its members (Base/Members).
-- - Cell/Words, Cell/Crc, Cell/Wire: the byte writers and readers and `mintCell` of
--   tools/x402-bridge/cell-codec.ts, `crc32` of tools/x402-bridge/serial-mesh.ts and `parseCell` of
--   codec.ts. SHA-256 (node:crypto) is a parameter. Cell/Wire/Minted has the writes of `mintCell`
--   (Base/Writes), which Cell/Wire/RoundTrip reads back; Cell/Crc/Bound bounds the checksum.
-- - Cell/Sighash, Cell/Actuator: `bip143Sighash`, `ecdsaDer` and the actuator payloads of
--   tools/x402-bridge/cell-codec.ts. The signatures of @bsv/sdk are parameters.
-- - Templog/Codec: the batch and ack payloads of codec.ts; Templog/Codec/Layout has the bytes that
--   the encoder writes, Templog/Codec/RoundTrip decodes them.
-- - Templog/Serial: the TL and AK lines of codec.ts. Serial/Frame reads a TL line back, Serial/AkLine
--   has `parseAkLine`, over text without white space (Serial/Plain).
-- - Templog/Bridge: `handleLine` and `postBody` of tools/templog-bridge/bridge.ts, which hand the
--   batch of a good line to the store's `ingest` and answer with its ack (Bridge/Line), and
--   `splitLines` and `pump`, which bring it the lines of the port (Bridge/Stream).
-- - Templog/Replay: `replayBodies` of tools/templog-bridge/replay.ts, which groups the stored samples
--   into bodies to post again. The loop that cuts them runs on fuel, a round for each sample, and
--   takes at least one in each.
-- - Templog/Sim: `SimNode` of tools/templog-bridge/sim.ts, the node at the other end: it builds the
--   batches that the bridge takes, and an ack moves its pointer. Sim/World is its `SimWorld`, whose
--   `deliver` brings the node's lines to the bridge and the bridge's acks to the node through a
--   gateway; the 10,000 rounds of its loop are the fuel of `deliver`, which throws without any left,
--   as the source does. Sim/Radio and Sim/Acked follow one round, `turn`, through both cells and
--   both lines.
-- - Templog/Json: the values of JSON.parse; a line of the journal is a value, blank, or text that
--   JSON.parse rejects, so that JSON.stringify and JSON.parse themselves are not modelled.
--
-- The light bridge (tools/x402-bridge) sells light for payments: a request brings a payment, which
-- is verified, claimed and put into a queue of activations, each of which broadcasts a cell or
-- commits seconds at the meter.
--
-- - X402/Payment: the headers and `DefaultPaymentVerifier` of tools/x402-bridge/x402.ts;
--   Payment/Accepts and Payment/Funded are about what the verifier accepts.
-- - X402/Bridge: `X402CellBridge` of tools/x402-bridge/bridge.ts. Bridge/Request is `activate` up to
--   its first await and what follows the broadcast of a payment, Bridge/Queue is `actuate`,
--   `actuateMetered`, `done` and `queueStatus`, and Bridge/Steps has the steps that the awaits leave
--   open, in any order. Bridge/Once and Bridge/Turns are about their runs.
-- - X402/Meter: `ChannelMeter` of tools/x402-bridge/meter.ts, a sequence of calls that return or
--   throw over the record `Meter`: Meter/Frames has the payloads and cells, Meter/Session the
--   operations, Meter/Kept, Meter/Books, Meter/Payments and Meter/Said what they keep, change and
--   send. The injector, the clock and the random channel ids are parameters.
-- - X402/Metered: `actuateMetered` over `addSats`, a payment through the queue and the meter.
-- - Cell/Domains: the authority rails of tools/x402-bridge/cell-domains.ts and tools/domains.ts.
-- - Cell/Capability: the certificates of tools/x402-bridge/capability-cert.ts and the packet of
--   `issueCert` of tools/fleet/fleet.ts. HMAC and the keys of @bsv/sdk are parameters.
-- - Cell/Interlock: the actuators of tools/x402-bridge/interlock.ts, whose payload has the layout of
--   the activate payload; Cell/Actuator/Layout has its bytes and Cell/Actuator/RoundTrip reads them
--   back.
-- - X402/Forward: the payloads of forwarded cells, rules and bursts of
--   tools/x402-bridge/mesh-control.ts; Forward/Route has the bytes of a route, and Forward/Bound is
--   about the cells that carry it, Forward/Slots about the words of its commitments.
-- - X402/Hops: the route /inject-forward-v1 of mesh-control.ts, its counts and its payload; Hops/Named
--   is about the commitments that it makes.
-- - X402/Channel: tools/x402-bridge/channel-anchor.ts, the payment channel on chain. Channel/Books has
--   the steps of a channel, in which hops come in while a settlement waits for the miner,
--   Channel/Late is about such a hop, and Channel/Serialised reads a transaction with
--   Payment/Accepts.
-- - Mnca: `stepTile` and `validateMncaTransition` of tools/x402-bridge/mnca-oracle.ts (Mnca/Oracle);
--   Mnca/Validated is about what the oracle accepts and signs.
--
-- The rate of the meter is a number of thousandths of a satoshi per second and its arithmetic is
-- exact, where the source computes with floating-point numbers. The parser of transactions
-- (@bsv/sdk), base64 and JSON.stringify are parameters.
--
-- Times and numbers are whole numbers; a number that is none is modelled only where the code asks
-- for it (`isCount`). What becomes of a write to the journal is an argument of
-- `ingest`: it is durable, or it fails behind some lines of its text and a piece of the next, which
-- stays in the file. A piece and a record on one line are taken to be no JSON. The walk
-- `while (seen.has(through + 1)) through++` runs on fuel, a round for each seq that is held, and is
-- proved to end by its test; the decimal digits of a 32-bit number have fuel for ten.
--
-- Calls of the meter follow one another: one that goes on behind the time that `actuateMetered` gives
-- it, while the next begins, is not modelled. Whether the writes of its state file succeed is a
-- field of the meter.
--
-- Not modelled: files, serial ports, HTTP, command lines and the lines of the log, which are I/O;
-- `discover`, `load` and the mesh of the light bridge; the scenario of the simulation, which is a test
-- that drives it; the other tools in TypeScript (the rest of tools/fleet and of tools/x402-bridge,
-- and tools/mesh-observer); the components in C and Zig.
pub mod Base
pub mod Cell
pub mod Templog
pub mod Mnca
pub mod X402
