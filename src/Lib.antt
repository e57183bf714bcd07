-- ===== src/Lib.antt =====
-- CustomModel 0.3.7: what the server and the client of the asset protocol do.
--
-- The program distributes models and textures to the clients of a game server. A client introduces
-- itself with a `Hello`; the server answers with `Welcome` or `Reject`, and then sends the manifest of
-- its assets as a stream of messages. The client checks and collects the manifest, fetches the files,
-- and reports each one as ready or failed. Every message is one packet of the wire protocol, carried
-- behind one byte in a frame of the game's own transport.
--
-- The parts and their files:
--   Version       shared/src/version.cpp: the table of game builds and its two lookups.
--   Assets        shared/src/assets.cpp: the checks on names, URLs and descriptions. Text has the text
--                 functions of the C++ library that the checks use; Sha256 is `ParseSha256Hex` of
--                 shared/src/sha256.cpp, the hexadecimal digests of the configuration.
--   Pe            shared/src/pe_image.cpp: the headers of an executable image.
--   Protocol      shared/src/protocol.cpp: Types and Checks (the messages, their limits and checks),
--                 Writer and Reader (`ByteWriter`, `ByteReader`), Encode (`EncodePayload`,
--                 `EncodePacket`) and Decode (`DecodePayload`, `DecodePacket`). Layout is the wire
--                 layout written down apart from the code, from docs/protocol.md; Stream is the order
--                 of the messages of a manifest.
--   Frame         shared/src/transport_frame.cpp: the carrier. Carried puts packet and frame together.
--   Server        Registry (server/src/asset_registry.cpp), Tracker (player_capabilities.cpp),
--                 Endpoint (handshake_endpoint.cpp), Publication (asset_publication.cpp),
--                 ManifestConfig (manifest_config.cpp) and Component
--                 (server/openmp/component.cpp), which drives the others.
--   Client        Handshake (client/src/protocol/handshake.cpp), Receiver (`ManifestReceiver` of
--                 client/src/assets/manager.cpp), Files (the file system that the client uses, and
--                 `Sha256File`), Cache (client/src/assets/cache.cpp), Manager (`ClientAssetManager`
--                 of client/src/assets/manager.cpp; Worker is its thread), Fetch
--                 (client/src/assets/winhttp_fetch.cpp), RakNet
--                 (client/src/samp/raknet_transport.cpp) and Runtime (client/src/core/runtime.cpp),
--                 which joins transport, handshake and manager.
--   System        the manifest's way through registry, publication, frames and receiver.
--   Base          the shared helpers: tests, lists, results, maps, sets and facts on bit operations.
--   Runs          concrete data, tests, and the theorems applied to them.
--
-- How the code is modelled:
--   A class is a record of its members, and an operation takes the state to the state after it and
--   the result. A message variant is a data type. An enumeration with an underlying integer has a
--   further constructor for the integers that no enumerator names. A `ByteView` is a null pointer
--   with a size or a list of bytes. An unordered map is a list of entries with distinct keys, a set a
--   list of distinct elements; where the code iterates over a map, it sorts the result. Integers are
--   natural numbers, with the wrap-around of their width written out wherever an operation could
--   leave it; that a field is within its C++ type is a hypothesis of the theorems (`IsTyped`,
--   `IsAsset`, `HasVersion`). `std::size_t` is the 32-bit one of the client's build.
--   Every loop is a recursion on the list it runs over. The scan for path segments moves an offset and
--   recurs on fuel, one more than the length of the name; every step leaves a shorter rest.
--
--   The file system is a list of paths with their files and directories, and a script that tells
--   which of the calls to come fail for a cause outside that state; the theorems hold for every
--   script. The asset manager runs on two threads: `WorkerLoop` and `Process` are cut into parts
--   where they take the mutex or touch the disk, `run_stage` runs one part, and `Step` is one part of
--   the worker, an exception in it, or one operation of the main thread. `Reach` counts the resets,
--   since the session's number has 64 bits. No other program changes the cache meanwhile. The loop
--   of a transfer recurs on fuel, one round more than there are declared bytes, which is enough.
--   The client's transport loops at most 64 times in a call, as the code does.
--
-- Parameters: `ServerTransport::Send` belongs to the host. It is an argument of the endpoint, of the
-- publication and of the component, and answers from the frames handed to it before, the player and
-- the frame. The hash function and its hexadecimal form are arguments of the cache and of the
-- manager; the transfer is one of the manager; the calls of WinHTTP are a record of functions on a
-- state of the system, an argument of the transfer. RakNet and the callbacks of the transport are
-- records of functions on a state of the host.
--
-- Not modelled: the loading of the component; the start of the client's runtime, its log and its
-- hooks into the game, with the search for RakNet in its memory; the texts of logs and diagnostics;
-- failures of allocation inside the mutex of the asset manager; and the third-party hash.
pub mod Base
pub mod Version
pub mod Assets
pub mod Protocol
pub mod Frame
pub mod Server
pub mod Client
pub mod Pe
pub mod System
pub mod Runs
