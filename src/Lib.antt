-- ===== src/Lib.antt =====
-- The Lumencast server kit: the LSDP/1 wire protocol and the scene server of the Python SDK.
--
-- A development over src/lumencast. Functions keep the names of the source.
--
--   Protocol     protocol/: roles, error codes, the sequence tracker, leaf paths, frames, the
--                envelope and the codec (Protocol/Codec: Parse, Decode, Encode)
--   Server       server/: role authority, identities, input constraints, the store, the replay
--                buffer, subscriptions and scenes (Server/Scene, with apply_input in its child),
--                the registry of server.py (Server/Kit) and the session of ws_handler.py
--                (Server/Session: the reader; Server/Session/Writer: reader and writer as
--                interleaved turns; Server/Session/Handshake: the way to a session), and the
--                adapters, over what their requests and connections bring (Server/Adapters)
--   Interop      interop/: the handlers of the control plane (ControlPlane), and the driver that calls
--                them over HTTP (HttpDriver)
--   Conformance  conformance/: the frame matcher, the placeholders, the scenarios and their parser, and
--                the harness: its report (Harness) and the steps of a scenario (Player)
--   Lsml         lsml/hash.py: numbers as ECMAScript writes them (Lsml/Number), the canonical form and
--                the address of a bundle (Lsml/Canonical)
--   Cli          cli/: the structural check of a bundle (Validate), its sealing (Build)
--                and the run of the scenarios against a server (Conformance)
--   Tests        runs on small inputs, and the theorems at inputs that meet their hypotheses
--
-- A scene is a record, and its subscriptions stand on a heap by reference, since a scene, the server
-- and a session share them; the registry refers to scenes in the same way. An asyncio lock is only
-- awaited where it is free, so a method runs as one step of the event loop, and a method is a
-- function from the scene and the heap to both. A call that raises is an Option or a Result. The
-- client of a scene is a step relation (Server/Scene/Delivery.antt), in which adapters, other
-- clients and the client's own reads interleave. A session decodes each received text with the codec
-- and applies inputs to its scene; what it sends is kept as a list.
--
-- No loop takes fuel: every loop runs over a list or a text.
--
-- JSON values are trees (Json.antt); the texts between them and the wire are the record JsonText
-- (Protocol/Envelope.antt), over json.dumps and json.loads. Floats are bit patterns. Their
-- comparison and the conversions of int, float, str and dict that are more than a case split are the
-- record Builtins (Json/Builtins.antt), str.isalpha and str.isdigit the record CharClass
-- (Protocol/LeafPath.antt). What repr, str, int, json.dumps, UTF-8 and sha256 answer to lsml/ are
-- the records Numerals and Digest. Messages of errors are kept by kind, or formatted by a parameter.
--
-- Not modelled: sockets, timers, HTTP and files; the rest of the command line; the reading of YAML.
pub mod Prelude
pub mod Json
pub mod Protocol
pub mod Server
pub mod Interop
pub mod Conformance
pub mod Lsml
pub mod Cli
mod Tests
