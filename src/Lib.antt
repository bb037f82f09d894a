-- ===== src/Lib.antt =====
-- Verification of the Willow Python SDK: the code by which a client trusts what a node answers, and
-- the bookkeeping of the nonces that its writes take.
--
-- A node answers a read with a GroveDB proof. src/willow/grovedb decodes its envelope (bincode.py) into
-- layers, decodes each layer's merk proof into operations (merk_decoder.py, with varint.py), runs
-- these on a stack machine (executor.py) that builds a tree (tree.py) with hashes (hash.py), and reads
-- the values of the tree as elements (element.py); verifier.py does so for each layer, and checks the
-- hash of each layer against the layer above. src/willow/completeness.py recomputes the commitment
-- of a block's matched logs. src/willow/nonces.py hands out the nonces of transactions, and
-- src/willow/signed_messages.py writes the texts that transactions are signed over.
--
-- The files:
--   Prelude        names of the library, lists and numbers, dictionaries, bytes of an integer, the
--                  laws of `&`, `|`, `^`, and `Result` for code that may raise
--   Varint         src/willow/grovedb/varint.py. The four decoders are one loop, with a limit on the
--                  shift
--   Hash           src/willow/grovedb/hash.py, with BLAKE3 as the parameter `blake3`
--   Cursor         the state and the shared reads of `BincodeReader` and `MerkDecoder`
--   Bincode        src/willow/grovedb/bincode.py. Bincode/Encode holds the format as an encoder
--   Element        src/willow/grovedb/element.py. Element/Encode holds the format as an encoder
--   Merk           src/willow/grovedb/types.py (nodes, operations), merk_decoder.py, tree.py and
--                  executor.py, as Merk/Nodes, Merk/Decoder, Merk/Tree and Merk/Executor.
--                  Merk/Shape has the trees that proofs stand for, Merk/State the state that a root
--                  hash stands for: it is the specification, and no code of the SDK
--   Verifier       src/willow/grovedb/verifier.py: the path check and the binding of leaves in
--                  Verifier, the recursion over the layers in Verifier/Recursion, the items at a path
--                  in Verifier/Items, `quick_verify` in Verifier/Quick. Verifier/Recursion/Sound,
--                  Verifier/Items/Sound and Verifier/Quick/Sound hold what these return against
--                  the state of Merk/State
--   Messages       src/willow/signed_messages.py, with SHA-256 as the parameter `sha256`: the messages
--                  of data, file and node removal writes in Messages, of grants, rotations and
--                  revocations in Messages/Grants. Messages/Writes has what a request writes, and
--                  Messages/Print its lines, as the documentation of the functions lists them
--   LightClient    src/willow/light_client/verifier.py: the proof checks, which call Verifier, and the
--                  header checks in LightClient/Headers
--   Nonces         src/willow/nonces.py: the tracker is in Nonces, the record of one DID in
--                  Nonces/Accounts, `parse_nonce_state` in Nonces/State
--   Completeness   src/willow/completeness.py, with keccak-256 as the parameter `keccak`.
--                  Completeness/Encoding has the layout of what is hashed
--   Tests          runs on small inputs
--
-- Conventions. A byte string is a list of numbers, and text is the list of its character codes.
-- Code that raises returns `err` with a name for the exception. A Python `int` that is never
-- negative is a native number, another is an `ℤ`. A Python `dict` is an association list with one
-- entry for a key. Time is a number of nanoseconds in the nonces, and of microseconds in the header
-- checks. Of `blake3`, `keccak` and `sha256` nothing is assumed but, where a statement says so,
-- that a hash is 32 bytes long or is bytes: where the code relies on two inputs having two hashes,
-- the statement has a collision as its other case.
--
-- Bounds. The loop of the varint encoder is recursion on `<`. A layer is decoded by recursion on how
-- many levels are left below `MAX_LAYER_DEPTH`; the verifier recurs on the layers themselves. The loop
-- over the operations of a merk proof has one unit of fuel more than the proof has bytes, and each
-- operation reads a byte at least.
--
-- Not modelled: the calls over HTTP, JSON-RPC and websockets (client.py, consensus, the rest of
-- light_client, subscriptions.py, files.py, indexers.py, erc8004), the JSON side of proof.py, signatures
-- and encryption (auth.py, privacy.py), the registrations in signed_messages.py (RegisterSubgrove with
-- its bincode form, RegisterDid with its JSON), application manifests and computed fields (manifest.py,
-- computed_fields.py), Ethereum state proofs (eth_state.py), the texts of exceptions and the reasons
-- that grovedb/verifier.py words for unbound keys, the classification of refusals by their text
-- (nonces.py, `refusal_outcome`), and the command line.
pub mod Prelude
pub mod Varint
pub mod Hash
pub mod Cursor
pub mod Bincode
pub mod Element
pub mod Merk
pub mod Verifier
pub mod Messages
pub mod LightClient
pub mod Nonces
pub mod Completeness
pub mod Tests
