-- ===== src/Lib.antt =====
-- memhunt looks for key material in a memory dump: it tries every window of the dump as the key of a
-- cipher or of a MAC, or as the preimage of a digest, and it finds expanded key schedules by their
-- shape. Its front ends are a command line and a server for agents. This library models the core
-- crate, crates/memhunt-core/src, and the front ends, crates/memhunt-cli/src, and proves what the
-- searches find, and what the user and the agent are told of it.
--
-- The parts, and the files that model them:
--   Base       helpers that all parts share: tests, lists, bits, windows of a dump and the sweep over
--              them, UTF-8, results with errors and panics
--   Report     report.rs: Confidence, Mode, Hit, IvCandidate, ScanStats, ScanResult
--   Oracle     oracle.rs: the oracles, which say whether the head of a plaintext is plausible. Plain
--              (utf8, json, known plaintext), Utf16, Binary (gzip, protobuf), Spec (parse_spec);
--              Best and Accepts hold theorems
--   KeySched   keysched.rs: schedule_head_valid and scan_key_schedules. Tables, Aes, Sm4, Scan; Heads,
--              Sm4Heads, Passes and Hits hold theorems
--   Cipher     cipher_adapter.rs: BlockCipher, StreamCipher and the adapters around the crates
--   Engine     engine.rs: Choice (CipherChoice, parse_list), Config (ScanConfig, validate_config),
--              Padding (split_blocks, strip_pkcs7, strip_zero), Counter (CTR and GCM counters,
--              stream_decrypt), Finish (finalize_hit), IvScan (find_iv), Hunt (hunt), StreamHunt
--              (hunt_stream, hunt_stream_cipher) and Scan (scan); Blocks, Keystream, Choice/Lists, Choice/Poly, Config/Valid, IvScan/Found, Hunt/Keys, Hunt/Scanned, Hunt/Sound,
--              StreamHunt/Keys, StreamHunt/StreamCiphers, StreamHunt/Tagged, Scan/Keys, Scan/Total, Scan/Limits and the
--              modules that they use hold theorems
--   HashScan   hash_scan.rs: Algos (HashAlgoSpec, Hasher), Scan (scan_preimages, scan_hmac_keys);
--              Lengths, Sizes, Preimages, HmacKeys, Limits and Total hold theorems
--   Messages   the texts of the errors of the core
--   Host       what the front ends take from the system and from other crates
--   Cli        main.rs: Decode (decode_ciphertext), Print (print_human and the lines of the other
--              hits), Run (run_scan, run_key_schedules, run_hash, from the options to the exit code);
--              Exit, Searches and Scans hold theorems
--   Mcp        mcp.rs: Json (what it takes from serde_json), Schema (tools_schema), Tools (tool_scan,
--              tool_key_schedules, tool_hash_scan, decode_blob), Dispatch (dispatch), Serve
--              (serve_stdio); Total, Replies, Session, Calls, ScanCalls, HashCalls and Capacity hold
--              theorems
--   Main       main.rs: Command and main
--   Examples   runs at concrete inputs
--
-- How they interact: scan checks the configuration and then runs, for each cipher of the list, hunt
-- (ECB and CBC), hunt_stream (CTR and GCM) or hunt_stream_cipher (ChaCha20). Each of these passes over
-- the windows of the dump that are as long as a key, decrypts the head of the ciphertext by an adapter
-- of Cipher, asks best_match of Oracle about it, and reports a Hit. The key-schedule scan and the hash
-- scans share only the sweep over the windows.
-- main runs a command or the server. Both read the dump and the options, call scan,
-- scan_key_schedules, scan_preimages or scan_hmac_keys, and report the hits: a command by lines on
-- stdout and its exit code (0 for a hit, 1 for none, 2 for an error), the server by the reply to a
-- request. An exit code of 101 stands for a panic.
--
-- Conventions:
--   Names are those of the source. A byte is a natural number below 256, a word wraps at 2 ^ w where
--   the source's does, and the counter of tried candidates is kept modulo 2 ^ 64. A String is a list
--   of code points. A Result keeps its error, with one constructor for each message; a panic is a
--   second kind of failure where the code can reach one.
--   The passes over the windows run in parallel in the source and collect in the order of the
--   windows, so that they are one sweep from left to right here.
--   chunks is recursion on rounds, with as many rounds as there are bytes, each of which takes a byte
--   at least. The other loops follow a list or count down.
--   Stdout is the list of the lines that it took. The lines of stdin are a list of outcomes of
--   read_line, so that the loop of the server follows a list. No call of the model depends on what
--   was written before, but for the outcome of a write.
--   to_decimal has one round more than the number, and each divides it by ten.
--
-- Parameters, for code of other packages: the records Crates (the ciphers, the AEADs and hex::encode),
-- Digests (the digests and HMACs), Host (files, hex and base64 decoding, stdout, pools of threads,
-- the lines of JSON) and Json (the values of serde_json, whose documented behaviour IsLawful states),
-- and the version of the package.
--
-- Not modelled: the clocks and the rate computed from them, what goes to stderr, the parsing of the
-- command line by clap, the rendering of results by serde, and threads but for the start of a pool. A
-- range of lengths that is collected is a panic from 2 ^ 60 lengths on, which no vector can hold;
-- memory that runs out below that is not seen. A pool of threads that the server could not start is
-- seen in the call that asked for it, not in the calls behind it, and the pool that rayon starts by
-- itself is taken to start. A write of a line is one step,
-- so that a line that stdout takes in part is not seen.
pub mod Base
pub mod Report
pub mod Oracle
pub mod KeySched
pub mod Cipher
pub mod Engine
pub mod HashScan
pub mod Messages
pub mod Host
pub mod Cli
pub mod Mcp
pub mod Main
pub mod Examples
