-- ===== src/Mcp/Schema.antt =====
-- The literal of `tools_schema`, and the constants of mcp.rs.
use memhunt.Base.{Text, codes, List, [], ◌∷◌, map}
use memhunt.Mcp.Json.{Json}

abbrev pub server_name : Text
server_name = codes "memhunt"

abbrev pub protocol_version : Text
protocol_version = codes "2025-06-18"

module _ (json : Json) where
  -- The description of a parameter, and of a tool: its name, what it does, its parameters and those
  -- of them that must be given.
  abbrev described : Text → Text → json.Value
  described type description =
      json.object
        ((codes "type", json.string type) ∷ (codes "description", json.string description) ∷ [])

  abbrev tool_entry : Text → Text → List (Text × json.Value) → List Text → json.Value
  tool_entry name description properties required = json.object (
      (codes "name", json.string name)
      ∷ (codes "description", json.string description)
      ∷ (
        codes "inputSchema",
        json.object (
            (codes "type", json.string (codes "object"))
            ∷ (codes "properties", json.object properties)
            ∷ (codes "required", json.array (map json.string required))
            ∷ []),
      )
      ∷ [])

  -- The entry of `memhunt_scan`.
  unfoldable pub scan_schema : json.Value
  scan_schema =
      tool_entry (codes "memhunt_scan")
        (codes
          "Hunt block-cipher keys in a memory dump given a known ciphertext. Supports ECB/CBC for AES, DES, 3DES, and SM4, plus AES-CTR/GCM with an explicit nonce. GCM with a tag is verified deterministically without an oracle.")
        ((codes "dump_path", described (codes "string") (codes "Path to the raw memory dump."))
          ∷ (
            codes "ciphertext",
            described (codes "string") (codes "Target ciphertext (hex or base64)."),
          )
          ∷ (
            codes "ciphers",
            described (codes "string") (
                codes
                  "Comma list: aes-128, aes-192, aes-256, des, 3des, sm4, aes (=all sizes), all, or AES tokens with -ctr/-gcm suffix. Default aes."),
          )
          ∷ (
            codes "oracles",
            described (codes "string") (
                codes
                  "Comma list: utf8, json, gzip, protobuf, known:<fragment>. Default utf8,json."),
          )
          ∷ (
            codes "max_hits",
            described (codes "integer") (codes "Stop after N hits (0 = unlimited)."),
          )
          ∷ (
            codes "iv",
            described (codes "string")
                (codes "Fixed IV (hex) for CBC; enables single-block ciphertext scans."),
          )
          ∷ (
            codes "nonce",
            described (codes "string") (
                codes
                  "CTR 16-byte initial counter block or GCM 12-byte nonce (hex). Required for CTR/GCM."),
          )
          ∷ (
            codes "tag",
            described (codes "string") (
                codes
                  "GCM 16-byte authentication tag (hex). Enables deterministic key verification."),
          )
          ∷ (
            codes "aad",
            described (codes "string") (codes "GCM additional authenticated data (hex)."),
          )
          ∷ (
            codes "threads",
            described (codes "integer") (codes "Worker threads (default all cores)."),
          )
          ∷ [])
        (codes "dump_path" ∷ codes "ciphertext" ∷ [])

  -- The entry of `memhunt_key_schedules`.
  unfoldable pub key_schedules_schema : json.Value
  key_schedules_schema =
      tool_entry (codes "memhunt_key_schedules")
        (codes
          "Detect expanded AES key schedules in a memory dump with NO ciphertext required. Finds windows whose first words expand forward (FIPS-197 key schedule) to the words that follow them — e.g. an OpenSSL AES_KEY struct resident in memory.")
        ((codes "dump_path", json.object ((codes "type", json.string (codes "string")) ∷ [])) ∷ [])
        (codes "dump_path" ∷ [])

  -- The entry of `memhunt_hash_scan`.
  unfoldable pub hash_scan_schema : json.Value
  hash_scan_schema =
      tool_entry (codes "memhunt_hash_scan")
        (codes
          "Hunt hashes in a memory dump: (a) preimage search — find windows whose md5/sha1/sha256/sm3 digest equals a known target; (b) HMAC-key search — find windows that, as HMAC keys over a known message, produce a known MAC.")
        ((codes "dump_path", json.object ((codes "type", json.string (codes "string")) ∷ []))
          ∷ (
            codes "mode",
            json.object (
                (codes "type", json.string (codes "string"))
                ∷ (
                  codes "enum",
                  json.array (json.string (codes "preimage") ∷ json.string (codes "hmac_key") ∷ []),
                )
                ∷ (codes "description", json.string (codes "preimage or hmac_key."))
                ∷ []),
          )
          ∷ (codes "digest", described (codes "string") (codes "Target digest/MAC (hex)."))
          ∷ (
            codes "algos",
            described (codes "string") (
                codes
                  "Comma list: md5, sha1, sha256, sm3. Default md5,sha1,sha256,sm3 (preimage) / required for hmac_key."),
          )
          ∷ (
            codes "message",
            described (codes "string") (codes "Known message (utf8) for hmac_key mode."),
          )
          ∷ (
            codes "min_len",
            json.object (
                (codes "type", json.string (codes "integer"))
                ∷ (codes "minimum", json.number 1)
                ∷ []),
          )
          ∷ (
            codes "max_len",
            json.object (
                (codes "type", json.string (codes "integer"))
                ∷ (codes "minimum", json.number 1)
                ∷ []),
          )
          ∷ [])
        (codes "dump_path" ∷ codes "mode" ∷ codes "digest" ∷ [])

  abbrev pub tool_schemas : List json.Value
  tool_schemas = scan_schema ∷ key_schedules_schema ∷ hash_scan_schema ∷ []

  unfoldable pub tools_schema : json.Value
  tools_schema = json.array tool_schemas
