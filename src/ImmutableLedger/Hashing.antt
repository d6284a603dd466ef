-- ===== src/ImmutableLedger/Hashing.antt =====
-- services/immutable-ledger/chain/hash_chain.py. SHA-256, `json.dumps` with sorted keys, and the
-- texts of UUIDs and of times are the fields of a parameter.
use Prim.Native.String.{◌++◌}
use forensic_chain.Common.{ℕ, String, Option, none, some, List, if◌then◌else◌, is_truthy}
use forensic_chain.Python.{Attempt}

-- `raw_payload`: the keys with their texts.
abbrev pub Payload : Type 0
Payload = List (String × String)

pub record Externals : Type 0 where
  -- `hashlib.sha256(s.encode('utf-8')).hexdigest()`
  pub sha256 : String → String
  -- `json.dumps(raw_payload, sort_keys=True)`
  pub dumps : Payload → String
  -- `uuid.UUID(s)`
  pub parse_uuid : String → Attempt ℕ
  -- `str(u)` of a UUID
  pub show_uuid : ℕ → String
  -- `now.isoformat()`
  pub iso_format : ℕ → String

module _ (x : Externals) where
  unfoldable pub compute_payload_hash : Payload → String
  compute_payload_hash raw_payload = x.sha256 (x.dumps raw_payload)

  -- What is hashed for a record: `if previous_record_hash` fails on None and on "".
  unfoldable pub data_to_hash : String → Option String → String
  data_to_hash payload_hash none = payload_hash ++ "GENESIS"
  data_to_hash payload_hash (some previous) =
      if is_truthy previous then payload_hash ++ previous else payload_hash ++ "GENESIS"

  unfoldable pub compute_record_hash : String → Option String → String
  compute_record_hash payload_hash previous = x.sha256 (data_to_hash payload_hash previous)

  unfoldable pub create_hash_chain_entry : Payload → Option String → String × String
  create_hash_chain_entry raw_payload previous =
      let payload_hash = compute_payload_hash raw_payload in
      (payload_hash, compute_record_hash payload_hash previous)
