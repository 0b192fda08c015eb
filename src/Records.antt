-- ===== src/Records.antt =====
-- Errors, records and iterator results, as far as the routers look into them: error of Go, with
-- errors.Join, and types.Record, types.PeerRecord, types.BitswapRecord and iter.Result of boxo.
use someguy.Prelude.{Option, none, some, List, []}
use someguy.Prelude.Bytes.{Bytes}

-- The errors that the program tells apart, and every other error with its text.
pub data GoError : Type 0 where
  not_found not_supported canceled deadline_exceeded no_value_available : GoError
  failure : Bytes → GoError
  joined : GoError → GoError → GoError

-- errors.Join drops nil errors.
unfoldable pub join_errors : Option GoError → Option GoError → Option GoError
join_errors none e = e
join_errors (some d) none = some d
join_errors (some d) (some e) = some (joined d e)

pub data Schema : Type 0 where
  schema_peer schema_bitswap schema_other : Schema

pub record PeerRecord (A : Type 0) : Type 0 where
  pub schema : Schema
  pub id : Option Bytes
  pub addrs : List A
  pub protocols : List Bytes

pub record BitswapRecord (A : Type 0) : Type 0 where
  pub schema : Schema
  pub id : Option Bytes
  pub addrs : List A
  pub protocol : Bytes

-- A types.Record by its dynamic type; a record of another type may name any schema.
pub data Record (A : Type 0) : Type 0 where
  peer_record : PeerRecord A → Record A
  bitswap_record : BitswapRecord A → Record A
  other_record : Schema → Bytes → Record A

abbrev pub get_schema : {A : Type 0} → Record A → Schema
get_schema (peer_record r) = r.schema
get_schema (bitswap_record r) = r.schema
get_schema (other_record s b) = s

-- iter.Result; val is none for nil.
pub record Result (T : Type 0) : Type 0 where
  pub val : Option T
  pub err : Option GoError

-- The addresses that a result carries.
abbrev pub record_addrs : {A : Type 0} → Record A → List A
record_addrs (peer_record r) = r.addrs
record_addrs (bitswap_record r) = r.addrs
record_addrs (other_record s b) = []

abbrev pub result_addrs : {A : Type 0} → Result (Record A) → List A
result_addrs v = elim v.val [ none ↦ [] | some r ↦ record_addrs r ]

abbrev pub peer_addrs : {A : Type 0} → Result (PeerRecord A) → List A
peer_addrs v = elim v.val [ none ↦ [] | some r ↦ r.addrs ]
