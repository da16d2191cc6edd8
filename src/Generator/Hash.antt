-- ===== src/Generator/Hash.antt =====
-- `stable_event_hash`: FNV-1a over the serialized events, each behind its size.
use Prim.Native.Nat.{bit_xor}
use trace_forge.Common.{
  ℕ, zero, suc, ◌*◌, ◌/◌, ◌%◌, Option, none, some, List, [], ◌∷◌, length, Bytes, u64_mod,
}
use trace_forge.Telemetry.Event.{TelemetryEvent, Protobuf}

unfoldable pub hash_byte : ℕ → ℕ → ℕ
hash_byte hash byte = bit_xor hash byte * 1_099_511_628_211 % u64_mod

unfoldable pub hash_size : ℕ → ℕ → ℕ → ℕ
hash_size zero hash remaining_size = hash
hash_size (suc bytes) hash remaining_size =
    hash_size bytes (hash_byte hash (remaining_size % 256)) (remaining_size / 256)

unfoldable pub hash_encoded : ℕ → Bytes → ℕ
hash_encoded hash [] = hash
hash_encoded hash (value ∷ encoded) = hash_encoded (hash_byte hash value) encoded

-- The loop over the events; `none` where it throws.
unfoldable pub hash_events : Protobuf → ℕ → List TelemetryEvent → Option ℕ
hash_events p hash [] = some hash
hash_events p hash (event ∷ events) = elim (p.serialize event) [
  | none ↦ none
  | some encoded ↦ hash_events p (hash_encoded (hash_size 8 hash (length encoded)) encoded) events
]

unfoldable pub stable_event_hash : Protobuf → List TelemetryEvent → Option ℕ
stable_event_hash p events = hash_events p 14_695_981_039_346_656_037 events
