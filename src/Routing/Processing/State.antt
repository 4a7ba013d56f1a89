-- ===== src/Routing/Processing/State.antt =====
-- processing.go and core.go: the node, the peers of one bundle, and the codes of status reports. `now` is
-- the time in nanoseconds since the Unix epoch and `dtn_now` the DTN time in milliseconds; `sends` tells
-- after which effects a transmission succeeds.
use dtn.Prelude.{ℕ, List, ◌∷◌, Option, Bool}
use dtn.Prelude.Int.{ℤ}
use dtn.Bpv7.Endpoint.{EndpointId}
use dtn.Bpv7.Bundle.{Bundle, BundleId}
use dtn.Bpv7.Codec.{Cbor}
use dtn.Bpv7.AdministrativeRecord.{Booleans}
use dtn.Storage.{Store}
use dtn.Routing.Descriptor.{Properties}
use dtn.Routing.Core.{Core, Memory, Algorithm, Effect, World}

-- The reasons of status reports that processing gives, and the positions of their items.
abbrev pub no_information : ℕ
no_information = 0

abbrev pub lifetime_expired : ℕ
lifetime_expired = 1

abbrev pub block_unsupported : ℕ
block_unsupported = 11

abbrev pub hop_limit_exceeded : ℕ
hop_limit_exceeded = 9

abbrev pub received_bundle : ℕ
received_bundle = 0

abbrev pub forwarded_bundle : ℕ
forwarded_bundle = 1

abbrev pub delivered_bundle : ℕ
delivered_bundle = 2

abbrev pub deleted_bundle : ℕ
deleted_bundle = 3

-- Peers and what came of them, while the bundle is sent.
pub record Sending (S : Type 0) : Type 0 where
  pub any_sent : Bool
  pub world : World S
  pub bundle : Bundle

abbrev pub in_store : {S : Type 0} → World S → Store Properties → World S
in_store w s = record w { memory = record w.memory { store = s } }

abbrev pub in_memory : {S : Type 0} → World S → Memory S → World S
in_memory w m = record w { memory = m }

abbrev pub record_effect : {S : Type 0} → World S → Effect → World S
record_effect w e = record w { trace = e ∷ w.trace }

-- A node with what it runs on: the CBOR library and the largest allocation, the disk, time.ParseDuration,
-- the clocks, the parts of the node, its routing algorithm, and the transmissions that succeed.
pub record Node (S : Type 0) : Type 0 where
  pub cbor : Cbor
  pub booleans : Booleans
  pub alloc_limit : ℕ
  pub path : BundleId → ℕ
  pub fails : ℕ → Bool
  pub parse : List ℕ → Option ℤ
  pub now : ℕ
  pub dtn_now : ℕ
  pub core : Core
  pub algorithm : Algorithm S
  pub sends : List Effect → EndpointId → Bundle → Bool
