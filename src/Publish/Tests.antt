-- ===== src/Publish/Tests.antt =====
-- A publication of a concrete configuration.
use papi.Common.{
  String, All, inl, ◌+◌, str_eq, arith, some, none, find, ◌==◌, ℕ, ◌≤◌, ◌≡◌, refl, [], ◌∷◌, true,
}
use papi.Common.Result.{ok}
use papi.Publish.{
  VersionStatus, draft, published, ConfigVersion, Gateway, Registry, max_published, last_draft,
  requires_schema_v2, ready, check_gateways, count_active, assert_schema_v2_publishable,
  draft_or_new, publish_row, publish_latest,
}
use papi.Publish.Acks.{
  AckInput, ack_row, upsert_ack, identity_matches, check_ack, persist_gateway_ack,
}
use papi.Publish.Identified.{IsOf, IsCapable, persist_gateway_ack_sound}
use papi.Publish.Order.{IsUpgraded, recent_count, publish_latest-ready}

abbrev config : ℕ → VersionStatus → ConfigVersion
config version status = record {
  version = version;
  status = status;
  checksum = "sum";
  schema_version = 2;
  accounts = [];
}

abbrev registry : Registry
registry = record {
  versions = config 1 published ∷ config 2 draft ∷ [];
  next_version = 3;
  gateways =
      record {
        gateway_id = "gw";
        supported_schemas = 1 ∷ 2 ∷ [];
        envelope_version = 2;
        last_seen_at = 990;
      }
      ∷ [];
  acks =
      record { gateway_id = "gw"; adopted = true; envelope_version = 2; schema_version = 2 } ∷ [];
}

abbrev after : Registry
after = record registry { versions = config 1 published ∷ config 2 published ∷ [] }

publishes : publish_latest 1 30 1000 (config 0 draft) registry ≡ ok (config 2 draft, after)
unfolding publish_latest publish_row max_published last_draft requires_schema_v2 draft_or_new
    assert_schema_v2_publishable check_gateways count_active ready
publishes = refl

publish_latest-ready_example :
    (1 ≤ recent_count 1000 30 registry.gateways)
    × All (λ g. 1000 ≤ g.last_seen_at + 30 → IsUpgraded registry.acks g) registry.gateways
publish_latest-ready_example =
    publish_latest-ready 1 30 1000 (config 0 draft) registry (config 2 draft) after publishes
      (inl (omega arith))

abbrev sums : ConfigVersion → String
sums v = v.checksum

abbrev ack : AckInput
ack = record {
  gateway_id = "gw";
  version = 1;
  checksum = "sum";
  adopted = true;
  error = none;
  schema_version = some 2;
  config_checksum = some "sum";
  credential_digest = some "sum";
  runtime_checksum = some "sum";
  envelope_version = some 2;
}

kept :
    persist_gateway_ack sums sums ack 7 registry.gateways registry.versions []
    ≡ ok (ack_row ack 7 ∷ [])
unfolding persist_gateway_ack check_ack identity_matches upsert_ack
kept = refl

persist_gateway_ack_sound_example :
    ((v : ConfigVersion) × (find (λ v. v.version == ack.version) registry.versions ≡ some v)
      × IsOf sums sums ack v
      × ((g : Gateway) × (find (λ g. str_eq g.gateway_id ack.gateway_id) registry.gateways ≡ some g)
          × IsCapable ack v.schema_version g))
    × (ack_row ack 7 ∷ [] ≡ upsert_ack (ack_row ack 7) [])
persist_gateway_ack_sound_example =
    persist_gateway_ack_sound sums sums ack 7 2 registry.gateways registry.versions []
      (ack_row ack 7 ∷ []) refl (omega arith) kept
