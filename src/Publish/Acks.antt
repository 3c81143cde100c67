-- ===== src/Publish/Acks.antt =====
-- persistGatewayAck of control-plane/lib/control.ts: which acknowledgements of gateways are kept. The
-- credential digest and the runtime checksum of a version are functions of its row. The rows of
-- gateways and versions are those of Publish, where config_checksum is the checksum, as storeDraft
-- stores it.
use papi.Common.{
  ℕ, String, List, [], ◌∷◌, Option, none, some, Bool, true, false, not, ◌&&◌, if◌then◌else◌, leb,
  ◌==◌, str_eq, any, find,
}
use papi.Common.Result.{Result, ok, api, ◌>>=◌, ◌>>◌, guard, or_throw}
use papi.Publish.{ConfigVersion, Gateway, is_published}

pub record AckInput : Type 0 where
  pub gateway_id : String
  pub version : ℕ
  pub checksum : String
  pub adopted : Bool
  pub error : Option String
  pub schema_version : Option ℕ
  pub config_checksum : Option String
  pub credential_digest : Option String
  pub runtime_checksum : Option String
  pub envelope_version : Option ℕ

abbrev pub or_else_num : Option ℕ → ℕ → ℕ
or_else_num none d = d
or_else_num (some n) d = n

abbrev pub or_else_text : Option String → String → String
or_else_text none d = d
or_else_text (some s) d = s

-- A row of gateway_config_acks.
pub record AckRow : Type 0 where
  pub gateway_id : String
  pub version : ℕ
  pub checksum : String
  pub adopted : Bool
  pub error : Option String
  pub schema_version : ℕ
  pub config_checksum : String
  pub credential_digest : Option String
  pub runtime_checksum : String
  pub envelope_version : ℕ
  pub acknowledged_at : ℕ

unfoldable pub ack_row : AckInput → ℕ → AckRow
ack_row i now = record {
  gateway_id = i.gateway_id;
  version = i.version;
  checksum = i.checksum;
  adopted = i.adopted;
  error = i.error;
  schema_version = or_else_num i.schema_version 1;
  config_checksum = or_else_text i.config_checksum i.checksum;
  credential_digest = i.credential_digest;
  runtime_checksum = or_else_text i.runtime_checksum i.checksum;
  envelope_version = or_else_num i.envelope_version 1;
  acknowledged_at = now;
}

abbrev pub bool_eq : Bool → Bool → Bool
bool_eq true b = b
bool_eq false b = not b

-- The unique index that the upsert names.
unfoldable pub same_ack : AckRow → AckRow → Bool
same_ack a b =
    str_eq a.gateway_id b.gateway_id
    && a.version == b.version
    && bool_eq a.adopted b.adopted
    && a.schema_version == b.schema_version
    && str_eq a.config_checksum b.config_checksum
    && str_eq (or_else_text a.credential_digest "") (or_else_text b.credential_digest "")
    && str_eq a.runtime_checksum b.runtime_checksum
    && a.envelope_version == b.envelope_version

unfoldable pub upsert_ack : AckRow → List AckRow → List AckRow
unfolding same_ack
upsert_ack a [] = a ∷ []
upsert_ack a (b ∷ acks) =
    let rest = upsert_ack a acks in
    if same_ack a b
    then record b { error = a.error; acknowledged_at = a.acknowledged_at } ∷ acks
    else b ∷ rest

abbrev pub is_num : ℕ → Option ℕ → Bool
is_num n none = false
is_num n (some m) = n == m

abbrev pub is_text : String → Option String → Bool
is_text s none = false
is_text s (some t) = str_eq s t

-- The four identities that an acknowledgement must match.
unfoldable pub identity_matches :
    (ConfigVersion → String) → (ConfigVersion → String) → AckInput → ConfigVersion → Bool
identity_matches digest runtime i v =
    is_num v.schema_version i.schema_version
    && is_text v.checksum i.config_checksum
    && is_text (digest v) i.credential_digest
    && is_text (runtime v) i.runtime_checksum

abbrev pub capable : AckInput → Option Gateway → Bool
capable i none = false
capable i (some g) =
    leb 2 g.envelope_version && any (λ n. n == or_else_num i.schema_version 0) g.supported_schemas

-- What is asked of an acknowledgement with the second envelope.
unfoldable pub check_ack :
    (ConfigVersion → String)
    → (ConfigVersion → String)
    → AckInput
    → List Gateway
    → List ConfigVersion
    → Result (Unit {0})
unfolding identity_matches
check_ack digest runtime i gateways versions = do
  guard (capable i (find (λ g. str_eq g.gateway_id i.gateway_id) gateways))
      (api 409 "gateway_capability_mismatch")
  v ← or_throw (find (λ v. v.version == i.version) versions) (api 404 "config_version_not_found")
  guard (is_published v.status) (api 409 "ack_version_not_published")
  guard (identity_matches digest runtime i v) (api 409 "ack_identity_mismatch")

unfoldable pub persist_gateway_ack :
    (ConfigVersion → String)
    → (ConfigVersion → String)
    → AckInput
    → ℕ
    → List Gateway
    → List ConfigVersion
    → List AckRow
    → Result (List AckRow)
unfolding check_ack upsert_ack ack_row
persist_gateway_ack digest runtime i now gateways versions acks =
    (if leb 2 (or_else_num i.envelope_version 1)
      then check_ack digest runtime i gateways versions
      else ok tt)
    >> ok (upsert_ack (ack_row i now) acks)
