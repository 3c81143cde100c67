-- ===== src/Publish/Identified.antt =====
-- Which acknowledgements persistGatewayAck of control-plane/lib/control.ts keeps.
use papi.Common.{
  ℕ, ◌≡◌, refl, String, List, Option, none, some, Bool, true, false, leb, ◌==◌, str_eq, any, find,
  arith, ◌≤◌, ap, sym, ==_iff, str_eq_iff, find-holds, Memᴰ, any_num-Mem,
}
use papi.Common.Result.{Thrown, ok, guard, guard-eq-ok, or_throw-eq-ok, >>-eq-ok}
use papi.Publish.{VersionStatus, draft, published, ConfigVersion, Gateway, is_published}
use papi.Publish.Acks.{
  AckInput, or_else_num, AckRow, ack_row, upsert_ack, is_num, is_text, identity_matches, capable,
  check_ack, persist_gateway_ack,
}

guard_last : (b : Bool) (t : Thrown) → guard b t ≡ ok tt → b ≡ true
guard_last true t e = refl
guard_last false t e = ground arith

is_num-some : (n : ℕ) (o : Option ℕ) → is_num n o ≡ true → o ≡ some n
is_num-some n none h = absurd (ground arith)
is_num-some n (some m) h = ap some (sym ((==_iff n m).0 h))

is_text-some : (s : String) (o : Option String) → is_text s o ≡ true → o ≡ some s
is_text-some s none h = absurd (ground arith)
is_text-some s (some t) h = ap some (sym ((str_eq_iff s t).0 h))

-- A version that an acknowledgement is about: the number is its number, and schema, checksum,
-- credential digest and runtime checksum of the acknowledgement are its own, none of them absent.
pub record IsOf (digest runtime : ConfigVersion → String) (i : AckInput) (v : ConfigVersion)
    : Type 0 where
  pub numbered : v.version ≡ i.version
  pub live : v.status ≡ published
  pub schema : i.schema_version ≡ some v.schema_version
  pub config : i.config_checksum ≡ some v.checksum
  pub credentials : i.credential_digest ≡ some (digest v)
  pub runs : i.runtime_checksum ≡ some (runtime v)

-- A gateway that may acknowledge a schema: it has the second envelope and lists the schema.
pub record IsCapable (i : AckInput) (schema : ℕ) (g : Gateway) : Type 0 where
  pub named : g.gateway_id ≡ i.gateway_id
  pub envelope : 2 ≤ g.envelope_version
  pub lists : Memᴰ schema g.supported_schemas

is_published-eq : (s : VersionStatus) → is_published s ≡ true → s ≡ published
is_published-eq published h = refl
is_published-eq draft h = absurd (ground arith)

matches-IsOf :
    (digest runtime : ConfigVersion → String) (i : AckInput) (v : ConfigVersion)
    → v.version ≡ i.version
    → is_published v.status ≡ true
    → identity_matches digest runtime i v ≡ true
    → IsOf digest runtime i v
unfolding identity_matches
matches-IsOf digest runtime i v numbered live h =
    let schema : is_num v.schema_version i.schema_version ≡ true = ground (arith, h) in
    let config : is_text v.checksum i.config_checksum ≡ true = ground (arith, h) in
    let credentials : is_text (digest v) i.credential_digest ≡ true = ground (arith, h) in
    let runs : is_text (runtime v) i.runtime_checksum ≡ true = ground (arith, h) in
    record {
      numbered = numbered;
      live = is_published-eq v.status live;
      schema = is_num-some v.schema_version i.schema_version schema;
      config = is_text-some v.checksum i.config_checksum config;
      credentials = is_text-some (digest v) i.credential_digest credentials;
      runs = is_text-some (runtime v) i.runtime_checksum runs;
    }

capable-IsCapable :
    (i : AckInput) (schema : ℕ) (gateways : List Gateway) (o : Option Gateway)
    → i.schema_version ≡ some schema
    → find (λ g. str_eq g.gateway_id i.gateway_id) gateways ≡ o
    → capable i o ≡ true
    → (g : Gateway) × (o ≡ some g) × IsCapable i schema g
capable-IsCapable i schema gateways none e found h = absurd (ground arith)
capable-IsCapable i schema gateways (some g) e found h =
    let envelope : leb 2 g.envelope_version ≡ true = ground (arith, h) in
    let lists : any (λ n. n == or_else_num i.schema_version 0) g.supported_schemas ≡ true =
      ground (arith, h) in
    let named = find-holds (λ g. str_eq g.gateway_id i.gateway_id) gateways g found in
    (
      g,
      refl,
      record {
        named = (str_eq_iff g.gateway_id i.gateway_id).0 named;
        envelope = ground (arith, envelope);
        lists = any_num-Mem schema g.supported_schemas (rw e at lists);
      },
    )

-- An acknowledgement with an envelope of 2 or more is kept only if the version that its number finds
-- is published and identical to it in schema, checksum, credential digest and runtime checksum, and
-- if the gateway that its id finds has an envelope of 2 or more and supports the version's schema;
-- what is then stored is the table with its row inserted or brought up to date.
pub persist_gateway_ack_sound :
    (digest runtime : ConfigVersion → String) (i : AckInput) (now envelope : ℕ)
    (gateways : List Gateway) (versions : List ConfigVersion) (acks acks' : List AckRow)
    → i.envelope_version ≡ some envelope
    → 2 ≤ envelope
    → persist_gateway_ack digest runtime i now gateways versions acks ≡ ok acks'
    → ((v : ConfigVersion) × (find (λ v. v.version == i.version) versions ≡ some v)
        × IsOf digest runtime i v
        × ((g : Gateway) × (find (λ g. str_eq g.gateway_id i.gateway_id) gateways ≡ some g)
            × IsCapable i v.schema_version g))
      × (acks' ≡ upsert_ack (ack_row i now) acks)
unfolding persist_gateway_ack check_ack
persist_gateway_ack_sound digest runtime i now envelope gateways versions acks acks' at le e =
    let second : leb 2 (or_else_num i.envelope_version 1) ≡ true = rw at (ground (arith, le)) in
    let (checked, rest) =
      >>-eq-ok (check_ack digest runtime i gateways versions) _
        (rw (second, persist_gateway_ack) at e) in
    let (able, e1) =
      guard-eq-ok (capable i (find (λ g. str_eq g.gateway_id i.gateway_id) gateways)) _ _ checked in
    let (v, found, e2) = or_throw-eq-ok (find (λ v. v.version == i.version) versions) _ _ e1 in
    let (live, e3) = guard-eq-ok (is_published v.status) _ _ e2 in
    let numbered =
      (==_iff v.version i.version).0 (find-holds (λ v. v.version == i.version) versions v found) in
    let same =
      matches-IsOf digest runtime i v numbered live
        (guard_last (identity_matches digest runtime i v) _ e3) in
    ((v, found, same, capable-IsCapable i v.schema_version gateways _ same.schema refl able), cc)
