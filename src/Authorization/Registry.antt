-- ===== src/Authorization/Registry.antt =====
-- app/authorization/registry.py: the tables of the registry and its operations. A table is the list
-- of its rows by primary key. A statement that fails leaves the tables, and the transaction around
-- an operation is rolled back when it raises: an operation returns the new tables or an error. The
-- payload of a row is the authorization whose JSON it holds: what is read back from it is `reread`.
use webull_aitrader.Shared.{
  Bool, not, ◌||◌, ◌&&◌, Option, none, some, Text, strip, text_eq, is_empty, is_some, Result, ok,
  err, ◌>>=◌, ◌>>◌, raise_if, Datetime, lacks_tzinfo, Dict, lookup, insert, if◌then◌else◌,
}
use webull_aitrader.Authorization.{
  ExecutionIntent, LiveExecutionAuthorization, AuthError, naive_timestamp, id_exists, id_unknown,
  substitution, revoked_evidence, superseded_evidence, is_revoked, is_consumed, raced,
  approval_required, payload_malformed, Digests, authorization_terms, terms_eq,
  validate_for_consumption,
}

-- A row of `authorizations`.
pub record Row : Type 0 where
  pub payload : LiveExecutionAuthorization
  pub issued_at : Datetime
  pub consumed_at : Option Datetime
  pub revoked_at : Option Datetime

-- A row of `evidence_state`.
pub record EvidenceRow : Type 0 where
  pub revoked_at : Option Datetime
  pub superseded_at : Option Datetime

pub record Registry : Type 0 where
  pub authorizations : Dict Row
  pub evidence_state : Dict EvidenceRow

pub data EvidenceColumn : Type 0 where
  revoked_column superseded_column : EvidenceColumn

-- `==` of two authorizations
unfoldable pub authorization_eq :
    Digests → LiveExecutionAuthorization → LiveExecutionAuthorization → Bool
authorization_eq digests a b =
    text_eq a.authorization_id b.authorization_id
    && text_eq a.intent_id b.intent_id
    && text_eq a.intent_digest b.intent_digest
    && text_eq a.risk_approval_id b.risk_approval_id
    && text_eq a.risk_approval_digest b.risk_approval_digest
    && text_eq a.compliance_approval_id b.compliance_approval_id
    && text_eq a.compliance_approval_digest b.compliance_approval_digest
    && terms_eq (authorization_terms a) (authorization_terms b)
    && digests.same_time a.issued_at b.issued_at
    && digests.same_time a.expires_at b.expires_at
    && (if a.single_use then b.single_use else not b.single_use)

abbrev pub row_of : Option Row → Result AuthError Row
row_of none = err id_unknown
row_of (some row) = ok row

-- `_known`, with the row
abbrev pub known_row : Registry → Text → Result AuthError Row
known_row r id = row_of (lookup id r.authorizations)

-- `_dt`
abbrev pub time_of : Option Datetime → Result AuthError Datetime
time_of none = err payload_malformed
time_of (some t) = ok t

-- `authorization_from_json(authorization_to_json(a))`: identifiers, numbers and flags come back as they
-- were.
unfoldable pub reread :
    Digests → LiveExecutionAuthorization → Result AuthError LiveExecutionAuthorization
reread digests a = do
  issued_at ← time_of (digests.reread_time a.issued_at)
  expires_at ← time_of (digests.reread_time a.expires_at)
  ok (record a { issued_at = issued_at; expires_at = expires_at })

-- `timestamp or known.issued_at`
abbrev pub or_issued : Option Datetime → LiveExecutionAuthorization → Datetime
or_issued none known = known.issued_at
or_issued (some timestamp) known = timestamp

-- The row that the insert of `_set_evidence` leaves, after one that is there or not.
abbrev pub set_column : EvidenceColumn → Datetime → Option EvidenceRow → EvidenceRow
set_column revoked_column timestamp none = record {
  revoked_at = some timestamp;
  superseded_at = none;
}
set_column superseded_column timestamp none = record {
  revoked_at = none;
  superseded_at = some timestamp;
}
set_column revoked_column timestamp (some row) = record row { revoked_at = some timestamp }
set_column superseded_column timestamp (some row) = record row { superseded_at = some timestamp }

-- `_register_issued`
unfoldable pub register_issued : Registry → LiveExecutionAuthorization → Result AuthError Registry
register_issued r a = do
  raise_if (is_some (lookup a.authorization_id r.authorizations)) id_exists
  ok (record r {
    authorizations =
        insert a.authorization_id
          (record { payload = a; issued_at = a.issued_at; consumed_at = none; revoked_at = none })
          r.authorizations;
  })

-- `revoke`, at a time that is given or else that of the issue
unfoldable pub revoke : Digests → Registry → Text → Option Datetime → Result AuthError Registry
revoke digests r id timestamp = do
  row ← known_row r id
  known ← reread digests row.payload
  raise_if (lacks_tzinfo (or_issued timestamp known).zone) naive_timestamp
  ok (record r {
    authorizations =
        insert id (record row { revoked_at = some (or_issued timestamp known) }) r.authorizations;
  })

-- `_set_evidence`, at the time given or else the clock's
unfoldable pub set_evidence :
    Registry → Text → EvidenceColumn → Datetime → Result AuthError Registry
set_evidence r id column timestamp = do
  raise_if (is_empty (strip id)) approval_required
  raise_if (lacks_tzinfo timestamp.zone) naive_timestamp
  ok (record r {
    evidence_state =
        insert id (set_column column timestamp (lookup id r.evidence_state)) r.evidence_state;
  })

abbrev pub withdrawn : Option EvidenceRow → Result AuthError (Unit {0})
withdrawn none = ok tt
withdrawn (some row) = do
  raise_if (is_some row.revoked_at) revoked_evidence
  raise_if (is_some row.superseded_at) superseded_evidence

-- `_validate_evidence_state`
unfoldable pub validate_evidence_state :
    Registry → LiveExecutionAuthorization → Result AuthError (Unit {0})
validate_evidence_state r a = do
  withdrawn (lookup a.risk_approval_id r.evidence_state)
  withdrawn (lookup a.compliance_approval_id r.evidence_state)

-- The update of a single-use authorization, whose row count must be one.
unfoldable pub mark_consumed :
    Registry → LiveExecutionAuthorization → Row → Datetime → Result AuthError Registry
mark_consumed r a row now = do
  raise_if (is_some row.consumed_at || is_some row.revoked_at) raced
  ok (record r {
    authorizations =
        insert a.authorization_id (record row { consumed_at = some now }) r.authorizations;
  })

-- `validate_known`
unfoldable pub validate_known :
    Digests
    → Registry
    → ExecutionIntent
    → LiveExecutionAuthorization
    → Datetime
    → Result AuthError (Unit {0})
validate_known digests r i a now = do
  row ← known_row r a.authorization_id
  known ← reread digests row.payload
  raise_if (not (authorization_eq digests known a)) substitution
  raise_if (is_some row.revoked_at) is_revoked
  raise_if (a.single_use && is_some row.consumed_at) is_consumed
  validate_evidence_state r a
  validate_for_consumption digests i a now

-- `consume`
unfoldable pub consume :
    Digests
    → Registry
    → ExecutionIntent
    → LiveExecutionAuthorization
    → Datetime
    → Result AuthError Registry
consume digests r i a now = do
  validate_for_consumption digests i a now
  row ← known_row r a.authorization_id
  known ← reread digests row.payload
  raise_if (not (authorization_eq digests known a)) substitution
  validate_evidence_state r a
  raise_if (is_some row.revoked_at) is_revoked
  raise_if (a.single_use && is_some row.consumed_at) is_consumed
  if a.single_use then mark_consumed r a row now else ok r
