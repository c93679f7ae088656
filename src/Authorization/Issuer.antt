-- ===== src/Authorization/Issuer.antt =====
-- app/authorization/issuer.py: `issue_authorization`.
use webull_aitrader.Shared.{
  Bool, ◌||◌, Text, strip, is_empty, ltb, leb, Result, ok, ◌>>=◌, ◌>>◌, raise_if, Datetime,
  lacks_tzinfo,
}
use webull_aitrader.Authorization.{
  ExecutionIntent, ApprovalEvidence, LiveExecutionAuthorization, AuthError, id_required, bad_times,
  outlives_evidence, Digests, validate_intent, validate_evidence,
}
use webull_aitrader.Authorization.Registry.{Registry, register_issued}

-- The keyword arguments of an issue.
pub record IssueArgs : Type 0 where
  pub risk_approval : ApprovalEvidence
  pub compliance_approval : ApprovalEvidence
  pub authorization_id : Text
  pub issued_at : Datetime
  pub expires_at : Datetime
  pub single_use : Bool

module _ (digests : Digests) where
  -- The authorization that is put together.
  abbrev pub authorization_for : ExecutionIntent → IssueArgs → LiveExecutionAuthorization
  authorization_for i g = record {
    authorization_id = g.authorization_id;
    intent_id = i.intent_id;
    intent_digest = digests.of_intent i;
    risk_approval_id = g.risk_approval.approval_id;
    risk_approval_digest = digests.of_evidence g.risk_approval;
    compliance_approval_id = g.compliance_approval.approval_id;
    compliance_approval_digest = digests.of_evidence g.compliance_approval;
    account_id = i.account_id;
    symbol = i.symbol;
    side = i.side;
    order_type = i.order_type;
    quantity = i.quantity;
    limit_price = i.limit_price;
    stop_price = i.stop_price;
    time_in_force = i.time_in_force;
    issued_at = g.issued_at;
    expires_at = g.expires_at;
    single_use = g.single_use;
  }

  -- `issue_authorization`
  unfoldable pub issue_authorization :
      ExecutionIntent
      → IssueArgs
      → Registry
      → Result AuthError (LiveExecutionAuthorization × Registry)
  issue_authorization i g r = do
    validate_intent i
    raise_if (is_empty (strip g.authorization_id)) id_required
    validate_evidence digests i g.risk_approval g.issued_at
    validate_evidence digests i g.compliance_approval g.issued_at
    raise_if
        (lacks_tzinfo g.expires_at.zone
          || lacks_tzinfo g.issued_at.zone
          || leb g.expires_at.instant g.issued_at.instant)
        bad_times
    raise_if
        (ltb g.risk_approval.expires_at.instant g.expires_at.instant
          || ltb g.compliance_approval.expires_at.instant g.expires_at.instant)
        outlives_evidence
    registered ← register_issued r (authorization_for i g)
    ok (authorization_for i g, registered)
