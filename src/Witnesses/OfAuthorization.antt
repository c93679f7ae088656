-- ===== src/Witnesses/OfAuthorization.antt =====
-- The theorems on authorizations, at one that is issued, consumed and revoked. The digests of the
-- sample are the ids.
use webull_aitrader.Shared.{
  arith, ◌≡◌, ◌==◌, refl, ℕ, ◌≤◌, [], ◌∷◌, pos, true, false, is_ok, ok, some, none, codes, strip,
  lstrip, rstrip, upper, text_eq, Datetime, fixed,
}
use webull_aitrader.Orders.Model.{buy, market, day}
use webull_aitrader.Authorization.{
  ExecutionIntent, ApprovalEvidence, LiveExecutionAuthorization, Digests, validate_intent,
  validate_order_request, validate_evidence, terms_eq,
}
use webull_aitrader.Authorization.Registry.{
  Registry, register_issued, revoke, reread, consume, validate_evidence_state,
}
use webull_aitrader.Authorization.Issuer.{IssueArgs, authorization_for, issue_authorization}
use webull_aitrader.Authorization.Issued.{KeepsTime, issue-consume}
use webull_aitrader.Authorization.Histories.{
  issue, revoke_one, spend, perform, after_calls, times_spent,
}
use webull_aitrader.Authorization.OneUse.{times_spent_at_most_once}
use webull_aitrader.Authorization.Barred.{bars_one, consume_barred}

abbrev at_second : ℕ → Datetime
at_second n = record { instant = n; day = 1; zone = fixed }

abbrev digests : Digests
digests = record {
  of_intent = λ i. i.intent_id;
  of_evidence = λ e. e.approval_id;
  reread_time = some;
  same_time = λ t u. t.instant == u.instant;
}

abbrev intent : ExecutionIntent
intent = record {
  intent_id = codes "i1";
  account_id = codes "acct";
  symbol = codes "AAPL";
  side = buy;
  order_type = market;
  quantity = pos 5;
  limit_price = none;
  stop_price = none;
  time_in_force = day;
  created_at = at_second 1;
}

abbrev risk_evidence : ApprovalEvidence
risk_evidence = record {
  approval_id = codes "risk";
  intent_id = codes "i1";
  intent_digest = codes "i1";
  approved = true;
  account_id = codes "acct";
  symbol = codes "AAPL";
  side = buy;
  order_type = market;
  quantity = pos 5;
  limit_price = none;
  stop_price = none;
  time_in_force = day;
  issued_at = at_second 1;
  expires_at = at_second 100;
  revoked = false;
  superseded = false;
}

abbrev args : IssueArgs
args = record {
  risk_approval = risk_evidence;
  compliance_approval = record risk_evidence { approval_id = codes "compliance" };
  authorization_id = codes "auth";
  issued_at = at_second 2;
  expires_at = at_second 60;
  single_use = true;
}

abbrev authorization : LiveExecutionAuthorization
authorization = authorization_for digests intent args

abbrev empty : Registry
empty = record { authorizations = []; evidence_state = [] }

abbrev holding_one : Registry
holding_one = record {
  authorizations =
      (
        codes "auth",
        (record {
          payload = authorization;
          issued_at = at_second 2;
          consumed_at = none;
          revoked_at = none;
        }),
      )
      ∷ [];
  evidence_state = [];
}

issuing : issue_authorization digests intent args empty ≡ ok (authorization, holding_one)
unfolding issue_authorization validate_intent validate_order_request validate_evidence terms_eq
    register_issued text_eq strip lstrip rstrip upper
issuing = refl

evidence_stands : validate_evidence_state holding_one authorization ≡ ok tt
unfolding validate_evidence_state
evidence_stands = refl

sample_time_kept : {t : Datetime} → KeepsTime digests t
sample_time_kept {t = t} = record { again = t; reads = refl; equal = ground arith }

issue-consume_example :
    is_ok (consume digests holding_one intent authorization (at_second 30)) ≡ true
issue-consume_example =
    issue-consume digests intent args empty (at_second 30) issuing evidence_stands refl refl
      sample_time_kept sample_time_kept

times_spent_at_most_once_example :
    times_spent digests
      (codes "auth")
      (issue intent args
        ∷ spend intent authorization (at_second 30)
        ∷ spend intent authorization (at_second 31)
        ∷ [])
      empty
    ≤ 1
times_spent_at_most_once_example =
    times_spent_at_most_once digests (codes "auth")
      (issue intent args
        ∷ spend intent authorization (at_second 30)
        ∷ spend intent authorization (at_second 31)
        ∷ [])
      empty

abbrev revoked_one : Registry
revoked_one = record holding_one {
  authorizations =
      (
        codes "auth",
        (record {
          payload = authorization;
          issued_at = at_second 2;
          consumed_at = none;
          revoked_at = some (at_second 2);
        }),
      )
      ∷ [];
}

revoking : perform digests (revoke_one (codes "auth") none) holding_one ≡ ok revoked_one
unfolding perform revoke reread text_eq
revoking = refl

consume_barred_example :
    is_ok (
      consume digests
        (after_calls digests (issue intent args ∷ []) revoked_one)
        intent
        authorization
        (at_second 30))
    ≡ false
consume_barred_example =
    consume_barred digests authorization (revoke_one (codes "auth") none) holding_one
      (bars_one none) revoking (issue intent args ∷ []) intent (at_second 30)
