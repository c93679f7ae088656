-- ===== src/Authorization/Issued.antt =====
-- About `issue_authorization` of app/authorization/issuer.py.
use webull_aitrader.Shared.{
  ◌≡◌, ◌∙◌, refl, sym, ap, Bool, true, false, not, ◌||◌, inl, inr, Option, none, some, strip,
  is_empty, text_eq_refl, ltb, leb, eqb_ℤ, ℤ, is_some, is_ok, ok, >>=-eq-ok, >>-eq-ok,
  raise_if-eq-ok, ok-injective, Datetime, Zone, naive, no_offset, fixed, lacks_offset, lacks_tzinfo,
  lookup, lookup-insert, Bool-cases, arith, if◌then◌else◌,
}
use mathlib.Core.Path.{subst}
use webull_aitrader.Orders.Model.{OrderSide, buy, sell}
use webull_aitrader.Authorization.{
  ExecutionIntent, LiveExecutionAuthorization, Digests, Terms, terms_eq, side_eq, price_eq,
  type_rank, force_rank, intent_terms, authorization_terms, validate_intent, validate_evidence,
  validate_authorization_binding, validate_for_consumption, id_required, bad_times,
  outlives_evidence, id_exists,
}
use webull_aitrader.Authorization.Registry.{
  Row, Registry, authorization_eq, reread, register_issued, validate_evidence_state, mark_consumed,
  consume,
}
use webull_aitrader.Authorization.Issuer.{IssueArgs, authorization_for, issue_authorization}

-- What an issue that returns went through.
pub record IssuedBy (digests : Digests) (i : ExecutionIntent) (g : IssueArgs) (r : Registry)
    (a : LiveExecutionAuthorization) (r' : Registry) : Type 0 where
  pub intent_good : validate_intent i ≡ ok tt
  pub times_good :
      (lacks_tzinfo g.expires_at.zone
        || lacks_tzinfo g.issued_at.zone
        || leb g.expires_at.instant g.issued_at.instant)
      ≡ false
  pub registered : register_issued r (authorization_for digests i g) ≡ ok r'
  pub is_the_one : a ≡ authorization_for digests i g

pub issue-IssuedBy :
    (digests : Digests) (i : ExecutionIntent) (g : IssueArgs) (r : Registry)
    {a : LiveExecutionAuthorization} {r' : Registry}
    → issue_authorization digests i g r ≡ ok (a, r')
    → IssuedBy digests i g r a r'
unfolding issue_authorization
issue-IssuedBy digests i g r {a = a} {r' = r'} h =
    let v = >>-eq-ok (validate_intent i) _ h in
    let b = raise_if-eq-ok (is_empty (strip g.authorization_id)) id_required _ v.1 in
    let c = >>-eq-ok (validate_evidence digests i g.risk_approval g.issued_at) _ b.1 in
    let d = >>-eq-ok (validate_evidence digests i g.compliance_approval g.issued_at) _ c.1 in
    let e =
      raise_if-eq-ok
        (lacks_tzinfo g.expires_at.zone
          || lacks_tzinfo g.issued_at.zone
          || leb g.expires_at.instant g.issued_at.instant)
        bad_times _ d.1 in
    let f =
      raise_if-eq-ok
        (ltb g.risk_approval.expires_at.instant g.expires_at.instant
          || ltb g.compliance_approval.expires_at.instant g.expires_at.instant)
        outlives_evidence _ e.1 in
    let k = >>=-eq-ok (register_issued r (authorization_for digests i g)) _ f.1 in
    let pair = ok-injective k.2 in
    record {
      intent_good = v.0;
      times_good = e.0;
      registered = k.1 ∙ ap (λ p. ok p.1) pair;
      is_the_one = sym (ap (λ p. p.0) pair);
    }

pub issue-registered :
    (digests : Digests) (i : ExecutionIntent) (g : IssueArgs) (r : Registry)
    {a : LiveExecutionAuthorization} {r' : Registry}
    → issue_authorization digests i g r ≡ ok (a, r')
    → register_issued r (authorization_for digests i g) ≡ ok r'
issue-registered digests i g r h = (issue-IssuedBy digests i g r h).registered

eqb_refl : (v : ℤ) → eqb_ℤ v v ≡ true
eqb_refl v = ground arith

side_eq_refl : (s : OrderSide) → side_eq s s ≡ true
side_eq_refl buy = refl
side_eq_refl sell = refl

same_flag : (b : Bool) → (if b then b else not b) ≡ true
same_flag true = refl
same_flag false = refl

both_aware : (x y z : Bool) → (x || y || z) ≡ false → (x ≡ false) × (y ≡ false)
both_aware x y z h = ground arith

price_eq_refl : (o : Option ℤ) → price_eq o o ≡ true
price_eq_refl none = refl
price_eq_refl (some v) = eqb_refl v

terms_eq_refl : (t : Terms) → terms_eq t t ≡ true
unfolding terms_eq
terms_eq_refl t =
    rw
      (
        text_eq_refl t.account_id,
        text_eq_refl t.symbol,
        side_eq_refl t.side,
        eqb_refl (type_rank t.order_type),
        eqb_refl t.quantity,
        price_eq_refl t.limit_price,
        price_eq_refl t.stop_price,
        eqb_refl (force_rank t.time_in_force),
      )
      refl

-- A timestamp that its ISO form keeps, as that of a fixed offset does.
pub record KeepsTime (digests : Digests) (t : Datetime) : Type 0 where
  pub again : Datetime
  pub reads : digests.reread_time t ≡ some again
  pub equal : digests.same_time again t ≡ true

authorization_eq_reread :
    (digests : Digests) (a : LiveExecutionAuthorization) (s t : Datetime)
    → digests.same_time s a.issued_at ≡ true
    → digests.same_time t a.expires_at ≡ true
    → authorization_eq digests (record a { issued_at = s; expires_at = t }) a ≡ true
unfolding authorization_eq
authorization_eq_reread digests a s t same_issue same_expiry =
    rw
      (
        text_eq_refl a.authorization_id,
        text_eq_refl a.intent_id,
        text_eq_refl a.intent_digest,
        text_eq_refl a.risk_approval_id,
        text_eq_refl a.risk_approval_digest,
        text_eq_refl a.compliance_approval_id,
        text_eq_refl a.compliance_approval_digest,
        terms_eq_refl (authorization_terms a),
        same_issue,
        same_expiry,
      )
      (same_flag a.single_use)

-- The row that an issue leaves.
abbrev issued_row : LiveExecutionAuthorization → Row
issued_row a = record {
  payload = a;
  issued_at = a.issued_at;
  consumed_at = none;
  revoked_at = none;
}

module _ (digests : Digests) (i : ExecutionIntent) (g : IssueArgs) where
  abbrev issued : LiveExecutionAuthorization
  issued = authorization_for digests i g

  registered-parts :
      (r : Registry) {r' : Registry}
      → register_issued r issued ≡ ok r'
      → (lookup g.authorization_id r'.authorizations ≡ some (issued_row issued))
        × (r'.evidence_state ≡ r.evidence_state)
  unfolding register_issued
  registered-parts r h =
      let a = raise_if-eq-ok (is_some (lookup g.authorization_id r.authorizations)) id_exists _ h in
      rw (← ok-injective a.1) (
        lookup-insert g.authorization_id g.authorization_id (issued_row issued) r.authorizations
            ∙ rw (text_eq_refl g.authorization_id) refl,
        refl,
      )

  consumption_valid :
      (now : Datetime)
      → validate_intent i ≡ ok tt
      → (lacks_tzinfo g.expires_at.zone
          || lacks_tzinfo g.issued_at.zone
          || leb g.expires_at.instant g.issued_at.instant)
        ≡ false
      → lacks_tzinfo now.zone ≡ false
      → (ltb now.instant g.issued_at.instant || leb g.expires_at.instant now.instant) ≡ false
      → validate_for_consumption digests i issued now ≡ ok tt
  unfolding validate_for_consumption validate_authorization_binding
  consumption_valid now good times aware active =
      let zones =
        both_aware (lacks_tzinfo g.expires_at.zone) (lacks_tzinfo g.issued_at.zone)
          (leb g.expires_at.instant g.issued_at.instant) times in
      rw
        (
          good,
          text_eq_refl i.intent_id,
          text_eq_refl (digests.of_intent i),
          terms_eq_refl (intent_terms i),
          zones.1,
          zones.0,
          aware,
          active,
        )
        refl

  consume_new :
      (r : Registry) (now : Datetime)
      → validate_for_consumption digests i issued now ≡ ok tt
      → lookup g.authorization_id r.authorizations ≡ some (issued_row issued)
      → validate_evidence_state r issued ≡ ok tt
      → KeepsTime digests g.issued_at
      → KeepsTime digests g.expires_at
      → is_ok (consume digests r i issued now) ≡ true
  unfolding consume mark_consumed reread
  consume_new r now valid there stands issue_kept expiry_kept =
      rw
        (
          valid,
          there,
          issue_kept.reads,
          expiry_kept.reads,
          authorization_eq_reread digests issued issue_kept.again expiry_kept.again issue_kept.equal
              expiry_kept.equal,
          stands,
        )
        (elim (Bool-cases g.single_use) [ inl once ↦ rw once refl | inr many ↦ rw many refl ])

offset_tzinfo : (z : Zone) → lacks_offset z ≡ false → lacks_tzinfo z ≡ false
offset_tzinfo naive h = cc
offset_tzinfo no_offset h = cc
offset_tzinfo fixed h = refl

-- An authorization that an issue returns can be consumed for its intent at any aware time from its
-- issue to before its expiry, while the registry holds its evidence neither revoked nor superseded, and
-- where its two times are equal to what is read back from their ISO forms.
pub issue-consume :
    (digests : Digests) (i : ExecutionIntent) (g : IssueArgs) (r : Registry)
    {a : LiveExecutionAuthorization} {r' : Registry} (now : Datetime)
    → issue_authorization digests i g r ≡ ok (a, r')
    → validate_evidence_state r' a ≡ ok tt
    → lacks_offset now.zone ≡ false
    → (ltb now.instant g.issued_at.instant || leb g.expires_at.instant now.instant) ≡ false
    → KeepsTime digests g.issued_at
    → KeepsTime digests g.expires_at
    → is_ok (consume digests r' i a now) ≡ true
issue-consume digests i g r {a = a} {r' = r'} now h stands aware active issue_kept expiry_kept =
    let by = issue-IssuedBy digests i g r h in
    let parts = registered-parts digests i g r by.registered in
    let stands_too = subst (λ x. validate_evidence_state r' x ≡ ok tt) by.is_the_one stands in
    subst (λ x. is_ok (consume digests r' i x now) ≡ true) (sym by.is_the_one)
      (consume_new digests i g r' now
        (consumption_valid digests i g now by.intent_good by.times_good
          (offset_tzinfo now.zone aware) active)
        parts.0 stands_too issue_kept expiry_kept)
