-- ===== src/Simulator/Numbered.antt =====
-- About the numbers of the journal's events, app/paper_trading/journal.py, and the end of a curve.
use webull_aitrader.Shared.{
  ◌≡◌, ◌∙◌, refl, ap, ℕ, suc, ◌+◌, List, [], ◌∷◌, ◌++◌, length, Text, ℤ, ok, raise_if-eq-ok,
  ok-injective, Datetime, lacks_tzinfo, arith,
}
use webull_aitrader.Simulator.Journal.{
  JournalEventType, Message, Details, JournalEvent, EquityPoint, naive_event, append_event,
  last_point,
}

-- Events numbered one after the other, the first after `n` others.
abbrev pub Numbered : ℕ → List JournalEvent → Type 0
Numbered n [] = Unit {0}
Numbered n (e ∷ es) = (e.sequence ≡ n + 1) × Numbered (suc n) es

-- A curve whose last point has this equity.
abbrev pub EndsAt : ℤ → List EquityPoint → Type 0
EndsAt v [] = ⊥
EndsAt v (p ∷ ps) = (last_point p ps).equity ≡ v

Numbered-snoc :
    (n : ℕ) (es : List JournalEvent) (e : JournalEvent)
    → Numbered n es
    → e.sequence ≡ n + length es + 1
    → Numbered n (es ++ e ∷ [])
Numbered-snoc n [] e h k = (k ∙ omega arith, tt)
Numbered-snoc n (x ∷ es) e h k = (h.0, Numbered-snoc (suc n) es e h.1 (k ∙ omega arith))

pub EndsAt-snoc : (ps : List EquityPoint) (p : EquityPoint) → EndsAt p.equity (ps ++ p ∷ [])
EndsAt-snoc [] p = refl
EndsAt-snoc (q ∷ ps) p = last_of_more q ps p
  where
    last_of_more :
        (q : EquityPoint) (ps : List EquityPoint) (p : EquityPoint)
        → (last_point q (ps ++ p ∷ [])).equity ≡ p.equity
    last_of_more q [] p = refl
    last_of_more q (r ∷ ps) p = last_of_more r ps p

length-snoc : (es : List JournalEvent) (e : JournalEvent) → length (es ++ e ∷ []) ≡ suc (length es)
length-snoc [] e = refl
length-snoc (x ∷ es) e = ap suc (length-snoc es e)

pub append_event-Numbered :
    (es : List JournalEvent) (t : JournalEventType) (id : Text) (at_time : Datetime) (m : Message)
    (d : Details) {es' : List JournalEvent}
    → append_event es t id at_time m d ≡ ok es'
    → Numbered 0 es
    → Numbered 0 es' × (length es' ≡ suc (length es))
unfolding append_event
append_event-Numbered es t id at_time m d h numbered =
    let a = raise_if-eq-ok (lacks_tzinfo at_time.zone) naive_event _ h in
    let event : JournalEvent = record {
      sequence = length es + 1;
      event_type = t;
      request_id = id;
      timestamp = at_time;
      message = m;
      details = d;
    } in
    rw (← ok-injective a.1) (Numbered-snoc 0 es event numbered (omega arith), length-snoc es event)
