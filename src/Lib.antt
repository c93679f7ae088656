-- ===== src/Lib.antt =====
-- Webull AI Trader: the paper order path, the rules and limits that a proposal has to pass, the
-- authorization of live orders, and the settlement rules of a sale.
--
-- The parts of the program and the files that model them:
--
--  * Orders: app/paper_trading/order_models.py, fill_models.py and orders.py. An order is an immutable
--    record; `validate_request`, `validate_fill` and `validate_order` are the `__post_init__` methods,
--    and `create_order`, `accept_order`, `reject_order`, `cancel_order`, `expire_order` and
--    `apply_fill` build the next record, which is validated anew. Orders/Model has the data,
--    Orders/Validate the checks, Orders/Lifecycle the transitions; WellFormed, Inversion, Laws, Fills,
--    FirstFill, Requests and Closing prove.
--  * Matching: app/paper_trading/matching_engine.py. `match_order` runs one order against one quote.
--  * Book: app/paper_trading/order_book.py. The store of orders; `expire_day_orders` loops over a
--    snapshot and writes each transition back.
--  * Engine: app/paper_trading/execution_engine.py. `process_quote` takes the open orders of the
--    quote's symbol from the book, matches each, fills it by `apply_fill` and updates the book.
--    A method returns its outcome and the state that it leaves, so a raise halfway is visible.
--  * Compliance: app/compliance/. Calendar is settlement_calendar.py, Lots models.py and
--    settlement_ledger.py, Sell and Evaluate gfv_validator.py; Approval, Requests, Due, NextDate,
--    Ledger and Calendar/Laws prove.
--  * TrailingExit: app/trade_management/trailing_exit.py, and simulation.py in Simulation. The
--    evaluation of one price returns the next position; the simulations run it over a path.
--    Protection and Paths prove.
--  * Risk: app/risk/committee.py, with the constructors of models.py and policies.py. Committee has
--    `evaluate`; its twelve checks are a list and its three branches functions on that list. Checks,
--    Constructed, Bounds and Decides prove.
--  * RiskAdvice: app/risk/validator.py, sizing.py and limits.py, with `LegacyRiskDecision` of
--    app/risk/models.py. Sizing has the score and the percentage, Validator `evaluate_risk`, whose
--    warnings are a list that is empty for an approval; Percent, Levels and Sound prove. Its decision
--    is an argument of OrderCompliance.
--  * OrderCompliance: app/order_compliance/. Prices is price_rules.py, Market market_hours.py and
--    kill_switch.py, Validator validator.py, whose checks are a list of names and outcomes from which
--    the decision takes what passed and what failed. Clocks, Rules, Conforming, Approved and
--    Permitted prove. A decision of the settlement rules is an argument of the validator.
--  * Simulator: app/paper_trading/portfolio.py, and in Execution, Journal and Proposal execution.py,
--    journal.py with metrics.py, and simulator.py. A compliance decision of OrderCompliance goes in;
--    a fill goes to the portfolio, whose refusal is a rejection. Positions and Ledger are about the
--    dict and the order of the positions, Portfolio and Sound about the portfolio, Runs about a
--    sequence of fills, Filled, Numbered, Steps and Returns about a step of the simulation.
--  * Authorization: app/authorization/models.py, validation.py and, of report.py,
--    `authorization_from_json`, with the check of an order request of
--    app/broker_protocol/validation.py; Registry is registry.py and Issuer issuer.py. The tables of
--    the registry are dicts by primary key. An operation returns the next tables or an error: SQLite
--    rolls the transaction back when it raises. Consumption, Histories, OneUse, Barred and Issued
--    prove.
--  * Shared: tests, integers, texts, lists, results, timestamps, dicts and Decimal operations.
--  * Witnesses: the theorems at concrete values.
--
-- How Python is read:
--
--  * A `Decimal` is an integer count of a unit fine enough for every value. Sums and products are
--    exact: the model leaves out that the context also rounds them past its precision. Division
--    rounds in the context, and an average price has all the digits that the context holds, so the
--    division, the product with an average and the sum with that product are parameters, the fields
--    of `Rounding`. Nothing is assumed of them, but of a first fill that the context holds
--    its notional. The trailing exit, the risk committee, the advisory validator, order
--       compliance and the portfolio of the simulator multiply prices or amounts by fractions, so
--    there the rounded operations are parameters, the fields of `Arithmetic`. Where it
--    matters, a hypothesis says that a product of positive amounts is not negative, and that
--    `quantize` keeps the order and what it need not round. The rounding of a risk score to a whole
--    number is computed. 0.6, 0.2 and 0.01 are exact when the unit divides a hundredth. NaN and the
--    infinities are left out, but for the lots and the request of the settlement rules, where
--    `Amount` has them because the code tests for them.
--  * A text is its list of code points; `upper` maps the ASCII letters.
--  * A timestamp has its instant, its calendar day and what it knows of its zone. A date is its
--    proleptic ordinal. A difference or comparison of timestamps of which only one has an offset is
--    a TypeError, and a `timedelta` of too many seconds an OverflowError, in order compliance and in
--    the simulator.
--  * A clock, an id factory and a default time are arguments: `at` and the supply `fill_ids` of the
--    engine, of which `drawn` counts the ids taken. An exception is a constructor of an error type.
--    Its message, and the message of an execution report, are left out.
--  * A dict is its list of entries in insertion order.
--
-- The loops are structural recursion over lists. The loop of the settlement calendar is recursion on
-- the number of days left before the last date that Python has, after which the code raises.
--
-- Two digests of the authorization, the timestamp that is read back from an ISO form, equality of
-- timestamps there, and the way a Decimal is written in a fingerprint, are functions of the standard
-- library and come in as parameters.
--
-- A value of a wrong type is modelled where the code tests for it, as in the arguments and the lots
-- of the settlement rules, and left out elsewhere: the settlement date of a lot is a date or None.
--
-- Not modelled: the other packages of app/, among them the milestone runtime, the risk runtime, the
-- coordinators, the broker and HTTP transports and the user interface. Of the packages above,
-- serialization is left out (`to_dict`; of the JSON of an authorization, all but what is read
-- back), and so are display texts, and the properties of an order that only pass on a field of its
-- request. The locks of the registry are
-- left out: its operations run one at a time.
pub mod Shared
pub mod Orders
pub mod Risk
pub mod RiskAdvice
pub mod OrderCompliance
pub mod Simulator
pub mod Authorization
pub mod Matching
pub mod Book
pub mod Engine
pub mod Compliance
pub mod TrailingExit
pub mod Witnesses
