-- ===== src/Lib.antt =====
-- CanaTune: per-request admission and clock control for prefill/decode (P/D) pairs of an LLM service.
--
-- The program's parts. A request reaches the proxy, which asks the Router (src/canatune/controller/
-- router.py) for a group of one P and one D. The Router predicts the TTFT, checks the D, asks the risk
-- tables (src/canatune/domain/risk.py, admission.py) and reserves the group; the proxy then reports the
-- stages of the request, and `finish` feeds the outcome back into the tables. The Controller
-- (src/canatune/controller/tier_controller.py) moves groups between clock tiers and states; while it
-- does, the Router sees the conservative clocks. The Canary measures one group and publishes tables.
--
-- Files, and the code each models:
--   Base            numbers, lists, dictionaries and floats that the models share
--   Domain/Tiers    src/canatune/domain/groups.py: Tier, GroupState, ClockPoint, TierTable, TierState
--   Domain/Groups   src/canatune/domain/groups.py: Group and its load window
--   Domain/Risk     src/canatune/domain/risk.py: RiskTable; Risk/Estimate its monotone estimate,
--                   Risk/Persisted to_json, load and exploration_candidates
--   Domain/Load     src/canatune/domain/load.py: LengthStats
--   Domain/Admission  src/canatune/domain/admission.py: Cost (PrefillCost, CostBook; `interpolate` of
--                   src/canatune/domain/models.py), Predictor (TtftPredictor), Slack (SlackRisk)
--   Domain/Cluster  src/canatune/domain/models.py: ClusterModel; Cluster/Mix, Uniform, Capacity, Evaluate
--                   and Solve the Solver, Cluster/Fits the fits and decode_capacity;
--                   Domain/Load/Summary LengthSummary of load.py
--   Domain/Calibration  src/canatune/domain/calibration.py: KneeCounts
--   Router/State    the fields of CanaTuneRouter; Router/Settings its settings
--   Router/Tables   what _apply_table adopts; Router/Latency observe_latency, token_progress
--   Router/Decode, Routes, Candidates, Choose   _decode_state, _decode_risk, routes, candidates, _choose
--   Router/Admit    try_admit, _admit_baseline; Admit/Waiters step and _release;
--                   Router/Arrivals new_waiter, offered
--   Router/Report   production_feedback; Report/Gaps tpot_window
--   Router/Lifecycle  _issue, prefill_done, first_token; Lifecycle/Finish finish
--   Controller/Clocks  set_tier, _retry_locks, _finish_draining; Controller/Effort start, publish,
--                   wake, _enter_full_effort; Controller/Feedback _feedback_control, _redirect and
--                   _expand_capacity; Controller/Plan demand, can_carry, _plan, _boost, _unboost, _tick
--   Canary/Scheduler  src/canatune/controller/canary.py: Start trigger and may_start, Steps abort and
--                   reclaim, Steps/Step request and step, Steps/Ends the end of an experiment;
--                   Canary/Bound wilson_ucb of locator.py
--   Samples         concrete states on which the theorems are tried
--
-- State and sharing. Groups and tickets are shared objects: a group is its position in `self.groups`,
-- a ticket its position among the tickets issued. An operation takes the Router's state and returns the
-- next one. Counters such as `n_await` are integers that may fall below zero, as in Python.
--
-- Numbers. A Python float is any type with the operations of `Float`; nothing is assumed of them but
-- where a theorem takes `IsOrdered`, which holds of IEEE 754 comparisons, NaN included. Integers are
-- unbounded, as in Python.
--
-- Loops are structural on lists or on a given count and every function is total. The one loop without
-- a bound of its own, the waking of groups in _plan, has one pass more than there are groups, and more
-- passes change nothing. Where Python raises, the model returns `none`.
--
-- Inputs. The time of one call is one reading of the clock. Telemetry snapshots and the mean output
-- length are a `View`; the two groups that `random.sample` draws are a function; whether clock locks
-- hold and what the callbacks of the Canary do are parameters. Of `set_tier` the steps before and
-- after the locks are separate definitions, so other steps may come between them.
--
-- Not modelled: log records, the text of JSON files, HTTP and NVML access, the asyncio loops, the
-- parsing of the configuration, the locator and its probes (an experiment of the Canary ends with any
-- of its possible results), and fit_decode_length. The report of production_feedback, the offered
-- rates and the capacity of a group are inputs of the feedback step; the solver of the published
-- cluster model, which the Controller derives from JSON, is an input of its plan and of the Canary.
pub mod Base
pub mod Domain
pub mod Router
pub mod Controller
pub mod Canary
pub mod Samples
