-- ===== src/Samples/Requests.antt =====
-- The theorems on requests (src/canatune/controller/router.py) at a Router of two groups.
use cana_tune_llm.Base.{
  ℕ, ◌≡◌, refl, true, false, none, some, List, [], ◌∷◌, ℤ, pos, All, any, ◌≤ℤ◌, arith, length,
}
use cana_tune_llm.Domain.Risk.{Cell, RiskSource}
use cana_tune_llm.Router.Settings.{GroupChoice}
use cana_tune_llm.Router.Tables.{apply_table}
use cana_tune_llm.Router.Decode.{View}
use cana_tune_llm.Router.Routes.{open_admission, routes}
use cana_tune_llm.Router.Routes.Routable.{IsRoutable, routes-IsRoutable}
use cana_tune_llm.Router.Lifecycle.{Offer, Request, issue, prefill_done, first_token}
use cana_tune_llm.Router.Lifecycle.Finish.{
  Outcome, finish, release, close, note_lengths, learn_if, is_violation, note_latency,
}
use cana_tune_llm.Router.Lifecycle.Runs.{
  perform, on_ticket, Event, IsAccounted, run, run-IsAccounted, run_idle,
}
use cana_tune_llm.Router.Candidates.{Assessment, candidates, feasible_of}
use cana_tune_llm.Router.Candidates.Safety.{IsSound, candidates-IsSound}
use cana_tune_llm.Router.Choose.{choose, choose_fill, by_choice, has_room, is_cooled}
use cana_tune_llm.Router.Choose.Member.{OnSome, choose-All}
use cana_tune_llm.Router.Choose.Order.{Precedes, choose_concentrate-most, choose_fill-first}
use cana_tune_llm.Router.Admit.Waiters.{step}
use cana_tune_llm.Router.Admit.Waiters.Fifo.{step-IsSettled}
use cana_tune_llm.Router.Admit.Waiters.Settled.{IsOrderly, IsSettled}
use cana_tune_llm.Router.Admit.Waiters.Head.{IsFirst, is_ticket, is_reject, step-head}
use cana_tune_llm.Router.Admit.{Leave, try_admit}
use cana_tune_llm.Router.Admit.Sound.{IssuesSound, try_admit-IssuesSound}
use cana_tune_llm.Router.Arrivals.{bucket_counts, zeros}
use cana_tune_llm.Router.Arrivals.Counted.{total, bucket_counts-all}
use cana_tune_llm.Samples.Fixed.{fixed}
use cana_tune_llm.Samples.Setup.{router, working}

abbrev view : View ℤ
view = record { telemetry = none; output_mean = pos 200_000 }

abbrev some_cell : Cell
some_cell = record { clock = working; n_await = 0; prompt = 0; d_busy = false }

abbrev offer : Offer ℤ
offer = record {
  p = 0;
  d = 1;
  cell = some_cell;
  estimate = some (record { risk = pos 100; source = RiskSource.slack_observed; samples = 20 });
  features = [];
  predicted = none;
  kind = none;
}

abbrev request : Request ℤ
request = record { tokens = 400; exact = true; waited_ms = pos 5_000 }

abbrev served : Outcome ℤ
served = record {
  served = true;
  ttft_ms = some (pos 300_000);
  tpot_ms = some (pos 20_000);
  output_tokens = 90;
}

-- A request over the P of one group and the D of the other, from its admission to its end.
abbrev events : List (Event ℤ)
events =
    Event.admit (pos 1_000) offer request
    ∷ Event.p_returned 0
    ∷ Event.first (pos 1_300) 0
    ∷ Event.ended (pos 2_000) 0 served
    ∷ []

router-IsAccounted : IsAccounted router
router-IsAccounted = record {
  at_p = λ g. refl;
  await = λ g. refl;
  tokens = λ g. refl;
  decoding = λ g. refl;
  flight = λ g. refl;
}

run-IsAccounted_example : IsAccounted (run events router)
run-IsAccounted_example = run-IsAccounted events router router-IsAccounted

run-finished : All (λ t. t.finished ≡ true) (run events router).tickets
unfolding run perform on_ticket issue prefill_done first_token finish release apply_table close
    note_lengths learn_if is_violation note_latency
run-finished = (refl, tt)

run_idle_example :
    ((run events router).groups 0).n_inflight ≡ pos 0
    × ((run events router).groups 0).n_at_p ≡ pos 0
    × ((run events router).groups 0).n_await ≡ pos 0
    × ((run events router).groups 0).t_await ≡ pos 0
    × ((run events router).groups 0).n_decoding ≡ pos 0
run_idle_example = run_idle events router 0 router-IsAccounted run-finished

routes-IsRoutable_example : All (IsRoutable router) (routes router)
routes-IsRoutable_example = routes-IsRoutable router

candidates-IsSound_example :
    All
      (IsSound router view 400 (pos 5_000))
      (feasible_of (candidates router (pos 1_000) view 400 (pos 5_000)).1)
candidates-IsSound_example = candidates-IsSound router view 400 (pos 5_000) (pos 1_000) refl

-- The first and the second group, as feasible routes.
abbrev assessed : ℕ → Assessment ℤ
assessed i = record {
  route = record { p = i; d = i; p_point = working; d_point = working };
  cell = some_cell;
  d_busy = false;
  features = [];
  predicted = pos 20_000;
  slack = none;
  tpot = none;
  d_safe = true;
  d_unsafe = false;
  within = true;
  feasible = true;
  estimate = none;
}

abbrev feasible : List (Assessment ℤ)
feasible = assessed 1 ∷ assessed 0 ∷ []

choose-All_example : OnSome (λ a. a.feasible ≡ true) (choose router (pos 1_000) feasible)
choose-All_example =
    choose-All router (pos 1_000) (λ a. a.feasible ≡ true) feasible (refl, (refl, tt))

choose_concentrate-most_example :
    OnSome
      (λ b.
        All
          (λ a. (router.groups a.route.p).n_inflight ≤ℤ (router.groups b.route.p).n_inflight)
          feasible)
      (by_choice router (pos 1_000) GroupChoice.concentrate feasible)
choose_concentrate-most_example = choose_concentrate-most router (pos 1_000) feasible

choose_fill-feasible : choose_fill router (pos 1_000) feasible ≡ some (assessed 0)
unfolding choose_fill
choose_fill-feasible = refl

feasible_room : any (has_room router (pos 1_000)) feasible ≡ true
unfolding is_cooled
feasible_room = refl

choose_fill-first_example :
    has_room router (pos 1_000) (assessed 0) ≡ true
    × All (Precedes router (pos 1_000) (assessed 0)) feasible
choose_fill-first_example =
    choose_fill-first router (pos 1_000) feasible (assessed 0) feasible_room choose_fill-feasible

waiting-IsOrderly : IsOrderly router.waiting
waiting-IsOrderly = record {
  queue = (refl, (refl, tt));
  holding = tt;
  fresh = tt;
  signalled = (refl, tt);
}

abbrev draw : ℕ → ℕ × ℕ
draw n = (0, 1)

step-IsSettled_example : IsSettled 7 router.waiting (step router (pos 1_000) view draw 7 request)
step-IsSettled_example = step-IsSettled 7 (pos 1_000) router view draw request waiting-IsOrderly

step-head_example :
    (is_ticket (step router (pos 1_000) view draw 9 request).1 ≡ true
      → IsFirst 9 router.waiting.queue)
    × (is_reject (step router (pos 1_000) view draw 9 request).1 ≡ false)
step-head_example = step-head (pos 1_000) view 9 request router draw refl

-- One arrival is later than the caller's clock.
abbrev arrived : List ℤ
arrived = pos 4_000 ∷ pos 7_500 ∷ pos 9_500 ∷ []

bucket_counts-all_example :
    (total (bucket_counts 3 (pos 9_000) (pos 2_000) arrived (zeros 3)) ≡ length arrived)
    × (length (bucket_counts 3 (pos 9_000) (pos 2_000) arrived (zeros 3)) ≡ 3)
bucket_counts-all_example = bucket_counts-all 3 (pos 9_000) (pos 2_000) (omega arith) arrived

abbrev no_leave : Leave
no_leave = record { rescue = false; backfill = false; best_effort = false }

router-in_force : open_admission (apply_table router) ≡ false
unfolding apply_table
router-in_force = refl

try_admit-IssuesSound_example :
    IssuesSound router (pos 1_000) view request (try_admit router (pos 1_000) view request no_leave)
try_admit-IssuesSound_example =
    try_admit-IssuesSound router (pos 1_000) view request no_leave refl refl router-in_force
