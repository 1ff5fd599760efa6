-- ===== src/Usecases/Resurrect/Examples.antt =====
-- The takeover at concrete values.
use pm.Base.{ℕ, ◌≡◌, ◌≢◌, refl, false, none, some, List, [], ◌∷◌, Option, Text, codes, ok, text_eq}
use pm.Entities.Runtime.{identity_token}
use pm.Usecases.Fingerprint.{pid_was_recycled}
use pm.Usecases.TimerState.{get, insert}
use pm.Usecases.Ports.{into_token, DumpContents, Ports, Liveness, alive, gone, single_pid}
use pm.Usecases.Record.{ProcessRecord}
use pm.Usecases.Resurrect.{sweep_stranded, sweep_each, Eviction, eviction_plan, resurrect, trust_of}
use pm.Usecases.Resurrect.Takeover.{Recovers, resurrect-Recovers}
use pm.Usecases.Resurrect.Judge.{
  was_supposed_to_run, judge_each, judge_all, observed_of, surviving, surviving_pid, eviction_scope,
  judge_alive, judge_observed, judge_running, judge_trusted, judge_verdict, judge,
}
use pm.Usecases.Resurrect.Stale.{eviction_plan-ours}
use pm.Usecases.Resurrect.Trust.{SameBoot, MayAdopt, judge_verdict-MayAdopt}
use pm.Usecases.Samples.{clock, web, running, table}
use pm.Usecases.Table.{from_records}
use pm.Usecases.Table.Invariant.{IsTable}

abbrev host : Ports ℕ
host = record clock {
  digest = λ t. codes "l";
  load = λ w. (ok (record { records = running ∷ []; stranded = []; boot = none }), w);
}

abbrev survivor : ProcessRecord
survivor = record running {
  runtime = record running.runtime {
    identity =
        some (record { token = codes "t"; launch_digest = codes "l"; binary_digest = codes "d" });
  };
}

abbrev seen : List (ℕ × Liveness)
seen = (42, alive (codes "t")) ∷ []

abbrev boot : Option Text
boot = some (codes "b")

judge_verdict-MayAdopt_example : MayAdopt host survivor boot boot seen 9
unfolding judge_verdict judge_trusted judge_running judge_observed judge_alive observed_of text_eq
    trust_of
judge_verdict-MayAdopt_example = judge_verdict-MayAdopt host survivor boot boot seen 9 refl

abbrev plan : Eviction
plan = record { name = web; stale = 42; expected = none; scope = single_pid }

eviction_plan-ours_example :
    SameBoot boot boot
    × (running.runtime.pid ≡ some plan.stale)
    × (observed_of plan.stale seen ≢ gone)
    × (pid_was_recycled (observed_of plan.stale seen) plan.expected ≡ false)
unfolding judge judge_verdict judge_trusted judge_running eviction_plan surviving_pid surviving
    observed_of eviction_scope pid_was_recycled identity_token trust_of text_eq
eviction_plan-ours_example = eviction_plan-ours host web running boot boot seen 9 {plan = plan} refl

abbrev contents : DumpContents
contents = record { records = survivor ∷ []; stranded = []; boot = some (codes "t") }

abbrev restarted : Ports ℕ
restarted = record host { load = λ w. (ok contents, w) }

survivor-IsTable : IsTable (from_records contents.records)
unfolding from_records
survivor-IsTable = record {
  sound = ((record { pid = refl; no_start = λ e. cc; no_identity = λ e. cc }, refl), tt);
  distinct_names = (λ m. elim m [ ], tt);
  distinct_ids = (λ m. elim m [ ], tt);
}

resurrect-Recovers_example :
    Recovers contents.records contents.records (resurrect restarted table (codes "/logs") 1500 9)
unfolding judge_all judge_each judge was_supposed_to_run judge_verdict judge_trusted judge_running
    judge_observed judge_alive observed_of text_eq trust_of get insert sweep_stranded sweep_each
    into_token identity_token
resurrect-Recovers_example =
    resurrect-Recovers restarted table contents (codes "/logs") 1500 9 refl survivor-IsTable
