-- ===== src/GoalGraph/Budget/Clock.antt =====
-- internal/goalgraph/graph.go: the active clock and the pause flags. Go measures with `Sub` and
-- uses a difference only above 0, as subtraction on ℕ does.
use collomia.Common.{ℕ, ◌+◌, ◌-◌, false, not, ◌&&◌, ◌==◌, if◌then◌else◌}
use collomia.GoalGraph.Data.{Accounting, Graph, over}

unfoldable pub stop_active : ℕ → Graph → Graph
stop_active now g =
    let a = g.accounting in
    if a.active_since == 0 then g else record g {
      accounting = record a {
        active_elapsed = a.active_elapsed + (now - a.active_since);
        active_since = 0;
      };
    }

unfoldable pub start_active : ℕ → Graph → Graph
start_active now g =
    if not (over g) && not g.pause_reached && g.accounting.active_since == 0
    then record g { accounting = record g.accounting { active_since = now } }
    else g

unfoldable pub active_elapsed : ℕ → Accounting → ℕ
active_elapsed now a =
    if a.active_since == 0 then a.active_elapsed else a.active_elapsed + (now - a.active_since)

unfoldable pub clear_pause : Graph → Graph
clear_pause g = record g { pause_requested = false; pause_reached = false }
