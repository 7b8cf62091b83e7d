-- ===== src/Run/Tests.antt =====
-- Three seeds, of which the second is unresolved, and a round with 3 USDC left.
use coalition.Base.{ℕ, ◌≡◌, refl, pos, false, true, some, List, [], ◌∷◌, map, Text, text, text_eq}
use coalition.Demo.{
  DemoSeedAgent, DemoAgentDetail, DemoAgentResolution, resolved, unresolved, no_record,
}
use coalition.Fund.{RoundView, fill_amount}
use coalition.Run.{resolution_by_id, decide, decide_resolved, run_from}
use coalition.Run.Fill.{IsRun, run_from-IsRun}
use coalition.Run.Blind.{with_agents, run_from-with_agents}

abbrev seed : Text → DemoSeedAgent
seed id = record { id = id; label = id; ens_name = id; wallet = text "0xab" }

abbrev seeds : List DemoSeedAgent
seeds = seed (text "a") ∷ seed (text "b") ∷ seed (text "c") ∷ []

abbrev resolutions : List DemoAgentResolution
resolutions =
    resolved (seed (text "a")) (text "0xab") []
    ∷ unresolved (seed (text "b")) (no_record (text "b"))
    ∷ resolved (seed (text "c")) (text "0xab") []
    ∷ []

abbrev round : ℕ → RoundView
round index = record {
  round_id = text "3";
  target = 10_000_000;
  total_committed = 7_000_000;
  settled = false;
  expired = false;
}

run_from-IsRun_example : IsRun round resolutions 0 0 seeds (run_from round resolutions 0 0 seeds)
run_from-IsRun_example = run_from-IsRun round resolutions 0 0 seeds

-- The only agent of a resolved seed has dropped out.
abbrev dropped : List DemoAgentDetail
dropped =
    record {
      agent_id = 7;
      agent = record { agent_uri = []; wallet = text "0xab" };
      summary = record { count = 1; value = pos 0; decimals = 0 };
      dropout = true;
      dropout_client = some (text "0xr1");
    }
    ∷ []

run_from-with_agents_example :
    run_from round (map (with_agents dropped) resolutions) 0 0 seeds
    ≡ run_from round resolutions 0 0 seeds
run_from-with_agents_example = run_from-with_agents dropped round resolutions 0 0 seeds

-- A third of what is left, nothing, and the rest.
amounts :
    map (λ made. made.amount_atomic) (run_from round resolutions 0 0 seeds)
    ≡ 1_000_000 ∷ 0 ∷ 2_000_000 ∷ []
unfolding run_from resolution_by_id decide decide_resolved fill_amount text text_eq
amounts = refl
