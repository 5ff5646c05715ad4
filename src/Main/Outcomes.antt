-- ===== src/Main/Outcomes.antt =====
-- What the exit status says.
use Prim.Native.String.{◌∷◌, String, ◌++◌}
use mini_ran.Simulation.Config.Loaded.{from_file_refuses, IsScenario, from_file-IsScenario}
use mini_ran.Simulation.Runner.Report.{IsReport, run_reports}
use mini_ran.Simulation.Runner.Reachable.{Reachable}
use mini_ran.Simulation.Runner.Termination.{IsCoherent, IsEnough, run_returns}
use mini_ran.Main.{
  bad, ConfigError, run_config, run, summary, good, from_file, ScenarioConfig, Option,
  SimulationResult, ℕ, DoubleText, Random, Double, main, Outcome, completed, error_text,
}
use mini_ran.Common.{
  Bool-cases, ◌&&◌, ◌⊎◌, Bool, subst, [], ◌∙◌, bind-some, inl, inr, ◌^◌, ◌<◌, false, ◌*◌, ◌+◌, refl,
  arith, ◌∷◌, true, some, List, ◌≡◌, Option, ℕ,
}
use mini_ran.Simulation.Runner.{World}
use mini_ran.Traffic.Profile.{TrafficEvent}
use mini_ran.Simulation.Config.Lines.{first_malformed}
use mini_ran.Text.{split_lines}
use mini_ran.Traffic.Generator.{generate}
use mini_ran.Nodes.Ue.{ue_is_attached}
use mini_ran.Simulation.Config.Fields.{Result-cases}

some_same : (a b : Outcome) → some a ≡ some b → a ≡ b
some_same a b e = cc

module _ (double : Double) (random : Random double) (text : DoubleText double) where
  -- A clean exit and the other one.
  abbrev pub Exits : Outcome → SimulationResult double → World double random → Type 0
  Exits o r w =
      (o.status ≡ 0)
        × (r.attach_succeeded ≡ true)
        × (r.detach_succeeded ≡ true)
        × (ue_is_attached w.ue ≡ false)
        × (r.active_sessions_at_end ≡ 0)
      ⊎ (o.status ≡ 3) × ((r.attach_succeeded && r.detach_succeeded) ≡ false)

  -- The file was loaded, and its scenario ran.
  pub record Ran (content : Option String) (path : String) (o : Outcome) : Type 0 where
    pub config : ScenarioConfig double
    pub result : SimulationResult double
    pub world : World double random
    pub loaded : from_file double text path content ≡ good config
    pub valid : IsScenario double text config
    pub prints : o.out ≡ summary double text result
    pub silent : o.err ≡ ""
    pub reached : Reachable config world
    pub reports : IsReport result world
    pub exits : Exits o result world

  -- The file was refused.
  abbrev pub Refused : Option String → String → Outcome → Type 0
  Refused content path o =
      (error : ConfigError) × (from_file double text path content ≡ bad error)
      × (o.status ≡ 2)
      × (o.out ≡ "")
      × (o.err ≡ "Config error: " ++ (error_text error ++ "\n"))

  abbrev pub IsExplained : (String → Option String) → List String → Outcome → Type 0
  IsExplained files [] o = (o.status ≡ 1) × (o.out ≡ "")
  IsExplained files (path ∷ rest) o = Refused (files path) path o ⊎ Ran (files path) path o

  completed-Exits :
      (r : SimulationResult double) (w : World double random)
      → IsReport r w
      → Exits (completed double random text r) r w
  completed-Exits r w report = elim (Bool-cases (r.attach_succeeded && r.detach_succeeded)) [
    | inl both ↦
        let (attached, detached) = both_true r.attach_succeeded r.detach_succeeded both in
        let (_, out, idle) = report.after_detach detached in
        inl (ground arith, attached, detached, out, report.counts_sessions ∙ idle)
    | inr not_both ↦ inr (ground arith, not_both)
  ]
    where
      both_true : (a b : Bool) → (a && b) ≡ true → (a ≡ true) × (b ≡ true)
      both_true a b e = ground arith

  run_config_cases :
      (fuel : ℕ) (content : Option String) (path : String) (o : Outcome)
      → run_config double random text fuel (from_file double text path content) ≡ some o
      → Refused content path o ⊎ Ran content path o
  run_config_cases fuel content path o e =
      elim (Result-cases (from_file double text path content)) [
        | inr (error, refused) ↦
            let stops : some (record {
              status = 2;
              out = "";
              err = "Config error: " ++ (error_text error ++ "\n");
            })
                ≡ some o =
              rw refused at e in
            subst (λ x. Refused content path x ⊎ Ran content path x) (some_same _ o stops)
              (inl (error, refused, refl, refl, refl))
        | inl (c, loaded) ↦
            let (r, runs, ends) = bind-some (run double random fuel c) _ o (rw loaded at e) in
            let (w, reached, report) = run_reports double random c fuel r runs in
            subst (λ x. Refused content path x ⊎ Ran content path x) (some_same _ o ends)
              (inr (record {
                config = c;
                result = r;
                world = w;
                loaded = loaded;
                valid = from_file-IsScenario double text path content c loaded;
                prints = refl;
                silent = refl;
                reached = reached;
                reports = report;
                exits = completed-Exits r w report;
              }))
      ]

  -- Any outcome of the program is explained by what it was given. Without arguments the status is
  -- 1. With a path, either the file was refused, the status is 2 and the error output says why; or
  -- a configuration was loaded that passes the tests, its scenario reached a world that the result
  -- reports, and the output is the summary. Then the status is 0 or 3: with 0 the UE attached and
  -- detached, is not attached in that world, and no session is active at the end; with 3 the attach
  -- or the detach failed.
  pub main-IsExplained :
      (fuel : ℕ) (files : String → Option String) (arguments : List String) (o : Outcome)
      → main double random text fuel files arguments ≡ some o
      → IsExplained files arguments o
  unfolding main
  main-IsExplained fuel files [] o e = subst (IsExplained files []) (some_same _ o e) (refl, refl)
  main-IsExplained fuel files (path ∷ rest) o e = run_config_cases fuel (files path) path o e

  -- If the file at the path loads, its traffic is generated within the fuel, the budgets, the
  -- duration and three steps together fit 64 bits, and the fuel is more than the budgets and the
  -- duration by more than one, then the program ends: it completes with a result whose fields agree
  -- and whose duration is bounded.
  pub main_returns :
      (fuel : ℕ) (files : String → Option String) (path : String) (rest : List String)
      (c : ScenarioConfig double) (events : List TrafficEvent)
      → from_file double text path (files path) ≡ good c
      → generate double fuel c.traffic_profile ≡ some events
      → c.attach_phase_budget_ms
          + c.traffic_profile.duration_ms
          + c.detach_phase_budget_ms
          + 3 * c.step_ms
        < 2 ^ 64
      → IsEnough c fuel
      → (r : SimulationResult double) × IsCoherent double c r
        × (main double random text fuel files (path ∷ rest) ≡ some (completed double random text r))
  unfolding main
  main_returns fuel files path rest c events loaded g fits enough =
      let valid = from_file-IsScenario double text path (files path) c loaded in
      let (r, runs, coherent) =
        run_returns double random c events fuel g (valid.step_positive, fits) enough in
      (r, coherent, rw (loaded, runs) refl)

  -- Whatever the fuel, if the file at the path has a malformed line, then the program ends with
  -- status 2, no output, and the first such line, as it was trimmed, in the error output.
  pub main_refuses :
      (fuel : ℕ) (files : String → Option String) (path content line : String) (rest : List String)
      → files path ≡ some content
      → first_malformed (split_lines content) ≡ some line
      → main double random text fuel files (path ∷ rest)
        ≡ some (record {
          status = 2;
          out = "";
          err = "Config error: " ++ (("Invalid config line: " ++ line) ++ "\n");
        })
  unfolding main error_text
  main_refuses fuel files path content line rest found h =
      rw (found, from_file_refuses double text path content line h) refl
