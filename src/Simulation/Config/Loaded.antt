-- ===== src/Simulation/Config/Loaded.antt =====
-- What holds of a configuration that was loaded, and the line that stops a load.
use Prim.Native.String.{[], String}
use mini_ran.Common.{none, [], Option, true, subst, ◌≡◌, ◌<◌, some, IsU32, IsU64, arith, inl, inr}
use mini_ran.Simulation.Config.{
  value_or, invalid_traffic_pattern, parse_traffic_pattern, invalid_transport_mode,
  parse_transport_mode, invalid_line, or_read, read_lines, split_lines, default_config, from_values,
  from_file, profile_is_valid, link_is_valid, read_link, ScenarioConfig, checked, DoubleText,
  read_traffic, Double, read_timers, good, bad, Values, read_value, parse_u32, parse_unsigned,
}
use mini_ran.Transport.Link.{default_link, TransportMode}
use mini_ran.Simulation.Config.Lines.{read_lines_lem, first_malformed}
use mini_ran.Traffic.Profile.{default_profile, TrafficPattern}
use mini_ran.Simulation.Config.Fields.{
  read_traffic-TrafficFits, read_link-LinkFits, read_timers-TimersFit, parse_unsigned-IsU64,
  parse_u32-IsU32, TimersFit, LinkFits, TrafficFits, chain-good,
}

module _ (double : Double) (text : DoubleText double) where
  -- Each field fits its type, the mode is the link's too, and the final tests hold.
  pub record IsScenario (c : ScenarioConfig double) : Type 0 where
    pub ue_id_fits : IsU32 c.ue_id
    pub access_node_id_fits : IsU32 c.access_node_id
    pub step_fits : IsU64 c.step_ms
    pub attach_budget_fits : IsU64 c.attach_phase_budget_ms
    pub detach_budget_fits : IsU64 c.detach_phase_budget_ms
    pub timers_fit : TimersFit c.timers
    pub link_fits : LinkFits double text c.transport_mode c.link_profile
    pub traffic_fits : TrafficFits c.traffic_profile
    pub link_valid : link_is_valid double c.link_profile ≡ true
    pub traffic_valid : profile_is_valid c.traffic_profile ≡ true
    pub step_positive : 0 < c.step_ms

  checked-good :
      (c d : ScenarioConfig double)
      → checked double text c ≡ good d
      → (c ≡ d)
        × (link_is_valid double c.link_profile ≡ true)
        × (profile_is_valid c.traffic_profile ≡ true)
        × (0 < c.step_ms)
  unfolding checked
  checked-good c d e = ground arith

  default_numbers :
      let d = default_config double in
      IsU32 d.ue_id
      × IsU32 d.access_node_id
      × IsU64 d.step_ms
      × IsU64 d.attach_phase_budget_ms
      × IsU64 d.detach_phase_budget_ms
      × TimersFit d.timers
  default_numbers = ground arith

  default_link-LinkFits :
      (mode : TransportMode)
      → LinkFits double text mode (record (default_link double) { mode = mode })
  default_link-LinkFits mode = ground arith

  default_profile-TrafficFits :
      (pattern : TrafficPattern) → TrafficFits (record default_profile { pattern = pattern })
  default_profile-TrafficFits pattern = ground arith

  from_values-IsScenario :
      (values : Values) (r : ScenarioConfig double)
      → from_values double text values ≡ good r
      → IsScenario r
  unfolding from_values
  from_values-IsScenario values r e =
      let d = default_config double in
      let (mode, _, e) =
        chain-good
          (or_read (read_value values "transport_mode") parse_transport_mode invalid_transport_mode
            d.transport_mode)
          _ r e in
      let (pattern, _, e) =
        chain-good
          (or_read (read_value values "traffic_pattern") parse_traffic_pattern
            invalid_traffic_pattern d.traffic_profile.pattern)
          _ r e in
      let (ue, e_ue, e) = chain-good (parse_u32 values "ue_id" d.ue_id) _ r e in
      let (node, e_node, e) =
        chain-good (parse_u32 values "access_node_id" d.access_node_id) _ r e in
      let (step, e_step, e) = chain-good (parse_unsigned values "step_ms" d.step_ms) _ r e in
      let (a, e_a, e) =
        chain-good (parse_unsigned values "attach_phase_budget_ms" d.attach_phase_budget_ms) _ r
          e in
      let (b, e_b, e) =
        chain-good (parse_unsigned values "detach_phase_budget_ms" d.detach_phase_budget_ms) _ r
          e in
      let (timers, e_timers, e) = chain-good (read_timers values d.timers) _ r e in
      let first_link = record d.link_profile { mode = mode } in
      let first_traffic = record d.traffic_profile { pattern = pattern } in
      let (link, e_link, e) = chain-good (read_link double text values first_link) _ r e in
      let (traffic, e_traffic, e) = chain-good (read_traffic values first_traffic) _ r e in
      let made : ScenarioConfig double = record d {
        scenario_name = value_or (read_value values "scenario_name") d.scenario_name;
        transport_mode = mode;
        ue_id = ue;
        access_node_id = node;
        step_ms = step;
        attach_phase_budget_ms = a;
        detach_phase_budget_ms = b;
        timers = timers;
        link_profile = link;
        traffic_profile = traffic;
      } in
      let (same, link_ok, traffic_ok, step_ok) = checked-good made r e in
      let (ue_ok, node_ok, step_fits, a_ok, b_ok, timers_ok) = default_numbers in
      subst IsScenario same (record {
        ue_id_fits = parse_u32-IsU32 values _ _ ue ue_ok e_ue;
        access_node_id_fits = parse_u32-IsU32 values _ _ node node_ok e_node;
        step_fits = parse_unsigned-IsU64 values _ _ step step_fits e_step;
        attach_budget_fits = parse_unsigned-IsU64 values _ _ a a_ok e_a;
        detach_budget_fits = parse_unsigned-IsU64 values _ _ b b_ok e_b;
        timers_fit = read_timers-TimersFit values d.timers timers timers_ok e_timers;
        link_fits =
            read_link-LinkFits double text values mode first_link link (default_link-LinkFits mode)
              e_link;
        traffic_fits =
            read_traffic-TrafficFits values first_traffic traffic
              (default_profile-TrafficFits pattern) e_traffic;
        link_valid = link_ok;
        traffic_valid = traffic_ok;
        step_positive = step_ok;
      })

  -- Whatever a file holds, a configuration that is loaded from it has every number within the width
  -- of its field, the transport mode as the link's mode, a valid link, a valid traffic profile and
  -- a step that is not 0.
  pub from_file-IsScenario :
      (path : String) (content : Option String) (r : ScenarioConfig double)
      → from_file double text path content ≡ good r
      → IsScenario r
  unfolding from_file
  from_file-IsScenario path none r e = cc
  from_file-IsScenario path (some content) r e =
      let (values, _, e) = chain-good (read_lines (split_lines content) []) _ r e in
      from_values-IsScenario values r e

  -- A file with a malformed line is refused with the error of the first one.
  pub from_file_refuses :
      (path content line : String)
      → first_malformed (split_lines content) ≡ some line
      → from_file double text path (some content) ≡ bad (invalid_line line)
  unfolding from_file
  from_file_refuses path content line h = elim (read_lines_lem (split_lines content)) [
    | inl (table, fine, _, _) ↦ cc
    | inr (other, e, refused) ↦ ground (arith, refused, e, h)
  ]
