-- ===== src/Simulation/Summary/Reading.antt =====
-- What can be read back from the text of a result.
use Prim.Native.String.{String, ◌++◌}
use mini_ran.Common.{
  ◌&◌, arith, refl, ap, ◌∙◌, All, ◌>>=◌, IsU64, ℕ, ◌≡◌, [], ◌∷◌, Option, some, Bool, true, false,
}
use mini_ran.Text.{stoull, split_lines}
use mini_ran.Text.Lines.{write-HasNo, HasNo}
use mini_ran.Simulation.Summary.{
  notes_part, rows_of, summary, SimulationResult, DoubleText, Double, yes_or_no, decimal,
}
use mini_ran.Protocol.Message.{
  rejected, released, detaching, attached, attaching, idle, state_to_string, SessionState,
}
use mini_ran.Simulation.Summary.Readers.{
  answer, state, as_answer, as_state, lines_behind, listed, as_answer-yes_or_no,
  as_state-state_to_string, lines_behind-print_rows, lines_behind-notes_part,
}
use mini_ran.Simulation.Summary.Rows.{look_up_rows, stoull-decimal, IsRow, found, counter, look_up}
use mini_ran.Text.Lines.{is_free, is_free-HasNo}

-- The sizes that the counters have in the program.
pub record CountersFit {double : Double} (r : SimulationResult double) : Type 0 where
  pub duration_fits : IsU64 r.total_duration_ms
  pub generated_fits : IsU64 r.packets_generated
  pub bytes_fit : IsU64 r.bytes_generated
  pub core_packets_fit : IsU64 r.packets_delivered_to_core
  pub core_bytes_fit : IsU64 r.bytes_delivered_to_core
  pub dropped_fits : IsU64 r.packets_dropped_in_network
  pub delivered_fits : IsU64 r.packets_delivered_by_network
  pub sessions_fit : IsU64 r.active_sessions_at_end

-- The texts of a result that have no newline: its name, the throughput as it is printed, the notes.
pub record IsPlain {double : Double} (text : DoubleText double) (r : SimulationResult double)
    : Type 0 where
  pub name_plain : HasNo 10 r.scenario_name
  pub throughput_plain : HasNo 10 (text.show_double r.throughput_mbps)
  pub notes_plain : All (HasNo 10) r.notes

pub decimal-HasNo : (n : ℕ) → HasNo 10 (decimal n)
decimal-HasNo n = write-HasNo 10 20 n "" (omega arith) tt

yes_or_no-HasNo : (b : Bool) → HasNo 10 (yes_or_no b)
unfolding is_free
yes_or_no-HasNo true = is_free-HasNo 10 "yes" refl
yes_or_no-HasNo false = is_free-HasNo 10 "no" refl

state_to_string-HasNo : (s : SessionState) → HasNo 10 (state_to_string s)
unfolding is_free
state_to_string-HasNo idle = is_free-HasNo 10 "Idle" refl
state_to_string-HasNo attaching = is_free-HasNo 10 "Attaching" refl
state_to_string-HasNo attached = is_free-HasNo 10 "Attached" refl
state_to_string-HasNo detaching = is_free-HasNo 10 "Detaching" refl
state_to_string-HasNo released = is_free-HasNo 10 "Released" refl
state_to_string-HasNo rejected = is_free-HasNo 10 "Rejected" refl

label-IsRow :
    (label value : String)
    → is_free b':' label ≡ true
    → is_free 10 label ≡ true
    → HasNo 10 value
    → IsRow (label, value)
label-IsRow label value colon plain h =
    (is_free-HasNo b':' label colon, is_free-HasNo 10 label plain, h)

module _ (double : Double) (text : DoubleText double) where
  rows_of-IsRow :
      (r : SimulationResult double) → HasNo 10 r.scenario_name → All IsRow (rows_of double text r)
  unfolding is_free
  rows_of-IsRow r h =
      label-IsRow "Scenario" _ refl refl h
      & label-IsRow "Duration [ms]" _ refl refl (decimal-HasNo r.total_duration_ms)
      & label-IsRow "Attach succeeded" _ refl refl (yes_or_no-HasNo r.attach_succeeded)
      & label-IsRow "Traffic started" _ refl refl (yes_or_no-HasNo r.traffic_started)
      & label-IsRow "Detach succeeded" _ refl refl (yes_or_no-HasNo r.detach_succeeded)
      & label-IsRow "Final UE state" _ refl refl (state_to_string-HasNo r.final_ue_state)
      & label-IsRow "Packets generated" _ refl refl (decimal-HasNo r.packets_generated)
      & label-IsRow "Bytes generated" _ refl refl (decimal-HasNo r.bytes_generated)
      & label-IsRow "Packets delivered to core" _ refl refl
          (decimal-HasNo r.packets_delivered_to_core)
      & label-IsRow "Bytes delivered to core" _ refl refl (decimal-HasNo r.bytes_delivered_to_core)
      & label-IsRow "Packets dropped in network" _ refl refl
          (decimal-HasNo r.packets_dropped_in_network)
      & label-IsRow "Packets delivered by network" _ refl refl
          (decimal-HasNo r.packets_delivered_by_network)
      & label-IsRow "Active sessions at end" _ refl refl (decimal-HasNo r.active_sessions_at_end)
      & tt

  throughput-IsRow :
      (r : SimulationResult double)
      → IsPlain text r
      → All IsRow (("Throughput [Mbps]", text.show_double r.throughput_mbps) ∷ [])
  unfolding is_free
  throughput-IsRow r h = (label-IsRow "Throughput [Mbps]" _ refl refl h.throughput_plain, tt)

  -- The value that the text has for a label.
  look_up-summary :
      (r : SimulationResult double) (key : String)
      → IsPlain text r
      → look_up key (split_lines (summary double text r))
        ≡ found key (rows_of double text r) (
            found key
              (("Throughput [Mbps]", text.show_double r.throughput_mbps) ∷ [])
              (look_up key (split_lines (notes_part r.notes))))
  unfolding summary
  look_up-summary r key h =
      look_up_rows key (rows_of double text r) _ (rows_of-IsRow r h.name_plain)
      ∙ ap (found key (rows_of double text r))
          (look_up_rows key _ (notes_part r.notes) (throughput-IsRow r h))

  counter-summary :
      (r : SimulationResult double) (key : String) (n : ℕ)
      → IsPlain text r
      → IsU64 n
      → ((later : Option String)
          → found key (rows_of double text r) later ≡ some (" " ++ decimal n))
      → counter key (split_lines (summary double text r)) ≡ some n
  counter-summary r key n h f e =
      ap (◌>>= stoull) (look_up-summary r key h ∙ e _) ∙ stoull-decimal n f

  answer-summary :
      (r : SimulationResult double) (key : String) (b : Bool)
      → IsPlain text r
      → ((later : Option String)
          → found key (rows_of double text r) later ≡ some (" " ++ yes_or_no b))
      → answer key (split_lines (summary double text r)) ≡ some b
  answer-summary r key b h e =
      ap (◌>>= as_answer) (look_up-summary r key h ∙ e _) ∙ as_answer-yes_or_no b

  notes-summary :
      (r : SimulationResult double)
      → IsPlain text r
      → lines_behind "Notes:" (split_lines (summary double text r)) ≡ listed r.notes
  unfolding summary
  notes-summary r h =
      lines_behind-print_rows (rows_of double text r) _ (rows_of-IsRow r h.name_plain)
      ∙ lines_behind-print_rows _ (notes_part r.notes) (throughput-IsRow r h)
      ∙ lines_behind-notes_part r.notes h.notes_plain

  -- In the summary of a result with counters of 64 bits, and no newline in its name, its notes and
  -- the text of its throughput, the line of each label gives its field back: `stoull` reads the
  -- number of each counter, the three answers are the words yes and no, the state is the word for
  -- it, and the name and the text of the throughput stand as they are. Behind the line `Notes:`
  -- there is one line for each note, in order and behind a dash; without a note there is no such
  -- line.
  pub summary_reads :
      (r : SimulationResult double)
      → IsPlain text r
      → CountersFit r
      → let lines = split_lines (summary double text r) in
        (look_up "Scenario" lines ≡ some (" " ++ r.scenario_name))
        × (counter "Duration [ms]" lines ≡ some r.total_duration_ms)
        × (answer "Attach succeeded" lines ≡ some r.attach_succeeded)
        × (answer "Traffic started" lines ≡ some r.traffic_started)
        × (answer "Detach succeeded" lines ≡ some r.detach_succeeded)
        × (state "Final UE state" lines ≡ some r.final_ue_state)
        × (counter "Packets generated" lines ≡ some r.packets_generated)
        × (counter "Bytes generated" lines ≡ some r.bytes_generated)
        × (counter "Packets delivered to core" lines ≡ some r.packets_delivered_to_core)
        × (counter "Bytes delivered to core" lines ≡ some r.bytes_delivered_to_core)
        × (counter "Packets dropped in network" lines ≡ some r.packets_dropped_in_network)
        × (counter "Packets delivered by network" lines ≡ some r.packets_delivered_by_network)
        × (counter "Active sessions at end" lines ≡ some r.active_sessions_at_end)
        × (look_up "Throughput [Mbps]" lines ≡ some (" " ++ text.show_double r.throughput_mbps))
        × (lines_behind "Notes:" lines ≡ listed r.notes)
  summary_reads r h f = (
    look_up-summary r "Scenario" h,
    counter-summary r "Duration [ms]" r.total_duration_ms h f.duration_fits (λ later. refl),
    answer-summary r "Attach succeeded" r.attach_succeeded h (λ later. refl),
    answer-summary r "Traffic started" r.traffic_started h (λ later. refl),
    answer-summary r "Detach succeeded" r.detach_succeeded h (λ later. refl),
    ap (◌>>= as_state) (look_up-summary r "Final UE state" h)
        ∙ as_state-state_to_string r.final_ue_state,
    counter-summary r "Packets generated" r.packets_generated h f.generated_fits (λ later. refl),
    counter-summary r "Bytes generated" r.bytes_generated h f.bytes_fit (λ later. refl),
    counter-summary r "Packets delivered to core" r.packets_delivered_to_core h f.core_packets_fit
        (λ later. refl),
    counter-summary r "Bytes delivered to core" r.bytes_delivered_to_core h f.core_bytes_fit
        (λ later. refl),
    counter-summary r "Packets dropped in network" r.packets_dropped_in_network h f.dropped_fits
        (λ later. refl),
    counter-summary r "Packets delivered by network" r.packets_delivered_by_network h
        f.delivered_fits (λ later. refl),
    counter-summary r "Active sessions at end" r.active_sessions_at_end h f.sessions_fit
        (λ later. refl),
    look_up-summary r "Throughput [Mbps]" h,
    notes-summary r h,
  )
