-- ===== src/Simulation/Config/Defaults.antt =====
-- A file that assigns nothing.
use Prim.Native.String.{String}
use mini_ran.Common.{inr, ◌∙◌, inl, some, true, ◌≡◌, refl, none}
use mini_ran.Traffic.Profile.{profile_is_valid}
use mini_ran.Simulation.Config.{
  default_config, LinkProfile, split_lines, TrafficProfile, parse_double, link_is_valid, parse_size,
  read_link, checked, from_values, from_file, parse_unsigned, DoubleText, read_traffic, Double,
  SessionTimers, Values, read_value, good, read_timers, parse_u32,
}
use mini_ran.Simulation.Config.Lines.{read_lines_lem, last_value, first_malformed}
use mini_ran.Transport.Link.{default_link}
use mini_ran.Protocol.Session.{default_timers}
use mini_ran.Traffic.Profile.{default_profile}

abbrev IsUnset : Values → Type 0
IsUnset values = (key : String) → read_value values key ≡ none

read_timers_unset :
    (values : Values) (t : SessionTimers) → IsUnset values → read_timers values t ≡ good t
unfolding read_timers parse_u32
read_timers_unset values t h = simp h refl

read_traffic_unset :
    (values : Values) (p : TrafficProfile) → IsUnset values → read_traffic values p ≡ good p
unfolding read_traffic parse_u32 parse_unsigned parse_size
read_traffic_unset values p h = simp h refl

module _ (double : Double) (text : DoubleText double) where
  read_link_unset :
      (values : Values) (p : LinkProfile double)
      → IsUnset values
      → read_link double text values p ≡ good p
  unfolding read_link parse_u32 parse_unsigned parse_size parse_double
  read_link_unset values p h = simp h refl

  checked_default :
      link_is_valid double (default_link double) ≡ true
      → checked double text (default_config double) ≡ good (default_config double)
  unfolding checked profile_is_valid
  checked_default h = rw h refl

  from_values_unset :
      (values : Values)
      → IsUnset values
      → link_is_valid double (default_link double) ≡ true
      → from_values double text values ≡ good (default_config double)
  unfolding from_values parse_u32 parse_unsigned
  from_values_unset values h valid =
      simp
        (
          h,
          read_timers_unset values default_timers h,
          read_link_unset values (default_link double) h,
          read_traffic_unset values default_profile h,
        )
        (checked_default valid)

  -- If the default link is valid, then a file without a malformed line that assigns to no key loads
  -- as the default configuration.
  pub from_file_defaults :
      (path content : String)
      → first_malformed (split_lines content) ≡ none
      → ((key : String) → last_value key (split_lines content) ≡ none)
      → link_is_valid double (default_link double) ≡ true
      → from_file double text path (some content) ≡ good (default_config double)
  unfolding from_file
  from_file_defaults path content fine empty valid = elim (read_lines_lem (split_lines content)) [
    | inl (table, _, reads, means) ↦
        rw reads (from_values_unset table (λ key. means key ∙ empty key) valid)
    | inr (other, e, refused) ↦ cc
  ]
