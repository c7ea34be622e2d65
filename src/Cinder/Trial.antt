-- ===== src/Cinder/Trial.antt =====
-- Runs of the functions on small files.
use pure_hypervisor_integrat.Prelude.{◌≡◌, refl, true, some}
use pure_hypervisor_integrat.Prelude.Text.{strip_left, strip, drop, starts_with}
use pure_hypervisor_integrat.Cinder.Stanza.{
  build_enabled_backends, stanza_exists, split_at, find_value, value_here, first_line, stripped,
}

added_to_others : build_enabled_backends "x = 1\n enabled_backends = a, b\n" "c" ≡ some "a,b,c"
unfolding build_enabled_backends find_value value_here first_line stripped split_at strip strip_left
    drop starts_with
added_to_others = refl

-- an empty value makes the pattern take the line that follows for it
takes_next_line : build_enabled_backends "enabled_backends =\n[lvm]\n" "pure" ≡ some "[lvm],pure"
unfolding build_enabled_backends find_value value_here first_line stripped split_at strip strip_left
    drop starts_with
takes_next_line = refl

header_found : stanza_exists "[DEFAULT]\n  [pure] \nx = 1\n" "pure" ≡ true
unfolding stanza_exists split_at strip strip_left
header_found = refl
