-- ===== src/Build/Tests.antt =====
-- The hints of build.rs for some symbols.
use esp32_dap_proxy.Prelude.{◌≡◌, refl, none, some}
use esp32_dap_proxy.Prelude.Text.{codes}
use esp32_dap_proxy.Build.{hint_for, defmt, alloc}

defmt_hint : hint_for (codes "_defmt_timestamp") ≡ some defmt
unfolding hint_for
defmt_hint = refl

alloc_hint : hint_for (codes "malloc") ≡ some alloc
unfolding hint_for
alloc_hint = refl

no_hint : hint_for (codes "mallocs") ≡ none
unfolding hint_for
no_hint = refl
