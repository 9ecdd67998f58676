-- ===== src/Section/Examples.antt =====
-- A test of a section.
use rinklers.Prelude.{◌≡◌, refl, false, true}
use rinklers.Section.{noop_section, noop, log, new_noop, log_section}

-- A new section is off, is turned on, and keeps its name.
garden_turned_on :
    let s = new_noop "Garden" in
    (log_section.state s ≡ false)
    × (log_section.state (log_section.set_state s true) ≡ true)
    × (log_section.name (log_section.set_state s true) ≡ "Garden")
unfolding new_noop log noop
garden_turned_on = (refl, refl, refl)
