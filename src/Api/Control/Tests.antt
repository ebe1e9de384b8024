-- ===== src/Api/Control/Tests.antt =====
-- The chatbox at a blank text.
use virtual_helmsman.Prelude.{◌≡◌, refl, strip}
use virtual_helmsman.Events.{new_bus}
use virtual_helmsman.Pipeline.{assemble_task}
use virtual_helmsman.Api.Control.{send_text, refused}

-- A text of white space alone is refused.
blank_text :
    send_text "  " (new_bus 4) (assemble_task "Steer.")
    ≡ (refused 400, new_bus 4, assemble_task "Steer.")
unfolding send_text strip
blank_text = refl
