-- ===== src/Listener/Address.antt =====
-- The address that a listener binds (backend/internal/listener/endpoints.go).
use m_ui.Base.{not, [], if◌then◌else◌, ◌==◌, text_eq, Text, trim_space, codes}
use m_ui.Models.{Listener}

unfoldable pub first_listener_address : Listener → Text
first_listener_address l =
    if not (trim_space l.listen == [])
    then trim_space l.listen
    else if not (trim_space l.bind_address == [])
    then trim_space l.bind_address
    else codes "0.0.0.0"
