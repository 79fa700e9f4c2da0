-- ===== src/Tests/Ports.antt =====
-- Port specifications.
use m_ui.Base.{◌≡◌, ◌↔◌, true, codes}
use m_ui.Base.Int.{ℤ}
use m_ui.Listener.Ports.{ports_overlap, port_ranges}
use m_ui.Listener.Ports.Overlap.{has_port, ports_overlap_iff}

ports_overlap_iff_example : (ports_overlap (codes "80,443-500") (codes "490-600") ≡ true) ↔ (
    (p : ℤ) × (has_port p (port_ranges (codes "80,443-500")) ≡ true)
    × (has_port p (port_ranges (codes "490-600")) ≡ true))
ports_overlap_iff_example = ports_overlap_iff (codes "80,443-500") (codes "490-600")
