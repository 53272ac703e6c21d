-- ===== src/Chart.antt =====
-- backend/chart/markers.py: the markers of decisions, and the links between them.
pub mod Links
pub mod Markers
