-- ===== src/Simulator/Handles/Again.antt =====
-- get_handle on a name that the simulator knows.
use hgdb.Prelude.Maps.{text_key}
