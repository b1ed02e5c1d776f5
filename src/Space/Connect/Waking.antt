-- ===== src/Space/Connect/Waking.antt =====
-- A client that connects to a space before it is open, and the token that opens it (ts_connect_handler
-- and connect_token_next of src/tsd/tsd.c).
use synergy_wrapper.Space.Zlistx.{Zlistx}
use synergy_wrapper.Space.Element.{Element}
