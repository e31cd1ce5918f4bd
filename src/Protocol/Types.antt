-- ===== src/Protocol/Types.antt =====
-- protocol/types.py: the frame discriminators and the roles.
use lumencast_py.Prelude.{String, Bool, true, false}

abbrev pub frame_snapshot : String
frame_snapshot = "snapshot"

abbrev pub frame_delta : String
frame_delta = "delta"

abbrev pub frame_scene_changed : String
frame_scene_changed = "scene_changed"

abbrev pub frame_error : String
frame_error = "error"

abbrev pub frame_pong : String
frame_pong = "pong"

abbrev pub frame_subscribe : String
frame_subscribe = "subscribe"

abbrev pub frame_input : String
frame_input = "input"

abbrev pub frame_ping : String
frame_ping = "ping"

abbrev pub frame_unsubscribe : String
frame_unsubscribe = "unsubscribe"

pub data Role : Type 0 where
  viewer operator service test : Role

unfoldable pub can_write_inputs : Role → Bool
can_write_inputs operator = true
can_write_inputs service = true
can_write_inputs _ = false

unfoldable pub can_write_test : Role → Bool
can_write_test test = true
can_write_test _ = false
