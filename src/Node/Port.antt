-- ===== src/Node/Port.antt =====
-- The reply port of a message: `reply.send(…)?` in the handlers of rosrust-async/src/node/actors.
use rosrust_async.Base.{Bool, if◌then◌else◌, ok, err}
use rosrust_async.Base.Action.{Action}

-- The error of ractor with which a handler fails when the caller is gone.
pub data MessagingErr : Type 0 where
  channel_closed : MessagingErr

-- Whether the caller is there. What the handler has done by then stays.
abbrev pub send_reply : {X R : Type 0} → Bool → R → Action X MessagingErr R
send_reply heard reply x = (if heard then ok reply else err channel_closed, x)
