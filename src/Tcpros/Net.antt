-- ===== src/Tcpros/Net.antt =====
-- Sockets: what the code uses of tokio's `TcpStream`, of `Url` and of the resolver behind it.
use rosrust_async.Base.{
  ℕ, ◌^◌, ◌<◌, Bool, true, if◌then◌else◌, List, [], ◌∷◌, ◌++◌, Str, length, Result, ok, err, ◌+◌,
  ◌-◌, ◌≤◌, ◌≡◌, Option, some, get_elem?, refl,
}
use rosrust_async.Base.Action.{Action}
use rosrust_async.Tcpros.Bytes.{IoError, unexpected_eof, read_tcpros_frame, frame}

-- An IP address and a port.
abbrev pub SocketAddr : Type 0
SocketAddr = Str × ℕ

-- A connection: the bytes to come, those written so far, whether the peer still takes any, and what setting
-- TCP_NODELAY gives.
pub record Connection : Type 0 where
  pub incoming : Str
  pub sent : Str
  pub open_end : Bool
  pub nodelay : Result IoError (Unit {0})

-- One whose peer takes what is written, and whose options can be set.
abbrev pub connection : Str → Str → Connection
connection incoming sent = record {
  incoming = incoming;
  sent = sent;
  open_end = true;
  nodelay = ok tt;
}

unfoldable pub write_all : Str → Connection → Result IoError Connection
write_all bytes c =
    if c.open_end then ok (record c { sent = c.sent ++ bytes }) else err IoError.other

abbrev pub Fits : Str → Type 0
Fits message = length message < 2 ^ 32

-- Messages one after the other, as they go over a stream.
abbrev pub calls : List Str → Str
calls [] = []
calls (message ∷ rest) = frame message ++ calls rest

-- The frames of some messages, in order.
abbrev pub frames : List Str → List Str
frames [] = []
frames (msg ∷ rest) = frame msg ∷ frames rest

pub frames-length : (msgs : List Str) → length (frames msgs) ≡ length msgs
frames-length [] = refl
frames-length (msg ∷ rest) = rw (frames-length rest) refl

-- Reads that keep the connection when they fail: a read that meets the end has taken all there was.
unfoldable pub read_frame : Action Connection IoError Str
read_frame c = elim (read_tcpros_frame c.incoming) [
  | ok (content, rest) ↦ (ok content, record c { incoming = rest })
  | err e ↦ (err e, record c { incoming = [] })
]

read_first : Str → Connection → Result IoError ℕ × Connection
read_first [] c = (err unexpected_eof, c)
read_first (b ∷ rest) c = (ok b, record c { incoming = rest })

unfoldable pub read_u8 : Action Connection IoError ℕ
unfolding read_first
read_u8 c = read_first c.incoming c

unfoldable pub write : Str → Action Connection IoError (Unit {0})
unfolding write_all
write bytes c = elim (write_all bytes c) [ ok c' ↦ (ok tt, c') | err e ↦ (err e, c) ]

-- The network of a world: URLs, name resolution, connections and listeners.
pub record Net (W : Type 0) : Type 1 where
  pub Url : Type 0
  pub ParseError : Type 0
  pub parse_url : Str → Result ParseError Url
  pub url_text : Url → Str
  pub socket_addrs : Url → Action W IoError (List SocketAddr)
  pub connect : SocketAddr → Action W IoError Connection
  pub bind : SocketAddr → Action W IoError SocketAddr

-- tokio's broadcast channel, whose senders' messages are a list.
-- A receiver is the number of messages that it has behind it. It waits (`none`) when there is no other,
-- and gets them in order while no more are before it than the channel holds.
pub record Broadcast : Type 1 where
  pub RecvError : Type 0
  pub is_closed : RecvError → Bool
  pub capacity : ℕ
  pub recv : ℕ → List Str → Option (Result RecvError Str × ℕ)
  pub recv_next :
      (n : ℕ) (sent : List Str) (msg : Str)
      → get_elem? sent n ≡ some msg
      → length sent - n ≤ capacity
      → recv n sent ≡ some (ok msg, n + 1)
