-- ===== src/Fanout.antt =====
-- go/internal/fanout/hub.go: the broadcast to the console. Each connection is one goroutine of
-- ServeHTTP, which takes frames from its channel and writes them; a move is one turn of its select, a
-- registration or its end, or a call of Publish, and a run is a sequence of moves. A channel is its
-- number; a frame that `json.Marshal` refuses is `none`.
pub mod Isolation
pub mod Bounded
pub mod Delivery
use payment_infrastructure.Base.{
  ℕ, suc, String, Bool, true, false, List, [], ◌∷◌, ◌++◌, Option, none, some, bytes, concat, length,
  ltb, ◌==◌, if◌then◌else◌,
}
use payment_infrastructure.Audit.{Bytes}

-- The buffer of a client's channel.
abbrev pub client_buffer : ℕ
client_buffer = 32

-- A connection: the frames in its channel, and what has been written to the response.
pub record Client : Type 0 where
  pub queue : List Bytes
  pub written : List Bytes

pub record Hub : Type 0 where
  pub clients : List (ℕ × Client)

abbrev pub new_hub : Hub
new_hub = record { clients = [] }

unfoldable pub frame_of : String → Bytes → Bytes
frame_of event payload =
    bytes (concat (concat "event: " event) "\ndata: ") ++ (payload ++ (10 ∷ 10 ∷ []))

abbrev pub heartbeat_frame : Bytes
heartbeat_frame = bytes ": heartbeat\n\n"

-- The select of Publish on one channel: a full one drops the frame.
unfoldable pub offer : Bytes → Client → Client
offer frame c =
    if ltb (length c.queue) client_buffer then record c { queue = c.queue ++ frame ∷ [] } else c

abbrev offer_all : Bytes → List (ℕ × Client) → List (ℕ × Client)
offer_all frame [] = []
offer_all frame (entry ∷ rest) = (entry.0, offer frame entry.1) ∷ offer_all frame rest

unfoldable pub publish : String → Option Bytes → Hub → Hub
unfolding offer
publish event none h = h
publish event (some payload) h = record { clients = offer_all (frame_of event payload) h.clients }

-- `delete(h.clients, ch)`
unfoldable pub remove : ℕ → List (ℕ × Client) → List (ℕ × Client)
remove id [] = []
remove id (entry ∷ rest) = if entry.0 == id then remove id rest else entry ∷ remove id rest

-- `h.clients[ch] = struct{}{}` for a channel that has just been made.
unfoldable pub connect : ℕ → Hub → Hub
unfolding remove
connect id h = record { clients = (id, record { queue = []; written = [] }) ∷ remove id h.clients }

unfoldable pub leave : ℕ → Hub → Hub
unfolding remove
leave id h = record { clients = remove id h.clients }

unfoldable pub find : ℕ → List (ℕ × Client) → Option Client
find id [] = none
find id (entry ∷ rest) = if entry.0 == id then some entry.1 else find id rest

unfoldable pub replace : ℕ → Client → Hub → Hub
unfolding remove
replace id c h = record { clients = (id, c) ∷ remove id h.clients }

-- A write to the response: an error ends the connection.
unfoldable pub write_frame : ℕ → Bytes → (fails : Bool) → Client → Hub → Hub
unfolding leave replace
write_frame id frame true c h = leave id h
write_frame id frame false c h = replace id (record c { written = c.written ++ frame ∷ [] }) h

-- The case `frame := <-ch`, which waits while the channel is empty.
unfoldable pub deliver_from : ℕ → (fails : Bool) → Client → List Bytes → Hub → Hub
unfolding write_frame
deliver_from id fails c [] h = h
deliver_from id fails c (frame ∷ queue) h =
    write_frame id frame fails (record c { queue = queue }) h

pub data HubMove : Type 0 where
  publishes : String → Option Bytes → HubMove
  connects : ℕ → HubMove
  leaves : ℕ → HubMove
  delivers : ℕ → (fails : Bool) → HubMove
  beats : ℕ → (fails : Bool) → HubMove

-- A move of a connection that is not there does nothing.
unfoldable pub hub_step : HubMove → Hub → Hub
unfolding publish connect leave deliver_from write_frame
hub_step (publishes event payload) h = publish event payload h
hub_step (connects id) h = connect id h
hub_step (leaves id) h = leave id h
hub_step (delivers id fails) h = elim (find id h.clients) [
  | none ↦ h
  | some c ↦ deliver_from id fails c c.queue h
]
hub_step (beats id fails) h = elim (find id h.clients) [
  | none ↦ h
  | some c ↦ write_frame id heartbeat_frame fails c h
]

unfoldable pub hub_run : List HubMove → Hub → Hub
unfolding hub_step
hub_run [] h = h
hub_run (mv ∷ mvs) h = hub_run mvs (hub_step mv h)
