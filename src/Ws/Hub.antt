-- ===== src/Ws/Hub.antt =====
-- internal/services/ws/hub.go: the clients, the rooms and the messages of the hub. A client is an
-- object that its owner, the hub and the rooms share: a pointer is a number, and the hub's state has
-- the objects. The log is left out, and so are the functions that write server-sent events.
pub mod Membership
pub mod Deliveries
pub mod Consistency
pub mod Silence
mod Tests
use go_backend_core.Prelude.{
  ℕ, ◌-◌, Bool, true, false, Option, none, some, List, [], ◌∷◌, ◌++◌, String, length, drop, ltb,
  ◌||◌, if◌then◌else◌,
}
use go_backend_core.Prelude.Equality.{◌==◌, nat_eq, string_eq}
use go_backend_core.Prelude.Dict.{Dict, read, write, delete}

pub record Client : Type 0 where
  pub id : String
  pub user_id : String
  pub rooms : Dict String Bool
  pub send : List (List ℕ)
  pub has_close : Bool
  pub closed : Bool

pub record Message : Type 0 where
  pub room : String
  pub user_id : String
  pub type : String
  pub payload : List ℕ

-- A handler is a value that the model only looks up.
pub record Hub (Handler : Type 0) : Type 0 where
  pub clients : Dict String ℕ
  pub rooms : Dict String (Dict String ℕ)
  pub handlers : Dict String Handler
  pub history : List Message
  pub objects : ℕ → Client

abbrev pub update : ℕ → Client → (ℕ → Client) → ℕ → Client
update p c objects q = if q == p then c else objects q

-- The channel `Send` holds 256 messages; a full one loses the message.
abbrev pub has_space : Client → Bool
has_space c = ltb (length c.send) 256

abbrev pub deliver : List ℕ → ℕ → (ℕ → Client) → ℕ → Client
deliver payload p objects =
    let c = objects p in
    if has_space c then update p (record c { send = c.send ++ payload ∷ [] }) objects else objects

-- An empty room goes.
abbrev pub keep_room :
    String → Dict String ℕ → Dict String (Dict String ℕ) → Dict String (Dict String ℕ)
keep_room room [] rooms = delete room rooms
keep_room room (m ∷ ms) rooms = write room (m ∷ ms) rooms

abbrev pub without_member :
    String
    → String
    → Dict String (Dict String ℕ)
    → Option (Dict String ℕ)
    → Dict String (Dict String ℕ)
without_member room id rooms none = rooms
without_member room id rooms (some members) = keep_room room (delete id members) rooms

unfoldable pub remove_member :
    String → String → Dict String (Dict String ℕ) → Dict String (Dict String ℕ)
remove_member room id rooms = without_member room id rooms (read room rooms)

-- The loop of `Unregister` over the client's rooms.
unfoldable pub remove_from_all :
    Dict String Bool → String → Dict String (Dict String ℕ) → Dict String (Dict String ℕ)
remove_from_all [] id rooms = rooms
remove_from_all ((room, joined) ∷ rest) id rooms =
    remove_from_all rest id (remove_member room id rooms)

abbrev pub or_empty : Option (Dict String ℕ) → Dict String ℕ
or_empty none = []
or_empty (some members) = members

-- `excludeSet[id]`.
abbrev pub is_excluded : List String → String → Bool
is_excluded [] id = false
is_excluded (x ∷ xs) id = x == id || is_excluded xs id

-- The loop of `BroadcastToRoom`.
unfoldable pub deliver_members : List ℕ → List String → Dict String ℕ → (ℕ → Client) → ℕ → Client
deliver_members payload exclude [] objects = objects
deliver_members payload exclude ((key, p) ∷ members) objects =
    deliver_members payload exclude members
      (if is_excluded exclude (objects p).id then objects else deliver payload p objects)

-- The loop of `BroadcastAll`.
unfoldable pub deliver_all : List ℕ → Dict String ℕ → (ℕ → Client) → ℕ → Client
deliver_all payload [] objects = objects
deliver_all payload ((key, p) ∷ clients) objects =
    deliver_all payload clients (deliver payload p objects)

-- The loop of `SendToUser`, with whether a message was sent.
unfoldable pub deliver_user :
    String → List ℕ → Dict String ℕ → (ℕ → Client) → Bool → (ℕ → Client) × Bool
deliver_user user payload [] objects sent = (objects, sent)
deliver_user user payload ((key, p) ∷ clients) objects sent =
    let is_theirs = (objects p).user_id == user in
    deliver_user user payload clients (if is_theirs then deliver payload p objects else objects)
      (if is_theirs then (if has_space (objects p) then true else sent) else sent)

module _ {Handler : Type 0} where
  abbrev pub new_hub : (ℕ → Client) → Hub Handler
  new_hub objects = record {
    clients = [];
    rooms = [];
    handlers = [];
    history = [];
    objects = objects;
  }

  unfoldable pub register : ℕ → Hub Handler → Hub Handler
  register p h = record h { clients = write (h.objects p).id p h.clients }

  unfoldable pub unregister : ℕ → Hub Handler → Hub Handler
  unregister p h =
      let c = h.objects p in
      record h {
        clients = delete c.id h.clients;
        rooms = remove_from_all c.rooms c.id h.rooms;
        objects = update p (record c { closed = c.closed || c.has_close }) h.objects;
      }

  unfoldable pub join_room : String → ℕ → Hub Handler → Hub Handler
  join_room room p h =
      let c = h.objects p in
      record h {
        rooms = write room (write c.id p (or_empty (read room h.rooms))) h.rooms;
        objects = update p (record c { rooms = write room true c.rooms }) h.objects;
      }

  unfoldable pub leave_room : String → ℕ → Hub Handler → Hub Handler
  leave_room room p h =
      let c = h.objects p in
      record h {
        rooms = remove_member room c.id h.rooms;
        objects = update p (record c { rooms = delete room c.rooms }) h.objects;
      }

  unfoldable pub broadcast_to_room : String → Message → List String → Hub Handler → Hub Handler
  broadcast_to_room room msg exclude h = record h {
    objects = deliver_members msg.payload exclude (or_empty (read room h.rooms)) h.objects;
  }

  unfoldable pub broadcast_all : Message → Hub Handler → Hub Handler
  broadcast_all msg h = record h { objects = deliver_all msg.payload h.clients h.objects }

  abbrev pub send_to : Message → Hub Handler → Option ℕ → Hub Handler × Bool
  send_to msg h none = (h, false)
  send_to msg h (some p) =
      (record h { objects = deliver msg.payload p h.objects }, has_space (h.objects p))

  unfoldable pub send_to_client : String → Message → Hub Handler → Hub Handler × Bool
  send_to_client id msg h = send_to msg h (read id h.clients)

  unfoldable pub send_to_user : String → Message → Hub Handler → Hub Handler × Bool
  send_to_user user msg h =
      let (objects, sent) = deliver_user user msg.payload h.clients h.objects false in
      (record h { objects = objects }, sent)

  unfoldable pub handle_message_type : String → Handler → Hub Handler → Hub Handler
  handle_message_type type handler h = record h { handlers = write type handler h.handlers }

  -- The handler that is called, if there is one.
  unfoldable pub on_message : Message → Hub Handler → Option Handler
  on_message msg h = read msg.type h.handlers

  unfoldable pub client_count : Hub Handler → ℕ
  client_count h = length h.clients

  unfoldable pub room_count : Hub Handler → ℕ
  room_count h = length h.rooms

  unfoldable pub room_member_count : String → Hub Handler → ℕ
  room_member_count room h = length (or_empty (read room h.rooms))

  -- The last 1000 messages.
  unfoldable pub add_history : Message → Hub Handler → Hub Handler
  add_history msg h =
      let history = h.history ++ msg ∷ [] in
      record h {
        history =
            if ltb 1000 (length history) then drop (length history - 1000) history else history;
      }

pub data Call : Type 0 where
  registers unregisters : ℕ → Call
  joins leaves : String → ℕ → Call
  broadcasts : String → Message → List String → Call
  announces : Message → Call
  sends writes_user : String → Message → Call

module _ {Handler : Type 0} where
  unfoldable pub step : Call → Hub Handler → Hub Handler
  step (registers p) h = register p h
  step (unregisters p) h = unregister p h
  step (joins room p) h = join_room room p h
  step (leaves room p) h = leave_room room p h
  step (broadcasts room msg exclude) h = broadcast_to_room room msg exclude h
  step (announces msg) h = broadcast_all msg h
  step (sends id msg) h = (send_to_client id msg h).0
  step (writes_user user msg) h = (send_to_user user msg h).0

  unfoldable pub run : List Call → Hub Handler → Hub Handler
  run [] h = h
  run (c ∷ cs) h = run cs (step c h)
