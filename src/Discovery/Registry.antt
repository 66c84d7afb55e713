-- ===== src/Discovery/Registry.antt =====
-- internal/services/discovery/discovery.go: the registry in memory and its watchers. A channel is a
-- number, and the registry's state has the channels with what they hold; a send on a closed channel,
-- or a second close of one, panics. A method under the mutex is one step, and so is what the goroutine
-- of `Watch` does once its context is done. The time to live is given to `Register` and not used.
pub mod Known
pub mod Discovered
pub mod Channels
pub mod Added
pub mod Watched
mod Tests
use go_backend_core.Prelude.{
  ℕ, ◌+◌, ◌&&◌, ◌||◌, Bool, true, false, Option, none, some, List, [], ◌∷◌, ◌++◌, String, length,
  map, ltb, keep, if◌then◌else◌,
}
use go_backend_core.Prelude.Int.{ℤ}
use go_backend_core.Prelude.Equality.{◌==◌, nat_eq, string_eq}
use go_backend_core.Prelude.Dict.{Dict, read, write, delete}

pub record Instance : Type 0 where
  pub id : String
  pub name : String
  pub address : String
  pub port : ℤ
  pub tags : List String
  pub metadata : Dict String String
  pub status : String
  pub last_seen : ℕ

-- A channel of `Watch`, for the service `name`.
pub record Channel : Type 0 where
  pub name : String
  pub held : List (List Instance)
  pub closed : Bool

-- The channels from `next` on are not made yet.
pub record MemoryRegistry : Type 0 where
  pub instances : Dict String Instance
  pub watchers : Dict String (List ℕ)
  pub channels : ℕ → Channel
  pub next : ℕ
  pub panicked : Bool

abbrev pub new_memory_registry : MemoryRegistry
new_memory_registry = record {
  instances = [];
  watchers = [];
  channels = λ ch. record { name = ""; held = []; closed = false };
  next = 0;
  panicked = false;
}

abbrev pub put : ℕ → Channel → (ℕ → Channel) → ℕ → Channel
put ch c channels other = if other == ch then c else channels other

abbrev pub or_none : Option (List ℕ) → List ℕ
or_none none = []
or_none (some chs) = chs

abbrev pub is_named : String → Instance → Bool
is_named name inst = inst.name == name

abbrev pub values : Dict String Instance → List Instance
values m = map (λ e. e.1) m

unfoldable pub snapshot : String → MemoryRegistry → List Instance
snapshot name r = keep (is_named name) (values r.instances)

-- `select { case ch <- ...: default: }`; a channel holds 16 snapshots.
abbrev pub send : List Instance → ℕ → MemoryRegistry → MemoryRegistry
send sent ch r =
    let c = r.channels ch in
    if c.closed
    then record r { panicked = true }
    else if ltb (length c.held) 16
    then record r { channels = put ch (record c { held = c.held ++ sent ∷ [] }) r.channels }
    else r

-- The loop of `notifyWatchers`.
unfoldable pub send_all : List Instance → List ℕ → MemoryRegistry → MemoryRegistry
send_all sent [] r = r
send_all sent (ch ∷ chs) r = send_all sent chs (send sent ch r)

unfoldable pub notify_watchers : String → MemoryRegistry → MemoryRegistry
notify_watchers name r = send_all (snapshot name r) (or_none (read name r.watchers)) r

unfoldable pub register : Instance → ℕ → MemoryRegistry → MemoryRegistry
register inst now r = notify_watchers inst.name (record r {
  instances = write inst.id (record inst { status = "up"; last_seen = now }) r.instances;
})

-- `false` is the error that the instance was not found.
abbrev pub deregister_found : String → MemoryRegistry → Option Instance → MemoryRegistry × Bool
deregister_found id r none = (r, false)
deregister_found id r (some inst) =
    (notify_watchers inst.name (record r { instances = delete id r.instances }), true)

unfoldable pub deregister : String → MemoryRegistry → MemoryRegistry × Bool
deregister id r = deregister_found id r (read id r.instances)

abbrev pub renew_found : String → ℕ → MemoryRegistry → Option Instance → MemoryRegistry × Bool
renew_found id now r none = (r, false)
renew_found id now r (some inst) = (
  record r { instances = write id (record inst { last_seen = now; status = "up" }) r.instances },
  true,
)

unfoldable pub renew : String → ℕ → MemoryRegistry → MemoryRegistry × Bool
renew id now r = renew_found id now r (read id r.instances)

unfoldable pub discover : String → MemoryRegistry → List Instance
discover name r = keep (λ inst. inst.name == name && inst.status == "up") (values r.instances)

unfoldable pub list : MemoryRegistry → List Instance
list r = values r.instances

unfoldable pub watch : String → MemoryRegistry → MemoryRegistry × ℕ
watch name r = (
  record r {
    watchers = write name (or_none (read name r.watchers) ++ r.next ∷ []) r.watchers;
    channels = put r.next (record { name = name; held = []; closed = false }) r.channels;
    next = r.next + 1;
  },
  r.next,
)

abbrev pub close_channel : ℕ → MemoryRegistry → MemoryRegistry
close_channel ch r =
    let c = r.channels ch in
    record r {
      panicked = c.closed || r.panicked;
      channels = put ch (record c { closed = true }) r.channels;
    }

-- `append(watchers[:i], watchers[i+1:]...)` at the first that is the channel.
unfoldable pub without_channel : ℕ → List ℕ → List ℕ
without_channel ch [] = []
without_channel ch (w ∷ ws) = if w == ch then ws else w ∷ without_channel ch ws

abbrev pub unwatch : String → ℕ → MemoryRegistry → Option (List ℕ) → MemoryRegistry
unwatch name ch r none = r
unwatch name ch r (some ws) = record r { watchers = write name (without_channel ch ws) r.watchers }

-- The goroutine of `Watch` of this channel, whose loop writes the list back if it has the channel.
unfoldable pub cancel : ℕ → MemoryRegistry → MemoryRegistry
cancel ch r =
    let name = (r.channels ch).name in close_channel ch (unwatch name ch r (read name r.watchers))

-- The loops of `Close`.
unfoldable pub close_channels : List ℕ → MemoryRegistry → MemoryRegistry
close_channels [] r = r
close_channels (ch ∷ chs) r = close_channels chs (close_channel ch r)

unfoldable pub close_all : Dict String (List ℕ) → MemoryRegistry → MemoryRegistry
close_all [] r = r
close_all ((name, chs) ∷ rest) r = close_all rest (close_channels chs r)

unfoldable pub close : MemoryRegistry → MemoryRegistry
close r = record (close_all r.watchers r) { instances = []; watchers = [] }

pub data Call : Type 0 where
  registers : Instance → Call
  deregisters renews watches : String → Call
  cancels : ℕ → Call
  closes : Call

unfoldable pub step : ℕ → Call → MemoryRegistry → MemoryRegistry
step now (registers inst) r = register inst now r
step now (deregisters id) r = (deregister id r).0
step now (renews id) r = (renew id now r).0
step now (watches name) r = (watch name r).0
step now (cancels ch) r = cancel ch r
step now closes r = close r

unfoldable pub run : List (ℕ × Call) → MemoryRegistry → MemoryRegistry
run [] r = r
run ((now, call) ∷ calls) r = run calls (step now call r)
