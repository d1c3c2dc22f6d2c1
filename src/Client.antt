-- ===== src/Client.antt =====
-- n-dhcp4-client.c: the client object, which has a probe, the queue of events and the timer. The
-- configuration is in Client.Settings, the queue in Client.Queue.
pub mod Settings
pub mod Queue
pub mod New
pub mod Scheduled
pub mod Armed
pub mod Failed
pub mod Calls
mod Tests
use n_dhcp.Base.{
  ℕ, ◌+◌, ◌-◌, Bool, true, false, ◌||◌, Option, none, some, List, [], ◌∷◌, ◌++◌, map, leb, ◌==◌,
  if◌then◌else◌, ◌>>=◌,
}
use n_dhcp.Protocol.{
  Error, unexpected, no_space, malformed, dropped, down, again, preempted, internal, enomem,
  enotrecoverable, Result, ok, err,
}
use n_dhcp.Incoming.{Incoming}
use n_dhcp.Probe.{Probe, Env, Run}
use n_dhcp.Probe.Transitions.{probe_timeout, dispatch_message}
use n_dhcp.Probe.Transitions
use n_dhcp.Client.Settings.{Config, to_connection}
use n_dhcp.Client.Queue.{Node, from_probe, down_event, linked, raise, Level, log_fmt, err_level}

-- `struct NDhcp4Client`, without its descriptors. `armed` is the clock and the relative time of the
-- last call of timerfd_settime since an expiration of the timer was read.
pub record Client : Type 0 where
  pub config : Config
  pub nodes : List Node
  pub log_level : Level
  pub mtu : ℕ
  pub current_probe : Option Probe
  pub scheduled_timeout : ℕ
  pub armed : Option (ℕ × ℕ)
  pub preempted : Bool

abbrev pub Call : Type 0
Call = Option (Client × Option Error)

abbrev pub timeout_or_none : Option Probe → Option ℕ
timeout_or_none none = some 0
timeout_or_none (some p) = probe_timeout p

-- The timeout that n_dhcp4_client_arm_timer asks for.
unfoldable pub client_timeout : Client → Option ℕ
client_timeout c = timeout_or_none c.current_probe

abbrev pub settime : ℕ → Client → ℕ → Client
settime clock c timeout = if timeout == c.scheduled_timeout then c else record c {
  armed = some (clock, if leb timeout clock then 1 else timeout - clock);
  scheduled_timeout = timeout;
}

-- n_dhcp4_client_arm_timer, at the time that the clock gives.
unfoldable pub arm_timer : ℕ → Client → Option Client
arm_timer clock c = do timeout ← client_timeout c; some (settime clock c timeout)

-- A probe raises its events at the client and sets its `preempted` flag.
abbrev pub lend : Client → Probe → Probe
lend c p = record p { events = []; preempted = c.preempted }

abbrev pub give_back : Client → Probe → Client
give_back c p = record c {
  current_probe = some (record p { events = [] });
  nodes = c.nodes ++ map (λ e. linked (from_probe e)) p.events;
  preempted = p.preempted;
}

unfoldable pub on_probe : Client → Run → Call
on_probe c none = none
on_probe c (some (p, r)) = some (give_back c p, r)

-- What read(2) on the timer gives: an error, eight bytes that count at least one expiration, or
-- anything else.
pub data Read : Type 0 where
  failed : Error → Read
  ticks other : Read

abbrev pub is_again : Error → Bool
is_again again = true
is_again _ = false

abbrev pub expire : Env → ℕ → Client → Option Probe → Call
expire env ns_now c none = some (c, none)
expire env ns_now c (some p) = on_probe c (Transitions.dispatch_timer env (lend c p) ns_now)

abbrev pub on_read : Env → ℕ → Client → Read → Call
on_read env ns_now c (failed e) = some (c, if is_again e then none else some e)
on_read env ns_now c other = some (c, some enotrecoverable)
on_read env ns_now c ticks = expire env ns_now (record c { armed = none }) c.current_probe

-- n_dhcp4_client_dispatch_timer
unfoldable pub client_dispatch_timer : Env → Bool → Bool → Read → ℕ → Client → Call
client_dispatch_timer env hup_or_err readable result ns_now c =
    if hup_or_err
    then some (c, some enotrecoverable)
    else if readable
    then on_read env ns_now c result
    else some (c, none)

abbrev pub io_in : Env → Bool → Result Incoming → Result Incoming → Client → Option Probe → Call
io_in env allocated from_packet from_udp c none = some (c, some enotrecoverable)
io_in env allocated from_packet from_udp c (some p) =
    on_probe c (dispatch_message env (lend c p) allocated from_packet from_udp)

-- n_dhcp4_client_dispatch_io
unfoldable pub client_dispatch_io : Env → Bool → Result Incoming → Result Incoming → Client → Call
client_dispatch_io env allocated from_packet from_udp c =
    io_in env allocated from_packet from_udp c c.current_probe

-- An event of epoll_wait, with what the calls of its handler get.
pub data Polled : Type 0 where
  timer : Bool → Bool → Read → ℕ → Polled
  io : Bool → Result Incoming → Result Incoming → Polled
  unknown : Polled

-- What the surroundings give for one event: to its handler, to the allocation of a DOWN event, and
-- to the allocation and the text of a log message.
pub record Turn : Type 0 where
  pub polled : Polled
  pub env : Env
  pub event_memory : Bool
  pub log_memory : Bool
  pub log_text : Option (List ℕ)

unfoldable pub handle : Polled → Env → Client → Call
handle (timer hup_or_err readable result ns_now) env c =
    client_dispatch_timer env hup_or_err readable result ns_now c
handle (io allocated from_packet from_udp) env c =
    client_dispatch_io env allocated from_packet from_udp c
handle unknown env c = none

-- `r >= _N_DHCP4_E_INTERNAL`
unfoldable pub is_private : Error → Bool
is_private unexpected = true
is_private no_space = true
is_private malformed = true
is_private dropped = true
is_private down = true
is_private again = true
is_private _ = false

unfoldable pub is_down : Error → Bool
is_down down = true
is_down _ = false

abbrev pub raise_down : Bool → Client → Client × Option Error
raise_down memory c =
    if memory then (record c { nodes = raise down_event c.nodes }, none) else (c, some enomem)

abbrev pub give_up : Turn → Client → Error → Client × Option Error
give_up turn c e =
    if is_private e
    then (
      record c { nodes = log_fmt turn.log_memory turn.log_text c.log_level err_level c.nodes },
      some internal,
    )
    else (c, some e)

-- What follows after the handler of an event returned.
unfoldable pub settle : Turn → Call → Call
settle turn none = none
settle turn (some (c, none)) = some (c, none)
settle turn (some (c, some e)) =
    some (if is_down e then raise_down turn.event_memory c else give_up turn c e)

-- The loop of n_dhcp4_client_dispatch.
unfoldable pub dispatch_turns : List Turn → Client → Call
dispatch_turns [] c = some (c, none)
dispatch_turns (turn ∷ turns) c = elim (settle turn (handle turn.polled turn.env c)) [
  | none ↦ none
  | some (c', none) ↦ dispatch_turns turns c'
  | some (c', some e) ↦ some (c', some e)
]

unfoldable pub finish : ℕ → Call → Call
finish clock none = none
finish clock (some (c, some e)) = some (c, some e)
finish clock (some (c, none)) = do
  c' ← arm_timer clock c
  some (c', if c'.preempted then some preempted else none)

-- n_dhcp4_client_dispatch, with the events of epoll_wait and the clock of the timer.
unfoldable pub dispatch : Result (List Turn) → ℕ → Client → Call
dispatch (err e) clock c = some (c, some e)
dispatch (ok turns) clock c = finish clock (dispatch_turns turns (record c { preempted = false }))
