-- ===== src/Client/Queue.antt =====
-- The events of a client in n-dhcp4-client.c: the linked list of nodes that n_dhcp4_client_raise,
-- n_dhcp4_log_queue_fmt and n_dhcp4_client_pop_event change.
pub mod Fifo
use n_dhcp.Base.{
  ℕ, Bool, true, false, ◌||◌, Option, none, some, List, [], ◌∷◌, ◌++◌, leb, if◌then◌else◌,
}
use n_dhcp.Probe.{Event}

-- `NDhcp4ClientEvent`. The event of the static node `nomem_node` is `lost`.
pub data ClientEvent : Type 0 where
  down_event lost : ClientEvent
  from_probe : Event → ClientEvent
  log : ℕ → List ℕ → ClientEvent

-- `struct NDhcp4CEventNode`; the list of the client is the list of its nodes.
pub record Node : Type 0 where
  pub event : ClientEvent
  pub is_public : Bool

-- A node that was just linked at the tail.
abbrev pub linked : ClientEvent → Node
linked e = record { event = e; is_public = false }

-- n_dhcp4_client_raise, after the node was allocated.
abbrev pub raise : ClientEvent → List Node → List Node
raise e nodes = nodes ++ (linked e ∷ [])

-- A level of syslog; `log_level` is `none` for a negative number.
abbrev pub Level : Type 0
Level = Option ℕ

abbrev pub err_level : ℕ
err_level = 3

abbrev pub is_logged : Level → ℕ → Bool
is_logged none level = false
is_logged (some log_level) level = leb level log_level

abbrev pub is_lost : ClientEvent → Bool
is_lost lost = true
is_lost _ = false

-- Whether `nomem_node` is in the list.
unfoldable pub has_lost : List Node → Bool
has_lost [] = false
has_lost (n ∷ ns) = is_lost n.event || has_lost ns

-- The event that a message becomes, with what calloc and vasprintf give.
abbrev pub log_event : Bool → Option (List ℕ) → ℕ → ClientEvent
log_event memory none level = lost
log_event memory (some text) level = if memory then log level text else lost

-- n_dhcp4_log_queue_fmt, for the queue of a client.
unfoldable pub log_fmt : Bool → Option (List ℕ) → Level → ℕ → List Node → List Node
log_fmt memory text log_level level nodes =
    if is_logged log_level level
    then (if has_lost nodes then nodes else raise (log_event memory text level) nodes)
    else nodes

-- n_dhcp4_client_pop_event
unfoldable pub pop_event : List Node → List Node × Option ClientEvent
pop_event [] = ([], none)
pop_event (n ∷ ns) =
    let rest = pop_event ns in
    if n.is_public then rest else (record n { is_public = true } ∷ ns, some n.event)
