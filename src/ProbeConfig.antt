-- ===== src/ProbeConfig.antt =====
-- The configuration of a probe, in n-dhcp4-c-probe.c, and n_dhcp4_client_probe_new. The options are
-- the used part of the array of 256 pointers.
pub mod Options
pub mod New
mod Tests
use n_dhcp.Base.{
  ℕ, zero, suc, ◌+◌, ◌*◌, ◌%◌, ◌^◌, Bool, true, false, ◌&&◌, ◌||◌, not, Option, none, some, List,
  [], ◌∷◌, ◌++◌, ltb, leb, ◌==◌, if◌then◌else◌, ◌>>=◌, ◌>>◌, assert, length,
}
use n_dhcp.Protocol.{Error, enomem, duplicate_option, Result, ok, err}
use n_dhcp.Outgoing.Carries.{Item}
use n_dhcp.Connection.{ClientConfig, init_connection}
use n_dhcp.Probe.{Probe, init, init_reboot, Event, cancelled, State, in_state}

-- `struct NDhcp4ClientProbeConfig`. The requested parameters are kept as int8_t, here by their bits.
pub record ProbeConfig : Type 0 where
  pub inform_only : Bool
  pub init_reboot : Bool
  pub requested_ip : ℕ
  pub ms_start_delay : ℕ
  pub options : List Item
  pub request_parameters : List ℕ

-- n_dhcp4_client_probe_config_new, with N_DHCP4_CLIENT_START_DELAY_RFC2131.
abbrev pub fresh : ProbeConfig
fresh = record {
  inform_only = false;
  init_reboot = false;
  requested_ip = 0;
  ms_start_delay = 9000;
  options = [];
  request_parameters = [];
}

unfoldable pub config_new : Bool → Result ProbeConfig
config_new allocated = if allocated then ok fresh else err enomem

abbrev pub set_inform_only : ProbeConfig → Bool → ProbeConfig
set_inform_only c flag = record c { inform_only = flag }

abbrev pub set_init_reboot : ProbeConfig → Bool → ProbeConfig
set_init_reboot c flag = record c { init_reboot = flag }

abbrev pub set_requested_ip : ProbeConfig → ℕ → ProbeConfig
set_requested_ip c ip = record c { requested_ip = ip }

abbrev pub set_start_delay : ProbeConfig → ℕ → ProbeConfig
set_start_delay c msecs = record c { ms_start_delay = msecs }

-- `config->request_parameters[i] == option`, of an int8_t and a uint8_t: a negative number is not
-- equal to any option.
abbrev pub same_parameter : ℕ → ℕ → Bool
same_parameter stored option = ltb stored 128 && stored == option

unfoldable pub is_requested : List ℕ → ℕ → Bool
is_requested [] option = false
is_requested (p ∷ ps) option = same_parameter p option || is_requested ps option

-- n_dhcp4_client_probe_config_request_option
unfoldable pub request_option : ProbeConfig → ℕ → Option ProbeConfig
request_option c option = if is_requested c.request_parameters option then some c else do
  assert (leb (length c.request_parameters) 255)
  some (record c { request_parameters = c.request_parameters ++ (option ∷ []) })

unfoldable pub has_option : List Item → ℕ → Bool
has_option [] option = false
has_option ((code, value) ∷ xs) option = code == option || has_option xs option

-- n_dhcp4_client_probe_config_append_option
unfoldable pub append_option : Bool → ProbeConfig → ℕ → List ℕ → Option (ProbeConfig × Option Error)
append_option allocated c option value =
    if has_option c.options option then some (c, some duplicate_option) else do
      assert (ltb (length c.options) 256)
      some (
          if allocated
          then (record c { options = c.options ++ ((option, value) ∷ []) }, none)
          else (c, some enomem))

-- The loop of n_dhcp4_client_probe_config_dup over the options, from the k-th one on.
unfoldable pub dup_options : (ℕ → Bool) → ℕ → List Item → List Item → Result (List Item)
dup_options memory k [] done = ok done
dup_options memory k (item ∷ xs) done =
    let rest = dup_options memory (k + 1) xs (done ++ (item ∷ [])) in
    if memory k then rest else err enomem

abbrev pub with_options : ProbeConfig → Result (List Item) → Result ProbeConfig
with_options c (err e) = err e
with_options c (ok options) = ok (record fresh {
  inform_only = c.inform_only;
  init_reboot = c.init_reboot;
  requested_ip = c.requested_ip;
  ms_start_delay = c.ms_start_delay;
  options = options;
  request_parameters = c.request_parameters;
})

-- n_dhcp4_client_probe_config_dup
unfoldable pub config_dup : (ℕ → Bool) → ProbeConfig → Result ProbeConfig
config_dup memory c =
    if memory 0 then with_options c (dup_options memory 1 c.options []) else err enomem

-- The delay of the first DISCOVER: `random` modulo a product of uint64_t; the C division by zero is
-- a fault.
unfoldable pub start_delay : ℕ → ProbeConfig → Option ℕ
start_delay random c = do
  let range = c.ms_start_delay * 1000000 % 2 ^ 64
  assert (not (range == 0))
  some (random % range)

abbrev pub first_state : ProbeConfig → State
first_state c = if c.init_reboot && not (c.requested_ip == 0) then init_reboot else init

abbrev pub blank : ClientConfig → Bool → ProbeConfig → Probe
blank client_config active c = record {
  options = c.options;
  state = first_state c;
  last_address = c.requested_ip;
  ns_deferred = 0;
  ns_reinit = 0;
  ns_nak_restart_delay = 0;
  ns_decline_restart_delay = 0;
  current_lease = none;
  lease_list = [];
  events = [];
  n_leases = 0;
  preempted = false;
  connection = init_connection client_config c.request_parameters active;
}

-- The end of n_dhcp4_client_probe_new; `active` says whether the client has no probe yet.
abbrev pub activate : ℕ → ℕ → ProbeConfig → Probe → Option (Result Probe)
activate random ns_now c p =
    if in_state p.state init
    then (do
      delay ← start_delay random c
      some (ok (record p { ns_deferred = (ns_now + delay) % 2 ^ 64 })))
    else some (ok p)

abbrev pub cancel : Bool → Probe → Option (Result Probe)
cancel node_memory p =
    if node_memory then some (ok (record p { events = cancelled ∷ [] })) else some (err enomem)

abbrev pub create : ClientConfig → Bool → Bool → ℕ → ℕ → Result ProbeConfig → Option (Result Probe)
create client_config active node_memory random ns_now (err e) = some (err e)
create client_config active node_memory random ns_now (ok c) =
    let p = blank client_config active c in
    if active then activate random ns_now c p else cancel node_memory p

-- n_dhcp4_client_probe_new, with a random number of 32 bits. `allocated` says whether calloc found
-- memory for the probe.
unfoldable pub probe_new :
    Bool → (ℕ → Bool) → Bool → ℕ → ClientConfig → Bool → ProbeConfig → ℕ → Option (Result Probe)
probe_new allocated memory node_memory random client_config active c ns_now =
    if allocated
    then create client_config active node_memory random ns_now (config_dup memory c)
    else some (err enomem)
