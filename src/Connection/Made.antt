-- ===== src/Connection/Made.antt =====
-- n_dhcp4_c_connection_new_message and the requests that are made with it.
use n_dhcp.Base.{
  ℕ, ◌≡◌, ◌≢◌, refl, subst, ap, inl, inr, Bool, true, false, ◌||◌, some, [], ◌∷◌, arith, ltb, ◌==◌,
  if◌then◌else◌, length, Bool-cases,
}
use n_dhcp.Protocol.{enomem, ok, ok_inj, err, bytes16}
use n_dhcp.Protocol.Opt
use n_dhcp.Protocol.Message
use n_dhcp.Memory.{write, calloc}
use n_dhcp.Incoming.Query.{and_then}
use n_dhcp.Outgoing.{Outgoing, new, blank}
use n_dhcp.Outgoing.Valid.{fresh, blank-Valid}
use n_dhcp.Outgoing.Overload.{IsPlain}
use n_dhcp.Outgoing.Header.{userdata-Valid}
use n_dhcp.Outgoing.Userdata.{Userdata}
use n_dhcp.Connection.{Connection}
use n_dhcp.Connection.Requests.{
  append_to, message_type_of, append_parameters, max_message_size, new_message,
}
use n_dhcp.Connection.Build.{
  Gives, GivesOne, Made, Accepts, append_to-Gives, and_then-Gives, init_header-at,
}

-- The userdata of a new request.
abbrev pub request_data : ℕ → ℕ → Userdata
request_data type message_type = record {
  type = type;
  message_type = message_type;
  client_addr = 0;
  server_id = 0;
  start_time = 0;
  base_time = 0;
  send_time = 0;
  send_jitter = 0;
  n_send = 0;
}

pub is_plain : (code : ℕ) → code ≢ 0 → code ≢ 255 → code ≢ 52 → IsPlain code
is_plain code a b c = (a, b, c)

new-Gives : (allocated : Bool) → Gives (Made (request_data 0 0)) (new allocated 0 3)
unfolding new write calloc Gives
new-Gives false = (err enomem, refl, λ o h. cc)
new-Gives true = (
  ok (blank fresh 0 3),
  refl,
  λ o h.
      subst (Made (request_data 0 0)) (ok_inj h)
        (record { valid = blank-Valid 0 3 (omega arith) (omega arith); data_are = refl }),
)

pub ok-Gives : (u : Userdata) (o : Outgoing) → Made u o → Gives (Made u) (some (ok o))
unfolding Gives
ok-Gives u o m = (ok o, refl, λ o' h. subst (Made u) (ok_inj h) m)

module _ (memory : ℕ → Bool) (c : Connection) where
  parameters-Gives :
      (message_type : ℕ) (via : Bool) (u : Userdata) (o : Outgoing)
      → Made u o
      → Gives (Made u) (append_parameters memory c message_type via o)
  unfolding append_parameters
  parameters-Gives message_type via u o m =
      elim (Bool-cases (
        message_type == Message.discover
        || (message_type == Message.request || message_type == Message.inform))) [
          | inr n ↦ rw n (ok-Gives u o m)
          | inl y ↦ rw y (
              and_then-Gives (Made u) (Made u) _ _ list λ o' m'.
                append_to-Gives (memory 4) Opt.maximum_message_size
                  (bytes16 (max_message_size c via)) o' u
                  (is_plain Opt.maximum_message_size (λ e. omega arith) (λ e. omega arith)
                    (λ e. omega arith))
                  m')
        ]
    where
      list : Gives (Made u) (
          if ltb 0 (length c.request_parameters)
          then append_to (memory 3) Opt.parameter_request_list c.request_parameters o
          else some (ok o))
      list = elim (Bool-cases (ltb 0 (length c.request_parameters))) [
        | inr n ↦ rw n (ok-Gives u o m)
        | inl y ↦ rw y (
            append_to-Gives (memory 3) Opt.parameter_request_list c.request_parameters o u
              (is_plain Opt.parameter_request_list (λ e. omega arith) (λ e. omega arith)
                (λ e. omega arith))
              m)
      ]

  -- A new message for a known request, of a connection whose configuration the client accepts, is
  -- built without a fault; it is valid, and its userdata has the types and is zero else.
  pub new_message-Gives :
      (type message_type : ℕ) (via : Bool)
      → Accepts c.client_config c.client_config.transport
      → message_type_of type ≡ some (message_type, via)
      → Gives (Made (request_data type message_type)) (new_message memory c type)
  unfolding new_message GivesOne
  new_message-Gives type message_type via a t = rw t (
      and_then-Gives (Made (request_data 0 0)) (Made (request_data type message_type))
        (new (memory 0) 0 3) _ (new-Gives (memory 0))
        λ o m.
          let h = init_header-at c (request_data 0 0) o m c.client_config.transport refl a in
          rw h.1 (rest h.0 h.2))
    where
      rest :
          (o₁ : Outgoing)
          → Made (request_data 0 0) o₁
          → Gives (Made (request_data type message_type)) (
              and_then
                (append_to
                  (memory 1)
                  Opt.message_type
                  (message_type ∷ [])
                  (record o₁ { type = type; message_type = message_type }))
                λ o₂.
                  and_then
                    (append_to (memory 2) Opt.client_identifier c.client_config.client_id o₂)
                    λ o₃. append_parameters memory c message_type via o₃)
      rest o₁ m₁ =
          and_then-Gives (Made (request_data type message_type))
            (Made (request_data type message_type)) _ _
            (append_to-Gives (memory 1) Opt.message_type (message_type ∷ [])
              (record o₁ { type = type; message_type = message_type })
              (request_data type message_type)
              (is_plain Opt.message_type (λ e. omega arith) (λ e. omega arith) (λ e. omega arith))
              (record {
                valid =
                    userdata-Valid o₁ type message_type o₁.client_addr o₁.server_id o₁.start_time
                      o₁.base_time o₁.send_time o₁.send_jitter o₁.n_send m₁.valid;
                data_are =
                    ap (λ (u : Userdata). record u { type = type; message_type = message_type })
                      m₁.data_are;
              }))
            λ o₂ m₂.
              and_then-Gives (Made (request_data type message_type))
                (Made (request_data type message_type)) _ _
                (append_to-Gives (memory 2) Opt.client_identifier c.client_config.client_id o₂
                  (request_data type message_type)
                  (is_plain Opt.client_identifier (λ e. omega arith) (λ e. omega arith)
                    (λ e. omega arith))
                  m₂)
                λ o₃ m₃. parameters-Gives message_type via (request_data type message_type) o₃ m₃
