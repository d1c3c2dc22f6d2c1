-- ===== src/RoundTrip/Tests.antt =====
-- Outgoing messages on concrete inputs, and what a receiver reads of them.
use n_dhcp.Base.{
  ℕ, ◌<◌, ◌≤◌, ◌≡◌, ◌≢◌, refl, subst, sym, ◌∙◌, true, false, Option, some, none, List, [], ◌∷◌,
  arith, replicate, some_inj,
}
use n_dhcp.Protocol.{Error, ok, err, malformed, options_offset}
use n_dhcp.Protocol.Opt
use n_dhcp.Memory.{write, calloc}
use n_dhcp.Incoming
use n_dhcp.Incoming.{Incoming}
use n_dhcp.Outgoing.{Outgoing, append, new, blank, get_raw, append_options, append_option}
use n_dhcp.Outgoing.Setters.{set_xid, get_xid}
use n_dhcp.Outgoing.Valid.{Valid, new-Valid, fresh, blank-Valid}
use n_dhcp.Outgoing.Carries.{Item, ArePlain, Carries}
use n_dhcp.Outgoing.Overload.{append-Valid, IsPlain}
use n_dhcp.Outgoing.Header.{set_xid-get_xid}
use n_dhcp.RoundTrip.{raw_bytes, ReadsBack}
use n_dhcp.RoundTrip.Build.{append_all, append_all-Valid, build-read_back}
use n_dhcp.RoundTrip.Overloaded.{append-cuts_off}

abbrev discover : List Item
discover = (Opt.message_type, 1 ∷ []) ∷ (Opt.parameter_request_list, 1 ∷ 3 ∷ []) ∷ []

discover-ArePlain : ArePlain discover
discover-ArePlain = (
  plain Opt.message_type (omega arith) (omega arith),
  omega arith,
  (plain Opt.parameter_request_list (omega arith) (omega arith), omega arith, tt),
)
  where
    plain : (code : ℕ) → 52 < code → code < 255 → IsPlain code
    plain code lo hi = ((λ e. omega arith), (λ e. omega arith), (λ e. omega arith))

new-Valid_example :
    (o : Outgoing) × (new true 1500 3 ≡ some (ok o))
    × Valid o
    × (o.i_message ≡ options_offset)
    × (o.overload ≡ 3)
    × (o.max_size ≤ 1500)
new-Valid_example = new-Valid 1500 3 (omega arith) (omega arith)

-- A message without overloading, and one that may overload FILE and SNAME, of the least size.
abbrev first : Outgoing
first = blank fresh 1500 0

first-Valid : Valid first
first-Valid = blank-Valid 1500 0 (omega arith) (omega arith)

abbrev message_of : Option (Outgoing × Option Error) → Outgoing
message_of none = first
message_of (some r) = r.0

set_xid-get_xid_example :
    (o' : Outgoing) × (set_xid first 305419896 ≡ some o') × Valid o' × (get_xid o' ≡ 305419896)
set_xid-get_xid_example = set_xid-get_xid first 305419896 first-Valid (omega arith)

append-Valid_example :
    (r : Outgoing × Option Error) × (append false first Opt.message_type (1 ∷ []) ≡ some r)
    × Valid r.0
append-Valid_example =
    append-Valid false first Opt.message_type (1 ∷ []) first-Valid discover-ArePlain.0 (omega arith)

append_all-Valid_example :
    (s : Outgoing × Option Error) × (append_all true first discover ≡ some s) × Valid s.0
append_all-Valid_example = append_all-Valid true discover first first-Valid discover-ArePlain

abbrev built : Outgoing
built = message_of (append_all true first discover)

built-eq : append_all true first discover ≡ some (built, none)
unfolding append_all append append_options append_option write
built-eq = refl

first-eq : new true 1500 0 ≡ some (ok first)
unfolding new write calloc
first-eq = refl

build-read_back_example :
    (i : Incoming) × (Incoming.new true (raw_bytes built) ≡ some (ok i))
    × ReadsBack built discover i
build-read_back_example =
    build-read_back true 1500 discover first built (omega arith) discover-ArePlain first-eq built-eq

abbrev tight : Outgoing
tight = blank fresh 0 3

tight-Valid : Valid tight
tight-Valid = blank-Valid 0 3 (omega arith) (omega arith)

abbrev nearly_full : Outgoing
nearly_full = message_of (append true tight Opt.error_message (replicate 20 1))

nearly_full-eq : append true tight Opt.error_message (replicate 20 1) ≡ some (nearly_full, none)
unfolding append append_options append_option write
nearly_full-eq = refl

error-IsPlain : IsPlain Opt.error_message
error-IsPlain = ((λ e. omega arith), (λ e. omega arith), (λ e. omega arith))

nearly_full-Valid : Valid nearly_full
nearly_full-Valid =
    let a =
      append-Valid true tight Opt.error_message (replicate 20 1) tight-Valid error-IsPlain
        (omega arith) in
    subst (λ (r : Outgoing × Option Error). Valid r.0) (some_inj (sym a.1 ∙ nearly_full-eq)) a.2

-- Where the iterator and the bounds of the nearly full message are.
nearly_full-at :
    (nearly_full.i_message ≡ 262) × (nearly_full.n_message ≡ 508) × (nearly_full.max_size ≡ 508)
unfolding append append_options append_option write
nearly_full-at = (refl, refl, refl)

nearly_full-overload : nearly_full.overload ≢ 0
unfolding append append_options append_option write
nearly_full-overload e = omega arith

append-cuts_off_example :
    (r : Outgoing × Option Error) × (append true nearly_full Opt.error_message (replicate 255 1)
      ≡ some r)
    × (get_raw r.0 < options_offset)
    × (Incoming.new true (raw_bytes r.0) ≡ some (err malformed))
append-cuts_off_example =
    append-cuts_off true true nearly_full Opt.error_message (replicate 255 1) nearly_full-Valid
      error-IsPlain (omega (arith, nearly_full-at)) (omega (arith, nearly_full-at))
      nearly_full-overload (omega (arith, nearly_full-at))
