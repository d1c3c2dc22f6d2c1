-- ===== src/Outgoing/Userdata.antt =====
-- The functions of n-dhcp4-outgoing.c leave the `userdata` of a message to its owner.
use n_dhcp.Base.{
  ℕ, ◌+◌, ◌≡◌, refl, subst, Bool, true, false, not, Option, none, some, List, [], ◌∷◌, leb, ◌==◌,
  if◌then◌else◌, ◌>>=◌, ◌>>◌, assert, length,
}
use n_dhcp.Protocol.{
  Error, enomem, no_space, options_offset, file_offset, sname_offset, overloads_file,
  overloads_sname,
}
use n_dhcp.Protocol.Opt
use n_dhcp.Memory.{write}
use n_dhcp.Outgoing.{
  Outgoing, sub_size, append_option, append_done, append_sname, append_file, start_overload, grow,
  grown_size, append_options, append,
}

pub record Userdata : Type 0 where
  pub type : ℕ
  pub message_type : ℕ
  pub client_addr : ℕ
  pub server_id : ℕ
  pub start_time : ℕ
  pub base_time : ℕ
  pub send_time : ℕ
  pub send_jitter : ℕ
  pub n_send : ℕ

abbrev pub userdata_of : Outgoing → Userdata
userdata_of o = record {
  type = o.type;
  message_type = o.message_type;
  client_addr = o.client_addr;
  server_id = o.server_id;
  start_time = o.start_time;
  base_time = o.base_time;
  send_time = o.send_time;
  send_jitter = o.send_jitter;
  n_send = o.n_send;
}

-- A run that, if it returns, returns an object with this userdata.
Keeps : Userdata → Option (Outgoing × Option Error) → Type 0
Keeps u none = Unit
Keeps u (some r) = userdata_of r.0 ≡ u

KeepsOne : Userdata → Option Outgoing → Type 0
KeepsOne u none = Unit
KeepsOne u (some o) = userdata_of o ≡ u

bind-KeepsOne {ℓ} :
    {A : Type ℓ} (u : Userdata) (m : Option A) (f : A → Option Outgoing)
    → ((a : A) → KeepsOne u (f a))
    → KeepsOne u (m >>= f)
unfolding KeepsOne
bind-KeepsOne u none f k = tt
bind-KeepsOne u (some a) f k = k a

ok-Keeps :
    (u : Userdata) (o : Outgoing) (e : Option Error) → userdata_of o ≡ u → Keeps u (some (o, e))
unfolding Keeps
ok-Keeps u o e h = h

ok-KeepsOne : (u : Userdata) (o : Outgoing) → userdata_of o ≡ u → KeepsOne u (some o)
unfolding KeepsOne
ok-KeepsOne u o h = h

then-Keeps :
    (u : Userdata) (m : Option Outgoing) (f : Outgoing → Option (Outgoing × Option Error))
    → KeepsOne u m
    → ((o : Outgoing) → userdata_of o ≡ u → Keeps u (f o))
    → Keeps u (m >>= f)
unfolding Keeps KeepsOne
then-Keeps u none f l k = tt
then-Keeps u (some o) f l k = k o l

next-KeepsOne :
    (u : Userdata) (m : Option Outgoing) (f : Outgoing → Option Outgoing)
    → KeepsOne u m
    → ((o : Outgoing) → userdata_of o ≡ u → KeepsOne u (f o))
    → KeepsOne u (m >>= f)
unfolding KeepsOne
next-KeepsOne u none f l k = tt
next-KeepsOne u (some o) f l k = k o l

if-Keeps :
    (u : Userdata) (b : Bool) (x y : Option (Outgoing × Option Error))
    → Keeps u x
    → Keeps u y
    → Keeps u (if b then x else y)
if-Keeps u true x y p q = p
if-Keeps u false x y p q = q

append_option-Keeps :
    (o : Outgoing) (option : ℕ) (value : List ℕ)
    → KeepsOne (userdata_of o) (append_option o option value)
unfolding append_option
append_option-Keeps o option value =
    bind-KeepsOne (userdata_of o) (write o.message o.i_message (option ∷ [])) _ λ m₁.
      bind-KeepsOne (userdata_of o) (write m₁ (o.i_message + 1) (length value ∷ [])) _ λ m₂.
        bind-KeepsOne (userdata_of o) (write m₂ (o.i_message + 2) value) _ λ m₃.
          bind-KeepsOne (userdata_of o)
            (write m₃ (o.i_message + 2 + length value) (Opt.option_end ∷ [])) _
            λ m₄. ok-KeepsOne _ _ refl

append_done-Keeps :
    (o : Outgoing) (option : ℕ) (value : List ℕ)
    → Keeps (userdata_of o) (append_done o option value)
append_done-Keeps o option value =
    then-Keeps (userdata_of o) (append_option o option value) _ (append_option-Keeps o option value)
      λ o' e. ok-Keeps _ o' none e

append_sname-Keeps :
    (o : Outgoing) (option : ℕ) (value : List ℕ)
    → Keeps (userdata_of o) (append_sname o option value)
unfolding append_sname
append_sname-Keeps o option value =
    if-Keeps (userdata_of o) _ _ _ (append_done-Keeps o option value) (ok-Keeps _ o _ refl)

append_file-Keeps :
    (o : Outgoing) (option : ℕ) (value : List ℕ)
    → Keeps (userdata_of o) (append_file o option value)
unfolding append_file
append_file-Keeps o option value =
    if-Keeps (userdata_of o) _ _ _ (append_sname-Keeps o option value) (
      if-Keeps (userdata_of o) _ _ _ (append_done-Keeps o option value) (
        if-Keeps (userdata_of o) _ _ _
          (append_sname-Keeps (record o { i_message = 44 }) option value) (ok-Keeps _ o _ refl)))

start_overload-Keeps : (o : Outgoing) → KeepsOne (userdata_of o) (start_overload o)
unfolding start_overload
start_overload-Keeps o =
    next-KeepsOne (userdata_of o) (append_option o Opt.overload (o.overload ∷ [])) _
      (append_option-Keeps o Opt.overload (o.overload ∷ []))
      λ o₁ e.
        bind-KeepsOne (userdata_of o)
          (if overloads_file o.overload
            then write o₁.message file_offset (Opt.option_end ∷ [])
            else some o₁.message)
          _
          λ m₁.
            bind-KeepsOne (userdata_of o)
              (if overloads_sname o.overload
                then write m₁ sname_offset (Opt.option_end ∷ [])
                else some m₁)
              _
              λ m₂.
                ok-KeepsOne (userdata_of o)
                  (record o₁ {
                    message = m₂;
                    i_message =
                        if overloads_file o.overload
                        then file_offset
                        else if overloads_sname o.overload
                        then sname_offset
                        else o₁.i_message;
                  })
                  e

append_options-Keeps :
    (allocated : Bool) (o : Outgoing) (option : ℕ) (value : List ℕ)
    → Keeps (userdata_of o) (append_options allocated o option value)
unfolding append_options
append_options-Keeps allocated o option value =
    if-Keeps (userdata_of o) (leb (length value + 2 + 3 + 1) (sub_size o.n_message o.i_message)) _ _
      (append_done-Keeps o option value)
      (if-Keeps (userdata_of o) (leb (length value + 2 + 3 + 1) (sub_size o.max_size o.i_message)) _
        _
        (if-Keeps (userdata_of o) (not allocated) _ _ (ok-Keeps _ o (some enomem) refl)
          (append_done-Keeps (grow o (grown_size o (length value))) option value))
        (if-Keeps (userdata_of o) (o.overload == 0) _ _ (ok-Keeps _ o (some no_space) refl) (
          then-Keeps (userdata_of o) (start_overload o) _ (start_overload-Keeps o) λ o' e.
            subst (λ u. Keeps u (append_file o' option value)) e
              (append_file-Keeps o' option value))))

assert-Keeps :
    (u : Userdata) (b : Bool) (run : Option (Outgoing × Option Error))
    → Keeps u run
    → Keeps u (assert b >> run)
unfolding Keeps
assert-Keeps u true run k = k
assert-Keeps u false run k = tt

append-Keeps :
    (allocated : Bool) (o : Outgoing) (option : ℕ) (value : List ℕ)
    → Keeps (userdata_of o) (append allocated o option value)
unfolding append
append-Keeps allocated o option value = assert-Keeps (userdata_of o) (not (option == Opt.pad)) _ (
    assert-Keeps (userdata_of o) (not (option == Opt.option_end)) _ (
      assert-Keeps (userdata_of o) (not (option == Opt.overload)) _ (
        if-Keeps (userdata_of o) (leb options_offset o.i_message) _ _
          (append_options-Keeps allocated o option value) (append_file-Keeps o option value))))

-- An append leaves the userdata as it is, on all its branches.
pub append-userdata_of :
    (allocated : Bool) (o : Outgoing) (option : ℕ) (value : List ℕ) (r : Outgoing × Option Error)
    → append allocated o option value ≡ some r
    → userdata_of r.0 ≡ userdata_of o
unfolding Keeps
append-userdata_of allocated o option value r e =
    subst (Keeps (userdata_of o)) e (append-Keeps allocated o option value)
