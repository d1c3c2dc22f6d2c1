-- ===== src/Client/Scheduled.antt =====
-- What n_dhcp4_client_arm_timer leaves of the timer of a client.
use n_dhcp.Base.{
  ℕ, ◌+◌, ◌-◌, ◌≤◌, ◌<◌, ◌≡◌, ◌⊎◌, inl, inr, refl, sym, ap, subst, ◌∙◌, Option, none, some, arith,
  leb, ◌==◌, if◌then◌else◌, Bool-cases, some_inj, leb→le, leb→lt, ==→eq,
}
use n_dhcp.Connection.Fresh.{bind_inv}
use n_dhcp.Client.{Client, client_timeout, settime, arm_timer}

-- The timer is set for the time t, or for the next nanosecond if t has passed.
abbrev pub SetFor : Option (ℕ × ℕ) → ℕ → Type 0
SetFor none t = ⊥
SetFor (some (clock, offset)) t =
    (0 < offset) × (((clock + offset) ≡ t) ⊎ ((t ≤ clock) × (offset ≡ 1)))

-- The timer is set for the timeout that the client scheduled last, if any.
abbrev pub IsScheduled : Client → Type 0
IsScheduled c = (c.scheduled_timeout ≡ 0) ⊎ SetFor c.armed c.scheduled_timeout

-- The timeout of the client is scheduled, and the timer is set for it.
abbrev pub IsArmed : Client → Type 0
IsArmed c = (client_timeout c ≡ some c.scheduled_timeout) × IsScheduled c

-- What arming needs: a timeout that is the scheduled one is 0, or the timer is set for it.
abbrev pub IsReady : Client → Type 0
IsReady c =
    (t : ℕ) → client_timeout c ≡ some t → t ≡ c.scheduled_timeout → (t ≡ 0) ⊎ SetFor c.armed t

set_for : (clock t : ℕ) → SetFor (some (clock, if leb t clock then 1 else t - clock)) t
set_for clock t = elim (Bool-cases (leb t clock)) [
  | inl y ↦ rw y (omega arith, inr (leb→le t clock y, refl))
  | inr n ↦ let k = leb→lt t clock n in rw n (omega arith, inl (omega arith))
]

settime-IsArmed :
    (clock t : ℕ) (c : Client) → IsReady c → client_timeout c ≡ some t → IsArmed (settime clock c t)
unfolding client_timeout
settime-IsArmed clock t c r h = elim (Bool-cases (t == c.scheduled_timeout)) [
  | inl y ↦
      let e = ==→eq t c.scheduled_timeout y in
      rw y (h ∙ ap (λ (n : ℕ). some n) e, subst (λ (n : ℕ). (n ≡ 0) ⊎ SetFor c.armed n) e (r t h e))
  | inr n ↦ rw n (h, inr (set_for clock t))
]

pub arm_timer-IsArmed :
    (clock : ℕ) (c c' : Client) → IsReady c → arm_timer clock c ≡ some c' → IsArmed c'
unfolding arm_timer
arm_timer-IsArmed clock c c' r h =
    let b = bind_inv (client_timeout c) _ h in
    subst IsArmed (some_inj b.2) (settime-IsArmed clock b.0 c r b.1)

pub IsScheduled-IsReady : (c : Client) → IsScheduled c → IsReady c
IsScheduled-IsReady c s t h e = subst (λ (n : ℕ). (n ≡ 0) ⊎ SetFor c.armed n) (sym e) s
