-- ===== src/Client/Queue/Fifo.antt =====
-- The queue of events as a queue in the usual sense.
use n_dhcp.Base.{
  ℕ, ◌≡◌, refl, sym, ap, ◌∙◌, Bool, true, false, ◌||◌, Option, none, some, List, [], ◌∷◌, ◌++◌, map,
  if◌then◌else◌, append_assoc, inl, inr, Bool-cases,
}
use n_dhcp.Client.Queue.{
  ClientEvent, Node, linked, raise, Level, is_logged, is_lost, has_lost, log_event, log_fmt,
  pop_event,
}

-- A call that changes the queue.
pub data Op : Type 0 where
  raised : ClientEvent → Op
  logged : Bool → Option (List ℕ) → Level → ℕ → Op
  popped : Op

abbrev pub run_op : Op → List Node → List Node × Option ClientEvent
run_op (raised e) nodes = (raise e nodes, none)
run_op (logged memory text log_level level) nodes =
    (log_fmt memory text log_level level nodes, none)
run_op popped nodes = pop_event nodes

-- The events that successive calls give.
unfoldable pub run : List Op → List Node → List (Option ClientEvent)
run [] nodes = []
run (op ∷ ops) nodes = let (nodes', e) = run_op op nodes in e ∷ run ops nodes'

-- The specification: the event that was given last, which the caller may still read, and those that
-- wait, in their order.
pub record Fifo : Type 0 where
  pub given : Option ClientEvent
  pub waiting : List ClientEvent

abbrev pub is_given_lost : Option ClientEvent → Bool
is_given_lost none = false
is_given_lost (some e) = is_lost e

unfoldable pub waits_lost : List ClientEvent → Bool
waits_lost [] = false
waits_lost (e ∷ es) = is_lost e || waits_lost es

abbrev pub put : ClientEvent → Fifo → Fifo
put e q = record q { waiting = q.waiting ++ (e ∷ []) }

abbrev pub get : List ClientEvent → Fifo × Option ClientEvent
get [] = (record { given = none; waiting = [] }, none)
get (e ∷ es) = (record { given = some e; waiting = es }, some e)

-- Messages are dropped until the message about lost messages is no longer in use.
abbrev pub fifo_log : Bool → Option (List ℕ) → Level → ℕ → Fifo → Fifo
fifo_log memory text log_level level q =
    if is_logged log_level level
    then (if is_given_lost q.given || waits_lost q.waiting
        then q
        else put (log_event memory text level) q)
    else q

abbrev pub fifo_op : Op → Fifo → Fifo × Option ClientEvent
fifo_op (raised e) q = (put e q, none)
fifo_op (logged memory text log_level level) q = (fifo_log memory text log_level level q, none)
fifo_op popped q = get q.waiting

unfoldable pub fifo_run : List Op → Fifo → List (Option ClientEvent)
fifo_run [] q = []
fifo_run (op ∷ ops) q = let (q', e) = fifo_op op q in e ∷ fifo_run ops q'

-- The list that stands for a queue.
abbrev pub used : Option ClientEvent → List Node
used none = []
used (some e) = record { event = e; is_public = true } ∷ []

unfoldable pub nodes_of : Fifo → List Node
nodes_of q = used q.given ++ map linked q.waiting

map-snoc :
    (es : List ClientEvent) (e : ClientEvent)
    → map linked (es ++ (e ∷ [])) ≡ map linked es ++ (linked e ∷ [])
map-snoc [] e = refl
map-snoc (x ∷ es) e = ap (λ (r : List Node). linked x ∷ r) (map-snoc es e)

raise-put : (e : ClientEvent) (q : Fifo) → raise e (nodes_of q) ≡ nodes_of (put e q)
unfolding nodes_of
raise-put e q =
    append_assoc (used q.given) (map linked q.waiting) (linked e ∷ [])
    ∙ ap (λ (r : List Node). used q.given ++ r) (sym (map-snoc q.waiting e))

has_lost-map : (es : List ClientEvent) → has_lost (map linked es) ≡ waits_lost es
unfolding has_lost waits_lost
has_lost-map [] = refl
has_lost-map (e ∷ es) = ap (λ (b : Bool). is_lost e || b) (has_lost-map es)

has_lost-lem :
    (g : Option ClientEvent) (es : List ClientEvent)
    → has_lost (used g ++ map linked es) ≡ (is_given_lost g || waits_lost es)
unfolding has_lost
has_lost-lem none es = has_lost-map es
has_lost-lem (some e) es = ap (λ (b : Bool). is_lost e || b) (has_lost-map es)

pop-get :
    (g : Option ClientEvent) (es : List ClientEvent)
    → pop_event (used g ++ map linked es) ≡ (nodes_of (get es).0, (get es).1)
unfolding pop_event nodes_of
pop-get none [] = refl
pop-get none (e ∷ es) = refl
pop-get (some g) [] = refl
pop-get (some g) (e ∷ es) = refl

lost_in : (q : Fifo) → has_lost (nodes_of q) ≡ (is_given_lost q.given || waits_lost q.waiting)
unfolding nodes_of
lost_in q = has_lost-lem q.given q.waiting

log-lem :
    (memory : Bool) (text : Option (List ℕ)) (log_level : Level) (level : ℕ) (q : Fifo)
    → log_fmt memory text log_level level (nodes_of q)
      ≡ nodes_of (fifo_log memory text log_level level q)
unfolding log_fmt
log-lem memory text log_level level q = elim (Bool-cases (is_logged log_level level)) [
  | inr n ↦ rw n refl
  | inl y ↦ elim (Bool-cases (is_given_lost q.given || waits_lost q.waiting)) [
    | inl b ↦ rw (y, lost_in q ∙ b, b) refl
    | inr b ↦ rw (y, lost_in q ∙ b, b) (raise-put (log_event memory text level) q)
  ]
]

pop-lem : (q : Fifo) → pop_event (nodes_of q) ≡ (nodes_of (get q.waiting).0, (get q.waiting).1)
unfolding nodes_of
pop-lem q = pop-get q.given q.waiting

op-lem :
    (op : Op) (q : Fifo) → run_op op (nodes_of q) ≡ (nodes_of (fifo_op op q).0, (fifo_op op q).1)
op-lem (raised e) q = ap (λ (n : List Node). (n, none)) (raise-put e q)
op-lem (logged memory text log_level level) q =
    ap (λ (n : List Node). (n, none)) (log-lem memory text log_level level q)
op-lem popped q = pop-lem q

-- Every sequence of raised events, log messages and fetched events gives what the specification
-- gives: the raised events in their order, where a message that cannot be allocated is replaced by
-- one about lost messages, and further messages are dropped until the caller asks for the event
-- after this one.
pub run-Fifo : (ops : List Op) (q : Fifo) → run ops (nodes_of q) ≡ fifo_run ops q
unfolding run fifo_run
run-Fifo [] q = refl
run-Fifo (op ∷ ops) q =
    rw (op-lem op q)
      (ap (λ (r : List (Option ClientEvent)). (fifo_op op q).1 ∷ r) (run-Fifo ops (fifo_op op q).0))
