-- ===== src/RoundTrip/Build.antt =====
-- From an empty message, through any list of appends, to the receiver.
use n_dhcp.Base.{
  ℕ, ◌≤◌, ◌≡◌, refl, sym, ap, subst, ◌∙◌, Bool, true, Option, none, some, List, [], ◌∷◌, ◌++◌,
  append-nil, append_assoc, arith, length, some_inj,
}
use n_dhcp.Protocol.{Error, ok, ok_inj, options_offset, uint16_max}
use n_dhcp.Incoming
use n_dhcp.Incoming.{Incoming}
use n_dhcp.Outgoing.{Outgoing, append, new}
use n_dhcp.Outgoing.Valid.{Valid, new-Valid}
use n_dhcp.Outgoing.Carries.{Item, ArePlain, Carries, append-Carries, append-stays, in_options_room}
use n_dhcp.Outgoing.Overload.{IsPlain, append-Valid}
use n_dhcp.RoundTrip.{ReadsBack, raw_bytes, read_back}

-- The appends, one after the other, up to the first that fails.
unfoldable pub append_all : Bool → Outgoing → List Item → Option (Outgoing × Option Error)
append_all allocated o [] = some (o, none)
append_all allocated o ((code, value) ∷ xs) = elim (append allocated o code value) [
  | none ↦ none
  | some (o', none) ↦ append_all allocated o' xs
  | some (o', some e) ↦ some (o', some e)
]

-- The step of the list on the result of one append.
abbrev append_next : Bool → List Item → Outgoing × Option Error → Option (Outgoing × Option Error)
append_next allocated xs (o, none) = append_all allocated o xs
append_next allocated xs (o, some e) = some (o, some e)

append_all-nil : (allocated : Bool) (o : Outgoing) → append_all allocated o [] ≡ some (o, none)
unfolding append_all
append_all-nil allocated o = refl

append_all-cons :
    (allocated : Bool) (o : Outgoing) (code : ℕ) (value : List ℕ) (xs : List Item)
    (r : Outgoing × Option Error)
    → append allocated o code value ≡ some r
    → append_all allocated o ((code, value) ∷ xs) ≡ append_next allocated xs r
unfolding append_all
append_all-cons allocated o code value xs r e = ground arith

record Built (o : Outgoing) (max_size : ℕ) (xs : List Item) : Type 0 where
  valid : Valid o
  carries : Carries o xs
  plain : o.overload ≡ 0
  max_is : o.max_size ≡ max_size

append-Built :
    (allocated : Bool) (o o' : Outgoing) (max_size code : ℕ) (value : List ℕ) (xs : List Item)
    → Built o max_size xs
    → IsPlain code
    → length value ≤ 255
    → append allocated o code value ≡ some (o', none)
    → Built o' max_size (xs ++ ((code, value) ∷ []))
append-Built allocated o o' max_size code value xs b p short run =
    let s =
      append-stays allocated o code value (o', none) b.valid p short b.plain b.carries.in_place
        run in
    let c = append-Carries allocated o o' code value xs b.valid p short b.carries run s.2 in
    record { valid = c.0; carries = c.1; plain = s.0; max_is = s.1 ∙ b.max_is }

append_next-Built :
    (allocated : Bool) (max_size : ℕ) (ys xs : List Item) (o' : Outgoing)
    (r : Outgoing × Option Error)
    → ((o : Outgoing)
        → r ≡ (o, none)
        → append_all allocated o xs ≡ some (o', none)
        → Built o' max_size ys)
    → append_next allocated xs r ≡ some (o', none)
    → Built o' max_size ys
append_next-Built allocated max_size ys xs o' (o, none) k run = k o refl run
append_next-Built allocated max_size ys xs o' (o, some e) k run = cc

append_all-Built :
    (allocated : Bool) (xs ys : List Item) (o o' : Outgoing) (max_size : ℕ)
    → Built o max_size ys
    → ArePlain xs
    → append_all allocated o xs ≡ some (o', none)
    → Built o' max_size (ys ++ xs)
append_all-Built allocated [] ys o o' max_size b p run = rw append-nil (
    subst (λ (r : Outgoing × Option Error). Built r.0 max_size ys)
      (some_inj (sym (append_all-nil allocated o) ∙ run)) b)
append_all-Built allocated ((code, value) ∷ xs) ys o o' max_size b p run =
    let a = append-Valid allocated o code value b.valid p.0 p.1 in
    append_next-Built allocated max_size (ys ++ ((code, value) ∷ xs)) xs o' a.0
      (λ o₁ same run₁. subst (Built o' max_size) (append_assoc ys ((code, value) ∷ []) xs) (
        append_all-Built allocated xs (ys ++ ((code, value) ∷ [])) o₁ o' max_size
          (append-Built allocated o o₁ max_size code value ys b p.0 p.1 (a.1 ∙ ap some same)) p.2
          run₁))
      (sym (append_all-cons allocated o code value xs a.0 a.1) ∙ run)

record IsFirst (o : Outgoing) : Type 0 where
  built : Built o o.max_size []
  small : o.max_size ≤ uint16_max

start-IsFirst :
    (o : Outgoing)
    → Valid o
    → o.i_message ≡ options_offset
    → o.overload ≡ 0
    → o.max_size ≤ uint16_max
    → IsFirst o
start-IsFirst o v at z small = record {
  built = record {
    valid = v;
    carries = record { in_place = omega arith; encoded = sym at };
    plain = z;
    max_is = refl;
  };
  small = small;
}

finish :
    (allocated : Bool) (xs : List Item) (o o' : Outgoing)
    → ArePlain xs
    → Built o o.max_size []
    → o.max_size ≤ uint16_max
    → append_all allocated o xs ≡ some (o', none)
    → (i : Incoming) × (Incoming.new true (raw_bytes o') ≡ some (ok i)) × ReadsBack o' xs i
finish allocated xs o o' plain b small run =
    let c = append_all-Built allocated xs [] o o' o.max_size b plain run in
    read_back o' xs c.valid c.carries plain
      (omega (arith, c.max_is, c.valid.at_most, in_options_room c.carries.in_place c.valid.place))

-- The whole way: options that are appended to a new message without overloading, all with success,
-- are what the receiver of its raw bytes, given memory, finds.
pub build-read_back :
    (allocated : Bool) (max_size : ℕ) (xs : List Item) (o o' : Outgoing)
    → max_size ≤ uint16_max
    → ArePlain xs
    → new true max_size 0 ≡ some (ok o)
    → append_all allocated o xs ≡ some (o', none)
    → (i : Incoming) × (Incoming.new true (raw_bytes o') ≡ some (ok i)) × ReadsBack o' xs i
build-read_back allocated max_size xs o o' small plain start run =
    let n = new-Valid max_size 0 (omega arith) (omega arith) in
    let same = ok_inj (some_inj (sym n.1 ∙ start)) in
    let f = subst IsFirst same (start-IsFirst n.0 n.2 n.3 n.4 (omega (arith, n.5))) in
    finish allocated xs o o' plain f.built f.small run

append_next-Valid :
    (allocated : Bool) (xs : List Item) (r : Outgoing × Option Error)
    → ((o : Outgoing)
        → Valid o
        → (s : Outgoing × Option Error) × (append_all allocated o xs ≡ some s) × Valid s.0)
    → Valid r.0
    → (s : Outgoing × Option Error) × (append_next allocated xs r ≡ some s) × Valid s.0
append_next-Valid allocated xs (o, none) k v = k o v
append_next-Valid allocated xs (o, some e) k v = ((o, some e), refl, v)

-- Any sequence of appends to a valid message, overloaded or not, ends without a fault in a valid
-- message, whether memory is found or not.
pub append_all-Valid :
    (allocated : Bool) (xs : List Item) (o : Outgoing)
    → Valid o
    → ArePlain xs
    → (s : Outgoing × Option Error) × (append_all allocated o xs ≡ some s) × Valid s.0
append_all-Valid allocated [] o v p = ((o, none), append_all-nil allocated o, v)
append_all-Valid allocated ((code, value) ∷ xs) o v p =
    let a = append-Valid allocated o code value v p.0 p.1 in
    let k =
      append_next-Valid allocated xs a.0 (λ o' w. append_all-Valid allocated xs o' w p.2) a.2 in
    (k.0, append_all-cons allocated o code value xs a.0 a.1 ∙ k.1, k.2)
