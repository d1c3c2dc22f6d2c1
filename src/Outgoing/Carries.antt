-- ===== src/Outgoing/Carries.antt =====
-- What the OPTIONS section of an outgoing message holds: the options in the order of their appends.
use n_dhcp.Base.{
  ℕ, ◌+◌, ◌≤◌, ◌<◌, ◌≡◌, inl, refl, ◌∙◌, subst, sym, Bool, Option, none, some, List, [], ◌∷◌, ◌++◌,
  arith, length, some_inj,
}
use n_dhcp.Protocol.{Error, options_offset}
use n_dhcp.Memory.{slice}
use n_dhcp.Memory.Laws.{slice_ext, slice-get_or}
use n_dhcp.Outgoing.{Outgoing, append}
use n_dhcp.Outgoing.Valid.{Valid, Place, in_options, in_file, in_sname}
use n_dhcp.Outgoing.Append.{
  appended, with_option_before, with_option_code, with_option-length, with_option_value,
}
use n_dhcp.Outgoing.Options.{Outcome, stored, refused, overloaded}
use n_dhcp.Outgoing.Overload.{IsPlain, append-Ends}

-- An option as the caller passes it: its code and its value.
abbrev pub Item : Type 0
Item = ℕ × List ℕ

-- Options that a caller may pass.
abbrev pub ArePlain : List Item → Type 0
ArePlain [] = Unit
ArePlain ((code, value) ∷ xs) = IsPlain code × (length value ≤ 255) × ArePlain xs

-- The bytes from p to i are the encodings of the options.
abbrev pub Encodes : (ℕ → ℕ) → ℕ → List Item → ℕ → Type 0
Encodes byte p [] i = p ≡ i
Encodes byte p ((code, value) ∷ xs) i =
    (byte p ≡ code)
    × (byte (p + 1) ≡ length value)
    × (slice byte (p + 2) (length value) ≡ value)
    × Encodes byte (p + 2 + length value) xs i

pub Encodes-le : (byte : ℕ → ℕ) (p : ℕ) (xs : List Item) (i : ℕ) → Encodes byte p xs i → p ≤ i
Encodes-le byte p [] i e = omega arith
Encodes-le byte p ((code, value) ∷ xs) i e =
    omega (arith, Encodes-le byte (p + 2 + length value) xs i e.3)

-- The encoding depends on the bytes from p to i only.
pub Encodes-ext :
    (f g : ℕ → ℕ) (p : ℕ) (xs : List Item) (i : ℕ)
    → ((j : ℕ) → p ≤ j → j < i → g j ≡ f j)
    → Encodes f p xs i
    → Encodes g p xs i
Encodes-ext f g p [] i h e = e
Encodes-ext f g p ((code, value) ∷ xs) i h e =
    let le = Encodes-le f (p + 2 + length value) xs i e.3 in
    (
      h p (omega arith) (omega arith) ∙ e.0,
      h (p + 1) (omega arith) (omega arith) ∙ e.1,
      slice_ext g f (p + 2) (length value) (λ j a b. h j (omega arith) (omega arith)) ∙ e.2,
      Encodes-ext f g (p + 2 + length value) xs i (λ j a b. h j (omega arith) b) e.3,
    )

pub Encodes-snoc :
    (byte : ℕ → ℕ) (p : ℕ) (xs : List Item) (i code : ℕ) (value : List ℕ)
    → Encodes byte p xs i
    → byte i ≡ code
    → byte (i + 1) ≡ length value
    → slice byte (i + 2) (length value) ≡ value
    → Encodes byte p (xs ++ ((code, value) ∷ [])) (i + 2 + length value)
Encodes-snoc byte p [] i code value e a b c =
    subst (λ k. Encodes byte k ((code, value) ∷ []) (i + 2 + length value)) (sym e) (a, b, c, refl)
Encodes-snoc byte p ((code', value') ∷ xs) i code value e a b c =
    (e.0, e.1, e.2, Encodes-snoc byte (p + 2 + length value') xs i code value e.3 a b c)

pub record Carries (o : Outgoing) (xs : List Item) : Type 0 where
  pub in_place : options_offset ≤ o.i_message
  pub encoded : Encodes o.message.byte options_offset xs o.i_message

stored-Carries :
    (o o' : Outgoing) (code : ℕ) (value : List ℕ) (xs : List Item)
    → o'.i_message ≡ o.i_message
    → ((j : ℕ) → j < o.i_message → o'.message.byte j ≡ o.message.byte j)
    → Carries o xs
    → Carries (appended o' code value) (xs ++ ((code, value) ∷ []))
stored-Carries o o' code value xs e kept c =
    let m = (appended o' code value).message in
    record {
      in_place = omega (arith, c.in_place);
      encoded =
          Encodes-snoc m.byte options_offset xs o'.i_message code value
            (subst (Encodes m.byte options_offset xs) (sym e) (
              Encodes-ext o.message.byte m.byte options_offset xs o.i_message
                (λ j lo h.
                  with_option_before o'.message o'.i_message code value j (inl (omega arith))
                  ∙ kept j h)
                c.encoded))
            (with_option_code o'.message o'.i_message code value)
            (with_option-length o'.message o'.i_message code value)
            (slice-get_or m.byte (o'.i_message + 2) value
              (λ j h. with_option_value o'.message o'.i_message code value j h));
    }

outcome-Carries :
    (o : Outgoing) (code : ℕ) (value : List ℕ) (xs : List Item) (r : Outgoing × Option Error)
    → Outcome o code value r
    → r.1 ≡ none
    → options_offset ≤ r.0.i_message
    → Carries o xs
    → Carries r.0 (xs ++ ((code, value) ∷ []))
outcome-Carries o code value xs _ (stored o' e same kept) ok' at c =
    stored-Carries o o' code value xs e kept c
outcome-Carries o code value xs _ (refused e) ok' at c = cc
outcome-Carries o code value xs r (overloaded _ any below) ok' at c = absurd (omega arith)

-- Where the iterator of a message stands that carries options: in OPTIONS, with room for OVERLOAD.
pub in_options_room :
    {o : Outgoing} → options_offset ≤ o.i_message → Place o → o.i_message + 4 ≤ o.n_message
in_options_room lo (in_options a b) = b
in_options_room lo (in_file a b c d) = absurd (omega arith)
in_options_room lo (in_sname a b c) = absurd (omega arith)

-- An append that returns 0 and stays in OPTIONS adds its option behind the others.
pub append-Carries :
    (allocated : Bool) (o o' : Outgoing) (code : ℕ) (value : List ℕ) (xs : List Item)
    → Valid o
    → IsPlain code
    → length value ≤ 255
    → Carries o xs
    → append allocated o code value ≡ some (o', none)
    → options_offset ≤ o'.i_message
    → Valid o' × Carries o' (xs ++ ((code, value) ∷ []))
append-Carries allocated o o' code value xs v p short c run at =
    let e =
      append-Ends allocated o code value v p short c.in_place
        (in_options_room c.in_place v.place) in
    let same : e.0 ≡ (o', none) = some_inj (sym e.1 ∙ run) in
    subst
      (λ (r : Outgoing × Option Error).
        r.1 ≡ none
        → options_offset ≤ r.0.i_message
        → Valid r.0 × Carries r.0 (xs ++ ((code, value) ∷ [])))
      same (λ ok' at'. (e.2, outcome-Carries o code value xs e.0 e.3 ok' at' c)) refl at

append-overload_kept :
    (o : Outgoing) (code : ℕ) (value : List ℕ) (r : Outgoing × Option Error)
    → Outcome o code value r
    → o.overload ≡ 0
    → options_offset ≤ o.i_message
    → (r.0.overload ≡ 0) × (r.0.max_size ≡ o.max_size) × (options_offset ≤ r.0.i_message)
append-overload_kept o code value _ (stored o' e same kept) z lo = (same.0 ∙ z, same.1, omega arith)
append-overload_kept o code value _ (refused e) z lo = (z, refl, lo)
append-overload_kept o code value r (overloaded _ any below) z lo = absurd (any z)

-- Without overloading every append stays in OPTIONS.
pub append-stays :
    (allocated : Bool) (o : Outgoing) (code : ℕ) (value : List ℕ) (r : Outgoing × Option Error)
    → Valid o
    → IsPlain code
    → length value ≤ 255
    → o.overload ≡ 0
    → options_offset ≤ o.i_message
    → append allocated o code value ≡ some r
    → (r.0.overload ≡ 0) × (r.0.max_size ≡ o.max_size) × (options_offset ≤ r.0.i_message)
append-stays allocated o code value r v p short z lo run =
    let e = append-Ends allocated o code value v p short lo (in_options_room lo v.place) in
    subst
      (λ (r : Outgoing × Option Error).
        (r.0.overload ≡ 0) × (r.0.max_size ≡ o.max_size) × (options_offset ≤ r.0.i_message))
      (some_inj (sym e.1 ∙ run)) (append-overload_kept o code value e.0 e.3 z lo)
