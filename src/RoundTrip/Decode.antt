-- ===== src/RoundTrip/Decode.antt =====
-- The scan of the parser finds the options that the builder encoded.
use n_dhcp.Base.{
  ℕ, zero, suc, ◌+◌, ◌≤◌, ◌<◌, ◌≡◌, refl, subst, ap, ap₂, ◌∙◌, sym, Bool, false, ◌||◌, List, [],
  ◌∷◌, ◌++◌, arith, ◌==◌, if◌then◌else◌, length,
}
use n_dhcp.Protocol.Opt
use n_dhcp.Memory.{slice}
use n_dhcp.Outgoing.Overload.{IsPlain}
use n_dhcp.Outgoing.Carries.{Item, Encodes, Encodes-le, ArePlain}
use n_dhcp.Incoming.Scan.{
  stop, entry, kind, scan, scan-stop, scan-entry, Entry, entry_at, contents, has_code,
}

-- The values of the options with this code, one behind the other.
abbrev pub values : ℕ → List Item → List ℕ
values code [] = []
values code ((c, value) ∷ xs) = (if c == code then value else []) ++ values code xs

abbrev pub has_item : ℕ → List Item → Bool
has_item code [] = false
has_item code ((c, value) ∷ xs) = c == code || has_item code xs

kind-entry :
    (byte : ℕ → ℕ) (end p code n : ℕ)
    → byte p ≡ code
    → byte (p + 1) ≡ n
    → IsPlain code
    → p + 2 + n ≤ end
    → kind byte end p ≡ entry
unfolding kind
kind-entry byte end p code n e h q room = ground arith

kind-stop : (byte : ℕ → ℕ) (end p : ℕ) → byte p ≡ Opt.option_end → kind byte end p ≡ stop
unfolding kind
kind-stop byte end p e = ground arith

-- What a scan gives for a list of items.
pub record Decodes (byte : ℕ → ℕ) (xs : List Item) (es : List Entry) : Type 0 where
  pub contents_are : (code : ℕ) → contents byte code es ≡ values code xs
  pub codes_are : (code : ℕ) → has_code code es ≡ has_item code xs

Decodes-cons :
    (byte : ℕ → ℕ) (p code : ℕ) (value : List ℕ) (xs : List Item) (es : List Entry)
    → byte p ≡ code
    → byte (p + 1) ≡ length value
    → slice byte (p + 2) (length value) ≡ value
    → Decodes byte xs es
    → Decodes byte ((code, value) ∷ xs) (entry_at byte p ∷ es)
Decodes-cons byte p code value xs es e h s d = record {
  contents_are =
      λ c. ap₂ ◌++◌ (rw (e, h) (ap (λ t. if code == c then t else []) s)) (d.contents_are c);
  codes_are = λ c. rw (e, d.codes_are c);
}

pub scan-Decodes :
    (f : ℕ) (byte : ℕ → ℕ) (end p : ℕ) (xs : List Item) (i : ℕ)
    → Encodes byte p xs i
    → byte i ≡ Opt.option_end
    → i < end
    → ArePlain xs
    → end < p + f
    → Decodes byte xs (scan f byte end p)
scan-Decodes zero byte end p xs i e m h plain fuel =
    absurd (omega (arith, Encodes-le byte p xs i e))
scan-Decodes (suc f) byte end p [] i e m h plain fuel =
    rw (scan-stop f byte end p (kind-stop byte end p (ap byte e ∙ m)))
      (record { contents_are = λ code. refl; codes_are = λ code. refl })
scan-Decodes (suc f) byte end p ((code, value) ∷ xs) i e m h plain fuel =
    let le = Encodes-le byte (p + 2 + length value) xs i e.3 in
    let rest = scan f byte end (p + 2 + byte (p + 1)) in
    let ih : Decodes byte xs rest =
      subst (λ k. Decodes byte xs (scan f byte end (p + 2 + k))) (sym e.1)
        (scan-Decodes f byte end (p + 2 + length value) xs i e.3 m h plain.2 (omega arith)) in
    rw
      (scan-entry f byte end p
        (kind-entry byte end p code (length value) e.0 e.1 plain.0 (omega arith)))
      (Decodes-cons byte p code value xs rest e.0 e.1 e.2 ih)
