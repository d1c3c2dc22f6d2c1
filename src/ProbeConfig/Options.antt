-- ===== src/ProbeConfig/Options.antt =====
-- The lists of a probe configuration.
use n_dhcp.Base.{
  not, suc, le→leb, ne→==, ==→eq, ltb, ◌&&◌, ◌==◌, if◌then◌else◌, ℕ, ◌+◌, ◌≤◌, ◌<◌, ◌≡◌, refl, sym,
  ap, ◌∙◌, inl, inr, Bool, true, false, none, some, List, [], ◌∷◌, ◌++◌, arith, leb, length,
  length-append, append_assoc, append-nil, Bool-cases, ==_refl, lt→ltb, lt→leb, subst, some_inj,
}
use n_dhcp.Protocol.{ok}
use n_dhcp.Outgoing.Carries.{Item}
use n_dhcp.ProbeConfig.{ProbeConfig, is_requested, request_option, dup_options, config_dup}

and_false : (a : Bool) → (a && false) ≡ false
and_false true = refl
and_false false = refl

is_requested-snoc :
    (ps : List ℕ) (option : ℕ) → option < 128 → is_requested (ps ++ (option ∷ [])) option ≡ true
unfolding is_requested
is_requested-snoc [] option h = rw (lt→ltb option 128 h, ==_refl option) refl
is_requested-snoc (p ∷ ps) option h = ground (arith, is_requested-snoc ps option h)

not_requested : (ps : List ℕ) (option : ℕ) → 128 ≤ option → is_requested ps option ≡ false
unfolding is_requested
not_requested [] option h = refl
not_requested (p ∷ ps) option h = ground (arith, not_requested ps option h)

-- How often an option is in the list of requested parameters.
unfoldable pub occurrences : ℕ → List ℕ → ℕ
occurrences option [] = 0
occurrences option (p ∷ ps) =
    let rest = occurrences option ps in if p == option then suc rest else rest

is_requested-occurrences :
    (ps : List ℕ) (option : ℕ)
    → option < 128
    → is_requested ps option ≡ not (occurrences option ps == 0)
unfolding is_requested occurrences
is_requested-occurrences [] option h = refl
is_requested-occurrences (p ∷ ps) option h = elim (Bool-cases (p == option)) [
  | inl e ↦
      rw
        (
          e,
          lt→ltb p 128 (omega (arith, ==→eq p option e)),
          ne→== (suc (occurrences option ps)) 0 (omega arith),
        )
        refl
  | inr n ↦ rw (n, and_false (ltb p 128)) (is_requested-occurrences ps option h)
]

module _ (c : ProbeConfig) (option : ℕ) where
  -- The configuration with the option as the last parameter.
  abbrev pub one_more : ProbeConfig
  one_more = record c { request_parameters = c.request_parameters ++ (option ∷ []) }

  -- What a request for the option leaves, and what the next one does.
  abbrev pub Recorded : ProbeConfig → Type 0
  Recorded c' =
      (option < 128
        → (occurrences option c.request_parameters ≡ 0 → c' ≡ one_more)
          × (0 < occurrences option c.request_parameters → c' ≡ c)
          × (request_option c' option ≡ some c'))
      × (128 ≤ option
          → (c' ≡ one_more) × (length c.request_parameters ≡ 255 → request_option c' option ≡ none))

  full_next :
      128 ≤ option → length c.request_parameters ≡ 255 → request_option one_more option ≡ none
  unfolding request_option
  full_next h l =
      rw
        (
          not_requested (c.request_parameters ++ (option ∷ [])) option h,
          lt→leb (length (c.request_parameters ++ (option ∷ []))) 255
              (omega (arith, length-append c.request_parameters (option ∷ []))),
        )
        refl

  occurs :
      (b : Bool)
      → is_requested c.request_parameters option ≡ b
      → option < 128
      → not (occurrences option c.request_parameters == 0) ≡ b
  occurs b e small = sym (is_requested-occurrences c.request_parameters option small) ∙ e

  recorded : (c' : ProbeConfig) → request_option c option ≡ some c' → Recorded c'
  unfolding request_option
  recorded c' h = elim (Bool-cases (is_requested c.request_parameters option)) [
    | inl y ↦ subst Recorded (some_inj (rw y at h)) (
      λ small. let k = occurs true y small in (λ z. ground (arith, k), λ pos. refl, rw y refl),
      λ large. cc (y, not_requested c.request_parameters option large),
    )
    | inr n ↦ elim (Bool-cases (leb (length c.request_parameters) 255)) [
      | inl fits ↦ subst Recorded (some_inj (rw (n, fits) at h)) (
        λ small.
            let k = occurs false n small in
            (
              λ z. refl,
              λ pos. ground (arith, k),
              rw (is_requested-snoc c.request_parameters option small) refl,
            ),
        λ large. (refl, full_next large),
      )
      | inr full ↦ cc (rw (n, full) at h)
    ]
  ]

  succeeds :
      length c.request_parameters ≤ 255 → (c' : ProbeConfig) × (request_option c option ≡ some c')
  unfolding request_option
  succeeds h = elim (Bool-cases (is_requested c.request_parameters option)) [
    | inl y ↦ (c, rw y refl)
    | inr n ↦ (one_more, rw (n, le→leb (length c.request_parameters) 255 h) refl)
  ]

  -- A request for an option succeeds if there are at most 255 parameters. One below 128 becomes the
  -- last parameter if it is not among them, and else changes nothing, so that a second request
  -- changes nothing. One from 128 on becomes the last parameter whether or not it is among them,
  -- and if this was the 256th, the next request for it fails an assertion.
  pub request_option-Recorded :
      ((c' : ProbeConfig) → request_option c option ≡ some c' → Recorded c')
      × (length c.request_parameters ≤ 255
          → (c' : ProbeConfig) × (request_option c option ≡ some c'))
  request_option-Recorded = (recorded, succeeds)

dup_options-ok :
    (memory : ℕ → Bool) (k : ℕ) (xs done : List Item)
    → ((j : ℕ) → memory j ≡ true)
    → dup_options memory k xs done ≡ ok (done ++ xs)
unfolding dup_options
dup_options-ok memory k [] done m = ap ok (sym (append-nil done))
dup_options-ok memory k (x ∷ xs) done m =
    rw (m k) (
      dup_options-ok memory (k + 1) xs (done ++ (x ∷ [])) m ∙ ap ok (append_assoc done (x ∷ []) xs))

-- A duplicate that finds memory is equal to the configuration.
pub config_dup-eq :
    (memory : ℕ → Bool) (c : ProbeConfig) → ((j : ℕ) → memory j ≡ true) → config_dup memory c ≡ ok c
unfolding config_dup
config_dup-eq memory c m = rw (m 0, dup_options-ok memory 1 c.options [] m) refl
