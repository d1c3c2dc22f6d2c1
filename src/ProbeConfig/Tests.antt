-- ===== src/ProbeConfig/Tests.antt =====
-- A probe configuration on concrete inputs.
use n_dhcp.Base.{◌≤◌, ◌≡◌, refl, true, false, some, [], ◌∷◌, arith}
use n_dhcp.Protocol.{ok}
use n_dhcp.Connection.{ClientConfig, ethernet}
use n_dhcp.Probe.{Probe}
use n_dhcp.ProbeConfig.{ProbeConfig, fresh, is_requested, request_option, probe_new}
use n_dhcp.ProbeConfig.Options.{Recorded, request_option-Recorded}
use n_dhcp.ProbeConfig.New.{IsStarted, probe_new-IsStarted}

abbrev config : ClientConfig
config = record {
  transport = ethernet;
  request_broadcast = false;
  mac = λ j. j;
  n_mac = 6;
  client_id = 1 ∷ [];
}

abbrev three : ProbeConfig
three = record fresh { request_parameters = 1 ∷ 3 ∷ [] }

abbrev four : ProbeConfig
four = record fresh { request_parameters = 1 ∷ 3 ∷ 200 ∷ [] }

records_200 : request_option three 200 ≡ some four
unfolding request_option is_requested
records_200 = refl

request_option-Recorded_example :
    ((c' : ProbeConfig) → request_option three 200 ≡ some c' → Recorded three 200 c')
    × (2 ≤ 255 → (c' : ProbeConfig) × (request_option three 200 ≡ some c'))
request_option-Recorded_example = request_option-Recorded three 200

probe_new-IsStarted_example :
    (p : Probe) × (probe_new true (λ j. true) true 77 config true three 1000 ≡ some (ok p))
    × IsStarted config three 1000 p
probe_new-IsStarted_example =
    probe_new-IsStarted (λ j. true) (λ j. refl) 77 config three 1000 (omega arith) (omega arith)
      (omega arith) (omega arith)
