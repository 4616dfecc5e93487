-- ===== src/HpHosts/Tests.antt =====
-- The horse-power hosts at work.
use ppq_enclave_proxy.Prelude.{◌≡◌, ◌⊎◌, refl, codes, trim, [], ◌∷◌, none, some}
use ppq_enclave_proxy.HpHosts.{
  hp_hosts, normalize_hp_host, normalized_names, test_allowed_hp_hosts, is_allowed_hp_host, unset,
  pinned, rejected, pin_hp_host,
}
use ppq_enclave_proxy.HpHosts.Pinned.{pin_hp_host-production}

hosts : Unit {0}
unfolding hp_hosts normalize_hp_host normalized_names test_allowed_hp_hosts is_allowed_hp_host
    pin_hp_host trim
hosts = tt

production_pinned :
    pin_hp_host (some (codes " Backend.PPQ.ai.")) (test_allowed_hp_hosts none)
    ≡ pinned (codes "backend.ppq.ai")
unfolding hosts
production_pinned = refl

other_rejected :
    pin_hp_host (some (codes "enclave.ppq.ai")) (test_allowed_hp_hosts none)
    ≡ rejected (codes "enclave.ppq.ai")
unfolding hosts
other_rejected = refl

blank_unset : pin_hp_host (some (codes "  ")) (test_allowed_hp_hosts none) ≡ unset
unfolding hosts
blank_unset = refl

widened :
    test_allowed_hp_hosts (some (codes "localhost, ,Dev.")) ≡ codes "localhost" ∷ codes "dev" ∷ []
unfolding hosts
widened = refl

pin_hp_host-production_example :
    (codes "backend.ppq.ai" ≡ codes "backend.ppq.ai")
    ⊎ (codes "backend.ppq.ai"
        ≡ codes "ppq-backend-dev-a6fkdvbbbmg3dga3.canadacentral-01.azurewebsites.net")
pin_hp_host-production_example =
    pin_hp_host-production (codes " Backend.PPQ.ai.") (codes "backend.ppq.ai") production_pinned
