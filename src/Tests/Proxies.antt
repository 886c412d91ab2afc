-- ===== src/Tests/Proxies.antt =====
-- The theorems on the client's address, with texts for addresses and one trusted proxy.
use django_ninja_rbac_authen.Prelude.{
  ◌≡◌, refl, ◌⊎◌, none, some, List, [], ◌∷◌, String, str_eq, All, if◌then◌else◌,
}
use django_ninja_rbac_authen.ClientIp.{IpLibrary, Request, client_ip}
use django_ninja_rbac_authen.ClientIp.Trust.{IsPassedOver, IsLastClient, entries, trusted_peer}
use django_ninja_rbac_authen.Tests.Tokens.{differs}

abbrev pub plain_ip : IpLibrary
plain_ip = record {
  Address = String;
  parse = λ s. if str_eq s "unknown" then none else some s;
  text = λ a. a;
  is_in = λ a cidr. str_eq a cidr;
  strip = λ s. s;
}

abbrev pub proxies : List String
proxies = "10.0.0.1" ∷ []

abbrev pub direct : Request
direct = record {
  remote_addr = some "203.0.113.7";
  forwarded_for = some "198.51.100.1";
  user_agent = none;
  request_id = none;
}

abbrev proxied : Request
proxied = record direct {
  remote_addr = some "10.0.0.1";
  forwarded_for = some "192.0.2.9,198.51.100.1,unknown";
}

trusted_peer_example :
    ((client_ip plain_ip proxies proxied ≡ some "10.0.0.1")
      × All
          (IsPassedOver plain_ip proxies)
          (entries plain_ip proxies "192.0.2.9,198.51.100.1,unknown"))
    ⊎ ((a : String) × (client_ip plain_ip proxies proxied ≡ some a)
        × IsLastClient plain_ip proxies a
            (entries plain_ip proxies "192.0.2.9,198.51.100.1,unknown"))
trusted_peer_example =
    trusted_peer plain_ip proxies proxied "10.0.0.1" "192.0.2.9,198.51.100.1,unknown" "10.0.0.1"
      refl (differs "10.0.0.1" "" refl) refl (differs "192.0.2.9,198.51.100.1,unknown" "" refl) refl
      refl

client_ip_test : client_ip plain_ip proxies proxied ≡ some "198.51.100.1"
unfolding client_ip
client_ip_test = refl
