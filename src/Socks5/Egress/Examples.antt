-- ===== src/Socks5/Egress/Examples.antt =====
-- A server with one user, who may reach the private network or the server itself.
use mieru.Common.{
  ℕ, ◌+◌, ◌≡◌, refl, true, false, ◌&&◌, none, some, List, [], ◌∷◌, leb, ◌==◌, if◌then◌else◌, get_or,
  length, arith,
}
use mieru.Socks5.Egress.{Net, Config, direct, reject, only, action_for_ip, find_action}
use mieru.Socks5.Egress.Local.{action_for_ip_lem, local_rejected, name_of_ipv4}

-- Capitals A to Z
abbrev lower : List ℕ → List ℕ
lower [] = []
lower (b ∷ bs) = (if leb 65 b && leb b 90 then b + 32 else b) ∷ lower bs

-- Addresses of four bytes; 10.0.0.0/8 is private, and 127.0.0.0/8 is loopback.
abbrev small_net : Net
small_net = record {
  is_private = λ ip. get_or ip 0 0 == 10;
  is_loopback = λ ip. get_or ip 0 0 == 127;
  in_range = λ range ip. none;
  ipv4_local = 127 ∷ 0 ∷ 0 ∷ 1 ∷ [];
  ipv6_local = 127 ∷ 0 ∷ 0 ∷ 1 ∷ [];
  to_lower = lower;
  ipv4_local_lem = refl;
  ipv6_local_lem = refl;
}

abbrev first_one : ℕ → ℕ
first_one n = 0

abbrev one_user : Config
one_user = record {
  allow_loopback_destination = false;
  users = (65 ∷ [], record { allow_private_ip = false; allow_loopback_ip = true }) ∷ [];
  rules = [];
  proxies = [];
}

-- LocalHost and a dot
abbrev name : List ℕ
name = 111 ∷ 99 ∷ 97 ∷ 108 ∷ 72 ∷ 111 ∷ 115 ∷ 116 ∷ 46 ∷ []

abbrev without_loopback : Config
without_loopback = record one_user {
  users = (65 ∷ [], record { allow_private_ip = true; allow_loopback_ip = false }) ∷ [];
}

-- CONNECT to LocalHost. on port 80
local_rejected_example :
    find_action small_net first_one without_loopback (record {
      is_socks5 = true;
      data_read =
          5 ∷ 1 ∷ 0 ∷ 3 ∷ 10 ∷ 76 ∷ 111 ∷ 99 ∷ 97 ∷ 108 ∷ 72 ∷ 111 ∷ 115 ∷ 116 ∷ 46 ∷ 0 ∷ 80 ∷ [];
      env_user = some (65 ∷ []);
    })
    ≡ only reject
local_rejected_example =
    local_rejected small_net first_one without_loopback (some (65 ∷ [])) 1 80
      (3 ∷ length (76 ∷ name) ∷ 76 ∷ name) (127 ∷ 0 ∷ 0 ∷ 1 ∷ []) [] (name_of_ipv4 76 name refl)
      refl (omega arith) refl refl

action_for_ip_lem_example :
    action_for_ip small_net first_one one_user (some (65 ∷ [])) (127 ∷ 0 ∷ 0 ∷ 1 ∷ []) ≡ direct
action_for_ip_lem_example =
    action_for_ip_lem small_net first_one one_user (some (65 ∷ [])) (127 ∷ 0 ∷ 0 ∷ 1 ∷ [])
