-- ===== src/Socks5/Egress/Local.antt =====
-- Requests to the host of the server and to its private network.
use mieru.Common.{
  ℕ, ◌≤◌, ◌≡◌, refl, Bool, true, false, not, ◌&&◌, ◌||◌, Option, none, some, List, [], ◌∷◌, ◌++◌,
  ◌^◌, ◌<◌, ltb, ◌==◌, if◌then◌else◌, ok, length, get_or, arith, Bool-cases, inl, inr,
}
use mieru.Common.Stream.{read_full-append}
use mieru.Apis.Socks.Addr.{AddrSpec, empty_spec, port_bytes, read_from_socks5}
use mieru.Apis.Socks.Addr.RoundTrip.{
  read_from_socks5-host, read_host-ipv4, read_host-ipv6, read_host-fqdn,
}
use mieru.Apis.Socks.Message.{consumed, Request, read_request, connect_cmd, udp_associate_cmd}
use mieru.Socks5.Egress.{
  Net, direct, reject, User, Config, Input, only, is_empty, find_user, is_one_of, trim_dot,
  ipv4_local_names, ipv6_local_names, checked_ip, action_for_user, action_for_name, action_for_ip,
  find_action,
}

module _ (net : Net) (pick : ℕ → ℕ) where
  abbrev allows : List ℕ → Option User → Bool
  allows ip none = false
  allows ip (some u) =
      (net.is_private ip && u.allow_private_ip) || (net.is_loopback ip && u.allow_loopback_ip)

  -- The user is known, and may reach the address.
  abbrev pub permits : Config → Option (List ℕ) → List ℕ → Bool
  permits cfg none ip = false
  permits cfg (some name) ip = not (is_empty name) && allows ip (find_user name cfg.users)

  user_lem :
      (ip : List ℕ) (u : Option User)
      → action_for_user net pick ip u ≡ (if allows ip u then direct else reject)
  user_lem ip none = refl
  user_lem ip (some u) = elim (Bool-cases (net.is_private ip && u.allow_private_ip)) [
    | inl private ↦ rw private refl
    | inr other ↦ rw other refl
  ]

  name_lem :
      (cfg : Config) (ip : List ℕ) (user : Option (List ℕ))
      → action_for_name net pick cfg ip user ≡ (if permits cfg user ip then direct else reject)
  name_lem cfg ip none = refl
  name_lem cfg ip (some []) = refl
  name_lem cfg ip (some (b ∷ bs)) = user_lem ip (find_user (b ∷ bs) cfg.users)

  -- A private or loopback address is rejected, unless it is a loopback address and the configuration
  -- allows those, or the user is known and may reach it; every other address is passed on.
  pub action_for_ip_lem :
      (cfg : Config) (user : Option (List ℕ)) (ip : List ℕ)
      → action_for_ip net pick cfg user ip ≡ (
          if (net.is_private ip || net.is_loopback ip)
            && (not (net.is_loopback ip && cfg.allow_loopback_destination)
                && not (permits cfg user ip))
          then reject
          else direct)
  unfolding action_for_ip
  action_for_ip_lem cfg user ip = rw (name_lem cfg ip user) (
      tests (net.is_private ip) (net.is_loopback ip) cfg.allow_loopback_destination
        (permits cfg user ip))
    where
      tests :
          (private loopback allowed permitted : Bool)
          → (if not private && not loopback
              then direct
              else if loopback && allowed
              then direct
              else if permitted
              then direct
              else reject)
            ≡ (if (private || loopback) && (not (loopback && allowed) && not permitted)
                then reject
                else direct)
      tests true true true permitted = refl
      tests true true false true = refl
      tests true true false false = refl
      tests true false allowed true = refl
      tests true false allowed false = refl
      tests false true true permitted = refl
      tests false true false true = refl
      tests false true false false = refl
      tests false false allowed permitted = refl

  -- What becomes of a request to an address that was checked.
  checked_rejected :
      (cfg : Config) (input : Input) (req : Request) (rest ip : List ℕ)
      → input.is_socks5 ≡ true
      → 4 ≤ length input.data_read
      → get_or input.data_read 0 0 ≡ 5
      → read_request (record { command = 0; dst_addr = empty_spec; raw = [] }) input.data_read
        ≡ ok (req, rest)
      → (req.command == connect_cmd || req.command == udp_associate_cmd) ≡ true
      → checked_ip net pick req.dst_addr ≡ some ip
      → (net.is_private ip || net.is_loopback ip) ≡ true
      → (net.is_loopback ip && cfg.allow_loopback_destination) ≡ false
      → permits cfg input.env_user ip ≡ false
      → find_action net pick cfg input ≡ only reject
  unfolding find_action
  checked_rejected cfg input req rest ip socks len version parsed command checked here not_exempt
        unknown =
      let long : ltb (length input.data_read) 4 ≡ false = ground arith in
      let five : (get_or input.data_read 0 0 == 5) ≡ true = ground (arith, version) in
      rw
        (
          socks,
          long,
          five,
          parsed,
          command,
          checked,
          action_for_ip_lem cfg input.env_user ip,
          here,
          not_exempt,
          unknown,
        )
        refl

  -- The bytes of a host in a request that is on the server's own machine or network, with the address
  -- that stands for it: a local address, or a name of the host, with or without a dot at its end.
  pub data LocalHost : List ℕ → List ℕ → Type 0 where
    ipv4 :
        (ip : List ℕ)
        → length ip ≡ 4
        → (net.is_private ip || net.is_loopback ip) ≡ true
        → LocalHost (1 ∷ ip) ip
    ipv6 :
        (ip : List ℕ)
        → length ip ≡ 16
        → (net.is_private ip || net.is_loopback ip) ≡ true
        → LocalHost (4 ∷ ip) ip
    name_of_ipv4 :
        (c : ℕ) (name : List ℕ)
        → is_one_of (net.to_lower (trim_dot (c ∷ name))) ipv4_local_names ≡ true
        → LocalHost (3 ∷ length (c ∷ name) ∷ c ∷ name) net.ipv4_local
    name_of_ipv6 :
        (c : ℕ) (name : List ℕ)
        → is_one_of (net.to_lower (trim_dot (c ∷ name))) ipv4_local_names ≡ false
        → is_one_of (net.to_lower (trim_dot (c ∷ name))) ipv6_local_names ≡ true
        → LocalHost (3 ∷ length (c ∷ name) ∷ c ∷ name) net.ipv6_local

  -- The host is read from the request, and its address is the one that is checked.
  abbrev ChecksAs : List ℕ → List ℕ → ℕ → List ℕ → Type 0
  ChecksAs host ip port rest =
      (a : AddrSpec) × (read_from_socks5 empty_spec (host ++ (port_bytes port ++ rest))
        ≡ ok (a, rest))
      × (checked_ip net pick a ≡ some ip)
      × ((net.is_private ip || net.is_loopback ip) ≡ true)

  LocalHost-ChecksAs :
      (host ip : List ℕ) (port : ℕ) (rest : List ℕ)
      → LocalHost host ip
      → port < 2 ^ 16
      → ChecksAs host ip port rest
  unfolding checked_ip
  LocalHost-ChecksAs _ _ port rest (ipv4 [] len here) h = absurd (omega arith)
  LocalHost-ChecksAs _ _ port rest (ipv4 (b ∷ bs) len here) h = (
    record { fqdn = []; ip = b ∷ bs; port = port },
    read_from_socks5-host 1 port empty_spec _ _ rest h
        (read_host-ipv4 empty_spec (b ∷ bs) (port_bytes port ++ rest) len),
    refl,
    here,
  )
  LocalHost-ChecksAs _ _ port rest (ipv6 [] len here) h = absurd (omega arith)
  LocalHost-ChecksAs _ _ port rest (ipv6 (b ∷ bs) len here) h = (
    record { fqdn = []; ip = b ∷ bs; port = port },
    read_from_socks5-host 4 port empty_spec _ _ rest h
        (read_host-ipv6 empty_spec (b ∷ bs) (port_bytes port ++ rest) len),
    refl,
    here,
  )
  LocalHost-ChecksAs _ _ port rest (name_of_ipv4 c name found) h = (
    record { fqdn = c ∷ name; ip = []; port = port },
    read_from_socks5-host 3 port empty_spec _ _ rest h
        (read_host-fqdn empty_spec (c ∷ name) (port_bytes port ++ rest)),
    rw found refl,
    ground (arith, net.ipv4_local_lem),
  )
  LocalHost-ChecksAs _ _ port rest (name_of_ipv6 c name other found) h = (
    record { fqdn = c ∷ name; ip = []; port = port },
    read_from_socks5-host 3 port empty_spec _ _ rest h
        (read_host-fqdn empty_spec (c ∷ name) (port_bytes port ++ rest)),
    rw (other, found) refl,
    ground (arith, net.ipv6_local_lem),
  )

  LocalHost-long : (host ip more : List ℕ) → LocalHost host ip → 1 ≤ length (host ++ more)
  LocalHost-long _ _ more (ipv4 ip len here) = omega arith
  LocalHost-long _ _ more (ipv6 ip len here) = omega arith
  LocalHost-long _ _ more (name_of_ipv4 c name found) = omega arith
  LocalHost-long _ _ more (name_of_ipv6 c name other found) = omega arith

  -- The bytes of a SOCKS5 connect or UDP associate request to a private or loopback address, or to a
  -- name of the host itself, with a port and what follows, make the server reject the request,
  -- whatever the rules say, if the user is unknown or may not reach the address, and the configuration
  -- does not allow it as a loopback address.
  pub local_rejected :
      (cfg : Config) (user : Option (List ℕ)) (command port : ℕ) (host ip rest : List ℕ)
      → LocalHost host ip
      → (command == connect_cmd || command == udp_associate_cmd) ≡ true
      → port < 2 ^ 16
      → (net.is_loopback ip && cfg.allow_loopback_destination) ≡ false
      → permits cfg user ip ≡ false
      → find_action net pick cfg (record {
        is_socks5 = true;
        data_read = 5 ∷ command ∷ 0 ∷ (host ++ (port_bytes port ++ rest));
        env_user = user;
      })
        ≡ only reject
  unfolding read_request
  local_rejected cfg user command port host ip rest local code h not_exempt unknown =
      let (a, read, checked, here) = LocalHost-ChecksAs host ip port rest local h in
      let bytes = host ++ (port_bytes port ++ rest) in
      let some_host : 1 ≤ length bytes = LocalHost-long host ip (port_bytes port ++ rest) local in
      checked_rejected cfg
        (record { is_socks5 = true; data_read = 5 ∷ command ∷ 0 ∷ bytes; env_user = user })
        (record { command = command; dst_addr = a; raw = consumed (5 ∷ command ∷ 0 ∷ bytes) rest })
        rest ip refl (omega (arith, some_host)) refl
        (rw (read_full-append (5 ∷ command ∷ 0 ∷ []) bytes, read) refl) code checked here not_exempt
        unknown
