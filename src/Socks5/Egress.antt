-- ===== src/Socks5/Egress.antt =====
-- pkg/socks5/egress.go: where a SOCKS5 request may go. The standard library's `net` and `strings` are the
-- parameter `Net`; the random choice of a proxy is one of `pick`. Strings are lists of bytes.
pub mod Local
mod Examples
use mieru.Common.{
  ℕ, zero, suc, ◌+◌, ◌-◌, ◌≡◌, Bool, true, false, not, ◌&&◌, ◌||◌, Option, none, some, List, [],
  ◌∷◌, ◌++◌, leb, ltb, ◌==◌, if◌then◌else◌, Result, ok, err, length, get_or, drop,
}
use mieru.Apis.Socks.Addr.{AddrSpec, SocksError, bytes_eq, empty_spec}
use mieru.Apis.Socks.Message.{Request, read_request, socks5_version, connect_cmd, udp_associate_cmd}

pub record Net : Type 0 where
  pub is_private : List ℕ → Bool
  pub is_loopback : List ℕ → Bool
  -- `net.ParseCIDR` and `Contains`; `none` is an error of the parser
  pub in_range : (range ip : List ℕ) → Option Bool
  -- `net.ParseIP("127.0.0.1")` and `net.ParseIP("::1")`
  pub ipv4_local : List ℕ
  pub ipv6_local : List ℕ
  pub to_lower : List ℕ → List ℕ
  pub ipv4_local_lem : is_loopback ipv4_local ≡ true
  pub ipv6_local_lem : is_loopback ipv6_local ≡ true

pub data EgressAction : Type 0 where
  direct proxy reject : EgressAction

pub record EgressProxy : Type 0 where
  pub name : List ℕ

pub record Action : Type 0 where
  pub action : EgressAction
  pub by_proxy : Option EgressProxy

pub record EgressRule : Type 0 where
  pub ip_ranges : List (List ℕ)
  pub domain_names : List (List ℕ)
  pub rule_action : EgressAction
  pub proxy_names : List (List ℕ)

pub record User : Type 0 where
  pub allow_private_ip : Bool
  pub allow_loopback_ip : Bool

-- The parts of the server's configuration that are read here
pub record Config : Type 0 where
  pub allow_loopback_destination : Bool
  pub users : List (List ℕ × User)
  pub rules : List EgressRule
  pub proxies : List EgressProxy

-- `egress.Input`: whether the protocol is SOCKS5, the data, and `Env["user"]`
pub record Input : Type 0 where
  pub is_socks5 : Bool
  pub data_read : List ℕ
  pub env_user : Option (List ℕ)

abbrev pub only : EgressAction → Action
only a = record { action = a; by_proxy = none }

abbrev pub is_empty : {A : Type 0} → List A → Bool
is_empty [] = true
is_empty (x ∷ xs) = false

abbrev localhost : List ℕ
localhost = 108 ∷ 111 ∷ 99 ∷ 97 ∷ 108 ∷ 104 ∷ 111 ∷ 115 ∷ 116 ∷ []

abbrev localdomain : List ℕ
localdomain = 46 ∷ 108 ∷ 111 ∷ 99 ∷ 97 ∷ 108 ∷ 100 ∷ 111 ∷ 109 ∷ 97 ∷ 105 ∷ 110 ∷ []

-- localhost, localhost4, localhost.localdomain, localhost4.localdomain4
abbrev pub ipv4_local_names : List (List ℕ)
ipv4_local_names =
    localhost
    ∷ (localhost ++ (52 ∷ []))
    ∷ (localhost ++ localdomain)
    ∷ (localhost ++ ((52 ∷ []) ++ (localdomain ++ (52 ∷ []))))
    ∷ []

-- localhost6, ip6-localhost, ip6-loopback, localhost6.localdomain6
abbrev pub ipv6_local_names : List (List ℕ)
ipv6_local_names =
    (localhost ++ (54 ∷ []))
    ∷ (105 ∷ 112 ∷ 54 ∷ 45 ∷ localhost)
    ∷ (105 ∷ 112 ∷ 54 ∷ 45 ∷ 108 ∷ 111 ∷ 111 ∷ 112 ∷ 98 ∷ 97 ∷ 99 ∷ 107 ∷ [])
    ∷ (localhost ++ ((54 ∷ []) ++ (localdomain ++ (54 ∷ []))))
    ∷ []

abbrev pub is_one_of : List ℕ → List (List ℕ) → Bool
is_one_of s [] = false
is_one_of s (n ∷ ns) = bytes_eq s n || is_one_of s ns

-- `strings.TrimSuffix(s, ".")`
abbrev pub trim_dot : List ℕ → List ℕ
trim_dot [] = []
trim_dot (b ∷ []) = if b == 46 then [] else b ∷ []
trim_dot (b ∷ c ∷ cs) = b ∷ trim_dot (c ∷ cs)

-- `strings.HasSuffix`
abbrev pub has_suffix : List ℕ → List ℕ → Bool
has_suffix s t = leb (length t) (length s) && bytes_eq (drop (length s - length t) s) t

abbrev pub find_user : List ℕ → List (List ℕ × User) → Option User
find_user name [] = none
find_user name ((n, u) ∷ us) = if bytes_eq name n then some u else find_user name us

module _ (net : Net) (pick : ℕ → ℕ) where
  -- The address that is checked; a name is not resolved, but some stand for the host itself.
  abbrev pub local_name : List ℕ → Option (List ℕ)
  local_name domain =
      if is_one_of domain ipv4_local_names
      then some net.ipv4_local
      else if is_one_of domain ipv6_local_names
      then some net.ipv6_local
      else none

  unfoldable pub checked_ip : AddrSpec → Option (List ℕ)
  checked_ip a =
      if is_empty a.ip
      then if is_empty a.fqdn then none else local_name (net.to_lower (trim_dot a.fqdn))
      else some a.ip

  abbrev pub action_for_user : List ℕ → Option User → EgressAction
  action_for_user ip none = reject
  action_for_user ip (some u) =
      if net.is_private ip && u.allow_private_ip
      then direct
      else if net.is_loopback ip && u.allow_loopback_ip
      then direct
      else reject

  abbrev pub action_for_name : Config → List ℕ → Option (List ℕ) → EgressAction
  action_for_name cfg ip none = reject
  action_for_name cfg ip (some []) = reject
  action_for_name cfg ip (some (b ∷ bs)) = action_for_user ip (find_user (b ∷ bs) cfg.users)

  unfoldable pub action_for_ip : Config → Option (List ℕ) → List ℕ → EgressAction
  action_for_ip cfg user ip =
      if not (net.is_private ip) && not (net.is_loopback ip)
      then direct
      else if net.is_loopback ip && cfg.allow_loopback_destination
      then direct
      else action_for_name cfg ip user

  -- `rejectPrivateAndLoopbackIPAction`
  abbrev pub action_for_checked : Config → Option (List ℕ) → Option (List ℕ) → EgressAction
  action_for_checked cfg user none = direct
  action_for_checked cfg user (some ip) = action_for_ip cfg user ip

  abbrev pub reject_private_and_loopback_ip : Config → Option (List ℕ) → Request → EgressAction
  reject_private_and_loopback_ip cfg user req =
      action_for_checked cfg user (checked_ip req.dst_addr)

  -- `matchEgressRule`
  abbrev pub matches_range : List ℕ → List (List ℕ) → Bool
  matches_range ip [] = false
  matches_range ip (r ∷ rs) =
      bytes_eq r (42 ∷ []) || holds (net.in_range r ip) || matches_range ip rs
    where
      holds : Option Bool → Bool
      holds none = false
      holds (some b) = b

  abbrev pub matches_domain : List ℕ → List (List ℕ) → Bool
  matches_domain domain [] = false
  matches_domain domain (d ∷ ds) =
      bytes_eq d (42 ∷ [])
      || bytes_eq domain d
      || has_suffix domain (46 ∷ d)
      || matches_domain domain ds

  abbrev pub match_egress_rule : AddrSpec → EgressRule → Bool
  match_egress_rule a rule =
      if not (is_empty a.ip)
      then matches_range a.ip rule.ip_ranges
      else if not (is_empty a.fqdn)
      then matches_domain a.fqdn rule.domain_names
      else false

  abbrev pub find_proxy : List ℕ → List EgressProxy → Option EgressProxy
  find_proxy name [] = none
  find_proxy name (p ∷ ps) = if bytes_eq p.name name then some p else find_proxy name ps

  abbrev pub selected_name : List (List ℕ) → List ℕ
  selected_name names = get_or names (pick (length names)) []

  abbrev pub rule_result : Config → EgressRule → Action
  rule_result cfg rule = record { action = rule.rule_action; by_proxy = to_proxy rule.rule_action }
    where
      to_proxy : EgressAction → Option EgressProxy
      to_proxy proxy = find_proxy (selected_name rule.proxy_names) cfg.proxies
      to_proxy direct = none
      to_proxy reject = none

  abbrev pub first_rule : Config → AddrSpec → List EgressRule → Action
  first_rule cfg a [] = only direct
  first_rule cfg a (r ∷ rs) =
      if match_egress_rule a r then rule_result cfg r else first_rule cfg a rs

  -- `forwardToProxyAction`
  unfoldable pub forward_to_proxy : Config → Request → Action
  forward_to_proxy cfg req =
      if is_empty req.dst_addr.ip && is_empty req.dst_addr.fqdn
      then only direct
      else first_rule cfg req.dst_addr cfg.rules

  abbrev pub unless_rejected : EgressAction → Action → Action
  unless_rejected reject a = only reject
  unless_rejected direct a = a
  unless_rejected proxy a = a

  abbrev pub action_for_request : Config → Option (List ℕ) → Request → Action
  action_for_request cfg user req =
      if req.command == connect_cmd || req.command == udp_associate_cmd
      then unless_rejected (reject_private_and_loopback_ip cfg user req) (forward_to_proxy cfg req)
      else only direct

  abbrev pub action_for_parsed :
      Config → Option (List ℕ) → Result SocksError (Request × List ℕ) → Action
  action_for_parsed cfg user (err e) = only direct
  action_for_parsed cfg user (ok (req, rest)) = action_for_request cfg user req

  -- `FindAction`
  unfoldable pub find_action : Config → Input → Action
  find_action cfg input =
      if not input.is_socks5
      then only direct
      else if ltb (length input.data_read) 4
      then only direct
      else if not (get_or input.data_read 0 0 == socks5_version)
      then only direct
      else action_for_parsed cfg input.env_user
          (read_request (record { command = 0; dst_addr = empty_spec; raw = [] }) input.data_read)
