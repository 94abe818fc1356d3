-- ===== src/Tcp/Dial/Resolve.antt =====
-- sleepytcp/dial_tcp.go: resolveTCPAddrs. What it calls of the net and strconv packages is a
-- parameter.
use slept.Prelude.{
  ℕ, ◌==◌, Bool, not, ◌&&◌, if◌then◌else◌, List, [], ◌∷◌, length, Option, none, some,
}
use slept.Prelude.Int.{ℤ}

-- `from_net` is an error of the packages that the code calls.
pub data DialError : Type 0 where
  dial_timeout : DialError
  no_dns_entries : DialError
  from_net : ℕ → DialError

pub data Reply (A : Type 0) : Type 0 where
  done : A → Reply A
  failed : DialError → Reply A

infixl 5 ◌>>=◌
abbrev pub ◌>>=◌ : {A B : Type 0} → Reply A → (A → Reply B) → Reply B
done a >>= next = next a
failed why >>= next = failed why

pub record IpAddr (IP Zone : Type 0) : Type 0 where
  pub ip : IP
  pub zone : Zone

pub record TcpAddr (IP Zone : Type 0) : Type 0 where
  pub ip : IP
  pub port : ℤ
  pub zone : Zone

-- `To4` is whether the result is not nil; a text is split into those of the host and the port.
pub record Net (IP Zone Resolver : Type 0) : Type 0 where
  pub split_host_port : ℕ → Reply (ℕ × ℕ)
  pub atoi : ℕ → Reply ℤ
  pub default_resolver : Resolver
  pub lookup_ip_addr : Resolver → ℕ → Reply (List (IpAddr IP Zone))
  pub to4 : IP → Bool

module _ {IP Zone Resolver : Type 0} (net : Net IP Zone Resolver) where
  -- The loop over the addresses found.
  unfoldable pub tcp_addrs : Bool → ℤ → List (IpAddr IP Zone) → List (TcpAddr IP Zone)
  tcp_addrs dual_stack port [] = []
  tcp_addrs dual_stack port (a ∷ found) =
      let rest = tcp_addrs dual_stack port found in
      if not dual_stack && not (net.to4 a.ip)
      then rest
      else record { ip = a.ip; port = port; zone = a.zone } ∷ rest

  unfoldable pub chosen_resolver : Option Resolver → Resolver
  chosen_resolver none = net.default_resolver
  chosen_resolver (some resolver) = resolver

  unfoldable pub some_addrs : List (TcpAddr IP Zone) → Reply (List (TcpAddr IP Zone))
  some_addrs addrs = if length addrs == 0 then failed no_dns_entries else done addrs

  unfoldable pub resolve_tcp_addrs : ℕ → Bool → Option Resolver → Reply (List (TcpAddr IP Zone))
  unfolding tcp_addrs chosen_resolver some_addrs
  resolve_tcp_addrs addr dual_stack resolver = do
    (host, port_s) ← net.split_host_port addr
    port ← net.atoi port_s
    ip_addrs ← net.lookup_ip_addr (chosen_resolver resolver) host
    some_addrs (tcp_addrs dual_stack port ip_addrs)
