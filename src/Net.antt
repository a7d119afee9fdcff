-- ===== src/Net.antt =====
-- The addresses of `std::net` and `ipnet` as values, and the texts of both as an interface: their
-- parsers and printers are library code.
use focl.Base.{ℕ, String, Option, Bool}
use Prim.Native.Char.{Char}

-- An IPv4 address is its 32-bit number, an IPv6 address its 128-bit number.
pub data IpAddr : Type 0 where
  v4 : ℕ → IpAddr
  v6 : ℕ → IpAddr

pub record SocketAddr : Type 0 where
  pub ip : IpAddr
  pub port : ℕ

pub record IpNet : Type 0 where
  pub addr : IpAddr
  pub prefix_len : ℕ

-- `str::parse` and `to_string` at these types, and `char::is_whitespace`.
pub record NetText : Type 0 where
  pub parse_ipv4 : String → Option ℕ
  pub parse_ip_addr : String → Option IpAddr
  pub parse_socket_addr : String → Option SocketAddr
  pub parse_ip_net : String → Option IpNet
  pub ip_net_text : IpNet → String
  pub is_whitespace : Char → Bool
