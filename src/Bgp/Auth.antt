-- ===== src/Bgp/Auth.antt =====
-- src/bgp/auth.rs: the TCP-MD5 option on Linux, and the calls on sockets as a trace. A connection uses
-- one socket, so the calls do not name it.
use focl.Base.{
  ℕ, zero, suc, ◌-◌, ◌/◌, ◌%◌, ◌^◌, String, Bool, Option, none, some, List, [], ◌∷◌, ◌++◌, length,
  replicate, ltb, if◌then◌else◌, Result, ok, err,
}
use Prim.Native.String.{◌++◌ as append_text}
use focl.Net.{v4, v6, SocketAddr}

-- `sockaddr_in` and `sockaddr_in6`: the port and the address as their bytes in memory.
pub data SockAddr : Type 0 where
  sin : (family : ℕ) (port addr : List ℕ) → SockAddr
  sin6 : (family : ℕ) (port : List ℕ) (flowinfo : ℕ) (addr : List ℕ) (scope_id : ℕ) → SockAddr

pub record TcpMd5Sig : Type 0 where
  pub addr : SockAddr
  pub flags : ℕ
  pub prefixlen : ℕ
  pub keylen : ℕ
  pub ifindex : ℕ
  pub key : List ℕ

abbrev pub max_key_len : ℕ
max_key_len = 80

-- The bytes of a number, the highest first.
abbrev pub be_bytes : ℕ → ℕ → List ℕ
be_bytes zero n = []
be_bytes (suc k) n = n / 256 ^ k % 256 ∷ be_bytes k n

-- AF_INET is 2 and AF_INET6 is 10.
abbrev pub sock_addr : SocketAddr → SockAddr
sock_addr peer_addr = elim peer_addr.ip [
  | v4 ip ↦ sin 2 (be_bytes 2 peer_addr.port) (be_bytes 4 ip)
  | v6 ip ↦ sin6 10 (be_bytes 2 peer_addr.port) 0 (be_bytes 16 ip) 0
]

-- A call on the sockets.
pub data Call : Type 0 where
  new_socket : (is_v4 : Bool) → Call
  bind_to : SocketAddr → Call
  sign : TcpMd5Sig → Call
  connect_to : SocketAddr → Call
  listen_at : SocketAddr → Call
  accept : Call

-- The system: whether a call fails, the peer that is accepted, the bytes of a text,
-- and the text of an address.
pub record Os : Type 0 where
  pub fails : Call → Option String
  pub accepted : SocketAddr
  pub as_bytes : String → List ℕ
  pub addr_text : SocketAddr → String

-- The calls that were made, and the result.
abbrev pub Traced : Type 0 → Type 0
Traced A = List Call × Result A

infixl 5 ◌>>=◌
abbrev pub ◌>>=◌ : {A B : Type 0} → Traced A → (A → Traced B) → Traced B
(made, err e) >>= next = (made, err e)
(made, ok a) >>= next = let (later, r) = next a in (made ++ later, r)

infixl 5 ◌>>◌
abbrev pub ◌>>◌ : {B : Type 0} → Traced (Unit {0}) → Traced B → Traced B
first >> second = first >>= λ _. second

abbrev pub fail_with : {A : Type 0} → String → Traced A
fail_with e = ([], err e)

abbrev pub returned : {A : Type 0} → Result A → Traced A
returned r = ([], r)

unfoldable pub perform : Os → Call → Traced (Unit {0})
perform os call = elim (os.fails call) [ none ↦ (call ∷ [], ok tt) | some e ↦ (call ∷ [], err e) ]

-- The option for a key of at most 80 bytes, padded with zeros.
abbrev pub md5sig : SocketAddr → List ℕ → TcpMd5Sig
md5sig peer_addr password_bytes = record {
  addr = sock_addr peer_addr;
  flags = 0;
  prefixlen = 0;
  keylen = length password_bytes % 2 ^ 16;
  ifindex = 0;
  key = password_bytes ++ replicate (max_key_len - length password_bytes) 0;
}

-- A message put in place of the error's own.
abbrev pub named : {A : Type 0} → (String → String) → Traced A → Traced A
named message (made, ok a) = (made, ok a)
named message (made, err e) = (made, err (message e))

unfoldable pub set_tcp_md5_signature : Os → SocketAddr → String → Traced (Unit {0})
set_tcp_md5_signature os peer_addr password =
    if ltb max_key_len (length (os.as_bytes password))
    then fail_with "password too long (max 80 bytes)"
    else named (append_text "failed to set TCP_MD5SIG: ")
        (perform os (sign (md5sig peer_addr (os.as_bytes password))))

-- `if let Some(password) = &peer.password`, with the context of its error.
unfoldable pub set_md5_signature : Os → String → SocketAddr → Option String → Traced (Unit {0})
set_md5_signature os context peer_addr none = returned (ok tt)
set_md5_signature os context peer_addr (some password) =
    named (λ _. context) (set_tcp_md5_signature os peer_addr password)
