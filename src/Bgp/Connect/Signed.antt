-- ===== src/Bgp/Connect/Signed.antt =====
-- src/bgp/mod.rs and src/bgp/auth.rs: when a connection is signed, and with which key.
use focl.Base.{
  ℕ, ◌≤◌, ◌-◌, ◌%◌, ◌^◌, String, Bool, Bool-cases, Result-cases, Option-cases, true, false, ◌&&◌,
  Option, none, some, List, [], ◌∷◌, ◌++◌, take, length, replicate, ltb, is_some, ◌≡◌, refl, ap,
  subst, inl, inr, ok, err, arith, tests,
}
use focl.Net.{NetText, SocketAddr}
use focl.Config.{PeerConfig}
use focl.Bgp.Auth.{
  Call, new_socket, bind_to, sign, connect_to, listen_at, accept, Os, Traced, ◌>>=◌, ◌>>◌, returned,
  perform, named, set_md5_signature, set_tcp_md5_signature, md5sig,
}
use focl.Bgp.Connect.{
  local_bind, is_ipv4, connect_from, connect_with_optional_bind, normalize_socket_addr,
}

-- Whether a signature is set before the socket is connected.
unfoldable pub signed_first : List Call → Bool
signed_first [] = false
signed_first (sign s ∷ made) = true
signed_first (connect_to a ∷ made) = false
signed_first (new_socket b ∷ made) = signed_first made
signed_first (bind_to a ∷ made) = signed_first made
signed_first (listen_at a ∷ made) = signed_first made
signed_first (accept ∷ made) = signed_first made

-- The keys that are set.
unfoldable pub keys : List Call → List (List ℕ)
keys [] = []
keys (sign s ∷ made) = take s.keylen s.key ∷ keys made
keys (connect_to a ∷ made) = keys made
keys (new_socket b ∷ made) = keys made
keys (bind_to a ∷ made) = keys made
keys (listen_at a ∷ made) = keys made
keys (accept ∷ made) = keys made

-- The key that a peer's configuration asks for.
abbrev pub key_of : Os → Option String → List (List ℕ)
key_of os none = []
key_of os (some password) = os.as_bytes password ∷ []

-- What is so when the calls succeed.
abbrev Ends : {A : Type 0} → (List Call → Type 0) → Traced A → Type 0
Ends P (made, ok a) = P made
Ends P (made, err e) = Unit {0}

at_most : (m n : ℕ) → ltb m n ≡ false → n ≤ m
at_most m n h = grind tests

take-length-append : {A : Type 0} (xs ys : List A) → take (length xs) (xs ++ ys) ≡ xs
take-length-append [] ys = refl
take-length-append (x ∷ xs) ys = ap (λ l. x ∷ l) (take-length-append xs ys)

-- A key of at most 80 bytes is read back from the option.
kept_key :
    (remote : SocketAddr) (bytes : List ℕ)
    → length bytes ≤ 80
    → take (md5sig remote bytes).keylen (md5sig remote bytes).key ≡ bytes
kept_key remote bytes h =
    let small : length bytes % 2 ^ 16 ≡ length bytes = omega arith in
    rw (small) (take-length-append bytes (replicate (80 - length bytes) 0))

module _ {B : Type 0} (os : Os) (P : List Call → Type 0) (next : Traced B) where
  prepend-Ends :
      (call : Call) (t : Traced B) → Ends (λ made. P (call ∷ made)) t → Ends P ((call ∷ t.0), t.1)
  prepend-Ends call (made, ok a) h = h
  prepend-Ends call (made, err e) h = tt

  perform-Ends :
      (call : Call) → Ends (λ made. P (call ∷ made)) next → Ends P (perform os call >> next)
  unfolding perform
  perform-Ends call h = elim (Option-cases (os.fails call)) [
    | inl e ↦ rw (e, perform) (prepend-Ends call next h)
    | inr (m, e) ↦ rw (e, perform) tt
  ]

  named-Ends :
      (call : Call) (f g : String → String)
      → Ends (λ made. P (call ∷ made)) next
      → Ends P (named g (named f (perform os call)) >> next)
  unfolding perform
  named-Ends call f g h = elim (Option-cases (os.fails call)) [
    | inl e ↦ rw (e, perform) (prepend-Ends call next h)
    | inr (m, e) ↦ rw (e, perform) tt
  ]

  signature-Ends :
      (context : String) (remote : SocketAddr) (password : String)
      → (length (os.as_bytes password) ≤ 80
          → Ends (λ made. P (sign (md5sig remote (os.as_bytes password)) ∷ made)) next)
      → Ends P (set_md5_signature os context remote (some password) >> next)
  unfolding set_md5_signature set_tcp_md5_signature
  signature-Ends context remote password h =
      elim (Bool-cases (ltb 80 (length (os.as_bytes password)))) [
        | inl e ↦ rw (e, set_md5_signature, set_tcp_md5_signature) tt
        | inr e ↦
            rw (e, set_md5_signature, set_tcp_md5_signature)
              (named-Ends (sign (md5sig remote (os.as_bytes password))) _ _
                (h (at_most 80 (length (os.as_bytes password)) e)))
      ]

-- What is to be shown of the calls.
abbrev IsSigned : Os → Option String → Bool → List Call → Type 0
IsSigned os password early made =
    (signed_first made ≡ (is_some password && early)) × (keys made ≡ key_of os password)

module _ (os : Os) (remote : SocketAddr) where
  -- The end of a connection: the calls before it are `P`'s.
  connected :
      (P : List Call → Type 0)
      → P (connect_to remote ∷ [])
      → Ends P (perform os (connect_to remote) >> returned (ok remote))
  connected P h = perform-Ends os P (returned (ok remote)) (connect_to remote) h

  -- A signature, if there is one to be set, and what follows it.
  signature_then :
      (P : List Call → Type 0) (password : Option String) (next : Traced SocketAddr)
      → (password ≡ none → Ends P next)
      → ((p : String)
          → password ≡ some p
          → length (os.as_bytes p) ≤ 80
          → Ends (λ made. P (sign (md5sig remote (os.as_bytes p)) ∷ made)) next)
      → Ends P (set_md5_signature os "failed to set TCP-MD5 signature" remote password >> next)
  unfolding set_md5_signature
  signature_then P none next h k = h refl
  signature_then P (some p) next h k =
      signature-Ends os P next "failed to set TCP-MD5 signature" remote p (k p refl)

  early_Ends :
      (local : SocketAddr) (password : Option String)
      → Ends (IsSigned os password true) (connect_from os password remote (some local))
  unfolding connect_from signed_first keys
  early_Ends local password =
      let P : List Call → Type 0 =
        λ made. IsSigned os password true (new_socket (is_ipv4 local) ∷ bind_to local ∷ made) in
      perform-Ends os (IsSigned os password true) _ (new_socket (is_ipv4 local)) (
        perform-Ends os (λ made. IsSigned os password true (new_socket (is_ipv4 local) ∷ made)) _
          (bind_to local)
          (signature_then P password (perform os (connect_to remote) >> returned (ok remote))
            (λ e. connected P (rw (e) (refl, refl)))
            (λ p e h.
              connected (λ made. P (sign (md5sig remote (os.as_bytes p)) ∷ made))
                (rw (e) (refl, ap (λ k. k ∷ []) (kept_key remote (os.as_bytes p) h))))))

  late_Ends :
      (password : Option String)
      → Ends (IsSigned os password false) (connect_from os password remote none)
  unfolding connect_from signed_first keys
  late_Ends password =
      let P : List Call → Type 0 = λ made. IsSigned os password false (connect_to remote ∷ made) in
      perform-Ends os (IsSigned os password false) _ (connect_to remote) (
        signature_then P password (returned (ok remote)) (λ e. rw (e) (refl, refl))
          (λ p e h. rw (e) (refl, ap (λ k. k ∷ []) (kept_key remote (os.as_bytes p) h))))

connect_Ends :
    (os : Os) (net : NetText) (password local_address : Option String) (remote : SocketAddr)
    → Ends
        (IsSigned os password (is_some local_address))
        (returned (local_bind net local_address) >>= connect_from os password remote)
unfolding local_bind
connect_Ends os net password none remote = late_Ends os remote password
connect_Ends os net password (some raw) remote =
    elim (Result-cases (normalize_socket_addr net raw 0)) [
      | inl (local, e) ↦ rw (e, local_bind) (early_Ends os remote local password)
      | inr (m, e) ↦ rw (e, local_bind) tt
    ]

-- When a connection to a peer succeeds, the keys that were set are the bytes of the peer's password, or
-- none without a password; and the key was set before the connection was made exactly when the peer has
-- a password and a local address. With a password and no local address the handshake is not signed.
pub connect_with_optional_bind-signed :
    (os : Os) (net : NetText) (peer : PeerConfig) (remote stream : SocketAddr) (made : List Call)
    → connect_with_optional_bind os net peer remote ≡ (made, ok stream)
    → (signed_first made ≡ (is_some peer.password && is_some peer.local_address))
      × (keys made ≡ key_of os peer.password)
unfolding connect_with_optional_bind
connect_with_optional_bind-signed os net peer remote stream made h =
    subst (Ends (IsSigned os peer.password (is_some peer.local_address))) h
      (connect_Ends os net peer.password peer.local_address remote)
