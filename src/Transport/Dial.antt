-- ===== src/Transport/Dial.antt =====
-- internal/edns/proxy.go: `dialTCP`. `S` says how sockets, TLS and `net/http` answer.
pub mod Laws
use encrypted_dns_skill.Base.{ℕ, List, [], ◌∷◌, ◌++◌, ◌==◌, Option, none, some, if◌then◌else◌}
use encrypted_dns_skill.Base64.{base64}
use encrypted_dns_skill.Errors.{
  Error, connect_proxy, set_deadline, authenticate_proxy, write_connect, read_connect,
  connect_status, Fallible, ok, err, ◌>>=◌,
}
use encrypted_dns_skill.Frame.{Reader, read_connect_response}
use encrypted_dns_skill.Platform.{Platform, Url}
use encrypted_dns_skill.Text.{Text, Bytes, codes, text_eq}
use encrypted_dns_skill.Transport.{
  TlsConfig, version_tls12, Event, tcp_connect, proxy_handshake, connect_request, tcp_close,
}

pub record Sockets : Type 0 where
  -- `net.Dialer.DialContext`, and `SetDeadline`, which succeeds where there is no deadline
  pub dial : Text → Fallible (Unit {0})
  pub proxy_deadline : Fallible (Unit {0})
  -- the handshake with an HTTPS proxy, and the writing of the request
  pub proxy_tls : TlsConfig → Fallible (Unit {0})
  pub write_request : Text → Text → Fallible (Unit {0})
  -- what the proxy sends, and the status that `http.ReadResponse` finds in a header
  pub answer : Reader
  pub status_of : Bytes → Fallible ℕ

-- An error with a text in front of it.
abbrev pub wrap_error {ℓ} : {A : Type ℓ} → (Error → Error) → Fallible A → Fallible A
wrap_error f (ok a) = ok a
wrap_error f (err e) = err (f e)

-- The address of a proxy, with the port of its scheme where it names none.
unfoldable pub proxy_address : Platform → Url → Text
proxy_address P proxy =
    if P.has_port proxy.host
    then proxy.host
    else P.join_host_port proxy.hostname
        (if text_eq proxy.scheme (codes "https") then codes "443" else codes "80")

-- The header `Proxy-Authorization`; an empty text where it is not set.
unfoldable pub authorization : Option (Text × Text) → Text
authorization none = []
authorization (some (name, password)) = codes "Basic " ++ base64 (name ++ b':' ∷ password)

-- The configuration of TLS for an HTTPS proxy.
unfoldable pub proxy_config : Url → TlsConfig
proxy_config proxy = record {
  server_name = proxy.hostname;
  min_version = version_tls12;
  next_protos = [];
}

-- The status of the response to CONNECT.
unfoldable pub check_status : ℕ → Fallible (Unit {0})
check_status status = if status == 200 then ok tt else err (connect_status status)

-- `connection.Close()` where an error is returned.
unfoldable pub close_on_error : Fallible (Unit {0}) → List Event
close_on_error (err e) = tcp_close ∷ []
close_on_error (ok _) = []

module _ (S : Sockets) where
  unfoldable pub await_tunnel : Fallible (Unit {0})
  await_tunnel =
      wrap_error read_connect (read_connect_response S.answer >>= λ h. S.status_of h.0)
      >>= check_status

  -- From the CONNECT request on; an error closes the connection.
  unfoldable pub request_tunnel : Text → Url → Fallible (Unit {0}) × List Event
  request_tunnel target proxy =
      let result =
        wrap_error write_connect (S.write_request target (authorization proxy.user)) >>= λ _.
        await_tunnel in
      (result, connect_request target (authorization proxy.user) ∷ close_on_error result)

  -- From the handshake with an HTTPS proxy on.
  unfoldable pub secure_tunnel : Text → Url → Fallible (Unit {0}) × List Event
  secure_tunnel target proxy =
      let (result, events) = request_tunnel target proxy in
      let event = proxy_handshake proxy.hostname in
      if text_eq proxy.scheme (codes "https")
      then elim (S.proxy_tls (proxy_config proxy)) [
        | err e ↦ (err (authenticate_proxy e), event ∷ tcp_close ∷ [])
        | ok _ ↦ (result, event ∷ events)
      ]
      else (result, events)

  unfoldable pub open_tunnel : Text → Url → Fallible (Unit {0}) × List Event
  open_tunnel target proxy = elim S.proxy_deadline [
    | err e ↦ (err (set_deadline (codes "proxy") e), tcp_close ∷ [])
    | ok _ ↦ secure_tunnel target proxy
  ]

  -- `dialTCP`
  unfoldable pub dial_tcp : Platform → Text → Option Url → Fallible (Unit {0}) × List Event
  dial_tcp P target none = elim (S.dial target) [
    | err e ↦ (err e, [])
    | ok _ ↦ (ok tt, tcp_connect target ∷ [])
  ]
  dial_tcp P target (some proxy) =
      let (result, events) = open_tunnel target proxy in
      let address = proxy_address P proxy in
      elim (S.dial address) [
        | err e ↦ (err (connect_proxy e), [])
        | ok _ ↦ (result, tcp_connect address ∷ events)
      ]
