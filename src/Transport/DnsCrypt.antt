-- ===== src/Transport/DnsCrypt.antt =====
-- internal/edns/dnscrypt.go. `N` says how the packages dnscrypt and dns answer.
use encrypted_dns_skill.Base.{ℕ, ℤ, pos, negsuc, true, Option, none, some, ◌==◌, if◌then◌else◌}
use encrypted_dns_skill.Errors.{
  Error, unpack_query, query_context, authenticate_server, exchange_query, pack_response, external,
  Fallible, ok, err,
}
use encrypted_dns_skill.Model.{TransportInfo}
use encrypted_dns_skill.Query.{Exchanged, PeerInfo, no_peer}
use encrypted_dns_skill.Text.{Text, Bytes, codes}
use encrypted_dns_skill.Transport.{start_info}
use encrypted_dns_skill.Compare.{milliseconds}

-- `dnscrypt.Client`
pub record CryptClient : Type 0 where
  pub net : Text
  pub timeout : ℤ
  pub udp_size : ℕ

unfoldable pub crypt_client : ℤ → CryptClient
crypt_client timeout = record { net = codes "udp"; timeout = timeout; udp_size = 1252 }

-- The resolver that `Client.Dial` authenticates.
pub record Resolver : Type 0 where
  pub peer : PeerInfo
  pub construction : Text

-- What `ctx.Err()` gives, and the time until the deadline, where there is one.
pub record Moment : Type 0 where
  pub context_error : Option Error
  pub remaining : Option ℤ

-- `M` is a message of the package dns. The context is read at two moments.
pub record CryptNet (M : Type 0) : Type 0 where
  pub unpack : Bytes → Option M
  pub pack : M → Option Bytes
  pub first : Moment
  pub second : Moment
  pub dial : CryptClient → Text → Fallible Resolver
  pub exchange : CryptClient → M → Resolver → Fallible M
  pub elapsed : ℕ

-- `context.DeadlineExceeded`
abbrev pub deadline_exceeded : Error
deadline_exceeded = external (codes "context deadline exceeded")

unfoldable pub check_remaining : Option ℤ → Fallible ℤ
check_remaining none = ok (milliseconds 5_000)
check_remaining (some (negsuc n)) = err (query_context deadline_exceeded)
check_remaining (some (pos n)) =
    if n == 0 then err (query_context deadline_exceeded) else ok (pos n)

-- `dnsCryptRemainingTimeout`
unfoldable pub remaining_timeout : Moment → Fallible ℤ
remaining_timeout m = elim m.context_error [
  | some e ↦ err (query_context e)
  | none ↦ check_remaining m.remaining
]

abbrev pub exchanged : Fallible Bytes → TransportInfo → PeerInfo → Exchanged
exchanged response info peer = record { response = response; transport = info; peer = peer }

module _ {M : Type 0} (N : CryptNet M) where
  unfoldable pub pack_reply : M → Fallible Bytes
  pack_reply reply = elim (N.pack reply) [ none ↦ err pack_response | some wire ↦ ok wire ]

  unfoldable pub crypt_reply : Fallible M → Fallible Bytes
  crypt_reply (err e) = err (exchange_query e)
  crypt_reply (ok reply) = pack_reply reply

  -- From the authenticated resolver on.
  unfoldable pub ask_resolver : M → Resolver → TransportInfo → Exchanged
  ask_resolver query resolver info =
      let info' = record info {
        server_authenticated = true;
        crypto_construction = resolver.construction;
        elapsed_ms = N.elapsed;
      } in
      elim (remaining_timeout N.second) [
        | err e ↦ exchanged (err e) info' resolver.peer
        | ok timeout ↦
            exchanged (crypt_reply (N.exchange (crypt_client timeout) query resolver)) info'
              resolver.peer
      ]

  unfoldable pub dial_resolver : Text → M → TransportInfo → Exchanged
  dial_resolver stamp query info = elim (remaining_timeout N.first) [
    | err e ↦ exchanged (err e) info no_peer
    | ok timeout ↦ elim (N.dial (crypt_client timeout) stamp) [
      | err e ↦
          exchanged (err (authenticate_server (codes "DNSCrypt") e))
            (record info { elapsed_ms = N.elapsed }) no_peer
      | ok resolver ↦ ask_resolver query resolver info
    ]
  ]

  -- `exchangeDNSCrypt`
  unfoldable pub exchange_dnscrypt : Text → Bytes → Exchanged
  exchange_dnscrypt stamp wire =
      let info = start_info (codes "dnscrypt") (codes "stamp_ip") in
      elim (N.unpack wire) [
        | none ↦ exchanged (err unpack_query) info no_peer
        | some query ↦ dial_resolver stamp query info
      ]
