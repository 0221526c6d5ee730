-- ===== src/Transport/Network/Answered.antt =====
-- What `exchangeProtocol` answers is what one of the transports answers.
use encrypted_dns_skill.Base.{◌≡◌, refl, inl, inr, Bool-cases}
use encrypted_dns_skill.Errors.{Fallible, ok, err}
use encrypted_dns_skill.Errors.Laws.{Fallible-cases, err-ne-ok}
use encrypted_dns_skill.Model.{QueryOptions, TransportInfo}
use encrypted_dns_skill.Platform.{Platform}
use encrypted_dns_skill.Provider.{Provider, endpoint}
use encrypted_dns_skill.Query.{exchange_protocol}
use encrypted_dns_skill.Text.{Text, Bytes, codes, text_eq}
use encrypted_dns_skill.Text.Equality.{text_eq_sound}
use encrypted_dns_skill.Transport.{response_of, info_after}
use encrypted_dns_skill.Transport.Doh.{exchange_doh, exchange_doh3}
use encrypted_dns_skill.Transport.DnsCrypt.{exchange_dnscrypt}
use encrypted_dns_skill.Transport.Doq.{exchange_doq}
use encrypted_dns_skill.Transport.Dot.{exchange_dot}
use encrypted_dns_skill.Transport.Network.{Network, transports, network_exchange}

-- What holds of the transport where there is an answer.
abbrev pub IfAnswered : (TransportInfo → Type 0) → Fallible Bytes → TransportInfo → Type 0
IfAnswered A (ok response) info = A info
IfAnswered A (err e) info = Unit

pub IfAnswered-intro :
    (A : TransportInfo → Type 0) (m : Fallible Bytes) (info : TransportInfo)
    → ((response : Bytes) → m ≡ ok response → A info)
    → IfAnswered A m info
IfAnswered-intro A (ok response) info h = h response refl
IfAnswered-intro A (err e) info h = tt

pub IfAnswered-elim :
    (A : TransportInfo → Type 0) (m : Fallible Bytes) (info : TransportInfo) (response : Bytes)
    → IfAnswered A m info
    → m ≡ ok response
    → A info
IfAnswered-elim A (ok r) info response a h = a
IfAnswered-elim A (err e) info response a h = absurd (err-ne-ok _ _ h)

-- What every transport has of its protocol.
pub record IsOfEach {M : Type 0} (P : Platform) (N : Network M) (A : TransportInfo → Type 0)
    (provider : Provider) (wire : Bytes) (o : QueryOptions) : Type 0 where
  pub doh :
      o.protocol ≡ codes "doh"
      → IfAnswered A
          (exchange_doh N.doh P provider wire o.method o.proxy).0
          (exchange_doh N.doh P provider wire o.method o.proxy).1
  pub dot :
      o.protocol ≡ codes "dot"
      → IfAnswered A
          (response_of (exchange_dot N.dot P provider wire o.proxy))
          (info_after (exchange_dot N.dot P provider wire o.proxy))
  pub doq :
      o.protocol ≡ codes "doq"
      → IfAnswered A
          (response_of (exchange_doq N.doq provider wire))
          (info_after (exchange_doq N.doq provider wire))
  pub doh3 :
      o.protocol ≡ codes "doh3"
      → IfAnswered A
          (exchange_doh3 N.doh3 P provider wire o.method).0
          (exchange_doh3 N.doh3 P provider wire o.method).1
  pub dnscrypt :
      (stamp : Text)
      → o.protocol ≡ codes "dnscrypt"
      → IfAnswered A
          (exchange_dnscrypt N.dnscrypt stamp wire).response
          (exchange_dnscrypt N.dnscrypt stamp wire).transport

module _ {M : Type 0} (P : Platform) (N : Network M) (A : TransportInfo → Type 0) where
  pub network-IfAnswered :
      (provider : Provider) (wire : Bytes) (o : QueryOptions)
      → IsOfEach P N A provider wire o
      → IfAnswered A
          (network_exchange P N provider wire o).response
          (network_exchange P N provider wire o).transport
  unfolding network_exchange exchange_protocol transports
  network-IfAnswered provider wire o each = elim (Bool-cases (text_eq o.protocol (codes "doh"))) [
    | inl q1 ↦ rw q1 (each.doh (text_eq_sound _ _ q1))
    | inr q1 ↦ elim (Bool-cases (text_eq o.protocol (codes "dot"))) [
      | inl q2 ↦ rw (q1, q2) (each.dot (text_eq_sound _ _ q2))
      | inr q2 ↦ elim (Bool-cases (text_eq o.protocol (codes "doq"))) [
        | inl q3 ↦ rw (q1, q2, q3) (each.doq (text_eq_sound _ _ q3))
        | inr q3 ↦ elim (Bool-cases (text_eq o.protocol (codes "doh3"))) [
          | inl q4 ↦ rw (q1, q2, q3, q4) (each.doh3 (text_eq_sound _ _ q4))
          | inr q4 ↦ elim (Bool-cases (text_eq o.protocol (codes "dnscrypt"))) [
            | inr q5 ↦ rw (q1, q2, q3, q4, q5) tt
            | inl q5 ↦ elim (Fallible-cases (endpoint P provider (codes "dnscrypt"))) [
              | inr (e, k) ↦ rw (q1, q2, q3, q4, q5, k) tt
              | inl (stamp, k) ↦
                  rw (q1, q2, q3, q4, q5, k) (each.dnscrypt stamp (text_eq_sound _ _ q5))
            ]
          ]
        ]
      ]
    ]
  ]
