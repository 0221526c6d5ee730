-- ===== src/Query/Laws/Ids.antt =====
-- The transaction ID of what is sent.
use encrypted_dns_skill.Base.{◌/◌, ◌%◌, true, ◌∷◌, ◌≡◌, ◌⊎◌, some, arith}
use encrypted_dns_skill.Dns.Message.{Message}
use encrypted_dns_skill.Dns.Query.{Random, Built, query_message, build_query}
use encrypted_dns_skill.Dns.Query.Laws.{build_query-IsBuilt}
use encrypted_dns_skill.Errors.{ok}
use encrypted_dns_skill.Platform.{Platform}
use encrypted_dns_skill.Query.{sent_wire, sent_id, clear_id, wants_zero_id}
use encrypted_dns_skill.Text.{Text, Bytes, codes}
use encrypted_dns_skill.Text.Equality.{text_eq_complete}

-- What RFC 1035, and so dnsmessage, says of a packed message: its first two bytes are the ID.
abbrev pub PacksId : Platform → Type 0
PacksId P =
    (m : Message) (wire : Bytes)
    → P.pack m ≡ some wire
    → (rest : Bytes) × (wire ≡ m.header.id / 256 ∷ m.header.id % 256 ∷ rest)

built-spells :
    (P : Platform)
    → PacksId P
    → (random : Random) (name rtype : Text) {b : Built} → build_query P random name rtype ≡ ok b
    → (rest : Bytes) × (b.wire ≡ b.id / 256 ∷ b.id % 256 ∷ rest)
unfolding query_message
built-spells P packs random name rtype {b} h =
    let facts = build_query-IsBuilt P random name rtype b h in packs _ b.wire facts.packed

-- Whatever the protocol, the first two bytes of the wire that is sent are the ID that the response
-- must have, its higher byte first. The package dnsmessage is taken to pack the ID there.
pub sent_wire-spells :
    (P : Platform)
    → PacksId P
    → (random : Random) (name rtype protocol : Text) {b : Built}
    → build_query P random name rtype ≡ ok b
    → (rest : Bytes) × (sent_wire protocol b
        ≡ sent_id protocol b / 256 ∷ sent_id protocol b % 256 ∷ rest)
unfolding sent_wire sent_id clear_id
sent_wire-spells P packs random name rtype protocol {b} h =
    let (rest, e) = built-spells P packs random name rtype h in (rest, ground arith)

-- Over DoH, DoH3 and DoQ the wire that is sent begins with two zero bytes and else is the wire
-- that was built, and the response must have the ID zero.
pub sent_wire_zero :
    (P : Platform)
    → PacksId P
    → (random : Random) (name rtype protocol : Text) {b : Built}
    → build_query P random name rtype ≡ ok b
    → (protocol ≡ codes "doh") ⊎ (protocol ≡ codes "doh3") ⊎ (protocol ≡ codes "doq")
    → (rest : Bytes) × (b.wire ≡ b.id / 256 ∷ b.id % 256 ∷ rest)
      × (sent_wire protocol b ≡ 0 ∷ 0 ∷ rest)
      × (sent_id protocol b ≡ 0)
unfolding sent_wire sent_id clear_id wants_zero_id
sent_wire_zero P packs random name rtype protocol {b} h which =
    let (rest, e) = built-spells P packs random name rtype h in
    let zero_id : wants_zero_id protocol ≡ true = ground (
      arith,
      text_eq_complete protocol (codes "doh"),
      text_eq_complete protocol (codes "doh3"),
      text_eq_complete protocol (codes "doq"),
    ) in
    (rest, e, ground arith, ground arith)
