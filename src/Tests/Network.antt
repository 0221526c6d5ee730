-- ===== src/Tests/Network.antt =====
-- A network that answers: sockets, the connections of each transport, and a client.
use encrypted_dns_skill.Base.{leb, if◌then◌else◌, ◌++◌, pos, [], ◌∷◌, some, none}
use encrypted_dns_skill.Errors.{Fallible, ◌>>=◌, ok, err, end_of_file, external}
use encrypted_dns_skill.Frame.{Reader}
use encrypted_dns_skill.Model.{QueryOptions}
use encrypted_dns_skill.Tests.Fixtures.{doh_options}
use encrypted_dns_skill.Text.{Text, Bytes, codes}
use encrypted_dns_skill.Transport.Dial.{Sockets}
use encrypted_dns_skill.Transport.DnsCrypt.{CryptNet}
use encrypted_dns_skill.Transport.Doq.{DoqNet}
use encrypted_dns_skill.Transport.Doh.{doh_transport}
use encrypted_dns_skill.Transport.Dot.{DotNet}
use encrypted_dns_skill.Transport.Https.{HttpNet, Client, over_tls, Response, dns_message}
use encrypted_dns_skill.Transport.Network.{Network}
use encrypted_dns_skill.Transport.Network.Configured.{config_of}
use encrypted_dns_skill.Transport.{TlsConfig, TlsState, version_tls13}

-- What a handshake for this protocol gives: TLS 1.3, where the configuration allows it.
abbrev pub negotiated : TlsConfig → Text → Fallible TlsState
negotiated config protocol =
    if leb config.min_version version_tls13
    then ok (record { version = version_tls13; chains = 1; protocol = protocol })
    else err (external (codes "protocol version not supported"))

-- The answer `OK` to CONNECT, with an empty line.
abbrev pub sockets : Sockets
sockets = record {
  dial = λ address. ok tt;
  proxy_deadline = ok tt;
  proxy_tls = λ config. ok tt;
  write_request = λ target credentials. ok tt;
  answer = record { bytes = 79 ∷ 75 ∷ 13 ∷ 10 ∷ 13 ∷ 10 ∷ []; stop = end_of_file };
  status_of = λ header. ok 200;
}

-- The frame of the two bytes that the platform unpacks to the reply.
abbrev pub framed_reply : Reader
framed_reply = record { bytes = 0 ∷ 2 ∷ 18 ∷ 52 ∷ []; stop = end_of_file }

abbrev pub dot_net : DotNet
dot_net = record {
  sockets = sockets;
  from_environment = λ url. ok none;
  deadline = ok tt;
  handshake = λ config. negotiated config (codes "dot");
  writer = λ call size. (size, none);
  reader = framed_reply;
  elapsed = 12;
}

abbrev pub doq_net : DoqNet
doq_net = record {
  dial = λ address config quic.
      negotiated config (codes "doq") >>= λ tls. ok (record { tls = tls; version = codes "v1" });
  open_stream_sync = ok tt;
  deadline = ok tt;
  writer = λ call size. (size, none);
  close = ok tt;
  reader = framed_reply;
  elapsed = 12;
}

abbrev pub http_response : Response
http_response = record {
  proto = codes "HTTP/2.0";
  proto_major = 2;
  age = codes "10";
  tls = some (record { version = 772; chains = 1; protocol = codes "h2" });
  status = 200;
  content_type = dns_message;
  body = record { bytes = 0 ∷ 0 ∷ []; stop = end_of_file };
}

abbrev pub http_net : HttpNet
http_net = record {
  from_environment = λ url. ok none;
  with_dns = λ url dns. url.host ++ dns;
  new_request = λ request. ok tt;
  send_request = λ client request. negotiated (config_of client.transport) (codes "h2") >>= λ tls.
      ok (record http_response { tls = some tls });
  parse_int = λ text. some (pos 10);
  media_type = λ text. some text;
  elapsed = 12;
  captured = none;
}

abbrev pub crypt_net : CryptNet Bytes
crypt_net = record {
  unpack = λ wire. some wire;
  pack = λ wire. some wire;
  first = record { context_error = none; remaining = none };
  second = record { context_error = none; remaining = none };
  dial = λ client stamp. err (external (codes "unreachable"));
  exchange = λ client query resolver. ok query;
  elapsed = 12;
}

abbrev pub network : Network Bytes
network = record {
  doh = http_net;
  dot = dot_net;
  doq = doq_net;
  doh3 = http_net;
  dnscrypt = crypt_net;
}

abbrev pub client : Client
client = record { transport = over_tls (doh_transport none); redirect = λ url via. ok tt }

abbrev pub query_wire : Bytes
query_wire = 18 ∷ 52 ∷ 1 ∷ []

abbrev pub dot_options : QueryOptions
dot_options = record doh_options { protocol = codes "dot" }
