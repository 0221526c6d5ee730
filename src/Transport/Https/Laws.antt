-- ===== src/Transport/Https/Laws.antt =====
-- The exchanges over HTTPS: what an answer rests on, on every branch the age.
use encrypted_dns_skill.Base.{
  ap, false, ℕ, ◌+◌, ◌≤◌, ◌<◌, leb, take, length-take, ◌∙◌, ℤ, pos, negsuc, true, not, ◌||◌, ◌==◌,
  ltb, Option, none, some, ◌≡◌, ◌≢◌, ◌⊎◌, refl, sym, inl, inr, arith, Bool-cases, length,
}
use encrypted_dns_skill.Errors.{
  Error, end_of_file, read_body, response_too_long, Fallible, ok, err, ◌>>◌, refuse_if,
}
use encrypted_dns_skill.Errors.Laws.{
  Fallible-cases, err-ne-ok, ok-injective, refuse_if-eq-ok, >>=-eq-ok,
}
use encrypted_dns_skill.Frame.{max_dns_message_size}
use encrypted_dns_skill.Model.{TransportInfo}
use encrypted_dns_skill.Platform.{Platform}
use encrypted_dns_skill.Text.{Text, Bytes, codes, text_eq, is_empty}
use encrypted_dns_skill.Text.Equality.{text_eq_sound, text_eq_complete}
use encrypted_dns_skill.Transport.{TlsState}
use encrypted_dns_skill.Transport.Dial.{wrap_error}
use encrypted_dns_skill.Transport.Dot.{tls_version_name}
use encrypted_dns_skill.Transport.Https.{
  Request, Response, Client, read_limited, HttpNet, read_payload, is_dns_message, read_content,
  check_http3, tls_info, check_tls, age_of, read_age, receive_http, request_of, perform,
  exchange_https,
}

-- A response of HTTP that carries an answer, the bytes of its whole body: over a connection with
-- a verified chain of certificates, of a status 2xx and the content type of DNS messages, of at
-- most 65535 bytes; for DoH3 over HTTP/3 with the protocol `h3`.
pub record IsHttpAnswer (N : HttpNet) (P : Platform) (protocol : Text) (r : Response)
    (payload : Bytes) (info : TransportInfo) : Type 0 where
  pub state : TlsState
  pub connected : r.tls ≡ some state
  pub verified : state.chains ≢ 0
  pub http3 : (protocol ≢ codes "doh3") ⊎ ((r.proto_major ≡ 3) × (state.protocol ≡ codes "h3"))
  pub low_status : 200 ≤ r.status
  pub high_status : r.status ≤ 299
  pub media : is_dns_message P (N.media_type r.content_type) ≡ true
  pub content : payload ≡ r.body.bytes
  pub ended : r.body.stop ≡ end_of_file
  pub short : length payload ≤ 65535
  pub authenticated : info.server_authenticated ≡ true
  pub negotiated : info.alpn ≡ state.protocol
  pub versioned : info.tls_version ≡ tls_version_name state.version

short_read_whole :
    (n : ℕ) (bytes payload : Bytes) (stop : Error)
    → leb n (length bytes) ≡ false
    → read_limited n bytes stop ≡ ok payload
    → (payload ≡ bytes) × (stop ≡ end_of_file)
unfolding read_limited
short_read_whole n bytes payload end_of_file q h =
    (sym (ok-injective (rw (q, read_limited) at h)), refl)
short_read_whole n bytes payload stop q h = ground arith

-- What `io.ReadAll` gives of fewer bytes than the limit is the whole of them.
read_limited_whole :
    (n : ℕ) (bytes payload : Bytes) (stop : Error)
    → read_limited n bytes stop ≡ ok payload
    → length payload < n
    → (payload ≡ bytes) × (stop ≡ end_of_file)
unfolding read_limited
read_limited_whole n bytes payload stop h k = elim (Bool-cases (leb n (length bytes))) [
  | inl q ↦
      let same : take n bytes ≡ payload = ok-injective (rw (q, read_limited) at h) in
      absurd (omega (arith, length-take {0} n bytes (ground arith), ap (λ t. length t) same))
  | inr q ↦ short_read_whole n bytes payload stop q h
]

wrapped-ok :
    (f : Error → Error) (m : Fallible Bytes) {payload : Bytes}
    → wrap_error f m ≡ ok payload
    → m ≡ ok payload
wrapped-ok f (ok a) h = h
wrapped-ok f (err e) h = absurd (err-ne-ok _ _ h)

module _ (N : HttpNet) (P : Platform) where
  read_content-ok :
      (r : Response) (payload : Bytes)
      → read_content N P r ≡ ok payload
      → (200 ≤ r.status)
        × (r.status ≤ 299)
        × (is_dns_message P (N.media_type r.content_type) ≡ true)
        × (payload ≡ r.body.bytes)
        × (r.body.stop ≡ end_of_file)
        × (length payload ≤ 65535)
  unfolding read_content read_payload
  read_content-ok r payload h =
      let (p1, h1) = refuse_if-eq-ok (ltb r.status 200 || ltb 299 r.status) _ _ h in
      let (p2, h2) =
        refuse_if-eq-ok (not (is_dns_message P (N.media_type r.content_type))) _ _ h1 in
      let (bytes, q, h3) =
        >>=-eq-ok
          (wrap_error read_body (read_limited (max_dns_message_size + 1) r.body.bytes r.body.stop))
          (λ x. refuse_if (ltb max_dns_message_size (length x)) response_too_long >> ok x) h2 in
      let (p3, h4) = refuse_if-eq-ok (ltb max_dns_message_size (length bytes)) _ _ h3 in
      let same : bytes ≡ payload = ok-injective h4 in
      let short : length bytes ≤ 65535 = ground arith in
      let (whole, ended) =
        read_limited_whole (max_dns_message_size + 1) r.body.bytes bytes r.body.stop
          (wrapped-ok read_body _ q) (omega arith) in
      (ground arith, ground arith, ground arith, sym same ∙ whole, ended, rw same at short)

  check_http3-ok :
      (protocol : Text) (r : Response) (alpn : Text) {u : Unit {0}}
      → check_http3 N P protocol r alpn ≡ ok u
      → (protocol ≢ codes "doh3") ⊎ ((r.proto_major ≡ 3) × (alpn ≡ codes "h3"))
  unfolding check_http3
  check_http3-ok protocol r alpn h = elim (Bool-cases (text_eq protocol (codes "doh3"))) [
    | inr q ↦ inl (λ e. ground (arith, text_eq_complete protocol (codes "doh3") e))
    | inl q ↦ inr (ground arith, text_eq_sound alpn (codes "h3") (ground arith))
  ]

  check_tls-IsHttpAnswer :
      (protocol : Text) (r : Response) (o : Option TlsState) (payload : Bytes)
      (info : TransportInfo)
      → r.tls ≡ o
      → (check_tls N P protocol r o info).0 ≡ ok payload
      → IsHttpAnswer N P protocol r payload (check_tls N P protocol r o info).1
  unfolding check_tls tls_info
  check_tls-IsHttpAnswer protocol r none payload info e h = absurd (err-ne-ok _ _ h)
  check_tls-IsHttpAnswer protocol r (some st) payload info e h =
      elim (Bool-cases (st.chains == 0)) [
        | inl t ↦ absurd (err-ne-ok _ _ (rw (t, check_tls) at h))
        | inr t ↦
            let (u, third, content) =
              >>=-eq-ok (check_http3 N P protocol r st.protocol) (λ _. read_content N P r)
                (rw (t, check_tls) at h) in
            let (low, high, media, whole, ended, short) = read_content-ok r payload content in
            rw (t, check_tls)
              (record {
                state = st;
                connected = e;
                verified = ground arith;
                http3 = check_http3-ok protocol r st.protocol third;
                low_status = low;
                high_status = high;
                media = media;
                content = whole;
                ended = ended;
                short = short;
                authenticated = refl;
                negotiated = refl;
                versioned = refl;
              })
      ]

  receive-IsHttpAnswer :
      (protocol : Text) (info : TransportInfo) (r : Response) (payload : Bytes)
      → (receive_http N P protocol info r).0 ≡ ok payload
      → IsHttpAnswer N P protocol r payload (receive_http N P protocol info r).1
  unfolding receive_http
  receive-IsHttpAnswer protocol info r payload h = elim (Fallible-cases (read_age N P r)) [
    | inr (e, q) ↦ absurd (err-ne-ok _ _ (rw (q, receive_http) at h))
    | inl (age, q) ↦
        rw (q, receive_http)
          (check_tls-IsHttpAnswer protocol r r.tls payload _ refl (rw (q, receive_http) at h))
  ]

  -- An answer over DoH or DoH3 is the whole body, read to its end, of a response to the request
  -- that the method makes: it came over a connection with a verified chain of certificates, with a
  -- status from 200 to 299 and the content type of DNS messages, and has at most 65535 bytes; over
  -- DoH3 the response is of HTTP/3 and the protocol `h3` was negotiated. The result says that the
  -- server is authenticated, with the protocol and the version that were negotiated.
  pub exchange_https-IsHttpAnswer :
      (client : Client) (endpoint : Text) (wire : Bytes) (method protocol : Text) (payload : Bytes)
      → (exchange_https N P client endpoint wire method protocol).0 ≡ ok payload
      → (request : Request) × (response : Response) × (request_of N P endpoint wire method
          ≡ ok request)
        × (N.send_request client request ≡ ok response)
        × IsHttpAnswer N P protocol response payload
            (exchange_https N P client endpoint wire method protocol).1
  unfolding exchange_https perform
  exchange_https-IsHttpAnswer client endpoint wire method protocol payload h =
      elim (Fallible-cases (request_of N P endpoint wire method)) [
        | inr (e, q) ↦ absurd (err-ne-ok _ _ (rw (q, exchange_https) at h))
        | inl (request, q) ↦ elim (Fallible-cases (N.new_request request)) [
          | inr (e, k) ↦ absurd (err-ne-ok _ _ (rw (q, exchange_https, perform, k) at h))
          | inl (u, k) ↦ elim (Fallible-cases (N.send_request client request)) [
            | inr (e, l) ↦ absurd (err-ne-ok _ _ (rw (q, exchange_https, perform, k, l) at h))
            | inl (response, l) ↦ (
              request,
              response,
              q,
              l,
              rw (q, exchange_https, perform, k, l)
                  (receive-IsHttpAnswer protocol _ response payload
                    (rw (q, exchange_https, perform, k, l) at h)),
            )
          ]
        ]
      ]

  -- The age of the result is never negative.
  abbrev pub HasAge : TransportInfo → Type 0
  HasAge info = (n : ℕ) × (info.http_age_seconds ≡ pos n)

  age_of-pos :
      (age : Text) (o : Option ℤ) (seconds : ℤ)
      → age_of N P age o ≡ ok seconds
      → (n : ℕ) × (seconds ≡ pos n)
  unfolding age_of
  age_of-pos age none seconds h = absurd (err-ne-ok _ _ h)
  age_of-pos age (some (negsuc n)) seconds h = absurd (err-ne-ok _ _ h)
  age_of-pos age (some (pos n)) seconds h = (n, sym (ok-injective h))

  read_age-pos :
      (r : Response) (seconds : ℤ) → read_age N P r ≡ ok seconds → (n : ℕ) × (seconds ≡ pos n)
  unfolding read_age
  read_age-pos r seconds h = elim (Bool-cases (is_empty r.age)) [
    | inl q ↦ (0, sym (ok-injective (rw (q, read_age) at h)))
    | inr q ↦ age_of-pos r.age (N.parse_int r.age) seconds (rw (q, read_age) at h)
  ]

  check_tls-HasAge :
      (protocol : Text) (r : Response) (o : Option TlsState) (info : TransportInfo)
      → HasAge info
      → HasAge (check_tls N P protocol r o info).1
  unfolding check_tls tls_info
  check_tls-HasAge protocol r none info h = h
  check_tls-HasAge protocol r (some st) info h = elim (Bool-cases (st.chains == 0)) [
    | inl t ↦ rw (t, check_tls) h
    | inr t ↦ rw (t, check_tls) h
  ]

  -- Whatever the server sends in the header `Age`, and on every branch of the exchange, the age
  -- that the result has is a number of seconds that is not negative.
  pub exchange_https-HasAge :
      (client : Client) (endpoint : Text) (wire : Bytes) (method protocol : Text)
      → HasAge (exchange_https N P client endpoint wire method protocol).1
  unfolding exchange_https perform receive_http
  exchange_https-HasAge client endpoint wire method protocol =
      elim (Fallible-cases (request_of N P endpoint wire method)) [
        | inr (e, q) ↦ rw (q, exchange_https) (0, refl)
        | inl (request, q) ↦ elim (Fallible-cases (N.new_request request)) [
          | inr (e, k) ↦ rw (q, exchange_https, perform, k) (0, refl)
          | inl (u, k) ↦ elim (Fallible-cases (N.send_request client request)) [
            | inr (e, l) ↦ rw (q, exchange_https, perform, k, l) (0, refl)
            | inl (r, l) ↦ elim (Fallible-cases (read_age N P r)) [
              | inr (e, m) ↦ rw (q, exchange_https, perform, k, l, receive_http, m) (0, refl)
              | inl (age, m) ↦
                  rw (q, exchange_https, perform, k, l, receive_http, m)
                    (check_tls-HasAge protocol r r.tls _ (read_age-pos r age m))
            ]
          ]
        ]
      ]
