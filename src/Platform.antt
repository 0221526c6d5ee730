-- ===== src/Platform.antt =====
-- What the program takes from outside: generated Unicode and IDNA tables, the parsers of
-- addresses, URLs and durations, and the packages dnsmessage and dnsstamps. All of it is one
-- record of functions, a parameter of the model; laws are hypotheses where they are needed.
use encrypted_dns_skill.Base.{ℕ, Bool, Option, ℤ, if◌then◌else◌, map, ◌&&◌}
use encrypted_dns_skill.Text.{
  Text, Bytes, is_ascii, lower_byte, upper_byte, trim_left, trim_right, text_eq,
}
use encrypted_dns_skill.Dns.Message.{Message}

-- `netip.Addr`: the bytes of an IPv4 or IPv6 address, and the zone of the latter or an empty text.
pub data Addr : Type 0 where
  v4 : ℕ → ℕ → ℕ → ℕ → Addr
  v6 : Bytes → Text → Addr

-- The parts of a `url.URL` that the program reads or clears; `hostname` is `Hostname()`.
-- A user has a name and a password, which is empty where none is given.
pub record Url : Type 0 where
  pub scheme : Text
  pub user : Option (Text × Text)
  pub host : Text
  pub hostname : Text
  pub path : Text
  pub raw_path : Text
  pub raw_query : Text
  pub fragment : Text

pub record Platform : Type 0 where
  -- `strings.ToLower`, `strings.ToUpper`, `strings.TrimSpace` and `strings.EqualFold` where a
  -- text is not ASCII
  pub unicode_lower : Text → Text
  pub unicode_upper : Text → Text
  pub unicode_trim : Text → Text
  pub unicode_fold : Text → Text → Bool
  -- `idna.Lookup.ToASCII`
  pub to_ascii : Text → Option Text
  -- `net.ParseIP(s) != nil`, `netip.ParseAddr` and `net.IP.String` of sixteen bytes
  pub is_ip : Text → Bool
  pub parse_addr : Text → Option Addr
  pub ip_string : Bytes → Text
  -- `time.ParseDuration` in nanoseconds, and `strconv.Atoi`
  pub parse_duration : Text → Option ℤ
  pub atoi : Text → Option ℤ
  -- `url.Parse` and `URL.String`
  pub parse_url : Text → Option Url
  pub url_string : Url → Text
  -- whether `net.SplitHostPort` accepts a text, and `net.JoinHostPort`
  pub has_port : Text → Bool
  pub join_host_port : Text → Text → Text
  -- dnsmessage: `NewName`, `Message.Pack`, `Message.Unpack` and `SVCParamKey.String`
  pub new_name : Text → Option Text
  pub pack : Message → Option Bytes
  pub unpack : Bytes → Option Message
  pub svc_key_string : ℕ → Text
  -- `dnsstamps.ServerStamp.String`: address, key, provider name, properties
  pub stamp_string : Text → Bytes → Text → ℕ → Text
  -- `dnsstamps.ServerInformalPropertyDNSSEC | dnsstamps.ServerInformalPropertyNoLog`
  pub dnssec_no_log : ℕ

module _ (P : Platform) where
  unfoldable pub to_lower : Text → Text
  unfolding is_ascii lower_byte
  to_lower s = if is_ascii s then map lower_byte s else P.unicode_lower s

  unfoldable pub to_upper : Text → Text
  unfolding is_ascii upper_byte
  to_upper s = if is_ascii s then map upper_byte s else P.unicode_upper s

  unfoldable pub trim_space : Text → Text
  unfolding is_ascii trim_left trim_right
  trim_space s = if is_ascii s then trim_right (trim_left s) else P.unicode_trim s

  unfoldable pub equal_fold : Text → Text → Bool
  unfolding is_ascii lower_byte text_eq
  equal_fold s t =
      if is_ascii s && is_ascii t
      then text_eq (map lower_byte s) (map lower_byte t)
      else P.unicode_fold s t
